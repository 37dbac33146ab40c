-- ===== src/Lib.antt =====
-- Leadpulse qualifies sales leads in a chat: a web hook takes a lead's message, a graph of nodes
-- that ask a language model decides what to say, scores the lead, offers a meeting and hands the
-- lead to the tenant's CRM; tenants are organizations with a subscription. This library models
-- the parts of the program that decide, and proves what they do.
--
-- Parts, files and sources:
-- - Scoring: app/agent/tools/lead_scoring.py. `compute_lead_score` takes the thresholds of the
--   settings and an input; Timeline has the regular expressions of `_score_timeline`. Weights and
--   scores are hundredths; the additions and the rounding are those of IEEE doubles (Double).
-- - Objection: app/agent/tools/objection_detection.py, but for the evidence text of a result.
-- - Agent.State, Fields, Reply, Budget, Booking: app/agent/state.py and the helpers of
--   app/agent/nodes, up to the parsers of the model's answers and of budgets.
-- - Agent.World: what is outside of a turn, and what a turn does to other systems (`Effect`).
-- - Agent.Updates: what a reply of the model writes into the state, in the greeting and the
--   collecting of app/agent/nodes.
-- - Agent.Nodes: one function for each node of app/agent/nodes, from a state to the state with
--   the node's update merged in; `none` is an exception.
-- - Agent.Graph: the routes and edges of app/agent/graph.py, and a run of the compiled graph.
-- - Agent.Turn: run_agent of app/agent/graph.py, the row of app/services/memory.py, and
--   handle_message of app/api/webhook.py. `converse` is a conversation of many exchanges, each
--   with its own world.
-- - Agent.Tenants: the key and the graph of a tenant's turn in app/agent/graph.py; a graph is its
--   key and its tenant, `decrypt` is decrypt_json.
-- - Billing: app/services/billing.py, the lookups of organizations in app/database/crud.py and
--   scripts/manage_billing.py; Billing.Webhook: app/api/billing.py. The table is a list of rows.
-- - Limits: the sliding windows of app/api/deps.py and of the script of app/services/redis.py,
--   and the dependencies that limit the web hook, logins and password resets. `Store` holds the
--   windows by their keys. Times are milliseconds.
-- - Access: authenticate_request, get_current_user and require_role of app/api/deps.py.
-- - Gemini: the retries of RetryingGeminiModel in app/agent/gemini.py; Gemini.Limiter: the budget
--   of calls per minute, whose waits come on top of those of the retries; Gemini.Errors: what an
--   exception says, where one try more than there are exceptions ends the walk of their chain.
-- - Memory: ConversationMemory of app/services/memory.py with the queries of app/database/crud.py
--   and the session cache of app/services/redis.py; `handle_stored` is handle_message on them,
--   and `stored` in Memory.Refinement is the view of them that Agent.Turn works on;
--   Memory.Start: start_conversation. A value that its column does not take fails a save.
-- - Crm: the clients' base, the retries and the fallback of app/integrations; Crm.Fub, Kvcore and
--   Ams360: the three clients, which Crm.Clients puts behind one name; Crm.Status: what they say
--   of a lead; Crm.Push: app/agent/tools/crm.py and app/integrations/registry.py; Crm.Worker:
--   app/services/crm_worker.py and the queue of app/services/redis.py.
-- - Slugs: app/services/slugs.py. Registrations use it.
-- - DemoTokens: app/services/demo_tokens.py; DemoTokens.Issue: app/api/demo.py.
-- - Domains: app/services/domain.py, app/services/domain_verify.py and what app/api/branding.py
--   does to the rows; `sites_after` are the rows after a sequence of requests.
-- - Conversations: get_conversation_history of app/api/conversation.py behind
--   authenticate_request; Conversations.Pages: list_conversations, where the order of rows of
--   one time is a parameter, which each query may choose anew; Conversations.Debug:
--   app/api/debug.py with the dependencies of app/api/deps.py that only it or nothing uses.
-- - Analytics: the boundaries of dates and the rows of app/services/analytics.py;
--   Analytics.Computed: compute_org_metrics; Analytics.Rollup: run_daily_rollup and
--   upsert_daily_summary of app/database/crud.py; Analytics.Scheduler:
--   app/services/rollup_scheduler.py; Analytics.Endpoints: app/api/analytics.py.
-- - Notifications: app/agent/tools/email.py, app/agent/tools/sms.py and the recipients of
--   app/services/notifications.py; Notifications.Tenant: its notify_tenant.
-- - Calendar: the slots of app/agent/tools/calendar.py; Calendar.Links: its scheduling links, and
--   app/agent/tools/meeting_booking.py.
-- - Accounts: the rows and tokens of app/services/auth.py; Accounts.Requests and
--   Accounts.Handlers: app/api/auth.py, where a request that fails leaves the database as it
--   was. `outside` in Accounts.Sessions is what Access reads of it.
-- - Prelude and Pattern: lists, texts and the regular expressions that the program uses.
--
-- Parameters, which stand for code outside of the repository: the answer of the language model is
-- any function of the node and the state, or an exception (`World.ask`); json.loads, the UUID
-- parser, the reading of a meeting time and the slots of the calendar are functions and values of
-- the world; `Delivery.verified` is what stripe.Webhook.construct_event gives; `Outside` has the
-- decoding of tokens and the checks of demo tokens, which Accounts and DemoTokens model;
-- `Packages` and `TokenPackages` have the signing of tokens, the hashes of passwords and the
-- texts of ids; `Systems` and `Service` have what the push of a lead needs of the database, of
-- the key and of the CRM; `reply` in Limits is what a number of a script becomes on its way
-- through Redis; `Python` in Analytics has the arithmetic of floats and the texts of dates;
-- `Providers` and `Calendly` have the answers of Resend, Twilio and Calendly.
--
-- Bounds: a run of the graph has 25 steps, the default limit of the engine, which is enough for
-- any turn; the search for a slug has one round more than there are organizations. Times are
-- seconds but in Limits, Gemini, Crm, DemoTokens.Issue and Analytics; the fallback of the limiter
-- on calls, whose window other callers change during its sleeps (`others`), has as many tries as
-- its fuel, and Gemini.Bursts says how many are enough; ids are numbers, or texts in Memory and
-- Crm. A session id that is asked for is one that the database can encode, and the tenant of a
-- request is one of its organizations. Redis answers every call of a request or none. Character classes of texts are those of ASCII; budgets
-- are exact decimals, where the source has floats. The engine runs the entry node, merges its
-- update and follows the edge, as build_graph declares; keys with a reducer are appended to.
--
-- Not modelled: the prompts and logging; the reading of a response's usage and its log;
-- the page of the dashboard, palettes, onboarding and the start of the application.
pub mod Prelude
pub mod Pattern
pub mod Double
pub mod Scoring
pub mod Objection
pub mod Agent
pub mod Billing
pub mod Access
pub mod Accounts
pub mod Analytics
pub mod Calendar
pub mod Conversations
pub mod Crm
pub mod DemoTokens
pub mod Domains
pub mod Gemini
pub mod Limits
pub mod Memory
pub mod Notifications
pub mod Slugs
