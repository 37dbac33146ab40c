-- ===== src/Conversations/Tests.antt =====
-- A conversation of a tenant, read by the tenant's widget and with a demo token.
use leadpulse.Prelude.Text.{starts_with}
use leadpulse.Access.{get_current_user, bearer, of_claims}
use leadpulse.Memory.{get_cached_session_state}
use leadpulse.Agent.State.{null, Stage, NodeName}
use leadpulse.Agent.Turn.{Row}
use mathlib.Core.List.{Perm}
use leadpulse.Conversations.Pages.{
  pages, list_conversations, get_conversations_by_tenant, rows_of_tenant, order_rows, insert_row,
}
use leadpulse.Conversations.Pages.Complete.{IsNewestFirst, list_conversations-pages}
use leadpulse.Conversations.Debug.{get_debug_state, get_debug_state-widget}
use leadpulse.Prelude.{
  ℕ, Bool, if◌then◌else◌, ◌==◌, keep_if, false, List, arith, true, ◌≡◌, refl, none, some, [], ◌∷◌,
}
use leadpulse.Prelude.Text.{text, text_eq}
use leadpulse.Billing.{
  text_is, Organization, trialing, get_organization_by_widget_key, scalar_one_or_none,
  is_billing_current,
}
use leadpulse.Access.{Identity, Outside, AccessSettings, Headers, granted, authenticate_request}
use leadpulse.Accounts.Requests.{ok}
use leadpulse.Memory.{Conversation, has_session, get_conversation}
use leadpulse.Conversations.{with_session, get_conversation_history}
use leadpulse.Conversations.Disclosure.{
  MayRead, get_conversation_history-MayRead, get_conversation_history-demo,
}

abbrev acme : Organization
acme = record {
  id = 1;
  slug = text "acme";
  widget_key = some (text "wk");
  is_active = true;
  billing_status = trialing;
  customer_id = none;
  last_payment_at = none;
  next_payment_due_at = none;
}

abbrev outside : Outside
outside = record {
  decode_token = λ t. none;
  verify_demo_token = λ t s. text_eq s (text "demo-1");
  parse_uuid = λ t. some 1;
  users = λ u. none;
  organizations = acme ∷ [];
}

abbrev settings : AccessSettings
settings = record { auth_enabled = true; api_key = text "secret" }

abbrev widget : Headers
widget = record {
  api_key = none;
  demo_token = none;
  widget_key = some (text "wk");
  authorization = none;
  session_id = none;
}

abbrev demo : Headers
demo = record widget { widget_key = none; demo_token = some (text "t") }

abbrev of_acme : Conversation
of_acme = record { session_id = text "s1"; tenant_id = some (1 ∷ []); row = none }

shown :
    get_conversation_history outside settings (λ n. n ∷ []) widget none (text "s1") (of_acme ∷ [])
    ≡ ok of_acme
unfolding get_conversation_history authenticate_request get_organization_by_widget_key
    scalar_one_or_none is_billing_current get_conversation text_eq
shown = refl

get_conversation_history-MayRead_example :
    (i : Identity) × (authenticate_request outside settings
        (with_session none (some (text "s1")) widget)
      ≡ granted i)
    × (of_acme.session_id ≡ text "s1")
    × MayRead outside settings (λ n. n ∷ []) i of_acme
get_conversation_history-MayRead_example =
    get_conversation_history-MayRead outside settings (λ n. n ∷ []) widget none (text "s1")
      (of_acme ∷ []) of_acme shown

get_conversation_history-demo_example :
    get_conversation_history outside settings
      (λ n. n ∷ [])
      demo
      (some (some (text "demo-1")))
      (text "s1")
      (of_acme ∷ [])
    ≡ ok of_acme
unfolding text_eq get_conversation
get_conversation_history-demo_example =
    get_conversation_history-demo outside settings (λ n. n ∷ []) demo (text "t") (text "demo-1")
      (text "s1") (of_acme ∷ []) of_acme refl refl refl refl refl refl

-- A user of the organization, by a token, and the pages of its conversations.
abbrev with_users : Outside
with_users = record outside {
  decode_token = λ t. some (record {
    type = some (text "access");
    sub = some (text "u");
    role = none;
    org_id = some (text "1");
  });
  users = λ u. some (record { is_active = true });
}

abbrev signed_in : Headers
signed_in = record widget { widget_key = none; authorization = some (text "Bearer tok") }

abbrev user : Identity
user = record { user_id = some 1; role = text "agent"; organization = some 1 }

abbrev rows : List Conversation
rows =
    of_acme
    ∷ record of_acme { tenant_id = some (2 ∷ []) }
    ∷ record of_acme { session_id = text "s2" }
    ∷ []

-- The second session of acme is the newer one.
abbrev made : Conversation → ℕ
made c = if text_eq c.session_id (text "s2") then 5 else 4

abbrev any_order : ℕ → Conversation → Conversation → Bool
any_order offset c d = offset == 0

list_conversations-pages_example :
    IsNewestFirst made (pages made any_order with_users settings (λ n. n ∷ []) signed_in 1 rows 0 2)
    × Perm
        (pages made any_order with_users settings (λ n. n ∷ []) signed_in 1 rows 0 2)
        (keep_if (λ c. text_is c.tenant_id (1 ∷ [])) rows)
unfolding get_current_user bearer of_claims starts_with text_eq
list_conversations-pages_example =
    list_conversations-pages made any_order with_users settings (λ n. n ∷ []) signed_in user 1 1 2
      rows refl refl ((refl, tt), (tt, tt)) (omega arith)

-- Of two rows of one time the first may stand on both pages, and the other on none.
repeated :
    pages
      (λ c. 4)
      (λ offset c d. if offset == 0 then has_session (text "s2") c else has_session (text "s2") d)
      with_users
      settings
      (λ n. n ∷ [])
      signed_in
      1
      rows
      0
      2
    ≡ record of_acme { session_id = text "s2" } ∷ record of_acme { session_id = text "s2" } ∷ []
unfolding pages list_conversations get_conversations_by_tenant rows_of_tenant order_rows insert_row
    get_current_user bearer of_claims starts_with text_eq
repeated = refl

abbrev saved : Row
saved = record {
  lead_name = null;
  company_name = null;
  industry = null;
  budget = none;
  timeline = null;
  problem_statement = null;
  qualification_score = none;
  lead_status = none;
  lead_intent = none;
  lead_type = none;
  booking_confirmed = false;
  meeting_time = none;
  conversation_history = [];
  conversation_stage = Stage.greeting;
  current_node = NodeName.greeting;
  human_escalated = false;
}

-- A conversation of another tenant.
abbrev of_globex : Conversation
of_globex = record { session_id = text "s9"; tenant_id = some (2 ∷ []); row = some saved }

get_debug_state-widget_example :
    (get_debug_state outside settings
      (λ n. n ∷ [])
      widget
      none
      (text "s9")
      0
      (record { rows = of_globex ∷ []; redis = none })).0
    ≡ ok saved
unfolding get_organization_by_widget_key scalar_one_or_none is_billing_current get_conversation
    text_eq bearer get_cached_session_state
get_debug_state-widget_example =
    get_debug_state-widget outside settings (λ n. n ∷ []) widget none (text "s9") (text "wk") 0
      (record { rows = of_globex ∷ []; redis = none }) acme of_globex saved refl refl refl refl refl
      refl
