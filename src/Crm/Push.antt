-- ===== src/Crm/Push.antt =====
-- A push of a lead: app/agent/tools/crm.py, the resolution of app/integrations/registry.py,
-- log_crm_push of app/database/crud.py and enqueue_crm_push of app/services/redis.py.
use leadpulse.Prelude.{
  ℕ, ltb, Bool, false, not, ◌&&◌, Option, none, some, List, [], ◌∷◌, ◌++◌, if◌then◌else◌, keep_if,
  any, or_else,
}
use leadpulse.Prelude.Text.{Text, text, text_eq}
use leadpulse.Agent.State.{Json}
use leadpulse.Crm.{Dict, PushResult, Attempt, returned, raised, retry_with_backoff}

-- Decrypted credentials, with the field mapping taken out.
pub record Credentials : Type 0 where
  pub values : Dict
  pub field_mapping : List (Text × Text)

-- A row of crm_configs.
pub record ConfigRow : Type 0 where
  pub organization_id : Text
  pub integration_type : Text
  pub config : Option Text
  pub is_active : Bool
  pub created_at : ℕ

pub data Integration : Type 0 where
  webhook_fallback : Integration
  client : Text → Credentials → Integration

abbrev pub integration_type : Integration → Text
integration_type webhook_fallback = text "webhook"
integration_type (client t c) = t

-- `register_integration` of the built-in clients.
abbrev registered : Text → Bool
registered t = any (text_eq t) (text "fub" ∷ text "kvcore" ∷ text "ams360" ∷ [])

abbrev is_connector : Text → ConfigRow → Bool
is_connector tenant c =
    text_eq c.organization_id tenant
    && c.is_active
    && not (text_eq c.integration_type (text "gemini"))

-- The first of the rows ordered by `created_at`, newest first; rows of one time keep their order.
abbrev newer : ConfigRow → Option ConfigRow → ConfigRow
newer c none = c
newer c (some d) = if ltb c.created_at d.created_at then d else c

unfoldable pub newest : List ConfigRow → Option ConfigRow
newest [] = none
newest (c ∷ cs) = some (newer c (newest cs))

-- What the push needs of other systems: `decrypt` is decrypt_json with the tenant's field mapping
-- taken out; `configs` is the table of configurations, or the error of the database; `calls` is what
-- the calls of push_lead of an integration give, one after the other (client_calls of Crm.Clients);
-- `writes_log` tells whether the log can be written.
pub record Systems : Type 0 where
  pub decrypt : Text → Attempt Credentials
  pub configs : Attempt (List ConfigRow)
  pub calls : Integration → Dict → ℕ → Attempt PushResult
  pub jitter : ℕ → ℕ
  pub writes_log : Bool

abbrev no_credentials : Credentials
no_credentials = record { values = []; field_mapping = [] }

-- The client of a row.
abbrev pub client_of : Systems → Option ConfigRow → Attempt Integration
client_of w none = returned webhook_fallback
client_of w (some c) =
    if registered c.integration_type
    then elim c.config [
      | none ↦ returned (client c.integration_type no_credentials)
      | some encrypted ↦ elim (w.decrypt encrypted) [
        | raised e ↦ raised e
        | returned credentials ↦ returned (client c.integration_type credentials)
      ]
    ]
    else returned webhook_fallback

unfoldable pub resolve_integration : Systems → Text → Attempt Integration
unfolding newest
resolve_integration w tenant = elim w.configs [
  | raised e ↦ raised e
  | returned rows ↦ client_of w (newest (keep_if (is_connector tenant) rows))
]

-- A row of push_logs, but for the response.
pub record PushLog : Type 0 where
  pub organization_id : Text
  pub integration_type : Text
  pub session_id : Text
  pub status : Text
  pub attempt : ℕ
  pub lead_data : Dict
  pub error_message : Option Text

pub record Job : Type 0 where
  pub tenant_id : Text
  pub session_id : Text
  pub lead_data : Dict
  pub integration_type : Text
  pub attempt : ℕ

-- The log, oldest first, and the queue of jobs from its left end, or none without Redis.
pub record Outbox : Type 0 where
  pub push_logs : List PushLog
  pub queue : Option (List Job)

abbrev pub log_crm_push : PushLog → Outbox → Outbox
log_crm_push l b = record b { push_logs = b.push_logs ++ l ∷ [] }

abbrev pub lpush : Job → Option (List Job) → Option (List Job)
lpush j none = none
lpush j (some q) = some (j ∷ q)

unfoldable pub enqueue_crm_push : Job → Outbox → Outbox
enqueue_crm_push j b = record b { queue = lpush j b.queue }

pub data Report : Type 0 where
  skipped : Report
  failed : Text → Report
  pushed : Text → Option Json → Report

abbrev pub is_success : Attempt PushResult → Bool
is_success (returned r) = r.success
is_success (raised e) = false

abbrev pub status_of : Attempt PushResult → Text
status_of (returned r) = r.status
status_of (raised e) = text "failed"

abbrev pub error_of : Text → Attempt PushResult → Option Text
error_of exhausted (returned r) = r.error_message
error_of exhausted (raised e) = some exhausted

-- The lead of a session.
pub record PushedLead : Type 0 where
  pub tenant_id : Text
  pub session_id : Text
  pub lead_data : Dict

abbrev pub log_entry : PushedLead → Text → Text → ℕ → Option Text → PushLog
log_entry l type status attempt error = record {
  organization_id = l.tenant_id;
  integration_type = type;
  session_id = l.session_id;
  status = status;
  attempt = attempt;
  lead_data = l.lead_data;
  error_message = error;
}

abbrev pub first_job : PushedLead → Text → Job
first_job l type = record {
  tenant_id = l.tenant_id;
  session_id = l.session_id;
  lead_data = l.lead_data;
  integration_type = type;
  attempt = 1;
}

abbrev pub try_log : Systems → PushLog → Outbox → Outbox
try_log w l b = if w.writes_log then log_crm_push l b else b

-- The report of a result, after the log.
abbrev pub report : PushedLead → Text → Attempt PushResult → Outbox → Report × Outbox
report l type (raised e) b = (failed (text "push_error"), enqueue_crm_push (first_job l type) b)
report l type (returned r) b =
    if r.success
    then (pushed r.status r.external_id, b)
    else (failed (or_else r.error_message []), enqueue_crm_push (first_job l type) b)

abbrev pub push_with : Systems → PushedLead → Attempt Integration → Outbox → Report × Outbox
push_with w l (raised e) b = (
  failed (text "resolution_failed"),
  try_log w
      (log_entry l (text "unknown") (text "resolution_failed") 1
        (some (text "CRM integration resolution failed: " ++ e)))
      b,
)
push_with w l (returned i) b =
    let r = (retry_with_backoff w.jitter 1000 (w.calls i l.lead_data) 3).0 in
    report l (integration_type i) r (
      try_log w
        (log_entry l (integration_type i) (status_of r) 1
          (error_of (text "All retries exhausted") r))
        b)

-- `update_crm` of a session without a tenant, and of a lead.
unfoldable pub update_crm : Systems → Text → Dict → Option Text → Outbox → Report × Outbox
unfolding resolve_integration
update_crm w session lead_data none b = (skipped, b)
update_crm w session lead_data (some tenant) b =
    push_with w (record { tenant_id = tenant; session_id = session; lead_data = lead_data })
      (resolve_integration w tenant) b
