-- ===== src/Crm/Clients.antt =====
-- The calls of push_lead of each kind of client: the classes of app/integrations/registry.py.
use leadpulse.Prelude.{
  ℕ, zero, suc, Bool, false, Option, none, some, List, [], if◌then◌else◌, is_some, or_else,
}
use leadpulse.Prelude.Text.{Text, text, text_eq}
use leadpulse.Agent.State.{Json, str}
use leadpulse.Crm.{
  Dict, get, get_or, PushResult, apply_field_mapping, Attempt, returned, fallback_push,
}
use leadpulse.Crm.Fub.{Service, Client, names, push_calls}
use leadpulse.Crm.Kvcore.{KvcoreService, KvcoreConfig, KvcoreSession, push_kvcore}
use leadpulse.Crm.Ams360.{Ams360Service, Ams360Config, push_ams360}
use leadpulse.Crm.Push.{Integration, webhook_fallback, client, Credentials}

-- The calls of a client that holds a state between them.
unfoldable pub nth_call {ℓ κ} : {S : Type ℓ} {A : Type κ} → (ℕ → S → A × S) → S → ℕ → A
nth_call call s zero = (call zero s).0
nth_call call s (suc k) = nth_call (λ n. call (suc n)) (call zero s).1 k

-- `credentials.get(key, "")` of credentials that are texts.
abbrev of_text : Json → Text
of_text (str s) = s
of_text _ = []

abbrev credential : Text → Credentials → Text
credential key c = of_text (get_or (str []) key c.values)

abbrev optional : Text → Credentials → Option Text
optional key c = elim (get key c.values) [ none ↦ none | some v ↦ some (of_text v) ]

abbrev pub fub_client : Credentials → Client
fub_client c = record {
  api_key = credential (text "api_key") c;
  source = or_else (optional (text "source") c) (text "LeadAgent");
  field_mapping = c.field_mapping;
}

abbrev pub kvcore_config : Credentials → KvcoreConfig
kvcore_config c = record {
  api_key = credential (text "api_key") c;
  api_secret = credential (text "api_secret") c;
  company_id = credential (text "company_id") c;
  field_mapping = c.field_mapping;
}

abbrev pub kvcore_session : Credentials → KvcoreSession
kvcore_session c = record {
  access_token = optional (text "access_token") c;
  refresh_token = optional (text "refresh_token") c;
  connected = false;
}

abbrev pub ams360_config : Credentials → Ams360Config
ams360_config c = record {
  api_key = credential (text "api_key") c;
  api_secret = credential (text "api_secret") c;
  agency_id = credential (text "agency_id") c;
  field_mapping = c.field_mapping;
}

-- The answers of the three services to each call.
pub record Services : Type 0 where
  pub fub : ℕ → Service
  pub kvcore : ℕ → KvcoreService
  pub ams360 : ℕ → Ams360Service

unfoldable pub client_calls : Services → Integration → Dict → ℕ → Attempt PushResult
unfolding nth_call
client_calls w webhook_fallback d k = returned (fallback_push d)
client_calls w (client t c) d k =
    if text_eq t (text "fub")
    then push_calls w.fub (fub_client c) d k
    else if text_eq t (text "kvcore")
    then nth_call (λ n. push_kvcore (w.kvcore n) (kvcore_config c) d) (kvcore_session c) k
    else nth_call (λ n. push_ams360 (w.ams360 n) (ams360_config c) d)
        (record { token = none; connected = false }) k

abbrev pub mapping_of : Integration → List (Text × Text)
mapping_of webhook_fallback = []
mapping_of (client t c) = c.field_mapping

-- The name of a lead, as a client reads it, is a text or missing.
abbrev pub has_name : Integration → Dict → Bool
has_name i d =
    is_some (names (get_or (str []) (text "lead_name") (apply_field_mapping (mapping_of i) d)))
