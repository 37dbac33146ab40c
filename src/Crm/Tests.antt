-- ===== src/Crm/Tests.antt =====
-- A tenant with Follow Up Boss, its leads, and the theorems about their pushes.
use leadpulse.Prelude.{if◌then◌else◌, none, true, ◌≡◌, refl, some, List, [], ◌∷◌, ◌++◌, arith}
use leadpulse.Prelude.Text.{text, text_eq}
use leadpulse.Agent.State.{str, null}
use leadpulse.Crm.{Dict, returned, apply_field_mapping}
use leadpulse.Crm.Fub.{Service, Client, http_status, ok, build_payload, names, split_name}
use leadpulse.Crm.Kvcore.{KvcoreService, tokens, refused, error_status, created}
use leadpulse.Crm.Ams360.{Ams360Service, connect_ams360}
use leadpulse.Crm.Clients.{Services, client_calls}
use leadpulse.Crm.Push.{
  Integration, Systems, Credentials, ConfigRow, client, first_job, Outbox, Job, PushedLead,
  update_crm, resolve_integration, newest,
}
use leadpulse.Crm.Status.{Lookups, answered, pull_status, pull_ams360, get_crm_lead}
use leadpulse.Crm.Worker.{queued, polled, run}
use leadpulse.Crm.Delivery.{Ends, update_crm-Ends, run-queue}

abbrev lead_data : Dict
lead_data = (text "lead_name", str (text "Ada King")) ∷ (text "industry", str (text "it")) ∷ []

abbrev service : Service
service = record {
  settings = ok (str (text "me"));
  people = λ p. http_status 503 (text "try later");
  str_of = λ v. text "1";
  str_nat = λ n. text "503";
}

abbrev fub : Client
fub = record { api_key = text "key"; source = text "LeadAgent"; field_mapping = [] }

abbrev kvcore : KvcoreService
kvcore = record {
  authorizes = tokens (some (text "t1")) none;
  refreshes = λ s. refused;
  creates = λ token p. error_status 401 (text "expired");
  creates_again = λ token p. created null;
  str_of = λ v. text "1";
  str_nat = λ n. text "401";
}

abbrev ams360 : Ams360Service
ams360 = record {
  authenticates = none;
  creates = λ token a p. created null;
  str_of = λ v. text "1";
  str_nat = λ n. text "1";
}

abbrev services : Services
services = record { fub = λ k. service; kvcore = λ k. kvcore; ams360 = λ k. ams360 }

abbrev with_kvcore : Integration
with_kvcore = client (text "kvcore") (record {
  values =
      (text "api_key", str (text "k"))
      ∷ (text "api_secret", str (text "s"))
      ∷ (text "company_id", str (text "c"))
      ∷ [];
  field_mapping = [];
})

abbrev mapped : Client
mapped = record fub {
  field_mapping = (text "lead_name", text "name") ∷ (text "industry", text "field") ∷ [];
}

sent : (p : _) × (build_payload service mapped lead_data ≡ some p)
unfolding build_payload text_eq apply_field_mapping names split_name
sent = (_, refl)

abbrev credentials : Credentials
credentials = record { values = (text "api_key", str (text "key")) ∷ []; field_mapping = [] }

abbrev row : ConfigRow
row = record {
  organization_id = text "acme";
  integration_type = text "fub";
  config = some (text "gAAAA");
  is_active = true;
  created_at = 1;
}

abbrev systems : Systems
systems = record {
  decrypt = λ s. returned credentials;
  configs = returned (row ∷ record row { integration_type = text "gemini"; created_at = 2 } ∷ []);
  calls = client_calls services;
  jitter = λ k. 0;
  writes_log = true;
}

abbrev lead : PushedLead
lead = record { tenant_id = text "acme"; session_id = text "s1"; lead_data = lead_data }

abbrev outbox : Outbox
outbox = record { push_logs = []; queue = some [] }

update_crm-Ends_example :
    Ends
      (client_calls services (client (text "fub") credentials) lead_data)
      (first_job lead (text "fub"))
      []
      (update_crm systems (text "s1") lead_data (some (text "acme")) outbox)
unfolding resolve_integration newest text_eq
update_crm-Ends_example =
    update_crm-Ends systems (text "s1") lead_data (text "acme") outbox
      (client (text "fub") credentials) [] refl refl

abbrev first : Job
first = first_job lead (text "fub")

abbrev second : Job
second = record first { session_id = text "s2" }

run-queue_example :
    (rest : List Job) × ((run
        (polled systems ∷ queued first ∷ polled systems ∷ [])
        (record { push_logs = []; queue = some (second ∷ first ∷ []) })).0
      ≡ (first ∷ second ∷ []) ++ rest)
run-queue_example =
    run-queue (polled systems ∷ queued first ∷ polled systems ∷ [])
      (record { push_logs = []; queue = some (second ∷ first ∷ []) }) (first ∷ second ∷ []) refl
      (omega arith)

abbrev lookups : Lookups
lookups = record {
  found_person = λ key id. if text_eq id (text "7") then some (str key) else none;
  lead = λ token id. some null;
  client_row = λ token id. some null;
}

-- The service is asked for the id of the session, not for the one that it gave to the lead.
asked_for_session :
    get_crm_lead lookups services systems (text "s1") (some (text "acme")) ≡ returned none
unfolding get_crm_lead pull_status resolve_integration newest text_eq
asked_for_session = refl

answered_person :
    pull_status lookups services (client (text "fub") credentials) (text "7")
    ≡ some (answered (str (text "key")))
unfolding pull_status text_eq
answered_person = refl

-- A client that cannot connect asks nothing.
unconnected : pull_status lookups services (client (text "ams360") credentials) (text "7") ≡ none
unfolding pull_status pull_ams360 connect_ams360 text_eq
unconnected = refl
