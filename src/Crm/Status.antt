-- ===== src/Crm/Status.antt =====
-- What a CRM says of a lead: pull_status of the clients of app/integrations, and get_crm_lead of
-- app/agent/tools/crm.py.
use leadpulse.Prelude.{true, false, Option, none, some, if◌then◌else◌}
use leadpulse.Prelude.Text.{Text, text, text_eq}
use leadpulse.Agent.State.{Json}
use leadpulse.Crm.{Attempt, returned, raised}
use leadpulse.Crm.Kvcore.{KvcoreService, KvcoreConfig, KvcoreSession, connect_kvcore}
use leadpulse.Crm.Ams360.{Ams360Service, Ams360Config, Ams360Session, connect_ams360}
use leadpulse.Crm.Push.{Integration, Systems, webhook_fallback, client, resolve_integration}
use leadpulse.Crm.Clients.{Services, fub_client, kvcore_config, kvcore_session, ams360_config}

-- The JSON that each service gives for the id of a lead, under a key or a token; none is an error
-- status or an exception.
pub record Lookups : Type 0 where
  pub found_person : Text → Text → Option Json
  pub lead : Option Text → Text → Option Json
  pub client_row : Option Text → Text → Option Json

-- The status of the fallback, or what a service answers.
pub data Status : Type 0 where
  fallback_status : Text → Text → Status
  answered : Json → Status

abbrev answered_if : Option Json → Option Status
answered_if none = none
answered_if (some v) = some (answered v)

-- `KvcoreIntegration.pull_status`
unfoldable pub pull_kvcore :
    Lookups → KvcoreService → KvcoreConfig → KvcoreSession → Text → Option Status
pull_kvcore q w c s id =
    let (up, s') = if s.connected then (true, s) else connect_kvcore w c s in
    if up then answered_if (q.lead s'.access_token id) else none

-- `Ams360Integration.pull_status`
unfoldable pub pull_ams360 :
    Lookups → Ams360Service → Ams360Config → Ams360Session → Text → Option Status
pull_ams360 q w c s id =
    let (up, s') = if s.connected then (true, s) else connect_ams360 w c s in
    if up then answered_if (q.client_row s'.token id) else none

-- `pull_status` of the integration that is resolved.
unfoldable pub pull_status : Lookups → Services → Integration → Text → Option Status
pull_status q w webhook_fallback id = some (fallback_status id (text "unknown"))
pull_status q w (client t c) id =
    if text_eq t (text "fub")
    then answered_if (q.found_person (fub_client c).api_key id)
    else if text_eq t (text "kvcore")
    then pull_kvcore q (w.kvcore 0) (kvcore_config c) (kvcore_session c) id
    else pull_ams360 q (w.ams360 0) (ams360_config c) (record { token = none; connected = false })
        id

-- `get_crm_lead`
unfoldable pub get_crm_lead :
    Lookups → Services → Systems → Text → Option Text → Attempt (Option Status)
get_crm_lead q w y session none = returned none
get_crm_lead q w y session (some tenant) = elim (resolve_integration y tenant) [
  | raised e ↦ raised e
  | returned i ↦ returned (pull_status q w i session)
]
