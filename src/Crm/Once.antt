-- ===== src/Crm/Once.antt =====
-- How often the clients are called: app/integrations/retry.py with the three clients.
use leadpulse.Prelude.{
  ℕ, Bool, true, false, ◌≡◌, refl, inl, inr, none, List, [], if◌then◌else◌, is_some, Option-cases,
  Bool-cases, arith,
}
use leadpulse.Prelude.Text.{Text, text, text_eq, is_empty}
use leadpulse.Agent.State.{Json, str, null}
use leadpulse.Crm.{
  Dict, get_or, PushResult, apply_field_mapping, Attempt, returned, raised, retry_with_backoff,
}
use leadpulse.Crm.Fub.{Service, Client, names, build_payload, push_calls}
use leadpulse.Crm.Kvcore.{
  KvcoreService, KvcoreConfig, KvcoreSession, kvcore_payload, push_kvcore, push_connected,
}
use leadpulse.Crm.Ams360.{
  Ams360Service, Ams360Config, Ams360Session, connect_ams360, full_names, ams360_payload,
  push_ams360,
}
use leadpulse.Crm.Push.{Integration, webhook_fallback, client}
use leadpulse.Crm.Calls.{retry_with_backoff-first, push_lead-returned}
use leadpulse.Crm.Kvcore.{connect_kvcore}
use leadpulse.Crm.Clients.{
  Services, nth_call, client_calls, fub_client, kvcore_config, kvcore_session, ams360_config,
  has_name,
}

full_names-names : (v : Json) → is_some (names v) ≡ true → is_some (full_names v) ≡ true
unfolding names full_names
full_names-names null h = h
full_names-names (str s) h = refl
full_names-names (Json.num a) h = ground arith
full_names-names (Json.bool b) h = ground arith
full_names-names (Json.compound t b) h = ground arith

abbrev is_returned : Attempt PushResult → Bool
is_returned (returned r) = true
is_returned (raised e) = false

is_returned-returned :
    (x : Attempt PushResult) → is_returned x ≡ true → (r : PushResult) × (x ≡ returned r)
is_returned-returned (returned r) h = (r, refl)
is_returned-returned (raised e) h = cc

push_connected-returned :
    (w : KvcoreService) (c : KvcoreConfig) (d : Dict) (s : KvcoreSession)
    → is_some (kvcore_payload c d) ≡ true
    → is_returned (push_connected w c d s).0 ≡ true
unfolding push_connected
push_connected-returned w c d s h = elim (Option-cases (kvcore_payload c d)) [
  | inl e ↦ ground arith
  | inr (p, e) ↦ elim (Bool-cases (is_empty c.company_id)) [
    | inl f ↦ ground arith
    | inr f ↦ ground arith
  ]
]

push_kvcore-returned :
    (w : KvcoreService) (c : KvcoreConfig) (d : Dict) (s : KvcoreSession)
    → is_some (kvcore_payload c d) ≡ true
    → is_returned (push_kvcore w c d s).0 ≡ true
unfolding push_kvcore
push_kvcore-returned w c d s h =
    let s' = (if s.connected then (true, s) else connect_kvcore w c s) in
    elim (Bool-cases s'.0) [
      | inl up ↦ ground (arith, push_connected-returned w c d s'.1 h)
      | inr down ↦ ground arith
    ]

push_ams360-returned :
    (w : Ams360Service) (c : Ams360Config) (d : Dict) (s : Ams360Session)
    → is_some (ams360_payload c d) ≡ true
    → is_returned (push_ams360 w c d s).0 ≡ true
unfolding push_ams360
push_ams360-returned w c d s h =
    let s' = (if s.connected then (true, s) else connect_ams360 w c s) in
    elim (Option-cases (ams360_payload c d)) [
      | inl e ↦ ground arith
      | inr (p, e) ↦ elim (Bool-cases s'.0) [ inl up ↦ ground arith | inr down ↦ ground arith ]
    ]

abbrev name_of : List (Text × Text) → Dict → Json
name_of mapping d = get_or (str []) (text "lead_name") (apply_field_mapping mapping d)

build_payload-named :
    (w : Service) (c : Client) (d : Dict)
    → is_some (names (name_of c.field_mapping d)) ≡ true
    → is_some (build_payload w c d) ≡ true
unfolding build_payload
build_payload-named w c d h = ground arith

kvcore_payload-named :
    (c : KvcoreConfig) (d : Dict)
    → is_some (names (name_of c.field_mapping d)) ≡ true
    → is_some (kvcore_payload c d) ≡ true
unfolding kvcore_payload
kvcore_payload-named c d h = ground arith

ams360_payload-named :
    (c : Ams360Config) (d : Dict)
    → is_some (names (name_of c.field_mapping d)) ≡ true
    → is_some (ams360_payload c d) ≡ true
unfolding ams360_payload
ams360_payload-named c d h = ground (
  arith,
  full_names-names (get_or (str []) (text "lead_name") (apply_field_mapping c.field_mapping d)),
)

client_calls-returned :
    (w : Services) (i : Integration) (d : Dict)
    → has_name i d ≡ true
    → is_returned (client_calls w i d 0) ≡ true
unfolding client_calls push_calls nth_call
client_calls-returned w webhook_fallback d h = refl
client_calls-returned w (client t c) d h = elim (Bool-cases (text_eq t (text "fub"))) [
  | inl e ↦
      let (r, came) =
        push_lead-returned (w.fub 0) (fub_client c) d false
          (build_payload-named (w.fub 0) (fub_client c) d h) in
      ground arith
  | inr e ↦ elim (Bool-cases (text_eq t (text "kvcore"))) [
    | inl f ↦ ground (
      arith,
      push_kvcore-returned (w.kvcore 0) (kvcore_config c) d (kvcore_session c)
          (kvcore_payload-named (kvcore_config c) d h),
    )
    | inr f ↦ ground (
      arith,
      push_ams360-returned (w.ams360 0) (ams360_config c) d
          (record { token = none; connected = false }) (ams360_payload-named (ams360_config c) d h),
    )
  ]
]

-- The retries of a push make one call and sleep never, whatever the tenant's CRM answers to it and
-- which of the clients it is, where the lead has a name that is a text or none.
pub retry_with_backoff-client_calls :
    (jitter : ℕ → ℕ) (base_delay max_retries : ℕ) (w : Services) (i : Integration) (d : Dict)
    → has_name i d ≡ true
    → retry_with_backoff jitter base_delay (client_calls w i d) max_retries
      ≡ (client_calls w i d 0, [])
retry_with_backoff-client_calls jitter base_delay max_retries w i d h =
    let (r, e) = is_returned-returned (client_calls w i d 0) (client_calls-returned w i d h) in
    rw e (retry_with_backoff-first jitter base_delay (client_calls w i d) max_retries r e)
