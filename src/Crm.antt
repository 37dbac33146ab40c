-- ===== src/Crm.antt =====
-- What the clients of CRMs share: app/integrations/base.py, retry.py and webhook_fallback.py.
-- Times are milliseconds.
pub mod Fub
pub mod Kvcore
pub mod Ams360
pub mod Push
pub mod Clients
pub mod Status
pub mod Worker
pub mod Calls
pub mod Once
pub mod Delivery
mod Tests
use leadpulse.Prelude.{
  ℕ, zero, suc, ◌+◌, ◌*◌, ◌^◌, min, Bool, true, false, Option, none, some, List, [], ◌∷◌, ◌++◌,
  if◌then◌else◌, is_some, or_else,
}
use leadpulse.Prelude.Text.{Text, text, text_eq}
use leadpulse.Agent.State.{Json, null, str}

-- A dict, as its keys and values in order.
abbrev pub Dict : Type 0
Dict = List (Text × Json)

-- `d.get(key)`, and `d.get(key, default)`.
abbrev pub get : Text → Dict → Option Json
get key [] = none
get key (entry ∷ d) = if text_eq entry.0 key then some entry.1 else get key d

abbrev pub get_or : Json → Text → Dict → Json
get_or default key d = or_else (get key d) default

-- A result but for the response and the time.
pub record PushResult : Type 0 where
  pub success : Bool
  pub external_id : Option Json
  pub status : Text
  pub error_message : Option Text

-- The entries of `mapped`; the keys of the CRM in a field mapping differ.
abbrev pub mapped_entries : List (Text × Text) → Dict → Dict
mapped_entries [] d = []
mapped_entries (keys ∷ mapping) d = elim (get keys.0 d) [
  | none ↦ mapped_entries mapping d
  | some v ↦ (keys.1, v) ∷ mapped_entries mapping d
]

unfoldable pub apply_field_mapping : List (Text × Text) → Dict → Dict
apply_field_mapping [] d = d
apply_field_mapping (keys ∷ mapping) d = mapped_entries (keys ∷ mapping) d

-- One call of push_lead: its result, or the text of an exception.
pub data Attempt {ℓ} (A : Type ℓ) : Type ℓ where
  returned : A → Attempt A
  raised : Text → Attempt A

-- `base_delay * 2 ** attempt`, at most half a minute.
abbrev pub delay : ℕ → ℕ → ℕ
delay base_delay attempt = min (base_delay * 2 ^ attempt) 30000

module _ {ℓ} {A : Type ℓ} (jitter : ℕ → ℕ) (base_delay : ℕ) (call : ℕ → Attempt A) where
  abbrev pub paused : ℕ → Attempt A × List ℕ → Attempt A × List ℕ
  paused ms (r, sleeps) = (r, ms ∷ sleeps)

  -- The loop from an attempt, with the attempts that are left after it, and the times slept.
  unfoldable pub retry_from : ℕ → ℕ → Attempt A × List ℕ
  retry_from zero attempt = (call attempt, [])
  retry_from (suc left) attempt =
      let rest = retry_from left (suc attempt) in
      elim (call attempt) [
        | returned a ↦ (returned a, [])
        | raised e ↦ paused (delay base_delay attempt + jitter attempt) rest
      ]

  -- `retry_with_backoff`, where `call k` is what the call number k gives.
  unfoldable pub retry_with_backoff : ℕ → Attempt A × List ℕ
  retry_with_backoff max_retries = retry_from max_retries 0

-- push_lead of the fallback, which is used where a tenant has no CRM.
unfoldable pub fallback_push : Dict → PushResult
fallback_push lead_data = record {
  success = true;
  external_id = get (text "session_id") lead_data;
  status = text "logged";
  error_message = none;
}
