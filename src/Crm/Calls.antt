-- ===== src/Crm/Calls.antt =====
-- How often a CRM is called, and with what: app/integrations/retry.py and fub.py.
use leadpulse.Prelude.{
  ℕ, zero, suc, ◌+◌, ◌≤◌, ◌<◌, ltb, Bool, true, false, ◌≡◌, ◌⊎◌, ◌||◌, refl, inl, inr, none, some,
  List, [], ◌∷◌, any, is_some, Option-cases, Bool-cases, arith,
}
use leadpulse.Prelude.Text.{Text, text, text_eq}
use leadpulse.Crm.{
  Dict, get, mapped_entries, apply_field_mapping, Attempt, returned, raised, PushResult, retry_from,
  retry_with_backoff,
}
use leadpulse.Crm.Fub.{
  Service, Client, Person, names, build_payload, push_lead, not_connected, of_response, connect,
}

pub Attempt-cases {ℓ} :
    {A : Type ℓ} (x : Attempt A) → ((a : A) × (x ≡ returned a)) ⊎ ((e : Text) × (x ≡ raised e))
Attempt-cases (returned a) = inl (a, refl)
Attempt-cases (raised e) = inr (e, refl)

le_cases : (a b : ℕ) → a ≤ b → (a < b) ⊎ (a ≡ b)
le_cases a b le = elim (Bool-cases (ltb a b)) [
  | inl t ↦ inl (ground arith)
  | inr t ↦ inr (ground arith)
]

module _ {ℓ} {A : Type ℓ} (jitter : ℕ → ℕ) (base_delay : ℕ) (call : ℕ → Attempt A) where
  -- The calls from one on and before another raised.
  abbrev pub Raised : ℕ → ℕ → Type ℓ
  Raised from until = (j : ℕ) → from ≤ j → j < until → (e : Text) × (call j ≡ raised e)

  Raised-cons :
      (from until : ℕ) (e : Text)
      → call from ≡ raised e
      → Raised (suc from) until
      → Raised from until
  Raised-cons from until e now later j le lt = elim (le_cases from j le) [
    | inl before ↦ later j (omega (arith, before)) lt
    | inr same ↦ (e, rw⁻¹ same now)
  ]

  pub retry_from-returned :
      (left attempt : ℕ) (a : A)
      → (retry_from jitter base_delay call left attempt).0 ≡ returned a
      → (k : ℕ) × (k ≤ attempt + left) × (call k ≡ returned a) × Raised attempt k
  unfolding retry_from
  retry_from-returned zero attempt a e =
      (attempt, omega arith, e, λ j le lt. absurd (omega (arith, le, lt)))
  retry_from-returned (suc left) attempt a e = elim (Attempt-cases (call attempt)) [
    | inl (b, now) ↦ (attempt, omega arith, ground arith, λ j le lt. absurd (omega (arith, le, lt)))
    | inr (t, not_yet) ↦
        let (k, bound, then_, before) = retry_from-returned left (suc attempt) a (ground arith) in
        (k, omega (arith, bound), then_, Raised-cons attempt k t not_yet before)
  ]

  pub retry_from-raised :
      (left attempt : ℕ) (t : Text)
      → (retry_from jitter base_delay call left attempt).0 ≡ raised t
      → Raised attempt (suc (attempt + left))
  unfolding retry_from
  retry_from-raised zero attempt t e =
      Raised-cons attempt (suc (attempt + 0)) t e (λ j le lt. absurd (omega (arith, le, lt)))
  retry_from-raised (suc left) attempt t e = elim (Attempt-cases (call attempt)) [
    | inl (b, now) ↦ ground arith
    | inr (t', failed_) ↦
        let later = retry_from-raised left (suc attempt) t (ground arith) in
        Raised-cons attempt (suc (attempt + suc left)) t' failed_
          (λ j le lt. later j le (omega (arith, lt)))
  ]

  pub retry_with_backoff-first :
      (max_retries : ℕ) (a : A)
      → call 0 ≡ returned a
      → retry_with_backoff jitter base_delay call max_retries ≡ (returned a, [])
  unfolding retry_with_backoff retry_from
  retry_with_backoff-first zero a e = ground arith
  retry_with_backoff-first (suc n) a e = ground arith

pub push_lead-returned :
    (w : Service) (c : Client) (d : Dict) (connected : Bool)
    → is_some (build_payload w c d) ≡ true
    → (r : PushResult) × ((push_lead w c d connected).0 ≡ returned r)
unfolding push_lead
push_lead-returned w c d connected h = elim (Option-cases (build_payload w c d)) [
  | inl e ↦ ground arith
  | inr (p, e) ↦ elim (Bool-cases (connected || connect w c)) [
    | inl up ↦ (of_response w (w.people p), ground arith)
    | inr down ↦ (not_connected, ground arith)
  ]
]

abbrev pub is_key : Text → Text × Text → Bool
is_key key keys = text_eq keys.1 key

mapped_entries-absent :
    (mapping : List (Text × Text)) (key : Text) (d : Dict)
    → any (is_key key) mapping ≡ false
    → get key (mapped_entries mapping d) ≡ none
mapped_entries-absent [] key d h = refl
mapped_entries-absent (keys ∷ mapping) key d h = elim (Option-cases (get keys.0 d)) [
  | inl e ↦ ground (arith, mapped_entries-absent mapping key d)
  | inr (v, e) ↦ ground (arith, mapped_entries-absent mapping key d)
]

-- A tenant's field mapping that gives the name of leads another key leaves the person that is sent
-- without a name.
pub build_payload-unnamed :
    (w : Service) (c : Client) (d : Dict) (keys : Text × Text) (mapping : List (Text × Text))
    (p : Person)
    → c.field_mapping ≡ keys ∷ mapping
    → any (is_key (text "lead_name")) (keys ∷ mapping) ≡ false
    → build_payload w c d ≡ some p
    → (p.first_name ≡ []) × (p.last_name ≡ [])
unfolding build_payload apply_field_mapping names
build_payload-unnamed w c d keys mapping p set other sent =
    let gone = mapped_entries-absent (keys ∷ mapping) (text "lead_name") d other in
    (ground arith, ground arith)
