-- ===== src/Analytics/Periods.antt =====
-- The conversations of one day, as the boundaries of app/services/analytics.py select them.
use leadpulse.Prelude.{
  ℕ, ◌-◌, ◌<◌, Bool, true, false, ◌&&◌, ◌||◌, some, List, [], ◌∷◌, ◌≡◌, refl, ap, ◌==◌, keep_if,
  All, arith,
}
use leadpulse.Prelude.Text.{text, strip, is_empty, contains}
use leadpulse.Analytics.{
  Python, Boundary, boundary, Moment, day_length, parse_date_boundary, LeadConversation, is_id,
  Tables, Metrics, at_most,
}
use leadpulse.Analytics.Computed.{in_period, is_charged, compute_org_metrics, metrics_of}

-- What `strftime` and `date.fromisoformat` do with one date.
pub record IsDate {ℓ} {F : Type ℓ} (py : Python F) (d : ℕ) : Type 0 where
  pub strips : strip (py.strftime d) ≡ py.strftime d
  pub is_given : is_empty (py.strftime d) ≡ false
  pub is_plain :
      (contains (text "T") (py.strftime d) || contains (text " ") (py.strftime d)) ≡ false
  pub reads : py.date_fromisoformat (py.strftime d) ≡ some d

abbrev pub first : ℕ → Boundary
first d = boundary (record { day = d; time = 0 })

abbrev pub final : ℕ → Boundary
final d = boundary (record { day = d; time = day_length - 1 })

parse_date_boundary-first {ℓ} :
    {F : Type ℓ} (py : Python F) (d : ℕ)
    → IsDate py d
    → parse_date_boundary py false (some (py.strftime d)) ≡ first d
unfolding parse_date_boundary
parse_date_boundary-first py d h = rw (h.strips, h.is_given, h.is_plain, h.reads) refl

parse_date_boundary-final {ℓ} :
    {F : Type ℓ} (py : Python F) (d : ℕ)
    → IsDate py d
    → parse_date_boundary py true (some (py.strftime d)) ≡ final d
unfolding parse_date_boundary
parse_date_boundary-final py d h = rw (h.strips, h.is_given, h.is_plain, h.reads) refl

module _ {ℓ} {A : Type ℓ} where
  pub keep_if-same :
      (p q : A → Bool) (P : A → Type 0) (xs : List A)
      → ((x : A) → P x → p x ≡ q x)
      → All P xs
      → keep_if p xs ≡ keep_if q xs
  keep_if-same p q P [] h a = refl
  keep_if-same p q P (x ∷ xs) h (px, a) = ground (arith, h x px, keep_if-same p q P xs h a)

  pub keep_if-keep_if :
      (p q : A → Bool) (xs : List A) → keep_if q (keep_if p xs) ≡ keep_if (λ x. p x && q x) xs
  keep_if-keep_if p q [] = refl
  keep_if-keep_if p q (x ∷ xs) = ground (arith, keep_if-keep_if p q xs)

abbrev pub IsTimed : Moment → Type 0
IsTimed m = m.time < day_length

between :
    (d : ℕ) (m : Moment)
    → IsTimed m
    → (at_most (record { day = d; time = 0 }) m
        && at_most m (record { day = d; time = day_length - 1 }))
      ≡ (m.day == d)
between d m h = ground arith

module _ {ℓ} {F : Type ℓ} where
  -- A conversation of a tenant that began on a day.
  abbrev pub on_day : ℕ → ℕ → LeadConversation F → Bool
  on_day tenant d c = is_id c.tenant_id tenant && c.created_at.day == d

  in_period-on_day :
      (tenant d : ℕ) (c : LeadConversation F)
      → IsTimed c.created_at
      → in_period tenant (first d) (final d) c ≡ on_day tenant d c
  in_period-on_day tenant d c h = ap (λ b. is_id c.tenant_id tenant && b) (between d c.created_at h)

  -- The metrics of one day.
  abbrev pub metrics_on : Python F → ℕ → Tables F → ℕ → Metrics F
  metrics_on py d db tenant =
      metrics_of py (keep_if (on_day tenant d) db.conversations)
        (keep_if (is_charged tenant (first d) (final d)) db.usage_logs)

  -- From and to one date are the conversations of that day, to its last microsecond.
  pub compute_org_metrics-day :
      (py : Python F) (tenant d : ℕ) (db : Tables F)
      → IsDate py d
      → All (λ c. IsTimed c.created_at) db.conversations
      → compute_org_metrics py tenant (some (py.strftime d)) (some (py.strftime d)) db
        ≡ some (metrics_on py d db tenant)
  unfolding compute_org_metrics
  compute_org_metrics-day py tenant d db h timed =
      rw
        (
          parse_date_boundary-first py d h,
          parse_date_boundary-final py d h,
          keep_if-same (in_period tenant (first d) (final d)) (on_day tenant d)
              (λ c. IsTimed c.created_at) db.conversations (in_period-on_day tenant d) timed,
        )
        refl
