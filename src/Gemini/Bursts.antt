-- ===== src/Gemini/Bursts.antt =====
-- When _acquire_rate_limit of app/agent/gemini.py returns, and how many callers it lets through.
use leadpulse.Prelude.{
  ℕ, zero, suc, ◌+◌, ◌-◌, ◌≤◌, ◌<◌, ◌≡◌, refl, false, Option, some, List, [], ◌∷◌, ◌==◌, length,
  arith,
}
use leadpulse.Prelude.Text.{Text}
use leadpulse.Prelude.TextLaws.{text_eq_refl}
use leadpulse.Limits.{Window, Store, put, oldest, zremrangebyscore}
use leadpulse.Limits.Redis.{script-full}
use leadpulse.Gemini.Limiter.{rate_limit_scope, global_key, acquire_rate_limit, acquire_all}

-- What the fallback gives: a return, not before now, and a window within the limit.
abbrev pub Returns : ℕ → ℕ → Option ℕ × Window → Type 0
Returns limit now r = (t : ℕ) × (r.0 ≡ some t) × (now ≤ t) × (length r.1 ≤ limit)

-- The other callers leave the window alone from a sleep on.
abbrev pub IsQuiet : (ℕ → Window → Window) → ℕ → Type 0
IsQuiet others i = (k : ℕ) (dq : Window) → i ≤ k → others k dq ≡ dq

-- The other callers keep to the limit.
abbrev pub IsWithin : ℕ → (ℕ → Window → Window) → Type 0
IsWithin limit others = (k : ℕ) (dq : Window) → length dq ≤ limit → length (others k dq) ≤ limit

zremrangebyscore-again :
    (window now : ℕ) (zs : Window)
    → zremrangebyscore window now (zremrangebyscore window now zs) ≡ zremrangebyscore window now zs
unfolding zremrangebyscore
zremrangebyscore-again window now [] = refl
zremrangebyscore-again window now (z ∷ zs) = ground (arith, zremrangebyscore-again window now zs)

abbrev pub repeat {ℓ} : {A : Type ℓ} → ℕ → A → List A
repeat zero a = []
repeat (suc n) a = a ∷ repeat n a

-- The window of the tenant in Redis is full at `now`, with these calls in it.
abbrev pub IsFull : ℕ → Option Text → ℕ → Window → Store → Type 0
IsFull limit tenant now kept s =
    (windows : Text → Window) × (s.redis ≡ some windows)
    × (zremrangebyscore 60000 now (windows (global_key (rate_limit_scope tenant))) ≡ kept)
    × (limit ≤ length kept)

module _ (reply late : ℕ → ℕ) (others : ℕ → Window → Window) where
  acquire_rate_limit-IsFull :
      (fuel limit : ℕ) (tenant : Option Text) (now : ℕ) (kept : Window) (s : Store)
      → 0 < limit
      → 0 < reply ((oldest kept + 60000) - now)
      → IsFull limit tenant now kept s
      → ((acquire_rate_limit reply late others fuel limit tenant now s).0
          ≡ some (now + reply ((oldest kept + 60000) - now) + late 0))
        × IsFull limit tenant now kept
            (acquire_rate_limit reply late others fuel limit tenant now s).1
  unfolding acquire_rate_limit
  acquire_rate_limit-IsFull fuel limit tenant now kept s pos waits (windows, on, e, full) =
      let key = global_key (rate_limit_scope tenant) in
      let zs = windows key in
      let limited : (limit == 0) ≡ false = ground arith in
      let script = script-full reply limit 60000 now zs (rw e full) in
      let waiting : (reply ((oldest kept + 60000) - now) == 0) ≡ false = ground arith in
      rw (limited, on, script, e, waiting)
        (
          refl,
          (
            put key kept windows,
            refl,
            rw (text_eq_refl key) rw⁻¹ e (zremrangebyscore-again 60000 now zs),
            full,
          ),
        )

  -- With Redis the budget does not bind a burst: when the window of a tenant is full and the wait that comes back is
  -- not 0, any number of callers are told to wait that long, all of them call the model at the same
  -- time after it, and none of their calls is in the window.
  pub acquire_all-burst :
      (n fuel limit : ℕ) (tenant : Option Text) (now : ℕ) (kept : Window) (s : Store)
      → 0 < limit
      → 0 < reply ((oldest kept + 60000) - now)
      → IsFull limit tenant now kept s
      → ((acquire_all reply late others n fuel limit tenant now s).0
          ≡ repeat n (some (now + reply ((oldest kept + 60000) - now) + late 0)))
        × IsFull limit tenant now kept (acquire_all reply late others n fuel limit tenant now s).1
  unfolding acquire_all
  acquire_all-burst zero fuel limit tenant now kept s pos waits full = (refl, full)
  acquire_all-burst (suc n) fuel limit tenant now kept s pos waits full =
      let (e, full') = acquire_rate_limit-IsFull fuel limit tenant now kept s pos waits full in
      let (es, full'') =
        acquire_all-burst n fuel limit tenant now kept
          (acquire_rate_limit reply late others fuel limit tenant now s).1 pos waits full' in
      (rw (e, es) refl, full'')
