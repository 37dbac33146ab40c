-- ===== src/Limits/Redis.antt =====
-- The script of app/services/redis.py when its window is full.
use leadpulse.Prelude.{
  ℕ, ◌+◌, ◌-◌, ◌*◌, ◌/◌, ◌≤◌, ◌<◌, ◌≡◌, refl, inl, inr, Bool-cases, ◌∙◌, some, ◌==◌, length, arith,
}
use leadpulse.Prelude.Text.{Text}
use leadpulse.Limits.{
  Window, zremrangebyscore, oldest, rate_limit_script, rate_limit, Store, let_through,
}

dropped : (wait : ℕ) → wait < 1000 → wait / 1000 * 1000 ≡ 0
dropped wait h = omega (arith, h)

module _ (reply : ℕ → ℕ) where
  pub script-full :
      (limit window now : ℕ) (zs : Window)
      → limit ≤ length (zremrangebyscore window now zs)
      → rate_limit_script limit window now zs
        ≡ ((oldest (zremrangebyscore window now zs) + window) - now, zremrangebyscore window now zs)
  unfolding rate_limit_script
  script-full limit window now zs h = ground arith

  -- Redis gives the number that a script returns as an integer and drops its fraction. A request
  -- that finds the window of its key full is let through nonetheless if the oldest request in it
  -- has less than a second left.
  pub rate_limit-full :
      (limit window now : ℕ) (key : Text) (s : Store) (windows : Text → Window)
      → ((ms : ℕ) → reply ms ≡ ms / 1000 * 1000)
      → s.redis ≡ some windows
      → limit ≤ length (zremrangebyscore (window * 1000) now (windows key))
      → oldest (zremrangebyscore (window * 1000) now (windows key)) + window * 1000 < now + 1000
      → (rate_limit reply limit window now key s).0 ≡ let_through
  unfolding rate_limit
  rate_limit-full limit window now key s windows truncates available full soon =
      let kept = zremrangebyscore (window * 1000) now (windows key) in
      let wait = (oldest kept + window * 1000) - now in
      let found = script-full limit (window * 1000) now (windows key) full in
      let nothing_left = truncates wait ∙ dropped wait (omega (arith, soon)) in
      elim (Bool-cases (limit == 0)) [
        | inl unlimited ↦ rw unlimited refl
        | inr limited ↦ rw limited rw available rw found rw nothing_left refl
      ]
