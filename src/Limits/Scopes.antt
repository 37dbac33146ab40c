-- ===== src/Limits/Scopes.antt =====
-- The windows of other keys under a limit: app/api/deps.py.
use leadpulse.Prelude.{ℕ, ◌≡◌, false, none, some, arith}
use leadpulse.Prelude.Text.{Text, text_eq}
use leadpulse.Limits.{Window, rate_limit, Store}

-- The window of a key, wherever the windows are kept.
abbrev pub window_of : Store → Text → Window
window_of s k = elim s.redis [ none ↦ s.inmem k | some windows ↦ windows k ]

module _ (reply : ℕ → ℕ) where
  -- A request never changes the window of another key, in Redis or in the process.
  pub rate_limit-other :
      (limit window now : ℕ) (key other : Text) (s : Store)
      → text_eq key other ≡ false
      → window_of (rate_limit reply limit window now key s).1 other ≡ window_of s other
  unfolding rate_limit
  rate_limit-other limit window now key other s ne = ground arith
