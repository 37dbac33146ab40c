-- ===== src/Gemini/Limiter.antt =====
-- The budget of calls per minute: _acquire_rate_limit of app/agent/gemini.py, over the windows of
-- Redis or of the process. Times are in milliseconds.
use leadpulse.Prelude.{
  ℕ, zero, suc, ◌+◌, Option, none, some, List, [], ◌∷◌, ◌++◌, if◌then◌else◌, ltb, ◌==◌, length,
}
use leadpulse.Prelude.Text.{Text, text}
use leadpulse.Limits.{Window, Store, put, expire, oldest, rate_limit_script}

-- `_rate_limit_scope`
abbrev pub rate_limit_scope : Option Text → Text
rate_limit_scope none = text "ratelimit:gemini"
rate_limit_scope (some tenant) = text "ratelimit:gemini:" ++ tenant

-- The key of RedisSlidingWindowRateLimiter.
abbrev pub global_key : Text → Text
global_key prefix = prefix ++ text ":global"

-- `int(override if override > 0 else settings.gemini_rpm_limit)`, with 0 for what is not positive.
abbrev pub rpm_limit : ℕ → ℕ → ℕ
rpm_limit override setting = if ltb 0 override then override else setting

-- The `while True` of the fallback, by fuel: the time at which it returns, and the window. The
-- sleep that follows the try number `i` lasts `late i` longer than was asked; it is outside of the
-- lock, and `others i` is what the other callers of the scope make of the window meanwhile.
unfoldable pub fallback :
    ℕ → (ℕ → ℕ) → (ℕ → Window → Window) → ℕ → ℕ → ℕ → Window → Option ℕ × Window
fallback zero late others i limit now dq = (none, dq)
fallback (suc fuel) late others i limit now dq =
    let kept = expire 60000 now dq in
    let rest =
      fallback fuel late others (suc i) limit (oldest kept + 60000 + late i) (others i kept) in
    if ltb (length kept) limit then (some now, kept ++ now ∷ []) else rest

module _ (reply : ℕ → ℕ) (late : ℕ → ℕ) (others : ℕ → Window → Window) where
  -- What follows `limiter.acquire`, with the wait that it gave: the time of the return.
  abbrev pub after_wait : ℕ → ℕ → ℕ
  after_wait now wait = if wait == 0 then now else now + wait + late 0

  -- `_acquire_rate_limit`: none as the time if the fuel of the fallback is not enough.
  unfoldable pub acquire_rate_limit : ℕ → ℕ → Option Text → ℕ → Store → Option ℕ × Store
  acquire_rate_limit fuel limit tenant now s =
      let scope = rate_limit_scope tenant in
      if limit == 0 then (some now, s) else elim s.redis [
        | none ↦
            let (t, dq) = fallback fuel late others 0 limit now (s.inmem scope) in
            (t, record s { inmem = put scope dq s.inmem })
        | some windows ↦
            let (wait, zs) = rate_limit_script limit 60000 now (windows (global_key scope)) in
            (
              some (after_wait now (reply wait)),
              record s { redis = some (put (global_key scope) zs windows) },
            )
      ]

  -- So many callers of one tenant, one after the other at one time: when each may call the model.
  unfoldable pub acquire_all : ℕ → ℕ → ℕ → Option Text → ℕ → Store → List (Option ℕ) × Store
  acquire_all zero fuel limit tenant now s = ([], s)
  acquire_all (suc n) fuel limit tenant now s =
      let (t, s') = acquire_rate_limit fuel limit tenant now s in
      let (ts, s'') = acquire_all n fuel limit tenant now s' in (t ∷ ts, s'')
