-- ===== src/Limits.antt =====
-- The limits on requests: the sliding windows of app/api/deps.py and of app/services/redis.py.
-- Times and windows are in milliseconds, oldest first.
pub mod Windows
pub mod Redis
pub mod Scopes
mod Tests
use leadpulse.Prelude.{
  ℕ, ◌+◌, ◌-◌, ◌*◌, ◌/◌, Bool, true, false, not, Option, none, some, List, [], ◌∷◌, ◌++◌,
  if◌then◌else◌, ltb, leb, ◌==◌, length, keep_if,
}
use leadpulse.Prelude.Text.{Text, text, text_eq, is_empty, lower, strip}

abbrev pub Window : Type 0
Window = List ℕ

-- `while dq and now - dq[0] > window: dq.popleft()`
unfoldable pub expire : ℕ → ℕ → Window → Window
expire window now [] = []
expire window now (t ∷ ts) = if ltb window (now - t) then expire window now ts else t ∷ ts

-- `_inmem_webhook_allowed`, which the functions for passwords and logins repeat.
unfoldable pub inmem_allowed : ℕ → ℕ → ℕ → Window → Bool × Window
inmem_allowed limit window now dq =
    let kept = expire window now dq in
    if leb limit (length kept) then (false, kept) else (true, kept ++ now ∷ [])

-- The scores of a sorted set, in order; ZREMRANGEBYSCORE from 0 to `now - window`.
unfoldable pub zremrangebyscore : ℕ → ℕ → Window → Window
zremrangebyscore window now zs = keep_if (λ t. not (leb (t + window) now)) zs

unfoldable pub zadd : ℕ → Window → Window
zadd now [] = now ∷ []
zadd now (t ∷ ts) = if leb t now then t ∷ zadd now ts else now ∷ t ∷ ts

abbrev pub oldest : Window → ℕ
oldest [] = 0
oldest (t ∷ ts) = t

-- The script: the time to wait, and the sorted set. The keys that it lets expire have no request
-- of the window left.
unfoldable pub rate_limit_script : ℕ → ℕ → ℕ → Window → ℕ × Window
rate_limit_script limit window now zs =
    let kept = zremrangebyscore window now zs in
    if ltb (length kept) limit then (0, zadd now kept) else ((oldest kept + window) - now, kept)

-- The windows by their keys: those of the process, and those of Redis where it can be reached.
pub record Store : Type 0 where
  pub inmem : Text → Window
  pub redis : Option (Text → Window)

abbrev pub put : Text → Window → (Text → Window) → Text → Window
put key w windows k = if text_eq key k then w else windows k

-- Let through, or 429 with the seconds of Retry-After.
pub data Verdict : Type 0 where
  let_through : Verdict
  too_many : ℕ → Verdict

abbrev of_inmem : ℕ → Bool → Verdict
of_inmem window true = let_through
of_inmem window false = too_many window

abbrev of_wait : ℕ → Verdict
of_wait wait = if wait == 0 then let_through else too_many (wait / 1000 + 1)

-- `reply` is what becomes of the number that the script returns on its way through Redis, both in
-- thousandths of a second.
module _ (reply : ℕ → ℕ) where
  -- What the three dependencies share, with the window in seconds.
  unfoldable pub rate_limit : ℕ → ℕ → ℕ → Text → Store → Verdict × Store
  rate_limit limit window now key s = if limit == 0 then (let_through, s) else elim s.redis [
    | none ↦
        let (ok, dq) = inmem_allowed limit (window * 1000) now (s.inmem key) in
        (of_inmem window ok, record s { inmem = put key dq s.inmem })
    | some windows ↦
        let (wait, zs) = rate_limit_script limit (window * 1000) now (windows key) in
        (of_wait (reply wait), record s { redis = some (put key zs windows) })
  ]

  abbrev webhook_key : Option Text → Text → Text
  webhook_key none ip = text "ratelimit:webhook:" ++ ip
  webhook_key (some tenant) ip = text "ratelimit:webhook:" ++ tenant ++ text ":" ++ ip

  -- The limits of the settings come first; a limit that is not positive is 0.
  unfoldable pub rate_limit_webhook : ℕ → ℕ → Option Text → Text → Store → Verdict × Store
  rate_limit_webhook rpm now tenant ip s = rate_limit rpm 60 now (webhook_key tenant ip) s

  -- The email of the body, or "".
  unfoldable pub rate_limit_login : ℕ → ℕ → Text → Text → Store → Verdict × Store
  rate_limit_login rpm now email ip s =
      rate_limit rpm 900 now (text "ratelimit:login:" ++ lower (strip email) ++ text ":" ++ ip) s

  abbrev or_ip : Text → Text → Text
  or_ip email ip = if is_empty email then ip else email

  unfoldable pub rate_limit_password_reset : ℕ → ℕ → Text → Text → Store → Verdict × Store
  rate_limit_password_reset rpm now email ip s =
      rate_limit rpm 3_600 now (text "ratelimit:pwreset:" ++ or_ip (lower (strip email)) ip) s

-- The requests that are let through, of requests at the given times.
unfoldable pub admitted : ℕ → ℕ → List ℕ → Window → List ℕ
admitted limit window [] dq = []
admitted limit window (now ∷ times) dq =
    let (ok, kept) = inmem_allowed limit window now dq in
    let rest = admitted limit window times kept in if ok then now ∷ rest else rest
