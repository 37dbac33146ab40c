-- ===== src/Gemini.antt =====
-- The calls of the language model: RetryingGeminiModel of app/agent/gemini.py. Times are in
-- milliseconds.
pub mod Retries
pub mod Errors
pub mod Limiter
pub mod Bursts
mod Tests
use leadpulse.Prelude.{
  ℕ, zero, suc, ◌+◌, ◌*◌, Bool, true, false, Option, none, some, List, [], ◌∷◌, if◌then◌else◌, ◌==◌,
  or_else,
}

-- What one call of the model gives: an answer, an error that _is_rate_limited_gemini_error
-- recognises, with the delay that _get_retry_delay finds in it, or another exception.
pub data Call {ℓ} (A : Type ℓ) : Type ℓ where
  answered : A → Call A
  rate_limited : Option ℕ → Call A
  broken : Call A

pub data Result {ℓ} (A : Type ℓ) : Type ℓ where
  response : A → Result A
  rate_limit_error exception no_result : Result A

pub record RetryingModel : Type 0 where
  pub max_retries : ℕ
  pub initial_backoff : ℕ

abbrev pub default_model : RetryingModel
default_model = record { max_retries = 2; initial_backoff = 500 }

module _ {ℓ} {A : Type ℓ} where
  abbrev pub slept : ℕ → Result A × List ℕ → Result A × List ℕ
  slept ms (r, sleeps) = (r, ms ∷ sleeps)

  -- An attempt, with so many left after it: what the call gave, and the loop from the next attempt.
  abbrev pub attempt : Call A → ℕ → ℕ → Result A × List ℕ → Result A × List ℕ
  attempt (answered a) left delay next = (response a, [])
  attempt broken left delay next = (exception, [])
  attempt (rate_limited suggested) zero delay next = (rate_limit_error, [])
  attempt (rate_limited suggested) (suc left) delay next = slept (or_else suggested delay) next

  -- The loop, with the attempts that are left, the number of the call, and the delay: the result,
  -- and the times slept.
  unfoldable pub attempts_from : ℕ → ℕ → ℕ → (ℕ → Call A) → Result A × List ℕ
  attempts_from zero i delay calls = (no_result, [])
  attempts_from (suc left) i delay calls =
      attempt (calls i) left delay (attempts_from left (suc i) (delay * 2) calls)

  -- `ainvoke`, where `calls i` is what the call number `i` would give.
  unfoldable pub ainvoke : RetryingModel → (ℕ → Call A) → Result A × List ℕ
  ainvoke m calls = attempts_from (m.max_retries + 1) 0 m.initial_backoff calls
