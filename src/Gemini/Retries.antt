-- ===== src/Gemini/Retries.antt =====
-- What the retries of app/agent/gemini.py give, and how long they wait.
use native.Mathlib.Nat.{mul_assoc, pow-succ'}
use leadpulse.Prelude.{
  ℕ, zero, suc, ◌+◌, ◌*◌, ◌^◌, ◌≤◌, ◌<◌, ◌≡◌, refl, ap, sym, ◌∙◌, Option, none, List, [], ◌∷◌,
  length, arith,
}
use leadpulse.Gemini.{
  Call, answered, rate_limited, response, rate_limit_error, attempts_from, ainvoke, RetryingModel,
}

abbrev pub sum : List ℕ → ℕ
sum [] = 0
sum (x ∷ xs) = x + sum xs

first_index : (i : ℕ) → i ≡ i + 0
first_index i = omega arith

next_index : (i k : ℕ) → suc i + k ≡ i + suc k
next_index i k = omega arith

from_first : (j : ℕ) → 0 + j ≡ j
from_first j = omega arith

one_more : (n : ℕ) → n + 1 ≡ suc n
one_more n = omega arith

times_power : (a n : ℕ) → a * 2 ^ suc n ≡ a * 2 * 2 ^ n
times_power a n = ap (λ p. a * p) (pow-succ' 2 n) ∙ sym (mul_assoc a 2 (2 ^ n))

module _ {ℓ} {A : Type ℓ} (calls : ℕ → Call A) where
  attempts_from-answer :
      (left i k delay : ℕ) (a : A) (suggested : ℕ → Option ℕ)
      → k < left
      → ((j : ℕ) → j < k → calls (i + j) ≡ rate_limited (suggested j))
      → calls (i + k) ≡ answered a
      → ((attempts_from left i delay calls).0 ≡ response a)
        × (length (attempts_from left i delay calls).1 ≡ k)
  unfolding attempts_from
  attempts_from-answer zero i k delay a suggested lt limited good = absurd (omega (arith, lt))
  attempts_from-answer (suc left) i zero delay a suggested lt limited good =
      let here = ap calls (first_index i) ∙ good in rw here (refl, refl)
  attempts_from-answer (suc zero) i (suc k) delay a suggested lt limited good =
      absurd (omega (arith, lt))
  attempts_from-answer (suc (suc left)) i (suc k) delay a suggested lt limited good =
      let here = ap calls (first_index i) ∙ limited 0 (omega arith) in
      let later =
        attempts_from-answer (suc left) (suc i) k (delay * 2) a (λ j. suggested (suc j))
          (omega (arith, lt))
          (λ j h. ap calls (next_index i j) ∙ limited (suc j) (omega (arith, h)))
          (ap calls (next_index i k) ∙ good) in
      rw here (ground (arith, later, lt))

  -- Without suggested delays, the waits double.
  attempts_from-limited :
      (left i delay : ℕ)
      → ((j : ℕ) → calls j ≡ rate_limited none)
      → ((attempts_from (suc left) i delay calls).0 ≡ rate_limit_error)
        × (sum (attempts_from (suc left) i delay calls).1 + delay ≡ delay * 2 ^ left)
  unfolding attempts_from
  attempts_from-limited zero i delay limited = rw (limited i) (refl, omega arith)
  attempts_from-limited (suc left) i delay limited =
      let later = attempts_from-limited left (suc i) (delay * 2) limited in
      rw (limited i) (later.0, omega (arith, later.1, times_power delay left))

  -- If the first `k` calls are rate limited and the next one answers, and `k` is at most the
  -- number of retries, then the answer is returned after `k` waits.
  pub ainvoke-answer :
      (m : RetryingModel) (k : ℕ) (a : A) (suggested : ℕ → Option ℕ)
      → k ≤ m.max_retries
      → ((j : ℕ) → j < k → calls j ≡ rate_limited (suggested j))
      → calls k ≡ answered a
      → ((ainvoke m calls).0 ≡ response a) × (length (ainvoke m calls).1 ≡ k)
  unfolding ainvoke
  ainvoke-answer m k a suggested le limited good =
      attempts_from-answer (m.max_retries + 1) 0 k m.initial_backoff a suggested (omega (arith, le))
        (λ j h. ap calls (from_first j) ∙ limited j h) (ap calls (from_first k) ∙ good)

  -- If every call is rate limited with no delay suggested, the call ends with the error for it,
  -- after waits that add up to the initial one times 2^retries - 1.
  pub ainvoke-limited :
      (m : RetryingModel)
      → ((j : ℕ) → calls j ≡ rate_limited none)
      → ((ainvoke m calls).0 ≡ rate_limit_error)
        × (sum (ainvoke m calls).1 + m.initial_backoff ≡ m.initial_backoff * 2 ^ m.max_retries)
  unfolding ainvoke
  ainvoke-limited m limited =
      rw (one_more m.max_retries) (attempts_from-limited m.max_retries 0 m.initial_backoff limited)
