-- ===== src/Gemini/Tests.antt =====
-- Calls that are rate limited, and the theorems about them.
use leadpulse.Prelude.Text.{Text, text, text_eq, contains, starts_with, upper}
use leadpulse.Gemini.Errors.{
  ErrorObject, no_dict, dict, iter_exception_chain, call_of, is_rate_limited_gemini_error,
  get_retry_delay, parse_client_error_retry_info, first_delay,
}
use leadpulse.Prelude.{if◌then◌else◌, ◌==◌}
use leadpulse.Limits.{Window, Store, oldest, zremrangebyscore}
use leadpulse.Gemini.Limiter.{acquire_all}
use leadpulse.Gemini.Bursts.{acquire_all-burst, repeat, IsFull}
use leadpulse.Prelude.{
  ◌-◌, [], ◌∷◌, ℕ, zero, suc, ◌+◌, ◌*◌, ◌^◌, ◌<◌, ◌≡◌, refl, none, some, length, arith,
}
use leadpulse.Gemini.{
  Call, answered, rate_limited, rate_limit_error, response, ainvoke, default_model,
}
use leadpulse.Gemini.Retries.{sum, ainvoke-limited, ainvoke-answer}

-- The first two calls are rate limited.
abbrev calls : ℕ → Call ℕ
calls zero = rate_limited (some 5_000)
calls (suc zero) = rate_limited (some 5_000)
calls (suc (suc n)) = answered 7

calls_limited : (j : ℕ) → j < 2 → calls j ≡ rate_limited (some 5_000)
calls_limited zero h = refl
calls_limited (suc zero) h = refl
calls_limited (suc (suc n)) h = absurd (omega (arith, h))

ainvoke-answer_example :
    ((ainvoke default_model calls).0 ≡ response 7) × (length (ainvoke default_model calls).1 ≡ 2)
ainvoke-answer_example =
    ainvoke-answer calls default_model 2 7 (λ j. some 5_000) (omega arith) calls_limited refl

abbrev always : ℕ → Call ℕ
always n = rate_limited none

ainvoke-limited_example :
    ((ainvoke default_model always).0 ≡ rate_limit_error)
    × (sum (ainvoke default_model always).1 + default_model.initial_backoff
        ≡ default_model.initial_backoff * 2 ^ default_model.max_retries)
ainvoke-limited_example = ainvoke-limited always default_model (λ j. refl)

-- A full window of Redis, and one of the process.
abbrev at_limit : Store
at_limit = record { inmem = λ k. 0 ∷ 1 ∷ []; redis = some (λ k. 20_000 ∷ 30_000 ∷ []) }

abbrev without_redis : Store
without_redis = record at_limit { redis = none }

-- Others take both slots during the first sleep.
abbrev crowd : ℕ → Window → Window
crowd zero dq = 80_000 ∷ 80_001 ∷ []
crowd (suc i) dq = dq

acquire_all-burst_example :
    ((acquire_all (λ w. w) (λ j. 0) crowd 100 1 2 none 50_000 at_limit).0
      ≡ repeat 100 (some (50_000 + ((oldest (20_000 ∷ 30_000 ∷ []) + 60_000) - 50_000) + 0)))
    × IsFull 2 none 50_000
        (20_000 ∷ 30_000 ∷ [])
        (acquire_all (λ w. w) (λ j. 0) crowd 100 1 2 none 50_000 at_limit).1
unfolding zremrangebyscore
acquire_all-burst_example =
    acquire_all-burst (λ w. w) (λ j. 0) crowd 100 1 2 none 50_000 (20_000 ∷ 30_000 ∷ []) at_limit
      (omega arith) (omega arith) (λ k. 20_000 ∷ 30_000 ∷ [], refl, refl, omega arith)

-- Two exceptions that are the context of each other, one of them a rate limit with a delay.
abbrev quiet : ErrorObject
quiet = record {
  code = none;
  status_code = none;
  status = none;
  message = text "wrapped";
  retry_after = none;
  details = no_dict;
  unpacked = none;
  cause = none;
  context = some 1;
}

abbrev limited : ErrorObject
limited = record quiet {
  code = some 429;
  details = dict (some (text "type.googleapis.com/google.rpc.RetryInfo", text "5s") ∷ []);
  context = some 0;
}

abbrev circular : ℕ → ErrorObject
circular i = if i == 0 then quiet else limited

both_visited : iter_exception_chain circular 3 [] (some 0) ≡ some (quiet ∷ limited ∷ [])
unfolding iter_exception_chain
both_visited = refl

five_seconds :
    call_of (λ t. if text_eq t (text "5") then some 5_000 else none) {A = ℕ} (quiet ∷ limited ∷ [])
    ≡ rate_limited (some 5_000)
unfolding call_of is_rate_limited_gemini_error get_retry_delay parse_client_error_retry_info
    first_delay contains starts_with upper text_eq
five_seconds = refl
