-- ===== src/Limits/Tests.antt =====
-- Requests at a limit of two in a minute, and the theorems about them.
use leadpulse.Prelude.{ℕ, ◌≤◌, ◌≡◌, refl, some, List, [], ◌∷◌, arith, ◌/◌, ◌*◌}
use leadpulse.Prelude.Text.{Text}
use leadpulse.Limits.{Window, admitted, inmem_allowed, expire, Store}
use leadpulse.Limits.Windows.{InOrder, count, admitted-bound}

abbrev request_times : List ℕ
request_times = 0 ∷ 1_000 ∷ 2_000 ∷ 61_000 ∷ 61_001 ∷ []

two_a_minute : admitted 2 60_000 request_times [] ≡ 0 ∷ 1_000 ∷ 61_000 ∷ 61_001 ∷ []
unfolding admitted inmem_allowed expire
two_a_minute = refl

request_times-InOrder : InOrder 0 request_times
request_times-InOrder =
    (omega arith, (omega arith, (omega arith, (omega arith, (omega arith, tt)))))

admitted-bound_example : count 60_000 500 (admitted 2 60_000 request_times []) ≤ 2
admitted-bound_example = admitted-bound 2 60_000 0 500 request_times request_times-InOrder

abbrev windows : Text → Window
windows k = 0 ∷ 1_000 ∷ []

abbrev store : Store
store = record { inmem = λ k. []; redis = some windows }

-- What Redis makes of the number of a script, in thousandths.
abbrev truncated : ℕ → ℕ
truncated ms = ms / 1000 * 1000
