-- ===== src/Scoring/Budget.antt =====
-- A larger budget never lowers a lead score: _score_budget and compute_lead_score of
-- app/agent/tools/lead_scoring.py.
use native.Mathlib.Nat.{mul-le-mul_right, le_of_mul-le-mul_right, pow-suc}
use leadpulse.Prelude.{ℕ, zero, suc, ◌+◌, ◌*◌, ◌^◌, ◌≤◌, ◌<◌, ◌≡◌, true, some, arith}
use leadpulse.Prelude.Int.{pos_part, neg_part}
use leadpulse.Prelude.Text.{Text}
use leadpulse.Scoring.{
  Amount, amount_ge, score_budget, LeadScoreIn, compute_lead_score, default_thresholds,
  vertical_or_generic,
}
use leadpulse.Scoring.Grading.{exact_sum, compute_lead_score-exact}

-- The order of budgets, over their common scale.
abbrev pub AmountLe : Amount → Amount → Type 0
AmountLe b c =
    pos_part b.num * 10 ^ c.scale + neg_part c.num * 10 ^ b.scale
    ≤ pos_part c.num * 10 ^ b.scale + neg_part b.num * 10 ^ c.scale

pow_ten_pos : (s : ℕ) → 0 < 10 ^ s
pow_ten_pos zero = omega arith
pow_ten_pos (suc s) = rw pow-suc (omega (arith, pow_ten_pos s))

ge_parts :
    (b : Amount) (t : ℕ) → amount_ge b t ≡ true → t * 10 ^ b.scale + neg_part b.num ≤ pos_part b.num
unfolding amount_ge
ge_parts b t h = ground arith

ge_of_parts :
    (b : Amount) (t : ℕ) → t * 10 ^ b.scale + neg_part b.num ≤ pos_part b.num → amount_ge b t ≡ true
unfolding amount_ge
ge_of_parts b t h = ground arith

scaled :
    (t p q m n m' n' : ℕ)
    → 0 < p
    → t * p + n ≤ m
    → m * q + n' * p ≤ m' * p + n * q
    → t * q + n' ≤ m'
scaled t p q m n m' n' hp h k =
    le_of_mul-le-mul_right {k = p} (omega (arith, mul-le-mul_right q h)) hp

-- A budget reaches every threshold that a smaller one reaches.
amount_ge_mono : (b c : Amount) (t : ℕ) → AmountLe b c → amount_ge b t ≡ true → amount_ge c t ≡ true
amount_ge_mono b c t h e = ge_of_parts c t (
    scaled t (10 ^ b.scale) (10 ^ c.scale) (pos_part b.num) (neg_part b.num) (pos_part c.num)
      (neg_part c.num) (pow_ten_pos b.scale) (ge_parts b t e) h)

score_budget_mono :
    (b c : Amount) (v : Text)
    → AmountLe b c
    → (score_budget (some b) v).0 ≤ (score_budget (some c) v).0
unfolding score_budget
score_budget_mono b c v h = ground (
  arith,
  amount_ge_mono b c 750_000 h,
  amount_ge_mono b c 400_000 h,
  amount_ge_mono b c 200_000 h,
  amount_ge_mono b c 150 h,
  amount_ge_mono b c 75 h,
  amount_ge_mono b c 50_000 h,
  amount_ge_mono b c 10_000 h,
  amount_ge_mono b c 0 h,
)

-- With the default thresholds, a lead with a larger budget and all else equal never gets a
-- lower score, in any vertical.
pub compute_lead_score_mono :
    (d : LeadScoreIn) (b c : Amount)
    → AmountLe b c
    → (compute_lead_score default_thresholds (record d { budget = some b })).score
      ≤ (compute_lead_score default_thresholds (record d { budget = some c })).score
unfolding exact_sum
compute_lead_score_mono d b c h =
    let small = record d { budget = some b } in
    let large = record d { budget = some c } in
    omega (
      arith,
      compute_lead_score-exact small,
      compute_lead_score-exact large,
      score_budget_mono b c (vertical_or_generic d.vertical) h,
    )
