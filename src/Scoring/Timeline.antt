-- ===== src/Scoring/Timeline.antt =====
-- The urgency of a timeline: `_score_timeline` of app/agent/tools/lead_scoring.py.
use leadpulse.Prelude.{ℕ, Option, none, some, List, [], ◌∷◌, leb, if◌then◌else◌}
use leadpulse.Prelude.Text.{Text, text, is_empty, lower, strip}
use leadpulse.Pattern.{Pattern, word, gap, digits, edge, maybe, find, found_any, number}

abbrev immediate : List Pattern
immediate =
    (edge ∷ word (text "immediate") ∷ edge ∷ [])
    ∷ (edge ∷ word (text "asap") ∷ edge ∷ [])
    ∷ (edge ∷ word (text "right") ∷ gap ∷ word (text "away") ∷ edge ∷ [])
    ∷ (edge ∷ word (text "urgent") ∷ edge ∷ [])
    ∷ (edge ∷ word (text "now") ∷ edge ∷ [])
    ∷ []

abbrev this_or_next : Text → List Pattern
this_or_next unit =
    (edge ∷ word (text "this") ∷ gap ∷ word unit ∷ edge ∷ [])
    ∷ (edge ∷ word (text "next") ∷ gap ∷ word unit ∷ edge ∷ [])
    ∷ []

-- `\b(\d+)\s*units?\b`
abbrev counted : Text → Pattern
counted unit = edge ∷ digits ∷ gap ∷ word unit ∷ maybe b's' ∷ edge ∷ []

abbrev half_year : List Pattern
half_year =
    (edge ∷ word (text "half") ∷ gap ∷ word (text "year") ∷ edge ∷ [])
    ∷ (edge ∷ word (text "6") ∷ gap ∷ word (text "months") ∷ edge ∷ [])
    ∷ []

unfoldable pub days_weight : ℕ → ℕ
days_weight n = if leb n 7 then 20 else if leb n 14 then 18 else 15

unfoldable pub weeks_weight : ℕ → ℕ
weeks_weight n = if leb n 4 then 18 else 12

unfoldable pub months_weight : ℕ → ℕ
months_weight n = if leb n 2 then 15 else if leb n 4 then 10 else 5

-- The weights of the tests, in their order: the first that succeeds decides.
keyword_weight : Text → ℕ
keyword_weight tl =
    if found_any (this_or_next (text "quarter")) tl
    then 5
    else if found_any half_year tl
    then 2
    else 2

months_step : Text → ℕ
unfolding keyword_weight months_weight
months_step tl = elim (find (counted (text "month")) tl) [
  | none ↦ keyword_weight tl
  | some n ↦ months_weight (number n)
]

weeks_step : Text → ℕ
unfolding months_step weeks_weight
weeks_step tl = elim (find (counted (text "week")) tl) [
  | none ↦ months_step tl
  | some n ↦ weeks_weight (number n)
]

days_step : Text → ℕ
unfolding weeks_step days_weight
days_step tl = elim (find (counted (text "day")) tl) [
  | none ↦ weeks_step tl
  | some n ↦ days_weight (number n)
]

unfoldable pub urgency : Text → ℕ
unfolding days_step
urgency tl =
    if found_any immediate tl
    then 20
    else if found_any (this_or_next (text "month")) tl
    then 18
    else days_step tl

unfoldable pub score_timeline : {R : Type 0} → (Text → R) → R → Option Text → ℕ × R
unfolding urgency
score_timeline known missing none = (0, missing)
score_timeline known missing (some s) =
    if is_empty s then (0, missing) else (urgency (strip (lower s)), known (strip (lower s)))
