-- ===== src/Scoring/Grading.antt =====
-- What float rounding does to a lead score: compute_lead_score of app/agent/tools/lead_scoring.py
-- against a score that is summed in whole hundredths.
use leadpulse.Prelude.{
  ℕ, ◌+◌, ◌≡◌, ◌≢◌, refl, min, Bool, true, false, ◌&&◌, ◌||◌, List, [], ◌∷◌, Option, none, some,
  leb, ◌==◌, if◌then◌else◌, all, any, arith, length,
}
use leadpulse.Prelude.Text.{Text, is_empty, strip, lower}
use leadpulse.Double.{round2}
use leadpulse.Scoring.{
  LeadStatus, hot, warm, cold, unqualified, LeadType, IntentType, information, Amount, LeadScoreIn,
  Reason, total, status_for, default_thresholds, score_budget, score_problem, score_intent,
  score_industry, industry_fit, not_generic, vertical_or_generic, compute_lead_score,
  timeline_known, timeline_unknown,
}
use leadpulse.Scoring.Timeline.{urgency, score_timeline}

abbrev budget_weights : List ℕ
budget_weights = 0 ∷ 5 ∷ 15 ∷ 20 ∷ 25 ∷ 30 ∷ 35 ∷ []

abbrev timeline_weights : List ℕ
timeline_weights = 0 ∷ 2 ∷ 5 ∷ 10 ∷ 12 ∷ 15 ∷ 18 ∷ 20 ∷ []

abbrev industry_weights : List ℕ
industry_weights = 0 ∷ 5 ∷ 15 ∷ 20 ∷ []

abbrev problem_weights : List ℕ
problem_weights = 0 ∷ 2 ∷ 8 ∷ 15 ∷ []

abbrev intent_weights : List ℕ
intent_weights = 2 ∷ 5 ∷ 8 ∷ 15 ∷ []

status_code : LeadStatus → ℕ
status_code hot = 2
status_code warm = 1
status_code cold = 0
status_code unqualified = 3

-- The status that a sum of whole hundredths gets at 0.70 and 0.40.
pub exact_status : ℕ → LeadStatus
exact_status s = if leb 70 s then hot else if leb 40 s then warm else cold

status_code-injective : (s t : LeadStatus) → status_code s ≡ status_code t → s ≡ t
unfolding status_code
status_code-injective s t h = ground arith

row_ok : ℕ → ℕ → ℕ → ℕ → ℕ → Bool
row_ok b t i p n =
    let sum = b + t + i + p + n in
    let x = total b t i p n in
    (round2 x == min sum 100)
    && ((status_code (status_for default_thresholds x) == status_code (exact_status sum))
        || sum == 40)

abbrev by_problem : ℕ → ℕ → ℕ → Bool
by_problem b t i = all (λ p. all (row_ok b t i p) intent_weights) problem_weights

-- Every combination of weights, by evaluation.
table :
    all
      (λ b. all (λ t. all (λ i. by_problem b t i) industry_weights) timeline_weights)
      budget_weights
    ≡ true
unfolding row_ok total round2 status_for status_code exact_status
table = refl

In : ℕ → List ℕ → Type 0
In x xs = any (λ y. x == y) xs ≡ true

all-In : (p : ℕ → Bool) (x : ℕ) (xs : List ℕ) → all p xs ≡ true → In x xs → p x ≡ true
unfolding In
all-In p x [] h m = ground arith
all-In p x (y ∷ ys) h m = ground (arith, all-In p x ys)

row_ok-table :
    (b t i p n : ℕ)
    → In b budget_weights
    → In t timeline_weights
    → In i industry_weights
    → In p problem_weights
    → In n intent_weights
    → row_ok b t i p n ≡ true
row_ok-table b t i p n hb ht hi hp hn =
    let at_b =
      all-In (λ b. all (λ t. all (λ i. by_problem b t i) industry_weights) timeline_weights) b
        budget_weights table hb in
    let at_t =
      all-In (λ t. all (λ i. by_problem b t i) industry_weights) t timeline_weights at_b ht in
    let at_i = all-In (by_problem b t) i industry_weights at_t hi in
    let at_p = all-In (λ p. all (row_ok b t i p) intent_weights) p problem_weights at_i hp in
    all-In (row_ok b t i p) n intent_weights at_p hn

score_budget-In : (b : Option Amount) (v : Text) → In (score_budget b v).0 budget_weights
unfolding In score_budget
score_budget-In b v = ground arith

score_timeline-In :
    (o : Option Text) → In (score_timeline timeline_known timeline_unknown o).0 timeline_weights
unfolding score_timeline In
score_timeline-In o = ground (arith)

industry_fit-In : (s : Text) → In (industry_fit s).0 industry_weights
unfolding In industry_fit
industry_fit-In s = ground arith

not_generic-In :
    (v : Text) (lt : Option LeadType) (o : Option Text) → In (not_generic v lt o).0 industry_weights
unfolding In not_generic
not_generic-In v lt o = ground arith

if-In :
    (c : Bool) (x y : ℕ × Reason)
    → In x.0 industry_weights
    → In y.0 industry_weights
    → In (if c then x else y).0 industry_weights
if-In true x y h k = h
if-In false x y h k = k

score_industry-In :
    (v : Text) (lt : Option LeadType) (o : Option Text)
    → In (score_industry v lt o).0 industry_weights
unfolding score_industry
score_industry-In v lt none = not_generic-In v lt none
score_industry-In v lt (some s) =
    if-In _ (industry_fit s) (not_generic v lt (some s)) (industry_fit-In s)
      (not_generic-In v lt (some s))

score_problem-In : (o : Option Text) → In (score_problem o).0 problem_weights
unfolding In score_problem
score_problem-In o = ground arith

score_intent-In : (i : IntentType) → In (score_intent i).0 intent_weights
unfolding In score_intent
score_intent-In i = ground arith

row_ok_sound :
    (b t i p n : ℕ)
    → row_ok b t i p n ≡ true
    → (round2 (total b t i p n) ≡ min (b + t + i + p + n) 100)
      × (b + t + i + p + n ≢ 40
          → status_for default_thresholds (total b t i p n) ≡ exact_status (b + t + i + p + n))
unfolding row_ok
row_ok_sound b t i p n h = (ground arith, λ ne. status_code-injective _ _ (ground arith))

-- The score in whole hundredths, summed with no rounding.
unfoldable pub exact_sum : LeadScoreIn → ℕ
exact_sum d =
    let v = vertical_or_generic d.vertical in
    (score_budget d.budget v).0
    + (score_timeline timeline_known timeline_unknown d.timeline).0
    + (score_industry v d.lead_type d.industry).0
    + (score_problem d.problem_statement).0
    + (score_intent d.intent).0

compute_lead_score-weights :
    (d : LeadScoreIn)
    → ((compute_lead_score default_thresholds d).score ≡ min (exact_sum d) 100)
      × (exact_sum d ≢ 40
          → (compute_lead_score default_thresholds d).status ≡ exact_status (exact_sum d))
unfolding compute_lead_score exact_sum
compute_lead_score-weights d =
    let v = vertical_or_generic d.vertical in
    row_ok_sound _ _ _ _ _ (
      row_ok-table _ _ _ _ _ (score_budget-In d.budget v) (score_timeline-In d.timeline)
        (score_industry-In v d.lead_type d.industry) (score_problem-In d.problem_statement)
        (score_intent-In d.intent))

-- With the default thresholds the reported score of any lead is the exact sum of its weights,
-- at most 1.00, whatever the float additions rounded.
pub compute_lead_score-exact :
    (d : LeadScoreIn) → (compute_lead_score default_thresholds d).score ≡ min (exact_sum d) 100
compute_lead_score-exact d = (compute_lead_score-weights d).0

-- With the default thresholds the status of a lead is the one that the exact sum of its weights
-- gets, unless that sum is exactly 0.40.
pub compute_lead_score-status :
    (d : LeadScoreIn)
    → exact_sum d ≢ 40
    → (compute_lead_score default_thresholds d).status ≡ exact_status (exact_sum d)
compute_lead_score-status d ne = (compute_lead_score-weights d).1 ne

total_at_point :
    (round2 (total 0 20 0 15 5) ≡ 40) × (status_for default_thresholds (total 0 20 0 15 5) ≡ cold)
unfolding total round2 status_for
total_at_point = (refl, refl)

weights_at :
    (b t i p n : ℕ)
    → b ≡ 0
    → t ≡ 20
    → i ≡ 0
    → p ≡ 15
    → n ≡ 5
    → (round2 (total b t i p n) ≡ 40) × (status_for default_thresholds (total b t i p n) ≡ cold)
weights_at b t i p n hb ht hi hp hn = rw (hb, ht, hi, hp, hn) total_at_point

-- A lead of unknown budget with an urgent timeline, no industry, no lead type, a problem of at
-- least 100 characters and the intent to get information is reported with the score 0.40, which
-- is the threshold of a warm lead, and yet as cold.
pub compute_lead_score_cold_at_threshold :
    (d : LeadScoreIn) {tl pr : Text}
    → d.budget ≡ none
    → d.timeline ≡ some tl
    → is_empty tl ≡ false
    → urgency (strip (lower tl)) ≡ 20
    → d.industry ≡ none
    → d.lead_type ≡ none
    → d.problem_statement ≡ some pr
    → is_empty pr ≡ false
    → leb 100 (length pr) ≡ true
    → d.intent ≡ information
    → ((compute_lead_score default_thresholds d).score ≡ 40)
      × ((compute_lead_score default_thresholds d).status ≡ cold)
unfolding compute_lead_score score_budget score_timeline score_industry score_problem score_intent
compute_lead_score_cold_at_threshold d {tl} {pr} hb ht hne hu hi hl hp hpe hlen hn =
    let v = vertical_or_generic d.vertical in
    weights_at (score_budget d.budget v).0
      (score_timeline timeline_known timeline_unknown d.timeline).0
      (score_industry v d.lead_type d.industry).0 (score_problem d.problem_statement).0
      (score_intent d.intent).0 (ground arith) (ground arith) (ground arith) (ground arith)
      (ground arith)
