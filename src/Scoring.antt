-- ===== src/Scoring.antt =====
-- Lead scoring: app/agent/tools/lead_scoring.py, with the schemas of app/models/schemas.py.
-- Weights are two-decimal literals, given in hundredths; sums of them are doubles (Double).
pub mod Timeline
pub mod Grading
pub mod Budget
mod Tests
use leadpulse.Prelude.{
  ℕ, ◌*◌, ◌^◌, min, Bool, true, false, not, ◌&&◌, Option, none, some, List, [], ◌∷◌, ◌++◌, leb,
  if◌then◌else◌, length, any,
}
use leadpulse.Prelude.Text.{Text, text, text_eq, is_empty, lower}
use leadpulse.Prelude.Int.{ℤ, pos, leb_ℤ}
use leadpulse.Double.{Double, one, literal, add, at_least, round2}
use leadpulse.Scoring.Timeline.{score_timeline}

pub data LeadStatus : Type 0 where
  hot warm cold unqualified : LeadStatus

pub data IntentType : Type 0 where
  purchase sell information support partnership unknown : IntentType

pub data LeadType : Type 0 where
  individual company : LeadType

-- A budget: `num` · 10 ^ -`scale`.
pub record Amount : Type 0 where
  pub num : ℤ
  pub scale : ℕ

-- `budget >= threshold`
unfoldable pub amount_ge : Amount → ℕ → Bool
amount_ge b t = leb_ℤ (pos (t * 10 ^ b.scale)) b.num

pub record LeadScoreIn : Type 0 where
  pub budget : Option Amount
  pub timeline : Option Text
  pub industry : Option Text
  pub problem_statement : Option Text
  pub intent : IntentType
  pub vertical : Text
  pub lead_type : Option LeadType

-- The sentences of `reasons`, with what each quotes.
pub data Reason : Type 0 where
  budget_unknown timeline_unknown industry_unknown problem_unknown : Reason
  well_defined partially_defined vague : Reason
  budget_known : Amount → Reason
  timeline_known icp_industry secondary_industry non_target_industry lead_context : Text → Reason
  vertical_signal : Text → ℕ → Reason
  intent_known : IntentType → Reason

pub record LeadScoreOut : Type 0 where
  pub score : ℕ  -- in hundredths
  pub status : LeadStatus
  pub reasoning : List Reason

-- The two thresholds of the settings.
pub record Thresholds : Type 0 where
  pub hot : Double
  pub warm : Double

-- `_BUDGET_BANDS`
abbrev pub Bands : Type 0
Bands = List (ℕ × ℕ)

unfoldable pub bands_for : Text → Bands
unfolding text_eq
bands_for vertical =
    if text_eq vertical (text "real_estate")
    then (750_000, 35) ∷ (400_000, 25) ∷ (200_000, 15) ∷ (0, 5) ∷ []
    else if text_eq vertical (text "insurance")
    then (150, 30) ∷ (75, 20) ∷ (0, 5) ∷ []
    else (50_000, 30) ∷ (10_000, 20) ∷ (0, 5) ∷ []

-- The first band that the budget reaches wins.
unfoldable pub first_band : Amount → Bands → ℕ
first_band b [] = 5
first_band b ((threshold, weight) ∷ bands) =
    if amount_ge b threshold then weight else first_band b bands

unfoldable pub score_budget : Option Amount → Text → ℕ × Reason
unfolding bands_for first_band
score_budget none vertical = (0, budget_unknown)
score_budget (some b) vertical = (first_band b (bands_for vertical), budget_known b)

unfoldable pub score_problem : Option Text → ℕ × Reason
score_problem none = (0, problem_unknown)
score_problem (some s) =
    if is_empty s
    then (0, problem_unknown)
    else if leb 100 (length s)
    then (15, well_defined)
    else if leb 30 (length s)
    then (8, partially_defined)
    else (2, vague)

intent_weight : IntentType → ℕ
intent_weight purchase = 15
intent_weight sell = 15
intent_weight information = 5
intent_weight support = 2
intent_weight partnership = 8
intent_weight unknown = 2

unfoldable pub score_intent : IntentType → ℕ × Reason
unfolding intent_weight
score_intent i = (intent_weight i, intent_known i)

abbrev icp_industries : List Text
icp_industries =
    text "real estate"
    ∷ text "realty"
    ∷ text "brokerage"
    ∷ text "real estate brokerage"
    ∷ text "insurance"
    ∷ text "insurance agency"
    ∷ text "independent insurance"
    ∷ []

abbrev secondary_industries : List Text
secondary_industries =
    text "technology"
    ∷ text "saas"
    ∷ text "software"
    ∷ text "fintech"
    ∷ text "healthtech"
    ∷ text "healthcare"
    ∷ text "manufacturing"
    ∷ text "logistics"
    ∷ text "ecommerce"
    ∷ text "retail"
    ∷ []

-- `x in s`
member : Text → List Text → Bool
unfolding text_eq
member x xs = any (text_eq x) xs

abbrev pub is_individual : Option LeadType → Bool
is_individual (some individual) = true
is_individual _ = false

-- A value that Python takes as true.
abbrev pub given : Option Text → Bool
given none = false
given (some s) = not (is_empty s)

industry_fit : Text → ℕ × Reason
unfolding member lower
industry_fit industry =
    if member (lower industry) icp_industries
    then (20, icp_industry industry)
    else if member (lower industry) secondary_industries
    then (5, secondary_industry industry)
    else (0, non_target_industry industry)

context_only : Option Text → ℕ × Reason
context_only none = (0, industry_unknown)
context_only (some s) = if is_empty s then (0, industry_unknown) else (0, lead_context s)

-- `_INDIVIDUAL_VERTICAL_SIGNALS`
has_signal : Text → Bool
unfolding text_eq
has_signal v = if text_eq v (text "real_estate") then true else text_eq v (text "insurance")

not_generic : Text → Option LeadType → Option Text → ℕ × Reason
unfolding context_only has_signal
not_generic v lt industry =
    if is_individual lt && has_signal v then (15, vertical_signal v 15) else context_only industry

-- The industry step. A branch that adds nothing to the score has weight 0: adding 0.0 is exact.
unfoldable pub score_industry : Text → Option LeadType → Option Text → ℕ × Reason
unfolding industry_fit not_generic text_eq
score_industry v lt none = not_generic v lt none
score_industry v lt (some s) =
    if not (is_empty s) && text_eq v (text "generic") && not (is_individual lt)
    then industry_fit s
    else not_generic v lt (some s)

-- `data.vertical or "generic"`
abbrev pub vertical_or_generic : Text → Text
vertical_or_generic [] = text "generic"
vertical_or_generic (c ∷ s) = c ∷ s

unfoldable pub status_for : Thresholds → Double → LeadStatus
status_for t score =
    if at_least score t.hot then hot else if at_least score t.warm then warm else cold

-- `score += weight` in the order of the source, then `min(score, 1.0)`.
unfoldable pub total : ℕ → ℕ → ℕ → ℕ → ℕ → Double
unfolding literal add
total b t i p n =
    let s0 = literal b in
    let s1 = add s0 (literal t) in
    let s2 = add s1 (literal i) in
    let s3 = add s2 (literal p) in let s4 = add s3 (literal n) in min s4 one

unfoldable pub compute_lead_score : Thresholds → LeadScoreIn → LeadScoreOut
unfolding status_for total
compute_lead_score th d =
    let v = vertical_or_generic d.vertical in
    let (bw, br) = score_budget d.budget v in
    let (tw, tr) = score_timeline timeline_known timeline_unknown d.timeline in
    let (iw, ir) = score_industry v d.lead_type d.industry in
    let (pw, pr) = score_problem d.problem_statement in
    let (nw, nr) = score_intent d.intent in
    let score = total bw tw iw pw nw in
    record {
      score = round2 score;
      status = status_for th score;
      reasoning = br ∷ tr ∷ ir ∷ pr ∷ nr ∷ [];
    }

abbrev pub default_thresholds : Thresholds
unfolding literal
default_thresholds = record { hot = literal 70; warm = literal 40 }
