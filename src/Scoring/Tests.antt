-- ===== src/Scoring/Tests.antt =====
-- Runs of the scoring of app/agent/tools/lead_scoring.py, and the theorems at concrete leads.
use leadpulse.Prelude.{◌≡◌, refl, min, none, some}
use leadpulse.Prelude.Text.{Text, text, text_eq, lower, strip}
use leadpulse.Prelude.Int.{pos}
use leadpulse.Pattern.{find, found_any, number}
use leadpulse.Double.{round2}
use leadpulse.Scoring.{
  hot, purchase, information, individual, amount_ge, LeadScoreIn, score_budget, score_industry,
  score_problem, score_intent, compute_lead_score, default_thresholds,
}
use leadpulse.Scoring.Timeline.{urgency, score_timeline}
use leadpulse.Scoring.Grading.{exact_sum, compute_lead_score-exact}

timelines :
    (urgency (text "asap, please") ≡ 20)
    × (urgency (text "right  away") ≡ 20)
    × (urgency (text "know soon") ≡ 2)
    × (urgency (text "next month") ≡ 18)
    × (urgency (text "in 10 days") ≡ 18)
    × (urgency (text "30days") ≡ 15)
    × (urgency (text "3 weeks") ≡ 18)
    × (urgency (text "6 months") ≡ 5)
    × (urgency (text "this quarter") ≡ 5)
    × (urgency (text "half year") ≡ 2)
unfolding urgency find found_any number
timelines = (refl, refl, refl, refl, refl, refl, refl, refl, refl, refl)

abbrev statement : Text
statement =
    text
      "We lose leads overnight because nobody answers the web form until the next morning comes around."

abbrev long_statement : Text
long_statement =
    text
      "We lose leads overnight because nobody answers the web form until the next morning comes around again."

abbrev buyer : LeadScoreIn
buyer = record {
  budget = some (record { num = pos 800_000; scale = 0 });
  timeline = some (text "ASAP");
  industry = none;
  problem_statement = some (text "Looking for a three bedroom house near a school");
  intent = purchase;
  vertical = text "real_estate";
  lead_type = some individual;
}

buyer_score :
    ((compute_lead_score default_thresholds buyer).score ≡ 93)
    × ((compute_lead_score default_thresholds buyer).status ≡ hot)
unfolding compute_lead_score score_budget amount_ge score_timeline urgency find found_any lower
    strip score_industry score_problem score_intent round2 text_eq
buyer_score = (refl, refl)

compute_lead_score-exact_example :
    (compute_lead_score default_thresholds buyer).score ≡ min (exact_sum buyer) 100
compute_lead_score-exact_example = compute_lead_score-exact buyer

buyer_sum : exact_sum buyer ≡ 93
unfolding exact_sum score_budget amount_ge score_timeline urgency find found_any lower strip
    score_industry score_problem score_intent text_eq
buyer_sum = refl

abbrev asker : LeadScoreIn
asker = record {
  budget = none;
  timeline = some (text "now");
  industry = none;
  problem_statement = some long_statement;
  intent = information;
  vertical = text "generic";
  lead_type = none;
}
