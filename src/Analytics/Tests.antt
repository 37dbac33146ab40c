-- ===== src/Analytics/Tests.antt =====
-- Two conversations of an organization on a day, and its summary of that day.
use leadpulse.Prelude.{
  ℕ, ◌+◌, ◌-◌, ◌*◌, ◌/◌, true, false, none, some, List, [], ◌∷◌, ◌≡◌, refl, inl, arith, ◌==◌,
  if◌then◌else◌, All, length, Option, map,
}
use leadpulse.Prelude.Text.{Text, text, text_eq, strip, strip_left, contains, starts_with}
use leadpulse.Analytics.{
  Python, Moment, LeadConversation, Tables, DailyOrgSummary, Metrics, parse_date_boundary, overflow,
  east, day_length, Option, map,
}
use leadpulse.Analytics.Computed.{compute_org_metrics, metrics_of}
use leadpulse.Analytics.Periods.{IsDate}
use leadpulse.Analytics.Rollup.{run_daily_rollup, get_active_orgs, yesterday}
use leadpulse.Analytics.Counts.{HasCount, run_daily_rollup-HasCount, run_daily_rollup-twice}
use leadpulse.Analytics.Daily.{Untouched}
use leadpulse.Analytics.Order.{compute_org_metrics-own}
use leadpulse.Analytics.Scheduler.{
  rollup_loop, Tasks, start_daily_rollup_scheduler, seconds_until_next_utc_midnight,
}
use leadpulse.Analytics.Clock.{rollup_loop-day}
use leadpulse.Access.{Access, granted}
use leadpulse.Accounts.Requests.{ok, http}
use leadpulse.Analytics.Endpoints.{
  get_daily_summaries_endpoint, get_daily_summaries, get_org_metrics, summary_out, text_leb,
}

abbrev total_of : List ℕ → ℕ
total_of [] = 0
total_of (x ∷ xs) = x + total_of xs

abbrev day : ℕ
day = 739679

abbrev day_text : Text
day_text = text "2026-03-04"

-- Floats in ten-thousandths, and one date.
abbrev python : Python ℕ
python = record {
  date_fromisoformat = λ v. if text_eq v day_text then some day else none;
  datetime_fromisoformat = λ v.
      if text_eq v (text "0001-01-01T00:00+05:00")
      then some (record { day = 1; time = 0 }, east 18000000000)
      else none;
  strftime = λ d. if d == day then day_text else [];
  zero = 0;
  plus = λ a b. a + b;
  quotient = λ a b. a * 10000 / b;
  over = λ a b. a / b;
  round4 = λ a. a;
  sql_sum = λ xs. some (total_of xs);
}

abbrev hot_lead : LeadConversation ℕ
hot_lead = record {
  tenant_id = some 1;
  created_at = record { day = day; time = 86399999999 };
  lead_status = some (text "hot");
  conversation_stage = some (text "qualified");
  booking_confirmed = true;
  human_escalated = false;
  qualification_score = some 9000;
}

abbrev cold_lead : LeadConversation ℕ
cold_lead = record {
  tenant_id = some 1;
  created_at = record { day = day; time = 0 };
  lead_status = some (text "cold");
  conversation_stage = some (text "collecting");
  booking_confirmed = false;
  human_escalated = true;
  qualification_score = none;
}

abbrev other_lead : LeadConversation ℕ
other_lead = record hot_lead { tenant_id = some 2 }

abbrev tables : Tables ℕ
tables = record {
  conversations = hot_lead ∷ cold_lead ∷ other_lead ∷ [];
  usage_logs = [];
  daily_org_summaries = [];
  organizations = (1, true) ∷ (2, false) ∷ [];
}

abbrev morning : Moment
morning = record { day = day + 1; time = 5 }

is_date : IsDate python day
unfolding strip strip_left contains starts_with text_eq
is_date = record { strips = refl; is_given = refl; is_plain = refl; reads = refl }

-- A zone before the first day of the calendar raises an OverflowError.
overflowing : parse_date_boundary python false (some (text "0001-01-01T00:00+05:00")) ≡ overflow
unfolding parse_date_boundary strip strip_left contains starts_with text_eq
overflowing = refl

run_daily_rollup-HasCount_example :
    (rows' : List (DailyOrgSummary ℕ)) × (run_daily_rollup python morning tables ≡ (
      record tables { daily_org_summaries = rows' },
      some (length (get_active_orgs tables.organizations)),
    ))
    × All
        (HasCount python (morning.day - 1) tables.conversations rows')
        (get_active_orgs tables.organizations)
    × Untouched python
        (yesterday python morning)
        (get_active_orgs tables.organizations)
        tables.daily_org_summaries
        rows'
run_daily_rollup-HasCount_example =
    run_daily_rollup-HasCount python morning tables is_date (ground arith) (λ org. inl refl)

run_daily_rollup-twice_example :
    run_daily_rollup python morning (run_daily_rollup python morning tables).0
    ≡ run_daily_rollup python morning tables
run_daily_rollup-twice_example =
    run_daily_rollup-twice python morning tables is_date (ground arith) (λ org. inl refl)

compute_org_metrics-own_example :
    compute_org_metrics python 1 (some day_text) none tables
    ≡ compute_org_metrics python 1
        (some day_text)
        none
        (record tables { conversations = other_lead ∷ hot_lead ∷ cold_lead ∷ [] })
compute_org_metrics-own_example =
    compute_org_metrics-own python 1 (some day_text) none tables
      (record tables { conversations = other_lead ∷ hot_lead ∷ cold_lead ∷ [] }) refl refl

abbrev metrics : Metrics ℕ
metrics = record {
  total = 2;
  hot = 1;
  warm = 0;
  cold = 1;
  qualification_rate = 5000;
  booking_rate = 5000;
  greeting = 0;
  collecting = 1;
  qualified = 1;
  average_qualification_score = some 9000;
  meetings_booked = 1;
  human_escalations = 1;
  average_response_time_seconds = none;
  cost_per_booked_meeting = some 0;
}

computed : compute_org_metrics python 1 (some day_text) (some day_text) tables ≡ some metrics
unfolding compute_org_metrics metrics_of parse_date_boundary strip strip_left contains starts_with
    text_eq
computed = refl

rollup_loop-day_example : (rollup_loop (λ _. 60000000) (λ _. 1000) morning 7).day ≡ morning.day + 7
rollup_loop-day_example =
    rollup_loop-day (λ _. 60000000) (λ _. 1000) morning (omega arith, λ i. omega arith) 7

abbrev no_tasks : Tasks
no_tasks = record { rollup_task = none; created = 0; is_done = λ _. false }

abbrev started : Tasks
started = (start_daily_rollup_scheduler no_tasks).1

-- From midnight to midnight.
whole_day : seconds_until_next_utc_midnight (record { day = day; time = 0 }) ≡ day_length
unfolding seconds_until_next_utc_midnight
whole_day = refl

abbrev summary_on : Text → ℕ → DailyOrgSummary ℕ
summary_on date org = record {
  organization_id = org;
  date = date;
  total_conversations = 1;
  qualified_leads = 0;
  hot_leads = 0;
  warm_leads = 0;
  cold_leads = 0;
  meetings_booked = 0;
  human_escalations = 0;
  gemini_calls = 0;
  total_prompt_tokens = 0;
  total_completion_tokens = 0;
  total_cost = 0;
  avg_qualification_score = none;
}

abbrev summarized : Tables ℕ
summarized = record tables {
  daily_org_summaries =
      summary_on day_text 1
      ∷ summary_on (text "2026-03-02") 1
      ∷ summary_on day_text 2
      ∷ summary_on (text "2026-02-28") 1
      ∷ [];
}

abbrev user_of : Option ℕ → Access
user_of org = granted (record { user_id = some 1; role = text "org_member"; organization = org })

-- The days of March of the user's organization, in their order.
shown :
    get_daily_summaries_endpoint python
      (λ d. d)
      (user_of (some 1))
      (text "2026-03-01")
      day_text
      morning
      summarized
    ≡ ok (map summary_out (summary_on (text "2026-03-02") 1 ∷ summary_on day_text 1 ∷ []))
unfolding get_daily_summaries_endpoint get_daily_summaries text_leb
shown = refl

not_shown :
    get_org_metrics python (λ d. d) (user_of none) day_text day_text morning tables ≡ http 400
unfolding get_org_metrics
not_shown = refl
