-- ===== src/Analytics.antt =====
-- The metrics of an organization and their daily rollup: app/services/analytics.py, app/api/analytics.py and
-- the summaries of app/database/crud.py. A date is its ordinal, and a time of a day is in microseconds.
pub mod Computed
pub mod Periods
pub mod Endpoints
pub mod Rollup
pub mod Daily
pub mod Runs
pub mod Counts
pub mod Scheduler
pub mod Clock
pub mod Order
mod Tests
use leadpulse.Prelude.{
  ℕ, zero, suc, ◌+◌, ◌-◌, ◌*◌, ◌/◌, ◌%◌, Bool, true, false, ◌&&◌, ◌||◌, Option, none, some, List,
  [], ◌∷◌, ◌++◌, if◌then◌else◌, ltb, leb, ◌==◌, keep_if, map, length, is_some,
}
use leadpulse.Prelude.Text.{Text, text, text_eq, strip, is_empty, contains}
use leadpulse.Billing.{text_is}
use leadpulse.Accounts.{Selected, no_row, rows, one_row, selected}
use leadpulse.Accounts.Requests.{Reply, ok, http, crashed}

-- A datetime without a zone.
pub record Moment : Type 0 where
  pub day : ℕ
  pub time : ℕ

-- What `tzinfo` is: none, or so far east or west of UTC.
pub data Zone : Type 0 where
  naive : Zone
  east west : ℕ → Zone

abbrev pub day_length : ℕ
day_length = 86400000000

-- `date.max.toordinal()`
abbrev pub last_day : ℕ
last_day = 3652059

-- Floats, and the texts of dates, as the interpreter has them: `quotient` is the `/` of two ints,
-- `over` that of a float and an int, `sql_sum` the SUM of the database, none for no rows.
pub record Python {ℓ} (F : Type ℓ) : Type ℓ where
  pub date_fromisoformat : Text → Option ℕ
  pub datetime_fromisoformat : Text → Option (Moment × Zone)
  pub strftime : ℕ → Text
  pub zero : F
  pub plus : F → F → F
  pub quotient : ℕ → ℕ → F
  pub over : F → ℕ → F
  pub round4 : F → F
  pub sql_sum : List F → Option F

-- A value of `_parse_date_boundary`, or its OverflowError.
pub data Boundary : Type 0 where
  no_boundary overflow : Boundary
  boundary : Moment → Boundary

abbrev pub within_range : ℕ → Boundary
within_range t =
    if leb 1 (t / day_length) && leb (t / day_length) last_day
    then boundary (record { day = t / day_length; time = t % day_length })
    else overflow

-- `dt.astimezone(timezone.utc).replace(tzinfo=None)`
abbrev pub to_utc : Moment → Zone → Boundary
to_utc m naive = boundary m
to_utc m (east o) = within_range (m.day * day_length + m.time - o)
to_utc m (west o) = within_range (m.day * day_length + m.time + o)

abbrev pub last_microsecond : Moment → Moment
last_microsecond m = if m.time == 0 then record m { time = day_length - 1 } else m

abbrev pub of_datetime : Bool → Moment × Zone → Boundary
of_datetime end_of_day (m, naive) = boundary (if end_of_day then last_microsecond m else m)
of_datetime end_of_day (m, east o) = to_utc m (east o)
of_datetime end_of_day (m, west o) = to_utc m (west o)

abbrev pub of_stamp : Bool → Option (Moment × Zone) → Boundary
of_stamp end_of_day none = no_boundary
of_stamp end_of_day (some z) = of_datetime end_of_day z

abbrev pub of_date : Bool → Option ℕ → Boundary
of_date end_of_day none = no_boundary
of_date end_of_day (some d) =
    of_datetime end_of_day
      (record { day = d; time = if end_of_day then day_length - 1 else 0 }, naive)

-- `_parse_date_boundary`
unfoldable pub parse_date_boundary {ℓ} : {F : Type ℓ} → Python F → Bool → Option Text → Boundary
parse_date_boundary py end_of_day none = no_boundary
parse_date_boundary py end_of_day (some value) =
    let v = strip value in
    if is_empty v
    then no_boundary
    else if contains (text "T") v || contains (text " ") v
    then of_stamp end_of_day (py.datetime_fromisoformat v)
    else of_date end_of_day (py.date_fromisoformat v)

abbrev pub at_most : Moment → Moment → Bool
at_most a b = ltb a.day b.day || (a.day == b.day && leb a.time b.time)

abbrev pub from : Boundary → Moment → Bool
from (boundary b) m = at_most b m
from no_boundary m = true
from overflow m = true

abbrev pub until : Boundary → Moment → Bool
until (boundary b) m = at_most m b
until no_boundary m = true
until overflow m = true

-- What a query reads of a row of lead_conversations.
pub record LeadConversation {ℓ} (F : Type ℓ) : Type ℓ where
  pub tenant_id : Option ℕ
  pub created_at : Moment
  pub lead_status : Option Text
  pub conversation_stage : Option Text
  pub booking_confirmed : Bool
  pub human_escalated : Bool
  pub qualification_score : Option F

-- A row of usage_logs.
pub record UsageLog {ℓ} (F : Type ℓ) : Type ℓ where
  pub organization_id : Option ℕ
  pub session_id : Option Text
  pub model : Text
  pub prompt_tokens : ℕ
  pub completion_tokens : ℕ
  pub total_tokens : ℕ
  pub estimated_cost : Option F
  pub created_at : Moment

-- A row of daily_org_summaries.
pub record DailyOrgSummary {ℓ} (F : Type ℓ) : Type ℓ where
  pub organization_id : ℕ
  pub date : Text
  pub total_conversations : ℕ
  pub qualified_leads : ℕ
  pub hot_leads : ℕ
  pub warm_leads : ℕ
  pub cold_leads : ℕ
  pub meetings_booked : ℕ
  pub human_escalations : ℕ
  pub gemini_calls : ℕ
  pub total_prompt_tokens : ℕ
  pub total_completion_tokens : ℕ
  pub total_cost : F
  pub avg_qualification_score : Option F

pub record Metrics {ℓ} (F : Type ℓ) : Type ℓ where
  pub total : ℕ
  pub hot : ℕ
  pub warm : ℕ
  pub cold : ℕ
  pub qualification_rate : F
  pub booking_rate : F
  pub greeting : ℕ
  pub collecting : ℕ
  pub qualified : ℕ
  pub average_qualification_score : Option F
  pub meetings_booked : ℕ
  pub human_escalations : ℕ
  pub average_response_time_seconds : Option F
  pub cost_per_booked_meeting : Option F

-- The tables, with the ids of organizations and whether these are active.
pub record Tables {ℓ} (F : Type ℓ) : Type ℓ where
  pub conversations : List (LeadConversation F)
  pub usage_logs : List (UsageLog F)
  pub daily_org_summaries : List (DailyOrgSummary F)
  pub organizations : List (ℕ × Bool)

abbrev pub is_id : Option ℕ → ℕ → Bool
is_id none id = false
is_id (some i) id = i == id
