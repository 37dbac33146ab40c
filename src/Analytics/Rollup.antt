-- ===== src/Analytics/Rollup.antt =====
-- The daily rollup: run_daily_rollup of app/services/analytics.py and upsert_daily_summary of
-- app/database/crud.py.
use leadpulse.Prelude.{
  ℕ, ◌+◌, ◌-◌, Bool, ◌&&◌, Option, none, some, List, [], ◌∷◌, ◌++◌, if◌then◌else◌, ◌==◌, keep_if,
  map,
}
use leadpulse.Prelude.Text.{Text, text_eq}
use leadpulse.Accounts.{Selected, no_row, rows, one_row, selected}
use leadpulse.Analytics.{Python, Metrics, Tables, DailyOrgSummary, UsageLog, Moment}
use leadpulse.Analytics.Computed.{compute_org_metrics}

-- `_get_active_orgs`
abbrev pub get_active_orgs : List (ℕ × Bool) → List ℕ
get_active_orgs [] = []
get_active_orgs (o ∷ os) = if o.1 then o.0 ∷ get_active_orgs os else get_active_orgs os

module _ {ℓ} {F : Type ℓ} where
  abbrev pub is_summary_of : ℕ → Text → DailyOrgSummary F → Bool
  is_summary_of org date s = s.organization_id == org && text_eq s.date date

  -- The keyword arguments of the call, set on a row.
  abbrev pub set_fields : Metrics F → DailyOrgSummary F → DailyOrgSummary F
  set_fields m s = record s {
    total_conversations = m.total;
    qualified_leads = m.hot + m.warm;
    hot_leads = m.hot;
    warm_leads = m.warm;
    cold_leads = m.cold;
    meetings_booked = m.meetings_booked;
    human_escalations = m.human_escalations;
    avg_qualification_score = m.average_qualification_score;
  }

  -- A new row, with the defaults of its columns.
  abbrev pub new_summary : Python F → ℕ → Text → DailyOrgSummary F
  new_summary py org day = record {
    organization_id = org;
    date = day;
    total_conversations = 0;
    qualified_leads = 0;
    hot_leads = 0;
    warm_leads = 0;
    cold_leads = 0;
    meetings_booked = 0;
    human_escalations = 0;
    gemini_calls = 0;
    total_prompt_tokens = 0;
    total_completion_tokens = 0;
    total_cost = py.zero;
    avg_qualification_score = none;
  }

  abbrev pub set_where : ℕ → Text → Metrics F → DailyOrgSummary F → DailyOrgSummary F
  set_where org date m s = if is_summary_of org date s then set_fields m s else s

  abbrev pub upsert :
      Python F
      → ℕ
      → Text
      → Metrics F
      → List (DailyOrgSummary F)
      → Selected (DailyOrgSummary F)
      → Option (List (DailyOrgSummary F))
  upsert py org date m summaries no_row =
      some (summaries ++ set_fields m (new_summary py org date) ∷ [])
  upsert py org date m summaries (one_row s) = some (map (set_where org date m) summaries)
  upsert py org date m summaries rows = none

  -- `upsert_daily_summary`, or none for the exception of `scalar_one_or_none`.
  unfoldable pub upsert_daily_summary :
      Python F → ℕ → Text → Metrics F → List (DailyOrgSummary F) → Option (List (DailyOrgSummary F))
  upsert_daily_summary py org date m summaries =
      upsert py org date m summaries (selected (keep_if (is_summary_of org date) summaries))

  -- What one turn of the loop commits.
  unfoldable pub rollup_org : Python F → Text → ℕ → Tables F → Option (Tables F)
  rollup_org py date org db = elim (compute_org_metrics py org (some date) (some date) db) [
    | none ↦ none
    | some m ↦ elim (upsert_daily_summary py org date m db.daily_org_summaries) [
      | none ↦ none
      | some rows' ↦ some (record db { daily_org_summaries = rows' })
    ]
  ]

  -- The loop: the tables it leaves, and the number it returns if nothing is raised.
  unfoldable pub rollup_orgs : Python F → Text → List ℕ → ℕ → Tables F → Tables F × Option ℕ
  rollup_orgs py date [] updated db = (db, some updated)
  rollup_orgs py date (org ∷ orgs) updated db = elim (rollup_org py date org db) [
    | none ↦ (db, none)
    | some db' ↦ rollup_orgs py date orgs (updated + 1) db'
  ]

  abbrev pub yesterday : Python F → Moment → Text
  yesterday py now = py.strftime (now.day - 1)

  unfoldable pub run_daily_rollup : Python F → Moment → Tables F → Tables F × Option ℕ
  run_daily_rollup py now db =
      rollup_orgs py (yesterday py now) (get_active_orgs db.organizations) 0 db

  -- `log_usage`
  unfoldable pub log_usage : UsageLog F → Tables F → Tables F
  log_usage u db = record db { usage_logs = db.usage_logs ++ u ∷ [] }
