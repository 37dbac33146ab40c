-- ===== src/Analytics/Endpoints.antt =====
-- The endpoints of metrics and summaries: app/api/analytics.py, with get_daily_summaries of
-- app/database/crud.py.
use leadpulse.Prelude.{
  ℕ, Bool, true, false, ◌&&◌, Option, none, some, List, [], ◌∷◌, map, if◌then◌else◌, ltb, ◌==◌,
  keep_if,
}
use leadpulse.Prelude.Text.{Text, is_empty}
use leadpulse.Access.{Access, granted, unauthorized, forbidden, crashed}
use leadpulse.Accounts.Requests.{Reply, ok, http}
use leadpulse.Analytics.{Python, Moment, Metrics, DailyOrgSummary, Tables}
use leadpulse.Analytics.Computed.{compute_org_metrics}

-- `a <= b` of texts, by code points.
unfoldable pub text_leb : Text → Text → Bool
text_leb [] t = true
text_leb (c ∷ s) [] = false
text_leb (c ∷ s) (d ∷ t) =
    let rest = text_leb s t in if ltb c d then true else if c == d then rest else false

abbrev pub with_tenant {κ} : {A : Type κ} → Access → (ℕ → Reply A) → Reply A
with_tenant unauthorized f = http 401
with_tenant forbidden f = http 403
with_tenant crashed f = Reply.crashed
with_tenant (granted i) f = elim i.organization [ none ↦ http 400 | some id ↦ f id ]

pub record DailySummaryOut {ℓ} (F : Type ℓ) : Type ℓ where
  pub date : Text
  pub total_conversations : ℕ
  pub qualified_leads : ℕ
  pub hot_leads : ℕ
  pub warm_leads : ℕ
  pub cold_leads : ℕ
  pub meetings_booked : ℕ
  pub human_escalations : ℕ
  pub avg_qualification_score : Option F
  pub total_cost : F

module _ {ℓ} {F : Type ℓ} where
  abbrev pub summary_out : DailyOrgSummary F → DailySummaryOut F
  summary_out r = record {
    date = r.date;
    total_conversations = r.total_conversations;
    qualified_leads = r.qualified_leads;
    hot_leads = r.hot_leads;
    warm_leads = r.warm_leads;
    cold_leads = r.cold_leads;
    meetings_booked = r.meetings_booked;
    human_escalations = r.human_escalations;
    avg_qualification_score = r.avg_qualification_score;
    total_cost = r.total_cost;
  }

  -- ORDER BY date.
  abbrev pub insert_by_date :
      DailyOrgSummary F → List (DailyOrgSummary F) → List (DailyOrgSummary F)
  insert_by_date s [] = s ∷ []
  insert_by_date s (t ∷ ts) =
      let rest = insert_by_date s ts in if text_leb s.date t.date then s ∷ t ∷ ts else t ∷ rest

  abbrev pub order_by_date : List (DailyOrgSummary F) → List (DailyOrgSummary F)
  order_by_date [] = []
  order_by_date (s ∷ ss) = insert_by_date s (order_by_date ss)

  abbrev pub is_summary_between : ℕ → Text → Text → DailyOrgSummary F → Bool
  is_summary_between org start end s =
      s.organization_id == org && (text_leb start s.date && text_leb s.date end)

  -- `get_daily_summaries`
  unfoldable pub get_daily_summaries :
      ℕ → Text → Text → List (DailyOrgSummary F) → List (DailyOrgSummary F)
  get_daily_summaries org start end rows =
      order_by_date (keep_if (is_summary_between org start end) rows)

  -- `start_date or …`, and the date of today; `month_start` is the first day of the month of a day.
  abbrev pub date_or : Python F → Text → ℕ → Text
  date_or py given day = if is_empty given then py.strftime day else given

  abbrev of_metrics : Option (Metrics F) → Reply (Metrics F)
  of_metrics none = Reply.crashed
  of_metrics (some m) = ok m

  module _ (py : Python F) (month_start : ℕ → ℕ) where
    -- `get_org_metrics`, for what get_current_user gives.
    unfoldable pub get_org_metrics : Access → Text → Text → Moment → Tables F → Reply (Metrics F)
    get_org_metrics user start_date end_date now db =
        let start = date_or py start_date (month_start now.day) in
        let end = date_or py end_date now.day in
        with_tenant user (λ id. of_metrics (compute_org_metrics py id (some start) (some end) db))

    -- `get_daily_summaries_endpoint`
    unfoldable pub get_daily_summaries_endpoint :
        Access → Text → Text → Moment → Tables F → Reply (List (DailySummaryOut F))
    get_daily_summaries_endpoint user start_date end_date now db =
        let start = date_or py start_date (month_start now.day) in
        let end = date_or py end_date now.day in
        with_tenant user
          (λ id. ok (map summary_out (get_daily_summaries id start end db.daily_org_summaries)))
