-- ===== src/Analytics/Counts.antt =====
-- The daily summaries against a count of the conversations: run_daily_rollup of
-- app/services/analytics.py.
use leadpulse.Prelude.{
  ℕ, ◌+◌, ◌-◌, Bool, ◌&&◌, List, [], ◌∷◌, ◌≡◌, refl, ap, sym, ◌∙◌, keep_if, length, arith, some,
}
use leadpulse.Prelude.Text.{text}
use leadpulse.Prelude.Lists.{All, All-imp}
use leadpulse.Analytics.{Python, Moment, LeadConversation, Tables, DailyOrgSummary}
use leadpulse.Analytics.Computed.{metrics_of, has_status}
use leadpulse.Analytics.Periods.{IsDate, IsTimed, on_day, metrics_on, keep_if-keep_if}
use leadpulse.Analytics.Rollup.{
  is_summary_of, set_fields, run_daily_rollup, get_active_orgs, yesterday,
}
use leadpulse.Analytics.Daily.{Untouched, IsSingle}
use leadpulse.Analytics.Runs.{rollup_orgs-Ran, rollup_orgs-again}

module _ {ℓ} {F : Type ℓ} where
  -- How many conversations of a tenant that began on a day have a property.
  abbrev pub count : ℕ → ℕ → (LeadConversation F → Bool) → List (LeadConversation F) → ℕ
  count org d p cs = length (keep_if (λ c. on_day org d c && p c) cs)

  -- A summary shows the counts of the conversations of its organization on a day.
  abbrev pub IsCount : ℕ → List (LeadConversation F) → ℕ → DailyOrgSummary F → Type 0
  IsCount d cs org s =
      (s.total_conversations ≡ length (keep_if (on_day org d) cs))
      × (s.hot_leads ≡ count org d (has_status (text "hot")) cs)
      × (s.warm_leads ≡ count org d (has_status (text "warm")) cs)
      × (s.cold_leads ≡ count org d (has_status (text "cold")) cs)
      × (s.qualified_leads ≡ s.hot_leads + s.warm_leads)
      × (s.meetings_booked ≡ count org d (λ c. c.booking_confirmed) cs)
      × (s.human_escalations ≡ count org d (λ c. c.human_escalated) cs)

  -- The one summary of the organization on the day.
  abbrev pub HasCount :
      Python F → ℕ → List (LeadConversation F) → List (DailyOrgSummary F) → ℕ → Type ℓ
  HasCount py d cs rows org =
      (s : DailyOrgSummary F) × (keep_if (is_summary_of org (py.strftime d)) rows ≡ s ∷ [])
      × IsCount d cs org s

  count_both :
      (org d : ℕ) (p : LeadConversation F → Bool) (cs : List (LeadConversation F))
      → length (keep_if p (keep_if (on_day org d) cs)) ≡ count org d p cs
  count_both org d p cs = ap length (keep_if-keep_if (on_day org d) p cs)

  set_fields-IsCount :
      (py : Python F) (d : ℕ) (db : Tables F) (org : ℕ) (s : DailyOrgSummary F)
      → set_fields (metrics_on py d db org) s ≡ s
      → IsCount d db.conversations org s
  unfolding metrics_of
  set_fields-IsCount py d db org s e =
      let same = sym e in
      let by = λ (p : LeadConversation F → Bool). count_both org d p db.conversations in
      (
        ap (λ x. x.total_conversations) same,
        ap (λ x. x.hot_leads) same ∙ by (has_status (text "hot")),
        ap (λ x. x.warm_leads) same ∙ by (has_status (text "warm")),
        ap (λ x. x.cold_leads) same ∙ by (has_status (text "cold")),
        rw⁻¹ e refl,
        ap (λ x. x.meetings_booked) same ∙ by (λ c. c.booking_confirmed),
        ap (λ x. x.human_escalations) same ∙ by (λ c. c.human_escalated),
      )

  module _ (py : Python F) (now : Moment) (db : Tables F) (iso : IsDate py (now.day - 1))
      (timed : All (λ c. IsTimed c.created_at) db.conversations)
      (single : (org : ℕ) → IsSingle py (yesterday py now) db.daily_org_summaries org) where
    -- After a run of the rollup each active organization has one summary of yesterday, whose counts are
    -- those of the conversations of the organization that began on that day, from its first microsecond
    -- to its last; the run returns the number of active organizations, and no summary of another date
    -- or of an organization that is not active changes, goes or is added. It is so when the interpreter reads back the text of yesterday's
    -- date, times of day are below 24 hours, and no organization has two summaries of yesterday before.
    pub run_daily_rollup-HasCount :
        (rows' : List (DailyOrgSummary F)) × (run_daily_rollup py now db ≡ (
          record db { daily_org_summaries = rows' },
          some (length (get_active_orgs db.organizations)),
        ))
        × All (HasCount py (now.day - 1) db.conversations rows') (get_active_orgs db.organizations)
        × Untouched py
            (yesterday py now)
            (get_active_orgs db.organizations)
            db.daily_org_summaries
            rows'
    unfolding run_daily_rollup
    run_daily_rollup-HasCount =
        let (rows', ran, shown, stays, rest) =
          rollup_orgs-Ran py (now.day - 1) db iso timed (get_active_orgs db.organizations) 0
            db.daily_org_summaries single in
        (
          rows',
          ran ∙ ap (λ k. (record db { daily_org_summaries = rows' }, some k)) (omega arith),
          All-imp
              (λ org (s, one, same). (s, one, set_fields-IsCount py (now.day - 1) db org s same))
              (get_active_orgs db.organizations) shown,
          rest,
        )

    -- A second run on the same day, with the same conversations, changes nothing: the tables and the number returned
    -- are those of the first, under the same conditions.
    pub run_daily_rollup-twice :
        run_daily_rollup py now (run_daily_rollup py now db).0 ≡ run_daily_rollup py now db
    unfolding run_daily_rollup
    run_daily_rollup-twice =
        let orgs = get_active_orgs db.organizations in
        let (rows', ran, shown, stays, rest) =
          rollup_orgs-Ran py (now.day - 1) db iso timed orgs 0 db.daily_org_summaries single in
        rw ran (rollup_orgs-again py (now.day - 1) db iso timed orgs 0 rows' shown)
