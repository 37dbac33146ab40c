-- ===== src/Analytics/Runs.antt =====
-- What a run of run_daily_rollup of app/services/analytics.py leaves in daily_org_summaries.
use leadpulse.Prelude.{
  ℕ, suc, ◌+◌, true, false, some, List, [], ◌∷◌, ◌≡◌, refl, inl, inr, ap, ◌∙◌, ◌==◌, All, length,
  arith, Bool-cases,
}
use leadpulse.Prelude.Text.{Text}
use leadpulse.Analytics.{Python, Metrics, Tables, DailyOrgSummary}
use leadpulse.Analytics.Periods.{IsDate, IsTimed, metrics_on, compute_org_metrics-day}
use leadpulse.Analytics.Rollup.{is_summary_of, upsert_daily_summary, rollup_org, rollup_orgs}
use leadpulse.Analytics.Daily.{
  Summaries, Untouched, IsSingle, Shows, upsert_daily_summary-Shows, upsert_daily_summary-again,
  upsert_daily_summary-others,
}

module _ {ℓ} {F : Type ℓ} (py : Python F) (d : ℕ) (db : Tables F) (iso : IsDate py d)
    (timed : All (λ c. IsTimed c.created_at) db.conversations) where
  abbrev date : Text
  date = py.strftime d

  abbrev holding : Summaries py date → Tables F
  holding rows = record db { daily_org_summaries = rows }

  abbrev ShowsDay : Summaries py date → ℕ → Type ℓ
  ShowsDay rows org = Shows py date (metrics_on py d db org) rows org

  apart :
      (org other : ℕ) (e : (org == other) ≡ false) (s : DailyOrgSummary F)
      → is_summary_of org date s ≡ true
      → is_summary_of other date s ≡ false
  apart org other e s h = ground arith

  rollup_org-upserted :
      (org : ℕ) (rows rows' : Summaries py date)
      → upsert_daily_summary py org date (metrics_on py d db org) rows ≡ some rows'
      → rollup_org py date org (holding rows) ≡ some (holding rows')
  unfolding rollup_org
  rollup_org-upserted org rows rows' e =
      let m = compute_org_metrics-day py org d (holding rows) iso timed in ground (arith, m, e)

  IsSingle-upserted :
      (org : ℕ) (m : Metrics F) (rows rows' : Summaries py date)
      → IsSingle py date rows org
      → upsert_daily_summary py org date m rows ≡ some rows'
      → Shows py date m rows' org
      → (other : ℕ) → IsSingle py date rows other
      → IsSingle py date rows' other
  IsSingle-upserted org m rows rows' single e (s, found, same) other h =
      elim (Bool-cases (org == other)) [
        | inl i ↦ let eq : org ≡ other = ground arith in inr (s, rw⁻¹ eq found)
        | inr i ↦
            let kept =
              upsert_daily_summary-others py date org m rows rows' (is_summary_of other date)
                (apart org other i) single e in
            rw kept h
      ]

  Shows-upserted :
      (org : ℕ) (rows rows' : Summaries py date)
      → IsSingle py date rows org
      → upsert_daily_summary py org date (metrics_on py d db org) rows ≡ some rows'
      → ShowsDay rows' org
      → (other : ℕ) → ShowsDay rows other
      → ShowsDay rows' other
  Shows-upserted org rows rows' single e shown other h = elim (Bool-cases (org == other)) [
    | inl i ↦ let eq : org ≡ other = ground arith in rw⁻¹ eq shown
    | inr i ↦
        let kept =
          upsert_daily_summary-others py date org (metrics_on py d db org) rows rows'
            (is_summary_of other date) (apart org other i) single e in
        rw kept h
  ]

  -- The loop ends, each of its organizations shows its day, and what showed its day still does.
  abbrev Ran : List ℕ → ℕ → Summaries py date → Type ℓ
  Ran orgs n rows =
      (rows' : Summaries py date) × (rollup_orgs py date orgs n (holding rows)
        ≡ (holding rows', some (n + length orgs)))
      × All (ShowsDay rows') orgs
      × ((org : ℕ) → ShowsDay rows org → ShowsDay rows' org)
      × Untouched py date orgs rows rows'

  rollup_orgs-next :
      (org : ℕ) (orgs : List ℕ) (n : ℕ) (rows rows' : Summaries py date)
      → rollup_org py date org (holding rows) ≡ some (holding rows')
      → rollup_orgs py date (org ∷ orgs) n (holding rows)
        ≡ rollup_orgs py date orgs (n + 1) (holding rows')
  unfolding rollup_orgs
  rollup_orgs-next org orgs n rows rows' e = ground (arith, e)

  pub rollup_orgs-Ran :
      (orgs : List ℕ) (n : ℕ) (rows : Summaries py date)
      → ((org : ℕ) → IsSingle py date rows org)
      → Ran orgs n rows
  unfolding rollup_orgs
  rollup_orgs-Ran [] n rows single = (rows, ground arith, tt, λ org h. h, λ q out. refl)
  rollup_orgs-Ran (org ∷ orgs) n rows single =
      let (rows', e, shown) =
        upsert_daily_summary-Shows py date org (metrics_on py d db org) rows (single org) in
      let (end, ran, all, stays, rest) = rollup_orgs-Ran orgs (n + 1) rows' (λ o.
        IsSingle-upserted org (metrics_on py d db org) rows rows' (single org) e shown o
          (single o)) in
      let counted : n + 1 + length orgs ≡ n + suc (length orgs) = omega arith in
      (
        end,
        rollup_orgs-next org orgs n rows rows' (rollup_org-upserted org rows rows' e)
            ∙ ran
            ∙ ap (λ k. (holding end, some k)) counted,
        (stays org shown, all),
        λ o h. stays o (Shows-upserted org rows rows' (single org) e shown o h),
        λ q (out, outs).
            rest q outs
            ∙ upsert_daily_summary-others py date org (metrics_on py d db org) rows rows' q out
                (single org) e,
      )

  pub rollup_orgs-again :
      (orgs : List ℕ) (n : ℕ) (rows : Summaries py date)
      → All (ShowsDay rows) orgs
      → rollup_orgs py date orgs n (holding rows) ≡ (holding rows, some (n + length orgs))
  unfolding rollup_orgs
  rollup_orgs-again [] n rows h = ground arith
  rollup_orgs-again (org ∷ orgs) n rows (h, hs) =
      let counted : n + 1 + length orgs ≡ n + suc (length orgs) = omega arith in
      rollup_orgs-next org orgs n rows rows (
        rollup_org-upserted org rows rows
          (upsert_daily_summary-again py date org (metrics_on py d db org) rows h))
      ∙ rollup_orgs-again orgs (n + 1) rows hs
      ∙ ap (λ k. (holding rows, some k)) counted
