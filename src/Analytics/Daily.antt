-- ===== src/Analytics/Daily.antt =====
-- upsert_daily_summary of app/database/crud.py: the row that it writes, and the rows that it leaves.
use leadpulse.Prelude.{
  All, ℕ, Bool, true, false, some, List, [], ◌∷◌, ◌++◌, ◌≡◌, refl, ◌⊎◌, inl, inr, keep_if, map,
  arith, Bool-cases, if◌then◌else◌, ap, ◌∙◌, sym,
}
use leadpulse.Prelude.Text.{Text}
use leadpulse.Prelude.TextLaws.{
  text_eq_refl, keep_if-append, keep_if-map, keep_if-cons, map-same, keep_if-added,
}
use leadpulse.Analytics.{Python, Metrics, DailyOrgSummary}
use leadpulse.Analytics.Rollup.{
  is_summary_of, set_fields, set_where, new_summary, upsert_daily_summary,
}

module _ {ℓ} {A : Type ℓ} where
  map_where-same :
      (p : A → Bool) (f : A → A) (xs : List A) (s : A)
      → keep_if p xs ≡ s ∷ []
      → f s ≡ s
      → map (λ x. if p x then f x else x) xs ≡ xs
  map_where-same p f xs s one same = rest xs (rw one (ap (λ y. y ∷ []) same))
    where
      rest :
          (xs : List A)
          → map f (keep_if p xs) ≡ keep_if p xs
          → map (λ x. if p x then f x else x) xs ≡ xs
      rest [] e = refl
      rest (x ∷ xs) e = elim (Bool-cases (p x)) [
        | inl t ↦ ground (arith, rest xs)
        | inr t ↦ ground (arith, rest xs)
      ]

module _ {ℓ} {F : Type ℓ} (py : Python F) (date : Text) where
  abbrev pub Summaries : Type ℓ
  Summaries = List (DailyOrgSummary F)

  -- An organization has one summary of the date, or none.
  abbrev pub IsSingle : Summaries → ℕ → Type ℓ
  IsSingle rows org =
      (keep_if (is_summary_of org date) rows ≡ [])
      ⊎ ((s : DailyOrgSummary F) × (keep_if (is_summary_of org date) rows ≡ s ∷ []))

  -- It has one, and this one shows the metrics.
  abbrev pub Shows : Metrics F → Summaries → ℕ → Type ℓ
  Shows m rows org =
      (s : DailyOrgSummary F) × (keep_if (is_summary_of org date) rows ≡ s ∷ [])
      × (set_fields m s ≡ s)

  -- A query of none of the organizations' summaries of the date finds the rows that it found before.
  abbrev pub Untouched : List ℕ → Summaries → Summaries → Type ℓ
  Untouched orgs rows rows' =
      (q : DailyOrgSummary F → Bool)
      → All (λ org. (s : DailyOrgSummary F) → is_summary_of org date s ≡ true → q s ≡ false) orgs
      → keep_if q rows' ≡ keep_if q rows

  is_summary_of-new :
      (org : ℕ) (m : Metrics F)
      → is_summary_of org date (set_fields m (new_summary py org date)) ≡ true
  is_summary_of-new org m = ground (arith, text_eq_refl date)

  is_summary_of-set_where :
      (org : ℕ) (m : Metrics F) (s : DailyOrgSummary F)
      → is_summary_of org date (set_where org date m s) ≡ is_summary_of org date s
  is_summary_of-set_where org m s = elim (Bool-cases (is_summary_of org date s)) [
    | inl e ↦ ground arith
    | inr e ↦ ground arith
  ]

  -- The call returns, and the organization has one row, which shows the metrics.
  pub upsert_daily_summary-Shows :
      (org : ℕ) (m : Metrics F) (rows : Summaries)
      → IsSingle rows org
      → (rows' : Summaries) × (upsert_daily_summary py org date m rows ≡ some rows')
        × Shows m rows' org
  unfolding upsert_daily_summary
  upsert_daily_summary-Shows org m rows (inl e) = (
    rows ++ set_fields m (new_summary py org date) ∷ [],
    rw e refl,
    (
      set_fields m (new_summary py org date),
      rw
          (
            keep_if-append (is_summary_of org date) rows
                (set_fields m (new_summary py org date) ∷ []),
            e,
            is_summary_of-new org m,
          )
          refl,
      refl,
    ),
  )
  upsert_daily_summary-Shows org m rows (inr (s, e)) = (
    map (set_where org date m) rows,
    rw e refl,
    (
      set_fields m s,
      rw
          (
            keep_if-map (is_summary_of org date) (set_where org date m) rows
                (is_summary_of-set_where org m),
            e,
            keep_if-cons (is_summary_of org date) rows [] s e,
          )
          refl,
      refl,
    ),
  )

  -- A row that shows the metrics already stays as it is.
  pub upsert_daily_summary-again :
      (org : ℕ) (m : Metrics F) (rows : Summaries)
      → Shows m rows org
      → upsert_daily_summary py org date m rows ≡ some rows
  unfolding upsert_daily_summary
  upsert_daily_summary-again org m rows (s, e, same) =
      rw e (ap some (map_where-same (is_summary_of org date) (set_fields m) rows s e same))

  -- A query that finds no row of the organization and the date finds what it found before.
  pub upsert_daily_summary-others :
      (org : ℕ) (m : Metrics F) (rows rows' : Summaries) (q : DailyOrgSummary F → Bool)
      → ((s : DailyOrgSummary F) → is_summary_of org date s ≡ true → q s ≡ false)
      → IsSingle rows org
      → upsert_daily_summary py org date m rows ≡ some rows'
      → keep_if q rows' ≡ keep_if q rows
  unfolding upsert_daily_summary
  upsert_daily_summary-others org m rows rows' q out (inl e) saved =
      let added : rows' ≡ rows ++ set_fields m (new_summary py org date) ∷ [] =
        ground (arith, e, saved) in
      rw added (
        keep_if-added q rows (set_fields m (new_summary py org date))
          (out _ (is_summary_of-new org m)))
  upsert_daily_summary-others org m rows rows' q out (inr (s, e)) saved =
      let is_set : rows' ≡ map (set_where org date m) rows = ground (arith, e, saved) in
      rw (is_set, keep_if-map q (set_where org date m) rows same_q)
        (map-same q (set_where org date m) rows same)
    where
      same_q : (x : DailyOrgSummary F) → q (set_where org date m x) ≡ q x
      same_q x = elim (Bool-cases (is_summary_of org date x)) [
        | inl t ↦ rw t (out (set_fields m x) t ∙ sym (out x t))
        | inr t ↦ rw t refl
      ]

      same : (x : DailyOrgSummary F) → q x ≡ true → set_where org date m x ≡ x
      same x t = elim (Bool-cases (is_summary_of org date x)) [
        | inl i ↦ cc (out x i, t)
        | inr i ↦ rw i refl
      ]
