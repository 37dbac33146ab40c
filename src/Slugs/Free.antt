-- ===== src/Slugs/Free.antt =====
-- The search of unique_slug ends: app/services/slugs.py.
use mathlib.Core.List.{append_cancel_left}
use leadpulse.Prelude.{
  ℕ, zero, suc, ◌+◌, ◌≤◌, ◌<◌, Bool, true, false, not, ◌≡◌, ◌≢◌, ◌⊎◌, refl, inl, inr, ap, some,
  List, [], ◌∷◌, length, keep_if, any, All, Bool-cases, length-append, arith,
}
use leadpulse.Prelude.Text.{Text, text_eq}
use leadpulse.Prelude.TextLaws.{text_eq_sound}
use leadpulse.Prelude.Decimal.{str_nat, str_nat-injective}
use leadpulse.Billing.{
  Organization, Table, Lookup, missing, several, one, scalar_one_or_none, get_organization_by_slug,
}
use leadpulse.Billing.Table.{IsUnique}
use leadpulse.Slugs.{numbered, search_slug, unique_slug}

abbrev has_slug : Text → Organization → Bool
has_slug s o = text_eq o.slug s

abbrev lacks_slug : Text → Organization → Bool
lacks_slug s o = not (has_slug s o)

length-lacks : (s : Text) (db : Table) → length (keep_if (lacks_slug s) db) ≤ length db
length-lacks s [] = omega arith
length-lacks s (o ∷ db) = ground (arith, length-lacks s db)

length-without :
    (s : Text) (db : Table)
    → any (has_slug s) db ≡ true
    → length (keep_if (lacks_slug s) db) < length db
length-without s [] h = cc
length-without s (o ∷ db) h = elim (Bool-cases (has_slug s o)) [
  | inl e ↦ ground (arith, length-lacks s db)
  | inr e ↦ ground (arith, length-without s db)
]

any-without :
    (s t : Text) (db : Table)
    → text_eq s t ≡ false
    → any (has_slug t) db ≡ true
    → any (has_slug t) (keep_if (lacks_slug s) db) ≡ true
any-without s t [] ne h = cc
any-without s t (o ∷ db) ne h = elim (Bool-cases (has_slug s o)) [
  | inl e ↦ ground (arith, text_eq_sound o.slug s, any-without s t db ne)
  | inr e ↦ elim (Bool-cases (has_slug t o)) [
    | inl f ↦ ground arith
    | inr f ↦ ground (arith, any-without s t db ne)
  ]
]

-- Slugs that no two of which are equal, each of them taken.
abbrev AllTaken : Table → List Text → Type 0
AllTaken db = All (λ s. any (has_slug s) db ≡ true)

abbrev Differ : List Text → Type 0
Differ [] = Unit
Differ (s ∷ ss) = All (λ t. text_eq s t ≡ false) ss × Differ ss

AllTaken-without :
    (s : Text) (db : Table) (ss : List Text)
    → All (λ t. text_eq s t ≡ false) ss
    → AllTaken db ss
    → AllTaken (keep_if (lacks_slug s) db) ss
AllTaken-without s db [] ne taken = tt
AllTaken-without s db (t ∷ ss) (n, ne) (h, taken) =
    (any-without s t db n h, AllTaken-without s db ss ne taken)

length-AllTaken : (ss : List Text) (db : Table) → Differ ss → AllTaken db ss → length ss ≤ length db
length-AllTaken [] db d taken = omega arith
length-AllTaken (s ∷ ss) db (ne, d) (h, taken) = omega (
  arith,
  length-AllTaken ss (keep_if (lacks_slug s) db) d (AllTaken-without s db ss ne taken),
  length-without s db h,
)

text_eq_differ : (s t : Text) → s ≢ t → text_eq s t ≡ false
text_eq_differ s t ne = elim (Bool-cases (text_eq s t)) [
  | inl e ↦ ground (arith, ne, text_eq_sound s t)
  | inr e ↦ e
]

Lookup-cases : (l : Lookup) → (l ≡ missing) ⊎ ((l ≡ several) ⊎ ((o : Organization) × (l ≡ one o)))
Lookup-cases missing = inl refl
Lookup-cases several = inr (inl refl)
Lookup-cases (one o) = inr (inr (o, refl))

get_organization_by_slug-one :
    (s : Text) (db : Table) (o : Organization)
    → get_organization_by_slug s db ≡ one o
    → any (has_slug s) db ≡ true
unfolding get_organization_by_slug scalar_one_or_none
get_organization_by_slug-one s [] o h = ground arith
get_organization_by_slug-one s (p ∷ db) o h = ground (arith, get_organization_by_slug-one s db o)

scalar_one_or_none-several :
    (os : List Organization) → length os ≤ 1 → scalar_one_or_none os ≢ several
unfolding scalar_one_or_none
scalar_one_or_none-several [] h e = cc
scalar_one_or_none-several (o ∷ []) h e = cc
scalar_one_or_none-several (o ∷ p ∷ os) h e = omega (arith, h)

get_organization_by_slug-single :
    (db : Table) → IsUnique db → (s : Text) → get_organization_by_slug s db ≢ several
unfolding get_organization_by_slug
get_organization_by_slug-single db (by_id, by_slug, by_key) s =
    scalar_one_or_none-several (keep_if (has_slug s) db) (by_slug s)

module _ (base : Text) where
  -- The candidates of so many rounds.
  abbrev rounds : ℕ → ℕ → Text → List Text
  rounds zero counter candidate = []
  rounds (suc left) counter candidate =
      candidate ∷ rounds left (counter + 1) (numbered base counter)

  length-rounds :
      (left counter : ℕ) (candidate : Text) → length (rounds left counter candidate) ≡ left
  length-rounds zero counter candidate = refl
  length-rounds (suc left) counter candidate =
      omega (arith, length-rounds left (counter + 1) (numbered base counter))

  numbered-later : (k n : ℕ) → k < n → numbered base k ≢ numbered base n
  numbered-later k n h e =
      let same : str_nat k ≡ str_nat n =
        ground (arith, append_cancel_left base (b'-' ∷ str_nat k) (b'-' ∷ str_nat n) e) in
      omega (arith, h, str_nat-injective k n same)

  base-numbered : (n : ℕ) → base ≢ numbered base n
  base-numbered n e = omega (arith, length-append base (b'-' ∷ str_nat n), ap length e)

  rounds-differ :
      (s : Text) (left m n : ℕ)
      → ((i : ℕ) → n ≤ i → s ≢ numbered base i)
      → n < m
      → All (λ t. text_eq s t ≡ false) (rounds left m (numbered base n))
  rounds-differ s zero m n ne h = tt
  rounds-differ s (suc left) m n ne h = (
    text_eq_differ s (numbered base n) (ne n (omega arith)),
    rounds-differ s left (m + 1) m (λ i b. ne i (omega (arith, b, h))) (omega arith),
  )

  rounds-Differ : (left m n : ℕ) → n < m → Differ (rounds left m (numbered base n))
  rounds-Differ zero m n h = tt
  rounds-Differ (suc left) m n h = (
    rounds-differ (numbered base n) left (m + 1) m (λ i b. numbered-later n i (omega (arith, b, h)))
        (omega arith),
    rounds-Differ left (m + 1) m (omega arith),
  )

  rounds-base-Differ : (left : ℕ) → Differ (rounds left 2 base)
  rounds-base-Differ zero = tt
  rounds-base-Differ (suc left) = (
    rounds-differ base left 3 2 (λ i b. base-numbered i) (omega arith),
    rounds-Differ left 3 2 (omega arith),
  )

  search_slug-rounds :
      (db : Table) (left counter : ℕ) (candidate : Text)
      → ((s : Text) → get_organization_by_slug s db ≢ several)
      → ((s : Text) × (search_slug base db left counter candidate ≡ some s)
          × (get_organization_by_slug s db ≡ missing))
        ⊎ AllTaken db (rounds left counter candidate)
  unfolding search_slug
  search_slug-rounds db zero counter candidate single = inr tt
  search_slug-rounds db (suc left) counter candidate single =
      elim (Lookup-cases (get_organization_by_slug candidate db)) [
        | inl free ↦ inl (candidate, ground arith, free)
        | inr (inl twice) ↦ ground (arith, single candidate)
        | inr (inr (o, used)) ↦
            elim (search_slug-rounds db left (counter + 1) (numbered base counter) single) [
              | inl (s, e, free) ↦ inl (s, ground arith, free)
              | inr taken ↦ inr (get_organization_by_slug-one candidate db o used, taken)
            ]
      ]

  -- Where slugs are unique, unique_slug gives a slug, and no organization has it.
  pub unique_slug-free :
      (db : Table)
      → IsUnique db
      → (s : Text) × (unique_slug base db ≡ some s) × (get_organization_by_slug s db ≡ missing)
  unfolding unique_slug
  unique_slug-free db unique =
      elim (search_slug-rounds db (length db + 1) 2 base
        (get_organization_by_slug-single db unique)) [
          | inl free ↦ free
          | inr taken ↦ ground (
            arith,
            length-AllTaken (rounds (length db + 1) 2 base) db (rounds-base-Differ (length db + 1))
                taken,
            length-rounds (length db + 1) 2 base,
          )
        ]
