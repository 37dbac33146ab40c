-- ===== src/Billing/Serving.antt =====
-- Which organization a widget key serves: get_organization_by_widget_key of app/database/crud.py.
use mathlib.Core.List.{Memᴰ}
use mathlib.Core.List.Memᴰ.{head, tail}
use leadpulse.Prelude.{
  ◌≤◌, ◌≡◌, inl, inr, Bool, true, refl, ap, sym, ◌∙◌, ◌&&◌, List, [], ◌∷◌, ◌==◌, if◌then◌else◌,
  keep_if, length, Bool-cases, arith,
}
use leadpulse.Prelude.Text.{Text}
use leadpulse.Billing.{
  Organization, Table, missing, one, scalar_one_or_none, text_is, update,
  get_organization_by_widget_key, is_billing_current,
}
use leadpulse.Billing.Table.{IsUnique}

length-zero : (xs : Table) → length xs ≤ 0 → xs ≡ []
length-zero [] h = refl
length-zero (x ∷ xs) h = absurd (omega arith)

-- A row that is the only one of a test.
keep_if-alone :
    (p : Organization → Bool) (o : Organization) (db : Table)
    → Memᴰ o db
    → p o ≡ true
    → length (keep_if p db) ≤ 1
    → keep_if p db ≡ o ∷ []
keep_if-alone p o [] m h le = elim m [ ]
keep_if-alone p o (x ∷ xs) (head e) h le =
    let none_left = length-zero (keep_if p xs) in ground arith
keep_if-alone p o (x ∷ xs) (tail m) h le = ground (arith, keep_if-alone p o xs m h)

keep_if-&& :
    (p q : Organization → Bool) (db : Table)
    → keep_if (λ o. p o && q o) db ≡ keep_if q (keep_if p db)
keep_if-&& p q [] = refl
keep_if-&& p q (o ∷ os) = ground (arith, keep_if-&& p q os)

scalar_one_or_none-one :
    (xs : List Organization) (o : Organization) → scalar_one_or_none xs ≡ one o → xs ≡ o ∷ []
unfolding scalar_one_or_none
scalar_one_or_none-one [] o h = cc
scalar_one_or_none-one (x ∷ []) o h = cc
scalar_one_or_none-one (x ∷ y ∷ ys) o h = cc

keep_if-one :
    (p : Organization → Bool) (o : Organization) (db : Table)
    → keep_if p db ≡ o ∷ []
    → Memᴰ o db × (p o ≡ true)
keep_if-one p o [] h = cc
keep_if-one p o (x ∷ xs) h = elim (Bool-cases (p x)) [
  | inl e ↦ let same : x ≡ o = ground arith in (head (sym same), ap p (sym same) ∙ e)
  | inr e ↦ let later = keep_if-one p o xs (ground arith) in (tail later.0, later.1)
]

-- A lookup that finds one row finds a row of the table that passes its test.
pub scalar_one_or_none-keep_if :
    (p : Organization → Bool) (o : Organization) (db : Table)
    → scalar_one_or_none (keep_if p db) ≡ one o
    → Memᴰ o db × (p o ≡ true)
scalar_one_or_none-keep_if p o db h = keep_if-one p o db (scalar_one_or_none-one (keep_if p db) o h)

update-head :
    (f : Organization → Organization) (o x : Organization)
    → o ≡ x
    → f o ≡ (if x.id == o.id then f x else x)
update-head f o x e = ground (arith, ap f e, ap (λ r. r.id) e)

pub update-Memᴰ :
    (f : Organization → Organization) (o : Organization) (db : Table)
    → Memᴰ o db
    → Memᴰ (f o) (update o.id f db)
unfolding update
update-Memᴰ f o [] m = elim m [ ]
update-Memᴰ f o (x ∷ xs) (head e) = head (update-head f o x e)
update-Memᴰ f o (x ∷ xs) (tail m) = tail (update-Memᴰ f o xs m)

-- In a table of unique widget keys, the key of a row serves that row if it is active and its
-- subscription current, and else nothing.
pub get_organization_by_widget_key-serves :
    (db : Table) (o : Organization) (key : Text)
    → IsUnique db
    → Memᴰ o db
    → text_is o.widget_key key ≡ true
    → get_organization_by_widget_key key db
      ≡ (if o.is_active && is_billing_current o then one o else missing)
unfolding get_organization_by_widget_key scalar_one_or_none
get_organization_by_widget_key-serves db o key u m h =
    let alone = keep_if-alone (λ x. text_is x.widget_key key) o db m h (u.2 key) in
    rw (keep_if-&& (λ x. text_is x.widget_key key) (λ x. x.is_active) db) rw alone (ground arith)
