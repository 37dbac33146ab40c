-- ===== src/Billing/Table.antt =====
-- The table of organizations under `update`: its UNIQUE columns (app/database/models.py), and
-- which rows a change leaves alone.
use leadpulse.Prelude.{ℕ, ◌≤◌, ◌≡◌, ◌≢◌, Bool, refl, ap, [], ◌∷◌, ◌==◌, keep_if, length, arith}
use leadpulse.Prelude.Text.{Text, text_eq}
use leadpulse.Billing.{Organization, Table, text_is, update}

-- The rows of an id, of a slug and of a widget key are at most one.
abbrev pub IsUnique : Table → Type 0
IsUnique db =
    ((id : ℕ) → length (keep_if (λ o. o.id == id) db) ≤ 1)
    × ((slug : Text) → length (keep_if (λ o. text_eq o.slug slug) db) ≤ 1)
    × ((key : Text) → length (keep_if (λ o. text_is o.widget_key key) db) ≤ 1)

-- A change that leaves who the organization is.
pub record KeepsIdentity (f : Organization → Organization) : Type 0 where
  pub id : (o : Organization) → (f o).id ≡ o.id
  pub slug : (o : Organization) → (f o).slug ≡ o.slug
  pub widget_key : (o : Organization) → (f o).widget_key ≡ o.widget_key
  pub is_active : (o : Organization) → (f o).is_active ≡ o.is_active

pub length-keep_if-update :
    (p : Organization → Bool) (f : Organization → Organization) (id : ℕ) (db : Table)
    → ((o : Organization) → p (f o) ≡ p o)
    → length (keep_if p (update id f db)) ≡ length (keep_if p db)
unfolding update
length-keep_if-update p f id [] same = refl
length-keep_if-update p f id (o ∷ os) same =
    ground (arith, length-keep_if-update p f id os same, same o)

pub update-IsUnique :
    (f : Organization → Organization) (id : ℕ) (db : Table)
    → KeepsIdentity f
    → IsUnique db
    → IsUnique (update id f db)
update-IsUnique f id db k (by_id, by_slug, by_key) = (
  λ i.
      rw (length-keep_if-update (λ o. o.id == i) f id db (λ o. ap (λ x. x == i) (k.id o)))
        (by_id i),
  λ s.
      rw
        (length-keep_if-update (λ o. text_eq o.slug s) f id db
          (λ o. ap (λ x. text_eq x s) (k.slug o)))
        (by_slug s),
  λ w.
      rw
        (length-keep_if-update (λ o. text_is o.widget_key w) f id db
          (λ o. ap (λ x. text_is x w) (k.widget_key o)))
        (by_key w),
)

-- The rows of another id stay.
pub keep_if-update-other :
    (f : Organization → Organization) (id other : ℕ) (db : Table)
    → KeepsIdentity f
    → id ≢ other
    → keep_if (λ o. o.id == other) (update id f db) ≡ keep_if (λ o. o.id == other) db
unfolding update
keep_if-update-other f id other [] k ne = refl
keep_if-update-other f id other (o ∷ os) k ne =
    ground (arith, keep_if-update-other f id other os k ne, k.id o)
