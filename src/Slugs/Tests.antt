-- ===== src/Slugs/Tests.antt =====
-- Slugs of names, and the search for a free one.
use leadpulse.Prelude.{
  Bool, true, false, ◌≡◌, ◌≤◌, refl, none, some, [], ◌∷◌, if◌then◌else◌, length, ◌==◌, arith,
}
use leadpulse.Prelude.Text.{Text, text, text_eq, lower}
use leadpulse.Prelude.Decimal.{str_nat, to_digits}
use leadpulse.Billing.{
  Organization, Table, trialing, missing, get_organization_by_slug, scalar_one_or_none,
}
use leadpulse.Billing.Table.{IsUnique}
use leadpulse.Slugs.{slugify, dash_runs, strip_dashes, strip_dashes_left, unique_slug, search_slug}
use leadpulse.Slugs.Free.{unique_slug-free}

slugify-name : slugify (text " Acme & Sons, 2nd!") ≡ text "acme-sons-2nd"
unfolding slugify dash_runs strip_dashes strip_dashes_left lower
slugify-name = refl

slugify-symbols : slugify (text "***") ≡ text "client"
unfolding slugify dash_runs strip_dashes strip_dashes_left lower
slugify-symbols = refl

abbrev acme : Organization
acme = record {
  id = 1;
  slug = text "acme";
  widget_key = none;
  is_active = true;
  billing_status = trialing;
  customer_id = none;
  last_payment_at = none;
  next_payment_due_at = none;
}

abbrev table : Table
table = acme ∷ []

unique_slug-second : unique_slug (text "acme") table ≡ some (text "acme-2")
unfolding unique_slug search_slug get_organization_by_slug scalar_one_or_none text_eq str_nat
    to_digits
unique_slug-second = refl

length-one : (b : Bool) → length (if b then acme ∷ [] else []) ≤ 1
length-one true = omega arith
length-one false = omega arith

table-IsUnique : IsUnique table
table-IsUnique =
    (λ i. length-one (1 == i), λ s. length-one (text_eq (text "acme") s), λ k. omega arith)

unique_slug-free_example :
    (s : Text) × (unique_slug (text "acme") table ≡ some s)
    × (get_organization_by_slug s table ≡ missing)
unique_slug-free_example = unique_slug-free (text "acme") table table-IsUnique
