-- ===== src/Billing.antt =====
-- Subscriptions: app/services/billing.py, the lookups of app/database/crud.py that depend on
-- them, and the commands of scripts/manage_billing.py.
-- The table of organizations is a list of rows. Times are seconds, and ids stand for UUIDs.
pub mod Webhook
pub mod Table
pub mod Serving
pub mod Overdue
pub mod Events
pub mod Widget
mod Tests
use leadpulse.Prelude.{
  ℕ, ◌+◌, ◌*◌, Bool, true, false, not, ◌&&◌, Option, none, some, List, [], ◌∷◌, ltb, ◌==◌,
  if◌then◌else◌, keep_if, map,
}
use leadpulse.Prelude.Text.{Text, text_eq, is_empty}

-- The values of `billing_status`; `unset` is None or "".
pub data BillingStatus : Type 0 where
  trialing active past_due suspended canceled unset : BillingStatus

pub record Organization : Type 0 where
  pub id : ℕ
  pub slug : Text
  pub widget_key : Option Text
  pub is_active : Bool
  pub billing_status : BillingStatus
  pub customer_id : Option Text
  pub last_payment_at : Option ℕ
  pub next_payment_due_at : Option ℕ

abbrev pub Table : Type 0
Table = List Organization

-- `status in CURRENT_STATUSES`, where None counts as trialing.
abbrev pub is_current : BillingStatus → Bool
is_current trialing = true
is_current active = true
is_current unset = true
is_current past_due = false
is_current suspended = false
is_current canceled = false

unfoldable pub is_billing_current : Organization → Bool
is_billing_current o = is_current o.billing_status

-- `scalar_one_or_none`: more than one row raises.
pub data Lookup : Type 0 where
  missing several : Lookup
  one : Organization → Lookup

unfoldable pub scalar_one_or_none : List Organization → Lookup
scalar_one_or_none [] = missing
scalar_one_or_none (o ∷ []) = one o
scalar_one_or_none (o ∷ p ∷ os) = several

-- A column of texts against a value; NULL equals nothing.
abbrev pub text_is : Option Text → Text → Bool
text_is none v = false
text_is (some k) v = text_eq k v

unfoldable pub get_organization_by_id : ℕ → Table → Lookup
get_organization_by_id id db = scalar_one_or_none (keep_if (λ o. o.id == id) db)

unfoldable pub get_organization_by_slug : Text → Table → Lookup
get_organization_by_slug slug db = scalar_one_or_none (keep_if (λ o. text_eq o.slug slug) db)

unfoldable pub get_organization_by_provider_customer_id : Text → Table → Lookup
get_organization_by_provider_customer_id c db =
    scalar_one_or_none (keep_if (λ o. text_is o.customer_id c) db)

abbrev pub has_widget_key : Text → Organization → Bool
has_widget_key key o = text_is o.widget_key key && o.is_active

abbrev pub current_only : Lookup → Lookup
current_only missing = missing
current_only several = several
current_only (one o) = if is_billing_current o then one o else missing

unfoldable pub get_organization_by_widget_key : Text → Table → Lookup
get_organization_by_widget_key key db =
    current_only (scalar_one_or_none (keep_if (has_widget_key key) db))

abbrev pub thirty_days : ℕ
thirty_days = 30 * 86_400

-- `if provider_customer_id: …`
abbrev pub new_customer : Option Text → Option Text → Option Text
new_customer none old = old
new_customer (some c) old = if is_empty c then old else some c

unfoldable pub mark_org_paid : ℕ → Option Text → Organization → Organization
mark_org_paid now customer o = record o {
  billing_status = active;
  last_payment_at = some now;
  next_payment_due_at = some (now + thirty_days);
  customer_id = new_customer customer o.customer_id;
}

unfoldable pub mark_org_past_due : Organization → Organization
mark_org_past_due o = record o { billing_status = past_due }

unfoldable pub suspend_org : Organization → Organization
suspend_org o = record o { billing_status = suspended }

unfoldable pub reactivate_org : ℕ → Organization → Organization
reactivate_org now o = record o {
  billing_status = active;
  last_payment_at = some now;
  next_payment_due_at = some (now + thirty_days);
}

-- The row of an object of the session, written back by its id.
unfoldable pub update : ℕ → (Organization → Organization) → Table → Table
update id f [] = []
update id f (o ∷ os) = (if o.id == id then f o else o) ∷ update id f os

abbrev pub due_before : ℕ → Option ℕ → Bool
due_before now none = false
due_before now (some due) = ltb due now

abbrev pub not_suspended : BillingStatus → Bool
not_suspended suspended = false
not_suspended _ = true

abbrev pub is_overdue : ℕ → Organization → Bool
is_overdue now o = due_before now o.next_payment_due_at && not_suspended o.billing_status

unfoldable pub list_overdue_orgs : ℕ → Table → List Organization
list_overdue_orgs now db = keep_if (is_overdue now) db

abbrev pub or_slug : Lookup → Lookup → Lookup
or_slug (one o) by_slug = one o
or_slug missing by_slug = by_slug
or_slug several by_slug = several

-- By the UUID that the reference may be, else by slug.
unfoldable pub get_organization_by_id_or_slug : (Text → Option ℕ) → Text → Table → Lookup
get_organization_by_id_or_slug parse_uuid ref db = elim (parse_uuid ref) [
  | none ↦ get_organization_by_slug ref db
  | some id ↦ or_slug (get_organization_by_id id db) (get_organization_by_slug ref db)
]

-- The arguments of the command line, of which exactly one action is given.
pub data Command : Type 0 where
  list_overdue : Command
  mark_paid : Text → Option Text → Command
  mark_past_due suspend reactivate : Text → Command

pub data CommandResult : Type 0 where
  overdue : List Organization → CommandResult
  no_organization raised : CommandResult
  changed : ℕ → CommandResult

unfoldable pub on_org : Lookup → (Organization → Organization) → Table → CommandResult × Table
on_org missing f db = (no_organization, db)
on_org several f db = (raised, db)
on_org (one o) f db = (changed o.id, update o.id f db)

-- `run_cmd`, at the time `now`.
unfoldable pub run_cmd : (Text → Option ℕ) → ℕ → Command → Table → CommandResult × Table
unfolding on_org
run_cmd parse_uuid now list_overdue db = (overdue (list_overdue_orgs now db), db)
run_cmd parse_uuid now (mark_paid ref customer) db =
    on_org (get_organization_by_id_or_slug parse_uuid ref db) (mark_org_paid now customer) db
run_cmd parse_uuid now (mark_past_due ref) db =
    on_org (get_organization_by_id_or_slug parse_uuid ref db) mark_org_past_due db
run_cmd parse_uuid now (suspend ref) db =
    on_org (get_organization_by_id_or_slug parse_uuid ref db) suspend_org db
run_cmd parse_uuid now (reactivate ref) db =
    on_org (get_organization_by_id_or_slug parse_uuid ref db) (reactivate_org now) db
