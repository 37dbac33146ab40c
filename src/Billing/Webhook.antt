-- ===== src/Billing/Webhook.antt =====
-- The Stripe webhook: app/api/billing.py.
use leadpulse.Prelude.{ℕ, Bool, not, Option, none, some, if◌then◌else◌}
use leadpulse.Prelude.Text.{Text, text, text_eq, is_empty}
use leadpulse.Billing.{
  Organization, Table, Lookup, missing, several, one, get_organization_by_id,
  get_organization_by_provider_customer_id, mark_org_paid, mark_org_past_due, suspend_org, update,
}

-- What the code reads of a verified event.
pub record Event : Type 0 where
  pub type : Text
  pub client_reference_id : Option Text
  pub customer : Option Text

pub record StripeSettings : Type 0 where
  pub enabled : Bool
  pub webhook_secret : Text

-- A request, with what stripe.Webhook.construct_event makes of its body and signature: an event,
-- or none if it raises.
pub record Delivery : Type 0 where
  pub payload : Text
  pub signature : Option Text
  pub verified : Option Event

pub data Response : Type 0 where
  http_error : ℕ → Response
  unknown_org unhandled_type : Response
  handled : Text → Response

-- The customer's organization, for a customer that is not "".
unfoldable pub by_customer : Option Text → Table → Lookup
by_customer none db = missing
by_customer (some c) db =
    if is_empty c then missing else get_organization_by_provider_customer_id c db

abbrev pub else_customer : Lookup → Lookup → Lookup
else_customer (one o) l = one o
else_customer missing l = l
else_customer several l = several

-- The action of an event type on an organization.
unfoldable pub action_of : ℕ → Event → Option (Organization → Organization)
unfolding text_eq
action_of now e =
    if text_eq e.type (text "checkout.session.completed")
    then some (mark_org_paid now e.customer)
    else if text_eq e.type (text "invoice.payment_failed")
    then some mark_org_past_due
    else if text_eq e.type (text "customer.subscription.deleted")
    then some suspend_org
    else none

abbrev pub act :
    Event → Organization → Option (Organization → Organization) → Table → Response × Table
act e o none db = (unhandled_type, db)
act e o (some f) db = (handled e.type, update o.id f db)

module _ (parse_uuid : Text → Option ℕ) where
  -- The organization of a client reference that is a UUID.
  unfoldable pub by_reference : Option Text → Table → Lookup
  by_reference none db = missing
  by_reference (some ref) db =
      if is_empty ref
      then missing
      else elim (parse_uuid ref) [ none ↦ missing | some id ↦ get_organization_by_id id db ]

  unfoldable pub resolve_org : Event → Table → Lookup
  resolve_org e db =
      else_customer (by_reference e.client_reference_id db) (by_customer e.customer db)

  abbrev pub on_event : ℕ → Event → Lookup → Table → Response × Table
  on_event now e missing db = (unknown_org, db)
  on_event now e several db = (http_error 500, db)
  on_event now e (one o) db = act e o (action_of now e) db

  unfoldable pub verified_webhook : ℕ → Option Event → Table → Response × Table
  verified_webhook now none db = (http_error 400, db)
  verified_webhook now (some e) db = on_event now e (resolve_org e db) db

  unfoldable pub billing_webhook : StripeSettings → ℕ → Delivery → Table → Response × Table
  billing_webhook st now d db =
      if not st.enabled
      then (http_error 404, db)
      else if is_empty st.webhook_secret
      then (http_error 503, db)
      else if is_empty d.payload
      then (http_error 400, db)
      else elim d.signature [
        | none ↦ (http_error 400, db)
        | some s ↦ if is_empty s then (http_error 400, db) else verified_webhook now d.verified db
      ]
