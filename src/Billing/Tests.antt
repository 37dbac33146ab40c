-- ===== src/Billing/Tests.antt =====
-- Webhook deliveries and commands on a small table of organizations.
use mathlib.Core.Logic.{inl, inr}
use mathlib.Core.List.Memᴰ.{cases_cons, not-nil}
use leadpulse.Prelude.{
  ℕ, Bool, true, false, ◌≡◌, ◌≢◌, ◌≤◌, ◌&&◌, if◌then◌else◌, ◌==◌, refl, ap, Option, none, some, [],
  ◌∷◌, arith, length, keep_if,
}
use leadpulse.Prelude.Text.{Text, text, text_eq}
use leadpulse.Billing.{
  Organization, Table, one, missing, trialing, mark_org_paid, get_organization_by_widget_key,
  get_organization_by_provider_customer_id, scalar_one_or_none,
}
use leadpulse.Billing.Table.{IsUnique}
use leadpulse.Billing.Webhook.{
  Event, StripeSettings, Delivery, billing_webhook, resolve_org, by_reference, by_customer,
}
use leadpulse.Billing.Events.{billing_webhook-others}
use leadpulse.Billing.Widget.{Accepted, resolve_org-Memᴰ, billing_webhook-widget}

abbrev acme : Organization
acme = record {
  id = 1;
  slug = text "acme";
  widget_key = some (text "wk");
  is_active = true;
  billing_status = trialing;
  customer_id = some (text "cus_1");
  last_payment_at = none;
  next_payment_due_at = some 10;
}

abbrev table : Table
table = acme ∷ []

length-if : (b : Bool) → length (if b then acme ∷ [] else []) ≤ 1
length-if true = omega arith
length-if false = omega arith

table-IsUnique : IsUnique table
table-IsUnique = (
  λ id. length-if (1 == id),
  λ s. length-if (text_eq (text "acme") s),
  λ k. length-if (text_eq (text "wk") k),
)

abbrev stripe_settings : StripeSettings
stripe_settings = record { enabled = true; webhook_secret = text "whsec" }

abbrev failure : Event
failure = record {
  type = text "invoice.payment_failed";
  client_reference_id = none;
  customer = some (text "cus_1");
}

abbrev delivery : Delivery
delivery = record { payload = text "{}"; signature = some (text "t=1"); verified = some failure }

abbrev forged : Delivery
forged = record delivery { verified = none }

abbrev parse_uuid : Text → Option ℕ
parse_uuid t = none

delivery-Accepted : Accepted stripe_settings delivery failure
delivery-Accepted = record {
  enabled = refl;
  secret = refl;
  payload = refl;
  signature = text "t=1";
  signed = refl;
  not_empty = refl;
  verified = refl;
}

billing_webhook-widget_example :
    get_organization_by_widget_key
      (text "wk")
      (billing_webhook parse_uuid stripe_settings 100 delivery table).1
    ≡ (if acme.is_active && text_eq failure.type (text "checkout.session.completed")
        then one (mark_org_paid 100 failure.customer acme)
        else missing)
unfolding resolve_org by_reference by_customer get_organization_by_provider_customer_id
    scalar_one_or_none text_eq
billing_webhook-widget_example =
    billing_webhook-widget parse_uuid stripe_settings 100 delivery failure acme table (text "wk")
      table-IsUnique delivery-Accepted refl refl refl

not_other :
    (e : Event) (o : Organization)
    → delivery.verified ≡ some e
    → resolve_org parse_uuid e table ≡ one o
    → o.id ≢ 2
not_other e o v r = elim (cases_cons (resolve_org-Memᴰ parse_uuid e o table r)) [
  | inl same ↦ λ k. omega (arith, ap (λ x. x.id) same, k)
  | inr m ↦ absurd (not-nil m)
]

billing_webhook-others_example :
    keep_if (λ o. o.id == 2) (billing_webhook parse_uuid stripe_settings 100 delivery table).1
    ≡ keep_if (λ o. o.id == 2) table
billing_webhook-others_example =
    billing_webhook-others parse_uuid stripe_settings 100 delivery table 2 not_other
