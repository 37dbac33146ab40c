-- ===== src/Billing/Widget.antt =====
-- What a Stripe event does to the widget of the organization that it is about: billing_webhook of
-- app/api/billing.py and get_organization_by_widget_key of app/database/crud.py.
use mathlib.Core.List.{Memᴰ}
use leadpulse.Prelude.{
  ℕ, ◌≡◌, inl, inr, Bool, true, false, ◌||◌, refl, ap, ◌∙◌, ◌&&◌, Option, none, some, ◌==◌,
  if◌then◌else◌, Bool-cases, Option-cases, arith,
}
use leadpulse.Prelude.Text.{Text, text, text_eq, is_empty}
use leadpulse.Billing.{
  Organization, Table, Lookup, missing, one, text_is, update, get_organization_by_widget_key,
  is_billing_current, get_organization_by_id, get_organization_by_provider_customer_id,
  mark_org_paid, mark_org_past_due, suspend_org,
}
use leadpulse.Billing.Table.{IsUnique, KeepsIdentity, update-IsUnique}
use leadpulse.Billing.Serving.{
  scalar_one_or_none-keep_if, update-Memᴰ, get_organization_by_widget_key-serves,
}
use leadpulse.Billing.Events.{
  mark_org_paid-KeepsIdentity, mark_org_past_due-KeepsIdentity, suspend_org-KeepsIdentity,
}
use leadpulse.Billing.Webhook.{
  Event, StripeSettings, Delivery, by_customer, by_reference, resolve_org, action_of,
  verified_webhook, billing_webhook, act,
}

-- A delivery that the webhook acts on, with the event it carries.
pub record Accepted (st : StripeSettings) (d : Delivery) (e : Event) : Type 0 where
  pub enabled : st.enabled ≡ true
  pub secret : is_empty st.webhook_secret ≡ false
  pub payload : is_empty d.payload ≡ false
  pub signature : Text
  pub signed : d.signature ≡ some signature
  pub not_empty : is_empty signature ≡ false
  pub verified : d.verified ≡ some e

module _ (parse_uuid : Text → Option ℕ) where
  billing_webhook-verified :
      (st : StripeSettings) (now : ℕ) (d : Delivery) (e : Event) (db : Table)
      → Accepted st d e
      → billing_webhook parse_uuid st now d db ≡ verified_webhook parse_uuid now (some e) db
  unfolding billing_webhook
  billing_webhook-verified st now d e db a =
      ground (arith, a.enabled, a.secret, a.payload, a.signed, a.not_empty, a.verified)

  by_reference-Memᴰ :
      (r : Option Text) (o : Organization) (db : Table)
      → by_reference parse_uuid r db ≡ one o
      → Memᴰ o db
  unfolding by_reference get_organization_by_id
  by_reference-Memᴰ none o db h = cc
  by_reference-Memᴰ (some ref) o db h = elim (Option-cases (parse_uuid ref)) [
    | inl no_id ↦ ground arith
    | inr (id, is_id) ↦ (scalar_one_or_none-keep_if (λ x. x.id == id) o db (ground arith)).0
  ]

  by_customer-Memᴰ :
      (c : Option Text) (o : Organization) (db : Table) → by_customer c db ≡ one o → Memᴰ o db
  unfolding by_customer get_organization_by_provider_customer_id
  by_customer-Memᴰ none o db h = cc
  by_customer-Memᴰ (some c) o db h =
      (scalar_one_or_none-keep_if (λ x. text_is x.customer_id c) o db (ground arith)).0

  pub resolve_org-Memᴰ :
      (e : Event) (o : Organization) (db : Table) → resolve_org parse_uuid e db ≡ one o → Memᴰ o db
  unfolding resolve_org
  resolve_org-Memᴰ e o db h =
      ground (arith, by_reference-Memᴰ e.client_reference_id o db, by_customer-Memᴰ e.customer o db)

  -- The row of the organization after an accepted event that its action changes.
  served_after :
      (st : StripeSettings) (now : ℕ) (d : Delivery) (e : Event) (o : Organization) (db : Table)
      (key : Text) (f : Organization → Organization)
      → IsUnique db
      → Accepted st d e
      → resolve_org parse_uuid e db ≡ one o
      → text_is o.widget_key key ≡ true
      → action_of now e ≡ some f
      → KeepsIdentity f
      → get_organization_by_widget_key key (billing_webhook parse_uuid st now d db).1
        ≡ (if o.is_active && is_billing_current (f o) then one (f o) else missing)
  unfolding verified_webhook
  served_after st now d e o db key f u a r h act k =
      rw (billing_webhook-verified st now d e db a) rw r rw act (
        get_organization_by_widget_key-serves (update o.id f db) (f o) key
          (update-IsUnique f o.id db k u) (update-Memᴰ f o db (resolve_org-Memᴰ e o db r))
          (ap (λ w. text_is w key) (k.widget_key o) ∙ h)
        ∙ ap (λ b. if b && is_billing_current (f o) then one (f o) else missing) (k.is_active o))

  -- The event types that the webhook acts on.
  abbrev pub is_acted_on : Text → Bool
  is_acted_on t =
      text_eq t (text "checkout.session.completed")
      || text_eq t (text "invoice.payment_failed")
      || text_eq t (text "customer.subscription.deleted")

  -- In a table of unique columns, after an accepted event of one of the three types about an
  -- organization, the organization's widget key finds its paid row if the event is a completed
  -- checkout and the organization is active, and finds nothing otherwise: a failed payment stops
  -- the widget as a deleted subscription does.
  pub billing_webhook-widget :
      (st : StripeSettings) (now : ℕ) (d : Delivery) (e : Event) (o : Organization) (db : Table)
      (key : Text)
      → IsUnique db
      → Accepted st d e
      → resolve_org parse_uuid e db ≡ one o
      → text_is o.widget_key key ≡ true
      → is_acted_on e.type ≡ true
      → get_organization_by_widget_key key (billing_webhook parse_uuid st now d db).1 ≡ (
          if o.is_active && text_eq e.type (text "checkout.session.completed")
          then one (mark_org_paid now e.customer o)
          else missing)
  unfolding action_of is_billing_current mark_org_paid mark_org_past_due suspend_org
  billing_webhook-widget st now d e o db key u a r h acted =
      elim (Bool-cases (text_eq e.type (text "checkout.session.completed"))) [
        | inl paid ↦
            served_after st now d e o db key (mark_org_paid now e.customer) u a r h (rw paid refl)
              (mark_org_paid-KeepsIdentity now e.customer)
            ∙ rw paid refl
        | inr not_paid ↦ elim (Bool-cases (text_eq e.type (text "invoice.payment_failed"))) [
          | inl failed ↦
              served_after st now d e o db key mark_org_past_due u a r h
                (rw not_paid rw failed refl) mark_org_past_due-KeepsIdentity
              ∙ (rw not_paid (nothing o.is_active _ _))
          | inr not_failed ↦
              served_after st now d e o db key suspend_org u a r h
                (rw not_paid rw not_failed rw (deleted not_paid not_failed acted) refl)
                suspend_org-KeepsIdentity
              ∙ (rw not_paid (nothing o.is_active _ _))
        ]
      ]
    where
      nothing :
          (b : Bool) (x y : Lookup)
          → (if b && false then x else missing) ≡ (if b && false then y else missing)
      nothing true x y = refl
      nothing false x y = refl

      deleted :
          text_eq e.type (text "checkout.session.completed") ≡ false
          → text_eq e.type (text "invoice.payment_failed") ≡ false
          → is_acted_on e.type ≡ true
          → text_eq e.type (text "customer.subscription.deleted") ≡ true
      deleted p q h = ground arith
