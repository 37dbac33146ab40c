-- ===== src/Billing/Events.antt =====
-- What a Stripe event does to the table: billing_webhook of app/api/billing.py.
use leadpulse.Prelude.{
  ℕ, ◌≡◌, ◌≢◌, inl, inr, Bool, true, false, not, refl, Option, none, some, ◌==◌, if◌then◌else◌,
  keep_if, Bool-cases,
}
use leadpulse.Prelude.Text.{Text, text, text_eq, is_empty}
use leadpulse.Billing.{
  Organization, Table, Lookup, missing, several, one, update, mark_org_paid, mark_org_past_due,
  suspend_org, reactivate_org,
}
use leadpulse.Billing.Table.{KeepsIdentity, keep_if-update-other}
use leadpulse.Billing.Webhook.{
  Event, StripeSettings, Delivery, Response, http_error, unknown_org, unhandled_type, handled,
  resolve_org, action_of, verified_webhook, billing_webhook, act, on_event,
}

pub mark_org_paid-KeepsIdentity : (now : ℕ) (c : Option Text) → KeepsIdentity (mark_org_paid now c)
unfolding mark_org_paid
mark_org_paid-KeepsIdentity now c = record {
  id = λ o. refl;
  slug = λ o. refl;
  widget_key = λ o. refl;
  is_active = λ o. refl;
}

pub mark_org_past_due-KeepsIdentity : KeepsIdentity mark_org_past_due
unfolding mark_org_past_due
mark_org_past_due-KeepsIdentity = record {
  id = λ o. refl;
  slug = λ o. refl;
  widget_key = λ o. refl;
  is_active = λ o. refl;
}

pub suspend_org-KeepsIdentity : KeepsIdentity suspend_org
unfolding suspend_org
suspend_org-KeepsIdentity = record {
  id = λ o. refl;
  slug = λ o. refl;
  widget_key = λ o. refl;
  is_active = λ o. refl;
}

pub reactivate_org-KeepsIdentity : (now : ℕ) → KeepsIdentity (reactivate_org now)
unfolding reactivate_org
reactivate_org-KeepsIdentity now = record {
  id = λ o. refl;
  slug = λ o. refl;
  widget_key = λ o. refl;
  is_active = λ o. refl;
}

module _ (parse_uuid : Text → Option ℕ) where
  -- What the webhook can do: leave the table, or change the organization of a verified event.
  data Step (d : Delivery) (db : Table) : Response × Table → Type 0 where
    rejected : (r : Response) → Step d db (r, db)
    acted :
        (e : Event) (o : Organization) (f : Organization → Organization)
        → d.verified ≡ some e
        → resolve_org parse_uuid e db ≡ one o
        → KeepsIdentity f
        → Step d db (handled e.type, update o.id f db)

  Step-act :
      (now : ℕ) (d : Delivery) (e : Event) (o : Organization) (db : Table)
      → d.verified ≡ some e
      → resolve_org parse_uuid e db ≡ one o
      → Step d db (act e o (action_of now e) db)
  unfolding action_of
  Step-act now d e o db v r =
      elim (Bool-cases (text_eq e.type (text "checkout.session.completed"))) [
        | inl paid ↦ rw paid (acted e o _ v r (mark_org_paid-KeepsIdentity now e.customer))
        | inr not_paid ↦ elim (Bool-cases (text_eq e.type (text "invoice.payment_failed"))) [
          | inl failed ↦ rw not_paid rw failed (acted e o _ v r mark_org_past_due-KeepsIdentity)
          | inr not_failed ↦
              elim (Bool-cases (text_eq e.type (text "customer.subscription.deleted"))) [
                | inl deleted ↦
                    rw not_paid rw not_failed rw deleted (acted e o _ v r suspend_org-KeepsIdentity)
                | inr not_deleted ↦
                    rw not_paid rw not_failed rw not_deleted (rejected unhandled_type)
              ]
        ]
      ]

  Step-verified :
      (now : ℕ) (d : Delivery) (e : Event) (db : Table)
      → d.verified ≡ some e
      → (l : Lookup) → resolve_org parse_uuid e db ≡ l
      → Step d db (on_event parse_uuid now e l db)
  Step-verified now d e db v missing r = rejected unknown_org
  Step-verified now d e db v several r = rejected (http_error 500)
  Step-verified now d e db v (one o) r = Step-act now d e o db v r

  Step-if :
      (d : Delivery) (db : Table) (b : Bool) (x y : Response × Table)
      → Step d db x
      → Step d db y
      → Step d db (if b then x else y)
  Step-if d db true x y p q = p
  Step-if d db false x y p q = q

  Step-parsed :
      (now : ℕ) (d : Delivery) (db : Table) (v : Option Event)
      → d.verified ≡ v
      → Step d db (verified_webhook parse_uuid now v db)
  unfolding verified_webhook
  Step-parsed now d db none h = rejected (http_error 400)
  Step-parsed now d db (some e) h = Step-verified now d e db h (resolve_org parse_uuid e db) refl

  Step-signed :
      (now : ℕ) (d : Delivery) (db : Table) (signature : Option Text)
      → Step d db (elim signature [
        | none ↦ (http_error 400, db)
        | some s ↦
            if is_empty s
            then (http_error 400, db)
            else verified_webhook parse_uuid now d.verified db
      ])
  Step-signed now d db none = rejected (http_error 400)
  Step-signed now d db (some s) =
      Step-if d db (is_empty s) _ _ (rejected (http_error 400))
        (Step-parsed now d db d.verified refl)

  billing_webhook-Step :
      (st : StripeSettings) (now : ℕ) (d : Delivery) (db : Table)
      → Step d db (billing_webhook parse_uuid st now d db)
  unfolding billing_webhook
  billing_webhook-Step st now d db = Step-if d db (not st.enabled) _ _ (rejected (http_error 404)) (
      Step-if d db (is_empty st.webhook_secret) _ _ (rejected (http_error 503)) (
        Step-if d db (is_empty d.payload) _ _ (rejected (http_error 400))
          (Step-signed now d db d.signature)))

  -- A delivery that stripe.Webhook.construct_event does not verify leaves every row as it is.
  pub billing_webhook-unverified :
      (st : StripeSettings) (now : ℕ) (d : Delivery) (db : Table)
      → d.verified ≡ none
      → (billing_webhook parse_uuid st now d db).1 ≡ db
  billing_webhook-unverified st now d db h =
      unchanged (billing_webhook parse_uuid st now d db) (billing_webhook-Step st now d db)
    where
      unchanged : (out : Response × Table) → Step d db out → out.1 ≡ db
      unchanged _ (rejected r) = refl
      unchanged _ (acted e o f v r k) = cc

  -- A delivery leaves the rows of every id but that of the organization that its event resolves
  -- to.
  pub billing_webhook-others :
      (st : StripeSettings) (now : ℕ) (d : Delivery) (db : Table) (other : ℕ)
      → ((e : Event) (o : Organization)
          → d.verified ≡ some e
          → resolve_org parse_uuid e db ≡ one o
          → o.id ≢ other)
      → keep_if (λ o. o.id == other) (billing_webhook parse_uuid st now d db).1
        ≡ keep_if (λ o. o.id == other) db
  billing_webhook-others st now d db other h =
      kept (billing_webhook parse_uuid st now d db) (billing_webhook-Step st now d db)
    where
      kept :
          (out : Response × Table)
          → Step d db out
          → keep_if (λ o. o.id == other) out.1 ≡ keep_if (λ o. o.id == other) db
      kept _ (rejected r) = refl
      kept _ (acted e o f v r k) = keep_if-update-other f o.id other db k (h e o v r)
