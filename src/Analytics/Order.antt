-- ===== src/Analytics/Order.antt =====
-- What compute_org_metrics of app/services/analytics.py does not depend on: the rows of other
-- tenants.
use leadpulse.Prelude.{ℕ, Bool, true, false, ◌&&◌, Option, List, ◌≡◌, refl, ap, sym, ◌∙◌, keep_if}
use leadpulse.Prelude.Text.{Text}
use leadpulse.Analytics.{
  Python, LeadConversation, UsageLog, Tables, Boundary, from, until, is_id, parse_date_boundary,
}
use leadpulse.Analytics.Computed.{compute_org_metrics, metrics_between}
use leadpulse.Analytics.Periods.{keep_if-keep_if}

module _ {ℓ} {A : Type ℓ} where
  narrowed :
      (p q : A → Bool) (xs ys : List A)
      → keep_if p xs ≡ keep_if p ys
      → keep_if (λ x. p x && q x) xs ≡ keep_if (λ x. p x && q x) ys
  narrowed p q xs ys e = sym (keep_if-keep_if p q xs) ∙ ap (keep_if q) e ∙ keep_if-keep_if p q ys

module _ {ℓ} {F : Type ℓ} (py : Python F) (tenant : ℕ) where
  abbrev pub is_own : LeadConversation F → Bool
  is_own c = is_id c.tenant_id tenant

  abbrev pub is_own_usage : UsageLog F → Bool
  is_own_usage u = is_id u.organization_id tenant

  metrics_between-own :
      (start end : Boundary) (db db' : Tables F)
      → keep_if is_own db.conversations ≡ keep_if is_own db'.conversations
      → keep_if is_own_usage db.usage_logs ≡ keep_if is_own_usage db'.usage_logs
      → metrics_between py tenant start end db ≡ metrics_between py tenant start end db'
  metrics_between-own start end db db' c u =
      rw
        (
          narrowed is_own (λ l. from start l.created_at && until end l.created_at) db.conversations
              db'.conversations c,
          narrowed is_own_usage (λ l. from start l.created_at && until end l.created_at)
              db.usage_logs db'.usage_logs u,
        )
        refl

  -- The metrics of a tenant are the same in any two databases that agree on the conversations and
  -- the usage of that tenant, whatever the rows of the others are and wherever they stand.
  pub compute_org_metrics-own :
      (start end : Option Text) (db db' : Tables F)
      → keep_if is_own db.conversations ≡ keep_if is_own db'.conversations
      → keep_if is_own_usage db.usage_logs ≡ keep_if is_own_usage db'.usage_logs
      → compute_org_metrics py tenant start end db ≡ compute_org_metrics py tenant start end db'
  unfolding compute_org_metrics
  compute_org_metrics-own start end db db' c u =
      metrics_between-own (parse_date_boundary py false start) (parse_date_boundary py true end) db
        db' c u
