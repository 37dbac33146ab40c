-- ===== src/Domains/Hosts.antt =====
-- A custom domain serves only a tenant that has proved to own it: app/api/branding.py and
-- app/services/domain.py.
use leadpulse.Prelude.{ℕ, false, ◌≡◌, refl, inl, inr, some, List, keep_if, All, Option-cases, arith}
use leadpulse.Prelude.Text.{Text}
use leadpulse.Prelude.TextLaws.{text_eq_sound}
use leadpulse.Access.{given}
use leadpulse.Accounts.{Selected, no_row, rows, one_row, selected}
use leadpulse.Domains.{
  Site, is_verified, DomainEvent, sites_after, host_name, tenant, serves_domain, of_domain_row,
  of_subdomain, resolve_tenant_from_host,
}
use leadpulse.Domains.Rows.{selected-All}
use leadpulse.Domains.Proven.{Proven, Owned, sites_after-Owned}

module _ (start : List Site) where
  -- How a host leads to a tenant.
  pub data Serves (app_hostname host : Text) (es : List DomainEvent) (id : ℕ) : Type 0 where
    own_domain : Proven start id (host_name host) es → Serves app_hostname host es id
    subdomain :
        of_subdomain app_hostname (host_name host) (sites_after es start) ≡ tenant id
        → Serves app_hostname host es id

  of_domain_row-Serves :
      (app_hostname host : Text) (es : List DomainEvent) (id : ℕ) (s : Selected Site)
      → All (Owned start es) (sites_after es start)
      → selected (keep_if (serves_domain (host_name host)) (sites_after es start)) ≡ s
      → of_domain_row app_hostname (host_name host) (sites_after es start) s ≡ tenant id
      → Serves app_hostname host es id
  unfolding Owned
  of_domain_row-Serves app_hostname host es id rows a e h = cc
  of_domain_row-Serves app_hostname host es id no_row a e h = subdomain h
  of_domain_row-Serves app_hostname host es id (one_row o) a e h =
      let (owned, matches) =
        selected-All (serves_domain (host_name host)) (Owned start es) (sites_after es start) o e
          a in
      let (domain, has, proof) = owned (ground arith) in
      let same : domain ≡ host_name host = ground (arith, text_eq_sound domain (host_name host)) in
      let is : o.id ≡ id = ground arith in own_domain (rw⁻¹ (is, same) proof)

  -- From a table in which no domain is verified, and after any updates and verifications, a host
  -- leads to a tenant by its own domain only if the tenant proved to own that domain: at some
  -- verification its row had the domain and a token that the domain's records gave. Any other host
  -- that leads to it is a subdomain of the application.
  pub resolve_tenant_from_host-Serves :
      (app_hostname host : Text) (es : List DomainEvent) (id : ℕ)
      → All (λ o. is_verified o ≡ false) start
      → resolve_tenant_from_host app_hostname (some host) (sites_after es start) ≡ tenant id
      → Serves app_hostname host es id
  unfolding resolve_tenant_from_host
  resolve_tenant_from_host-Serves app_hostname host es id a h =
      elim (Option-cases (given (some host))) [
        | inl e ↦ ground arith
        | inr (t, e) ↦
            of_domain_row-Serves app_hostname host es id
              (selected (keep_if (serves_domain (host_name host)) (sites_after es start)))
              (sites_after-Owned start es a) refl (ground arith)
      ]
