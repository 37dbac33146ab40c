-- ===== src/Domains/Tests.antt =====
-- A tenant that sets its domain and proves to own it, and the hosts that lead to it.
use leadpulse.Prelude.{true, ◌≡◌, refl, none, some, List, [], ◌∷◌}
use leadpulse.Prelude.Text.{text, text_eq, lower, strip, strip_left, starts_with}
use leadpulse.Domains.{
  Site, unverified, BrandingUpdate, DomainEvent, sets, verifies, Dns, sites_after, get_site,
  update_organization, updates, update_branding_endpoint, verify_domain_endpoint, verify_domain_txt,
  resolve_tenant_from_host, host_name, tenant,
}
use leadpulse.Domains.Hosts.{Serves, resolve_tenant_from_host-Serves}

abbrev acme : Site
acme = record {
  id = 1;
  slug = text "acme";
  is_active = true;
  brand_name = none;
  logo_url = none;
  primary_color = none;
  custom_domain = none;
  custom_domain_status = unverified;
  domain_verification_token = none;
}

abbrev body : BrandingUpdate
body = record {
  brand_name = some (text "Acme");
  logo_url = none;
  primary_color = some (text "#4F46E5");
  custom_domain = some (text " Leads.Acme.com");
}

abbrev dns : Dns
dns name = some (text "spf" ∷ text " \"t0k\"" ∷ [])

abbrev events : List DomainEvent
events = verifies (some 1) dns ∷ sets (some 1) (text "t0k") body ∷ []

owner :
    resolve_tenant_from_host
      (text "app.leadpulse.ai")
      (some (text "LEADS.acme.com:443"))
      (sites_after events (acme ∷ []))
    ≡ tenant 1
unfolding resolve_tenant_from_host host_name sites_after get_site update_organization updates
    update_branding_endpoint verify_domain_endpoint verify_domain_txt text_eq lower strip strip_left
    starts_with
owner = refl

subdomain :
    resolve_tenant_from_host
      (text "app.leadpulse.ai")
      (some (text "acme.app.leadpulse.ai"))
      (acme ∷ [])
    ≡ tenant 1
unfolding resolve_tenant_from_host host_name text_eq lower starts_with
subdomain = refl

resolve_tenant_from_host-Serves_example :
    Serves (acme ∷ []) (text "app.leadpulse.ai") (text "LEADS.acme.com:443") events 1
resolve_tenant_from_host-Serves_example =
    resolve_tenant_from_host-Serves (acme ∷ []) (text "app.leadpulse.ai")
      (text "LEADS.acme.com:443") events 1 (refl, tt) owner
