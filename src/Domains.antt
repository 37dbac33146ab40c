-- ===== src/Domains.antt =====
-- The domains of tenants: app/services/domain.py, app/services/domain_verify.py and the rows that
-- app/api/branding.py changes. The palette and the texts of a response are left out.
pub mod Rows
pub mod Proven
pub mod Hosts
mod Tests
use leadpulse.Prelude.{
  ℕ, ◌-◌, Bool, true, false, not, ◌&&◌, ◌||◌, Option, none, some, List, [], ◌∷◌, ◌++◌,
  if◌then◌else◌, ◌==◌, any, keep_if, map, length, take, reverse, is_some,
}
use leadpulse.Prelude.Text.{Text, text, text_eq, is_empty, starts_with, lower, strip}
use leadpulse.Billing.{text_is}
use leadpulse.Access.{given}
use leadpulse.Accounts.{Selected, no_row, rows, one_row, selected}
use leadpulse.Accounts.Requests.{Reply, ok, http, crashed, Done, done}

pub data DomainStatus : Type 0 where
  unverified pending verified : DomainStatus

-- What a row of organizations has of its brand and its domain.
pub record Site : Type 0 where
  pub id : ℕ
  pub slug : Text
  pub is_active : Bool
  pub brand_name : Option Text
  pub logo_url : Option Text
  pub primary_color : Option Text
  pub custom_domain : Option Text
  pub custom_domain_status : DomainStatus
  pub domain_verification_token : Option Text

abbrev pub is_verified : Site → Bool
is_verified o = elim o.custom_domain_status [
  | unverified ↦ false
  | pending ↦ false
  | verified ↦ true
]

pub record BrandingUpdate : Type 0 where
  pub brand_name : Option Text
  pub logo_url : Option Text
  pub primary_color : Option Text
  pub custom_domain : Option Text

unfoldable pub get_site : ℕ → List Site → Selected Site
get_site id sites = selected (keep_if (λ o. o.id == id) sites)

unfoldable pub update_organization : ℕ → (Site → Site) → List Site → List Site
update_organization id f sites = map (λ o. if o.id == id then f o else o) sites

abbrev new_or_old : Option Text → Option Text → Option Text
new_or_old none old = old
new_or_old (some v) old = some v

-- The part of `updates` about the domain, with the token that is generated.
abbrev pub update_domain : Text → Option Text → Site → Site
update_domain token none o = o
update_domain token (some domain) o =
    if is_empty domain
    then record o {
      custom_domain = some (strip (lower domain));
      domain_verification_token = none;
      custom_domain_status = unverified;
    }
    else record o {
      custom_domain = some (strip (lower domain));
      domain_verification_token = some token;
      custom_domain_status = pending;
    }

unfoldable pub updates : Text → BrandingUpdate → Site → Site
updates token body o = update_domain token body.custom_domain (record o {
  brand_name = new_or_old body.brand_name o.brand_name;
  logo_url = new_or_old body.logo_url o.logo_url;
  primary_color = new_or_old body.primary_color o.primary_color;
})

abbrev pub is_color : Option Text → Bool
is_color none = true
is_color (some c) = starts_with (text "#") c && length c == 7

-- `update_branding_endpoint` of a tenant, past its roles; the response is its status.
abbrev pub update_found :
    ℕ → Text → BrandingUpdate → Selected Site → List Site → Reply Done × List Site
update_found id token body no_row sites = (http 404, sites)
update_found id token body rows sites = (crashed, sites)
update_found id token body (one_row o) sites =
    if is_color body.primary_color
    then (ok done, update_organization id (updates token body) sites)
    else (http 422, sites)

unfoldable pub update_branding_endpoint :
    Option ℕ → Text → BrandingUpdate → List Site → Reply Done × List Site
update_branding_endpoint none token body sites = (http 400, sites)
update_branding_endpoint (some id) token body sites =
    update_found id token body (get_site id sites) sites

abbrev drop_quotes : Text → Text
drop_quotes [] = []
drop_quotes (c ∷ s) = let rest = drop_quotes s in if c == b'"' then rest else c ∷ s

-- `s.strip('"')`
abbrev strip_quotes : Text → Text
strip_quotes s = reverse (drop_quotes (reverse (drop_quotes s)))

abbrev expected_txt_record_name : Text → Text
expected_txt_record_name domain = text "_leadpulse-verify." ++ domain

-- The texts of the TXT records of a name; none is an error of the resolver.
abbrev pub Dns : Type 0
Dns = Text → Option (List Text)

unfoldable pub verify_domain_txt : Dns → Text → Text → Bool
verify_domain_txt dns domain expected_token = elim (dns (expected_txt_record_name domain)) [
  | none ↦ false
  | some answers ↦ any (λ t. text_eq (strip_quotes (strip t)) expected_token) answers
]

abbrev pub set_verified : Site → Site
set_verified o = record o { custom_domain_status = verified }

-- The guards of `verify_domain_endpoint`, in order.
abbrev pub verify_site : ℕ → Dns → Site → List Site → Reply Done × List Site
verify_site id dns o sites = elim (given o.custom_domain) [
  | none ↦ (http 400, sites)
  | some domain ↦
      if is_verified o then (http 400, sites) else elim (given o.domain_verification_token) [
        | none ↦ (http 400, sites)
        | some token ↦
            if verify_domain_txt dns domain token
            then (ok done, update_organization id set_verified sites)
            else (http 400, sites)
      ]
]

abbrev pub verify_found : ℕ → Dns → Selected Site → List Site → Reply Done × List Site
verify_found id dns no_row sites = (http 404, sites)
verify_found id dns rows sites = (crashed, sites)
verify_found id dns (one_row o) sites = verify_site id dns o sites

unfoldable pub verify_domain_endpoint : Option ℕ → Dns → List Site → Reply Done × List Site
verify_domain_endpoint none dns sites = (http 400, sites)
verify_domain_endpoint (some id) dns sites = verify_found id dns (get_site id sites) sites

-- What is asked of the endpoints.
pub data DomainEvent : Type 0 where
  sets : Option ℕ → Text → BrandingUpdate → DomainEvent
  verifies : Option ℕ → Dns → DomainEvent

-- The rows after events, the newest first.
unfoldable pub sites_after : List DomainEvent → List Site → List Site
unfolding update_branding_endpoint verify_domain_endpoint
sites_after [] sites = sites
sites_after (sets t token body ∷ es) sites =
    (update_branding_endpoint t token body (sites_after es sites)).1
sites_after (verifies t dns ∷ es) sites = (verify_domain_endpoint t dns (sites_after es sites)).1

-- `host.split(":")[0]`
abbrev before_colon : Text → Text
before_colon [] = []
before_colon (c ∷ s) = let rest = before_colon s in if c == b':' then [] else c ∷ rest

unfoldable pub host_name : Text → Text
host_name host = lower (before_colon host)

pub data Resolved : Type 0 where
  tenant : ℕ → Resolved
  no_tenant error : Resolved

abbrev pub serves_domain : Text → Site → Bool
serves_domain host o = text_is o.custom_domain host && is_verified o && o.is_active

abbrev pub serves_slug : Text → Site → Bool
serves_slug slug o = text_eq o.slug slug && o.is_active

abbrev pub of_slug_row : Selected Site → Resolved
of_slug_row no_row = no_tenant
of_slug_row rows = error
of_slug_row (one_row o) = tenant o.id

-- The subdomain of `app_hostname`, if there is one.
abbrev pub of_subdomain : Text → Text → List Site → Resolved
of_subdomain app_hostname host sites =
    let slug = take (length host - length app_hostname - 1) host in
    if not (is_empty app_hostname) && starts_with (reverse (b'.' ∷ app_hostname)) (reverse host)
    then (if any (λ c. c == b'.') slug || is_empty slug
        then no_tenant
        else of_slug_row (selected (keep_if (serves_slug slug) sites)))
    else no_tenant

abbrev pub of_domain_row : Text → Text → List Site → Selected Site → Resolved
of_domain_row app_hostname host sites rows = error
of_domain_row app_hostname host sites (one_row o) = tenant o.id
of_domain_row app_hostname host sites no_row = of_subdomain app_hostname host sites

unfoldable pub resolve_tenant_from_host : Text → Option Text → List Site → Resolved
unfolding host_name
resolve_tenant_from_host app_hostname header sites = elim (given header) [
  | none ↦ no_tenant
  | some host ↦
      of_domain_row app_hostname (host_name host) sites
        (selected (keep_if (serves_domain (host_name host)) sites))
]
