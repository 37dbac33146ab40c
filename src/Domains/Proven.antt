-- ===== src/Domains/Proven.antt =====
-- A verified domain was proved to be the tenant's: app/api/branding.py.
use leadpulse.Prelude.{
  ℕ, true, false, ◌≡◌, refl, ◌∙◌, inl, inr, sym, Option, none, some, List, [], ◌∷◌, if◌then◌else◌,
  ◌==◌, All, Bool-cases, Option-cases, arith,
}
use leadpulse.Prelude.Text.{Text, is_empty}
use leadpulse.Access.{given}
use leadpulse.Accounts.{Selected, no_row, rows, one_row}
use leadpulse.Domains.{
  Site, is_verified, BrandingUpdate, get_site, update_organization, updates, update_found,
  update_branding_endpoint, is_color, Dns, verify_domain_txt, set_verified, verify_site,
  verify_found, verify_domain_endpoint, DomainEvent, sets, verifies, sites_after,
}
use leadpulse.Domains.Rows.{selected-only, All-map, All-both, All-same}

module _ (start : List Site) where
  -- Among the events, a verification of the tenant at which its row had the domain and a token, and
  -- the records of the domain had the token.
  pub data Proven (id : ℕ) (domain : Text) : List DomainEvent → Type 0 where
    now :
        (dns : Dns) (es : List DomainEvent) (o : Site) (token : Text)
        → get_site id (sites_after es start) ≡ one_row o
        → given o.custom_domain ≡ some domain
        → given o.domain_verification_token ≡ some token
        → verify_domain_txt dns domain token ≡ true
        → Proven id domain (verifies (some id) dns ∷ es)
    before :
        (e : DomainEvent) (es : List DomainEvent) → Proven id domain es → Proven id domain (e ∷ es)

  -- A verified row has a proven domain.
  unfoldable pub Owned : List DomainEvent → Site → Type 0
  Owned es o =
      is_verified o ≡ true
      → (domain : Text) × (o.custom_domain ≡ some domain) × Proven o.id domain es

  Owned-later :
      (e : DomainEvent) (es : List DomainEvent) (sites : List Site)
      → All (Owned es) sites
      → All (Owned (e ∷ es)) sites
  unfolding Owned
  Owned-later e es [] a = tt
  Owned-later e es (o ∷ sites) (h, a) = (
    (λ v. let (domain, has, proof) = h v in (domain, has, before e es proof)),
    Owned-later e es sites a,
  )

  Owned-same :
      (es : List DomainEvent) (o o' : Site)
      → o'.id ≡ o.id
      → o'.custom_domain ≡ o.custom_domain
      → is_verified o' ≡ is_verified o
      → Owned es o
      → Owned es o'
  unfolding Owned
  Owned-same es o o' same_id same_domain same_status h v =
      let (domain, has, proof) = h (sym same_status ∙ v) in
      (domain, same_domain ∙ has, rw same_id proof)

  updates-Owned :
      (es : List DomainEvent) (token : Text) (body : BrandingUpdate) (o : Site)
      → Owned es o
      → Owned es (updates token body o)
  unfolding updates Owned
  updates-Owned es token body o h = elim (Option-cases body.custom_domain) [
    | inl kept ↦
        Owned-same es o (updates token body o) (ground arith) (ground arith) (ground arith) h
    | inr (domain, set) ↦ λ v. elim (Bool-cases (is_empty domain)) [
      | inl gone ↦ ground arith
      | inr new ↦ ground arith
    ]
  ]

  update_organization-Owned :
      (es : List DomainEvent) (id : ℕ) (f : Site → Site) (sites : List Site)
      → ((o : Site) → Owned es o → (o.id == id ≡ true → Owned es (f o)))
      → All (Owned es) sites
      → All (Owned es) (update_organization id f sites)
  unfolding update_organization
  update_organization-Owned es id f sites keeps a =
      All-map (Owned es) (Owned es) (λ o. if o.id == id then f o else o) sites
        (λ o h. elim (Bool-cases (o.id == id)) [ inl e ↦ rw e (keeps o h e) | inr e ↦ rw e h ]) a

  update_found-Owned :
      (es : List DomainEvent) (id : ℕ) (token : Text) (body : BrandingUpdate) (s : Selected Site)
      (sites : List Site)
      → All (Owned es) sites
      → All (Owned es) (update_found id token body s sites).1
  update_found-Owned es id token body no_row sites a = a
  update_found-Owned es id token body rows sites a = a
  update_found-Owned es id token body (one_row o) sites a =
      elim (Bool-cases (is_color body.primary_color)) [
        | inl e ↦ rw e (
            update_organization-Owned es id (updates token body) sites
              (λ o h k. updates-Owned es token body o h) a)
        | inr e ↦ rw e a
      ]

  given-some : (o : Option Text) (t : Text) → given o ≡ some t → o ≡ some t
  given-some none t h = cc
  given-some (some s) t h = ground arith

  -- The row that a verification makes verified.
  set_verified-Owned :
      (id : ℕ) (dns : Dns) (es : List DomainEvent) (o : Site) (domain token : Text)
      → get_site id (sites_after es start) ≡ one_row o
      → o.id ≡ id
      → given o.custom_domain ≡ some domain
      → given o.domain_verification_token ≡ some token
      → verify_domain_txt dns domain token ≡ true
      → Owned (verifies (some id) dns ∷ es) (set_verified o)
  unfolding Owned
  set_verified-Owned id dns es o domain token found same has issued answered v = (
    domain,
    given-some o.custom_domain domain has,
    rw same (now dns es o token found has issued answered),
  )

  set_verified-All :
      (id : ℕ) (dns : Dns) (es : List DomainEvent) (o : Site) (domain token : Text)
      (sites : List Site)
      → sites ≡ sites_after es start
      → get_site id sites ≡ one_row o
      → given o.custom_domain ≡ some domain
      → given o.domain_verification_token ≡ some token
      → verify_domain_txt dns domain token ≡ true
      → All (Owned (verifies (some id) dns ∷ es)) sites
      → All (Owned (verifies (some id) dns ∷ es)) (update_organization id set_verified sites)
  unfolding update_organization get_site
  set_verified-All id dns es o domain token sites here found has issued answered a =
      let es' = verifies (some id) dns ∷ es in
      let only = selected-only (λ y. y.id == id) sites o found in
      All-map (λ y. Owned es' y × (y.id == id ≡ true → y ≡ o)) (Owned es')
        (λ y. if y.id == id then set_verified y else y) sites
        (λ y q. elim (Bool-cases (y.id == id)) [
          | inr other ↦ rw other q.0
          | inl e ↦
              let same : y ≡ o = q.1 e in
              rw (e, same)
                (set_verified-Owned id dns es o domain token (rw⁻¹ here found) (ground arith) has
                  issued answered)
        ])
        (All-both (Owned es') (λ y. y.id == id ≡ true → y ≡ o) sites a only)

  verify_site-Owned :
      (id : ℕ) (dns : Dns) (es : List DomainEvent) (o : Site) (sites : List Site)
      → sites ≡ sites_after es start
      → get_site id sites ≡ one_row o
      → All (Owned (verifies (some id) dns ∷ es)) sites
      → All (Owned (verifies (some id) dns ∷ es)) (verify_site id dns o sites).1
  verify_site-Owned id dns es o sites here found a = elim (Option-cases (given o.custom_domain)) [
    | inl e ↦ unchanged (ground arith)
    | inr (domain, has) ↦ elim (Bool-cases (is_verified o)) [
      | inl e ↦ unchanged (ground arith)
      | inr fresh ↦ elim (Option-cases (given o.domain_verification_token)) [
        | inl e ↦ unchanged (ground arith)
        | inr (token, issued) ↦ elim (Bool-cases (verify_domain_txt dns domain token)) [
          | inr e ↦ unchanged (ground arith)
          | inl e ↦
              All-same (Owned (verifies (some id) dns ∷ es)) (verify_site id dns o sites).1
                (update_organization id set_verified sites) (ground arith)
                (set_verified-All id dns es o domain token sites here found has issued e a)
        ]
      ]
    ]
  ]
    where
      unchanged :
          (verify_site id dns o sites).1 ≡ sites
          → All (Owned (verifies (some id) dns ∷ es)) (verify_site id dns o sites).1
      unchanged e =
          All-same (Owned (verifies (some id) dns ∷ es)) (verify_site id dns o sites).1 sites e a

  verify_found-Owned :
      (id : ℕ) (dns : Dns) (es : List DomainEvent) (s : Selected Site) (sites : List Site)
      → sites ≡ sites_after es start
      → get_site id sites ≡ s
      → All (Owned (verifies (some id) dns ∷ es)) sites
      → All (Owned (verifies (some id) dns ∷ es)) (verify_found id dns s sites).1
  verify_found-Owned id dns es no_row sites here found a = a
  verify_found-Owned id dns es rows sites here found a = a
  verify_found-Owned id dns es (one_row o) sites here found a =
      verify_site-Owned id dns es o sites here found a

  start-Owned : (sites : List Site) → All (λ o. is_verified o ≡ false) sites → All (Owned []) sites
  unfolding Owned
  start-Owned [] a = tt
  start-Owned (o ∷ sites) (e, a) = ((λ v. ground arith), start-Owned sites a)

  pub sites_after-Owned :
      (es : List DomainEvent)
      → All (λ o. is_verified o ≡ false) start
      → All (Owned es) (sites_after es start)
  unfolding sites_after update_branding_endpoint verify_domain_endpoint
  sites_after-Owned [] a = start-Owned start a
  sites_after-Owned (sets none token body ∷ es) a =
      Owned-later (sets none token body) es (sites_after es start) (sites_after-Owned es a)
  sites_after-Owned (sets (some id) token body ∷ es) a =
      update_found-Owned (sets (some id) token body ∷ es) id token body
        (get_site id (sites_after es start)) (sites_after es start)
        (Owned-later (sets (some id) token body) es (sites_after es start) (sites_after-Owned es a))
  sites_after-Owned (verifies none dns ∷ es) a =
      Owned-later (verifies none dns) es (sites_after es start) (sites_after-Owned es a)
  sites_after-Owned (verifies (some id) dns ∷ es) a =
      verify_found-Owned id dns es (get_site id (sites_after es start)) (sites_after es start) refl
        refl
        (Owned-later (verifies (some id) dns) es (sites_after es start) (sites_after-Owned es a))
