-- ===== src/Access/Credentials.antt =====
-- What a request must show to be let in, and as whom: app/api/deps.py.
use leadpulse.Prelude.{
  ℕ, ap, false, or_else, true, ◌≡◌, inl, inr, refl, Option, none, some, List, if◌then◌else◌, any,
  Option-cases, Bool-cases, arith,
}
use leadpulse.Prelude.Text.{Text, text, text_eq, is_empty}
use leadpulse.Prelude.TextLaws.{text_eq_sound}
use leadpulse.Billing.{
  text_is, Organization, Lookup, missing, several, one, get_organization_by_widget_key,
}
use leadpulse.Access.{
  User, with_organization, Identity, granted, unauthorized, Claims, AccessSettings, Headers,
  Outside, given, of_organization, super_admin, is_demo, of_user, of_bearer, of_claims, bearer,
  has_api_key, multi_tenant, authenticate_request, get_current_user, require_role,
}

of_organization-one :
    (l : Lookup) (i : Identity)
    → of_organization l ≡ granted i
    → (o : Organization) × (l ≡ one o)
      × (i ≡ record { user_id = none; role = text "agent"; organization = some o.id })
of_organization-one missing i h = cc
of_organization-one several i h = cc
of_organization-one (one o) i h = (o, refl, ground arith)

text_is_sound : (o : Option Text) (v : Text) → text_is o v ≡ true → o ≡ some v
text_is_sound none v h = cc
text_is_sound (some k) v h = ap some (text_eq_sound k v h)

-- The organization of the claims.
abbrev pub claimed : Outside → Option Text → Option ℕ
claimed x none = none
claimed x (some org) = x.parse_uuid org

abbrev pub everyone : Identity
everyone = record { user_id = none; role = text "super_admin"; organization = none }

module _ (x : Outside) (st : AccessSettings) (h : Headers) where
  -- A request with a widget key is let in only as an agent, with no user, of the organization
  -- that the key serves.
  pub authenticate_request-widget :
      (key : Text) (i : Identity)
      → given h.widget_key ≡ some key
      → authenticate_request x st h ≡ granted i
      → (o : Organization) × (get_organization_by_widget_key key x.organizations ≡ one o)
        × (i ≡ record { user_id = none; role = text "agent"; organization = some o.id })
  unfolding authenticate_request
  authenticate_request-widget key i shown let_in =
      of_organization-one (get_organization_by_widget_key key x.organizations) i (ground arith)

  -- What a request can show where authentication is on, and as whom it is then let in.
  pub data Shows (i : Identity) : Type 0 where
    widget_key :
        (key : Text) (o : Organization)
        → given h.widget_key ≡ some key
        → get_organization_by_widget_key key x.organizations ≡ one o
        → i ≡ record { user_id = none; role = text "agent"; organization = some o.id }
        → Shows i
    access_token :
        (t sub : Text) (c : Claims) (id : ℕ) (u : User)
        → bearer x h ≡ some t
        → x.decode_token t ≡ some c
        → c.type ≡ some (text "access")
        → given c.sub ≡ some sub
        → x.parse_uuid sub ≡ some id
        → x.users id ≡ some u
        → u.is_active ≡ true
        → i ≡ record {
          user_id = some id;
          role = or_else c.role (text "agent");
          organization = claimed x (given c.org_id);
        }
        → Shows i
    api_key : is_empty st.api_key ≡ false → h.api_key ≡ some st.api_key → i ≡ everyone → Shows i
    demo_token :
        (token session : Text)
        → given h.demo_token ≡ some token
        → given h.session_id ≡ some session
        → x.verify_demo_token token session ≡ true
        → i ≡ everyone
        → Shows i

  with_organization-granted :
      (id : ℕ) (role : Text) (org : Option Text) (i : Identity)
      → with_organization x id role org ≡ granted i
      → i ≡ record { user_id = some id; role = role; organization = claimed x org }
  with_organization-granted id role none i let_in = ground arith
  with_organization-granted id role (some org) i let_in = elim (Option-cases (x.parse_uuid org)) [
    | inl e ↦ ground arith
    | inr (o, e) ↦ ground arith
  ]

  Shows-user :
      (i : Identity) (t sub : Text) (c : Claims)
      → bearer x h ≡ some t
      → x.decode_token t ≡ some c
      → c.type ≡ some (text "access")
      → given c.sub ≡ some sub
      → of_user x c sub ≡ granted i
      → Shows i
  unfolding of_user
  Shows-user i t sub c found decoded access who let_in = elim (Option-cases (x.parse_uuid sub)) [
    | inl e ↦ ground arith
    | inr (id, parsed) ↦ elim (Option-cases (x.users id)) [
      | inl e ↦ ground arith
      | inr (u, known) ↦ elim (Bool-cases u.is_active) [
        | inr off ↦ ground arith
        | inl on ↦ access_token t sub c id u found decoded access who parsed known on (
            with_organization-granted id (or_else c.role (text "agent")) (given c.org_id) i
              (ground arith))
      ]
    ]
  ]

  Shows-bearer :
      (i : Identity) (t : Text) (c : Option Claims)
      → bearer x h ≡ some t
      → x.decode_token t ≡ c
      → of_bearer x c ≡ granted i
      → Shows i
  unfolding of_bearer
  Shows-bearer i t none found decoded let_in = cc
  Shows-bearer i t (some c) found decoded let_in =
      elim (Bool-cases (text_is c.type (text "access"))) [
        | inr other ↦ ground arith
        | inl access ↦ elim (Option-cases (given c.sub)) [
          | inl e ↦ ground arith
          | inr (sub, who) ↦
              Shows-user i t sub c found decoded (text_is_sound c.type (text "access") access) who
                (ground arith)
        ]
      ]

  Shows-demo : (i : Identity) → is_demo x h ≡ true → i ≡ everyone → Shows i
  unfolding is_demo
  Shows-demo i demo who = elim (Option-cases (given h.demo_token)) [
    | inl e ↦ ground arith
    | inr (token, shown) ↦ elim (Option-cases (given h.session_id)) [
      | inl e ↦ ground arith
      | inr (session, named) ↦ demo_token token session shown named (ground arith) who
    ]
  ]

  Shows-keys :
      (i : Identity)
      → (if has_api_key x st h
          then super_admin
          else if is_demo x h
          then super_admin
          else unauthorized)
        ≡ granted i
      → Shows i
  Shows-keys i let_in = elim (Bool-cases (has_api_key x st h)) [
    | inl key ↦
        api_key (ground arith) (text_is_sound h.api_key st.api_key (ground arith)) (ground arith)
    | inr no_key ↦ elim (Bool-cases (is_demo x h)) [
      | inl demo ↦ Shows-demo i demo (ground arith)
      | inr no_demo ↦ ground arith
    ]
  ]

  -- Where authentication is on, a request that is let in is one of these: with a widget key, an
  -- agent of the organization that the key serves; with an access token, the active user that the
  -- token names, with the role and the organization of its claims; with the API key, or with a demo
  -- token that verifies for the session, the administrator of everything.
  pub authenticate_request-Shows :
      (i : Identity) → st.auth_enabled ≡ true → authenticate_request x st h ≡ granted i → Shows i
  unfolding authenticate_request multi_tenant
  authenticate_request-Shows i enabled let_in = elim (Option-cases (given h.widget_key)) [
    | inr (key, shown) ↦
        let (o, serves, who) =
          of_organization-one (get_organization_by_widget_key key x.organizations) i
            (ground arith) in
        widget_key key o shown serves who
    | inl no_key ↦ elim (Option-cases (bearer x h)) [
      | inr (t, found) ↦ Shows-bearer i t (x.decode_token t) found refl (ground arith)
      | inl no_token ↦ Shows-keys i (ground arith)
    ]
  ]

  of_bearer-claims : (c : Option Claims) → of_bearer x c ≡ of_claims x c
  unfolding of_bearer of_claims of_user
  of_bearer-claims c = ground arith

  -- Where authentication is on, authenticate_request and get_current_user agree on every request
  -- that has a bearer token and no widget key.
  pub authenticate_request-get_current_user :
      (t : Text)
      → st.auth_enabled ≡ true
      → given h.widget_key ≡ none
      → bearer x h ≡ some t
      → authenticate_request x st h ≡ get_current_user x st h
  unfolding authenticate_request get_current_user multi_tenant
  authenticate_request-get_current_user t enabled no_key found =
      ground (arith, of_bearer-claims (x.decode_token t))

  -- Only a user of one of the roles passes require_role.
  pub require_role-any :
      (roles : List Text) (i : Identity)
      → require_role x roles st h ≡ granted i
      → any (λ r. text_eq i.role r) roles ≡ true
  unfolding require_role
  require_role-any roles i passed = ground arith
