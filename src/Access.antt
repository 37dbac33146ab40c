-- ===== src/Access.antt =====
-- Who a request acts for: authenticate_request, get_current_user and require_role of
-- app/api/deps.py. A UUID that cannot be read is an exception that nothing catches.
pub mod Credentials
mod Tests
use leadpulse.Prelude.{
  ℕ, Bool, true, false, not, ◌&&◌, Option, none, some, List, [], ◌∷◌, if◌then◌else◌, any, drop,
  or_else,
}
use leadpulse.Prelude.Text.{Text, text, text_eq, is_empty, starts_with}
use leadpulse.Billing.{
  Table, Lookup, missing, several, one, get_organization_by_widget_key, text_is,
}

-- The tuple that the dependencies return, and store in the state of the request.
pub record Identity : Type 0 where
  pub user_id : Option ℕ
  pub role : Text
  pub organization : Option ℕ

pub data Access : Type 0 where
  granted : Identity → Access
  unauthorized forbidden crashed : Access

-- The claims of a token that the code reads.
pub record Claims : Type 0 where
  pub type : Option Text
  pub sub : Option Text
  pub role : Option Text
  pub org_id : Option Text

pub record User : Type 0 where
  pub is_active : Bool

pub record AccessSettings : Type 0 where
  pub auth_enabled : Bool
  pub api_key : Text

-- The headers, and the session id of the body or of the path.
pub record Headers : Type 0 where
  pub api_key : Option Text
  pub demo_token : Option Text
  pub widget_key : Option Text
  pub authorization : Option Text
  pub session_id : Option Text

-- The packages for tokens, demo tokens and UUIDs, and the tables.
pub record Outside : Type 0 where
  pub decode_token : Text → Option Claims
  pub verify_demo_token : Text → Text → Bool
  pub parse_uuid : Text → Option ℕ
  pub users : ℕ → Option User
  pub organizations : Table

-- `x and not empty`
abbrev pub given : Option Text → Option Text
given none = none
given (some t) = if is_empty t then none else some t

abbrev pub super_admin : Access
super_admin = granted (record { user_id = none; role = text "super_admin"; organization = none })

abbrev pub of_organization : Lookup → Access
of_organization missing = unauthorized
of_organization several = crashed
of_organization (one o) =
    granted (record { user_id = none; role = text "agent"; organization = some o.id })

abbrev pub is_active_user : Option User → Bool
is_active_user none = false
is_active_user (some u) = u.is_active

module _ (x : Outside) where
  -- `_verify_demo_token`, of a token that is not "".
  unfoldable pub is_demo : Headers → Bool
  is_demo h = elim (given h.demo_token) [
    | none ↦ false
    | some token ↦ elim (given h.session_id) [
      | none ↦ false
      | some session ↦ x.verify_demo_token token session
    ]
  ]

  -- The organization of the claims.
  abbrev pub with_organization : ℕ → Text → Option Text → Access
  with_organization user role none =
      granted (record { user_id = some user; role = role; organization = none })
  with_organization user role (some org) = elim (x.parse_uuid org) [
    | none ↦ crashed
    | some id ↦ granted (record { user_id = some user; role = role; organization = some id })
  ]

  unfoldable pub of_user : Claims → Text → Access
  of_user c sub = elim (x.parse_uuid sub) [
    | none ↦ crashed
    | some id ↦
        if is_active_user (x.users id)
        then with_organization id (or_else c.role (text "agent")) (given c.org_id)
        else unauthorized
  ]

  -- The guards of authenticate_request, nested.
  unfoldable pub of_bearer : Option Claims → Access
  of_bearer none = unauthorized
  of_bearer (some c) =
      if text_is c.type (text "access")
      then (elim (given c.sub) [ none ↦ unauthorized | some sub ↦ of_user c sub ])
      else unauthorized

  -- The guards of get_current_user, one after the other.
  unfoldable pub of_claims : Option Claims → Access
  of_claims none = unauthorized
  of_claims (some c) =
      if not (text_is c.type (text "access")) then unauthorized else elim (given c.sub) [
        | none ↦ unauthorized
        | some sub ↦ elim (x.parse_uuid sub) [
          | none ↦ crashed
          | some id ↦
              if not (is_active_user (x.users id))
              then unauthorized
              else with_organization id (or_else c.role (text "agent")) (given c.org_id)
        ]
      ]

  -- The token of an authorization that starts with "Bearer ".
  unfoldable pub bearer : Headers → Option Text
  bearer h = elim (given h.authorization) [
    | none ↦ none
    | some a ↦ if starts_with (text "Bearer ") a then some (drop 7 a) else none
  ]

  abbrev pub has_api_key : AccessSettings → Headers → Bool
  has_api_key st h = not (is_empty st.api_key) && text_is h.api_key st.api_key

  unfoldable pub single_tenant : AccessSettings → Headers → Access
  single_tenant st h =
      if is_empty st.api_key
      then super_admin
      else if text_is h.api_key st.api_key
      then super_admin
      else if is_demo h
      then super_admin
      else unauthorized

  unfoldable pub multi_tenant : AccessSettings → Headers → Access
  multi_tenant st h = elim (bearer h) [
    | some token ↦ of_bearer (x.decode_token token)
    | none ↦
        if has_api_key st h then super_admin else if is_demo h then super_admin else unauthorized
  ]

  unfoldable pub authenticate_request : AccessSettings → Headers → Access
  authenticate_request st h = elim (given h.widget_key) [
    | some key ↦ of_organization (get_organization_by_widget_key key x.organizations)
    | none ↦ if st.auth_enabled then multi_tenant st h else single_tenant st h
  ]

  unfoldable pub get_current_user : AccessSettings → Headers → Access
  get_current_user st h =
      if not st.auth_enabled
      then super_admin
      else elim (bearer h) [ none ↦ unauthorized | some token ↦ of_claims (x.decode_token token) ]

  abbrev check_role : List Text → Access → Access
  check_role roles (granted i) = if any (λ r. text_eq i.role r) roles then granted i else forbidden
  check_role roles unauthorized = unauthorized
  check_role roles forbidden = forbidden
  check_role roles crashed = crashed

  unfoldable pub require_role : List Text → AccessSettings → Headers → Access
  require_role roles st h = check_role roles (get_current_user st h)
