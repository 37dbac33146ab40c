-- ===== src/Accounts/Sessions.antt =====
-- The tokens of a login on the requests after it: app/api/auth.py with get_current_user of
-- app/api/deps.py.
use leadpulse.Prelude.{
  ℕ, ◌+◌, ◌<◌, Bool, true, false, ◌≡◌, ◌∙◌, refl, inl, inr, Option, none, some, ◌++◌, Bool-cases,
  Option-cases, arith, not, if◌then◌else◌,
}
use leadpulse.Prelude.Text.{Text, text, text_eq, is_empty, starts_with}
use leadpulse.Access.{
  Access, unauthorized, is_active_user, Outside, Claims, User, Headers, Identity, granted, given,
  with_organization, bearer, of_claims, get_current_user,
}
use leadpulse.Accounts.{
  Packages, Payload, Account, Database, Selected, no_row, rows, one_row, get_user_by_email,
  get_user_by_id, access_payload, create_access_token,
}
use leadpulse.Accounts.Handlers.{login, login_user, login_out}
use leadpulse.Accounts.Requests.{ok, LoginOut}

abbrev pub claims_of : Payload → Claims
claims_of p = record { type = some p.type; sub = p.sub; role = p.role; org_id = p.org_id }

abbrev pub user_of : Selected Account → Option User
user_of no_row = none
user_of rows = none
user_of (one_row u) = some (record { is_active = u.is_active })

-- What the dependencies read, at a time.
abbrev pub outside : Packages → (Text → Text → Bool) → ℕ → Database → Outside
outside x demo now db = record {
  decode_token = λ t. elim (x.decode now t) [ none ↦ none | some p ↦ some (claims_of p) ];
  verify_demo_token = demo;
  parse_uuid = x.parse_uuid;
  users = λ id. user_of (get_user_by_id id db);
  organizations = db.organizations;
}

abbrev pub with_token : Text → Headers
with_token token = record {
  api_key = none;
  demo_token = none;
  widget_key = none;
  authorization = some (text "Bearer " ++ token);
  session_id = none;
}

abbrev pub identity : Account → Identity
identity u = record { user_id = some u.id; role = u.role; organization = u.organization_id }

-- Who a request with the token of a user is, by the row that the user has now.
abbrev pub who_is : Account → Selected Account → Access
who_is u no_row = unauthorized
who_is u rows = unauthorized
who_is u (one_row v) = if v.is_active then granted (identity u) else unauthorized

who_is_lem :
    (u : Account) (r : Selected Account)
    → (if not (is_active_user (user_of r)) then unauthorized else granted (identity u)) ≡ who_is u r
who_is_lem u no_row = refl
who_is_lem u rows = refl
who_is_lem u (one_row v) = ground arith

module _ (x : Packages) where
  login_user-ok :
      (now : ℕ) (password : Text) (s : Selected Account) (out : LoginOut)
      → login_user x now password s ≡ ok out
      → (u : Account) × (s ≡ one_row u)
        × (x.check password u.password_hash ≡ true)
        × (u.is_active ≡ true)
        × (out ≡ login_out x now u)
  login_user-ok now password no_row out h = cc
  login_user-ok now password rows out h = cc
  login_user-ok now password (one_row u) out h =
      elim (Bool-cases (x.check password u.password_hash)) [
        | inr wrong ↦ ground arith
        | inl right ↦ elim (Bool-cases u.is_active) [
          | inr off ↦ ground arith
          | inl on ↦ (u, refl, right, on, ground arith)
        ]
      ]

  get_current_user-claims :
      (o : Outside) (key token : Text) (c : Claims)
      → o.decode_token token ≡ some c
      → get_current_user o (record { auth_enabled = true; api_key = key }) (with_token token)
        ≡ of_claims o (some c)
  unfolding get_current_user bearer starts_with
  get_current_user-claims o key token c e = ground arith

  module _ (demo : Text → Text → Bool) (uuid : (id : ℕ) → x.parse_uuid (x.str_of_id id) ≡ some id)
      (shown : (id : ℕ) → is_empty (x.str_of_id id) ≡ false) where
    abbrev claims_for : Account → Claims
    claims_for u = record {
      type = some (text "access");
      sub = some (x.str_of_id u.id);
      role = some u.role;
      org_id = (elim u.organization_id [ none ↦ none | some id ↦ some (x.str_of_id id) ]);
    }

    with_organization-of :
        (now : ℕ) (db : Database) (u : Account)
        → with_organization (outside x demo now db) u.id u.role (given (claims_for u).org_id)
          ≡ granted (identity u)
    with_organization-of now db u = elim (Option-cases u.organization_id) [
      | inl e ↦ ground arith
      | inr (id, e) ↦ ground (arith, uuid id, shown id)
    ]

    of_claims-for :
        (now : ℕ) (db : Database) (u : Account)
        → of_claims (outside x demo now db) (some (claims_for u))
          ≡ who_is u (get_user_by_id u.id db)
    unfolding of_claims text_eq
    of_claims-for now db u =
        let g : given (some (x.str_of_id u.id)) ≡ some (x.str_of_id u.id) =
          ground (arith, shown u.id) in
        let who = with_organization-of now db u in
        rw (g, uuid u.id, who) (who_is_lem u (get_user_by_id u.id db))

    decode_token-created :
        (now later : ℕ) (db : Database) (u : Account)
        → ((at : ℕ) (p : Payload) → at < p.exp → x.decode at (x.encode p) ≡ some p)
        → later < now + 1800
        → (outside x demo later db).decode_token (create_access_token x now u) ≡ some (claims_for u)
    unfolding create_access_token
    decode_token-created now later db u decodes soon =
        rw (decodes later (access_payload x now u) (omega (arith, soon))) refl

    -- Where tokens decode until they expire and ids are read as they are written, every request of
    -- the next 30 minutes with the access token of a login is a request of the user whose password
    -- was checked, with the role and the organization of the row at the login, as long as the user
    -- is there and active; where the user is deactivated or deleted meanwhile, it is refused. The
    -- tables at the later time are any tables.
    pub login-get_current_user :
        (now later : ℕ) (key email password : Text) (db db' : Database) (out : LoginOut)
        → ((at : ℕ) (p : Payload) → at < p.exp → x.decode at (x.encode p) ≡ some p)
        → login x now email password db ≡ ok out
        → later < now + 1800
        → (u : Account) × (get_user_by_email email db ≡ one_row u)
          × (x.check password u.password_hash ≡ true)
          × (u.is_active ≡ true)
          × (get_current_user
                (outside x demo later db')
                (record { auth_enabled = true; api_key = key })
                (with_token out.access_token)
              ≡ who_is u (get_user_by_id u.id db'))
    unfolding login create_access_token
    login-get_current_user now later key email password db db' out decodes logged soon =
        let (u, found, right, on, issued) =
          login_user-ok now password (get_user_by_email email db) out logged in
        let o = outside x demo later db' in
        let decoded : o.decode_token out.access_token ≡ some (claims_for u) =
          rw issued (decode_token-created now later db' u decodes soon) in
        (
          u,
          found,
          right,
          on,
          get_current_user-claims o key out.access_token (claims_for u) decoded
              ∙ of_claims-for later db' u,
        )
