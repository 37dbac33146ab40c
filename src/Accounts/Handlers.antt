-- ===== src/Accounts/Handlers.antt =====
-- The requests about accounts: app/api/auth.py. A request that ends with an error leaves the
-- database as it was (get_session of app/database/session.py).
use leadpulse.Prelude.{
  ℕ, ◌+◌, ◌*◌, true, not, Option, none, some, List, [], ◌∷◌, ◌++◌, if◌then◌else◌, ◌==◌, map,
}
use leadpulse.Prelude.Text.{Text, text, text_eq}
use leadpulse.Billing.{trialing}
use leadpulse.Access.{given, Identity}
use leadpulse.Slugs.{slugify, unique_slug}
use leadpulse.Accounts.Requests.{
  Reply, ok, http, crashed, LoginOut, RegisterIn, RegisterOut, Done, done, Draw,
}
use leadpulse.Accounts.{
  Packages, Payload, Account, Database, Selected, no_row, rows, one_row, get_user_by_email,
  get_user_by_id, store_password_reset_token, revoke_password_reset_token, create_access_token,
  create_refresh_token, create_password_reset_token, Verified, valid, invalid, raises,
  verify_password_reset_token,
}

abbrev pub with_hash : ℕ → Text → Account → Account
with_hash id hash u = if u.id == id then record u { password_hash = hash } else u

-- `create_organization`, with the defaults of the columns.
unfoldable pub create_organization : ℕ → Text → Database → Database
create_organization id slug db = record db {
  organizations =
      db.organizations
      ++ record {
        id = id;
        slug = slug;
        widget_key = none;
        is_active = true;
        billing_status = trialing;
        customer_id = none;
        last_payment_at = none;
        next_payment_due_at = none;
      }
        ∷ [];
}

module _ (x : Packages) where
  abbrev pub str_of_organization : Account → Option Text
  str_of_organization u = elim u.organization_id [ none ↦ none | some id ↦ some (x.str_of_id id) ]

  abbrev pub login_out : ℕ → Account → LoginOut
  login_out now u = record {
    access_token = create_access_token x now u;
    refresh_token = create_refresh_token x now u;
    user_id = x.str_of_id u.id;
    role = u.role;
    organization_id = str_of_organization u;
  }

  abbrev pub login_user : ℕ → Text → Selected Account → Reply LoginOut
  login_user now password no_row = http 401
  login_user now password rows = crashed
  login_user now password (one_row u) =
      if not (x.check password u.password_hash)
      then http 401
      else if not u.is_active
      then http 403
      else ok (login_out now u)

  unfoldable pub login : ℕ → Text → Text → Database → Reply LoginOut
  login now email password db = login_user now password (get_user_by_email email db)

  unfoldable pub create_user : Draw → RegisterIn → Option ℕ → Database → Account × Database
  create_user d q organization db =
      let u : Account = record {
        id = d.user_id;
        email = q.email;
        password_hash = x.hash d.salt q.password;
        display_name = q.display_name;
        role = text "org_admin";
        organization_id = organization;
        is_active = true;
      } in
      (u, record db { users = db.users ++ u ∷ [] })

  abbrev pub sign_up : Draw → RegisterIn → Option ℕ → Database → Reply RegisterOut × Database
  sign_up d q organization db =
      let r = create_user d q organization db in
      (
        ok (record {
          user_id = x.str_of_id r.0.id;
          email = r.0.email;
          role = r.0.role;
          organization_id = str_of_organization r.0;
        }),
        r.1,
      )

  -- A new organization, if the request names one, and the user.
  abbrev pub register_new : Draw → RegisterIn → Database → Reply RegisterOut × Database
  register_new d q db = elim (given q.organization_name) [
    | none ↦ sign_up d q none db
    | some name ↦ elim (unique_slug (slugify name) db.organizations) [
      | none ↦ (crashed, db)
      | some slug ↦
          sign_up d q (some d.organization_id) (create_organization d.organization_id slug db)
    ]
  ]

  abbrev pub register_with :
      Draw → RegisterIn → Selected Account → Database → Reply RegisterOut × Database
  register_with d q no_row db = register_new d q db
  register_with d q rows db = (crashed, db)
  register_with d q (one_row u) db = (http 409, db)

  unfoldable pub register : Draw → RegisterIn → Database → Reply RegisterOut × Database
  register d q db = register_with d q (get_user_by_email q.email db) db

  -- `send_password_reset_email`, whose failure is swallowed.
  abbrev pub mailed : Draw → Text → Text → Database → Database
  mailed d to token db =
      if d.sends_mail then record db { mails = db.mails ++ (to, token) ∷ [] } else db

  abbrev pub store_and_mail : Draw → Account → Text → Option Payload → Database → Database
  store_and_mail d u token none db = db
  store_and_mail d u token (some p) db = elim p.jti [
    | none ↦ db
    | some jti ↦ mailed d u.email token (store_password_reset_token jti u.id (d.now + 30 * 60) db)
  ]

  abbrev pub forgot_with : Draw → Selected Account → Database → Reply Done × Database
  forgot_with d no_row db = (ok done, db)
  forgot_with d rows db = (crashed, db)
  forgot_with d (one_row u) db =
      let token = create_password_reset_token x d.now d.jti u in
      if u.is_active
      then (ok done, store_and_mail d u token (x.decode d.now token) db)
      else (ok done, db)

  unfoldable pub forgot_password : Draw → Text → Database → Reply Done × Database
  forgot_password d email db = forgot_with d (get_user_by_email email db) db

  abbrev pub reset_with : Draw → Text → Verified x → Database → Reply Done × Database
  reset_with d password invalid db = (http 400, db)
  reset_with d password raises db = (crashed, db)
  reset_with d password (valid u jti) db = (
    ok done,
    revoke_password_reset_token d.now jti
        (record db { users = map (with_hash u.id (x.hash d.salt password)) db.users }),
  )

  unfoldable pub reset_password : Draw → Text → Text → Database → Reply Done × Database
  reset_password d token password db =
      reset_with d password (verify_password_reset_token x d.now token db) db

  abbrev refresh_user : ℕ → Selected Account → Reply Text
  refresh_user now no_row = http 401
  refresh_user now rows = crashed
  refresh_user now (one_row u) = if u.is_active then ok (create_access_token x now u) else http 401

  abbrev refresh_payload : ℕ → Payload → Database → Reply Text
  refresh_payload now p db =
      if not (text_eq p.type (text "refresh")) then http 401 else elim p.sub [
        | none ↦ crashed
        | some sub ↦ elim (x.parse_uuid sub) [
          | none ↦ crashed
          | some id ↦ refresh_user now (get_user_by_id id db)
        ]
      ]

  unfoldable pub refresh : ℕ → Text → Database → Reply Text
  refresh now token db = elim (x.decode now token) [
    | none ↦ http 401
    | some p ↦ refresh_payload now p db
  ]

  abbrev me_user : Selected Account → Reply Account
  me_user no_row = http 404
  me_user rows = crashed
  me_user (one_row u) = ok u

  -- `get_me` of the identity that get_current_user gave; the response has the columns of the row.
  unfoldable pub get_me : Identity → Database → Reply Account
  get_me i db = elim i.user_id [ none ↦ http 401 | some id ↦ me_user (get_user_by_id id db) ]

  -- The requests that write, with what they draw; the others leave the database.
  pub data AccountRequest : Type 0 where
    registers : Draw → RegisterIn → AccountRequest
    forgets : Draw → Text → AccountRequest
    resets : Draw → Text → Text → AccountRequest
    reads : AccountRequest

  unfoldable pub serve : AccountRequest → Database → Database
  serve (registers d q) db = (register d q db).1
  serve (forgets d email) db = (forgot_password d email db).1
  serve (resets d token password) db = (reset_password d token password db).1
  serve reads db = db

  unfoldable pub serve_all : List AccountRequest → Database → Database
  unfolding serve
  serve_all [] db = db
  serve_all (q ∷ qs) db = serve_all qs (serve q db)
