-- ===== src/Accounts/Tests.antt =====
-- A table of one account, tokens that are the fields one after the other, and the theorems on them.
use leadpulse.Prelude.{
  ℕ, zero, suc, or_else, head?, ◌<◌, true, false, ◌≡◌, ◌≢◌, refl, ap, Option, none, some, [], ◌∷◌,
  ◌++◌, ltb, if◌then◌else◌, length, take, drop, arith,
}
use leadpulse.Prelude.Text.{Text, text, text_eq}
use leadpulse.Access.{get_current_user}
use leadpulse.Accounts.{
  Packages, Payload, Account, Database, one_row, get_user_by_email, get_user_by_id,
  get_password_reset_token, create_password_reset_token, verify_password_reset_token,
  store_password_reset_token,
}
use leadpulse.Accounts.Handlers.{forgets, reads, login, forgot_password, reset_password, serve_all}
use leadpulse.Accounts.Requests.{LoginOut, ok, done, Draw}
use leadpulse.Accounts.Resets.{reset_password-once}
use leadpulse.Accounts.Sessions.{outside, with_token, who_is, login-get_current_user}

abbrev put : Option Text → Text → Text
put none rest = 0 ∷ rest
put (some s) rest = suc (length s) ∷ (s ++ rest)

abbrev field : Text → Option Text
field (suc n ∷ s) = some (take n s)
field (zero ∷ s) = none
field [] = none

abbrev fields_after : Text → Text
fields_after (suc n ∷ s) = drop n s
fields_after (zero ∷ s) = s
fields_after [] = []

take-append : (s t : Text) → take (length s) (s ++ t) ≡ s
take-append [] t = refl
take-append (c ∷ s) t = ap (λ r. c ∷ r) (take-append s t)

drop-append : (s t : Text) → drop (length s) (s ++ t) ≡ t
drop-append [] t = refl
drop-append (c ∷ s) t = drop-append s t

field-put : (o : Option Text) (t : Text) → field (put o t) ≡ o
field-put none t = refl
field-put (some s) t = ap some (take-append s t)

fields_after-put : (o : Option Text) (t : Text) → fields_after (put o t) ≡ t
fields_after-put none t = refl
fields_after-put (some s) t = drop-append s t

abbrev encode : Payload → Text
encode p = p.exp ∷ put (some p.type) (put p.sub (put p.role (put p.org_id (put p.jti []))))

abbrev payload : ℕ → Text → Payload
payload exp s =
    let sub = fields_after s in
    let role = fields_after sub in
    let org = fields_after role in
    let jti = fields_after org in
    record {
      type = or_else (field s) [];
      sub = field sub;
      role = field role;
      org_id = field org;
      jti = field jti;
      exp = exp;
    }

abbrev decode : ℕ → Text → Option Payload
decode at [] = none
decode at (exp ∷ s) = if ltb at exp then some (payload exp s) else none

payload-put :
    (p : Payload)
    → payload p.exp (put (some p.type) (put p.sub (put p.role (put p.org_id (put p.jti []))))) ≡ p
payload-put p =
    rw
      (
        take-append p.type (put p.sub (put p.role (put p.org_id (put p.jti [])))),
        drop-append p.type (put p.sub (put p.role (put p.org_id (put p.jti [])))),
        field-put p.sub (put p.role (put p.org_id (put p.jti []))),
        fields_after-put p.sub (put p.role (put p.org_id (put p.jti []))),
        field-put p.role (put p.org_id (put p.jti [])),
        fields_after-put p.role (put p.org_id (put p.jti [])),
        field-put p.org_id (put p.jti []),
        fields_after-put p.org_id (put p.jti []),
        field-put p.jti [],
      )
      refl

decode-encode : (at : ℕ) (p : Payload) → at < p.exp → decode at (encode p) ≡ some p
decode-encode at p h = ground (arith, payload-put p)

decode-stable :
    (now now' : ℕ) (t : Text) (p p' : Payload)
    → decode now t ≡ some p
    → decode now' t ≡ some p'
    → p ≡ p'
decode-stable now now' [] p p' h k = cc
decode-stable now now' (e ∷ t) p p' h k = ground arith

abbrev packages : Packages
packages = record {
  encode = encode;
  decode = decode;
  hash = λ salt s. salt ∷ s;
  check = λ s h. text_eq s (drop 1 h);
  str_of_id = λ id. id ∷ [];
  parse_uuid = λ s. head? s;
}

abbrev ada : Account
ada = record {
  id = 1;
  email = text "ada@acme.io";
  password_hash = 9 ∷ text "secret";
  display_name = text "Ada";
  role = text "org_admin";
  organization_id = some 7;
  is_active = true;
}

abbrev database : Database
database = record { users = ada ∷ []; organizations = []; password_reset_tokens = []; mails = [] }

abbrev draw : Draw
draw = record {
  now = 100;
  salt = 5;
  user_id = 2;
  organization_id = 8;
  jti = text "j1";
  sends_mail = true;
}

logged :
    (out : LoginOut) × (login packages 100 (text "ada@acme.io") (text "secret") database ≡ ok out)
unfolding login get_user_by_email text_eq
logged = (_, refl)

abbrev deactivated : Database
deactivated = record database { users = record ada { is_active = false } ∷ [] }

-- The user is deactivated after the login.
login-get_current_user_example :
    (u : Account) × (get_user_by_email (text "ada@acme.io") database ≡ one_row u)
    × (packages.check (text "secret") u.password_hash ≡ true)
    × (u.is_active ≡ true)
    × (get_current_user
          (outside packages (λ t s. false) 200 deactivated)
          (record { auth_enabled = true; api_key = [] })
          (with_token logged.0.access_token)
        ≡ who_is u (get_user_by_id u.id deactivated))
login-get_current_user_example =
    login-get_current_user packages (λ t s. false) (λ id. refl) (λ id. refl) 100 200 []
      (text "ada@acme.io") (text "secret") database deactivated logged.0 decode-encode logged.1
      (omega arith)

abbrev token : Text
token = encode (record {
  type = text "password_reset";
  sub = some (1 ∷ []);
  role = none;
  org_id = none;
  jti = some (text "j1");
  exp = 1900;
})

abbrev forgotten : Database
forgotten = (forgot_password packages draw (text "ada@acme.io") database).1

reset_password-once_example :
    (reset_password packages draw token (text "again") (
      serve_all packages
        (forgets draw (text "ada@acme.io") ∷ reads ∷ [])
        (reset_password packages draw token (text "new") forgotten).1)).0
    ≢ ok done
unfolding forgot_password get_user_by_email get_user_by_id create_password_reset_token
    store_password_reset_token reset_password verify_password_reset_token get_password_reset_token
    text_eq
reset_password-once_example =
    reset_password-once packages draw draw token (text "new") (text "again")
      (forgets draw (text "ada@acme.io") ∷ reads ∷ []) forgotten decode-stable refl
