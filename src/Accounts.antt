-- ===== src/Accounts.antt =====
-- Accounts, their tokens and their passwords: app/services/auth.py. Times are seconds, and ids are
-- numbers with their texts.
pub mod Requests
pub mod Handlers
pub mod Spent
pub mod Resets
pub mod Sessions
mod Tests
use leadpulse.Prelude.{
  ℕ, ◌+◌, ◌*◌, Bool, true, false, not, ◌&&◌, Option, none, some, List, [], ◌∷◌, ◌++◌, if◌then◌else◌,
  ◌==◌, keep_if, map, is_some,
}
use leadpulse.Prelude.Text.{Text, text, text_eq}
use leadpulse.Billing.{Table, text_is}
use leadpulse.Access.{given}

pub record Payload : Type 0 where
  pub type : Text
  pub sub : Option Text
  pub role : Option Text
  pub org_id : Option Text
  pub jti : Option Text
  pub exp : ℕ

-- The packages: `encode` signs a token and `decode` reads one at a time, `hash` takes the salt, and
-- `str_of_id` and `parse_uuid` are `str(id)` and `UUID(text)`.
pub record Packages : Type 0 where
  pub encode : Payload → Text
  pub decode : ℕ → Text → Option Payload
  pub hash : ℕ → Text → Text
  pub check : Text → Text → Bool
  pub str_of_id : ℕ → Text
  pub parse_uuid : Text → Option ℕ

-- A row of users.
pub record Account : Type 0 where
  pub id : ℕ
  pub email : Text
  pub password_hash : Text
  pub display_name : Text
  pub role : Text
  pub organization_id : Option ℕ
  pub is_active : Bool

-- A row of password_reset_tokens.
pub record PasswordResetToken : Type 0 where
  pub user_id : ℕ
  pub jti : Text
  pub expires_at : ℕ
  pub used_at : Option ℕ

-- The tables, and the mails that were sent.
pub record Database : Type 0 where
  pub users : List Account
  pub organizations : Table
  pub password_reset_tokens : List PasswordResetToken
  pub mails : List (Text × Text)

-- `scalar_one_or_none` of the rows of a query.
pub data Selected {ℓ} (A : Type ℓ) : Type ℓ where
  no_row rows : Selected A
  one_row : A → Selected A

abbrev pub selected {ℓ} : {A : Type ℓ} → List A → Selected A
selected [] = no_row
selected (a ∷ []) = one_row a
selected (a ∷ b ∷ bs) = rows

unfoldable pub get_user_by_email : Text → Database → Selected Account
get_user_by_email email db = selected (keep_if (λ u. text_eq u.email email) db.users)

unfoldable pub get_user_by_id : ℕ → Database → Selected Account
get_user_by_id id db = selected (keep_if (λ u. u.id == id) db.users)

abbrev pub has_jti : Text → PasswordResetToken → Bool
has_jti jti r = text_eq r.jti jti

unfoldable pub get_password_reset_token : Text → Database → Selected PasswordResetToken
get_password_reset_token jti db = selected (keep_if (has_jti jti) db.password_reset_tokens)

unfoldable pub store_password_reset_token : Text → ℕ → ℕ → Database → Database
store_password_reset_token jti user expires db = record db {
  password_reset_tokens =
      db.password_reset_tokens
      ++ record { user_id = user; jti = jti; expires_at = expires; used_at = none } ∷ [];
}

abbrev pub mark_used : ℕ → Text → PasswordResetToken → PasswordResetToken
mark_used now jti r =
    if has_jti jti r && not (is_some r.used_at) then record r { used_at = some now } else r

-- `revoke_password_reset_token`; the rows of a jti are at most one.
unfoldable pub revoke_password_reset_token : ℕ → Text → Database → Database
revoke_password_reset_token now jti db = record db {
  password_reset_tokens = map (mark_used now jti) db.password_reset_tokens;
}

module _ (x : Packages) where
  -- The lifetimes are those of the settings: 30 minutes, 30 days and 30 minutes.
  abbrev pub access_payload : ℕ → Account → Payload
  access_payload now u = record {
    type = text "access";
    sub = some (x.str_of_id u.id);
    role = some u.role;
    org_id = (elim u.organization_id [ none ↦ none | some id ↦ some (x.str_of_id id) ]);
    jti = none;
    exp = now + 30 * 60;
  }

  unfoldable pub create_access_token : ℕ → Account → Text
  create_access_token now u = x.encode (access_payload now u)

  unfoldable pub create_refresh_token : ℕ → Account → Text
  create_refresh_token now u = x.encode (record {
    type = text "refresh";
    sub = some (x.str_of_id u.id);
    role = none;
    org_id = none;
    jti = none;
    exp = now + 30 * 86400;
  })

  unfoldable pub create_password_reset_token : ℕ → Text → Account → Text
  create_password_reset_token now jti u = x.encode (record {
    type = text "password_reset";
    sub = some (x.str_of_id u.id);
    role = none;
    org_id = none;
    jti = some jti;
    exp = now + 30 * 60;
  })

  -- What verify_password_reset_token gives: the user and the jti, None, or an exception.
  pub data Verified : Type 0 where
    valid : Account → Text → Verified
    invalid raises : Verified

  abbrev pub of_account : Text → Selected Account → Verified
  of_account jti no_row = invalid
  of_account jti rows = raises
  of_account jti (one_row u) = if u.is_active then valid u jti else invalid

  abbrev pub of_token_row : Text → Text → Database → Selected PasswordResetToken → Verified
  of_token_row jti sub db no_row = invalid
  of_token_row jti sub db rows = raises
  of_token_row jti sub db (one_row r) =
      if is_some r.used_at then invalid else elim (x.parse_uuid sub) [
        | none ↦ raises
        | some id ↦ of_account jti (get_user_by_id id db)
      ]

  abbrev pub of_payload : Database → Payload → Verified
  of_payload db p =
      if not (text_eq p.type (text "password_reset")) then invalid else elim (given p.jti) [
        | none ↦ invalid
        | some jti ↦ elim (given p.sub) [
          | none ↦ invalid
          | some sub ↦ of_token_row jti sub db (get_password_reset_token jti db)
        ]
      ]

  unfoldable pub verify_password_reset_token : ℕ → Text → Database → Verified
  verify_password_reset_token now token db = elim (x.decode now token) [
    | none ↦ invalid
    | some p ↦ of_payload db p
  ]
