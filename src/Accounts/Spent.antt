-- ===== src/Accounts/Spent.antt =====
-- Used tokens stay used: app/api/auth.py and app/services/auth.py.
use leadpulse.Prelude.{
  ℕ, ◌+◌, ◌*◌, Bool, true, false, ◌&&◌, ◌≡◌, refl, inl, inr, Option, none, some, List, [], ◌∷◌,
  ◌++◌, map, any, keep_if, is_some, Bool-cases, Option-cases, arith,
}
use leadpulse.Prelude.Text.{Text}
use leadpulse.Prelude.TextLaws.{text_eq_refl}
use leadpulse.Access.{given}
use leadpulse.Slugs.{slugify, unique_slug}
use leadpulse.Accounts.{
  create_password_reset_token, Packages, Payload, Account, PasswordResetToken, Database, Selected,
  no_row, rows, one_row, selected, has_jti, mark_used, get_user_by_email,
  store_password_reset_token, revoke_password_reset_token, Verified, valid, invalid, raises,
  verify_password_reset_token,
}
use leadpulse.Accounts.Handlers.{
  register_with, store_and_mail, forgot_with, register, forgot_password, reset_password, reset_with,
  AccountRequest, registers, forgets, resets, reads, serve, serve_all, create_user,
  create_organization,
}
use leadpulse.Accounts.Requests.{Draw, RegisterIn}

-- The jti has a row that is used.
abbrev pub used : Text → PasswordResetToken → Bool
used jti r = has_jti jti r && is_some r.used_at

abbrev pub is_spent : Text → Database → Bool
is_spent jti db = any (used jti) db.password_reset_tokens

any-append-left :
    (p : PasswordResetToken → Bool) (rs ss : List PasswordResetToken)
    → any p rs ≡ true
    → any p (rs ++ ss) ≡ true
any-append-left p [] ss h = cc
any-append-left p (r ∷ rs) ss h = ground (arith, any-append-left p rs ss)

mark_used-used :
    (now : ℕ) (jti j : Text) (r : PasswordResetToken)
    → used j r ≡ true
    → used j (mark_used now jti r) ≡ true
mark_used-used now jti j r h = ground arith

any-mark_used :
    (now : ℕ) (jti j : Text) (rs : List PasswordResetToken)
    → any (used j) rs ≡ true
    → any (used j) (map (mark_used now jti) rs) ≡ true
any-mark_used now jti j [] h = cc
any-mark_used now jti j (r ∷ rs) h = elim (Bool-cases (used j r)) [
  | inl e ↦ ground (arith, mark_used-used now jti j r e)
  | inr e ↦ ground (arith, any-mark_used now jti j rs)
]

pub any-marked :
    (now : ℕ) (jti : Text) (rs : List PasswordResetToken)
    → any (has_jti jti) rs ≡ true
    → any (used jti) (map (mark_used now jti) rs) ≡ true
any-marked now jti [] h = cc
any-marked now jti (r ∷ rs) h = elim (Bool-cases (has_jti jti r)) [
  | inl e ↦ elim (Option-cases r.used_at) [
    | inl f ↦ ground (arith, text_eq_refl jti)
    | inr (at, f) ↦ ground arith
  ]
  | inr e ↦ ground (arith, any-marked now jti rs)
]

any-unlisted :
    (jti : Text) (rs : List PasswordResetToken)
    → keep_if (has_jti jti) rs ≡ []
    → any (used jti) rs ≡ false
any-unlisted jti [] h = refl
any-unlisted jti (r ∷ rs) h = elim (Bool-cases (has_jti jti r)) [
  | inl e ↦ ground arith
  | inr e ↦ ground (arith, any-unlisted jti rs)
]

selected-cons :
    (s : PasswordResetToken) (rs : List PasswordResetToken) (r : PasswordResetToken)
    → selected (s ∷ rs) ≡ one_row r
    → (rs ≡ []) × (s ≡ r)
selected-cons s [] r h = (refl, ground arith)
selected-cons s (t ∷ rs) r h = cc

pub any-listed :
    (jti : Text) (rs : List PasswordResetToken) (r : PasswordResetToken)
    → selected (keep_if (has_jti jti) rs) ≡ one_row r
    → any (has_jti jti) rs ≡ true
any-listed jti [] r h = cc
any-listed jti (s ∷ rs) r h = elim (Bool-cases (has_jti jti s)) [
  | inl e ↦ ground arith
  | inr e ↦ ground (arith, any-listed jti rs r)
]

pub only-used :
    (jti : Text) (rs : List PasswordResetToken) (r : PasswordResetToken)
    → selected (keep_if (has_jti jti) rs) ≡ one_row r
    → any (used jti) rs ≡ true
    → is_some r.used_at ≡ true
only-used jti [] r h u = cc
only-used jti (s ∷ rs) r h u = elim (Bool-cases (has_jti jti s)) [
  | inl e ↦
      let (nothing, same) = selected-cons s (keep_if (has_jti jti) rs) r (ground arith) in
      ground (arith, any-unlisted jti rs nothing)
  | inr e ↦ only-used jti rs r (ground arith) (ground arith)
]

module _ (x : Packages) where
  register_with-tokens :
      (d : Draw) (q : RegisterIn) (s : Selected Account) (db : Database)
      → (register_with x d q s db).1.password_reset_tokens ≡ db.password_reset_tokens
  unfolding create_user create_organization
  register_with-tokens d q rows db = refl
  register_with-tokens d q (one_row u) db = refl
  register_with-tokens d q no_row db = elim (Option-cases (given q.organization_name)) [
    | inl e ↦ ground arith
    | inr (name, e) ↦ elim (Option-cases (unique_slug (slugify name) db.organizations)) [
      | inl f ↦ ground arith
      | inr (slug, f) ↦ ground arith
    ]
  ]

  store_and_mail-is_spent :
      (d : Draw) (u : Account) (token jti : Text) (p : Option Payload) (db : Database)
      → is_spent jti db ≡ true
      → is_spent jti (store_and_mail x d u token p db) ≡ true
  unfolding store_password_reset_token
  store_and_mail-is_spent d u token jti none db h = h
  store_and_mail-is_spent d u token jti (some p) db h = elim (Option-cases p.jti) [
    | inl e ↦ ground arith
    | inr (j, e) ↦ ground (
      arith,
      any-append-left (used jti) db.password_reset_tokens
          (record { user_id = u.id; jti = j; expires_at = d.now + 30 * 60; used_at = none } ∷ []),
    )
  ]

  forgot_with-is_spent :
      (d : Draw) (jti : Text) (s : Selected Account) (db : Database)
      → is_spent jti db ≡ true
      → is_spent jti (forgot_with x d s db).1 ≡ true
  forgot_with-is_spent d jti no_row db h = h
  forgot_with-is_spent d jti rows db h = h
  forgot_with-is_spent d jti (one_row u) db h = elim (Bool-cases u.is_active) [
    | inr e ↦ ground arith
    | inl e ↦
        let token = create_password_reset_token x d.now d.jti u in
        ground (arith, store_and_mail-is_spent d u token jti (x.decode d.now token) db h)
  ]

  reset_with-is_spent :
      (d : Draw) (password jti : Text) (v : Verified x) (db : Database)
      → is_spent jti db ≡ true
      → is_spent jti (reset_with x d password v db).1 ≡ true
  unfolding revoke_password_reset_token
  reset_with-is_spent d password jti (valid u j) db h =
      any-mark_used d.now j jti db.password_reset_tokens h
  reset_with-is_spent d password jti invalid db h = h
  reset_with-is_spent d password jti raises db h = h

  serve-is_spent :
      (q : AccountRequest x) (jti : Text) (db : Database)
      → is_spent jti db ≡ true
      → is_spent jti (serve x q db) ≡ true
  unfolding serve register forgot_password reset_password
  serve-is_spent reads jti db h = h
  serve-is_spent (registers d q) jti db h =
      rw (register_with-tokens d q (get_user_by_email q.email db) db) h
  serve-is_spent (forgets d email) jti db h =
      forgot_with-is_spent d jti (get_user_by_email email db) db h
  serve-is_spent (resets d token password) jti db h =
      reset_with-is_spent d password jti (verify_password_reset_token x d.now token db) db h

  pub serve_all-is_spent :
      (qs : List (AccountRequest x)) (jti : Text) (db : Database)
      → is_spent jti db ≡ true
      → is_spent jti (serve_all x qs db) ≡ true
  unfolding serve_all
  serve_all-is_spent [] jti db h = h
  serve_all-is_spent (q ∷ qs) jti db h =
      serve_all-is_spent qs jti (serve x q db) (serve-is_spent q jti db h)
