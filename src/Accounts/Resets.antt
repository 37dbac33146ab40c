-- ===== src/Accounts/Resets.antt =====
-- A token resets a password once: app/api/auth.py and app/services/auth.py.
use leadpulse.Prelude.{
  ℕ, Bool, true, false, ◌≡◌, ◌≢◌, ◌⊎◌, refl, sym, inl, inr, some, List, is_some, Bool-cases,
  Option-cases, arith,
}
use leadpulse.Prelude.Text.{Text, text, text_eq}
use leadpulse.Access.{given}
use leadpulse.Accounts.{
  Packages, Payload, Account, PasswordResetToken, Database, Selected, no_row, rows, one_row,
  get_password_reset_token, get_user_by_id, revoke_password_reset_token, Verified, valid, invalid,
  raises, of_token_row, of_payload, of_account, verify_password_reset_token,
}
use leadpulse.Accounts.Handlers.{reset_password, AccountRequest, serve_all}
use leadpulse.Accounts.Requests.{ok, done, Draw}
use leadpulse.Accounts.Spent.{is_spent, any-marked, any-listed, only-used, serve_all-is_spent}

module _ (x : Packages) where
  -- What a token of a valid reset is in the database.
  abbrev IsUnspent : Text → Database → Type 0
  IsUnspent jti db =
      (r : PasswordResetToken) × (get_password_reset_token jti db ≡ one_row r)
      × (is_some r.used_at ≡ false)

  of_token_row-valid :
      (jti sub j : Text) (u : Account) (db : Database) (s : Selected PasswordResetToken)
      → get_password_reset_token jti db ≡ s
      → of_token_row x jti sub db s ≡ valid u j
      → (jti ≡ j) × IsUnspent jti db
  of_token_row-valid jti sub j u db no_row e h = cc
  of_token_row-valid jti sub j u db rows e h = cc
  of_token_row-valid jti sub j u db (one_row r) e h = elim (Bool-cases (is_some r.used_at)) [
    | inl spent ↦ ground arith
    | inr fresh ↦ elim (Option-cases (x.parse_uuid sub)) [
      | inl bad ↦ ground arith
      | inr (id, read) ↦
          (of_account-valid jti j u (get_user_by_id id db) (ground arith), (r, e, fresh))
    ]
  ]
    where
      of_account-valid :
          (jti j : Text) (u : Account) (s : Selected Account)
          → of_account x jti s ≡ valid u j
          → jti ≡ j
      of_account-valid jti j u no_row h = cc
      of_account-valid jti j u rows h = cc
      of_account-valid jti j u (one_row v) h = ground arith

  of_payload-valid :
      (p : Payload) (u : Account) (j : Text) (db : Database)
      → of_payload x db p ≡ valid u j
      → (given p.jti ≡ some j) × IsUnspent j db
  of_payload-valid p u j db h = elim (Bool-cases (text_eq p.type (text "password_reset"))) [
    | inr e ↦ ground arith
    | inl e ↦ elim (Option-cases (given p.jti)) [
      | inl f ↦ ground arith
      | inr (jti, f) ↦ elim (Option-cases (given p.sub)) [
        | inl g ↦ ground arith
        | inr (sub, g) ↦
            let (same, fresh) =
              of_token_row-valid jti sub j u db (get_password_reset_token jti db) refl
                (ground arith) in
            rw (sym same) (f, fresh)
      ]
    ]
  ]

  marks :
      (d : Draw) (token password jti : Text) (u : Account) (db : Database)
      → IsUnspent jti db
      → verify_password_reset_token x d.now token db ≡ valid u jti
      → is_spent jti (reset_password x d token password db).1 ≡ true
  unfolding reset_password revoke_password_reset_token get_password_reset_token
  marks d token password jti u db (r, e, fresh) v =
      rw v (
        any-marked d.now jti db.password_reset_tokens (any-listed jti db.password_reset_tokens r e))

  abbrev reset_fails : Verified x → Bool
  reset_fails (valid u jti) = false
  reset_fails invalid = true
  reset_fails raises = true

  Verified-cases :
      (v : Verified x) → (reset_fails v ≡ true) ⊎ ((u : Account) × (jti : Text) × (v ≡ valid u jti))
  Verified-cases (valid u jti) = inr (u, jti, refl)
  Verified-cases invalid = inl refl
  Verified-cases raises = inl refl

  -- A reset that succeeds decoded a token whose jti has one row, not used before and used then.
  pub reset_password-ok :
      (d : Draw) (token password : Text) (db : Database)
      → (reset_password x d token password db).0 ≡ ok done
      → (p : Payload) × (jti : Text) × (x.decode d.now token ≡ some p)
        × (given p.jti ≡ some jti)
        × IsUnspent jti db
        × (is_spent jti (reset_password x d token password db).1 ≡ true)
  unfolding reset_password verify_password_reset_token
  reset_password-ok d token password db h = elim (Option-cases (x.decode d.now token)) [
    | inl e ↦ ground arith
    | inr (p, e) ↦ elim (Verified-cases (of_payload x db p)) [
      | inl bad ↦ ground arith
      | inr (u, jti, good) ↦
          let (known, fresh) = of_payload-valid p u jti db good in
          (p, jti, e, known, fresh, marks d token password jti u db fresh (ground arith))
    ]
  ]

  -- Once a token has reset a password it never does again, whatever registrations, requests for
  -- tokens and resets come between, at any later or earlier time. The claims of a token are taken
  -- to be the same at all times at which it decodes.
  pub reset_password-once :
      (d d' : Draw) (token password password' : Text) (qs : List (AccountRequest x)) (db : Database)
      → ((now now' : ℕ) (t : Text) (p p' : Payload)
          → x.decode now t ≡ some p
          → x.decode now' t ≡ some p'
          → p ≡ p')
      → (reset_password x d token password db).0 ≡ ok done
      → (reset_password x d' token password'
          (serve_all x qs (reset_password x d token password db).1)).0
        ≢ ok done
  unfolding get_password_reset_token
  reset_password-once d d' token password password' qs db stable first second =
      let (p, jti, decoded, known, fresh, spent) = reset_password-ok d token password db first in
      let after = serve_all x qs (reset_password x d token password db).1 in
      let (p', jti', decoded', known', (r, e, unused), spent') =
        reset_password-ok d' token password' after second in
      let same = stable d.now d'.now token p p' decoded decoded' in
      let still = serve_all-is_spent x qs jti (reset_password x d token password db).1 spent in
      let one : jti ≡ jti' = ground arith in
      ground (arith, only-used jti' after.password_reset_tokens r e, still)
