-- ===== src/Accounts/Requests.antt =====
-- The bodies of the requests about accounts and of their answers: app/api/auth.py.
use leadpulse.Prelude.{ℕ, Bool, Option}
use leadpulse.Prelude.Text.{Text}

-- A response, the status of an HTTPException, or an exception that nothing catches.
pub data Reply {ℓ} (A : Type ℓ) : Type ℓ where
  ok : A → Reply A
  http : ℕ → Reply A
  crashed : Reply A

pub record LoginOut : Type 0 where
  pub access_token : Text
  pub refresh_token : Text
  pub user_id : Text
  pub role : Text
  pub organization_id : Option Text

pub record RegisterIn : Type 0 where
  pub email : Text
  pub password : Text
  pub display_name : Text
  pub organization_name : Option Text

pub record RegisterOut : Type 0 where
  pub user_id : Text
  pub email : Text
  pub role : Text
  pub organization_id : Option Text

-- ForgotPasswordOut and ResetPasswordOut.
pub data Done : Type 0 where
  done : Done

-- What a request draws: the time, a salt, the ids of new rows, a jti, and whether a mail can be sent.
pub record Draw : Type 0 where
  pub now : ℕ
  pub salt : ℕ
  pub user_id : ℕ
  pub organization_id : ℕ
  pub jti : Text
  pub sends_mail : Bool
