-- ===== src/Notifications.antt =====
-- Messages to the admin of a tenant: app/services/notifications.py, with app/agent/tools/email.py
-- and app/agent/tools/sms.py.
pub mod Tenant
pub mod Recipients
mod Tests
use leadpulse.Prelude.{
  ℕ, zero, suc, reverse, ◌+◌, ◌-◌, Bool, true, false, not, ◌&&◌, ◌||◌, Option, none, some, List, [],
  ◌∷◌, ◌++◌, if◌then◌else◌, leb, ltb, ◌==◌, keep_if, map, take, drop, length, head?,
}
use leadpulse.Prelude.Text.{
  Text, text, text_eq, is_empty, is_digit, strip, rstrip_slashes, starts_with, strip_left,
}
use leadpulse.Prelude.Decimal.{str_nat}
use leadpulse.Accounts.{Account, Selected, no_row, rows, one_row, selected}
use leadpulse.Scoring.{LeadStatus}
use leadpulse.Agent.State.{Json, null, str, truthy}
use leadpulse.Agent.World.{LeadData}

-- What _mask_phone shows of a number.
abbrev pub stars : ℕ → Text
stars zero = []
stars (suc n) = b'*' ∷ stars n

-- `_mask_phone`, where `\D` is what is no ASCII digit.
unfoldable pub mask_phone : Text → Text
mask_phone phone =
    let digits = keep_if is_digit phone in
    let hidden = length digits - 4 in
    if leb (length digits) 4 then stars (length digits) else stars hidden ++ drop hidden digits

pub record Mail : Type 0 where
  pub recipient : Text
  pub subject : Text
  pub body : Text

pub record Sms : Type 0 where
  pub phone : Text
  pub body : Text

-- The logs of the stubs, and what was handed to Resend and to Twilio.
pub record SentLog : Type 0 where
  pub email_log : List Mail
  pub posted : List Mail
  pub stub_sms_log : List Sms
  pub created : List Sms

-- The `id` and the `status` of the dict that is returned.
pub record Receipt : Type 0 where
  pub id : Option Text
  pub status : Text

abbrev failed_receipt : Receipt
failed_receipt = record { id = none; status = text "failed" }

-- Resend and Twilio, if their keys are set: the message's id and status, or none for an exception.
pub record Providers : Type 0 where
  pub resend : Option (Mail → Option (Option Text))
  pub twilio : Option (Sms → Option (Text × Text))

abbrev posted_receipt : Option (Option Text) → Receipt
posted_receipt none = failed_receipt
posted_receipt (some i) = record { id = i; status = text "sent" }

abbrev created_receipt : Option (Text × Text) → Receipt
created_receipt none = failed_receipt
created_receipt (some (sid, state)) = record { id = some sid; status = state }

-- `send_email`
unfoldable pub send_email : Providers → Mail → SentLog → Receipt × SentLog
send_email p m o = elim p.resend [
  | none ↦ (
    record { id = some (text "stub-" ++ str_nat (length o.email_log)); status = text "sent" },
    record o { email_log = o.email_log ++ m ∷ [] },
  )
  | some post ↦ (posted_receipt (post m), record o { posted = o.posted ++ m ∷ [] })
]

-- `send_sms`
unfoldable pub send_sms : Providers → Sms → SentLog → Receipt × SentLog
send_sms p m o = elim p.twilio [
  | none ↦ (
    record { id = some (text "stub-" ++ str_nat (length o.stub_sms_log)); status = text "sent" },
    record o { stub_sms_log = o.stub_sms_log ++ m ∷ [] },
  )
  | some create ↦ (created_receipt (create m), record o { created = o.created ++ m ∷ [] })
]

-- What is read of a row of organizations.
pub record Contact : Type 0 where
  pub id : ℕ
  pub notification_phone : Option Text

-- The rows of users, in the order of created_at, and those of organizations; either query may fail.
pub record Directory : Type 0 where
  pub users : List Account
  pub organizations : List Contact
  pub users_fail : Bool
  pub organizations_fail : Bool

abbrev is_of : Option ℕ → ℕ → Bool
is_of none t = false
is_of (some o) t = o == t

abbrev pub is_admin_of : ℕ → Account → Bool
is_admin_of tenant u = is_of u.organization_id tenant && text_eq u.role (text "org_admin")

abbrev email_of : Option Account → Option Text
email_of none = none
email_of (some u) = some u.email

-- `get_org_admin_email`
unfoldable pub get_org_admin_email : ℕ → Directory → Option Text
get_org_admin_email tenant d =
    if d.users_fail then none else email_of (head? (keep_if (is_admin_of tenant) d.users))

abbrev phone_of : Selected Contact → Option Text
phone_of no_row = none
phone_of rows = none
phone_of (one_row o) = o.notification_phone

-- `get_org_notification_phone`
unfoldable pub get_org_notification_phone : ℕ → Directory → Option Text
get_org_notification_phone tenant d =
    if d.organizations_fail
    then none
    else phone_of (selected (keep_if (λ o. o.id == tenant) d.organizations))

-- `password_reset_url`, with the setting app_hostname.
unfoldable pub password_reset_url : Option Text → Text → Text
password_reset_url hostname token =
    let host = strip (elim hostname [ none ↦ [] | some h ↦ h ]) in
    let based =
      if starts_with (text "http://") host || starts_with (text "https://") host
      then host
      else text "https://" ++ host in
    if is_empty host then token else rstrip_slashes based ++ text "/auth/reset?token=" ++ token

abbrev reset_body : Bool → Text → Text → Text → Text
reset_body true token url minutes =
    text "Use this one-time code to reset your LeadPulse password:\n\n"
    ++ token
    ++ text "\n\nIt expires in "
    ++ minutes
    ++ text " minutes. If you didn't request this, you can safely ignore this email."
reset_body false token url minutes =
    text "Click the link below to reset your LeadPulse password. It is valid for "
    ++ minutes
    ++ text " minutes.\n\n"
    ++ url
    ++ text "\n\nIf you didn't request this, you can safely ignore this email."

-- `send_password_reset_email`, with the setting password_reset_token_ttl_minutes.
unfoldable pub send_password_reset_email :
    Providers → Option Text → ℕ → Text → Text → SentLog → Receipt × SentLog
send_password_reset_email p hostname ttl recipient token o =
    let url = password_reset_url hostname token in
    send_email p
      (record {
        recipient = recipient;
        subject = text "Reset your LeadPulse password";
        body = reset_body (text_eq url token) token url (str_nat ttl);
      })
      o
