-- ===== src/Notifications/Recipients.antt =====
-- Who gets a message of app/services/notifications.py, and what a log shows of a number.
use leadpulse.Prelude.{
  ℕ, any, Bool, true, false, ◌&&◌, ◌||◌, Option, none, some, List, [], ◌∷◌, ◌++◌, ◌≡◌, refl, ◌⊎◌,
  inl, inr, if◌then◌else◌, ◌==◌, keep_if, arith, Bool-cases, Option-cases, head?,
}
use leadpulse.Prelude.TextLaws.{text_eq_refl}
use leadpulse.Billing.{text_is}
use leadpulse.Prelude.Text.{Text, text, text_eq, is_empty}
use leadpulse.Accounts.{Account, selected, Selected, no_row, rows, one_row}
use leadpulse.Domains.Rows.{selected-only}
use leadpulse.Agent.World.{LeadData}
use leadpulse.Agent.State.{Json}
use leadpulse.Notifications.{
  Mail, Sms, SentLog, Providers, Directory, Contact, send_email, send_sms, is_admin_of,
  get_org_admin_email, get_org_notification_phone,
}
use leadpulse.Notifications.Tenant.{
  notify_tenant, notify_with, mail_to, sms_to, first_line, is_hot, lead_summary,
}

-- An address of an admin of the tenant.
abbrev pub IsAdminAddress : Directory → ℕ → Text → Type 0
IsAdminAddress d tenant a = any (λ u. is_admin_of tenant u && text_eq u.email a) d.users ≡ true

-- The number of the tenant.
abbrev pub IsPhone : Directory → ℕ → Text → Type 0
IsPhone d tenant n =
    any (λ o. o.id == tenant && text_is o.notification_phone n) d.organizations ≡ true

-- At most one member is added, and what is added has the property.
abbrev pub Grows {ℓ} : {A : Type ℓ} → (A → Type 0) → List A → List A → Type ℓ
Grows {A = A} P xs ys = (ys ≡ xs) ⊎ ((a : A) × (ys ≡ xs ++ a ∷ []) × P a)

-- The four logs after a call.
abbrev pub SendsTo : Directory → ℕ → SentLog → SentLog → Type 0
SendsTo d tenant o o' =
    Grows (λ m. IsAdminAddress d tenant m.recipient) o.email_log o'.email_log
    × Grows (λ m. IsAdminAddress d tenant m.recipient) o.posted o'.posted
    × Grows (λ m. IsPhone d tenant m.phone) o.stub_sms_log o'.stub_sms_log
    × Grows (λ m. IsPhone d tenant m.phone) o.created o'.created

first-any :
    (p : Account → Bool) (us : List Account) (u : Account)
    → head? (keep_if p us) ≡ some u
    → any (λ v. p v && text_eq v.email u.email) us ≡ true
first-any p [] u h = ground arith
first-any p (v ∷ us) u h = elim (Bool-cases (p v)) [
  | inl e ↦ let same : v ≡ u = ground arith in rw (e, same, text_eq_refl u.email) refl
  | inr e ↦ rw e (first-any p us u (ground arith))
]

get_org_admin_email-IsAdminAddress :
    (tenant : ℕ) (d : Directory) (a : Text)
    → get_org_admin_email tenant d ≡ some a
    → IsAdminAddress d tenant a
unfolding get_org_admin_email
get_org_admin_email-IsAdminAddress tenant d a h =
    elim (Option-cases (head? (keep_if (is_admin_of tenant) d.users))) [
      | inl e ↦ ground arith
      | inr (u, e) ↦
          let same : u.email ≡ a = ground arith in
          rw⁻¹ same (first-any (is_admin_of tenant) d.users u e)
    ]

found-any :
    (tenant : ℕ) (os : List Contact) (o : Contact) (n : Text)
    → selected (keep_if (λ o. o.id == tenant) os) ≡ one_row o
    → o.notification_phone ≡ some n
    → any (λ o. o.id == tenant && text_is o.notification_phone n) os ≡ true
found-any tenant [] o n h e = ground arith
found-any tenant (x ∷ os) o n h e = elim (Bool-cases (x.id == tenant)) [
  | inl t ↦
      let same : x ≡ o = (selected-only (λ o. o.id == tenant) (x ∷ os) o h).0 t in
      rw (t, same, e, text_eq_refl n) refl
  | inr t ↦ rw t (found-any tenant os o n (ground arith) e)
]

get_org_notification_phone-IsPhone :
    (tenant : ℕ) (d : Directory) (n : Text)
    → get_org_notification_phone tenant d ≡ some n
    → IsPhone d tenant n
unfolding get_org_notification_phone
get_org_notification_phone-IsPhone tenant d n h =
    let (o, one, e) = row (selected (keep_if (λ o. o.id == tenant) d.organizations)) refl in
    found-any tenant d.organizations o n one e
  where
    row :
        (s : Selected Contact)
        → selected (keep_if (λ o. o.id == tenant) d.organizations) ≡ s
        → (o : Contact) × (selected (keep_if (λ o. o.id == tenant) d.organizations) ≡ one_row o)
          × (o.notification_phone ≡ some n)
    row no_row e = ground arith
    row rows e = ground arith
    row (one_row o) e = (o, e, ground arith)

-- What mail_to and sms_to send, and the logs of the other channel, which they leave alone.
abbrev Mails : Directory → ℕ → SentLog → SentLog → Type 0
Mails d tenant o o' =
    Grows (λ m. IsAdminAddress d tenant m.recipient) o.email_log o'.email_log
    × Grows (λ m. IsAdminAddress d tenant m.recipient) o.posted o'.posted
    × (o'.stub_sms_log ≡ o.stub_sms_log)
    × (o'.created ≡ o.created)

abbrev Texts : Directory → ℕ → SentLog → SentLog → Type 0
Texts d tenant o o' =
    (o'.email_log ≡ o.email_log)
    × (o'.posted ≡ o.posted)
    × Grows (λ m. IsPhone d tenant m.phone) o.stub_sms_log o'.stub_sms_log
    × Grows (λ m. IsPhone d tenant m.phone) o.created o'.created

mail_to-Mails :
    (p : Providers) (d : Directory) (tenant : ℕ) (to : Option Text) (subject body : Text)
    (o : SentLog)
    → ((a : Text) → to ≡ some a → IsAdminAddress d tenant a)
    → Mails d tenant o (mail_to p to subject body o)
unfolding send_email
mail_to-Mails p d tenant none subject body o h = (inl refl, inl refl, refl, refl)
mail_to-Mails p d tenant (some a) subject body o h = elim (Bool-cases (is_empty a)) [
  | inl e ↦ rw e (inl refl, inl refl, refl, refl)
  | inr e ↦
      let sent : Mail = record { recipient = a; subject = subject; body = body } in
      rw e (elim (Option-cases p.resend) [
        | inl off ↦ rw off (inr (sent, refl, h a refl), inl refl, refl, refl)
        | inr (post, on) ↦ rw on (inl refl, inr (sent, refl, h a refl), refl, refl)
      ])
]

sms_to-Texts :
    (p : Providers) (d : Directory) (tenant : ℕ) (to : Option Text) (body : Text) (o : SentLog)
    → ((n : Text) → to ≡ some n → IsPhone d tenant n)
    → Texts d tenant o (sms_to p to body o)
unfolding send_sms
sms_to-Texts p d tenant none body o h = (refl, refl, inl refl, inl refl)
sms_to-Texts p d tenant (some n) body o h = elim (Bool-cases (is_empty n)) [
  | inl e ↦ rw e (refl, refl, inl refl, inl refl)
  | inr e ↦
      let sent : Sms = record { phone = n; body = body } in
      rw e (elim (Option-cases p.twilio) [
        | inl off ↦ rw off (refl, refl, inr (sent, refl, h n refl), inl refl)
        | inr (create, on) ↦ rw on (refl, refl, inl refl, inr (sent, refl, h n refl))
      ])
]

both :
    (d : Directory) (tenant : ℕ) (o o' o'' : SentLog)
    → Mails d tenant o o'
    → Texts d tenant o' o''
    → SendsTo d tenant o o''
both d tenant o o' o'' (m, q, s, c) (m', q', s', c') = (rw m' m, rw q' q, rw⁻¹ s s', rw⁻¹ c c')

notify_with-SendsTo :
    (p : Providers) (d : Directory) (sms_enabled trigger_email : Bool) (tenant : ℕ)
    (summary : Option (Text × Text)) (o o' : SentLog)
    → notify_with p d sms_enabled trigger_email tenant summary o ≡ some o'
    → SendsTo d tenant o o'
notify_with-SendsTo p d sms trigger tenant none o o' e = cc
notify_with-SendsTo p d sms trigger tenant (some (subject, body)) o o' e =
    let mailed = if trigger then mail_to p (get_org_admin_email tenant d) subject body o else o in
    let sent =
      if sms
      then sms_to p (get_org_notification_phone tenant d) (subject ++ text ". " ++ first_line body)
          mailed
      else mailed in
    let is_sent : sent ≡ o' = ground (arith, e) in
    rw⁻¹ is_sent (both d tenant o mailed sent (mails trigger) (texts sms mailed))
  where
    mails :
        (b : Bool)
        → Mails d tenant o
            (if b then mail_to p (get_org_admin_email tenant d) subject body o else o)
    mails true =
        mail_to-Mails p d tenant (get_org_admin_email tenant d) subject body o
          (get_org_admin_email-IsAdminAddress tenant d)
    mails false = (inl refl, inl refl, refl, refl)

    texts :
        (b : Bool) (x : SentLog)
        → Texts d tenant x (
            if b
            then sms_to p
                (get_org_notification_phone tenant d)
                (subject ++ text ". " ++ first_line body)
                x
            else x)
    texts true x =
        sms_to-Texts p d tenant (get_org_notification_phone tenant d)
          (subject ++ text ". " ++ first_line body) x (get_org_notification_phone-IsPhone tenant d)
    texts false x = (refl, refl, inl refl, inl refl)

-- When `notify_tenant` returns, at most one mail and one text message were sent: the mail to the address of
-- an org_admin of the tenant, the text message to the number of the tenant, whoever else is in
-- the tables; and nothing was sent for a lead that is not hot and has no meeting.
pub notify_tenant-SendsTo :
    (json_text : Json → Text) (p : Providers) (d : Directory) (sms_enabled trigger_email : Bool)
    (tenant : ℕ) (l : LeadData) (o o' : SentLog)
    → notify_tenant json_text p d sms_enabled trigger_email tenant l o ≡ some o'
    → SendsTo d tenant o o' × ((is_hot l.lead_status || l.booking_confirmed) ≡ false → o' ≡ o)
unfolding notify_tenant
notify_tenant-SendsTo json_text p d sms trigger tenant l o o' e =
    elim (Bool-cases (is_hot l.lead_status || l.booking_confirmed)) [
      | inl t ↦ (
        notify_with-SendsTo p d sms trigger tenant (lead_summary json_text l) o o'
            (ground (arith, e, t)),
        λ f. cc (t, f),
      )
      | inr f ↦
          let same : o' ≡ o = ground (arith, e, f) in
          (rw same (inl refl, inl refl, inl refl, inl refl), λ _. same)
    ]
