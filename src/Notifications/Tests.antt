-- ===== src/Notifications/Tests.antt =====
-- A hot lead of a tenant with an admin and a number, a masked number, and links of a reset.
use leadpulse.Prelude.{true, false, ◌||◌, none, some, [], ◌∷◌, ◌≡◌, refl}
use leadpulse.Prelude.Text.{text, text_eq, strip, strip_left, rstrip_slashes, starts_with}
use leadpulse.Accounts.{Account}
use leadpulse.Scoring.{LeadStatus}
use leadpulse.Agent.State.{null, str}
use leadpulse.Agent.World.{LeadData}
use leadpulse.Notifications.{
  SentLog, Providers, Directory, mask_phone, password_reset_url, send_email, send_sms,
  get_org_admin_email, get_org_notification_phone,
}
use leadpulse.Notifications.Tenant.{notify_tenant, lead_summary, first_line, is_hot}
use leadpulse.Notifications.Recipients.{notify_tenant-SendsTo, SendsTo}

abbrev admin : Account
admin = record {
  id = 5;
  email = text "boss@acme.com";
  password_hash = [];
  display_name = text "Boss";
  role = text "org_admin";
  organization_id = some 1;
  is_active = true;
}

abbrev directory : Directory
directory = record {
  users = record admin { email = text "other@else.com"; organization_id = some 2 } ∷ admin ∷ [];
  organizations = record { id = 1; notification_phone = some (text "+15550002345") } ∷ [];
  users_fail = false;
  organizations_fail = false;
}

abbrev stubs : Providers
stubs = record { resend = none; twilio = none }

abbrev nothing_sent : SentLog
nothing_sent = record { email_log = []; posted = []; stub_sms_log = []; created = [] }

abbrev hot_lead : LeadData
hot_lead = record {
  lead = record {
    lead_name = str (text "Ann");
    company_name = str (text "Acme");
    industry = null;
    budget = none;
    timeline = null;
    problem_statement = null;
  };
  qualification_score = none;
  lead_status = some LeadStatus.hot;
  meeting_time = none;
  booking_confirmed = false;
  human_escalated = false;
}

abbrev sent : SentLog
sent = record {
  email_log =
      record {
        recipient = text "boss@acme.com";
        subject = text "Hot lead: Ann";
        body =
            text
              "Lead: Ann (Acme)\nStatus: hot\n\nReply in the LeadPulse dashboard for full context.";
      }
      ∷ [];
  posted = [];
  stub_sms_log =
      record { phone = text "+15550002345"; body = text "Hot lead: Ann. Lead: Ann (Acme)" } ∷ [];
  created = [];
}

notified : notify_tenant (λ _. []) stubs directory true true 1 hot_lead nothing_sent ≡ some sent
unfolding notify_tenant lead_summary get_org_admin_email get_org_notification_phone send_email
    send_sms first_line text_eq
notified = refl

notify_tenant-SendsTo_example :
    SendsTo directory 1 nothing_sent sent
    × ((is_hot hot_lead.lead_status || hot_lead.booking_confirmed) ≡ false → sent ≡ nothing_sent)
notify_tenant-SendsTo_example =
    notify_tenant-SendsTo (λ _. []) stubs directory true true 1 hot_lead nothing_sent sent notified

masked : mask_phone (text "+1 (555) 000-2345") ≡ text "*******2345"
unfolding mask_phone
masked = refl

link :
    password_reset_url (some (text " app.leadpulse.ai/ ")) (text "t0k")
    ≡ text "https://app.leadpulse.ai/auth/reset?token=t0k"
unfolding password_reset_url rstrip_slashes strip strip_left starts_with
link = refl
