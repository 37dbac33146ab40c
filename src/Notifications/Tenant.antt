-- ===== src/Notifications/Tenant.antt =====
-- notify_tenant of app/services/notifications.py, which end_conversation_node calls.
use leadpulse.Prelude.{
  ℕ, Bool, true, false, ◌&&◌, ◌||◌, Option, none, some, [], ◌∷◌, ◌++◌, if◌then◌else◌, leb, ◌==◌,
}
use leadpulse.Prelude.Text.{Text, text, is_empty}
use leadpulse.Scoring.{LeadStatus}
use leadpulse.Agent.State.{Json, str, truthy}
use leadpulse.Agent.World.{LeadData}
use leadpulse.Notifications.{
  SentLog, Providers, Directory, send_email, send_sms, get_org_admin_email,
  get_org_notification_phone,
}

abbrev pub is_hot : Option LeadStatus → Bool
is_hot (some LeadStatus.hot) = true
is_hot _ = false

abbrev status_text : Option LeadStatus → Text
status_text none = text "unknown"
status_text (some LeadStatus.hot) = text "hot"
status_text (some LeadStatus.warm) = text "warm"
status_text (some LeadStatus.cold) = text "cold"
status_text (some LeadStatus.unqualified) = text "unqualified"

-- `state.get("lead_name") or "A lead"` added to a text: none for the TypeError of another value.
abbrev pub lead_title : Json → Option Text
lead_title (str s) = some (if is_empty s then text "A lead" else s)
lead_title j = if truthy j then none else some (text "A lead")

-- `f"{value}"`, with `json_text` for a value that is no text.
abbrev formatted : (Json → Text) → Json → Text
formatted json_text (str s) = s
formatted json_text j = json_text j

abbrev company_part : (Json → Text) → Json → Text
company_part json_text company =
    if truthy company then text " (" ++ formatted json_text company ++ text ")" else []

abbrev meeting_part : Option Text → Text
meeting_part none = []
meeting_part (some t) = if is_empty t then [] else text "\nMeeting: " ++ t

abbrev summary_of : (Json → Text) → LeadData → Option Text → Option (Text × Text)
summary_of json_text d none = none
summary_of json_text d (some name) = some (
  (if is_hot d.lead_status then text "Hot lead: " else text "Meeting booked: ") ++ name,
  text "Lead: "
      ++ name
      ++ company_part json_text d.lead.company_name
      ++ text "\nStatus: "
      ++ status_text d.lead_status
      ++ meeting_part d.meeting_time
      ++ text "\n\nReply in the LeadPulse dashboard for full context.",
)

-- `_lead_summary`: the subject and the body, or none for its TypeError.
unfoldable pub lead_summary : (Json → Text) → LeadData → Option (Text × Text)
lead_summary json_text d = summary_of json_text d (lead_title d.lead.lead_name)

-- The line breaks of `str.splitlines`.
abbrev is_break : ℕ → Bool
is_break c = (leb 10 c && leb c 13) || (leb 28 c && leb c 30) || c == 133 || c == 8232 || c == 8233

-- `s.splitlines()[0]` of a text that is not empty.
unfoldable pub first_line : Text → Text
first_line [] = []
first_line (c ∷ s) = if is_break c then [] else c ∷ first_line s

-- A recipient that is None or empty is none.
abbrev pub mail_to : Providers → Option Text → Text → Text → SentLog → SentLog
mail_to p none subject body o = o
mail_to p (some a) subject body o =
    if is_empty a
    then o
    else (send_email p (record { recipient = a; subject = subject; body = body }) o).1

abbrev pub sms_to : Providers → Option Text → Text → SentLog → SentLog
sms_to p none body o = o
sms_to p (some n) body o =
    if is_empty n then o else (send_sms p (record { phone = n; body = body }) o).1

abbrev pub notify_with :
    Providers → Directory → Bool → Bool → ℕ → Option (Text × Text) → SentLog → Option SentLog
notify_with p d sms_enabled trigger_email tenant none o = none
notify_with p d sms_enabled trigger_email tenant (some (subject, body)) o =
    let mailed =
      if trigger_email then mail_to p (get_org_admin_email tenant d) subject body o else o in
    some (
      if sms_enabled
      then sms_to p (get_org_notification_phone tenant d) (subject ++ text ". " ++ first_line body)
          mailed
      else mailed)

-- `notify_tenant`: what was sent, or none for an exception.
unfoldable pub notify_tenant :
    (Json → Text) → Providers → Directory → Bool → Bool → ℕ → LeadData → SentLog → Option SentLog
notify_tenant json_text p d sms_enabled trigger_email tenant l o =
    if is_hot l.lead_status || l.booking_confirmed
    then notify_with p d sms_enabled trigger_email tenant (lead_summary json_text l) o
    else some o
