-- ===== src/Crm/Ams360.antt =====
-- The client of AMS360: app/integrations/ams360.py.
use leadpulse.Prelude.{
  ℕ, Bool, true, false, ◌||◌, Option, none, some, List, [], ◌++◌, if◌then◌else◌, take,
}
use leadpulse.Prelude.Text.{Text, text, is_empty, strip}
use leadpulse.Agent.State.{Json, null, str, truthy}
use leadpulse.Crm.{Dict, get_or, PushResult, apply_field_mapping, Attempt, returned, raised}
use leadpulse.Crm.Fub.{split_name, failure}
use leadpulse.Crm.Kvcore.{LeadReply, created, error_status, broken}

pub record Ams360Config : Type 0 where
  pub api_key : Text
  pub api_secret : Text
  pub agency_id : Text
  pub field_mapping : List (Text × Text)

pub record Ams360Client : Type 0 where
  pub first_name : Text
  pub last_name : Text
  pub company_name : Json
  pub type : Json
  pub notes : Json
  pub industry : Json
  pub budget : Json
  pub timeline : Json
  pub qualification_score : Json
  pub lead_status : Json
  pub meeting_booked : Json

-- The answers to the requests of one call: whether the login succeeded, with the token it gave, and
-- the answer to the post, for an agency or for none.
pub record Ams360Service : Type 0 where
  pub authenticates : Option (Option Text)
  pub creates : Option Text → Option Text → Ams360Client → LeadReply
  pub str_of : Json → Text
  pub str_nat : ℕ → Text

-- What a client holds between its calls.
pub record Ams360Session : Type 0 where
  pub token : Option Text
  pub connected : Bool

unfoldable pub connect_ams360 : Ams360Service → Ams360Config → Ams360Session → Bool × Ams360Session
connect_ams360 w c s =
    if is_empty c.api_key || is_empty c.api_secret then (false, s) else elim w.authenticates [
      | none ↦ (false, s)
      | some token ↦ (true, record { token = token; connected = true })
    ]

-- The two parts of the stripped name; none is the exception of a name that is not a text.
unfoldable pub full_names : Json → Option (Text × Text)
full_names (str s) = some (split_name (strip s))
full_names v = if truthy v then none else some ([], [])

abbrev ams360_client : Dict → Text × Text → Ams360Client
ams360_client d n =
    let blank = str [] in
    record {
      first_name = n.0;
      last_name = n.1;
      company_name = get_or blank (text "company_name") d;
      type = get_or (str (text "individual")) (text "lead_type") d;
      notes = get_or blank (text "problem_statement") d;
      industry = get_or blank (text "industry") d;
      budget = get_or null (text "budget") d;
      timeline = get_or null (text "timeline") d;
      qualification_score = get_or null (text "qualification_score") d;
      lead_status = get_or (str (text "new")) (text "lead_status") d;
      meeting_booked = get_or (Json.bool false) (text "booking_confirmed") d;
    }

unfoldable pub ams360_payload : Ams360Config → Dict → Option Ams360Client
ams360_payload c lead_data =
    let mapped = apply_field_mapping c.field_mapping lead_data in
    elim (full_names (get_or (str []) (text "lead_name") mapped)) [
      | none ↦ none
      | some n ↦ some (ams360_client mapped n)
    ]

abbrev of_client_reply : Ams360Service → LeadReply → PushResult
of_client_reply w (created id) = record {
  success = true;
  external_id = some (str (w.str_of id));
  status = text "pushed";
  error_message = none;
}
of_client_reply w (error_status code t) = failure (text "http_" ++ w.str_nat code) (take 500 t)
of_client_reply w (broken t) = failure (text "error") t

abbrev agency : Ams360Config → Option Text
agency c = if is_empty c.agency_id then none else some c.agency_id

unfoldable pub push_ams360 :
    Ams360Service → Ams360Config → Dict → Ams360Session → Attempt PushResult × Ams360Session
unfolding connect_ams360 ams360_payload
push_ams360 w c lead_data s =
    let (up, s') = if s.connected then (true, s) else connect_ams360 w c s in
    if up
    then (
      elim (ams360_payload c lead_data) [
        | none ↦ raised (text "AttributeError")
        | some p ↦ returned (of_client_reply w (w.creates s'.token (agency c) p))
      ],
      s',
    )
    else (returned (failure (text "connect_failed") (text "Could not connect to AMS360")), s')
