-- ===== src/Crm/Fub.antt =====
-- The client of Follow Up Boss: app/integrations/fub.py.
use leadpulse.Prelude.{
  ℕ, zero, suc, Bool, true, false, ◌||◌, Option, none, some, List, [], ◌∷◌, ◌++◌, if◌then◌else◌,
  ◌==◌, take,
}
use leadpulse.Prelude.Text.{Text, text, text_eq, is_empty}
use leadpulse.Agent.State.{Json, null, str, truthy}
use leadpulse.Crm.{Dict, get_or, PushResult, apply_field_mapping, Attempt, returned, raised}

abbrev pub cons_part : ℕ → Text × Text → Text × Text
cons_part c (first, rest) = (c ∷ first, rest)

-- The first part of `s.split(" ")`, and the other parts joined by spaces again: the text up to the
-- first space, and the text after it.
unfoldable pub split_name : Text → Text × Text
split_name [] = ([], [])
split_name (c ∷ s) = let rest = split_name s in if c == b' ' then ([], s) else cons_part c rest

pub record CustomFields : Type 0 where
  pub industry : Json
  pub budget : Text
  pub timeline : Json
  pub problem_statement : Json
  pub qualification_score : Text
  pub meeting_booked : Text

-- `company` is none where it was removed.
pub record Person : Type 0 where
  pub first_name : Text
  pub last_name : Text
  pub company : Option Json
  pub source : Text
  pub lead_status : Json
  pub custom : CustomFields

pub record Client : Type 0 where
  pub api_key : Text
  pub source : Text
  pub field_mapping : List (Text × Text)

-- What the service answers to a request: its JSON with the id, an error status with its text, or an
-- exception of the HTTP client.
pub data CrmResponse : Type 0 where
  ok : Json → CrmResponse
  http_status : ℕ → Text → CrmResponse
  broken : Text → CrmResponse

-- The answers to the requests of one call, and the texts of values and numbers.
pub record Service : Type 0 where
  pub settings : CrmResponse
  pub people : Person → CrmResponse
  pub str_of : Json → Text
  pub str_nat : ℕ → Text

-- The name of the person; none is the exception of a name that is not a text.
unfoldable pub names : Json → Option (Text × Text)
unfolding split_name
names (str s) = some (split_name s)
names v = if truthy v then none else some ([], [])

abbrev pub names_individual : Json → Bool
names_individual (str s) = text_eq s (text "individual")
names_individual _ = false

abbrev pub person : Service → Text → Dict → Text × Text → Person
person w source d (first, last) =
    let blank = str [] in
    record {
      first_name = first;
      last_name = last;
      company =
          if names_individual (get_or null (text "lead_type") d)
          then none
          else some (get_or blank (text "company_name") d);
      source = source;
      lead_status = get_or (str (text "new")) (text "lead_status") d;
      custom = record {
        industry = get_or blank (text "industry") d;
        budget = w.str_of (get_or blank (text "budget") d);
        timeline = get_or blank (text "timeline") d;
        problem_statement = get_or blank (text "problem_statement") d;
        qualification_score = w.str_of (get_or blank (text "qualification_score") d);
        meeting_booked = w.str_of (get_or (Json.bool false) (text "booking_confirmed") d);
      };
    }

unfoldable pub build_payload : Service → Client → Dict → Option Person
unfolding apply_field_mapping names
build_payload w c lead_data =
    let mapped = apply_field_mapping c.field_mapping lead_data in
    elim (names (get_or (str []) (text "lead_name") mapped)) [
      | none ↦ none
      | some n ↦ some (person w c.source mapped n)
    ]

abbrev pub is_ok : CrmResponse → Bool
is_ok (ok v) = true
is_ok _ = false

unfoldable pub connect : Service → Client → Bool
connect w c = if is_empty c.api_key then false else is_ok w.settings

abbrev pub failure : Text → Text → PushResult
failure status message = record {
  success = false;
  external_id = none;
  status = status;
  error_message = some message;
}

abbrev pub of_response : Service → CrmResponse → PushResult
of_response w (ok id) = record {
  success = true;
  external_id = some (str (w.str_of id));
  status = text "pushed";
  error_message = none;
}
of_response w (http_status code t) = failure (text "http_" ++ w.str_nat code) (take 500 t)
of_response w (broken t) = failure (text "error") t

abbrev pub not_connected : PushResult
not_connected = failure (text "connect_failed") (text "Could not connect to FUB")

-- `push_lead` of a client that is connected or not: what it gives, and whether it is then connected.
unfoldable pub push_lead : Service → Client → Dict → Bool → Attempt PushResult × Bool
unfolding build_payload connect
push_lead w c lead_data connected =
    if connected || connect w c
    then (
      elim (build_payload w c lead_data) [
        | none ↦ raised (text "AttributeError")
        | some p ↦ returned (of_response w (w.people p))
      ],
      true,
    )
    else (returned not_connected, false)

-- The push_calls of one client, one after the other, each with what the service answers to it.
unfoldable pub connected_after : (ℕ → Service) → Client → Dict → ℕ → Bool
unfolding push_lead
connected_after w c lead_data zero = false
connected_after w c lead_data (suc k) =
    (push_lead (w k) c lead_data (connected_after w c lead_data k)).1

unfoldable pub push_calls : (ℕ → Service) → Client → Dict → ℕ → Attempt PushResult
unfolding push_lead connected_after
push_calls w c lead_data k = (push_lead (w k) c lead_data (connected_after w c lead_data k)).0
