-- ===== src/Crm/Kvcore.antt =====
-- The client of kvCORE: app/integrations/kvcore.py.
use leadpulse.Prelude.{
  ℕ, Bool, true, false, not, ◌&&◌, ◌==◌, Option, none, some, List, [], ◌++◌, if◌then◌else◌, take,
}
use leadpulse.Prelude.Text.{Text, text, is_empty}
use leadpulse.Agent.State.{Json, null, str}
use leadpulse.Access.{given}
use leadpulse.Crm.{Dict, get_or, PushResult, apply_field_mapping, Attempt, returned, raised}
use leadpulse.Crm.Fub.{names, failure}

pub record KvcoreConfig : Type 0 where
  pub api_key : Text
  pub api_secret : Text
  pub company_id : Text
  pub field_mapping : List (Text × Text)

-- What a client holds between its calls.
pub record KvcoreSession : Type 0 where
  pub access_token : Option Text
  pub refresh_token : Option Text
  pub connected : Bool

-- The tokens of an answer with status 200, another status, or an exception.
pub data TokenReply : Type 0 where
  tokens : Option Text → Option Text → TokenReply
  refused : TokenReply

-- The id of a lead that is created, the status and text of an error, or an exception.
pub data LeadReply : Type 0 where
  created : Json → LeadReply
  error_status : ℕ → Text → LeadReply
  broken : Text → LeadReply

pub record KvcoreLead : Type 0 where
  pub first_name : Text
  pub last_name : Text
  pub company : Json
  pub lead_status : Json
  pub industry : Json
  pub budget : Json
  pub timeline : Json
  pub notes : Json
  pub score : Json

-- The answers to the requests of one call: for a token, for another token, and to the two posts of
-- the lead under an access token.
pub record KvcoreService : Type 0 where
  pub authorizes : TokenReply
  pub refreshes : Text → TokenReply
  pub creates : Option Text → KvcoreLead → LeadReply
  pub creates_again : Option Text → KvcoreLead → LeadReply
  pub str_of : Json → Text
  pub str_nat : ℕ → Text

abbrev with_tokens : TokenReply → KvcoreSession → Bool × KvcoreSession
with_tokens (tokens access refresh) s =
    (true, record { access_token = access; refresh_token = refresh; connected = true })
with_tokens refused s = (false, s)

unfoldable pub connect_kvcore : KvcoreService → KvcoreConfig → KvcoreSession → Bool × KvcoreSession
connect_kvcore w c s = elim (given s.access_token) [
  | some token ↦ (true, record s { connected = true })
  | none ↦
      if not (is_empty c.api_key) && not (is_empty c.api_secret)
      then with_tokens w.authorizes s
      else (false, s)
]

unfoldable pub refresh_kvcore : KvcoreService → KvcoreSession → Bool × KvcoreSession
refresh_kvcore w s = elim (given s.refresh_token) [
  | none ↦ (false, s)
  | some token ↦ with_tokens (w.refreshes token) s
]

abbrev kvcore_lead : Dict → Text × Text → KvcoreLead
kvcore_lead d n = record {
  first_name = n.0;
  last_name = n.1;
  company = get_or null (text "company_name") d;
  lead_status = get_or (str (text "new")) (text "lead_status") d;
  industry = get_or null (text "industry") d;
  budget = get_or null (text "budget") d;
  timeline = get_or null (text "timeline") d;
  notes = get_or null (text "problem_statement") d;
  score = get_or null (text "qualification_score") d;
}

unfoldable pub kvcore_payload : KvcoreConfig → Dict → Option KvcoreLead
kvcore_payload c lead_data =
    let mapped = apply_field_mapping c.field_mapping lead_data in
    elim (names (get_or (str []) (text "lead_name") mapped)) [
      | none ↦ none
      | some n ↦ some (kvcore_lead mapped n)
    ]

abbrev pub of_lead_reply : KvcoreService → LeadReply → PushResult
of_lead_reply w (created id) = record {
  success = true;
  external_id = some (str (w.str_of id));
  status = text "pushed";
  error_message = none;
}
of_lead_reply w (error_status code t) = failure (text "http_" ++ w.str_nat code) (take 500 t)
of_lead_reply w (broken t) = failure (text "error") t

abbrev is_unauthorized : LeadReply → Bool
is_unauthorized (error_status code t) = code == 401
is_unauthorized _ = false

-- The post of the lead, and after a 401 one more under the token that a refresh gave.
unfoldable pub post_lead : KvcoreService → KvcoreLead → KvcoreSession → LeadReply × KvcoreSession
unfolding refresh_kvcore
post_lead w p s =
    let first = w.creates s.access_token p in
    let again = refresh_kvcore w s in
    if is_unauthorized first
    then (if again.0 then (w.creates_again again.1.access_token p, again.1) else (first, again.1))
    else (first, s)

abbrev pub no_company : PushResult
no_company = failure (text "no_company_id") (
    text
      "kvCORE company_id not configured. Your kvCORE plan may not include API access — use the webhook integration as a fallback.")

-- `push_lead`, past the connection.
unfoldable pub push_connected :
    KvcoreService → KvcoreConfig → Dict → KvcoreSession → Attempt PushResult × KvcoreSession
unfolding kvcore_payload post_lead
push_connected w c lead_data s =
    if is_empty c.company_id then (returned no_company, s) else elim (kvcore_payload c lead_data) [
      | none ↦ (raised (text "AttributeError"), s)
      | some p ↦ let r = post_lead w p s in (returned (of_lead_reply w r.0), r.1)
    ]

unfoldable pub push_kvcore :
    KvcoreService → KvcoreConfig → Dict → KvcoreSession → Attempt PushResult × KvcoreSession
unfolding connect_kvcore push_connected
push_kvcore w c lead_data s =
    let (up, s') = if s.connected then (true, s) else connect_kvcore w c s in
    if up
    then push_connected w c lead_data s'
    else (returned (failure (text "connect_failed") (text "Could not connect to kvCORE")), s')
