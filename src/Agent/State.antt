-- ===== src/Agent/State.antt =====
-- The conversation state of app/agent/state.py.
use leadpulse.Prelude.{ℕ, Bool, true, false, not, Option, none, some, List, [], ◌∷◌, ◌==◌, last?}
use leadpulse.Prelude.Text.{Text, is_empty, join_lines}
use leadpulse.Prelude.Int.{ℤ, pos, negsuc}
use leadpulse.Double.{Double, one}
use leadpulse.Scoring.{LeadStatus, IntentType, LeadType, Amount}
use leadpulse.Objection.{ObjectionType}

-- A value that json.loads gives; `compound` is a list or a dict, by its text and whether it holds
-- anything. `null` also stands for a field that is None.
pub data Json : Type 0 where
  null : Json
  str : Text → Json
  num : Amount → Json
  bool : Bool → Json
  compound : Text → Bool → Json

abbrev pub is_zero : ℤ → Bool
is_zero (pos n) = n == 0
is_zero (negsuc n) = false

-- The truth value of a Python object.
abbrev pub truthy : Json → Bool
truthy null = false
truthy (str s) = not (is_empty s)
truthy (num a) = not (is_zero a.num)
truthy (bool b) = b
truthy (compound s filled) = filled

-- `x is not None`
abbrev pub not_null : Json → Bool
not_null null = false
not_null _ = true

-- The content of a model's answer: a text, or a list of parts, dicts with or without "text" or
-- other values by their text.
pub data Part : Type 0 where
  dict : Option Text → Part
  bare : Text → Part

pub data Content : Type 0 where
  plain : Text → Content
  parts : List Part → Content

pub data Message : Type 0 where
  human : Text → Message
  ai : Content → Message

pub data Role : Type 0 where
  user assistant : Role

pub record Entry : Type 0 where
  pub role : Role
  pub content : Text

-- The names of `_ALL_NODES`, and any other text.
pub data NodeName : Type 0 where
  greeting info_collection qualification faq objection_handling : NodeName
  meeting_booking human_handoff end handle_next other : NodeName

pub data Action : Type 0 where
  collect_info qualify handle_next meeting_booking end : Action

pub data Stage : Type 0 where
  greeting collecting qualifying qualified : Stage

pub data Field : Type 0 where
  lead_name company_name industry budget timeline problem_statement : Field

pub record AgentState : Type 0 where
  pub session_id : Text
  pub channel : Text
  pub tenant_id : Option Text
  pub vertical : Option Text
  pub business_name : Option Text
  pub lead_name : Json
  pub company_name : Json
  pub industry : Json
  pub budget : Option Amount
  pub timeline : Json
  pub problem_statement : Json
  pub qualification_score : Option ℕ  -- in hundredths
  pub lead_status : Option LeadStatus
  pub lead_intent : Option IntentType
  pub lead_type : Option LeadType
  pub messages : List Message
  pub conversation_history : List Entry
  pub current_node : NodeName
  pub next_action : Option Action
  pub conversation_stage : Stage
  pub booking_confirmed : Bool
  pub meeting_time : Option Text
  pub human_escalated : Bool
  pub objection_type : Option ObjectionType
  pub missing_fields : List Field
  pub confidence : Double
  pub iteration_count : ℕ
  pub current_question : Option Field

unfoldable pub get_initial_state : Text → Text → Option Text → AgentState
get_initial_state session_id channel tenant_id = record {
  session_id = session_id;
  channel = channel;
  tenant_id = tenant_id;
  vertical = none;
  business_name = none;
  lead_name = null;
  company_name = null;
  industry = null;
  budget = none;
  timeline = null;
  problem_statement = null;
  qualification_score = none;
  lead_status = none;
  lead_intent = none;
  lead_type = none;
  messages = [];
  conversation_history = [];
  current_node = NodeName.greeting;
  next_action = none;
  conversation_stage = Stage.greeting;
  booking_confirmed = false;
  meeting_time = none;
  human_escalated = false;
  objection_type = none;
  missing_fields = [];
  confidence = one;
  iteration_count = 0;
  current_question = none;
}

part_text : Part → Text
part_text (dict none) = []
part_text (dict (some s)) = s
part_text (bare s) = s

part_texts : List Part → List Text
unfolding part_text
part_texts [] = []
part_texts (p ∷ ps) = part_text p ∷ part_texts ps

-- `safe_text` of app/agent/nodes/helpers.py
unfoldable pub safe_text : Content → Text
unfolding part_texts join_lines
safe_text (plain s) = s
safe_text (parts ps) = join_lines (part_texts ps)

unfoldable pub human_texts : List Message → List Text
human_texts [] = []
human_texts (human s ∷ ms) = s ∷ human_texts ms
human_texts (ai c ∷ ms) = human_texts ms

abbrev pub or_empty : Option Text → Text
or_empty none = []
or_empty (some s) = s

-- The content of the last human message, "" without one.
unfoldable pub user_message : AgentState → Text
unfolding human_texts
user_message s = or_empty (last? (human_texts s.messages))
