-- ===== src/Agent/Turn.antt =====
-- One turn of a conversation: run_agent of app/agent/graph.py, the row that save_state and
-- load_state of app/services/memory.py keep between turns, and the answer of handle_message in
-- app/api/webhook.py.
pub mod Escalated
pub mod Trapped
pub mod Support
use leadpulse.Prelude.{
  ℕ, Bool, true, false, Option, none, some, List, [], ◌∷◌, ◌++◌, if◌then◌else◌, reverse, last?,
}
use leadpulse.Prelude.Text.{Text, text, is_empty}
use leadpulse.Scoring.{LeadStatus, IntentType, LeadType, Amount}
use leadpulse.Agent.State.{
  Json, not_null, human, Role, user, assistant, Entry, NodeName, Action, Stage, AgentState,
  get_initial_state,
}
use leadpulse.Agent.World.{Settings, World, Effect, ◌>>=◌}
use leadpulse.Agent.Graph.{Outcome, finished, raised, out_of_steps, invoke}

-- A row of lead_conversations, as far as save_state writes it and load_state reads it.
pub record Row : Type 0 where
  pub lead_name : Json
  pub company_name : Json
  pub industry : Json
  pub budget : Option Amount
  pub timeline : Json
  pub problem_statement : Json
  pub qualification_score : Option ℕ
  pub lead_status : Option LeadStatus
  pub lead_intent : Option IntentType
  pub lead_type : Option LeadType
  pub booking_confirmed : Bool
  pub meeting_time : Option Text
  pub conversation_history : List Entry
  pub conversation_stage : Stage
  pub current_node : NodeName
  pub human_escalated : Bool

-- The values that `save_state` writes. `coerce` reads a meeting time and gives it as load_state
-- will, without its offset; it is none where the time is malformed.
unfoldable pub saved_values : (Text → Option Text) → AgentState → Row
saved_values coerce s = record {
  lead_name = s.lead_name;
  company_name = s.company_name;
  industry = s.industry;
  budget = s.budget;
  timeline = s.timeline;
  problem_statement = s.problem_statement;
  qualification_score = s.qualification_score;
  lead_status = s.lead_status;
  lead_intent = s.lead_intent;
  lead_type = s.lead_type;
  booking_confirmed = s.booking_confirmed;
  meeting_time = s.meeting_time >>= coerce;
  conversation_history = s.conversation_history;
  conversation_stage = s.conversation_stage;
  current_node = s.current_node;
  human_escalated = s.human_escalated;
}

-- A persisted value that is not None replaces the one of the turn's input.
abbrev keep {ℓ} : {A : Type ℓ} → Option A → Option A → Option A
keep none old = old
keep (some a) old = some a

abbrev keep_json : Json → Json → Json
keep_json v old = if not_null v then v else old

-- The loop over the persisted keys.
unfoldable pub merge_row : Row → AgentState → AgentState
merge_row r s = record s {
  lead_name = keep_json r.lead_name s.lead_name;
  company_name = keep_json r.company_name s.company_name;
  industry = keep_json r.industry s.industry;
  budget = keep r.budget s.budget;
  timeline = keep_json r.timeline s.timeline;
  problem_statement = keep_json r.problem_statement s.problem_statement;
  qualification_score = keep r.qualification_score s.qualification_score;
  lead_status = keep r.lead_status s.lead_status;
  lead_intent = keep r.lead_intent s.lead_intent;
  lead_type = keep r.lead_type s.lead_type;
  booking_confirmed = r.booking_confirmed;
  meeting_time = keep r.meeting_time s.meeting_time;
  conversation_history = r.conversation_history;
  conversation_stage = r.conversation_stage;
  current_node = r.current_node;
  human_escalated = r.human_escalated;
}

unfoldable pub merge_persisted : Option Row → AgentState → AgentState
unfolding merge_row
merge_persisted none s = s
merge_persisted (some r) s = merge_row r s

-- What a request brings: the session, the message, the channel, the tenant, and the vertical and
-- the business name of the tenant's configuration.
pub record Request : Type 0 where
  pub session_id : Text
  pub message : Text
  pub channel : Text
  pub tenant_id : Option Text
  pub vertical : Option Text
  pub business_name : Option Text

-- `if cfg.get(key): turn_input[key] = …`
abbrev nonempty : Option Text → Option Text
nonempty none = none
nonempty (some s) = if is_empty s then none else some s

-- `turn_input` as the graph is given it.
unfoldable pub turn_input : Request → Option Row → AgentState
unfolding get_initial_state merge_persisted
turn_input q persisted =
    let start = record (get_initial_state q.session_id q.channel q.tenant_id) {
      messages = human q.message ∷ [];
      vertical = nonempty q.vertical;
      business_name = nonempty q.business_name;
    } in
    let merged = merge_persisted persisted start in
    record merged {
      conversation_history =
          merged.conversation_history ++ record { role = user; content = q.message } ∷ [];
    }

module _ (st : Settings) where
  -- `run_agent`; the result's tenant is the request's, which no node changes.
  unfoldable pub run_agent : World → Request → Option Row → Outcome
  run_agent w q persisted = invoke st w (turn_input q persisted)

-- The row after a turn: written if the turn finished and the save succeeded.
unfoldable pub row_after : (Text → Option Text) → Bool → Option Row → Outcome → Option Row
unfolding saved_values
row_after coerce saved old (finished s ns es) = if saved then some (saved_values coerce s) else old
row_after coerce saved old (raised ns es) = old
row_after coerce saved old out_of_steps = old

-- The search of the reversed history for the last assistant message.
unfoldable pub newest_reply : List Entry → Text
newest_reply [] = []
newest_reply (e ∷ es) = elim e.role [ user ↦ newest_reply es | assistant ↦ e.content ]

unfoldable pub last_message : List Entry → Text
unfolding newest_reply
last_message history = newest_reply (reverse history)

-- `MessageOut`, or the HTTP error of a turn that raised.
pub data Answer : Type 0 where
  message_out : Text → Option LeadStatus → Bool → Option Text → Bool → Option Action → Bool → Answer
  failed : Answer

abbrev reply_or_default : Text → Text
reply_or_default t = if is_empty t then text "I understand. Let me help you with that." else t

unfoldable pub answer : Bool → Outcome → Answer
unfolding last_message
answer saved (finished s ns es) =
    message_out (reply_or_default (last_message s.conversation_history)) s.lead_status
      s.booking_confirmed s.meeting_time s.human_escalated s.next_action saved
answer saved (raised ns es) = failed
answer saved out_of_steps = failed

-- The nodes that ran, in order.
abbrev pub visited : Outcome → List NodeName
visited (finished s ns es) = ns
visited (raised ns es) = ns
visited out_of_steps = []

-- One exchange: what the world does in it, the request, and whether the row could be saved.
pub record Exchange : Type 0 where
  pub world : World
  pub request : Request
  pub saved : Bool

module _ (st : Settings) (coerce : Text → Option Text) where
  -- `handle_message`, on the row of the session.
  unfoldable pub handle_message : Exchange → Option Row → Answer × Option Row
  unfolding answer row_after run_agent
  handle_message x row =
      let o = run_agent st x.world x.request row in
      (answer x.saved o, row_after coerce x.saved row o)

  -- The row after a sequence of exchanges, oldest first.
  unfoldable pub converse : List Exchange → Option Row → Option Row
  unfolding handle_message
  converse [] row = row
  converse (x ∷ xs) row = converse xs (handle_message x row).1

  -- The nodes that ran in the exchanges, in order.
  unfoldable pub nodes_run : List Exchange → Option Row → List NodeName
  unfolding handle_message
  nodes_run [] row = []
  nodes_run (x ∷ xs) row =
      visited (run_agent st x.world x.request row) ++ nodes_run xs (handle_message x row).1
