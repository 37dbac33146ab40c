-- ===== src/Memory/Start.antt =====
-- The start of a conversation on the database and the cache: start_conversation of
-- app/api/webhook.py.
use leadpulse.Prelude.{ℕ, Bool, true, false, Option, none, some, if◌then◌else◌}
use leadpulse.Prelude.Text.{Text, text, is_empty}
use leadpulse.Access.{given}
use leadpulse.Scoring.{LeadStatus}
use leadpulse.Agent.World.{Settings, World}
use leadpulse.Agent.Graph.{Outcome, finished, raised, out_of_steps}
use leadpulse.Agent.Turn.{Row, saved_values, Request, run_agent, last_message}
use leadpulse.Memory.{Backend, load_state, save_state}

-- `StartConversationOut`, or the HTTP error of a turn that raised.
pub data Started : Type 0 where
  start_out : Text → Text → Option LeadStatus → Bool → Started
  not_started : Started

abbrev pub first_words : Text
first_words = text "Hi, I'm interested in your services."

abbrev greeting_or_default : Text → Text
greeting_or_default t = if is_empty t then text "Hello! How can I help you today?" else t

-- `payload.session_id or str(uuid.uuid4())`, with the fresh id.
abbrev pub session_or : Text → Option Text → Text
session_or fresh none = fresh
session_or fresh (some s) = s

-- The request of the first turn.
abbrev pub first_request : Text → Text → Option Text → Option Text → Option Text → Request
first_request session channel tenant vertical business_name = record {
  session_id = session;
  message = first_words;
  channel = channel;
  tenant_id = tenant;
  vertical = vertical;
  business_name = business_name;
}

module _ (st : Settings) (coerce : Text → Option Text) where
  abbrev pub start_answer : Text → Bool → Outcome → Started
  start_answer session saved (finished s ns es) =
      start_out session (greeting_or_default (last_message s.conversation_history)) s.lead_status
        saved
  start_answer session saved (raised ns es) = not_started
  start_answer session saved out_of_steps = not_started

  abbrev pub save_started : Request → Outcome → Backend → Started × Backend
  save_started q (finished s ns es) m =
      elim (save_state q.tenant_id q.session_id (saved_values coerce s) m) [
        | none ↦ (start_answer q.session_id false (finished s ns es), m)
        | some m' ↦ (start_answer q.session_id true (finished s ns es), m')
      ]
  save_started q (raised ns es) m = (not_started, m)
  save_started q out_of_steps m = (not_started, m)

  abbrev pub start_loaded : World → Request → Option (Option Row) → Backend → Started × Backend
  start_loaded w q none m = (not_started, m)
  start_loaded w q (some row) m = save_started q (run_agent st w q row) m

  -- `start_conversation`: a session that has a row goes on from it.
  unfoldable pub start_conversation :
      World
      → Text
      → Option Text
      → Text
      → Option Text
      → Option Text
      → Option Text
      → ℕ
      → Backend
      → Started × Backend
  start_conversation w fresh session channel tenant vertical business_name now m =
      let q =
        first_request (session_or fresh (given session)) channel tenant vertical business_name in
      let (loaded, m') = load_state q.tenant_id q.session_id now m in start_loaded w q loaded m'
