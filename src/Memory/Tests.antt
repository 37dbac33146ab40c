-- ===== src/Memory/Tests.antt =====
-- Two tenants' conversations, and the theorems about their saves and loads.
use leadpulse.Prelude.{◌++◌, List, true, false, ◌≡◌, refl, Option, none, some, [], ◌∷◌, arith}
use leadpulse.Prelude.Text.{Text, text, text_eq, strip, lower}
use leadpulse.Double.{literal}
use leadpulse.Scoring.{LeadStatus, default_thresholds, company, support}
use leadpulse.Agent.State.{
  Content, plain, null, bool, NodeName, Stage, AgentState, Entry, user, get_initial_state,
}
use leadpulse.Agent.World.{Settings, World}
use leadpulse.Agent.Turn.{
  Row, Request, handle_message, run_agent, turn_input, saved_values, merge_persisted, merge_row,
  last_message, newest_reply,
}
use leadpulse.Agent.Graph.{invoke, run_from, run_node, get_entry_point, next_route}
use leadpulse.Agent.Nodes.{qualification_node, handle_next_node, user_texts}
use leadpulse.Agent.Fields.{all_fields_populated}
use leadpulse.Objection.{detect_objection, detect_with, classify_message, classify_lower, any_in}
use leadpulse.Memory.{
  Cache, Conversation, Backend, save_state, load_state, get_conversation, update_conversation,
  update_rows, is_storable, is_string255, is_long_text, get_cached_session_state,
  cache_session_state, invalidate_session_cache, handle_stored,
}
use leadpulse.Memory.Start.{Started, start_out, start_conversation, first_words}
use leadpulse.Memory.Begun.{history_of, start_conversation-adds}
use leadpulse.Memory.Rows.{load_state-save_state}
use leadpulse.Memory.Leaks.{save_state-other}
use leadpulse.Memory.Refinement.{IsCoherent, stored}
use leadpulse.Memory.Turns.{exchange, handle_stored-handle_message}

abbrev settings : Settings
settings = record {
  vertical = text "generic";
  business_name = text "Acme";
  thresholds = default_thresholds;
  human_handoff_confidence = literal 30;
}

abbrev ask : NodeName → AgentState → Option Content
ask node s =
    some (plain (text "INTENT: support\nLEAD_TYPE: company\nREPLY: What can I do for you?"))

abbrev world : World
world = record { ask = ask; loads = λ s. none; parse_uuid = λ s. none; slots = [] }

abbrev kept : Row
kept = record {
  lead_name = null;
  company_name = null;
  industry = null;
  budget = none;
  timeline = null;
  problem_statement = null;
  qualification_score = none;
  lead_status = none;
  lead_intent = some support;
  lead_type = some company;
  booking_confirmed = false;
  meeting_time = none;
  conversation_history = [];
  conversation_stage = Stage.greeting;
  current_node = NodeName.qualification;
  human_escalated = false;
}

abbrev of_acme : Conversation
of_acme = record { session_id = text "s1"; tenant_id = some (text "acme"); row = some kept }

abbrev empty : Cache
empty s = none

abbrev store : Backend
store = record { rows = of_acme ∷ []; redis = some empty }

abbrev escalated : Row
escalated = record kept { human_escalated = true }

abbrev request : Request
request = record {
  session_id = text "s1";
  message = text "Hello";
  channel = text "web";
  tenant_id = some (text "acme");
  vertical = none;
  business_name = none;
}

saved : (m : Backend) × (save_state (some (text "acme")) (text "s1") escalated store ≡ some m)
unfolding save_state get_conversation update_conversation update_rows is_storable is_string255
    is_long_text invalidate_session_cache text_eq
saved = (_, refl)

-- A Boolean as the name of a lead, which the model may give, fails the save.
unsaved :
    save_state (some (text "acme")) (text "s1") (record kept { lead_name = bool true }) store ≡ none
unfolding save_state get_conversation update_conversation is_storable is_string255 text_eq
unsaved = refl

load_state-save_state_example :
    (load_state (some (text "acme")) (text "s1") 1000 saved.0).0 ≡ some (some escalated)
load_state-save_state_example =
    load_state-save_state (some (text "acme")) (text "s1") escalated 1000 store saved.0 saved.1

save_state-other_example :
    get_conversation (some (text "globex")) (text "s1") saved.0.rows
    ≡ get_conversation (some (text "globex")) (text "s1") store.rows
unfolding text_eq
save_state-other_example =
    save_state-other (text "acme") (text "globex") (text "s1") (text "s1") escalated store saved.0
      refl saved.1

store-IsCoherent : IsCoherent (some (text "acme")) (text "s1") store
unfolding get_conversation get_cached_session_state text_eq
store-IsCoherent = record { unique = λ e. cc; cached = λ now r e. ground arith }

handle_stored-handle_message_example :
    (handle_message settings
        (λ t. none)
        (exchange settings (λ t. none) world request store)
        (stored (some (text "acme")) (text "s1") store)
      ≡ (
        (handle_stored settings (λ t. none) world request 1000 store).0,
        stored
            (some (text "acme"))
            (text "s1")
            (handle_stored settings (λ t. none) world request 1000 store).1,
      ))
    × IsCoherent
        (some (text "acme"))
        (text "s1")
        (handle_stored settings (λ t. none) world request 1000 store).1
handle_stored-handle_message_example =
    handle_stored-handle_message settings (λ t. none) world request 1000 store store-IsCoherent

abbrev begun : Started × Backend
begun =
    start_conversation settings (λ t. none) world (text "f1") (some (text "s1")) (text "web")
      (some (text "acme")) none none 0 store

begun-stored :
    (id : Text) × (reply : Text) × (status : Option LeadStatus) × (begun.0
      ≡ start_out id reply status true)
unfolding start_conversation load_state save_state get_conversation update_conversation update_rows
    is_storable is_string255 is_long_text invalidate_session_cache cache_session_state
    get_cached_session_state text_eq run_agent turn_input saved_values invoke run_from run_node
    get_entry_point merge_persisted merge_row get_initial_state last_message newest_reply
    qualification_node all_fields_populated next_route handle_next_node detect_objection strip
    user_texts detect_with classify_message classify_lower any_in lower literal
begun-stored = (_, _, _, refl)

start_conversation-adds_example :
    (r : Row) × (more : List Entry) × (stored (some (text "acme")) (text "s1") begun.1 ≡ some r)
    × (r.conversation_history
        ≡ history_of (stored (some (text "acme")) (text "s1") store)
          ++ record { role = user; content = first_words } ∷ more)
    × IsCoherent (some (text "acme")) (text "s1") begun.1
start_conversation-adds_example =
    start_conversation-adds settings (λ t. none) world (text "f1") (some (text "s1")) (text "web")
      (some (text "acme")) none none 0 store begun-stored.0 begun-stored.1 begun-stored.2
      store-IsCoherent begun-stored.3
