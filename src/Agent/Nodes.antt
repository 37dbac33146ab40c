-- ===== src/Agent/Nodes.antt =====
-- The nodes of the conversation graph: app/agent/nodes and handle_next in app/agent/graph.py.
pub mod Frame
use leadpulse.Prelude.{
  ℕ, Bool, true, false, not, ◌&&◌, Option, none, some, List, [], ◌∷◌, ◌++◌, if◌then◌else◌, any,
  last?,
}
use leadpulse.Prelude.Text.{Text, text, is_empty, lower}
use leadpulse.Double.{literal, sub}
use leadpulse.Scoring.{
  IntentType, unknown, LeadType, LeadScoreIn, compute_lead_score, is_individual,
}
use leadpulse.Objection.{DetectObjectionResult, detect_objection}
use leadpulse.Agent.State.{
  Json, null, str, not_null, Content, plain, ai, user, assistant, Entry, NodeName, Action,
  collecting, qualifying, qualified, Field, lead_name, company_name, industry, budget, timeline,
  problem_statement, AgentState, safe_text, user_message, or_empty,
}
use leadpulse.Agent.Budget.{parse_budget}
use leadpulse.Agent.Fields.{lead_of, compute_missing, all_fields_populated, unmet_fields}
use leadpulse.Agent.Reply.{Greeting, parse_greeting, Collected, parse_collected, get, or_value}
use leadpulse.Agent.World.{Settings, World, Effect, crm_update, notify_tenant, LeadData, say, ◌>>=◌}
use leadpulse.Agent.Booking.{booking}
use leadpulse.Agent.Updates.{
  text_or, greeted, collected_state, base_field_map, asked, set_field, update_fields,
}

abbrev pub is_assistant : Entry → Bool
is_assistant e = elim e.role [ user ↦ false | assistant ↦ true ]

-- A text field of the score's input: anything but a text or None is refused.
abbrev as_text : Json → Option (Option Text)
as_text null = some none
as_text (str s) = some (some s)
as_text _ = none

abbrev intent_or_unknown : Option IntentType → IntentType
intent_or_unknown none = unknown
intent_or_unknown (some i) = i

-- The texts of the user in the history.
unfoldable pub user_texts : List Entry → List Text
user_texts [] = []
user_texts (e ∷ es) = let rest = user_texts es in if is_assistant e then rest else e.content ∷ rest

module _ (st : Settings) (w : World) where
  unfoldable pub greeting_node : AgentState → Option AgentState
  greeting_node s = if any is_assistant s.conversation_history then some s else (do
    content ← w.ask NodeName.greeting s
    some (greeted s (parse_greeting (safe_text content) (text_or s.vertical st.vertical))))

  -- The node with the fields that are missing when it is entered.
  unfoldable pub collect_with : List Field → AgentState → Option AgentState
  collect_with [] s = some (record s {
    missing_fields = [];
    next_action = some Action.qualify;
    current_node = NodeName.info_collection;
    conversation_stage = qualifying;
    current_question = none;
  })
  collect_with (first ∷ _) s = do
    content ← w.ask NodeName.info_collection s
    some (collected_state first s content (parse_collected w.loads (safe_text content)))

  unfoldable pub info_collection_node : AgentState → Option AgentState
  info_collection_node s = collect_with (compute_missing (lead_of s) s.lead_type) s

  -- The score's input, where `timeline`, `industry` and the problem are texts or None.
  unfoldable pub score_input : AgentState → Option LeadScoreIn
  score_input s = do
    when ← as_text s.timeline
    sector ← as_text s.industry
    problem ← as_text s.problem_statement
    some (record {
      budget = s.budget;
      timeline = when;
      industry = sector;
      problem_statement = problem;
      intent = intent_or_unknown s.lead_intent;
      vertical = text_or s.vertical st.vertical;
      lead_type = s.lead_type;
    })

  unfoldable pub qualify_lead : AgentState → Option AgentState
  qualify_lead s = do
    input ← score_input s
    content ← w.ask NodeName.qualification s
    let result = compute_lead_score st.thresholds input
    some (record s {
      qualification_score = some result.score;
      lead_status = some result.status;
      messages = s.messages ++ ai content ∷ [];
      current_node = NodeName.qualification;
      next_action = some Action.handle_next;
      conversation_stage = qualified;
    })

  unfoldable pub qualification_node : AgentState → Option AgentState
  qualification_node s = elim s.lead_status [
    | some status ↦ some (record s {
      current_node = NodeName.qualification;
      conversation_stage = qualified;
      next_action = some Action.handle_next;
    })
    | none ↦
        if all_fields_populated (lead_of s) s.lead_type
        then qualify_lead s
        else some (record s {
          missing_fields = unmet_fields (lead_of s) s.lead_type;
          next_action = some Action.collect_info;
          current_node = NodeName.qualification;
          conversation_stage = collecting;
        })
  ]

  unfoldable pub faq_node : AgentState → Option AgentState
  faq_node s = do
    content ← w.ask NodeName.faq s
    some (record (say s content (safe_text content)) {
      current_node = NodeName.faq;
      next_action = some Action.collect_info;
    })

  unfoldable pub objection_handling_node : AgentState → Option AgentState
  objection_handling_node s = elim s.objection_type [
    | none ↦ some (record s {
      objection_type = none;
      next_action = some Action.collect_info;
      current_node = NodeName.objection_handling;
    })
    | some o ↦ do
      content ← w.ask NodeName.objection_handling s
      some (record (say s content (safe_text content)) {
        objection_type = some o;
        current_node = NodeName.objection_handling;
        next_action = some Action.collect_info;
        confidence = sub s.confidence (literal 5);
      })
  ]

  unfoldable pub meeting_booking_node : AgentState → Option AgentState
  meeting_booking_node s = do
    content ← w.ask NodeName.meeting_booking s
    let booked = booking s.current_node (lower (user_message s)) w.slots
    some (record (say s content (safe_text content)) {
      booking_confirmed = booked.0;
      meeting_time = booked.1;
      current_node = NodeName.meeting_booking;
      next_action = some (if booked.0 then Action.end else Action.meeting_booking);
    })

  unfoldable pub human_handoff_node : AgentState → Option AgentState
  human_handoff_node s = do
    content ← w.ask NodeName.human_handoff s
    some (record (say s content (safe_text content)) {
      human_escalated = true;
      current_node = NodeName.human_handoff;
      next_action = some Action.end;
    })

  -- The update of the CRM, and the notification of the tenant if its id can be read; both come
  -- before the model is asked, and neither raises.
  unfoldable pub end_effects : AgentState → List Effect
  end_effects s =
      let lead_data : LeadData = record {
        lead = lead_of s;
        qualification_score = s.qualification_score;
        lead_status = s.lead_status;
        meeting_time = s.meeting_time;
        booking_confirmed = s.booking_confirmed;
        human_escalated = s.human_escalated;
      } in
      elim (s.tenant_id >>= w.parse_uuid) [
        | none ↦ crm_update s.session_id lead_data none ∷ []
        | some t ↦ crm_update s.session_id lead_data (some t) ∷ notify_tenant t lead_data ∷ []
      ]

  unfoldable pub end_conversation_node : AgentState → Option AgentState
  end_conversation_node s = do
    content ← w.ask NodeName.end s
    some (record (say s content (safe_text content)) {
      current_node = NodeName.end;
      next_action = none;
      conversation_stage = qualified;
    })

  unfoldable pub handle_next_node : AgentState → Option AgentState
  handle_next_node s = do
    result ←
        detect_objection (or_empty (last? (user_texts s.conversation_history)))
          (elim (w.ask NodeName.handle_next s) [ none ↦ none | some c ↦ some (safe_text c) ])
    some
        (record s { objection_type = if result.has_objection then result.objection_type else none })
