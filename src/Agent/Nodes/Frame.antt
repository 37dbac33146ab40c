-- ===== src/Agent/Nodes/Frame.antt =====
-- What the nodes of app/agent/nodes leave alone.
use leadpulse.Prelude.{
  Bool, true, false, ◌&&◌, ◌≡◌, ◌≢◌, ◌⊎◌, Option, some, List, [], ◌∷◌, if◌then◌else◌, arith,
  Option-cases, inl, inr,
}
use leadpulse.Prelude.Text.{Text}
use leadpulse.Scoring.{LeadType}
use leadpulse.Agent.State.{Json, NodeName, Field, AgentState, not_null, safe_text}
use leadpulse.Agent.Fields.{lead_of, compute_missing}
use leadpulse.Agent.Reply.{get, or_value, parse_collected}
use leadpulse.Agent.World.{Settings, World}
use leadpulse.Agent.Nodes.{
  greeting_node, info_collection_node, collect_with, qualification_node, faq_node,
  objection_handling_node, meeting_booking_node, end_conversation_node, handle_next_node,
  qualify_lead,
}
use leadpulse.Agent.Updates.{update_fields, set_field, asked, base_field_map}

-- The parts of the state that no extracted value can reach.
pub record Aside (s t : AgentState) : Type 0 where
  pub session_id : s.session_id ≡ t.session_id
  pub tenant_id : s.tenant_id ≡ t.tenant_id
  pub lead_status : s.lead_status ≡ t.lead_status
  pub lead_type : s.lead_type ≡ t.lead_type
  pub history : s.conversation_history ≡ t.conversation_history
  pub booking_confirmed : s.booking_confirmed ≡ t.booking_confirmed
  pub human_escalated : s.human_escalated ≡ t.human_escalated
  pub confidence : s.confidence ≡ t.confidence
  pub current_node : s.current_node ≡ t.current_node

set_field-Aside : (s : AgentState) (f : Field) (v : Json) → Aside (set_field s f v) s
set_field-Aside s f v = ground arith

pub update_fields-Aside :
    (lt : Option LeadType) (u : List (Text × Json)) (m : List (Text × Text × Field))
    (s : AgentState)
    → Aside (update_fields lt u m s) s
unfolding update_fields
update_fields-Aside lt u [] s = ground arith
update_fields-Aside lt u ((label, name, f) ∷ more) s =
    let v = or_value (get label u) (get name u) in
    let next = if asked lt f && not_null v then set_field s f v else s in
    ground (arith, update_fields-Aside lt u more next, set_field-Aside s f v)

-- The nodes up to the one that detects objections.
abbrev pub is_early : NodeName → Bool
is_early NodeName.greeting = true
is_early NodeName.info_collection = true
is_early NodeName.qualification = true
is_early NodeName.faq = true
is_early NodeName.handle_next = true
is_early _ = false

-- What a node other than the handoff leaves: the escalation, before objection handling the
-- confidence, and the current node unless it becomes its own.
pub record Calm (n : NodeName) (t s : AgentState) : Type 0 where
  pub human_escalated : t.human_escalated ≡ s.human_escalated
  pub confidence : is_early n ≡ true → t.confidence ≡ s.confidence
  pub booking_confirmed : n ≢ NodeName.meeting_booking → t.booking_confirmed ≡ s.booking_confirmed
  pub current_node : (t.current_node ≡ s.current_node) ⊎ (t.current_node ≡ n)

module _ (st : Settings) (w : World) where
  pub greeting-Calm :
      (s t : AgentState) → greeting_node st w s ≡ some t → Calm NodeName.greeting t s
  unfolding greeting_node
  greeting-Calm s t h = ground arith

  pub collect_with-Calm :
      (fs : List Field) (s t : AgentState)
      → collect_with st w fs s ≡ some t
      → Calm NodeName.info_collection t s
  unfolding collect_with
  collect_with-Calm [] s t h = ground arith
  collect_with-Calm (f ∷ fs) s t h = elim (Option-cases (w.ask NodeName.info_collection s)) [
    | inl e ↦ ground arith
    | inr (c, e) ↦ ground (
      arith,
      update_fields-Aside s.lead_type (parse_collected w.loads (safe_text c)).extracted
          base_field_map s,
    )
  ]

  pub info_collection-Calm :
      (s t : AgentState) → info_collection_node st w s ≡ some t → Calm NodeName.info_collection t s
  unfolding info_collection_node
  info_collection-Calm s t h = collect_with-Calm (compute_missing (lead_of s) s.lead_type) s t h

  pub qualify_lead-Calm :
      (s t : AgentState) → qualify_lead st w s ≡ some t → Calm NodeName.qualification t s
  unfolding qualify_lead
  qualify_lead-Calm s t h = ground arith

  pub qualification-Calm :
      (s t : AgentState) → qualification_node st w s ≡ some t → Calm NodeName.qualification t s
  unfolding qualification_node
  qualification-Calm s t h = ground (arith, qualify_lead-Calm s t)

  pub faq-Calm : (s t : AgentState) → faq_node st w s ≡ some t → Calm NodeName.faq t s
  unfolding faq_node
  faq-Calm s t h = ground arith

  pub handle_next-Calm :
      (s t : AgentState) → handle_next_node st w s ≡ some t → Calm NodeName.handle_next t s
  unfolding handle_next_node
  handle_next-Calm s t h = ground arith

  pub objection_handling-Calm :
      (s t : AgentState)
      → objection_handling_node st w s ≡ some t
      → Calm NodeName.objection_handling t s
  unfolding objection_handling_node
  objection_handling-Calm s t h = ground arith

  pub meeting_booking-Calm :
      (s t : AgentState) → meeting_booking_node st w s ≡ some t → Calm NodeName.meeting_booking t s
  unfolding meeting_booking_node
  meeting_booking-Calm s t h = ground arith

  pub end_conversation-Calm :
      (s t : AgentState) → end_conversation_node st w s ≡ some t → Calm NodeName.end t s
  unfolding end_conversation_node
  end_conversation-Calm s t h = ground arith
