-- ===== src/Agent/Graph.antt =====
-- The conversation graph: the routes and edges of build_graph in app/agent/graph.py, and a run of
-- the compiled graph, which goes from the entry point along the edges until END.
pub mod Induction
pub mod Termination
pub mod Escalation
pub mod Delivery
pub mod Stuck
pub mod History
use leadpulse.Prelude.{
  ℕ, zero, suc, Bool, true, false, ◌||◌, Option, none, some, List, [], ◌∷◌, ◌++◌, ltb,
  if◌then◌else◌, is_some,
}
use leadpulse.Scoring.{LeadStatus, hot, warm, cold, unqualified, IntentType, support}
use leadpulse.Agent.State.{NodeName, Action, AgentState}
use leadpulse.Agent.World.{Settings, World, Effect}
use leadpulse.Agent.Nodes.{
  greeting_node, info_collection_node, qualification_node, faq_node, objection_handling_node,
  meeting_booking_node, human_handoff_node, end_effects, end_conversation_node, handle_next_node,
}

-- `none` is langgraph's END.
abbrev pub Route : Type 0
Route = Option NodeName

abbrev is_support : Option IntentType → Bool
is_support (some support) = true
is_support _ = false

unfoldable pub route_after_greeting : AgentState → Route
route_after_greeting s =
    some (if is_support s.lead_intent then NodeName.faq else NodeName.info_collection)

unfoldable pub route_after_info_collection : AgentState → Route
route_after_info_collection s = elim s.missing_fields [
  | [] ↦ some NodeName.qualification
  | f ∷ fs ↦ none
]

unfoldable pub route_after_qualification : AgentState → Route
route_after_qualification s = some NodeName.handle_next

abbrev is_end : Option Action → Bool
is_end (some Action.end) = true
is_end _ = false

abbrev is_meeting_action : Option Action → Bool
is_meeting_action (some Action.meeting_booking) = true
is_meeting_action _ = false

-- The last tests of route_next_action and of route_after_objection.
unfoldable pub route_by_status : Option LeadStatus → Route
route_by_status (some hot) = some NodeName.meeting_booking
route_by_status (some warm) = some NodeName.meeting_booking
route_by_status (some cold) = some NodeName.end
route_by_status (some unqualified) = none
route_by_status none = none

unfoldable pub route_next_action : Settings → AgentState → Route
unfolding route_by_status
route_next_action st s =
    if ltb s.confidence st.human_handoff_confidence
    then some NodeName.human_handoff
    else if s.human_escalated
    then some NodeName.end
    else if is_end s.next_action || s.booking_confirmed
    then some NodeName.end
    else if is_some s.objection_type
    then some NodeName.objection_handling
    else if is_meeting_action s.next_action
    then some NodeName.meeting_booking
    else route_by_status s.lead_status

unfoldable pub route_after_objection : AgentState → Route
unfolding route_by_status
route_after_objection s =
    if s.human_escalated
    then some NodeName.human_handoff
    else if s.booking_confirmed
    then some NodeName.end
    else route_by_status s.lead_status

unfoldable pub route_after_meeting : AgentState → Route
route_after_meeting s = if s.booking_confirmed then some NodeName.end else none

-- `get_entry_point`
unfoldable pub get_entry_point : AgentState → NodeName
get_entry_point s = elim s.current_node [ NodeName.other ↦ NodeName.greeting | n ↦ n ]

module _ (st : Settings) (w : World) where
  -- The edges out of a node.
  unfoldable pub next_route : NodeName → AgentState → Route
  unfolding route_after_greeting route_after_info_collection route_after_qualification
      route_next_action route_after_objection route_after_meeting
  next_route NodeName.greeting s = route_after_greeting s
  next_route NodeName.info_collection s = route_after_info_collection s
  next_route NodeName.qualification s = route_after_qualification s
  next_route NodeName.handle_next s = route_next_action st s
  next_route NodeName.faq s = route_after_info_collection s
  next_route NodeName.objection_handling s = route_after_objection s
  next_route NodeName.meeting_booking s = route_after_meeting s
  next_route NodeName.human_handoff s = some NodeName.end
  next_route NodeName.end s = none
  next_route NodeName.other s = none

  unfoldable pub run_node : NodeName → AgentState → Option AgentState
  run_node NodeName.greeting s = greeting_node st w s
  run_node NodeName.info_collection s = info_collection_node st w s
  run_node NodeName.qualification s = qualification_node st w s
  run_node NodeName.faq s = faq_node st w s
  run_node NodeName.objection_handling s = objection_handling_node st w s
  run_node NodeName.meeting_booking s = meeting_booking_node st w s
  run_node NodeName.human_handoff s = human_handoff_node st w s
  run_node NodeName.end s = end_conversation_node st w s
  run_node NodeName.handle_next s = handle_next_node st w s
  run_node NodeName.other s = none

  unfoldable pub node_effects : NodeName → AgentState → List Effect
  node_effects NodeName.end s = end_effects st w s
  node_effects _ s = []

-- How a run of the graph stops: at END, by an exception of a node, or at the limit on steps. Each
-- carries the nodes that ran, in order, and what was done to other systems.
pub data Outcome : Type 0 where
  finished : AgentState → List NodeName → List Effect → Outcome
  raised : List NodeName → List Effect → Outcome
  out_of_steps : Outcome

abbrev pub after : NodeName → List Effect → Outcome → Outcome
after n es (finished s ns fs) = finished s (n ∷ ns) (es ++ fs)
after n es (raised ns fs) = raised (n ∷ ns) (es ++ fs)
after n es out_of_steps = out_of_steps

-- Where a run goes once a node has given `s`: to END, or on by `run`.
abbrev pub arrive : (NodeName → AgentState → Outcome) → AgentState → Route → Outcome
arrive run s none = finished s [] []
arrive run s (some m) = run m s

abbrev pub proceed :
    (NodeName → AgentState → Outcome) → (AgentState → Route) → Option AgentState → Outcome
proceed run route none = raised [] []
proceed run route (some s) = arrive run s (route s)

module _ (st : Settings) (w : World) where
  -- One step: the node runs, and the run goes on at the node that its route names.
  unfoldable pub run_from : ℕ → NodeName → AgentState → Outcome
  run_from zero n s = out_of_steps
  run_from (suc fuel) n s =
      after n (node_effects st w n s)
        (proceed (run_from fuel) (next_route st w n) (run_node st w n s))

  -- `graph.ainvoke`, with langgraph's default limit of 25 steps.
  unfoldable pub invoke : AgentState → Outcome
  invoke s = run_from 25 (get_entry_point s) s
