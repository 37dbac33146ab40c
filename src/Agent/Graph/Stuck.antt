-- ===== src/Agent/Graph/Stuck.antt =====
-- Turns that stop asking: a lead whose details are incomplete, and a run of the graph of
-- app/agent/graph.py that starts past the collection of the details.
use leadpulse.Prelude.{false, ◌≡◌, ◌≢◌, Option, none, some, List, [], arith, All, ltb}
use leadpulse.Scoring.{LeadType}
use leadpulse.Agent.State.{NodeName, Action, AgentState}
use leadpulse.Agent.Fields.{Lead, lead_of, all_fields_populated}
use leadpulse.Agent.World.{Settings, World, Effect}
use leadpulse.Agent.Nodes.{qualification_node, handle_next_node, objection_handling_node}
use leadpulse.Agent.Graph.{
  Outcome, finished, raised, out_of_steps, after, run_node, next_route, node_effects,
}
use leadpulse.Agent.Graph.Induction.{Rule}

-- The nodes that such a run can still reach, and those at which it can leave the conversation.
abbrev pub PastCollection : NodeName → Type 0
PastCollection NodeName.qualification = Unit
PastCollection NodeName.handle_next = Unit
PastCollection NodeName.objection_handling = Unit
PastCollection _ = ⊥

abbrev pub ResumesPast : NodeName → Type 0
ResumesPast NodeName.qualification = Unit
ResumesPast NodeName.objection_handling = Unit
ResumesPast _ = ⊥

-- A state with the given details that are incomplete, with no status, no booking and no
-- escalation.
pub record Stuck (st : Settings) (l : Lead) (lt : Option LeadType) (n : NodeName) (s : AgentState)
    : Type 0 where
  pub node : PastCollection n
  pub current_node : n ≢ NodeName.qualification → ResumesPast s.current_node
  pub lead : lead_of s ≡ l
  pub lead_type : s.lead_type ≡ lt
  pub incomplete : all_fields_populated l lt ≡ false
  pub lead_status : s.lead_status ≡ none
  pub booking_confirmed : s.booking_confirmed ≡ false
  pub human_escalated : s.human_escalated ≡ false
  pub confident :
      n ≢ NodeName.objection_handling → ltb s.confidence st.human_handoff_confidence ≡ false
  pub next_action : n ≡ NodeName.handle_next → s.next_action ≡ some Action.collect_info

module _ (st : Settings) (w : World) (l : Lead) (lt : Option LeadType) where
  qualification-Stuck :
      (s t : AgentState)
      → Stuck st l lt NodeName.qualification s
      → qualification_node st w s ≡ some t
      → Stuck st l lt NodeName.handle_next t
  unfolding qualification_node
  qualification-Stuck s t u h = ground arith

  -- Only `objection_type` changes, so an edge can lead to objection handling alone.
  handle_next-Stuck :
      (s t : AgentState)
      → Stuck st l lt NodeName.handle_next s
      → handle_next_node st w s ≡ some t
      → Stuck st l lt NodeName.handle_next t
  unfolding handle_next_node
  handle_next-Stuck s t u h = ground arith

  handle_next-route :
      (m : NodeName) (t : AgentState)
      → Stuck st l lt NodeName.handle_next t
      → next_route st w NodeName.handle_next t ≡ some m
      → Stuck st l lt m t
  unfolding next_route
  handle_next-route m t u h = ground arith

  objection_handling-Stuck :
      (s t : AgentState)
      → Stuck st l lt NodeName.objection_handling s
      → objection_handling_node st w s ≡ some t
      → Stuck st l lt NodeName.objection_handling t
  unfolding objection_handling_node
  objection_handling-Stuck s t u h = ground arith

  objection_handling-route :
      (t : AgentState)
      → Stuck st l lt NodeName.objection_handling t
      → next_route st w NodeName.objection_handling t ≡ none
  unfolding next_route
  objection_handling-route t u = ground arith

  qualification-route :
      (m : NodeName) (t : AgentState)
      → Stuck st l lt NodeName.handle_next t
      → next_route st w NodeName.qualification t ≡ some m
      → Stuck st l lt m t
  unfolding next_route
  qualification-route m t u h = ground arith

  Stuck-step :
      (n m : NodeName) (s t : AgentState)
      → Stuck st l lt n s
      → run_node st w n s ≡ some t
      → next_route st w n t ≡ some m
      → Stuck st l lt m t
  unfolding run_node
  Stuck-step NodeName.qualification m s t u h r =
      qualification-route m t (qualification-Stuck s t u h) r
  Stuck-step NodeName.handle_next m s t u h r = handle_next-route m t (handle_next-Stuck s t u h) r
  Stuck-step NodeName.objection_handling m s t u h r =
      cc (objection_handling-route t (objection_handling-Stuck s t u h))
  Stuck-step n m s t u h r = absurd u.node

  -- What such a run comes to.
  abbrev pub StillStuck : Outcome → Type 0
  StillStuck (finished s ns es) =
      ResumesPast s.current_node
      × (lead_of s ≡ l)
      × (s.lead_type ≡ lt)
      × (s.lead_status ≡ none)
      × (s.booking_confirmed ≡ false)
      × (s.human_escalated ≡ false)
      × All PastCollection ns
  StillStuck (raised ns es) = All PastCollection ns
  StillStuck out_of_steps = Unit

  Stuck-stop :
      (n : NodeName) (s t : AgentState)
      → Stuck st l lt n s
      → run_node st w n s ≡ some t
      → StillStuck (finished t [] [])
  unfolding run_node
  Stuck-stop NodeName.qualification s t u h = ground (arith, qualification-Stuck s t u h)
  Stuck-stop NodeName.handle_next s t u h = ground (arith, handle_next-Stuck s t u h)
  Stuck-stop NodeName.objection_handling s t u h = ground (arith, objection_handling-Stuck s t u h)
  Stuck-stop n s t u h = absurd u.node

  StillStuck-after :
      (n : NodeName) (es : List Effect) (o : Outcome)
      → PastCollection n
      → StillStuck o
      → StillStuck (after n es o)
  StillStuck-after n es (finished s ns fs) p q = (q.0, q.1, q.2, q.3, q.4, q.5, (p, q.6))
  StillStuck-after n es (raised ns fs) p q = (p, q)
  StillStuck-after n es out_of_steps p q = tt

  pub Stuck-rule : Rule st w (Stuck st l lt) StillStuck
  Stuck-rule = record {
    step = Stuck-step;
    stop = λ n s t u h r.
        StillStuck-after n (node_effects st w n s) (finished t [] []) u.node (Stuck-stop n s t u h);
    fail = λ n s u h. StillStuck-after n (node_effects st w n s) (raised [] []) u.node tt;
    limit = tt;
    more = λ n m s t o u r q. StillStuck-after n (node_effects st w n s) o u.node q;
  }
