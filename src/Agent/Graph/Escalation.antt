-- ===== src/Agent/Graph/Escalation.antt =====
-- Whether a turn hands the lead to a human: app/agent/graph.py.
use leadpulse.Prelude.{true, false, ◌≡◌, ◌≢◌, refl, some, List, [], arith, All, ltb}
use leadpulse.Agent.State.{NodeName, AgentState}
use leadpulse.Agent.World.{Settings, World, Effect}
use leadpulse.Agent.Nodes.Frame.{
  is_early, Calm, greeting-Calm, info_collection-Calm, qualification-Calm, faq-Calm,
  handle_next-Calm, objection_handling-Calm, meeting_booking-Calm, end_conversation-Calm,
}
use leadpulse.Agent.Graph.{
  next_route, run_node, node_effects, Outcome, finished, raised, out_of_steps, after, invoke,
  get_entry_point,
}
use leadpulse.Agent.Graph.Induction.{Rule, run_from-rule}

-- No node of the list is the handoff.
abbrev pub NoHandoff : List NodeName → Type 0
NoHandoff ns = All (λ n. n ≢ NodeName.human_handoff) ns

-- A run that never reaches the handoff, and leaves no trace of one.
abbrev pub NotHandedOff : Outcome → Type 0
NotHandedOff (finished s ns es) =
    (s.human_escalated ≡ false) × (s.current_node ≢ NodeName.human_handoff) × NoHandoff ns
NotHandedOff (raised ns es) = NoHandoff ns
NotHandedOff out_of_steps = Unit

-- What holds where a node is entered.
record Unescalated (st : Settings) (n : NodeName) (s : AgentState) : Type 0 where
  node : n ≢ NodeName.human_handoff
  human_escalated : s.human_escalated ≡ false
  current_node : s.current_node ≢ NodeName.human_handoff
  confident : is_early n ≡ true → ltb s.confidence st.human_handoff_confidence ≡ false

NotHandedOff-after :
    (n : NodeName) (es : List Effect) (o : Outcome)
    → n ≢ NodeName.human_handoff
    → NotHandedOff o
    → NotHandedOff (after n es o)
NotHandedOff-after n es (finished s ns fs) ne q = (q.0, q.1, (ne, q.2))
NotHandedOff-after n es (raised ns fs) ne q = (ne, q)
NotHandedOff-after n es out_of_steps ne q = tt

get_entry_point-ne :
    (s : AgentState)
    → s.current_node ≢ NodeName.human_handoff
    → get_entry_point s ≢ NodeName.human_handoff
unfolding get_entry_point
get_entry_point-ne s h = ground arith

module _ (st : Settings) (w : World) where
  pub run_node-Calm :
      (n : NodeName) (s t : AgentState)
      → n ≢ NodeName.human_handoff
      → run_node st w n s ≡ some t
      → Calm n t s
  unfolding run_node
  run_node-Calm NodeName.greeting s t ne h = greeting-Calm st w s t h
  run_node-Calm NodeName.info_collection s t ne h = info_collection-Calm st w s t h
  run_node-Calm NodeName.qualification s t ne h = qualification-Calm st w s t h
  run_node-Calm NodeName.faq s t ne h = faq-Calm st w s t h
  run_node-Calm NodeName.objection_handling s t ne h = objection_handling-Calm st w s t h
  run_node-Calm NodeName.meeting_booking s t ne h = meeting_booking-Calm st w s t h
  run_node-Calm NodeName.human_handoff s t ne h = absurd (ne refl)
  run_node-Calm NodeName.end s t ne h = end_conversation-Calm st w s t h
  run_node-Calm NodeName.handle_next s t ne h = handle_next-Calm st w s t h
  run_node-Calm NodeName.other s t ne h = ground arith

  -- Without an escalation and above the threshold no edge leads to the handoff, and an edge to an
  -- early node comes from one.
  route_avoids_handoff :
      (n m : NodeName) (s : AgentState)
      → n ≢ NodeName.human_handoff
      → s.human_escalated ≡ false
      → (is_early n ≡ true → ltb s.confidence st.human_handoff_confidence ≡ false)
      → next_route st w n s ≡ some m
      → (m ≢ NodeName.human_handoff) × (is_early m ≡ true → is_early n ≡ true)
  unfolding next_route
  route_avoids_handoff n m s ne he hc h = ground arith

  Unescalated-step :
      (n m : NodeName) (s t : AgentState)
      → Unescalated st n s
      → run_node st w n s ≡ some t
      → next_route st w n t ≡ some m
      → Unescalated st m t
  Unescalated-step n m s t u h r =
      ground (arith, run_node-Calm n s t u.node h, route_avoids_handoff n m t)

  finished-NotHandedOff :
      (n : NodeName) (s t : AgentState)
      → Unescalated st n s
      → run_node st w n s ≡ some t
      → NotHandedOff (finished t [] [])
  finished-NotHandedOff n s t u h = ground (arith, run_node-Calm n s t u.node h)

  escalation_rule : Rule st w (Unescalated st) NotHandedOff
  escalation_rule = record {
    step = Unescalated-step;
    stop = λ n s t u h r.
        NotHandedOff-after n (node_effects st w n s) (finished t [] []) u.node
          (finished-NotHandedOff n s t u h);
    fail = λ n s u h. NotHandedOff-after n (node_effects st w n s) (raised [] []) u.node tt;
    limit = tt;
    more = λ n m s t o u r q. NotHandedOff-after n (node_effects st w n s) o u.node q;
  }

  -- A turn that starts above the threshold and with no escalation, at a node other than the
  -- handoff, never reaches the handoff: whatever the user says and the model answers.
  pub invoke-NotHandedOff :
      (s : AgentState)
      → s.human_escalated ≡ false
      → s.current_node ≢ NodeName.human_handoff
      → ltb s.confidence st.human_handoff_confidence ≡ false
      → NotHandedOff (invoke st w s)
  unfolding invoke
  invoke-NotHandedOff s he hn hc =
      run_from-rule st w (Unescalated st) NotHandedOff escalation_rule 25 (get_entry_point s) s
        (record {
          node = get_entry_point-ne s hn;
          human_escalated = he;
          current_node = hn;
          confident = λ _. hc;
        })
