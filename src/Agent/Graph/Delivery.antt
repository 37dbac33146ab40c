-- ===== src/Agent/Graph/Delivery.antt =====
-- When a turn hands the lead to the CRM: the end node of app/agent/graph.py.
use leadpulse.Prelude.{
  ◌≤◌, ◌≡◌, ◌≢◌, ◌⊎◌, inl, inr, Bool, true, false, refl, none, some, List, [], ◌∷◌, ◌++◌, arith,
  length,
}
use mathlib.Core.List.{append-nil}
use leadpulse.Agent.State.{NodeName, AgentState}
use leadpulse.Agent.World.{Settings, World, Effect, crm_update, notify_tenant}
use leadpulse.Agent.Nodes.{end_effects, human_handoff_node}
use leadpulse.Agent.Nodes.Frame.{is_early}
use leadpulse.Agent.Graph.{
  next_route, run_node, node_effects, Outcome, finished, raised, out_of_steps, after, invoke,
  get_entry_point,
}
use leadpulse.Agent.Graph.Escalation.{run_node-Calm}
use leadpulse.Agent.Graph.Induction.{Rule, run_from-rule}

-- The updates of the CRM among the effects, with the bookings that they report.
abbrev pub pushed : List Effect → List Bool
pushed [] = []
pushed (crm_update session lead_data tenant ∷ es) = lead_data.booking_confirmed ∷ pushed es
pushed (notify_tenant tenant lead_data ∷ es) = pushed es

abbrev pub Delivers : Outcome → Type 0
Delivers (finished t ns es) =
    ((pushed es ≡ []) × (t.booking_confirmed ≡ false)) ⊎ (pushed es ≡ t.booking_confirmed ∷ [])
Delivers (raised ns es) = length (pushed es) ≤ 1
Delivers out_of_steps = Unit

-- Before the meeting is offered, no booking is confirmed.
Unbooked : NodeName → AgentState → Type 0
Unbooked n s = is_early n ≡ true → s.booking_confirmed ≡ false

module _ (st : Settings) (w : World) where
  pushed-end_effects : (s : AgentState) → pushed (end_effects st w s) ≡ s.booking_confirmed ∷ []
  unfolding end_effects
  pushed-end_effects s = ground arith

  human_handoff-booking :
      (s t : AgentState)
      → human_handoff_node st w s ≡ some t
      → t.booking_confirmed ≡ s.booking_confirmed
  unfolding human_handoff_node
  human_handoff-booking s t h = ground arith

  run_node-booking :
      (n : NodeName) (s t : AgentState)
      → n ≢ NodeName.meeting_booking
      → run_node st w n s ≡ some t
      → t.booking_confirmed ≡ s.booking_confirmed
  unfolding run_node
  run_node-booking NodeName.human_handoff s t ne h = human_handoff-booking s t h
  run_node-booking n s t ne h = (run_node-Calm st w n s t (λ e. cc) h).booking_confirmed ne

  booking_stops :
      (n : NodeName) (s t : AgentState)
      → n ≢ NodeName.end
      → Unbooked n s
      → run_node st w n s ≡ some t
      → next_route st w n t ≡ none
      → t.booking_confirmed ≡ false
  unfolding Unbooked next_route run_node
  booking_stops NodeName.other s t ne u h r = cc
  booking_stops n s t ne u h r = ground (arith, run_node-booking n s t)

  Unbooked-step :
      (n m : NodeName) (s t : AgentState)
      → Unbooked n s
      → run_node st w n s ≡ some t
      → next_route st w n t ≡ some m
      → Unbooked m t
  unfolding Unbooked next_route
  Unbooked-step n m s t u h r = ground (arith, run_node-booking n s t)

  no_effects : (n : NodeName) (s : AgentState) → n ≢ NodeName.end → node_effects st w n s ≡ []
  unfolding node_effects
  no_effects NodeName.end s ne = absurd (ne refl)
  no_effects _ s ne = refl

  pushed-end :
      (s : AgentState) → pushed (node_effects st w NodeName.end s ++ []) ≡ s.booking_confirmed ∷ []
  unfolding node_effects
  pushed-end s = rw append-nil (pushed-end_effects s)

  Delivers-stop :
      (n : NodeName) (s t : AgentState)
      → Unbooked n s
      → run_node st w n s ≡ some t
      → next_route st w n t ≡ none
      → Delivers (after n (node_effects st w n s) (finished t [] []))
  Delivers-stop NodeName.end s t u h r =
      let same = run_node-booking NodeName.end s t (λ e. cc) h in
      let report = pushed-end s in inr (ground arith)
  Delivers-stop n s t u h r =
      rw (no_effects n s (λ e. cc)) (inl (refl, booking_stops n s t (λ e. cc) u h r))

  Delivers-fail :
      (n : NodeName) (s : AgentState) → Delivers (after n (node_effects st w n s) (raised [] []))
  Delivers-fail NodeName.end s = rw (pushed-end s) (omega arith)
  Delivers-fail n s = rw (no_effects n s (λ e. cc)) (omega arith)

  nothing_more : (n : NodeName) (o : Outcome) → Delivers o → Delivers (after n [] o)
  nothing_more n (finished t ns es) q = q
  nothing_more n (raised ns es) q = q
  nothing_more n out_of_steps q = q

  Delivers-more :
      (n m : NodeName) (s t : AgentState) (o : Outcome)
      → next_route st w n t ≡ some m
      → Delivers o
      → Delivers (after n (node_effects st w n s) o)
  unfolding next_route
  Delivers-more NodeName.end m s t o r q = cc
  Delivers-more n m s t o r q = rw (no_effects n s (λ e. cc)) (nothing_more n o q)

  delivery_rule : Rule st w Unbooked Delivers
  delivery_rule = record {
    step = Unbooked-step;
    stop = Delivers-stop;
    fail = λ n s u h. Delivers-fail n s;
    limit = tt;
    more = λ n m s t o u r q. Delivers-more n m s t o r q;
  }

  -- A turn that starts with no booking confirmed and finishes has updated the CRM exactly once,
  -- with the booking as it finishes, or has not updated it and confirmed no booking. A turn that
  -- raises has updated it at most once.
  pub invoke-Delivers : (s : AgentState) → s.booking_confirmed ≡ false → Delivers (invoke st w s)
  unfolding invoke Unbooked
  invoke-Delivers s h =
      run_from-rule st w Unbooked Delivers delivery_rule 25 (get_entry_point s) s (λ _. h)
