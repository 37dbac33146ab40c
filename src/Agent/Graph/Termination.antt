-- ===== src/Agent/Graph/Termination.antt =====
-- A turn of the conversation ends: the graph of app/agent/graph.py has no cycle.
use leadpulse.Prelude.{
  ℕ, zero, suc, ◌≤◌, ◌<◌, ◌≡◌, inl, inr, some, List, [], arith, length, Option-cases,
}
use leadpulse.Agent.State.{NodeName, AgentState}
use leadpulse.Agent.World.{Settings, World, Effect}
use leadpulse.Agent.Graph.{
  next_route, run_node, node_effects, Outcome, finished, raised, out_of_steps, after, run_from,
  invoke, get_entry_point,
}

-- How many nodes can still run, the node itself among them.
abbrev rank : NodeName → ℕ
rank NodeName.greeting = 7
rank NodeName.info_collection = 6
rank NodeName.faq = 6
rank NodeName.qualification = 5
rank NodeName.handle_next = 4
rank NodeName.objection_handling = 3
rank NodeName.meeting_booking = 2
rank NodeName.human_handoff = 2
rank NodeName.end = 1
rank NodeName.other = 1

module _ (st : Settings) (w : World) where
  next_route-rank :
      (n m : NodeName) (s : AgentState) → next_route st w n s ≡ some m → rank m < rank n
  unfolding next_route
  next_route-rank n m s h = ground arith

-- A run visits this many nodes at most.
abbrev pub EndsWithin : ℕ → Outcome → Type 0
EndsWithin k (finished s ns es) = length ns ≤ k
EndsWithin k (raised ns es) = length ns ≤ k
EndsWithin k out_of_steps = ⊥

EndsWithin-after :
    (k r : ℕ) (n : NodeName) (es : List Effect) (o : Outcome)
    → k < r
    → EndsWithin k o
    → EndsWithin r (after n es o)
EndsWithin-after k r n es (finished s ns fs) h e = omega arith
EndsWithin-after k r n es (raised ns fs) h e = omega arith
EndsWithin-after k r n es out_of_steps h e = e

EndsWithin-mono : {k r : ℕ} (o : Outcome) → k ≤ r → EndsWithin k o → EndsWithin r o
EndsWithin-mono (finished s ns fs) h e = omega arith
EndsWithin-mono (raised ns fs) h e = omega arith
EndsWithin-mono out_of_steps h e = e

rank_le : (n : NodeName) → rank n ≤ 7
rank_le n = ground arith

rank_pos : (n : NodeName) → 0 < rank n
rank_pos n = ground arith

module _ (st : Settings) (w : World) where
  -- From a node, with steps enough for its rank, at most so many nodes run.
  run_from-EndsWithin :
      (fuel : ℕ) (n : NodeName) (s : AgentState)
      → rank n ≤ fuel
      → EndsWithin (rank n) (run_from st w fuel n s)
  unfolding run_from
  run_from-EndsWithin zero n s h = absurd (omega (arith, rank_pos n))
  run_from-EndsWithin (suc fuel) n s h = elim (Option-cases (run_node st w n s)) [
    | inl e ↦ rw e (
        EndsWithin-after 0 (rank n) n (node_effects st w n s) (raised [] []) (rank_pos n)
          (omega arith))
    | inr (s', e) ↦ rw e (elim (Option-cases (next_route st w n s')) [
      | inl r ↦ rw r (
          EndsWithin-after 0 (rank n) n (node_effects st w n s) (finished s' [] []) (rank_pos n)
            (omega arith))
      | inr (m, r) ↦ rw r (
          EndsWithin-after (rank m) (rank n) n _ _ (next_route-rank st w n m s' r)
            (run_from-EndsWithin fuel m s' (omega (arith, next_route-rank st w n m s' r))))
    ])
  ]

  -- A turn ends, at END or by an exception of a node, after at most seven nodes: the limit on
  -- steps is never met, whatever the state, the model and the settings.
  pub invoke-EndsWithin : (s : AgentState) → EndsWithin 7 (invoke st w s)
  unfolding invoke
  invoke-EndsWithin s =
      let n = get_entry_point s in
      EndsWithin-mono (run_from st w 25 n s) (rank_le n)
        (run_from-EndsWithin 25 n s (omega (arith, rank_le n)))
