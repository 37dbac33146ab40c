-- ===== src/Agent/Graph/Induction.antt =====
-- The rule by which a property of a run of the graph of app/agent/graph.py is proved from the
-- properties of its nodes and routes.
use leadpulse.Prelude.{ℕ, zero, suc, ◌≡◌, inl, inr, none, some, [], Option-cases}
use leadpulse.Agent.State.{NodeName, AgentState}
use leadpulse.Agent.World.{Settings, World}
use leadpulse.Agent.Graph.{
  next_route, run_node, node_effects, Outcome, finished, raised, out_of_steps, after, run_from,
}

-- `P` holds where a node is entered, and `Q` of what is left of the run.
pub record Rule (st : Settings) (w : World) (P : NodeName → AgentState → Type 0)
    (Q : Outcome → Type 0) : Type 0 where
  pub step :
      (n m : NodeName) (s s' : AgentState)
      → P n s
      → run_node st w n s ≡ some s'
      → next_route st w n s' ≡ some m
      → P m s'
  pub stop :
      (n : NodeName) (s s' : AgentState)
      → P n s
      → run_node st w n s ≡ some s'
      → next_route st w n s' ≡ none
      → Q (after n (node_effects st w n s) (finished s' [] []))
  pub fail :
      (n : NodeName) (s : AgentState)
      → P n s
      → run_node st w n s ≡ none
      → Q (after n (node_effects st w n s) (raised [] []))
  pub limit : Q out_of_steps
  pub more :
      (n m : NodeName) (s s' : AgentState) (o : Outcome)
      → P n s
      → next_route st w n s' ≡ some m
      → Q o
      → Q (after n (node_effects st w n s) o)

pub run_from-rule :
    (st : Settings) (w : World) (P : NodeName → AgentState → Type 0) (Q : Outcome → Type 0)
    → Rule st w P Q
    → (fuel : ℕ) (n : NodeName) (s : AgentState) → P n s
    → Q (run_from st w fuel n s)
unfolding run_from
run_from-rule st w P Q r zero n s p = r.limit
run_from-rule st w P Q r (suc fuel) n s p = elim (Option-cases (run_node st w n s)) [
  | inl e ↦ rw e (r.fail n s p e)
  | inr (s', e) ↦ rw e (elim (Option-cases (next_route st w n s')) [
    | inl t ↦ rw t (r.stop n s s' p e t)
    | inr (m, t) ↦ rw t (
        r.more n m s s' (run_from st w fuel m s') p t
          (run_from-rule st w P Q r fuel m s' (r.step n m s s' p e t)))
  ])
]
