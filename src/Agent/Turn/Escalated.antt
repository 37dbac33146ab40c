-- ===== src/Agent/Turn/Escalated.antt =====
-- The handoff to a human over whole conversations: app/agent/graph.py and app/services/memory.py,
-- which keeps the escalation between turns but not the confidence.
use leadpulse.Prelude.{
  Bool, false, ◌≡◌, ◌≢◌, Option, none, some, List, [], ◌∷◌, arith, All-append, ltb,
}
use leadpulse.Prelude.Text.{Text}
use leadpulse.Double.{one}
use leadpulse.Agent.State.{NodeName}
use leadpulse.Agent.World.{Settings, World}
use leadpulse.Agent.Graph.{Outcome, finished, raised, out_of_steps}
use leadpulse.Agent.Graph.Escalation.{NoHandoff, NotHandedOff, invoke-NotHandedOff}
use leadpulse.Agent.Turn.{
  Row, Request, turn_input, run_agent, row_after, Exchange, handle_message, visited, nodes_run,
}

-- A row of a conversation that has not been handed off.
abbrev pub RowNotHandedOff : Option Row → Type 0
RowNotHandedOff none = Unit
RowNotHandedOff (some r) = (r.human_escalated ≡ false) × (r.current_node ≢ NodeName.human_handoff)

-- What a turn starts from: the escalation and the node of the row, and the full confidence.
turn_input-start :
    (q : Request) (row : Option Row)
    → RowNotHandedOff row
    → ((turn_input q row).human_escalated ≡ false)
      × ((turn_input q row).current_node ≢ NodeName.human_handoff)
      × ((turn_input q row).confidence ≡ one)
unfolding turn_input
turn_input-start q row h = ground arith

module _ (st : Settings) (coerce : Text → Option Text) where
  run_agent-NotHandedOff :
      (w : World) (q : Request) (row : Option Row)
      → ltb one st.human_handoff_confidence ≡ false
      → RowNotHandedOff row
      → NotHandedOff (run_agent st w q row)
  unfolding run_agent
  run_agent-NotHandedOff w q row hc h =
      let (he, hn, hone) = turn_input-start q row h in
      invoke-NotHandedOff st w (turn_input q row) he hn (ground arith)

  row_after-RowNotHandedOff :
      (saved : Bool) (row : Option Row) (o : Outcome)
      → RowNotHandedOff row
      → NotHandedOff o
      → RowNotHandedOff (row_after coerce saved row o)
  unfolding row_after
  row_after-RowNotHandedOff saved row o h q = ground arith

  NoHandoff-visited : (o : Outcome) → NotHandedOff o → NoHandoff (visited o)
  NoHandoff-visited (finished s ns es) q = q.2
  NoHandoff-visited (raised ns es) q = q
  NoHandoff-visited out_of_steps q = tt

  -- If the handoff threshold is at most 1.0, no exchange of a conversation that has not been
  -- handed off ever runs the handoff node, whatever the users write, the model answers and
  -- whichever saves fail.
  pub nodes_run-NoHandoff :
      (xs : List Exchange) (row : Option Row)
      → ltb one st.human_handoff_confidence ≡ false
      → RowNotHandedOff row
      → NoHandoff (nodes_run st coerce xs row)
  unfolding nodes_run
  nodes_run-NoHandoff [] row hc h = tt
  nodes_run-NoHandoff (x ∷ xs) row hc h =
      let q = run_agent-NotHandedOff x.world x.request row hc h in
      All-append (λ n. n ≢ NodeName.human_handoff) (visited (run_agent st x.world x.request row))
        (nodes_run st coerce xs (handle_message st coerce x row).1)
        (NoHandoff-visited (run_agent st x.world x.request row) q)
        (nodes_run-NoHandoff xs (handle_message st coerce x row).1 hc
          (row_after-RowNotHandedOff x.saved row (run_agent st x.world x.request row) h q))
