-- ===== src/Agent/Turn/Trapped.antt =====
-- Conversations that stop asking: a lead whose details are incomplete and whose current node is
-- past the collection of information, in app/agent/graph.py and app/services/memory.py.
use leadpulse.Prelude.{
  Bool, true, false, ◌≡◌, ◌≢◌, refl, Option, none, some, List, [], ◌∷◌, arith, All, All-append, ltb,
  ◌∙◌,
}
use leadpulse.Prelude.Text.{Text}
use leadpulse.Double.{one}
use leadpulse.Scoring.{LeadType}
use leadpulse.Agent.State.{Json, null, str, num, bool, compound, NodeName, AgentState}
use leadpulse.Agent.Fields.{Lead, lead_of, all_fields_populated}
use leadpulse.Agent.World.{Settings, World}
use leadpulse.Agent.Graph.{Outcome, finished, raised, out_of_steps, invoke, get_entry_point}
use leadpulse.Agent.Graph.Induction.{run_from-rule}
use leadpulse.Agent.Turn.{
  Row, saved_values, Request, turn_input, run_agent, row_after, Exchange, visited, nodes_run,
  converse, keep, keep_json,
}
use leadpulse.Agent.Graph.Stuck.{PastCollection, ResumesPast, Stuck, StillStuck, Stuck-rule}

-- The lead's details in a row.
abbrev pub row_lead : Row → Lead
row_lead r = record {
  lead_name = r.lead_name;
  company_name = r.company_name;
  industry = r.industry;
  budget = r.budget;
  timeline = r.timeline;
  problem_statement = r.problem_statement;
}

-- A row of a conversation whose details are incomplete, and which resumes past their collection.
pub record RowTrapped (r : Row) (l : Lead) (lt : Option LeadType) : Type 0 where
  pub current_node : ResumesPast r.current_node
  pub lead : row_lead r ≡ l
  pub lead_type : r.lead_type ≡ lt
  pub incomplete : all_fields_populated l lt ≡ false
  pub lead_status : r.lead_status ≡ none
  pub booking_confirmed : r.booking_confirmed ≡ false
  pub human_escalated : r.human_escalated ≡ false

keep_json-null : (v : Json) → keep_json v null ≡ v
keep_json-null null = refl
keep_json-null (str s) = refl
keep_json-null (num a) = refl
keep_json-null (bool b) = refl
keep_json-null (compound s filled) = refl

keep-none : {A : Type 0} (o : Option A) → keep o none ≡ o
keep-none none = refl
keep-none (some a) = refl

-- The turn's input has the row's details: None is what the initial state has for those missing.
turn_input-lead : (q : Request) (r : Row) → lead_of (turn_input q (some r)) ≡ row_lead r
unfolding turn_input
turn_input-lead q r = simp (keep_json-null, keep-none)

entry_past : (s : AgentState) → ResumesPast s.current_node → PastCollection (get_entry_point s)
unfolding get_entry_point
entry_past s h = ground arith

entry_not_next :
    (s : AgentState) → ResumesPast s.current_node → get_entry_point s ≢ NodeName.handle_next
unfolding get_entry_point
entry_not_next s h = ground arith

turn_input-Stuck :
    (st : Settings) (q : Request) (r : Row) (l : Lead) (lt : Option LeadType)
    → ltb one st.human_handoff_confidence ≡ false
    → RowTrapped r l lt
    → Stuck st l lt (get_entry_point (turn_input q (some r))) (turn_input q (some r))
unfolding turn_input get_entry_point
turn_input-Stuck st q r l lt hc h = record {
  node = entry_past (turn_input q (some r)) h.current_node;
  current_node = λ _. h.current_node;
  lead = turn_input-lead q r ∙ h.lead;
  lead_type = ground arith;
  incomplete = h.incomplete;
  lead_status = ground arith;
  booking_confirmed = h.booking_confirmed;
  human_escalated = h.human_escalated;
  confident = λ _. hc;
  next_action = λ e. absurd (entry_not_next (turn_input q (some r)) h.current_node e);
}

module _ (st : Settings) (coerce : Text → Option Text) where
  row_after-RowTrapped :
      (w : World) (saved : Bool) (r : Row) (l : Lead) (lt : Option LeadType) (o : Outcome)
      → RowTrapped r l lt
      → StillStuck st w l lt o
      → (r' : Row) × (row_after coerce saved (some r) o ≡ some r') × RowTrapped r' l lt
  unfolding row_after
  row_after-RowTrapped w true r l lt (finished s ns es) h q = (
    saved_values coerce s,
    refl,
    record {
      current_node = q.0;
      lead = q.1;
      lead_type = q.2;
      incomplete = h.incomplete;
      lead_status = q.3;
      booking_confirmed = q.4;
      human_escalated = q.5;
    },
  )
  row_after-RowTrapped w false r l lt (finished s ns es) h q = (r, refl, h)
  row_after-RowTrapped w saved r l lt (raised ns es) h q = (r, refl, h)
  row_after-RowTrapped w saved r l lt out_of_steps h q = (r, refl, h)

  StillStuck-visited :
      (w : World) (l : Lead) (lt : Option LeadType) (o : Outcome)
      → StillStuck st w l lt o
      → All PastCollection (visited o)
  StillStuck-visited w l lt (finished s ns es) q = q.6
  StillStuck-visited w l lt (raised ns es) q = q
  StillStuck-visited w l lt out_of_steps q = tt

  run_agent-StillStuck :
      (w : World) (q : Request) (r : Row) (l : Lead) (lt : Option LeadType)
      → ltb one st.human_handoff_confidence ≡ false
      → RowTrapped r l lt
      → StillStuck st w l lt (run_agent st w q (some r))
  unfolding run_agent invoke
  run_agent-StillStuck w q r l lt hc h =
      let s = turn_input q (some r) in
      run_from-rule st w (Stuck st l lt) (StillStuck st w l lt) (Stuck-rule st w l lt) 25
        (get_entry_point s) s (turn_input-Stuck st q r l lt hc h)

  -- If the handoff threshold is at most 1.0, a conversation whose row resumes at qualification or
  -- at objection handling, with details missing and no status, booking or escalation, stays so for
  -- ever: whatever the users write and the model answers, the node that collects the details never
  -- runs again, and the row keeps the same details.
  pub converse-RowTrapped :
      (xs : List Exchange) (r : Row) (l : Lead) (lt : Option LeadType)
      → ltb one st.human_handoff_confidence ≡ false
      → RowTrapped r l lt
      → All PastCollection (nodes_run st coerce xs (some r))
        × ((r' : Row) × (converse st coerce xs (some r) ≡ some r') × RowTrapped r' l lt)
  unfolding nodes_run converse
  converse-RowTrapped [] r l lt hc h = (tt, (r, refl, h))
  converse-RowTrapped (x ∷ xs) r l lt hc h =
      let q = run_agent-StillStuck x.world x.request r l lt hc h in
      let o = run_agent st x.world x.request (some r) in
      let (r', e, h') = row_after-RowTrapped x.world x.saved r l lt o h q in
      let (later, kept) = converse-RowTrapped xs r' l lt hc h' in
      rw e (
        All-append PastCollection (visited o) (nodes_run st coerce xs (some r'))
            (StillStuck-visited x.world l lt o q) later,
        kept,
      )
