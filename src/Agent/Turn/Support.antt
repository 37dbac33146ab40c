-- ===== src/Agent/Turn/Support.antt =====
-- A first message that is taken for a request for support: app/agent/graph.py leads from the
-- greeting to the FAQ and on to qualification, with no details collected.
use leadpulse.Prelude.{
  ℕ, suc, false, ◌≡◌, refl, Option, none, some, List, [], arith, ltb, Option-cases, inl, inr, ap,
}
use leadpulse.Prelude.Text.{Text}
use leadpulse.Double.{one}
use leadpulse.Scoring.{LeadType, support}
use leadpulse.Agent.State.{NodeName, AgentState, Content, null, safe_text}
use leadpulse.Agent.Fields.{Lead, lead_of, all_fields_populated}
use leadpulse.Agent.Reply.{Greeting, parse_greeting}
use leadpulse.Agent.World.{Settings, World, Effect}
use leadpulse.Agent.Nodes.{greeting_node, faq_node}
use leadpulse.Agent.Updates.{greeted, text_or}
use leadpulse.Agent.Graph.{
  Outcome, finished, raised, out_of_steps, after, invoke, run_node, next_route, node_effects,
  get_entry_point, run_from,
}
use leadpulse.Agent.Graph.Induction.{run_from-rule}
use leadpulse.Agent.Turn.{Request, saved_values, turn_input, run_agent}
use leadpulse.Agent.Graph.Stuck.{Stuck, StillStuck, Stuck-rule}
use leadpulse.Agent.Turn.Trapped.{RowTrapped}

-- The details of a lead of whom nothing is known.
abbrev pub unknown_lead : Lead
unknown_lead = record {
  lead_name = null;
  company_name = null;
  industry = null;
  budget = none;
  timeline = null;
  problem_statement = null;
}

unknown_lead_incomplete : (lt : Option LeadType) → all_fields_populated unknown_lead lt ≡ false
unfolding all_fields_populated
unknown_lead_incomplete lt = ground arith

-- What the row of a finished turn is.
abbrev pub LeavesTrapped : (Text → Option Text) → Option LeadType → Outcome → Type 0
LeavesTrapped coerce lt (finished s ns es) = RowTrapped (saved_values coerce s) unknown_lead lt
LeavesTrapped coerce lt _ = Unit

LeavesTrapped-after :
    (coerce : Text → Option Text) (lt : Option LeadType) (n : NodeName) (es : List Effect)
    (o : Outcome)
    → LeavesTrapped coerce lt o
    → LeavesTrapped coerce lt (after n es o)
LeavesTrapped-after coerce lt n es (finished s ns fs) h = h
LeavesTrapped-after coerce lt n es (raised ns fs) h = h
LeavesTrapped-after coerce lt n es out_of_steps h = h

module _ (st : Settings) (w : World) where
  -- One step of a run, where the node gives a state.
  run_from-step :
      (fuel : ℕ) (n m : NodeName) (s t : AgentState)
      → run_node st w n s ≡ some t
      → next_route st w n t ≡ some m
      → run_from st w (suc fuel) n s ≡ after n (node_effects st w n s) (run_from st w fuel m t)
  unfolding run_from
  run_from-step fuel n m s t h r = rw (h, r)

  of_StillStuck :
      (coerce : Text → Option Text) (lt : Option LeadType) (o : Outcome)
      → StillStuck st w unknown_lead lt o
      → LeavesTrapped coerce lt o
  unfolding saved_values
  of_StillStuck coerce lt (finished s ns es) q = record {
    current_node = q.0;
    lead = q.1;
    lead_type = q.2;
    incomplete = unknown_lead_incomplete lt;
    lead_status = q.3;
    booking_confirmed = q.4;
    human_escalated = q.5;
  }
  of_StillStuck coerce lt (raised ns es) q = tt
  of_StillStuck coerce lt out_of_steps q = tt

  -- What the greeting leaves, where it takes the message for a request for support.
  record Supported (s : AgentState) (lt : Option LeadType) : Type 0 where
    lead : lead_of s ≡ unknown_lead
    lead_type : s.lead_type ≡ lt
    lead_status : s.lead_status ≡ none
    booking_confirmed : s.booking_confirmed ≡ false
    human_escalated : s.human_escalated ≡ false
    confident : ltb s.confidence st.human_handoff_confidence ≡ false
    missing_fields : s.missing_fields ≡ []

  faq-leaves :
      (s t : AgentState) (lt : Option LeadType)
      → Supported s lt
      → faq_node st w s ≡ some t
      → Supported t lt
  unfolding faq_node
  faq-leaves s t lt u h = ground arith

  Stuck-of_Supported :
      (s : AgentState) (lt : Option LeadType)
      → Supported s lt
      → Stuck st unknown_lead lt NodeName.qualification s
  Stuck-of_Supported s lt u = record {
    node = tt;
    current_node = λ ne. absurd (ne refl);
    lead = u.lead;
    lead_type = u.lead_type;
    incomplete = unknown_lead_incomplete lt;
    lead_status = u.lead_status;
    booking_confirmed = u.booking_confirmed;
    human_escalated = u.human_escalated;
    confident = λ _. u.confident;
    next_action = λ e. cc;
  }

  -- How the greeting reads an answer to the first message.
  abbrev first_greeting : Request → Content → Greeting
  first_greeting q c =
      parse_greeting (safe_text c) (text_or (turn_input q none).vertical st.vertical)

  greeting-Supported :
      (q : Request) (c : Content)
      → ltb one st.human_handoff_confidence ≡ false
      → Supported
          (greeted (turn_input q none) (first_greeting q c))
          (some (first_greeting q c).lead_type)
  unfolding turn_input
  greeting-Supported q c hc = record {
    lead = refl;
    lead_type = refl;
    lead_status = refl;
    booking_confirmed = refl;
    human_escalated = refl;
    confident = hc;
    missing_fields = refl;
  }

  greeting-first :
      (q : Request) (c : Content)
      → w.ask NodeName.greeting (turn_input q none) ≡ some c
      → run_node st w NodeName.greeting (turn_input q none)
        ≡ some (greeted (turn_input q none) (first_greeting q c))
  unfolding run_node greeting_node turn_input
  greeting-first q c h = rw h

  support-route :
      (s : AgentState)
      → s.lead_intent ≡ some support
      → next_route st w NodeName.greeting s ≡ some NodeName.faq
  unfolding next_route
  support-route s h = ground arith

  faq-route :
      (s : AgentState) (lt : Option LeadType)
      → Supported s lt
      → next_route st w NodeName.faq s ≡ some NodeName.qualification
  unfolding next_route
  faq-route s lt u = ground arith

  run_from-raised :
      (fuel : ℕ) (n : NodeName) (s : AgentState)
      → run_node st w n s ≡ none
      → run_from st w (suc fuel) n s ≡ after n (node_effects st w n s) (raised [] [])
  unfolding run_from
  run_from-raised fuel n s h = rw h

  -- From the FAQ on, whether the model answers there or raises.
  run_from-faq :
      (coerce : Text → Option Text) (fuel : ℕ) (s : AgentState) (lt : Option LeadType)
      → Supported s lt
      → LeavesTrapped coerce lt (run_from st w (suc fuel) NodeName.faq s)
  unfolding run_node
  run_from-faq coerce fuel s lt u = elim (Option-cases (faq_node st w s)) [
    | inl e ↦ rw (run_from-raised fuel NodeName.faq s e) tt
    | inr (t, e) ↦
        let v = faq-leaves s t lt u e in
        rw (run_from-step fuel NodeName.faq NodeName.qualification s t e (faq-route t lt v)) (
          LeavesTrapped-after coerce lt NodeName.faq (node_effects st w NodeName.faq s)
            (run_from st w fuel NodeName.qualification t)
            (of_StillStuck coerce lt (run_from st w fuel NodeName.qualification t) (
              run_from-rule st w (Stuck st unknown_lead lt) (StillStuck st w unknown_lead lt)
                (Stuck-rule st w unknown_lead lt) fuel NodeName.qualification t
                (Stuck-of_Supported t lt v))))
  ]

  entry_first : (q : Request) → get_entry_point (turn_input q none) ≡ NodeName.greeting
  unfolding get_entry_point turn_input
  entry_first q = refl

  -- If the handoff threshold is at most 1.0 and the answer to the first message of a
  -- conversation is read as the intent of support, then a turn that finishes leaves a row with no
  -- details, at a node from which they are never collected (converse-RowTrapped).
  pub run_agent-support :
      (coerce : Text → Option Text) (q : Request) (c : Content)
      → ltb one st.human_handoff_confidence ≡ false
      → w.ask NodeName.greeting (turn_input q none) ≡ some c
      → (first_greeting q c).intent ≡ support
      → LeavesTrapped coerce (some (first_greeting q c).lead_type) (run_agent st w q none)
  unfolding run_agent invoke
  run_agent-support coerce q c hc h hs =
      let s = turn_input q none in
      let t = greeted s (first_greeting q c) in
      let lt = some (first_greeting q c).lead_type in
      rw
        (
          entry_first q,
          run_from-step 24 NodeName.greeting NodeName.faq s t (greeting-first q c h)
              (support-route t (ap some hs)),
        )
        (LeavesTrapped-after coerce lt NodeName.greeting (node_effects st w NodeName.greeting s)
          (run_from st w 24 NodeName.faq t)
          (run_from-faq coerce 23 t lt (greeting-Supported q c hc)))
