-- ===== src/Agent/Graph/History.antt =====
-- The history of a conversation only grows: app/agent/graph.py, whose reducer appends.
use mathlib.Core.List.{append-nil, append_assoc}
use leadpulse.Prelude.{
  Bool, true, false, ◌≡◌, ◌⊎◌, inl, inr, refl, sym, ap, ◌∙◌, Option, some, List, [], ◌∷◌, ◌++◌,
  arith, any, Option-cases, Bool-cases,
}
use leadpulse.Agent.State.{NodeName, AgentState, Entry, assistant, Content, safe_text, Field, Json}
use leadpulse.Agent.World.{Settings, World, Effect}
use leadpulse.Agent.Fields.{compute_missing, lead_of}
use leadpulse.Agent.Nodes.{
  greeting_node, info_collection_node, collect_with, qualification_node, qualify_lead, faq_node,
  handle_next_node, meeting_booking_node, objection_handling_node, human_handoff_node,
  end_conversation_node, is_assistant,
}
use leadpulse.Agent.Updates.{update_fields, set_field, asked, text_or, base_field_map}
use leadpulse.Agent.Reply.{parse_greeting, parse_collected, get, or_value}
use leadpulse.Agent.State.{
  not_null, lead_name, company_name, industry, budget, timeline, problem_statement,
}
use leadpulse.Scoring.{LeadType}
use leadpulse.Prelude.Text.{Text}
use leadpulse.Prelude.{◌&&◌, if◌then◌else◌}
use leadpulse.Agent.Graph.{
  run_node, node_effects, Outcome, finished, raised, out_of_steps, after, invoke, get_entry_point,
}
use leadpulse.Agent.Graph.Induction.{Rule, run_from-rule}

-- One history begins with another.
abbrev pub Extends : List Entry → List Entry → Type 0
Extends old new = (more : List Entry) × (new ≡ old ++ more)

-- A node leaves the history as it is, or adds one entry.
OneMore : AgentState → AgentState → Type 0
OneMore s t =
    (t.conversation_history ≡ s.conversation_history)
    ⊎ ((e : Entry) × (t.conversation_history ≡ s.conversation_history ++ e ∷ []))

-- The entry of an answer.
abbrev entry : Content → Entry
entry c = record { role = assistant; content = safe_text c }

set_field-history :
    (s : AgentState) (f : Field) (v : Json)
    → (set_field s f v).conversation_history ≡ s.conversation_history
set_field-history s lead_name v = refl
set_field-history s company_name v = refl
set_field-history s industry v = refl
set_field-history s budget v = refl
set_field-history s timeline v = refl
set_field-history s problem_statement v = refl

set_if-history :
    (b : Bool) (s : AgentState) (f : Field) (v : Json)
    → (if b then set_field s f v else s).conversation_history ≡ s.conversation_history
set_if-history true s f v = set_field-history s f v
set_if-history false s f v = refl

update_fields-history :
    (lt : Option LeadType) (updates : List (Text × Json)) (fs : List (Text × Text × Field))
    (s : AgentState)
    → (update_fields lt updates fs s).conversation_history ≡ s.conversation_history
unfolding update_fields
update_fields-history lt updates [] s = refl
update_fields-history lt updates ((label, name, f) ∷ more) s =
    let v = or_value (get label updates) (get name updates) in
    let b = asked lt f && not_null v in
    update_fields-history lt updates more (if b then set_field s f v else s)
    ∙ set_if-history b s f v

module _ (st : Settings) (w : World) where
  faq-OneMore : (s t : AgentState) → faq_node st w s ≡ some t → OneMore s t
  unfolding faq_node OneMore
  faq-OneMore s t h = elim (Option-cases (w.ask NodeName.faq s)) [
    | inl e ↦ ground arith
    | inr (c, e) ↦ inr (entry c, ground arith)
  ]

  human_handoff-OneMore : (s t : AgentState) → human_handoff_node st w s ≡ some t → OneMore s t
  unfolding human_handoff_node OneMore
  human_handoff-OneMore s t h = elim (Option-cases (w.ask NodeName.human_handoff s)) [
    | inl e ↦ ground arith
    | inr (c, e) ↦ inr (entry c, ground arith)
  ]

  meeting_booking-OneMore : (s t : AgentState) → meeting_booking_node st w s ≡ some t → OneMore s t
  unfolding meeting_booking_node OneMore
  meeting_booking-OneMore s t h = elim (Option-cases (w.ask NodeName.meeting_booking s)) [
    | inl e ↦ ground arith
    | inr (c, e) ↦ inr (entry c, ground arith)
  ]

  end_conversation-OneMore :
      (s t : AgentState) → end_conversation_node st w s ≡ some t → OneMore s t
  unfolding end_conversation_node OneMore
  end_conversation-OneMore s t h = elim (Option-cases (w.ask NodeName.end s)) [
    | inl e ↦ ground arith
    | inr (c, e) ↦ inr (entry c, ground arith)
  ]

  objection_handling-OneMore :
      (s t : AgentState) → objection_handling_node st w s ≡ some t → OneMore s t
  unfolding objection_handling_node OneMore
  objection_handling-OneMore s t h = elim (Option-cases s.objection_type) [
    | inl calm ↦ inl (ground arith)
    | inr (o, objects) ↦ elim (Option-cases (w.ask NodeName.objection_handling s)) [
      | inl e ↦ ground arith
      | inr (c, e) ↦ inr (entry c, ground arith)
    ]
  ]

  handle_next-OneMore : (s t : AgentState) → handle_next_node st w s ≡ some t → OneMore s t
  unfolding handle_next_node OneMore
  handle_next-OneMore s t h = ground arith

  qualification-OneMore : (s t : AgentState) → qualification_node st w s ≡ some t → OneMore s t
  unfolding qualification_node qualify_lead OneMore
  qualification-OneMore s t h = inl (ground arith)

  greeting-OneMore : (s t : AgentState) → greeting_node st w s ≡ some t → OneMore s t
  unfolding greeting_node OneMore
  greeting-OneMore s t h = elim (Bool-cases (any is_assistant s.conversation_history)) [
    | inl again ↦ inl (ground arith)
    | inr first ↦ elim (Option-cases (w.ask NodeName.greeting s)) [
      | inl e ↦ ground arith
      | inr (c, e) ↦ inr (
        record {
          role = assistant;
          content = (parse_greeting (safe_text c) (text_or s.vertical st.vertical)).reply;
        },
        ground arith,
      )
    ]
  ]

  collect_with-OneMore :
      (fs : List Field) (s t : AgentState) → collect_with st w fs s ≡ some t → OneMore s t
  unfolding collect_with OneMore
  collect_with-OneMore [] s t h = inl (ground arith)
  collect_with-OneMore (f ∷ fs) s t h = elim (Option-cases (w.ask NodeName.info_collection s)) [
    | inl e ↦ ground arith
    | inr (c, e) ↦
        let read = parse_collected w.loads (safe_text c) in
        let same = update_fields-history s.lead_type read.extracted base_field_map s in
        inr (record { role = assistant; content = read.reply }, ground (arith, same))
  ]

  info_collection-OneMore : (s t : AgentState) → info_collection_node st w s ≡ some t → OneMore s t
  unfolding info_collection_node OneMore
  info_collection-OneMore s t h =
      collect_with-OneMore (compute_missing (lead_of s) s.lead_type) s t h

  run_node-OneMore : (n : NodeName) (s t : AgentState) → run_node st w n s ≡ some t → OneMore s t
  unfolding run_node OneMore
  run_node-OneMore NodeName.greeting s t h = greeting-OneMore s t h
  run_node-OneMore NodeName.info_collection s t h = info_collection-OneMore s t h
  run_node-OneMore NodeName.qualification s t h = qualification-OneMore s t h
  run_node-OneMore NodeName.faq s t h = faq-OneMore s t h
  run_node-OneMore NodeName.objection_handling s t h = objection_handling-OneMore s t h
  run_node-OneMore NodeName.meeting_booking s t h = meeting_booking-OneMore s t h
  run_node-OneMore NodeName.human_handoff s t h = human_handoff-OneMore s t h
  run_node-OneMore NodeName.end s t h = end_conversation-OneMore s t h
  run_node-OneMore NodeName.handle_next s t h = handle_next-OneMore s t h
  run_node-OneMore NodeName.other s t h = cc

  run_node-Extends :
      (old : List Entry) (n : NodeName) (s t : AgentState)
      → Extends old s.conversation_history
      → run_node st w n s ≡ some t
      → Extends old t.conversation_history
  unfolding OneMore
  run_node-Extends old n s t (more, begins) h = elim (run_node-OneMore n s t h) [
    | inl same ↦ (more, same ∙ begins)
    | inr (e, added) ↦
        (more ++ e ∷ [], added ∙ ap (λ l. l ++ e ∷ []) begins ∙ append_assoc old more (e ∷ []))
  ]

-- The state of a run that finishes has a history that begins with the given one.
abbrev pub KeepsHistory : List Entry → Outcome → Type 0
KeepsHistory old (finished s ns es) = Extends old s.conversation_history
KeepsHistory old (raised ns es) = Unit
KeepsHistory old out_of_steps = Unit

KeepsHistory-after :
    (old : List Entry) (n : NodeName) (es : List Effect) (o : Outcome)
    → KeepsHistory old o
    → KeepsHistory old (after n es o)
KeepsHistory-after old n es (finished s ns fs) k = k
KeepsHistory-after old n es (raised ns fs) k = tt
KeepsHistory-after old n es out_of_steps k = tt

module _ (st : Settings) (w : World) (old : List Entry) where
  history_rule : Rule st w (λ n s. Extends old s.conversation_history) (KeepsHistory old)
  history_rule = record {
    step = λ n m s t k h r. run_node-Extends st w old n s t k h;
    stop = λ n s t k h r.
        KeepsHistory-after old n (node_effects st w n s) (finished t [] [])
          (run_node-Extends st w old n s t k h);
    fail = λ n s k h. KeepsHistory-after old n (node_effects st w n s) (raised [] []) tt;
    limit = tt;
    more = λ n m s t o k r q. KeepsHistory-after old n (node_effects st w n s) o q;
  }

-- A turn that finishes has only added to the history that it was given.
pub invoke-KeepsHistory :
    (st : Settings) (w : World) (s : AgentState)
    → KeepsHistory s.conversation_history (invoke st w s)
unfolding invoke
invoke-KeepsHistory st w s =
    run_from-rule st w (λ n t. Extends s.conversation_history t.conversation_history)
      (KeepsHistory s.conversation_history) (history_rule st w s.conversation_history) 25
      (get_entry_point s) s ([], sym (append-nil s.conversation_history))
