-- ===== src/Memory/Begun.antt =====
-- What the start of a conversation stores: start_conversation of app/api/webhook.py.
use leadpulse.Prelude.{
  ℕ, ◌≡◌, ◌∙◌, refl, sym, ap, inl, inr, true, Option, none, some, List, [], ◌∷◌, ◌++◌, Option-cases,
  arith,
}
use mathlib.Core.List.{append_assoc}
use mathlib.Core.Path.{subst}
use leadpulse.Prelude.Text.{Text}
use leadpulse.Access.{given}
use leadpulse.Scoring.{LeadStatus}
use leadpulse.Agent.State.{user, Entry, AgentState, NodeName, get_initial_state}
use leadpulse.Agent.World.{Settings, World, Effect}
use leadpulse.Agent.Graph.{Outcome, finished, raised, out_of_steps}
use leadpulse.Agent.Graph.History.{Extends, KeepsHistory, invoke-KeepsHistory}
use leadpulse.Agent.Turn.{
  Row, Request, run_agent, saved_values, turn_input, merge_persisted, merge_row,
}
use leadpulse.Memory.{Backend, load_state, save_state}
use leadpulse.Memory.Refinement.{
  IsCoherent, stored, load_state-stored, load_state-IsCoherent, save_state-stored,
}
use leadpulse.Memory.Start.{
  start_out, session_or, first_request, first_words, save_started, start_loaded, start_conversation,
}

-- The history that is stored of a session.
abbrev pub history_of : Option Row → List Entry
history_of none = []
history_of (some r) = r.conversation_history

turn_input-history :
    (q : Request) (row : Option Row)
    → (turn_input q row).conversation_history
      ≡ history_of row ++ record { role = user; content = q.message } ∷ []
unfolding turn_input merge_persisted merge_row get_initial_state
turn_input-history q none = refl
turn_input-history q (some r) = refl

module _ (st : Settings) (coerce : Text → Option Text) where
  -- A start that says that the state is stored: its turn finished, and the save went through.
  save_started-saved :
      (q : Request) (o : Outcome) (m : Backend) (session reply : Text) (status : Option LeadStatus)
      → (save_started st coerce q o m).0 ≡ start_out session reply status true
      → (s : AgentState) × (ns : List NodeName) × (es : List Effect) × (o ≡ finished s ns es)
        × (save_state q.tenant_id q.session_id (saved_values coerce s) m
            ≡ some (save_started st coerce q o m).1)
  save_started-saved q (raised ns es) m session reply status h = cc
  save_started-saved q out_of_steps m session reply status h = cc
  save_started-saved q (finished s ns es) m session reply status h =
      elim (Option-cases (save_state q.tenant_id q.session_id (saved_values coerce s) m)) [
        | inl e ↦ ground arith
        | inr (m', e) ↦ (s, ns, es, refl, ground arith)
      ]

  finished-Extends :
      (w : World) (q : Request) (row : Option Row) (s : AgentState) (ns : List NodeName)
      (es : List Effect)
      → run_agent st w q row ≡ finished s ns es
      → (more : List Entry) × (s.conversation_history
          ≡ history_of row ++ record { role = user; content = q.message } ∷ more)
  unfolding run_agent
  finished-Extends w q row s ns es e =
      let (more, begins) : Extends (turn_input q row).conversation_history s.conversation_history =
        subst (KeepsHistory (turn_input q row).conversation_history) e
          (invoke-KeepsHistory st w (turn_input q row)) in
      (
        more,
        begins
            ∙ ap (λ l. l ++ more) (turn_input-history q row)
            ∙ append_assoc (history_of row) (record { role = user; content = q.message } ∷ []) more,
      )

  -- From a store that is coherent for the session: where the start of a conversation says that its
  -- state is stored, the row of the session is then one whose history is the history stored before,
  -- none for a new session, and after it the first words of the lead and what the turn added; the
  -- store is coherent for the session after it.
  pub start_conversation-adds :
      (w : World) (fresh : Text) (session : Option Text) (channel : Text)
      (tenant vertical business_name : Option Text) (now : ℕ) (m : Backend) (id reply : Text)
      (status : Option LeadStatus)
      → IsCoherent tenant (session_or fresh (given session)) m
      → (start_conversation st coerce w fresh session channel tenant vertical business_name now m).0
        ≡ start_out id reply status true
      → (r : Row) × (more : List Entry) × (stored tenant
            (session_or fresh (given session))
            (start_conversation st coerce w fresh session channel tenant vertical business_name now
              m).1
          ≡ some r)
        × (r.conversation_history
            ≡ history_of (stored tenant (session_or fresh (given session)) m)
              ++ record { role = user; content = first_words } ∷ more)
        × IsCoherent tenant
            (session_or fresh (given session))
            (start_conversation st coerce w fresh session channel tenant vertical business_name now
              m).1
  unfolding start_conversation saved_values
  start_conversation-adds w fresh session channel tenant vertical business_name now m id reply
        status coherent told =
      let q =
        first_request (session_or fresh (given session)) channel tenant vertical business_name in
      let m' = (load_state q.tenant_id q.session_id now m).1 in
      let row = stored q.tenant_id q.session_id m in
      let loaded = load_state-stored q.tenant_id q.session_id m coherent now in
      let (s, ns, es, ended, saved) =
        save_started-saved q (run_agent st w q row) m' id reply status
          (sym (ap (λ l. (start_loaded st coerce w q l m').0) loaded) ∙ told) in
      let (more, history) = finished-Extends w q row s ns es ended in
      let (kept, coherent') =
        save_state-stored q.tenant_id q.session_id m'
          (load_state-IsCoherent q.tenant_id q.session_id m coherent now) (saved_values coerce s)
          (save_started st coerce q (run_agent st w q row) m').1 saved in
      rw loaded (saved_values coerce s, more, kept, history, coherent')
