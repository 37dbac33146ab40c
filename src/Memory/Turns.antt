-- ===== src/Memory/Turns.antt =====
-- handle_message of app/api/webhook.py on the database and the cache implements it on the row of
-- its session.
use leadpulse.Prelude.{
  ℕ, true, false, ◌&&◌, ◌≡◌, refl, inl, inr, List, Option, none, some, Option-cases, arith,
}
use leadpulse.Prelude.Text.{Text}
use leadpulse.Agent.State.{AgentState, NodeName}
use leadpulse.Agent.World.{Effect, Settings, World}
use leadpulse.Agent.Graph.{Outcome, finished, raised, out_of_steps}
use leadpulse.Agent.Turn.{
  Request, saved_values, Exchange, handle_message, run_agent, row_after, Answer, answer,
}
use leadpulse.Memory.{is_storable, Backend, save_state, load_state, handle_stored, save_and_answer}
use leadpulse.Memory.Refinement.{
  stored-rows, can_save-rows, IsCoherent, stored, can_save, saves, load_state-stored,
  load_state-IsCoherent, load_state-rows, save_state-stored, save_state-can_save,
}

module _ (st : Settings) (coerce : Text → Option Text) where
  -- The exchange of a request as the view of its session has it: whether the save goes through
  -- depends on the state that the turn ends with.
  abbrev pub exchange : World → Request → Backend → Exchange
  exchange w q m = record {
    world = w;
    request = q;
    saved =
        saves coerce q.tenant_id q.session_id m
          (run_agent st w q (stored q.tenant_id q.session_id m));
  }

  -- What the reply to a turn does to the view of a session.
  abbrev Refines : Request → Outcome → Backend → Answer × Backend → Type 0
  Refines q o m r =
      (r.0 ≡ answer (saves coerce q.tenant_id q.session_id m o) o)
      × (stored q.tenant_id q.session_id r.1
          ≡ row_after coerce (saves coerce q.tenant_id q.session_id m o)
              (stored q.tenant_id q.session_id m) o)
      × IsCoherent q.tenant_id q.session_id r.1

  save_and_answer-unsaved :
      (q : Request) (s : AgentState) (ns : List NodeName) (es : List Effect) (m : Backend)
      → save_state q.tenant_id q.session_id (saved_values coerce s) m ≡ none
      → save_and_answer st coerce q (finished s ns es) m ≡ (answer false (finished s ns es), m)
  save_and_answer-unsaved q s ns es m e = ground arith

  save_and_answer-saved :
      (q : Request) (s : AgentState) (ns : List NodeName) (es : List Effect) (m m' : Backend)
      → save_state q.tenant_id q.session_id (saved_values coerce s) m ≡ some m'
      → save_and_answer st coerce q (finished s ns es) m ≡ (answer true (finished s ns es), m')
  save_and_answer-saved q s ns es m m' e = ground arith

  save_and_answer-Refines :
      (q : Request) (o : Outcome) (m : Backend)
      → IsCoherent q.tenant_id q.session_id m
      → Refines q o m (save_and_answer st coerce q o m)
  unfolding answer row_after
  save_and_answer-Refines q (raised ns es) m c = (refl, refl, c)
  save_and_answer-Refines q out_of_steps m c = (refl, refl, c)
  save_and_answer-Refines q (finished s ns es) m c =
      elim (Option-cases (save_state q.tenant_id q.session_id (saved_values coerce s) m)) [
        | inl e ↦
            let refused : can_save q.tenant_id q.session_id m && is_storable (saved_values coerce s)
                ≡ false =
              ground
                (arith, save_state-can_save q.tenant_id q.session_id m c (saved_values coerce s)) in
            rw (save_and_answer-unsaved q s ns es m e, refused) (refl, refl, c)
        | inr (m', e) ↦
            let allowed : can_save q.tenant_id q.session_id m && is_storable (saved_values coerce s)
                ≡ true =
              ground
                (arith, save_state-can_save q.tenant_id q.session_id m c (saved_values coerce s)) in
            let (kept, c') =
              save_state-stored q.tenant_id q.session_id m c (saved_values coerce s) m' e in
            rw (save_and_answer-saved q s ns es m m' e, allowed) (refl, kept, c')
      ]

  saves-same :
      (t : Option Text) (session : Text) (m m' : Backend) (o : Outcome)
      → can_save t session m' ≡ can_save t session m
      → saves coerce t session m' o ≡ saves coerce t session m o
  saves-same t session m m' (finished s ns es) e = rw e refl
  saves-same t session m m' (raised ns es) e = refl
  saves-same t session m m' out_of_steps e = refl

  -- From a store that is coherent for the tenant and the session of a request, handle_message with
  -- its load and save answers and leaves the row of the session as the turn on that row does, and
  -- the store is coherent after it. The save after a turn that finishes fails exactly where the tenant has
  -- no row of the session and another tenant has one or the column does not take the session id, or
  -- where a value of the state does not fit its column.
  pub handle_stored-handle_message :
      (w : World) (q : Request) (now : ℕ) (m : Backend)
      → IsCoherent q.tenant_id q.session_id m
      → (handle_message st coerce (exchange w q m) (stored q.tenant_id q.session_id m) ≡ (
        (handle_stored st coerce w q now m).0,
        stored q.tenant_id q.session_id (handle_stored st coerce w q now m).1,
      ))
        × IsCoherent q.tenant_id q.session_id (handle_stored st coerce w q now m).1
  unfolding handle_stored handle_message
  handle_stored-handle_message w q now m c =
      let m' = (load_state q.tenant_id q.session_id now m).1 in
      let view : stored q.tenant_id q.session_id m' ≡ stored q.tenant_id q.session_id m =
        stored-rows q.tenant_id q.session_id m m'
          (load_state-rows q.tenant_id q.session_id now m) in
      let same : can_save q.tenant_id q.session_id m' ≡ can_save q.tenant_id q.session_id m =
        can_save-rows q.tenant_id q.session_id m m'
          (load_state-rows q.tenant_id q.session_id now m) in
      let o = run_agent st w q (stored q.tenant_id q.session_id m) in
      let alike = saves-same q.tenant_id q.session_id m m' o same in
      let (a, kept, c') =
        save_and_answer-Refines q (run_agent st w q (stored q.tenant_id q.session_id m)) m'
          (load_state-IsCoherent q.tenant_id q.session_id m c now) in
      rw (load_state-stored q.tenant_id q.session_id m c now) (rw (a, kept, view, alike) refl, c')
