-- ===== src/Memory/Refinement.antt =====
-- The conversations of a tenant as a client of app/api/webhook.py sees them: the turn on the row of
-- its session, which the database and the cache implement.
use leadpulse.Prelude.{
  ℕ, Bool, true, false, not, ◌&&◌, ◌||◌, ◌≡◌, ◌≢◌, refl, inl, inr, Option, none, some, List, [],
  ◌∷◌, any, keep_if, Bool-cases, is_some, ◌⊎◌, Option-cases, arith,
}
use leadpulse.Prelude.Text.{Text}
use leadpulse.Agent.Graph.{Outcome, finished, raised, out_of_steps}
use leadpulse.Agent.Turn.{Row, saved_values}
use leadpulse.Memory.{
  Conversation, Backend, Found, missing, several, one, sole, has_session, matches, get_conversation,
  create_conversation, update_conversation, fits, is_storable, save_rows, save_state, load_state,
  load_rows, get_cached_session_state, cache_session_state,
}
use leadpulse.Memory.Rows.{save_state-one, get_cached_session_state-cached}

-- The abstract view: the row of a session.
abbrev pub row_found : Found → Option Row
row_found missing = none
row_found several = none
row_found (one c) = c.row

unfoldable pub stored : Option Text → Text → Backend → Option Row
stored tenant session m = row_found (get_conversation tenant session m.rows)

-- The UNIQUE constraint holds of the session, and what the cache holds is what the tenant stored.
pub record IsCoherent (tenant : Option Text) (session : Text) (m : Backend) : Type 0 where
  pub unique : get_conversation tenant session m.rows ≢ several
  pub cached :
      (now : ℕ) (r : Row)
      → get_cached_session_state session now m ≡ some r
      → stored tenant session m ≡ some r

-- The tenant has a row of the session, or a new one can be made: no other tenant has one, and the
-- column takes the session id.
unfoldable pub can_save : Option Text → Text → Backend → Bool
can_save tenant session m =
    any (matches tenant session) m.rows
    || not (any (has_session session) m.rows) && fits 255 session

-- A save of the turn's state goes through.
abbrev pub saves : (Text → Option Text) → Option Text → Text → Backend → Outcome → Bool
saves coerce tenant session m (finished s ns es) =
    can_save tenant session m && is_storable (saved_values coerce s)
saves coerce tenant session m (raised ns es) = false
saves coerce tenant session m out_of_steps = false

pub stored-rows :
    (t : Option Text) (s : Text) (m m' : Backend) → m'.rows ≡ m.rows → stored t s m' ≡ stored t s m
unfolding stored
stored-rows t s m m' same = rw same refl

pub can_save-rows :
    (t : Option Text) (s : Text) (m m' : Backend)
    → m'.rows ≡ m.rows
    → can_save t s m' ≡ can_save t s m
unfolding can_save
can_save-rows t s m m' same = rw same refl

abbrev is_found : Found → Bool
is_found missing = false
is_found several = true
is_found (one c) = true

is_found-cons : (c : Conversation) (cs : List Conversation) → is_found (sole (c ∷ cs)) ≡ true
is_found-cons c [] = refl
is_found-cons c (d ∷ cs) = refl

any-is_found :
    (p : Conversation → Bool) (cs : List Conversation) → any p cs ≡ is_found (sole (keep_if p cs))
any-is_found p [] = refl
any-is_found p (c ∷ cs) = ground (arith, any-is_found p cs, is_found-cons c (keep_if p cs))

save_rows-can_save :
    (t : Option Text) (s : Text) (r : Row) (m : Backend) (f : Found)
    → get_conversation t s m.rows ≡ f
    → f ≢ several
    → is_some (save_rows t s r m.rows f) ≡ can_save t s m && is_storable r
unfolding can_save create_conversation get_conversation update_conversation
save_rows-can_save t s r m several e u = ground arith
save_rows-can_save t s r m (one c) e u = ground (arith, any-is_found (matches t s) m.rows)
save_rows-can_save t s r m missing e u = elim (Bool-cases (any (has_session s) m.rows)) [
  | inl taken ↦ ground (arith, any-is_found (matches t s) m.rows)
  | inr fresh ↦ ground (arith, any-is_found (matches t s) m.rows)
]

load_rows-found :
    (t : Option Text) (s : Text) (now : ℕ) (m : Backend) (f : Found)
    → f ≢ several
    → (load_rows s now f m).0 ≡ some (row_found f)
load_rows-found t s now m missing u = refl
load_rows-found t s now m several u = ground arith
load_rows-found t s now m (one c) u = ground arith

load_rows-rows :
    (s : Text) (now : ℕ) (m : Backend) (f : Found) → (load_rows s now f m).1.rows ≡ m.rows
unfolding cache_session_state
load_rows-rows s now m missing = refl
load_rows-rows s now m several = refl
load_rows-rows s now m (one c) = ground arith

pub load_state-rows :
    (t : Option Text) (s : Text) (now : ℕ) (m : Backend) → (load_state t s now m).1.rows ≡ m.rows
unfolding load_state
load_state-rows t s now m = ground (arith, load_rows-rows s now m (get_conversation t s m.rows))

-- What the cache holds after a load is what it held, or the row that the load found.
load_rows-cached :
    (s : Text) (now later : ℕ) (m : Backend) (f : Found) (r : Row)
    → get_cached_session_state s later (load_rows s now f m).1 ≡ some r
    → (get_cached_session_state s later m ≡ some r) ⊎ (row_found f ≡ some r)
load_rows-cached s now later m missing r e = inl e
load_rows-cached s now later m several r e = inl e
load_rows-cached s now later m (one c) r e = elim (Option-cases c.row) [
  | inl absent ↦ ground arith
  | inr (r', kept) ↦ ground (arith, get_cached_session_state-cached s now later r' r m)
]

load_state-cached :
    (t : Option Text) (s : Text) (now later : ℕ) (m : Backend) (r : Row)
    → get_cached_session_state s later (load_state t s now m).1 ≡ some r
    → (get_cached_session_state s later m ≡ some r) ⊎ (stored t s m ≡ some r)
unfolding load_state stored
load_state-cached t s now later m r e = elim (Option-cases (get_cached_session_state s now m)) [
  | inl cold ↦ load_rows-cached s now later m (get_conversation t s m.rows) r (ground arith)
  | inr (r', hit) ↦ inl (ground arith)
]

module _ (t : Option Text) (s : Text) (m : Backend) (coherent : IsCoherent t s m) where
  pub load_state-stored : (now : ℕ) → (load_state t s now m).0 ≡ some (stored t s m)
  unfolding load_state stored
  load_state-stored now = elim (Option-cases (get_cached_session_state s now m)) [
    | inl e ↦
        ground (arith, load_rows-found t s now m (get_conversation t s m.rows), coherent.unique)
    | inr (r, e) ↦ ground (arith, coherent.cached now r e)
  ]

  pub save_state-stored :
      (r : Row) (m' : Backend)
      → save_state t s r m ≡ some m'
      → (stored t s m' ≡ some r) × IsCoherent t s m'
  unfolding stored
  save_state-stored r m' saved =
      let (c, found, kept, cold) = save_state-one t s r m m' saved in
      (
        ground arith,
        record {
          unique = rw found (λ e. ground arith);
          cached = λ now r' e. ground (arith, cold now);
        },
      )

  pub save_state-can_save :
      (r : Row) → is_some (save_state t s r m) ≡ can_save t s m && is_storable r
  unfolding save_state
  save_state-can_save r =
      ground (arith, save_rows-can_save t s r m (get_conversation t s m.rows) refl coherent.unique)

  pub load_state-IsCoherent : (now : ℕ) → IsCoherent t s (load_state t s now m).1
  unfolding stored
  load_state-IsCoherent now = record {
    unique = rw (load_state-rows t s now m) coherent.unique;
    cached = λ later r e. elim (load_state-cached t s now later m r e) [
      | inl before ↦ rw (load_state-rows t s now m) (coherent.cached later r before)
      | inr k ↦ rw (load_state-rows t s now m) k
    ];
  }
