-- ===== src/Memory.antt =====
-- Conversations in the database and in the cache: ConversationMemory of app/services/memory.py,
-- the queries of app/database/crud.py that it calls, and the session cache of
-- app/services/redis.py. Tenants are the texts of their ids, times are seconds.
pub mod Rows
pub mod Refinement
pub mod Leaks
pub mod Turns
pub mod Start
pub mod Begun
mod Tests
use leadpulse.Prelude.{
  ℕ, ◌+◌, Bool, true, false, not, ◌&&◌, ◌||◌, Option, none, some, List, [], ◌∷◌, ◌++◌,
  if◌then◌else◌, ltb, leb, any, keep_if, map, length,
}
use leadpulse.Prelude.Text.{Text, text_eq}
use leadpulse.Billing.{text_is}
use leadpulse.Agent.State.{Json, null, str, AgentState}
use leadpulse.Agent.World.{Settings, World}
use leadpulse.Agent.Graph.{Outcome, finished, raised, out_of_steps}
use leadpulse.Agent.Turn.{Row, saved_values, Request, run_agent, Answer, failed, answer}

-- A row of lead_conversations; `row` is none between its insertion and its update, which are one
-- transaction.
pub record Conversation : Type 0 where
  pub session_id : Text
  pub tenant_id : Option Text
  pub row : Option Row

-- The entries of the cache, with the times at which they expire.
abbrev pub Cache : Type 0
Cache = Text → Option (ℕ × Row)

-- The database, and Redis where it can be reached.
pub record Backend : Type 0 where
  pub rows : List Conversation
  pub redis : Option Cache

-- `scalar_one_or_none`, which raises on several rows.
pub data Found : Type 0 where
  missing several : Found
  one : Conversation → Found

abbrev pub sole : List Conversation → Found
sole [] = missing
sole (c ∷ []) = one c
sole (c ∷ d ∷ cs) = several

-- The filter by tenant, which a request without a tenant does not have.
abbrev pub is_of_tenant : Option Text → Conversation → Bool
is_of_tenant none c = true
is_of_tenant (some t) c = text_is c.tenant_id t

abbrev pub has_session : Text → Conversation → Bool
has_session session c = text_eq c.session_id session

abbrev pub matches : Option Text → Text → Conversation → Bool
matches tenant session c = has_session session c && is_of_tenant tenant c

unfoldable pub get_conversation : Option Text → Text → List Conversation → Found
get_conversation tenant session rows = sole (keep_if (matches tenant session) rows)

-- What a text column takes: no NUL and no lone surrogate, and so many characters at most.
abbrev pub is_encodable : ℕ → Bool
is_encodable c = ltb 0 c && (ltb c 55296 || ltb 57343 c)

unfoldable pub is_text : Text → Bool
is_text [] = true
is_text (c ∷ cs) = is_encodable c && is_text cs

abbrev pub fits : ℕ → Text → Bool
fits n s = leb (length s) n && is_text s

-- `session_id` is a UNIQUE String(255), whatever the tenant: none is the error of the database.
unfoldable pub create_conversation :
    Option Text → Text → List Conversation → Option (List Conversation)
create_conversation tenant session rows =
    if any (has_session session) rows || not (fits 255 session)
    then none
    else some (rows ++ record { session_id = session; tenant_id = tenant; row = none } ∷ [])

-- The values that a nullable String(255) and a nullable Text take.
unfoldable pub is_string255 : Json → Bool
is_string255 null = true
is_string255 (str s) = fits 255 s
is_string255 _ = false

unfoldable pub is_long_text : Json → Bool
is_long_text null = true
is_long_text (str s) = is_text s
is_long_text _ = false

-- The columns of the values that come from the model as they are; the others always fit.
unfoldable pub is_storable : Row → Bool
is_storable r =
    is_string255 r.lead_name
    && is_string255 r.company_name
    && is_string255 r.industry
    && is_string255 r.timeline
    && is_long_text r.problem_statement

abbrev pub write : Option Text → Text → Row → Conversation → Conversation
write tenant session r c = if matches tenant session c then record c { row = some r } else c

unfoldable pub update_rows : Option Text → Text → Row → List Conversation → List Conversation
update_rows tenant session r rows = map (write tenant session r) rows

-- A value that its column does not take raises, and the transaction is rolled back.
unfoldable pub update_conversation :
    Option Text → Text → Row → List Conversation → Option (List Conversation)
update_conversation tenant session r rows =
    if is_storable r then some (update_rows tenant session r rows) else none

abbrev pub put_entry : Text → Option (ℕ × Row) → Cache → Cache
put_entry session e cache s = if text_eq s session then e else cache s

abbrev with_cache : (Cache → Cache) → Option Cache → Option Cache
with_cache f none = none
with_cache f (some cache) = some (f cache)

unfoldable pub invalidate_session_cache : Text → Backend → Backend
invalidate_session_cache session m = record m {
  redis = with_cache (put_entry session none) m.redis;
}

-- `ttl` is 300.
unfoldable pub cache_session_state : Text → ℕ → Row → Backend → Backend
cache_session_state session now r m = record m {
  redis = with_cache (put_entry session (some (now + 300, r))) m.redis;
}

abbrev pub live : ℕ → Option (ℕ × Row) → Option Row
live now none = none
live now (some (expiry, r)) = if ltb now expiry then some r else none

unfoldable pub get_cached_session_state : Text → ℕ → Backend → Option Row
get_cached_session_state session now m = elim m.redis [
  | none ↦ none
  | some cache ↦ live now (cache session)
]

abbrev pub save_rows :
    Option Text → Text → Row → List Conversation → Found → Option (List Conversation)
save_rows tenant session r rows several = none
save_rows tenant session r rows (one c) = update_conversation tenant session r rows
save_rows tenant session r rows missing = elim (create_conversation tenant session rows) [
  | none ↦ none
  | some created ↦ update_conversation tenant session r created
]

-- `save_state` of the values of a state; `none` is an exception.
unfoldable pub save_state : Option Text → Text → Row → Backend → Option Backend
save_state tenant session r m =
    elim (save_rows tenant session r m.rows (get_conversation tenant session m.rows)) [
      | none ↦ none
      | some rows ↦ some (invalidate_session_cache session (record m { rows = rows }))
    ]

-- What a lookup gives to the turn, and what it leaves in the cache.
abbrev pub remember : Text → ℕ → Option Row → Backend → Option (Option Row) × Backend
remember session now none m = (some none, m)
remember session now (some r) m = (some (some r), cache_session_state session now r m)

abbrev pub load_rows : Text → ℕ → Found → Backend → Option (Option Row) × Backend
load_rows session now missing m = (some none, m)
load_rows session now several m = (none, m)
load_rows session now (one c) m = remember session now c.row m

-- `load_state`: none is an exception, `some none` no state.
unfoldable pub load_state : Option Text → Text → ℕ → Backend → Option (Option Row) × Backend
load_state tenant session now m = elim (get_cached_session_state session now m) [
  | some r ↦ (some (some r), m)
  | none ↦ load_rows session now (get_conversation tenant session m.rows) m
]

module _ (st : Settings) (coerce : Text → Option Text) where
  abbrev pub save_and_answer : Request → Outcome → Backend → Answer × Backend
  save_and_answer q (finished s ns es) m =
      elim (save_state q.tenant_id q.session_id (saved_values coerce s) m) [
        | none ↦ (answer false (finished s ns es), m)
        | some m' ↦ (answer true (finished s ns es), m')
      ]
  save_and_answer q (raised ns es) m = (answer false (raised ns es), m)
  save_and_answer q out_of_steps m = (answer false out_of_steps, m)

  abbrev pub with_loaded : World → Request → Option (Option Row) → Backend → Answer × Backend
  with_loaded w q none m = (failed, m)
  with_loaded w q (some row) m = save_and_answer q (run_agent st w q row) m

  -- `handle_message` with the load inside `run_agent` and the save after it, at the time `now`.
  unfoldable pub handle_stored : World → Request → ℕ → Backend → Answer × Backend
  handle_stored w q now m =
      let (loaded, m') = load_state q.tenant_id q.session_id now m in with_loaded w q loaded m'
