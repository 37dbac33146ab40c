-- ===== src/Memory/Rows.antt =====
-- What save_state leaves in lead_conversations and in the cache: app/services/memory.py.
use leadpulse.Prelude.{
  ℕ, ◌+◌, ◌<◌, true, false, not, ◌||◌, ◌≡◌, refl, inl, inr, Option, none, some, List, [], ◌∷◌, ◌++◌,
  any, keep_if, Bool-cases, Option-cases, arith,
}
use leadpulse.Prelude.Text.{Text}
use leadpulse.Prelude.TextLaws.{
  text_eq_refl, keep_if-append, keep_if-none, keep_if-map, keep_if-cons,
}
use leadpulse.Agent.Turn.{Row}
use leadpulse.Memory.{
  Cache, Conversation, Backend, Found, missing, several, one, sole, is_of_tenant, has_session,
  matches, get_conversation, create_conversation, write, update_rows, update_conversation,
  is_storable, fits, save_rows, save_state, load_state, invalidate_session_cache,
  get_cached_session_state, cache_session_state,
}

abbrev pub blank : Option Text → Text → Conversation
blank tenant session = record { session_id = session; tenant_id = tenant; row = none }

is_of_tenant-blank : (t : Option Text) (s : Text) → is_of_tenant t (blank t s) ≡ true
is_of_tenant-blank none s = refl
is_of_tenant-blank (some t) s = text_eq_refl t

matches-blank : (t : Option Text) (s : Text) → matches t s (blank t s) ≡ true
matches-blank t s = ground (arith, is_of_tenant-blank t s, text_eq_refl s)

is_of_tenant-row :
    (t : Option Text) (c : Conversation) (r : Option Row)
    → is_of_tenant t (record c { row = r }) ≡ is_of_tenant t c
is_of_tenant-row none c r = refl
is_of_tenant-row (some t) c r = refl

pub matches-write :
    (t t' : Option Text) (s s' : Text) (r : Row) (c : Conversation)
    → matches t' s' (write t s r c) ≡ matches t' s' c
matches-write t t' s s' r c = ground (arith, is_of_tenant-row t' c (some r))

pub get_conversation-created :
    (t : Option Text) (s : Text) (rows : List Conversation)
    → any (has_session s) rows ≡ false
    → keep_if (matches t s) (rows ++ blank t s ∷ []) ≡ blank t s ∷ []
get_conversation-created t s rows fresh =
    rw
      (
        keep_if-append (matches t s) rows (blank t s ∷ []),
        keep_if-none (matches t s) (has_session s) rows (λ c m. ground arith) fresh,
        matches-blank t s,
      )
      refl

pub sole-one : (rows : List Conversation) (c : Conversation) → sole rows ≡ one c → rows ≡ c ∷ []
sole-one [] c h = cc
sole-one (d ∷ []) c h = cc
sole-one (d ∷ e ∷ rows) c h = cc

written :
    (t : Option Text) (s : Text) (r : Row) (rows : List Conversation) (c : Conversation)
    → keep_if (matches t s) rows ≡ c ∷ []
    → keep_if (matches t s) (update_rows t s r rows) ≡ record c { row = some r } ∷ []
unfolding update_rows
written t s r rows c found =
    rw
      (
        keep_if-map (matches t s) (write t s r) rows (matches-write t t s s r),
        found,
        keep_if-cons (matches t s) rows [] c found,
      )
      refl

-- An update that succeeds, and what it leaves.
pub update_conversation-updated :
    (t : Option Text) (s : Text) (r : Row) (rows rows' : List Conversation)
    → update_conversation t s r rows ≡ some rows'
    → (is_storable r ≡ true) × (rows' ≡ update_rows t s r rows)
unfolding update_conversation
update_conversation-updated t s r rows rows' e = elim (Bool-cases (is_storable r)) [
  | inl fits_ ↦ (fits_, ground arith)
  | inr not_fit ↦ ground arith
]

-- A creation that succeeds, of a session that no row has.
pub create_conversation-created :
    (t : Option Text) (s : Text) (rows rows' : List Conversation)
    → create_conversation t s rows ≡ some rows'
    → (any (has_session s) rows ≡ false) × (rows' ≡ rows ++ blank t s ∷ [])
unfolding create_conversation
create_conversation-created t s rows rows' e =
    elim (Bool-cases (any (has_session s) rows || not (fits 255 s))) [
      | inl refused ↦ ground arith
      | inr allowed ↦ (ground arith, ground arith)
    ]

-- A save that succeeds leaves one row of the session and the tenant, with the values saved.
pub save_rows-one :
    (t : Option Text) (s : Text) (r : Row) (rows rows' : List Conversation) (f : Found)
    → get_conversation t s rows ≡ f
    → save_rows t s r rows f ≡ some rows'
    → (c : Conversation) × (get_conversation t s rows' ≡ one c) × (c.row ≡ some r)
unfolding get_conversation
save_rows-one t s r rows rows' several e saved = cc
save_rows-one t s r rows rows' (one c) e saved =
    let (fits_, is_new) = update_conversation-updated t s r rows rows' saved in
    (
      record c { row = some r },
      rw (is_new, written t s r rows c (sole-one (keep_if (matches t s) rows) c e)) refl,
      refl,
    )
save_rows-one t s r rows rows' missing e saved =
    elim (Option-cases (create_conversation t s rows)) [
      | inl refused ↦ ground arith
      | inr (created, made) ↦
          let (fresh, grown) = create_conversation-created t s rows created made in
          let (fits_, is_new) = update_conversation-updated t s r created rows' (ground arith) in
          (
            record (blank t s) { row = some r },
            rw
                (
                  is_new,
                  grown,
                  written t s r (rows ++ blank t s ∷ []) (blank t s)
                      (get_conversation-created t s rows fresh),
                )
                refl,
            refl,
          )
    ]

pub get_cached_session_state-invalidated :
    (s : Text) (now : ℕ) (m : Backend)
    → get_cached_session_state s now (invalidate_session_cache s m) ≡ none
unfolding get_cached_session_state invalidate_session_cache
get_cached_session_state-invalidated s now m = ground (arith, text_eq_refl s)

pub get_cached_session_state-cached :
    (s : Text) (now later : ℕ) (r r' : Row) (m : Backend)
    → get_cached_session_state s later (cache_session_state s now r m) ≡ some r'
    → r ≡ r'
unfolding get_cached_session_state cache_session_state
get_cached_session_state-cached s now later r r' m e = elim (Option-cases m.redis) [
  | inl off ↦ ground arith
  | inr (cache, on) ↦ ground (arith, text_eq_refl s)
]

pub get_cached_session_state-soon :
    (s : Text) (now later : ℕ) (r : Row) (m : Backend) (cache : Cache)
    → m.redis ≡ some cache
    → later < now + 300
    → get_cached_session_state s later (cache_session_state s now r m) ≡ some r
unfolding get_cached_session_state cache_session_state
get_cached_session_state-soon s now later r m cache on soon = ground (arith, text_eq_refl s)

pub load_state-one :
    (t : Option Text) (s : Text) (now : ℕ) (m : Backend) (c : Conversation) (r : Row)
    → get_cached_session_state s now m ≡ none
    → get_conversation t s m.rows ≡ one c
    → c.row ≡ some r
    → load_state t s now m ≡ (some (some r), cache_session_state s now r m)
unfolding load_state
load_state-one t s now m c r cold found kept = ground arith

pub save_state-saved :
    (t : Option Text) (s : Text) (r : Row) (m m' : Backend)
    → save_state t s r m ≡ some m'
    → (rows : List Conversation) × (save_rows t s r m.rows (get_conversation t s m.rows)
        ≡ some rows)
      × (m' ≡ invalidate_session_cache s (record m { rows = rows }))
unfolding save_state
save_state-saved t s r m m' saved =
    elim (Option-cases (save_rows t s r m.rows (get_conversation t s m.rows))) [
      | inl e ↦ ground arith
      | inr (rows, e) ↦ (rows, e, ground arith)
    ]

pub invalidate_session_cache-rows :
    (s : Text) (m : Backend) → (invalidate_session_cache s m).rows ≡ m.rows
unfolding invalidate_session_cache
invalidate_session_cache-rows s m = refl

-- After a save that succeeds the session has one row of the tenant, and none in the cache.
pub save_state-one :
    (t : Option Text) (s : Text) (r : Row) (m m' : Backend)
    → save_state t s r m ≡ some m'
    → (c : Conversation) × (get_conversation t s m'.rows ≡ one c)
      × (c.row ≡ some r)
      × ((now : ℕ) → get_cached_session_state s now m' ≡ none)
save_state-one t s r m m' saved =
    let (rows, e, is_new) = save_state-saved t s r m m' saved in
    let (c, found, kept) = save_rows-one t s r m.rows rows (get_conversation t s m.rows) refl e in
    (
      c,
      rw (is_new, invalidate_session_cache-rows s (record m { rows = rows })) found,
      kept,
      λ now. rw is_new (get_cached_session_state-invalidated s now (record m { rows = rows })),
    )

-- What load_state gives at any time after a save that succeeded, by the same tenant and with no
-- other write between them, is the row that was saved, with Redis or without it.
pub load_state-save_state :
    (t : Option Text) (s : Text) (r : Row) (now : ℕ) (m m' : Backend)
    → save_state t s r m ≡ some m'
    → (load_state t s now m').0 ≡ some (some r)
load_state-save_state t s r now m m' saved =
    let (c, found, kept, cold) = save_state-one t s r m m' saved in
    rw (load_state-one t s now m' c r (cold now) found kept) refl
