-- ===== src/Memory/Leaks.antt =====
-- What one tenant's saves and loads leave for the others: app/services/memory.py.
use leadpulse.Prelude.{
  ℕ, ◌+◌, ◌<◌, true, false, ◌&&◌, ◌≡◌, refl, inl, inr, Option, none, some, List, [], ◌∷◌, ◌++◌,
  keep_if, Option-cases, arith,
}
use leadpulse.Prelude.Text.{Text, text_eq}
use leadpulse.Prelude.TextLaws.{text_eq_sound, keep_if-map, keep_if-added, map-same}
use leadpulse.Agent.Turn.{Row}
use leadpulse.Memory.{
  Conversation, Backend, Found, missing, several, one, matches, get_conversation,
  create_conversation, write, Cache, update_rows, save_rows, save_state, load_state,
  get_cached_session_state, cache_session_state,
}
use leadpulse.Memory.Rows.{
  matches-write, blank, update_conversation-updated, create_conversation-created, save_state-saved,
  invalidate_session_cache-rows, load_state-one, get_cached_session_state-soon,
}

-- No row is of two sessions or of two tenants.
matches-apart :
    (t t' s s' : Text) (c : Conversation)
    → text_eq s s' && text_eq t t' ≡ false
    → matches (some t) s c ≡ true
    → matches (some t') s' c ≡ false
matches-apart t t' s s' c apart m = elim (Option-cases c.tenant_id) [
  | inl none_ ↦ ground arith
  | inr (u, e) ↦ ground (arith, text_eq_sound c.session_id s, text_eq_sound u t)
]

blank-apart :
    (t t' s s' : Text)
    → text_eq s s' && text_eq t t' ≡ false
    → matches (some t') s' (blank (some t) s) ≡ false
blank-apart t t' s s' apart = ground arith

written-apart :
    (t t' s s' : Text) (r : Row) (rows : List Conversation)
    → text_eq s s' && text_eq t t' ≡ false
    → keep_if (matches (some t') s') (update_rows (some t) s r rows)
      ≡ keep_if (matches (some t') s') rows
unfolding update_rows
written-apart t t' s s' r rows apart =
    rw
      (
        keep_if-map (matches (some t') s') (write (some t) s r) rows
            (matches-write (some t) (some t') s s' r),
        map-same (matches (some t') s') (write (some t) s r) rows
            (λ c m. ground (arith, matches-apart t t' s s' c apart)),
      )
      refl

save_rows-other :
    (t t' s s' : Text) (r : Row) (rows rows' : List Conversation) (f : Found)
    → text_eq s s' && text_eq t t' ≡ false
    → save_rows (some t) s r rows f ≡ some rows'
    → keep_if (matches (some t') s') rows' ≡ keep_if (matches (some t') s') rows
save_rows-other t t' s s' r rows rows' several apart saved = cc
save_rows-other t t' s s' r rows rows' (one c) apart saved =
    let (fits_, is_new) = update_conversation-updated (some t) s r rows rows' saved in
    rw (is_new, written-apart t t' s s' r rows apart) refl
save_rows-other t t' s s' r rows rows' missing apart saved =
    elim (Option-cases (create_conversation (some t) s rows)) [
      | inl refused ↦ ground arith
      | inr (created, made) ↦
          let (fresh, grown) = create_conversation-created (some t) s rows created made in
          let (fits_, is_new) =
            update_conversation-updated (some t) s r created rows' (ground arith) in
          rw
            (
              is_new,
              grown,
              written-apart t t' s s' r (rows ++ blank (some t) s ∷ []) apart,
              keep_if-added (matches (some t') s') rows (blank (some t) s)
                  (blank-apart t t' s s' apart),
            )
            refl
    ]

-- A save by a tenant leaves what every other tenant finds under any session, and what it finds
-- itself under every other session.
pub save_state-other :
    (t t' s s' : Text) (r : Row) (m m' : Backend)
    → text_eq s s' && text_eq t t' ≡ false
    → save_state (some t) s r m ≡ some m'
    → get_conversation (some t') s' m'.rows ≡ get_conversation (some t') s' m.rows
unfolding get_conversation
save_state-other t t' s s' r m m' apart saved =
    let (rows, e, is_new) = save_state-saved (some t) s r m m' saved in
    rw
      (
        is_new,
        invalidate_session_cache-rows s (record m { rows = rows }),
        save_rows-other t t' s s' r m.rows rows (get_conversation (some t) s m.rows) apart e,
      )
      refl

get_cached_session_state-absent :
    (s : Text) (now : ℕ) (m : Backend) (cache : Cache)
    → m.redis ≡ some cache
    → cache s ≡ none
    → get_cached_session_state s now m ≡ none
unfolding get_cached_session_state
get_cached_session_state-absent s now m cache on cold = ground arith

load_state-hit :
    (t : Option Text) (s : Text) (now : ℕ) (m : Backend) (r : Row)
    → get_cached_session_state s now m ≡ some r
    → (load_state t s now m).0 ≡ some (some r)
unfolding load_state
load_state-hit t s now m r hit = ground arith

-- The cache does not know the tenants: where a tenant's load has found a row in the database and
-- Redis holds no entry for the session, every tenant that loads the session within the next
-- 300 seconds is given that row.
pub load_state-any_tenant :
    (t t' : Option Text) (s : Text) (r : Row) (now later : ℕ) (m : Backend) (cache : Cache)
    (c : Conversation)
    → m.redis ≡ some cache
    → cache s ≡ none
    → get_conversation t s m.rows ≡ one c
    → c.row ≡ some r
    → later < now + 300
    → (load_state t' s later (load_state t s now m).1).0 ≡ some (some r)
load_state-any_tenant t t' s r now later m cache c reached cold found kept soon =
    let first =
      load_state-one t s now m c r (get_cached_session_state-absent s now m cache reached cold)
        found kept in
    rw first (
      load_state-hit t' s later (cache_session_state s now r m) r
        (get_cached_session_state-soon s now later r m cache reached soon))
