-- ===== src/Conversations/Debug.antt =====
-- The state of a session in debug mode: app/api/debug.py, with get_optional_tenant_id and
-- verify_api_key of app/api/deps.py.
use leadpulse.Prelude.{
  ℕ, Bool, true, not, ◌&&◌, Option, none, some, ◌≡◌, if◌then◌else◌, arith, inl, inr, Bool-cases,
}
use leadpulse.Prelude.Text.{Text, is_empty}
use leadpulse.Billing.{text_is, Organization, one, get_organization_by_widget_key}
use leadpulse.Access.{
  Outside, AccessSettings, Headers, Access, granted, unauthorized, forbidden, crashed, given,
  bearer, is_demo, authenticate_request, get_current_user,
}
use leadpulse.Accounts.Requests.{Reply, ok, http}
use leadpulse.Memory.{
  Conversation, Backend, Found, get_conversation, load_state, get_cached_session_state,
}
use leadpulse.Memory.Rows.{load_state-one}
use leadpulse.Agent.Turn.{Row}
use leadpulse.Conversations.{Body, with_session}

module _ (x : Outside) (st : AccessSettings) (str_of : ℕ → Text) where
  abbrev pub organization_of : Access → Reply (Option ℕ)
  organization_of (granted i) = ok i.organization
  organization_of unauthorized = http 401
  organization_of forbidden = http 403
  organization_of crashed = Reply.crashed

  -- `get_optional_tenant_id`
  unfoldable pub get_optional_tenant_id : Headers → Reply (Option ℕ)
  get_optional_tenant_id h = if not st.auth_enabled then ok none else elim (bearer x h) [
    | none ↦ ok none
    | some token ↦ organization_of (get_current_user x st h)
  ]

  -- `verify_api_key`, with 401 for its refusal.
  unfoldable pub verify_api_key : Headers → Bool
  verify_api_key h =
      if st.auth_enabled
      then true
      else if not (is_empty st.api_key) && text_is h.api_key st.api_key
      then true
      else if is_demo x h
      then true
      else is_empty st.api_key

  abbrev tenant_text : Option ℕ → Option Text
  tenant_text none = none
  tenant_text (some id) = some (str_of id)

  abbrev of_state : Option (Option Row) × Backend → Reply Row × Backend
  of_state (none, m) = (Reply.crashed, m)
  of_state (some none, m) = (http 404, m)
  of_state (some (some r), m) = (ok r, m)

  abbrev state_for : Reply (Option ℕ) → Text → ℕ → Backend → Reply Row × Backend
  state_for (ok tenant) session now m = of_state (load_state (tenant_text tenant) session now m)
  state_for (http n) session now m = (http n, m)
  state_for Reply.crashed session now m = (Reply.crashed, m)

  abbrev debug_for : Access → Headers → Text → ℕ → Backend → Reply Row × Backend
  debug_for (granted i) h session now m = state_for (get_optional_tenant_id h) session now m
  debug_for unauthorized h session now m = (http 401, m)
  debug_for forbidden h session now m = (http 403, m)
  debug_for crashed h session now m = (Reply.crashed, m)

  -- `get_debug_state`: the values of the state that the response shows.
  unfoldable pub get_debug_state : Headers → Body → Text → ℕ → Backend → Reply Row × Backend
  get_debug_state h body session now m =
      debug_for (authenticate_request x st (with_session body (some session) h)) h session now m

  -- In debug mode a widget key, which stands in the page of the organization that it serves, opens the state of every
  -- session, whichever tenant the session belongs to, if the request has no bearer token: the
  -- organization of the key is not asked for. It is so of a session with one row that was saved and
  -- that is not in the cache.
  pub get_debug_state-widget :
      (h : Headers) (body : Body) (session key : Text) (now : ℕ) (m : Backend) (o : Organization)
      (c : Conversation) (r : Row)
      → given h.widget_key ≡ some key
      → get_organization_by_widget_key key x.organizations ≡ one o
      → bearer x h ≡ none
      → get_cached_session_state session now m ≡ none
      → get_conversation none session m.rows ≡ Found.one c
      → c.row ≡ some r
      → (get_debug_state h body session now m).0 ≡ ok r
  unfolding get_debug_state authenticate_request get_optional_tenant_id
  get_debug_state-widget h body session key now m o c r keyed serves no_bearer cold found kept =
      let loaded = load_state-one none session now m c r cold found kept in
      elim (Bool-cases st.auth_enabled) [
        | inl e ↦ ground (arith, e, loaded)
        | inr e ↦ ground (arith, e, loaded)
      ]
