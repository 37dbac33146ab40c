-- ===== src/Conversations.antt =====
-- Reading conversations: app/api/conversation.py behind authenticate_request of app/api/deps.py.
pub mod Disclosure
pub mod Pages
pub mod Debug
mod Tests
use leadpulse.Prelude.{
  ℕ, Bool, Option, none, some, List, [], ◌∷◌, if◌then◌else◌, keep_if, map, take, drop, reverse,
}
use leadpulse.Prelude.Text.{Text}
use leadpulse.Access.{
  Outside, AccessSettings, Headers, Access, Identity, granted, unauthorized, forbidden, crashed,
  authenticate_request, get_current_user,
}
use leadpulse.Accounts.Requests.{Reply, ok, http}
use leadpulse.Memory.{Conversation, Found, missing, several, one, get_conversation, is_of_tenant}

-- The `session_id` of a body that is a dict, or none for another body or no body.
abbrev pub Body : Type 0
Body = Option (Option Text)

-- `_extract_session_id`
unfoldable pub extract_session_id : Body → Option Text → Option Text
extract_session_id none path = path
extract_session_id (some session) path = session

-- The headers as the check of a demo token sees them.
abbrev pub with_session : Body → Option Text → Headers → Headers
with_session body path h = record h { session_id = extract_session_id body path }

module _ (x : Outside) (st : AccessSettings) (str_of : ℕ → Text) where
  -- `request.state.tenant_id`
  abbrev pub tenant_of : Identity → Option Text
  tenant_of i = elim i.organization [ none ↦ none | some id ↦ some (str_of id) ]

  abbrev pub of_found : Found → Reply Conversation
  of_found missing = http 404
  of_found several = Reply.crashed
  of_found (one c) = ok c

  abbrev pub history_for : Access → Text → List Conversation → Reply Conversation
  history_for (granted i) session rows = of_found (get_conversation (tenant_of i) session rows)
  history_for unauthorized session rows = http 401
  history_for forbidden session rows = http 403
  history_for crashed session rows = Reply.crashed

  -- The row that the response shows.
  unfoldable pub get_conversation_history :
      Headers → Body → Text → List Conversation → Reply Conversation
  get_conversation_history h body session rows =
      history_for (authenticate_request x st (with_session body (some session) h)) session rows
