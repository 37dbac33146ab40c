-- ===== src/Conversations/Disclosure.antt =====
-- To whom a conversation is shown: app/api/conversation.py and app/api/deps.py.
use leadpulse.Prelude.{
  ℕ, true, ◌≡◌, refl, inl, inr, Option, none, some, List, [], keep_if, Option-cases, arith,
}
use leadpulse.Prelude.Text.{Text}
use leadpulse.Prelude.TextLaws.{text_eq_sound, keep_if-cons}
use leadpulse.Billing.{text_is}
use leadpulse.Access.{
  Outside, AccessSettings, Headers, Access, Identity, granted, unauthorized, forbidden, crashed,
  given, super_admin, bearer, is_demo, single_tenant, multi_tenant, authenticate_request,
}
use leadpulse.Accounts.Requests.{ok}
use leadpulse.Memory.{Conversation, Found, missing, several, one, matches, get_conversation}
use leadpulse.Memory.Rows.{sole-one}
use leadpulse.Conversations.{
  Body, extract_session_id, with_session, tenant_of, of_found, history_for,
  get_conversation_history,
}

module _ (x : Outside) (st : AccessSettings) (str_of : ℕ → Text) where
  -- What an identity may read: every conversation without an organization, else its own.
  pub data MayRead (i : Identity) (c : Conversation) : Type 0 where
    anything : i.organization ≡ none → MayRead i c
    its_own : (id : ℕ) → i.organization ≡ some id → c.tenant_id ≡ some (str_of id) → MayRead i c

  get_conversation-matches :
      (t : Option Text) (s : Text) (rows : List Conversation) (c : Conversation)
      → get_conversation t s rows ≡ one c
      → matches t s c ≡ true
  unfolding get_conversation
  get_conversation-matches t s rows c h =
      keep_if-cons (matches t s) rows [] c (sole-one (keep_if (matches t s) rows) c h)

  text_is_sound : (o : Option Text) (t : Text) → text_is o t ≡ true → o ≡ some t
  text_is_sound none t h = cc
  text_is_sound (some s) t h = ground (arith, text_eq_sound s t)

  MayRead-found :
      (i : Identity) (session : Text) (rows : List Conversation) (c : Conversation)
      → get_conversation (tenant_of x st str_of i) session rows ≡ one c
      → (c.session_id ≡ session) × MayRead i c
  MayRead-found i session rows c h =
      let m = get_conversation-matches (tenant_of x st str_of i) session rows c h in
      elim (Option-cases i.organization) [
        | inl e ↦ (ground (arith, text_eq_sound c.session_id session), anything e)
        | inr (id, e) ↦ (
          ground (arith, text_eq_sound c.session_id session),
          its_own id e (text_is_sound c.tenant_id (str_of id) (ground arith)),
        )
      ]

  history_for-MayRead :
      (a : Access) (session : Text) (rows : List Conversation) (c : Conversation)
      → history_for x st str_of a session rows ≡ ok c
      → (i : Identity) × (a ≡ granted i) × (c.session_id ≡ session) × MayRead i c
  history_for-MayRead unauthorized session rows c h = cc
  history_for-MayRead forbidden session rows c h = cc
  history_for-MayRead crashed session rows c h = cc
  history_for-MayRead (granted i) session rows c h =
      let (same, may) =
        MayRead-found i session rows c
          (found (get_conversation (tenant_of x st str_of i) session rows) h) in
      (i, refl, same, may)
    where
      found : (f : Found) → of_found x st str_of f ≡ ok c → f ≡ one c
      found missing h = cc
      found several h = cc
      found (one d) h = ground arith

  -- A conversation that is shown is the one of the path, and the request is let in as someone with no
  -- organization or with the one that the conversation belongs to.
  pub get_conversation_history-MayRead :
      (h : Headers) (body : Body) (session : Text) (rows : List Conversation) (c : Conversation)
      → get_conversation_history x st str_of h body session rows ≡ ok c
      → (i : Identity) × (authenticate_request x st (with_session body (some session) h)
          ≡ granted i)
        × (c.session_id ≡ session)
        × MayRead i c
  unfolding get_conversation_history
  get_conversation_history-MayRead h body session rows c shown =
      history_for-MayRead (authenticate_request x st (with_session body (some session) h)) session
        rows c shown

  is_demo-verified :
      (h : Headers) (token session : Text)
      → given h.demo_token ≡ some token
      → given h.session_id ≡ some session
      → x.verify_demo_token token session ≡ true
      → is_demo x h ≡ true
  unfolding is_demo
  is_demo-verified h token session has_token has_session verified = ground arith

  demo-granted :
      (h : Headers) (token session : Text)
      → given h.widget_key ≡ none
      → bearer x h ≡ none
      → given h.demo_token ≡ some token
      → given h.session_id ≡ some session
      → x.verify_demo_token token session ≡ true
      → authenticate_request x st h ≡ super_admin
  unfolding authenticate_request multi_tenant single_tenant
  demo-granted h token session no_key no_bearer has_token has_session verified =
      let demo = is_demo-verified h token session has_token has_session verified in ground arith

  -- A demo token opens every conversation: with a token for the session that its body names, a request
  -- without other credentials is shown the conversation of the session in its path, whichever tenant
  -- it belongs to.
  pub get_conversation_history-demo :
      (h : Headers) (token own session : Text) (rows : List Conversation) (c : Conversation)
      → given h.widget_key ≡ none
      → given h.authorization ≡ none
      → given h.demo_token ≡ some token
      → given (some own) ≡ some own
      → x.verify_demo_token token own ≡ true
      → get_conversation none session rows ≡ one c
      → get_conversation_history x st str_of h (some (some own)) session rows ≡ ok c
  unfolding get_conversation_history extract_session_id bearer
  get_conversation_history-demo h token own session rows c no_key no_bearer has_token named verified
        found =
      rw
        (demo-granted (with_session (some (some own)) (some session) h) token own no_key
          (ground arith) has_token named verified)
        (rw found refl)
