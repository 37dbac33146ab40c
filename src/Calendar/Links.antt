-- ===== src/Calendar/Links.antt =====
-- The scheduling links of app/agent/tools/calendar.py and the meetings of
-- app/agent/tools/meeting_booking.py.
use leadpulse.Prelude.{
  ℕ, Bool, ◌||◌, Option, none, some, List, [], ◌∷◌, ◌++◌, if◌then◌else◌, keep_if, length, not,
  is_some,
}
use leadpulse.Prelude.Text.{Text, text, text_eq, is_empty}
use leadpulse.Prelude.Decimal.{str_nat}
use leadpulse.Calendar.{Calendly, CalendarSettings}

-- A dict by its keys, in the order of insertion.
abbrev pub Entries : Type 0 → Type 0
Entries A = List (Text × A)

unfoldable pub get : {A : Type 0} → Text → Entries A → Option A
get k [] = none
get k (e ∷ es) = if text_eq e.0 k then some e.1 else get k es

unfoldable pub set : {A : Type 0} → Text → A → Entries A → Entries A
set k v [] = (k, v) ∷ []
set k v (e ∷ es) = let rest = set k v es in if text_eq e.0 k then (k, v) ∷ es else e ∷ rest

pub record Invitation : Type 0 where
  pub url : Text
  pub status : Text

pub record Link : Type 0 where
  pub booking_url : Text
  pub owner : Text
  pub status : Text

abbrev pub stub_id : Entries Invitation → Text
stub_id store = text "stub-" ++ str_nat (length store)

-- The stub link, with its status.
abbrev pub stub_link : Text → Entries Invitation → Link × Entries Invitation
stub_link state store =
    let url = text "https://calendly.com/fake-booking/" ++ stub_id store in
    (
      record { booking_url = url; owner = text "stub"; status = state },
      set (stub_id store) (record { url = url; status = state }) store,
    )

abbrev or_empty : Option Text → Text
or_empty none = []
or_empty (some s) = s

-- `event_type_uri or settings.calendly_event_type_uri`
abbrev pub link_uri : CalendarSettings → Option Text → Text
link_uri st none = st.calendly_event_type_uri
link_uri st (some u) = if is_empty u then st.calendly_event_type_uri else u

abbrev pub active_link :
    Text → Option (Option Text × Option Text) → Entries Invitation → Link × Entries Invitation
active_link uri none store = stub_link (text "stub-fallback") store
active_link uri (some (url, owner)) store = (
  record { booking_url = or_empty url; owner = or_empty owner; status = text "active" },
  set uri (record { url = or_empty url; status = text "active" }) store,
)

-- `create_single_use_scheduling_link`
unfoldable pub create_single_use_scheduling_link :
    Calendly → CalendarSettings → Option Text → Entries Invitation → Link × Entries Invitation
create_single_use_scheduling_link c st event_type_uri store =
    let uri = link_uri st event_type_uri in
    if is_empty st.calendly_api_key || is_empty uri
    then stub_link (text "stub") store
    else active_link uri (c.scheduling_links uri) store

-- The store after links for the given event types.
unfoldable pub links_created :
    Calendly → CalendarSettings → List (Option Text) → Entries Invitation → Entries Invitation
links_created c st [] store = store
links_created c st (u ∷ us) store =
    links_created c st us (create_single_use_scheduling_link c st u store).1

-- What check_booking_status returns: a status with a link, or the events of Calendly, or its error.
pub data BookingStatus {ℓ} (E : Type ℓ) : Type ℓ where
  stored : Text → Option Text → BookingStatus E
  events : List E → BookingStatus E
  unavailable : BookingStatus E

abbrev pub of_entry {ℓ} : {E : Type ℓ} → Option Invitation → BookingStatus E
of_entry none = stored (text "unknown") none
of_entry (some i) = stored i.status (some i.url)

abbrev of_events {ℓ} : {E : Type ℓ} → Option (List E) → BookingStatus E
of_events none = unavailable
of_events (some es) = events es

-- `check_booking_status`, with the events that Calendly lists for a user.
unfoldable pub check_booking_status {ℓ} :
    {E : Type ℓ}
    → (Text → Option (List E))
    → CalendarSettings
    → Text
    → Entries Invitation
    → BookingStatus E
check_booking_status scheduled_events st session_id store =
    if is_empty st.calendly_api_key || is_empty st.calendly_user_uri
    then of_entry (get session_id store)
    else of_events (scheduled_events st.calendly_user_uri)

pub record Meeting : Type 0 where
  pub meeting_id : Text
  pub session_id : Text
  pub proposed_time : Text
  pub timezone : Text
  pub status : Text
  pub created_at : Text

-- `book_meeting`, at a time of so many seconds with its text.
unfoldable pub book_meeting :
    ℕ → Text → Text → Text → Text → Entries Meeting → Meeting × Entries Meeting
book_meeting seconds now session_id proposed_time timezone booked =
    let m : Meeting = record {
      meeting_id = text "mtg-" ++ session_id ++ text "-" ++ str_nat seconds;
      session_id = session_id;
      proposed_time = proposed_time;
      timezone = timezone;
      status = text "confirmed";
      created_at = now;
    } in
    (m, set session_id m booked)

unfoldable pub get_booking : Text → Entries Meeting → Option Meeting
get_booking session_id booked = get session_id booked

-- `cancel_booking`, where a stored meeting is never None.
unfoldable pub cancel_booking : Text → Entries Meeting → Bool × Entries Meeting
cancel_booking session_id booked =
    (is_some (get session_id booked), keep_if (λ e. not (text_eq e.0 session_id)) booked)
