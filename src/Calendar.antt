-- ===== src/Calendar.antt =====
-- Meeting slots and scheduling links: app/agent/tools/calendar.py and app/agent/tools/meeting_booking.py.
-- A date is its ordinal, of which 1 is a Monday.
pub mod Slots
pub mod Links
pub mod Fresh
mod Tests
use leadpulse.Prelude.{
  ℕ, zero, suc, ◌+◌, ◌-◌, ◌%◌, Bool, true, false, ◌||◌, Option, none, some, List, [], ◌∷◌, ◌++◌,
  if◌then◌else◌, ltb, leb, ◌==◌, keep_if, map, length, reverse, head?, is_some, or_else,
}
use leadpulse.Prelude.Text.{Text, text, text_eq, is_empty, rstrip_slashes}
use leadpulse.Prelude.Decimal.{str_nat}
use leadpulse.Agent.World.{Slot}

abbrev pub weekday : ℕ → ℕ
weekday day = (day + 6) % 7

abbrev pub slot_hours : List ℕ
slot_hours = 9 ∷ 10 ∷ 11 ∷ 13 ∷ 14 ∷ 15 ∷ 16 ∷ []

abbrev pub slots_of_day : ℕ → List (ℕ × ℕ)
slots_of_day day = if leb 5 (weekday day) then [] else map (λ hour. (day, hour)) slot_hours

-- The loop of `_stub_get_available_slots` over so many days from the given one: days and hours.
unfoldable pub slots_from : ℕ → ℕ → List (ℕ × ℕ)
slots_from day zero = []
slots_from day (suc n) = slots_of_day day ++ slots_from (suc day) n

-- What is outside: texts of times, and the answers of Calendly, none for an exception. An item
-- without a start_time, or with one that is no datetime, raises.
pub record Calendly : Type 0 where
  pub isoformat : ℕ → ℕ → Text
  pub label : ℕ → ℕ → Text
  pub available_times : Text → ℕ → Option (List (Option Text))
  pub label_of_start : Text → Option Text
  pub scheduling_links : Text → Option (Option Text × Option Text)

pub record CalendarSettings : Type 0 where
  pub calendly_api_key : Text
  pub calendly_event_type_uri : Text
  pub calendly_user_uri : Text

-- `_stub_get_available_slots`, with today's date.
unfoldable pub stub_get_available_slots : Calendly → ℕ → ℕ → List Slot
stub_get_available_slots c today days_ahead =
    map (λ t. record { datetime = c.isoformat t.0 t.1; label = c.label t.0 t.1 })
      (slots_from (today + 1) days_ahead)

-- `s.rsplit("/", 1)[-1]` of reversed texts.
abbrev before_slash : Text → Text
before_slash [] = []
before_slash (c ∷ s) = if c == b'/' then [] else c ∷ before_slash s

-- `_get_event_type_uuid`
unfoldable pub get_event_type_uuid : Text → Option Text
get_event_type_uuid uri =
    if is_empty uri then none else some (reverse (before_slash (reverse (rstrip_slashes uri))))

abbrev pub slot_of : Calendly → Option Text → Option Slot
slot_of c none = none
slot_of c (some start) = elim (c.label_of_start start) [
  | none ↦ none
  | some l ↦ some (record { datetime = start; label = l })
]

abbrev add_slot : Option Slot → Option (List Slot) → Option (List Slot)
add_slot none rest = none
add_slot (some s) none = none
add_slot (some s) (some rest) = some (s ∷ rest)

-- The loop over the collection.
unfoldable pub slots_of : Calendly → List (Option Text) → Option (List Slot)
slots_of c [] = some []
slots_of c (i ∷ is) = add_slot (slot_of c i) (slots_of c is)

abbrev collected : Calendly → Option (List (Option Text)) → Option (List Slot)
collected c none = none
collected c (some items) = slots_of c items

-- `_calendly_get_available_slots`
unfoldable pub calendly_get_available_slots : Calendly → CalendarSettings → ℕ → ℕ → List Slot
calendly_get_available_slots c st today days_ahead =
    let stub = stub_get_available_slots c today days_ahead in
    elim (get_event_type_uuid st.calendly_event_type_uri) [
      | none ↦ stub
      | some uuid ↦
          if is_empty uuid
          then stub
          else or_else (collected c (c.available_times uuid days_ahead)) stub
    ]

-- `get_available_slots`
unfoldable pub get_available_slots : Calendly → CalendarSettings → ℕ → ℕ → List Slot
get_available_slots c st today days_ahead =
    if is_empty st.calendly_api_key
    then stub_get_available_slots c today days_ahead
    else calendly_get_available_slots c st today days_ahead
