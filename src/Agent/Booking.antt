-- ===== src/Agent/Booking.antt =====
-- Whether a message books a meeting: app/agent/nodes/meeting_booking.py.
use leadpulse.Prelude.{
  Bool, true, false, not, ◌&&◌, ◌||◌, Option, none, some, List, [], ◌∷◌, if◌then◌else◌, any, head?,
  take,
}
use leadpulse.Prelude.Text.{Text, text, lower, contains}
use leadpulse.Agent.State.{NodeName}
use leadpulse.Agent.World.{Slot}

abbrev booking_words : List Text
booking_words =
    text "yes"
    ∷ text "confirm"
    ∷ text "book"
    ∷ text "schedule"
    ∷ text "sure"
    ∷ text "sounds good"
    ∷ text "that works"
    ∷ []

-- The loop over the slots: the first that the message names.
unfoldable pub named_slot : Text → List Slot → Option Slot
unfolding contains lower
named_slot user_text [] = none
named_slot user_text (slot ∷ slots) =
    if contains (lower slot.label) user_text || contains (take 10 slot.datetime) user_text
    then some slot
    else named_slot user_text slots

abbrev slot_time : Option Slot → Option Text
slot_time none = none
slot_time (some slot) = some slot.datetime

abbrev pub is_meeting : NodeName → Bool
is_meeting NodeName.meeting_booking = true
is_meeting _ = false

-- Whether the booking is confirmed, and the time.
unfoldable pub booking : NodeName → Text → List Slot → Bool × Option Text
unfolding named_slot contains
booking node user_text slots =
    if any (λ word. contains word user_text) booking_words
    then (elim (named_slot user_text slots) [
      | some slot ↦ (true, some slot.datetime)
      | none ↦
          if is_meeting node && not (contains (text "?") user_text)
          then (true, slot_time (head? slots))
          else (false, none)
    ])
    else (false, none)
