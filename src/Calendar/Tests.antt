-- ===== src/Calendar/Tests.antt =====
-- Slots of a week, links, and a meeting that is cancelled.
use leadpulse.Prelude.{
  ℕ, List, Option, ◌+◌, true, ◌&&◌, none, some, [], ◌∷◌, ◌≡◌, refl, length, any, ltb, leb,
}
use leadpulse.Prelude.Text.{Text, text, text_eq, rstrip_slashes}
use leadpulse.Prelude.Decimal.{str_nat}
use leadpulse.Calendar.{
  Calendly, CalendarSettings, slots_from, get_event_type_uuid, calendly_get_available_slots,
  stub_get_available_slots, slots_of,
}
use leadpulse.Calendar.Links.{
  Entries, Invitation, get, set, create_single_use_scheduling_link, links_created, book_meeting,
  cancel_booking,
}
use leadpulse.Calendar.Slots.{slots_from-offered, is_slot, is_offered}

abbrev calendly : Calendly
calendly = record {
  isoformat = λ d h. str_nat d;
  label = λ d h. str_nat h;
  available_times = λ uuid days. some (some (text "2026-03-04T09:00:00Z") ∷ none ∷ []);
  label_of_start = λ s. some (text "Wednesday");
  scheduling_links = λ uri. some (some (text "https://calendly.com/d/1"), none);
}

abbrev settings : CalendarSettings
settings = record {
  calendly_api_key = [];
  calendly_event_type_uri = text "https://api.calendly.com/event_types/AAA/";
  calendly_user_uri = [];
}

-- From a Saturday: the next weekday is a Monday.
weekend : length (slots_from 7 3) ≡ 14
unfolding slots_from
weekend = refl

uuid : get_event_type_uuid (text "https://api.calendly.com/event_types/AAA/") ≡ some (text "AAA")
unfolding get_event_type_uuid rstrip_slashes
uuid = refl

-- One broken item of Calendly's answer, and the stub's slots are offered.
broken_item :
    calendly_get_available_slots calendly settings 6 2 ≡ stub_get_available_slots calendly 6 2
unfolding calendly_get_available_slots slots_of get_event_type_uuid rstrip_slashes
broken_item = refl

slots_from-offered_example :
    any (is_slot 8 9) (slots_from (6 + 1) 14) ≡ ((ltb 6 8 && leb 8 (6 + 14)) && is_offered 8 9)
slots_from-offered_example = slots_from-offered 6 14 8 9

abbrev session : Text
session = text "sess-1"

abbrev two_links : Entries Invitation
two_links = links_created calendly settings (none ∷ none ∷ []) []

third_link :
    (create_single_use_scheduling_link calendly settings none two_links).0.booking_url
    ≡ text "https://calendly.com/fake-booking/stub-2"
unfolding text_eq links_created create_single_use_scheduling_link set get str_nat
third_link = refl

cancelled :
    cancel_booking session (book_meeting 7 (text "now") session (text "noon") (text "UTC") []).1
    ≡ (true, [])
unfolding cancel_booking book_meeting get set text_eq
cancelled = refl

abbrev no_events : Text → Option (List ℕ)
no_events u = some []
