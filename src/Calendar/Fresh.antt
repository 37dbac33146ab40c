-- ===== src/Calendar/Fresh.antt =====
-- The links of app/agent/tools/calendar.py: which entries a new link leaves, and what is found.
use leadpulse.Prelude.{ℕ, ◌<◌, true, false, Option, none, some, ◌++◌, ◌≡◌, ◌⊎◌, length, is_some}
use leadpulse.Prelude.Text.{Text, text, text_eq, starts_with}
use leadpulse.Prelude.Decimal.{str_nat}
use leadpulse.Calendar.{Calendly, CalendarSettings}
use leadpulse.Calendar.Links.{Link, Entries, Invitation, get, link_uri}

abbrev pub stub_key : ℕ → Text
stub_key n = text "stub-" ++ str_nat n

-- Each stub id that is a key has a number below that of the next one.
abbrev pub IsNumbered : Entries Invitation → Type 0
IsNumbered store = (n : ℕ) → is_some (get (stub_key n) store) ≡ true → n < length store

-- A new link leaves an entry as it is: the entries of the stub are never overwritten, and an entry
-- of Calendly only by a new link of its own event type.
Kept : CalendarSettings → Option Text → Entries Invitation → Entries Invitation → Type 0
Kept st u store store' =
    (k : Text) (i : Invitation)
    → text_eq (link_uri st u) k ≡ false
    → get k store ≡ some i
    → get k store' ≡ some i

module _ (c : Calendly) (st : CalendarSettings) where
  -- The link is stored, under a key of no earlier link or under its own event type.
  abbrev pub StoresLink : Option Text → Entries Invitation → Link × Entries Invitation → Type 0
  StoresLink u store r =
      (key : Text) × (get key r.1 ≡ some (record { url = r.0.booking_url; status = r.0.status }))
      × ((key ≡ link_uri st u) ⊎ (get key store ≡ none))

  -- No event type has the name of a stub.
  abbrev pub IsPlain : Option Text → Type 0
  IsPlain u = starts_with (text "stub-") (link_uri st u) ≡ false
