-- ===== src/Calendar/Slots.antt =====
-- The slots of the stub calendar of app/agent/tools/calendar.py.
use leadpulse.Prelude.{
  ℕ, zero, suc, ◌+◌, Bool, true, false, ◌&&◌, List, [], ◌∷◌, ◌++◌, ◌≡◌, refl, ap, any, ltb, leb,
  ◌==◌, arith, ◌∙◌, ◌||◌,
}
use leadpulse.Calendar.{weekday, slot_hours, slots_of_day, slots_from}

abbrev pub is_slot : ℕ → ℕ → ℕ × ℕ → Bool
is_slot day hour t = t.0 == day && t.1 == hour

any-append {ℓ} :
    {A : Type ℓ} (p : A → Bool) (xs ys : List A) → any p (xs ++ ys) ≡ (any p xs || any p ys)
any-append p [] ys = refl
any-append p (x ∷ xs) ys = ground (arith, any-append p xs ys)

slots_of_day-any :
    (start day hour : ℕ)
    → any (is_slot day hour) (slots_of_day start)
      ≡ (start == day && (ltb (weekday day) 5 && any (λ h. h == hour) slot_hours))
slots_of_day-any start day hour = ground arith

distributed : (a b w : Bool) → ((a && w) || (b && w)) ≡ ((a || b) && w)
distributed true b true = refl
distributed true true false = refl
distributed true false false = refl
distributed false b w = refl

in_range :
    (start n day : ℕ)
    → ((start == day) || (leb (suc start) day && ltb day (suc start + n)))
      ≡ (leb start day && ltb day (start + suc n))
in_range start n day = ground arith

-- An hour of the list, on a weekday.
abbrev pub is_offered : ℕ → ℕ → Bool
is_offered day hour = ltb (weekday day) 5 && any (λ h. h == hour) slot_hours

slots_from-any :
    (start n day hour : ℕ)
    → any (is_slot day hour) (slots_from start n)
      ≡ ((leb start day && ltb day (start + n)) && is_offered day hour)
unfolding slots_from
slots_from-any start zero day hour = ground arith
slots_from-any start (suc n) day hour =
    any-append (is_slot day hour) (slots_of_day start) (slots_from (suc start) n)
    ∙ ap (λ b. b || any (is_slot day hour) (slots_from (suc start) n))
        (slots_of_day-any start day hour)
    ∙ ap (λ b. (start == day && is_offered day hour) || b) (slots_from-any (suc start) n day hour)
    ∙ distributed (start == day) (leb (suc start) day && ltb day (suc start + n))
        (is_offered day hour)
    ∙ ap (λ b. b && is_offered day hour) (in_range start n day)

-- The stub offers a day and an hour just when the day is a weekday after today and at most
-- `days_ahead` days later, and the hour is one of the seven of a day.
pub slots_from-offered :
    (today days_ahead day hour : ℕ)
    → any (is_slot day hour) (slots_from (today + 1) days_ahead)
      ≡ ((ltb today day && leb day (today + days_ahead)) && is_offered day hour)
slots_from-offered today days_ahead day hour =
    slots_from-any (today + 1) days_ahead day hour
    ∙ ap (λ b. b && is_offered day hour) (after today days_ahead day)
  where
    after : (t n d : ℕ) → (leb (t + 1) d && ltb d (t + 1 + n)) ≡ (ltb t d && leb d (t + n))
    after t n d = ground arith
