-- ===== src/Agent/Budget.antt =====
-- Reading a budget: parse_budget and its helpers in app/agent/nodes/helpers.py. Amounts are exact
-- decimals where the source has floats.
use leadpulse.Prelude.{
  ℕ, ◌+◌, ◌*◌, ◌^◌, Bool, true, false, ◌||◌, ◌&&◌, not, Option, none, some, List, [], ◌∷◌, ◌++◌,
  reverse, ◌==◌, if◌then◌else◌, keep_if, length, any, drop,
}
use leadpulse.Prelude.Text.{
  Text, text, text_eq, is_empty, is_digit, lower, strip, strip_left, starts_with,
}
use leadpulse.Prelude.Int.{pos, pos_part}
use leadpulse.Pattern.{number}
use leadpulse.Scoring.{Amount}
use leadpulse.Agent.State.{Json, null, str, num, bool, compound}

-- `[\d.]`
abbrev is_number_char : ℕ → Bool
is_number_char c = is_digit c || c == b'.'

number_run : Text → Text
number_run [] = []
number_run (c ∷ s) = if is_number_char c then c ∷ number_run s else []

past_number : Text → Text
past_number [] = []
past_number (c ∷ s) = if is_number_char c then past_number s else c ∷ s

before_dot : Text → Text
before_dot [] = []
before_dot (c ∷ s) = if c == b'.' then [] else c ∷ before_dot s

after_dot : Text → Option Text
after_dot [] = none
after_dot (c ∷ s) = if c == b'.' then some s else after_dot s

amount : ℕ → ℕ → Amount
amount n k = record { num = pos n; scale = k }

-- `float(value)` of a text of digits and dots: one dot at most, and a digit.
decimal : Text → Option Text → Option Amount
unfolding amount number
decimal whole none = if is_empty whole then none else some (amount (number whole) 0)
decimal whole (some frac) =
    if any (λ c. c == b'.') frac || (is_empty whole && is_empty frac)
    then none
    else some (amount (number (whole ++ frac)) (length frac))

float : Text → Option Amount
unfolding decimal before_dot after_dot
float s = decimal (before_dot s) (after_dot s)

-- The alternatives of the unit group, in their order; `none` where the text is no unit.
abbrev units : List Text
units =
    text "m"
    ∷ text "mn"
    ∷ text "million"
    ∷ text "M"
    ∷ text "lakh"
    ∷ text "L"
    ∷ text "crore"
    ∷ text "Cr"
    ∷ text "cr"
    ∷ text "k"
    ∷ text "K"
    ∷ []

one_of : List Text → Text → Bool
unfolding text_eq
one_of [] s = false
one_of (x ∷ xs) s = if text_eq x s then true else one_of xs s

-- `_CRORE`, `_LAKH`, `_THOUSAND`, `_MILLION` by the lower-case unit.
factor : Text → ℕ
unfolding one_of
factor unit =
    if one_of (text "cr" ∷ text "crore" ∷ []) unit
    then 10_000_000
    else if one_of (text "l" ∷ text "lakh" ∷ []) unit
    then 100_000
    else if one_of (text "k" ∷ []) unit
    then 1_000
    else if one_of (text "m" ∷ text "mn" ∷ text "million" ∷ []) unit
    then 1_000_000
    else 1

abbrev times : ℕ → Amount → Amount
times f a = record a { num = pos (pos_part a.num * f) }

-- `_parse_value`, with "" for no unit.
unfoldable pub parse_value : Text → Text → Option Amount
unfolding float factor lower
parse_value value unit = elim (float value) [
  | none ↦ none
  | some a ↦ some (times (factor (lower unit)) a)
]

-- `(l + r) / 2.0`
unfoldable pub average : Amount → Amount → Amount
average l r = record {
  num = pos ((pos_part l.num * 10 ^ r.scale + pos_part r.num * 10 ^ l.scale) * 5);
  scale = l.scale + r.scale + 1;
}

-- The average of two values, or the one that there is.
unfoldable pub combine : Option Amount → Option Amount → Option Amount
unfolding average
combine (some l) (some r) = some (average l r)
combine (some l) none = some l
combine none r = r

-- What follows a number: white space and a unit, or the end.
unit_of : Text → Option Text
unfolding one_of
unit_of s = if is_empty s then some [] else if one_of units s then some s else none

-- `_parse_single`
abbrev single_with : Text → Option Text → Option Amount
single_with value none = none
single_with value (some unit) = if is_empty value then none else parse_value value unit

unfoldable pub parse_single : Text → Option Amount
unfolding parse_value number_run past_number unit_of strip_left
parse_single s = single_with (number_run s) (unit_of (strip_left (past_number s)))

-- What follows "-" or "to" at the front of a text.
past_separator : Text → Option Text
unfolding starts_with
past_separator s =
    if starts_with (text "-") s
    then some (drop 1 s)
    else if starts_with (text "to") s
    then some (drop 2 s)
    else none

range_values : Text → Text → Option Text → Option Amount
range_values left right none = none
range_values left right (some unit) =
    if is_empty left || is_empty right
    then none
    else combine (parse_value left unit) (parse_value right unit)

-- A range with the unit after the right value.
abbrev range_after : Text → Option Text → Option Amount
range_after left none = none
range_after left (some s) =
    let right = strip_left s in
    range_values left (number_run right) (unit_of (strip_left (past_number right)))

shared_unit : Text → Option Amount
unfolding parse_value number_run past_number unit_of strip_left past_separator range_values combine
shared_unit s = range_after (number_run s) (past_separator (strip_left (past_number s)))

-- `_RANGE_SEP_RE.split(cleaned, maxsplit=1)`: the text before the first separator, and after it.
split_at : Text → Text → Option (Text × Text)
unfolding past_separator
split_at before [] = none
split_at before (c ∷ s) = elim (past_separator (c ∷ s)) [
  | none ↦ split_at (c ∷ before) s
  | some rest ↦ some (reverse (strip_left before), strip_left rest)
]

abbrev range_parts : Option (Text × Text) → Option Amount
range_parts none = none
range_parts (some (left, right)) =
    if is_empty left || is_empty right
    then none
    else combine (parse_single left) (parse_single right)

own_units : Text → Option Amount
unfolding split_at strip_left parse_single combine
own_units s = range_parts (split_at [] s)

-- A suffix that `_PERIODIC_RE` matches, in lower case and with no white space in front.
is_period : Text → Bool
unfolding one_of starts_with strip_left
is_period s =
    one_of (text "/mo" ∷ text "/month" ∷ text "/yr" ∷ text "/year" ∷ []) s
    || (starts_with (text "per") s
        && one_of (text "month" ∷ text "year" ∷ []) (strip_left (drop 3 s)))

unfoldable pub drop_period : Text → Text
unfolding is_period strip_left lower
drop_period [] = []
drop_period (c ∷ s) = if is_period (lower (strip_left (c ∷ s))) then [] else c ∷ drop_period s

-- `$`, `₹` and commas are dropped.
abbrev is_kept : ℕ → Bool
is_kept c = not (c == b'$' || c == 8377 || c == b',')

unfoldable pub clean : Text → Text
unfolding drop_period strip
clean s = strip (drop_period (strip (keep_if is_kept s)))

abbrev first_some : Option Amount → Option Amount → Option Amount
first_some none o = o
first_some (some a) o = some a

unfoldable pub parse_clean : Text → Option Amount
unfolding shared_unit own_units parse_single
parse_clean s =
    if is_empty s
    then none
    else first_some (shared_unit s) (first_some (own_units s) (parse_single s))

unfoldable pub parse_budget : Json → Option Amount
unfolding parse_clean clean
parse_budget null = none
parse_budget (num a) = some a
parse_budget (bool b) = some (record { num = pos (if b then 1 else 0); scale = 0 })
parse_budget (str s) = parse_clean (clean s)
parse_budget (compound s filled) = parse_clean (clean s)
