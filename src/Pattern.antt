-- ===== src/Pattern.antt =====
-- The regular expressions of app/agent/tools/lead_scoring.py, as lists of items.
-- A gap, a run of digits and an optional letter take all they can. In these expressions what
-- follows such an item never begins with a character that the item takes, so a match that gives
-- characters back does not arise.
use leadpulse.Prelude.{
  ℕ, ◌+◌, ◌*◌, ◌-◌, Bool, true, false, not, Option, none, some, List, [], ◌∷◌, ◌==◌, if◌then◌else◌,
  is_some,
}
use leadpulse.Prelude.Text.{Text, is_digit, is_space, is_word}

pub data Item : Type 0 where
  word : Text → Item
  gap digits edge : Item
  maybe : ℕ → Item

abbrev pub Pattern : Type 0
Pattern = List Item

-- Where a match has arrived: whether the character before is of `\w`, the digits taken, the rest.
pub record Cursor : Type 0 where
  pub after_word : Bool
  pub taken : Text
  pub rest : Text

abbrev step_over : Cursor → ℕ → Text → Cursor
step_over c d s = record c { after_word = is_word d; rest = s }

-- A literal.
eat_word : Text → Text → Bool → Text → Option Cursor
eat_word [] taken b s = some (record { after_word = b; taken = taken; rest = s })
eat_word (p ∷ ps) taken b [] = none
eat_word (p ∷ ps) taken b (d ∷ s) = if p == d then eat_word ps taken (is_word d) s else none

-- `\s*`
eat_gap : Text → Bool → Text → Cursor
eat_gap taken b [] = record { after_word = b; taken = taken; rest = [] }
eat_gap taken b (d ∷ s) =
    if is_space d
    then eat_gap taken false s
    else record { after_word = b; taken = taken; rest = d ∷ s }

-- The run of digits at the front of a text, and what follows it.
digit_run : Text → Text
digit_run [] = []
digit_run (d ∷ s) = if is_digit d then d ∷ digit_run s else []

past_digits : Text → Text
past_digits [] = []
past_digits (d ∷ s) = if is_digit d then past_digits s else d ∷ s

-- `(\d+)`
eat_digits : Cursor → Option Cursor
unfolding digit_run past_digits
eat_digits c = elim (digit_run c.rest) [
  | [] ↦ none
  | d ∷ ds ↦ some (record { after_word = true; taken = d ∷ ds; rest = past_digits c.rest })
]

eat_maybe : ℕ → Cursor → Text → Cursor
eat_maybe o c [] = c
eat_maybe o c (d ∷ s) = if o == d then step_over c d s else c

-- `\b`: exactly one of the characters around is of `\w`.
abbrev word_ahead : Text → Bool
word_ahead [] = false
word_ahead (d ∷ s) = is_word d

abbrev at_edge : Cursor → Bool
at_edge c = if c.after_word then not (word_ahead c.rest) else word_ahead c.rest

eat : Item → Cursor → Option Cursor
unfolding eat_word eat_gap eat_digits eat_maybe
eat (word p) c = eat_word p c.taken c.after_word c.rest
eat gap c = some (eat_gap c.taken c.after_word c.rest)
eat digits c = eat_digits c
eat edge c = if at_edge c then some c else none
eat (maybe o) c = some (eat_maybe o c c.rest)

match_here : Pattern → Cursor → Option Cursor
match_here [] c = some c
match_here (i ∷ is) c = elim (eat i c) [ none ↦ none | some c' ↦ match_here is c' ]

-- The leftmost match of `pattern.search`, as the digits that its group took.
search_from : Pattern → Bool → Text → Option Text
search_from p b [] = elim (match_here p (record { after_word = b; taken = []; rest = [] })) [
  | none ↦ none
  | some c ↦ some c.taken
]
search_from p b (d ∷ s) =
    elim (match_here p (record { after_word = b; taken = []; rest = d ∷ s })) [
      | none ↦ search_from p (is_word d) s
      | some c ↦ some c.taken
    ]

unfoldable pub find : Pattern → Text → Option Text
unfolding search_from match_here eat
find p s = search_from p false s

-- A search for `p|q|…`, where only success matters.
unfoldable pub found_any : List Pattern → Text → Bool
unfolding find
found_any [] s = false
found_any (p ∷ ps) s = if is_some (find p s) then true else found_any ps s

number_from : ℕ → Text → ℕ
number_from n [] = n
number_from n (d ∷ s) = number_from (10 * n + (d - b'0')) s

-- `int(digits)`
unfoldable pub number : Text → ℕ
unfolding number_from
number s = number_from 0 s
