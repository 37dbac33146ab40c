-- ===== src/Slugs.antt =====
-- Slugs of organizations: app/services/slugs.py.
pub mod Free
mod Tests
use leadpulse.Prelude.{
  ℕ, zero, suc, ◌+◌, Bool, true, false, ◌||◌, Option, none, some, List, [], ◌∷◌, ◌++◌,
  if◌then◌else◌, length, reverse, ◌==◌,
}
use leadpulse.Prelude.Text.{Text, text, is_digit, is_lower, lower, is_empty}
use leadpulse.Prelude.Decimal.{str_nat}
use leadpulse.Billing.{Table, Lookup, missing, several, one, get_organization_by_slug}

abbrev pub is_slug_char : ℕ → Bool
is_slug_char c = is_lower c || is_digit c

-- `re.sub(r"[^a-z0-9]+", "-", s)`: `dashed` tells whether the run before is a dash already.
unfoldable pub dash_runs : Bool → Text → Text
dash_runs dashed [] = []
dash_runs dashed (c ∷ s) =
    let kept = dash_runs false s in
    let dropped = dash_runs true s in
    if is_slug_char c then c ∷ kept else (if dashed then dropped else b'-' ∷ dropped)

-- `s.lstrip("-")` and `s.strip("-")`
unfoldable pub strip_dashes_left : Text → Text
strip_dashes_left [] = []
strip_dashes_left (c ∷ s) = let rest = strip_dashes_left s in if c == b'-' then rest else c ∷ s

unfoldable pub strip_dashes : Text → Text
unfolding strip_dashes_left
strip_dashes s = reverse (strip_dashes_left (reverse (strip_dashes_left s)))

unfoldable pub slugify : Text → Text
unfolding dash_runs strip_dashes
slugify name =
    let slug = strip_dashes (dash_runs false (lower name)) in
    if is_empty slug then text "client" else slug

-- `f"{base}-{counter}"`
abbrev pub numbered : Text → ℕ → Text
numbered base counter = base ++ b'-' ∷ str_nat counter

-- The candidate of a round, or the next round; none is the error of several rows.
abbrev pub try_candidate : Text → Lookup → Option Text → Option Text
try_candidate candidate missing next = some candidate
try_candidate candidate several next = none
try_candidate candidate (one o) next = next

-- The loop, with the rounds that are left; none is also the end of the rounds.
unfoldable pub search_slug : Text → Table → ℕ → ℕ → Text → Option Text
search_slug base db zero counter candidate = none
search_slug base db (suc left) counter candidate =
    try_candidate candidate (get_organization_by_slug candidate db)
      (search_slug base db left (counter + 1) (numbered base counter))

-- `unique_slug`: one round more than there are organizations.
unfoldable pub unique_slug : Text → Table → Option Text
unfolding search_slug
unique_slug base db = search_slug base db (length db + 1) 2 base
