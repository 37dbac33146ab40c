-- ===== src/Agent/Reply.antt =====
-- Reading the model's answers: _parse_combined_response of app/agent/nodes/greeting.py and of
-- info_collection.py, and _extract_json. `loads` stands for json.loads.
use leadpulse.Prelude.{
  Bool, ◌||◌, Option, none, some, List, [], ◌∷◌, if◌then◌else◌, or_else, drop, reverse,
}
use leadpulse.Prelude.Text.{
  Text, text, text_eq, upper, lower, strip, strip_left, starts_with, contains, split_lines,
  after_colon,
}
use leadpulse.Scoring.{
  LeadType, individual, company, IntentType, purchase, sell, information, support, partnership,
  unknown,
}
use leadpulse.Agent.State.{Json, null, truthy}

-- What the greeting prompt asks for.
pub record Greeting : Type 0 where
  pub intent : IntentType
  pub lead_type : LeadType
  pub reply : Text

abbrev candidates : List (Text × IntentType)
candidates =
    (text "purchase", purchase)
    ∷ (text "sell", sell)
    ∷ (text "information", information)
    ∷ (text "support", support)
    ∷ (text "partnership", partnership)
    ∷ []

-- The first candidate in the text, or the intent read so far.
intent_in : List (Text × IntentType) → Text → IntentType → IntentType
unfolding contains
intent_in [] raw kept = kept
intent_in ((name, i) ∷ more) raw kept = if contains name raw then i else intent_in more raw kept

lead_type_in : Text → LeadType → LeadType
unfolding contains
lead_type_in raw kept =
    if contains (text "individual") raw
    then individual
    else if contains (text "company") raw || contains (text "business") raw
    then company
    else kept

-- `stripped.upper().startswith(label)`
labelled : Text → Text → Bool
unfolding starts_with upper
labelled label stripped = starts_with label (upper stripped)

greeting_line : Text → Greeting → Greeting
unfolding labelled intent_in lead_type_in after_colon strip lower
greeting_line stripped g =
    if labelled (text "INTENT:") stripped
    then record g { intent = intent_in candidates (lower (strip (after_colon stripped))) g.intent }
    else if labelled (text "LEAD_TYPE:") stripped
    then record g { lead_type = lead_type_in (lower (strip (after_colon stripped))) g.lead_type }
    else if labelled (text "REPLY:") stripped
    then record g { reply = strip (after_colon stripped) }
    else g

greeting_lines : List Text → Greeting → Greeting
unfolding greeting_line
greeting_lines [] g = g
greeting_lines (l ∷ ls) g = greeting_lines ls (greeting_line (strip l) g)

default_lead_type : Text → LeadType
unfolding text_eq
default_lead_type vertical =
    if text_eq vertical (text "real_estate") || text_eq vertical (text "insurance")
    then individual
    else company

unfoldable pub parse_greeting : Text → Text → Greeting
unfolding greeting_lines default_lead_type strip split_lines
parse_greeting t vertical =
    greeting_lines (split_lines t)
      (record { intent = unknown; lead_type = default_lead_type vertical; reply = strip t })

-- A value of json.loads: a dict, or anything else.
pub data Loaded : Type 0 where
  dict : List (Text × Json) → Loaded
  other : Loaded

-- `d.get(key)`
unfoldable pub get : Text → List (Text × Json) → Json
unfolding text_eq
get key [] = null
get key ((k, v) ∷ d) = if text_eq k key then v else get key d

-- `a or b`
abbrev pub or_value : Json → Json → Json
or_value a b = if truthy a then a else b

abbrev fence : Text
fence = text "```"

-- The text up to the next fence, if there is one.
until_fence : Text → Text → Option Text
unfolding starts_with
until_fence taken [] = none
until_fence taken (c ∷ s) =
    if starts_with fence (c ∷ s) then some (reverse taken) else until_fence (c ∷ taken) s

-- The group of the search for an optional "json" and what stands between two fences.
inside_fence : Text → Option Text
unfolding starts_with until_fence strip_left
inside_fence [] = none
inside_fence (c ∷ s) =
    if starts_with fence (c ∷ s)
    then (let body = drop 3 (c ∷ s) in
        until_fence [] (strip_left (if starts_with (text "json") body then drop 4 body else body)))
    else inside_fence s

unfoldable pub json_text : Text → Text
unfolding inside_fence strip
json_text t = elim (inside_fence (strip t)) [ none ↦ strip t | some s ↦ strip s ]

abbrev dict_of : Option Loaded → Option (List (Text × Json))
dict_of none = none
dict_of (some (dict d)) = some d
dict_of (some other) = none

-- What the info collection prompt asks for.
pub record Collected : Type 0 where
  pub extracted : List (Text × Json)
  pub reply : Text

module _ (loads : Text → Option Loaded) where
  unfoldable pub extract_json : Text → Option (List (Text × Json))
  unfolding json_text
  extract_json t = dict_of (loads (json_text t))

  collected_line : Text → Collected → Collected
  unfolding labelled extract_json after_colon strip
  collected_line stripped c =
      if labelled (text "EXTRACTED:") stripped
      then record c {
        extracted = or_else (extract_json (strip (after_colon stripped))) c.extracted;
      }
      else if labelled (text "REPLY:") stripped
      then record c { reply = strip (after_colon stripped) }
      else c

  collected_lines : List Text → Collected → Collected
  unfolding collected_line
  collected_lines [] c = c
  collected_lines (l ∷ ls) c = collected_lines ls (collected_line (strip l) c)

  unfoldable pub parse_collected : Text → Collected
  unfolding collected_lines split_lines strip
  parse_collected t = collected_lines (split_lines t) (record { extracted = []; reply = t })
