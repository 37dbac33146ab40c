-- ===== src/Objection.antt =====
-- Objection detection: app/agent/tools/objection_detection.py.
pub mod Safe
mod Tests
use leadpulse.Prelude.{
  ℕ, Bool, true, false, ◌&&◌, ◌≡◌, refl, Option, none, some, List, [], ◌∷◌, ltb, if◌then◌else◌, any,
  length,
}
use leadpulse.Prelude.Text.{Text, text, is_empty, lower, strip, contains}

pub data ObjectionType : Type 0 where
  pricing timing trust competition need authority : ObjectionType

-- `_NEGATIVE_MODIFIERS`
abbrev negative_modifiers : List Text
negative_modifiers =
    text "too"
    ∷ text "can't"
    ∷ text "cannot"
    ∷ text "won't"
    ∷ text "wouldn't"
    ∷ text "don't"
    ∷ text "doesn't"
    ∷ text "isn't"
    ∷ text "aren't"
    ∷ text "wasn't"
    ∷ text "weren't"
    ∷ text "hasn't"
    ∷ text "haven't"
    ∷ text "n't"
    ∷ text "high"
    ∷ text "low"
    ∷ text "tight"
    ∷ text "limited"
    ∷ text "expensive"
    ∷ text "overpriced"
    ∷ text "problem"
    ∷ text "issue"
    ∷ text "concerned"
    ∷ text "worried"
    ∷ text "unhappy"
    ∷ []

abbrev pub Keywords : Type 0
Keywords = List (ObjectionType × List Text)

-- `_OBJECTION_KEYWORDS`
abbrev pub objection_keywords : Keywords
objection_keywords =
    (
      pricing,
      text "expensive"
          ∷ text "too much"
          ∷ text "overpriced"
          ∷ text "can't afford"
          ∷ text "out of range"
          ∷ text "spend that much"
          ∷ [],
    )
    ∷ (
      timing,
      text "not now"
          ∷ text "not ready"
          ∷ text "not the right time"
          ∷ text "later"
          ∷ text "need to think"
          ∷ text "need time"
          ∷ text "call me back"
          ∷ text "busy"
          ∷ text "check back"
          ∷ [],
    )
    ∷ (
      trust,
      text "scam"
          ∷ text "sketchy"
          ∷ text "untrustworthy"
          ∷ text "too good to be true"
          ∷ text "never heard"
          ∷ text "is this legit"
          ∷ text "can you prove"
          ∷ [],
    )
    ∷ (
      competition,
      text "competitor"
          ∷ text "alternatives"
          ∷ text "other option"
          ∷ text "using someone else"
          ∷ text "compare"
          ∷ text "switch from"
          ∷ [],
    )
    ∷ (
      need,
      text "don't need"
          ∷ text "not interested"
          ∷ text "no value"
          ∷ text "not for us"
          ∷ text "waste of time"
          ∷ text "not useful"
          ∷ [],
    )
    ∷ (
      authority,
      text "check with"
          ∷ text "talk to my"
          ∷ text "discuss with"
          ∷ text "ask my"
          ∷ text "boss"
          ∷ text "partner"
          ∷ text "wife"
          ∷ text "husband"
          ∷ [],
    )
    ∷ []

-- `_OBJECTION_KEYWORDS_NEGATIVE_REQUIRED`
abbrev negative_required : Keywords
negative_required = (pricing, text "price" ∷ text "cost" ∷ text "budget" ∷ []) ∷ []

-- `_SAFE_PHRASES`
abbrev pub safe_phrases : List Text
safe_phrases =
    text "hello"
    ∷ text "hi "
    ∷ text "hey"
    ∷ text "good morning"
    ∷ text "good afternoon"
    ∷ text "thanks"
    ∷ text "thank you"
    ∷ text "sure"
    ∷ text "okay"
    ∷ text "ok "
    ∷ text "yes"
    ∷ text "no"
    ∷ text "interested"
    ∷ text "tell me more"
    ∷ text "help"
    ∷ text "please"
    ∷ []

-- `any(p in msg for p in phrases)`
unfoldable pub any_in : List Text → Text → Bool
unfolding contains
any_in [] msg = false
any_in (p ∷ ps) msg = if contains p msg then true else any_in ps msg

-- The two nested loops: the first type with a keyword in the message.
unfoldable pub first_type : Keywords → Text → Option ObjectionType
unfolding any_in
first_type [] msg = none
first_type ((otype, keywords) ∷ more) msg =
    if any_in keywords msg then some otype else first_type more msg

-- `(True, type)`, `(False, None)` and `(None, None)`.
pub data PreFilter : Type 0 where
  objection : ObjectionType → PreFilter
  safe ambiguous : PreFilter

unfoldable pub after_keywords : Option ObjectionType → Option ObjectionType → Bool → PreFilter
after_keywords (some o) weak negative = objection o
after_keywords none none negative = ambiguous
after_keywords none (some o) negative = if negative then objection o else ambiguous

unfoldable pub classify_lower : Text → PreFilter
classify_lower msg =
    if any_in safe_phrases msg && ltb (length msg) 60
    then safe
    else after_keywords (first_type objection_keywords msg) (first_type negative_required msg)
        (any_in negative_modifiers msg)

unfoldable pub classify_message : Text → PreFilter
classify_message message = classify_lower (strip (lower message))

pub data Source : Type 0 where
  empty keyword safe_phrase llm : Source

pub record DetectObjectionResult : Type 0 where
  pub has_objection : Bool
  pub objection_type : Option ObjectionType
  pub source : Source

abbrev found : ObjectionType → Source → DetectObjectionResult
found o src = record { has_objection = true; objection_type = some o; source = src }

abbrev nothing : Source → DetectObjectionResult
nothing src = record { has_objection = false; objection_type = none; source = src }

-- `OBJECTION_TYPES` but for "none", which ends the list and stands for no objection.
abbrev answers : Keywords
answers =
    (pricing, text "pricing" ∷ [])
    ∷ (timing, text "timing" ∷ [])
    ∷ (trust, text "trust" ∷ [])
    ∷ (competition, text "competition" ∷ [])
    ∷ (need, text "need" ∷ [])
    ∷ (authority, text "authority" ∷ [])
    ∷ []

abbrev of_answer : Option ObjectionType → DetectObjectionResult
of_answer none = nothing llm
of_answer (some o) = found o llm

-- `reply` is the model's answer, asked for only if the message is ambiguous; `none` where the
-- call raised.
abbrev of_reply : Option Text → Option DetectObjectionResult
of_reply none = none
of_reply (some reply) = some (of_answer (first_type answers (lower (strip reply))))

unfoldable pub detect_with : PreFilter → Option Text → Option DetectObjectionResult
detect_with (objection o) reply = some (found o keyword)
detect_with safe reply = some (nothing safe_phrase)
detect_with ambiguous reply = of_reply reply

unfoldable pub detect_objection : Text → Option Text → Option DetectObjectionResult
detect_objection message reply =
    if is_empty (strip message)
    then some (nothing empty)
    else detect_with (classify_message message) reply
