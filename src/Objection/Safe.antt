-- ===== src/Objection/Safe.antt =====
-- Short messages that _classify_message of app/agent/tools/objection_detection.py takes for safe.
use leadpulse.Prelude.{true, ◌≡◌, refl, List, [], ◌∷◌, arith, ltb, length, ◌++◌}
use leadpulse.Prelude.Text.{Text, text, starts_with, contains, lower, strip}
use leadpulse.Objection.{classify_message, classify_lower, safe, any_in, safe_phrases}

starts_with_trans :
    (p k m : Text) → starts_with p k ≡ true → starts_with k m ≡ true → starts_with p m ≡ true
unfolding starts_with
starts_with_trans [] k m h g = refl
starts_with_trans (a ∷ p) [] m h g = cc
starts_with_trans (a ∷ p) (b ∷ k) [] h g = cc
starts_with_trans (a ∷ p) (b ∷ k) (c ∷ m) h g = ground (arith, starts_with_trans p k m)

contains_empty : (m : Text) → contains [] m ≡ true
unfolding contains
contains_empty [] = refl
contains_empty (c ∷ m) = refl

contains_of_prefix :
    (p k m : Text) → contains p k ≡ true → starts_with k m ≡ true → contains p m ≡ true
unfolding contains
contains_of_prefix [] [] m h g = contains_empty m
contains_of_prefix (a ∷ p) [] m h g = cc
contains_of_prefix p (b ∷ k) [] h g = cc
contains_of_prefix p (b ∷ k) (c ∷ m) h g =
    ground (arith, starts_with_trans p (b ∷ k) (c ∷ m), contains_of_prefix p k m)

-- What is in a part of a text is in the text.
pub contains_trans :
    (p k m : Text) → contains p k ≡ true → contains k m ≡ true → contains p m ≡ true
unfolding contains
contains_trans [] k m h g = contains_empty m
contains_trans (a ∷ p) [] [] h g = cc
contains_trans (a ∷ p) [] (c ∷ m) h g = cc
contains_trans (a ∷ p) (b ∷ k) [] h g = cc
contains_trans (a ∷ p) (b ∷ k) (c ∷ m) h g =
    ground (arith, contains_of_prefix (a ∷ p) (b ∷ k) (c ∷ m), contains_trans (a ∷ p) (b ∷ k) m)

any_in_of_contains :
    (p : Text) (ps : List Text) (msg : Text) → contains p msg ≡ true → any_in (p ∷ ps) msg ≡ true
unfolding any_in
any_in_of_contains p ps msg h = rw h

any_in-cons :
    (p : Text) (ps : List Text) (msg : Text) → any_in ps msg ≡ true → any_in (p ∷ ps) msg ≡ true
unfolding any_in
any_in-cons p ps msg h = ground arith

any_in_mono :
    (before ps : List Text) (msg : Text) → any_in ps msg ≡ true → any_in (before ++ ps) msg ≡ true
any_in_mono [] ps msg h = h
any_in_mono (b ∷ bs) ps msg h = any_in-cons b (bs ++ ps) msg (any_in_mono bs ps msg h)

abbrev phrases_before_no : List Text
phrases_before_no =
    text "hello"
    ∷ text "hi "
    ∷ text "hey"
    ∷ text "good morning"
    ∷ text "good afternoon"
    ∷ text "thanks"
    ∷ text "thank you"
    ∷ text "sure"
    ∷ text "okay"
    ∷ text "ok "
    ∷ text "yes"
    ∷ []

classify_lower_safe :
    (msg : Text)
    → any_in safe_phrases msg ≡ true
    → ltb (length msg) 60 ≡ true
    → classify_lower msg ≡ safe
unfolding classify_lower
classify_lower_safe msg h short = rw (h, short)

no_is_safe : (msg : Text) → contains (text "no") msg ≡ true → any_in safe_phrases msg ≡ true
no_is_safe msg h = any_in_mono phrases_before_no _ msg (any_in_of_contains (text "no") _ msg h)

-- A message of fewer than 60 characters that holds any phrase with "no" in it ("not now",
-- "not interested", "not ready", "no value" among the keywords of objections) is classified as
-- safe, so that no objection is found and the model is not asked.
pub classify_message_no :
    (message keyword : Text)
    → contains (text "no") keyword ≡ true
    → contains keyword (strip (lower message)) ≡ true
    → ltb (length (strip (lower message))) 60 ≡ true
    → classify_message message ≡ safe
unfolding classify_message
classify_message_no message keyword h k short =
    let msg = strip (lower message) in
    classify_lower_safe msg (no_is_safe msg (contains_trans (text "no") keyword msg h k)) short
