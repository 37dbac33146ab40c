-- ===== src/DemoTokens.antt =====
-- Demo tokens: app/services/demo_tokens.py. Times are seconds.
pub mod RoundTrip
pub mod Issue
pub mod Hourly
mod Tests
use leadpulse.Prelude.{
  ℕ, ◌+◌, Bool, true, false, Option, none, some, List, [], ◌∷◌, ◌++◌, if◌then◌else◌, ltb, ◌==◌,
}
use leadpulse.Prelude.Text.{Text, text_eq}
use leadpulse.Prelude.Decimal.{str_nat, read_nat}

-- The packages: URL-safe Base64 of a text, none where a token is not one, and the digest of a payload
-- under the secret, in hexadecimal digits.
pub record TokenPackages : Type 0 where
  pub b64encode : Text → Text
  pub b64decode : Text → Option Text
  pub sign : Text → Text

-- `s.split(".")`
abbrev pub cons_first : ℕ → List Text → List Text
cons_first c [] = (c ∷ []) ∷ []
cons_first c (part ∷ parts) = (c ∷ part) ∷ parts

unfoldable pub split_dots : Text → List Text
split_dots [] = [] ∷ []
split_dots (c ∷ s) = let rest = split_dots s in if c == b'.' then [] ∷ rest else cons_first c rest

module _ (x : TokenPackages) (ttl : ℕ) where
  -- `f"{a}.{b}"`
  abbrev pub dotted : Text → Text → Text
  dotted a b = a ++ b'.' ∷ b

  unfoldable pub issue_demo_token : ℕ → Text → Text × ℕ
  issue_demo_token now session =
      let payload = dotted session (str_nat (now + ttl)) in
      (x.b64encode (dotted payload (x.sign payload)), now + ttl)

  -- The checks of the three parts, in order. `int` of a text that is not a run of digits counts as an
  -- error, as it is for all but a few spellings, none of which is signed.
  abbrev pub check_expiry : ℕ → Text → Text → Text → Option ℕ → Bool
  check_expiry now session expires sig none = false
  check_expiry now session expires sig (some at) =
      if ltb at now then false else text_eq sig (x.sign (dotted session expires))

  abbrev pub check_parts : ℕ → Text → List Text → Bool
  check_parts now session [] = false
  check_parts now session (a ∷ []) = false
  check_parts now session (a ∷ b ∷ []) = false
  check_parts now session (a ∷ b ∷ c ∷ []) =
      if text_eq a session then check_expiry now a b c (read_nat b) else false
  check_parts now session (a ∷ b ∷ c ∷ d ∷ parts) = false

  unfoldable pub verify_demo_token : ℕ → Text → Text → Bool
  verify_demo_token now token session = elim (x.b64decode token) [
    | none ↦ false
    | some raw ↦ check_parts now session (split_dots raw)
  ]
