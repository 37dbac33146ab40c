-- ===== src/DemoTokens/RoundTrip.antt =====
-- Which tokens verify: app/services/demo_tokens.py.
use mathlib.Core.List.{append_assoc}
use leadpulse.Prelude.{
  ℕ, suc, ◌+◌, ◌≤◌, Bool, true, false, not, ◌&&◌, ◌≡◌, ◌∙◌, refl, inl, inr, some, List, [], ◌∷◌,
  ◌++◌, if◌then◌else◌, ltb, leb, ◌==◌, any, all, length, Bool-cases, arith,
}
use leadpulse.Prelude.Text.{Text, text_eq, is_digit}
use leadpulse.Prelude.TextLaws.{text_eq_refl}
use leadpulse.Prelude.Decimal.{str_nat, all-str_nat, read_nat-str_nat}
use leadpulse.DemoTokens.{
  TokenPackages, split_dots, cons_first, dotted, issue_demo_token, check_parts, verify_demo_token,
}

abbrev pub has_dot : Text → Bool
has_dot s = any (λ c. c == b'.') s

abbrev dots : Text → ℕ
dots [] = 0
dots (c ∷ s) = let rest = dots s in if c == b'.' then suc rest else rest

length-cons_first :
    (c n : ℕ) (parts : List Text) → length parts ≡ suc n → length (cons_first c parts) ≡ suc n
length-cons_first c n [] h = omega (arith, h)
length-cons_first c n (part ∷ parts) h = h

length-split_dots : (s : Text) → length (split_dots s) ≡ suc (dots s)
unfolding split_dots
length-split_dots [] = refl
length-split_dots (c ∷ s) =
    ground (arith, length-split_dots s, length-cons_first c (dots s) (split_dots s))

dots-dotted : (s t : Text) → dots (s ++ b'.' ∷ t) ≡ suc (dots s + dots t)
dots-dotted [] t = omega arith
dots-dotted (c ∷ s) t = ground (arith, dots-dotted s t)

dots-some : (s : Text) → has_dot s ≡ true → 1 ≤ dots s
dots-some [] h = cc
dots-some (c ∷ s) h = ground (arith, dots-some s)

-- A text without a dot is one part, and the first part of a text that it begins.
split_dots-whole : (s : Text) → has_dot s ≡ false → split_dots s ≡ s ∷ []
unfolding split_dots
split_dots-whole [] h = refl
split_dots-whole (c ∷ s) h = ground (arith, split_dots-whole s)

split_dots-first : (s t : Text) → has_dot s ≡ false → split_dots (s ++ b'.' ∷ t) ≡ s ∷ split_dots t
unfolding split_dots
split_dots-first [] t h = refl
split_dots-first (c ∷ s) t h = ground (arith, split_dots-first s t)

has_dot-digits : (s : Text) → all is_digit s ≡ true → has_dot s ≡ false
has_dot-digits [] h = refl
has_dot-digits (c ∷ s) h = ground (arith, has_dot-digits s)

expiry :
    (later expires : ℕ) (sig : Text)
    → (if ltb expires later then false else text_eq sig sig) ≡ leb later expires
expiry later expires sig = ground (arith, text_eq_refl sig)

module _ (x : TokenPackages) (ttl : ℕ) where
  check_parts-many :
      (now : ℕ) (session : Text) (parts : List Text)
      → 4 ≤ length parts
      → check_parts x ttl now session parts ≡ false
  check_parts-many now session [] h = ground arith
  check_parts-many now session (a ∷ []) h = ground arith
  check_parts-many now session (a ∷ b ∷ []) h = ground arith
  check_parts-many now session (a ∷ b ∷ c ∷ []) h = ground arith
  check_parts-many now session (a ∷ b ∷ c ∷ d ∷ parts) h = refl

  abbrev signed : ℕ → Text → Text
  signed expires session =
      dotted x ttl (dotted x ttl session (str_nat expires))
        (x.sign (dotted x ttl session (str_nat expires)))

  split_dots-signed :
      (expires : ℕ) (session : Text)
      → has_dot session ≡ false
      → ((s : Text) → has_dot (x.sign s) ≡ false)
      → split_dots (signed expires session)
        ≡ session ∷ str_nat expires ∷ x.sign (dotted x ttl session (str_nat expires)) ∷ []
  split_dots-signed expires session h plain =
      let digits = has_dot-digits (str_nat expires) (all-str_nat expires) in
      let sig = x.sign (dotted x ttl session (str_nat expires)) in
      rw
        (
          append_assoc session (b'.' ∷ str_nat expires) (b'.' ∷ sig),
          split_dots-first session (str_nat expires ++ b'.' ∷ sig) h,
          split_dots-first (str_nat expires) sig digits,
          split_dots-whole sig (plain (dotted x ttl session (str_nat expires))),
        )
        refl

  length-signed :
      (expires : ℕ) (session : Text)
      → has_dot session ≡ true
      → 4 ≤ length (split_dots (signed expires session))
  length-signed expires session h = omega (
    arith,
    length-split_dots (signed expires session),
    dots-some session h,
    dots-dotted (dotted x ttl session (str_nat expires))
        (x.sign (dotted x ttl session (str_nat expires))),
    dots-dotted session (str_nat expires),
  )

  check_parts-signed :
      (expires later : ℕ) (session other : Text)
      → ((s : Text) → has_dot (x.sign s) ≡ false)
      → check_parts x ttl later other (split_dots (signed expires session))
        ≡ (not (has_dot session) && text_eq session other && leb later expires)
  check_parts-signed expires later session other plain = elim (Bool-cases (has_dot session)) [
    | inl e ↦ rw e (
        check_parts-many later other (split_dots (signed expires session))
          (length-signed expires session e))
    | inr e ↦ elim (Bool-cases (text_eq session other)) [
      | inr f ↦ rw (split_dots-signed expires session e plain, e, f) refl
      | inl f ↦
          rw (split_dots-signed expires session e plain, e, f, read_nat-str_nat expires)
            (expiry later expires (x.sign (dotted x ttl session (str_nat expires))))
    ]
  ]

  verify_demo_token-decoded :
      (later : ℕ) (token raw other : Text)
      → x.b64decode token ≡ some raw
      → verify_demo_token x ttl later token other ≡ check_parts x ttl later other (split_dots raw)
  unfolding verify_demo_token
  verify_demo_token-decoded later token raw other e = ground arith

  -- A token that is issued for a session verifies, for this session, until it expires, unless the
  -- session's id has a dot: then it never does.
  pub verify_demo_token-issue_demo_token :
      (now later : ℕ) (session other : Text)
      → ((s : Text) → x.b64decode (x.b64encode s) ≡ some s)
      → ((s : Text) → has_dot (x.sign s) ≡ false)
      → verify_demo_token x ttl later (issue_demo_token x ttl now session).0 other
        ≡ (not (has_dot session) && text_eq session other && leb later (now + ttl))
  unfolding issue_demo_token
  verify_demo_token-issue_demo_token now later session other decodes plain =
      verify_demo_token-decoded later (x.b64encode (signed (now + ttl) session))
        (signed (now + ttl) session) other (decodes (signed (now + ttl) session))
      ∙ (check_parts-signed (now + ttl) later session other plain)
