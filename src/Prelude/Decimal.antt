-- ===== src/Prelude/Decimal.antt =====
-- `str(n)` of a number that is not negative, and the number that a run of digits stands for.
use Prim.Native.Nat.{ℕ, zero, suc, ◌+◌, ◌-◌, ◌*◌, ◌/◌, ◌%◌, ◌≤◌, ◌<◌}
use mathlib.Core.Path.{◌≡◌, refl, sym, ap, ◌∙◌}
use mathlib.Core.Logic.{inl, inr}
use mathlib.Core.List.{List, [], ◌∷◌, ◌++◌}
use native.Mathlib.Omega.{arith}
use leadpulse.Prelude.Tests.{ltb, if◌then◌else◌, Bool-cases}
use leadpulse.Prelude.Lists.{all}
use leadpulse.Prelude.Text.{Text, is_digit, is_empty}
use mathlib.Core.Option.{Option, none, some}
use mathlib.Core.Bool.{Bool, true, false, not, ◌&&◌}

-- The digits of a number that is at most the first argument.
unfoldable pub to_digits : ℕ → ℕ → Text
to_digits zero n = (48 + n) ∷ []
to_digits (suc f) n =
    let rest = to_digits f (n / 10) in
    if ltb n 10 then (48 + n) ∷ [] else rest ++ (48 + n % 10) ∷ []

unfoldable pub str_nat : ℕ → Text
unfolding to_digits
str_nat n = to_digits n n

-- The digits after a number that was read.
unfoldable pub read_from : ℕ → Text → ℕ
read_from acc [] = acc
read_from acc (c ∷ s) = read_from (acc * 10 + (c - 48)) s

read_from-append :
    (acc : ℕ) (s : Text) (c : ℕ) → read_from acc (s ++ c ∷ []) ≡ read_from acc s * 10 + (c - 48)
unfolding read_from
read_from-append acc [] c = refl
read_from-append acc (d ∷ s) c = read_from-append (acc * 10 + (d - 48)) s c

read_from-to_digits : (f n : ℕ) → n ≤ f → read_from 0 (to_digits f n) ≡ n
unfolding read_from to_digits
read_from-to_digits zero n h = omega (arith, h)
read_from-to_digits (suc f) n h = elim (Bool-cases (ltb n 10)) [
  | inl small ↦ ground arith
  | inr large ↦
      let rest = read_from-to_digits f (n / 10) (omega (arith, h)) in
      rw large (read_from-append 0 (to_digits f (n / 10)) (48 + n % 10) ∙ omega (arith, rest, h))
]

pub all-append {ℓ} :
    {A : Type ℓ} (p : A → Bool) (xs ys : List A) → all p (xs ++ ys) ≡ all p xs && all p ys
all-append p [] ys = refl
all-append p (x ∷ xs) ys = ground (arith, all-append p xs ys)

all-to_digits : (f n : ℕ) → n ≤ f → all is_digit (to_digits f n) ≡ true
unfolding to_digits
all-to_digits zero n h = ground arith
all-to_digits (suc f) n h = elim (Bool-cases (ltb n 10)) [
  | inl small ↦ ground arith
  | inr large ↦
      let low : n % 10 < 10 = omega arith in
      ground (
        arith,
        all-append is_digit (to_digits f (n / 10)) ((48 + n % 10) ∷ []),
        all-to_digits f (n / 10),
        low,
      )
]

-- `int(s)` of a run of digits.
abbrev pub read_nat : Text → Option ℕ
read_nat s = if not (is_empty s) && all is_digit s then some (read_from 0 s) else none

append-filled : (s : Text) (c : ℕ) → is_empty (s ++ c ∷ []) ≡ false
append-filled [] c = refl
append-filled (d ∷ s) c = refl

to_digits-filled : (f n : ℕ) → is_empty (to_digits f n) ≡ false
unfolding to_digits
to_digits-filled zero n = refl
to_digits-filled (suc f) n = elim (Bool-cases (ltb n 10)) [
  | inl small ↦ ground arith
  | inr large ↦ ground (arith, append-filled (to_digits f (n / 10)) (48 + n % 10))
]

pub all-str_nat : (n : ℕ) → all is_digit (str_nat n) ≡ true
unfolding str_nat
all-str_nat n = all-to_digits n n (omega arith)

pub read_nat-str_nat : (n : ℕ) → read_nat (str_nat n) ≡ some n
unfolding str_nat
read_nat-str_nat n =
    rw (to_digits-filled n n, all-to_digits n n (omega arith))
      (ap some (read_from-to_digits n n (omega arith)))

pub str_nat-injective : (n m : ℕ) → str_nat n ≡ str_nat m → n ≡ m
unfolding str_nat
str_nat-injective n m e =
    sym (read_from-to_digits n n (omega arith))
    ∙ ap (read_from 0) e
    ∙ read_from-to_digits m m (omega arith)
