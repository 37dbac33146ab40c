-- ===== src/Prelude/TextLaws.antt =====
-- Equality of texts, and lists that are filtered and mapped.
use leadpulse.Prelude.Tests.{Bool-cases}
use leadpulse.Prelude.Text.{Text, text_eq}
use leadpulse.Prelude.Lists.{any, keep_if}
use mathlib.Core.Path.{◌≡◌, refl}
use mathlib.Core.Logic.{inl, inr}
use mathlib.Core.Bool.{Bool, true, false}
use mathlib.Core.List.{List, [], ◌∷◌, ◌++◌, map}
use native.Mathlib.Omega.{arith}

pub text_eq_refl : (s : Text) → text_eq s s ≡ true
unfolding text_eq
text_eq_refl [] = refl
text_eq_refl (c ∷ s) = ground (arith, text_eq_refl s)

pub text_eq_sound : (s t : Text) → text_eq s t ≡ true → s ≡ t
unfolding text_eq
text_eq_sound [] [] h = refl
text_eq_sound [] (d ∷ t) h = cc
text_eq_sound (c ∷ s) [] h = cc
text_eq_sound (c ∷ s) (d ∷ t) h = ground (arith, text_eq_sound s t)

module _ {ℓ} {A : Type ℓ} where
  pub keep_if-append :
      (p : A → Bool) (xs ys : List A) → keep_if p (xs ++ ys) ≡ keep_if p xs ++ keep_if p ys
  keep_if-append p [] ys = refl
  keep_if-append p (x ∷ xs) ys = ground (arith, keep_if-append p xs ys)

  pub keep_if-none :
      (p q : A → Bool) (xs : List A)
      → ((x : A) → p x ≡ true → q x ≡ true)
      → any q xs ≡ false
      → keep_if p xs ≡ []
  keep_if-none p q [] sub h = refl
  keep_if-none p q (x ∷ xs) sub h = elim (Bool-cases (p x)) [
    | inl e ↦ ground (arith, sub x e)
    | inr e ↦ ground (arith, keep_if-none p q xs sub)
  ]

  pub keep_if-map :
      (p : A → Bool) (f : A → A) (xs : List A)
      → ((x : A) → p (f x) ≡ p x)
      → keep_if p (map f xs) ≡ map f (keep_if p xs)
  keep_if-map p f [] same = refl
  keep_if-map p f (x ∷ xs) same = ground (arith, same x, keep_if-map p f xs same)

  pub map-same :
      (p : A → Bool) (f : A → A) (xs : List A)
      → ((x : A) → p x ≡ true → f x ≡ x)
      → map f (keep_if p xs) ≡ keep_if p xs
  map-same p f [] same = refl
  map-same p f (x ∷ xs) same = elim (Bool-cases (p x)) [
    | inl e ↦ ground (arith, same x e, map-same p f xs same)
    | inr e ↦ ground (arith, map-same p f xs same)
  ]

  pub keep_if-cons : (p : A → Bool) (xs ys : List A) (c : A) → keep_if p xs ≡ c ∷ ys → p c ≡ true
  keep_if-cons p [] ys c h = cc
  keep_if-cons p (x ∷ xs) ys c h = elim (Bool-cases (p x)) [
    | inl e ↦ ground arith
    | inr e ↦ keep_if-cons p xs ys c (ground arith)
  ]

  pub keep_if-added :
      (p : A → Bool) (xs : List A) (y : A) → p y ≡ false → keep_if p (xs ++ y ∷ []) ≡ keep_if p xs
  keep_if-added p [] y out = ground arith
  keep_if-added p (x ∷ xs) y out = ground (arith, keep_if-added p xs y out)
