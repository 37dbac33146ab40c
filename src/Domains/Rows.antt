-- ===== src/Domains/Rows.antt =====
-- Rows that a query selects, and what holds of all rows of a table.
use leadpulse.Prelude.{
  Bool, true, ◌≡◌, refl, inl, inr, List, [], ◌∷◌, map, keep_if, All, Bool-cases, arith,
}
use leadpulse.Accounts.{one_row, selected}

module _ {ℓ} {A : Type ℓ} (p : A → Bool) where
  selected-none :
      (xs : List A) (P : A → Type ℓ) → keep_if p xs ≡ [] → All (λ y. p y ≡ true → P y) xs
  selected-none [] P h = tt
  selected-none (x ∷ xs) P h = elim (Bool-cases (p x)) [
    | inl e ↦ ground arith
    | inr e ↦ (λ t. ground arith, selected-none xs P (ground arith))
  ]

  selected-cons :
      (x : A) (xs : List A) (o : A) → selected (x ∷ xs) ≡ one_row o → (xs ≡ []) × (x ≡ o)
  selected-cons x [] o h = (refl, ground arith)
  selected-cons x (y ∷ xs) o h = cc

  -- A row that is selected is the only one that the query holds of.
  pub selected-only :
      (xs : List A) (o : A) → selected (keep_if p xs) ≡ one_row o → All (λ y. p y ≡ true → y ≡ o) xs
  selected-only [] o h = tt
  selected-only (x ∷ xs) o h = elim (Bool-cases (p x)) [
    | inl e ↦
        let (nothing, same) = selected-cons x (keep_if p xs) o (ground arith) in
        (λ t. same, selected-none xs (λ y. y ≡ o) nothing)
    | inr e ↦ (λ t. ground arith, selected-only xs o (ground arith))
  ]

  -- It has what all rows have, and the query holds of it.
  pub selected-All {κ} :
      (P : A → Type κ) (xs : List A) (o : A)
      → selected (keep_if p xs) ≡ one_row o
      → All P xs
      → P o × (p o ≡ true)
  selected-All P [] o h a = cc
  selected-All P (x ∷ xs) o h (px, a) = elim (Bool-cases (p x)) [
    | inl e ↦
        let (nothing, same) = selected-cons x (keep_if p xs) o (ground arith) in
        (rw⁻¹ same px, rw⁻¹ same e)
    | inr e ↦ selected-All P xs o (ground arith) a
  ]

module _ {ℓ κ μ} {A : Type ℓ} (P : A → Type κ) (Q : A → Type μ) where
  pub All-map : (f : A → A) (xs : List A) → ((x : A) → P x → Q (f x)) → All P xs → All Q (map f xs)
  All-map f [] h a = tt
  All-map f (x ∷ xs) h (px, a) = (h x px, All-map f xs h a)

  pub All-both : (xs : List A) → All P xs → All Q xs → All (λ x. P x × Q x) xs
  All-both [] a b = tt
  All-both (x ∷ xs) (px, a) (qx, b) = ((px, qx), All-both xs a b)

pub All-same {ℓ κ} : {A : Type ℓ} (P : A → Type κ) (xs ys : List A) → xs ≡ ys → All P ys → All P xs
All-same P xs ys e a = rw e a
