-- ===== src/Conversations/Pages/Complete.antt =====
-- What the pages of a tenant's conversations show together: list_conversations of
-- app/api/conversation.py.
use mathlib.Core.List.Perm
use mathlib.Core.List.{Perm}
use native.Mathlib.Nat.{suc-mul}
use leadpulse.Prelude.{
  Bool, false, ◌==◌, inl, inr, Bool-cases, All, ℕ, zero, suc, ◌+◌, ◌*◌, ◌≤◌, ◌≡◌, refl, ap, ◌∙◌,
  some, List, [], ◌∷◌, ◌++◌, keep_if, take, drop, length, arith,
}
use leadpulse.Prelude.Lists.{All-imp}
use leadpulse.Prelude.Text.{Text}
use leadpulse.Billing.{text_is}
use leadpulse.Access.{Outside, AccessSettings, Headers, Identity, granted, get_current_user}
use leadpulse.Memory.{Conversation}
use leadpulse.Conversations.Pages.{
  is_before, insert_row, order_rows, rows_of_tenant, get_conversations_by_tenant,
  list_conversations, pages,
}

suc_add : (n m : ℕ) → suc n + m ≡ suc (n + m)
suc_add n m = omega arith

module _ {ℓ} {A : Type ℓ} where
  drop-drop : (n m : ℕ) (xs : List A) → drop (n + m) xs ≡ drop m (drop n xs)
  drop-drop zero m xs = ap (λ k. drop k xs) (omega arith)
  drop-drop (suc n) zero [] = rw (suc_add n zero) refl
  drop-drop (suc n) (suc m) [] = rw (suc_add n (suc m)) refl
  drop-drop (suc n) m (x ∷ xs) = rw (suc_add n m) (drop-drop n m xs)

  take-add : (n m : ℕ) (xs : List A) → take n xs ++ take m (drop n xs) ≡ take (n + m) xs
  take-add zero m xs = ap (λ k. take k xs) (omega arith)
  take-add (suc n) zero [] = rw (suc_add n zero) refl
  take-add (suc n) (suc m) [] = rw (suc_add n (suc m)) refl
  take-add (suc n) m (x ∷ xs) = rw (suc_add n m) (ap (λ ys. x ∷ ys) (take-add n m xs))

  take-all : (n : ℕ) (xs : List A) → length xs ≤ n → take n xs ≡ xs
  take-all zero [] h = refl
  take-all zero (x ∷ xs) h = absurd (omega (arith, h))
  take-all (suc n) [] h = refl
  take-all (suc n) (x ∷ xs) h = ap (λ ys. x ∷ ys) (take-all n xs (omega (arith, h)))

-- The newest first.
abbrev pub IsNewestFirst : (Conversation → ℕ) → List Conversation → Type 0
IsNewestFirst created [] = Unit
IsNewestFirst created (c ∷ cs) = All (λ d. created d ≤ created c) cs × IsNewestFirst created cs

-- No two of the rows were created at one time.
abbrev pub IsTimed : (Conversation → ℕ) → List Conversation → Type 0
IsTimed created [] = Unit
IsTimed created (c ∷ cs) = All (λ d. (created d == created c) ≡ false) cs × IsTimed created cs

module _ (created : Conversation → ℕ) (tie : ℕ → Conversation → Conversation → Bool) where
  insert_row-All :
      (P : Conversation → Type 0) (k : ℕ) (c : Conversation) (ds : List Conversation)
      → P c
      → All P ds
      → All P (insert_row created tie k c ds)
  unfolding insert_row
  insert_row-All P k c [] p _ = (p, tt)
  insert_row-All P k c (d ∷ ds) p (q, qs) = elim (Bool-cases (is_before created tie k c d)) [
    | inl t ↦ rw t (p, (q, qs))
    | inr t ↦ rw t (q, insert_row-All P k c ds p qs)
  ]

  insert_row-IsNewestFirst :
      (k : ℕ) (c : Conversation) (ds : List Conversation)
      → IsNewestFirst created ds
      → IsNewestFirst created (insert_row created tie k c ds)
  unfolding insert_row
  insert_row-IsNewestFirst k c [] h = (tt, tt)
  insert_row-IsNewestFirst k c (d ∷ ds) (below, h) =
      elim (Bool-cases (is_before created tie k c d)) [
        | inl t ↦
            let le : created d ≤ created c = ground arith in
            rw t ((le, All-imp (λ e l. omega (arith, l, le)) ds below), (below, h))
        | inr t ↦
            let le : created c ≤ created d = ground arith in
            rw t (
              insert_row-All (λ e. created e ≤ created d) k c ds le below,
              insert_row-IsNewestFirst k c ds h,
            )
      ]

  insert_row-Perm :
      (k : ℕ) (c : Conversation) (ds : List Conversation)
      → Perm (insert_row created tie k c ds) (c ∷ ds)
  unfolding insert_row
  insert_row-Perm k c [] = Perm.refl (c ∷ [])
  insert_row-Perm k c (d ∷ ds) = elim (Bool-cases (is_before created tie k c d)) [
    | inl t ↦ rw t (Perm.refl (c ∷ d ∷ ds))
    | inr t ↦ rw t (Perm.trans (Perm.cons d (insert_row-Perm k c ds)) (Perm.swap c d ds))
  ]

  -- The database need not break a tie.
  insert_row-same :
      (k l : ℕ) (c : Conversation) (ds : List Conversation)
      → All (λ d. (created d == created c) ≡ false) ds
      → insert_row created tie k c ds ≡ insert_row created tie l c ds
  unfolding insert_row
  insert_row-same k l c [] _ = refl
  insert_row-same k l c (d ∷ ds) (e, es) = rw (e, insert_row-same k l c ds es) refl

  order_rows-All :
      (P : Conversation → Type 0) (k : ℕ) (cs : List Conversation)
      → All P cs
      → All P (order_rows created tie k cs)
  unfolding order_rows
  order_rows-All P k [] _ = tt
  order_rows-All P k (c ∷ cs) (p, ps) = insert_row-All P k c _ p (order_rows-All P k cs ps)

  order_rows-IsNewestFirst :
      (k : ℕ) (cs : List Conversation) → IsNewestFirst created (order_rows created tie k cs)
  unfolding order_rows
  order_rows-IsNewestFirst k [] = tt
  order_rows-IsNewestFirst k (c ∷ cs) =
      insert_row-IsNewestFirst k c _ (order_rows-IsNewestFirst k cs)

  order_rows-Perm : (k : ℕ) (cs : List Conversation) → Perm (order_rows created tie k cs) cs
  unfolding order_rows
  order_rows-Perm k [] = Perm.refl []
  order_rows-Perm k (c ∷ cs) =
      Perm.trans (insert_row-Perm k c _) (Perm.cons c (order_rows-Perm k cs))

  length-insert_row :
      (k : ℕ) (c : Conversation) (ds : List Conversation)
      → length (insert_row created tie k c ds) ≡ suc (length ds)
  unfolding insert_row
  length-insert_row k c [] = refl
  length-insert_row k c (d ∷ ds) = ground (arith, length-insert_row k c ds)

  length-order_rows :
      (k : ℕ) (cs : List Conversation) → length (order_rows created tie k cs) ≡ length cs
  unfolding order_rows
  length-order_rows k [] = refl
  length-order_rows k (c ∷ cs) =
      length-insert_row k c (order_rows created tie k cs) ∙ ap suc (length-order_rows k cs)

  order_rows-same :
      (k l : ℕ) (cs : List Conversation)
      → IsTimed created cs
      → order_rows created tie k cs ≡ order_rows created tie l cs
  unfolding order_rows
  order_rows-same k l [] _ = refl
  order_rows-same k l (c ∷ cs) (apart, timed) = rw (order_rows-same k l cs timed) (
      insert_row-same k l c (order_rows created tie l cs)
        (order_rows-All (λ d. (created d == created c) ≡ false) l cs apart))

  -- The rows of a tenant, in the order of the table.
  abbrev pub own_rows : Text → List Conversation → List Conversation
  own_rows tenant rows = keep_if (λ c. text_is c.tenant_id tenant) rows

  module _ (x : Outside) (st : AccessSettings) (str_of : ℕ → Text) where
    pages-take :
        (h : Headers) (i : Identity) (id limit offset n : ℕ) (rows : List Conversation)
        → get_current_user x st h ≡ granted i
        → i.organization ≡ some id
        → IsTimed created (own_rows (str_of id) rows)
        → pages created tie x st str_of h limit rows offset n
          ≡ take (n * limit) (drop offset (order_rows created tie 0 (own_rows (str_of id) rows)))
    unfolding pages list_conversations get_conversations_by_tenant rows_of_tenant
    pages-take h i id limit offset zero rows who org timed =
        let none_left : zero * limit ≡ zero = omega arith in rw none_left refl
    pages-take h i id limit offset (suc n) rows who org timed =
        let own = order_rows created tie 0 (own_rows (str_of id) rows) in
        let rest = pages-take h i id limit (offset + limit) n rows who org timed in
        let joined = take-add limit (n * limit) (drop offset own) in
        let more : limit + n * limit ≡ suc n * limit = times limit n in
        rw
          (
            who,
            org,
            order_rows-same offset 0 (own_rows (str_of id) rows) timed,
            rest,
            drop-drop offset limit own,
          )
          (joined ∙ ap (λ k. take k (drop offset own)) more)
      where
        times : (a b : ℕ) → a + b * a ≡ suc b * a
        times a b = omega (arith, suc-mul b a)

    -- Where no two conversations of the tenant of the user were created at one time, page after
    -- page shows each of them once, the newest first, and none of another tenant, when the pages
    -- are enough for all of them and the table does not change meanwhile.
    pub list_conversations-pages :
        (h : Headers) (i : Identity) (id limit n : ℕ) (rows : List Conversation)
        → get_current_user x st h ≡ granted i
        → i.organization ≡ some id
        → IsTimed created (keep_if (λ c. text_is c.tenant_id (str_of id)) rows)
        → length (keep_if (λ c. text_is c.tenant_id (str_of id)) rows) ≤ n * limit
        → IsNewestFirst created (pages created tie x st str_of h limit rows 0 n)
          × Perm
              (pages created tie x st str_of h limit rows 0 n)
              (keep_if (λ c. text_is c.tenant_id (str_of id)) rows)
    list_conversations-pages h i id limit n rows who org timed enough =
        let own = own_rows (str_of id) rows in
        let same_length = length-order_rows 0 own in
        let all_shown =
          pages-take h i id limit 0 n rows who org timed
          ∙ take-all (n * limit) (order_rows created tie 0 own)
              (omega (arith, same_length, enough)) in
        rw all_shown (order_rows-IsNewestFirst 0 own, order_rows-Perm 0 own)
