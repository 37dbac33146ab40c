-- ===== src/Limits/Windows.antt =====
-- How many requests a window of the process lets through: app/api/deps.py.
use leadpulse.Prelude.{
  ℕ, ◌+◌, ◌-◌, ◌≤◌, ◌<◌, ◌≡◌, ◌⊎◌, inl, inr, Bool, true, false, ◌&&◌, refl, List, [], ◌∷◌, ◌++◌,
  ltb, leb, length, keep_if, length-append, All, Bool-cases, arith,
}
use leadpulse.Limits.{Window, expire, inmem_allowed, admitted}

-- The times from `t` to `t + window`, how many of a list are among them, and times in order.
abbrev pub within : ℕ → ℕ → ℕ → Bool
within window t a = leb t a && leb a (t + window)

unfoldable pub count : ℕ → ℕ → List ℕ → ℕ
count window t xs = length (keep_if (within window t) xs)

abbrev pub InOrder : ℕ → List ℕ → Type 0
InOrder since [] = Unit
InOrder since (t ∷ ts) = (since ≤ t) × InOrder t ts

module _ (window t : ℕ) where
  count-append :
      (xs ys : List ℕ) → count window t (xs ++ ys) ≡ count window t xs + count window t ys
  unfolding count
  count-append [] ys = omega arith
  count-append (x ∷ xs) ys = ground (arith, count-append xs ys)

  count-nil : count window t [] ≡ 0
  unfolding count
  count-nil = refl

  count-le-length : (xs : List ℕ) → count window t xs ≤ length xs
  unfolding count
  count-le-length [] = omega arith
  count-le-length (x ∷ xs) = ground (arith, count-le-length xs)

  -- No time after the window counts.
  count-late : (now : ℕ) (xs : List ℕ) → t + window < now → InOrder now xs → count window t xs ≡ 0
  unfolding count
  count-late now [] lt h = refl
  count-late now (x ∷ xs) lt h = ground (arith, count-late x xs (omega (arith, h.0)) h.1)

-- The times that `expire` drops count only in windows that end before now.
count-expire :
    (window t now : ℕ) (dq : Window)
    → (count window t dq ≡ count window t (expire window now dq)) ⊎ (t + window < now)
unfolding count expire
count-expire window t now [] = inl refl
count-expire window t now (x ∷ xs) = ground (arith, count-expire window t now xs)

length-expire : (window now : ℕ) (dq : Window) → length (expire window now dq) ≤ length dq
unfolding expire
length-expire window now [] = omega arith
length-expire window now (x ∷ xs) = ground (arith, length-expire window now xs)

InOrder-mono : (a b : ℕ) (xs : List ℕ) → a ≤ b → InOrder b xs → InOrder a xs
InOrder-mono a b [] le h = tt
InOrder-mono a b (x ∷ xs) le h = (omega (arith, h.0), h.1)

module _ (limit window : ℕ) where
  -- A window that is full stays as it is; another takes the request in.
  inmem_allowed-cases :
      (now : ℕ) (dq : Window)
      → (inmem_allowed limit window now dq ≡ (false, expire window now dq))
        ⊎ ((inmem_allowed limit window now dq ≡ (true, expire window now dq ++ now ∷ []))
            × (length (expire window now dq) < limit))
  unfolding inmem_allowed
  inmem_allowed-cases now dq = ground arith

  inmem_allowed-limit :
      (now : ℕ) (dq : Window)
      → (inmem_allowed limit window now dq).0 ≡ false
      → limit ≤ length (expire window now dq)
  unfolding inmem_allowed
  inmem_allowed-limit now dq h = ground arith

  admitted-InOrder :
      (since : ℕ) (times : List ℕ) (dq : Window)
      → InOrder since times
      → InOrder since (admitted limit window times dq)
  unfolding admitted
  admitted-InOrder since [] dq h = tt
  admitted-InOrder since (now ∷ times) dq h =
      let kept = (inmem_allowed limit window now dq).1 in
      let later = admitted-InOrder now times kept h.1 in
      elim (Bool-cases (inmem_allowed limit window now dq).0) [
        | inl ok ↦ rw ok (h.0, later)
        | inr no_room ↦
            rw no_room (InOrder-mono since now (admitted limit window times kept) h.0 later)
      ]

  count-admitted :
      (since t : ℕ) (times : List ℕ) (dq : Window)
      → InOrder since times
      → length dq ≤ limit
      → count window t (dq ++ admitted limit window times dq) ≤ limit
  unfolding admitted
  count-admitted since t [] dq h le =
      omega (arith, count-append window t dq [], count-le-length window t dq, count-nil window t)
  count-admitted since t (now ∷ times) dq h le = elim (inmem_allowed-cases now dq) [
    | inl full ↦
        let kept = expire window now dq in
        let rest = admitted limit window times kept in
        let bound =
          count-admitted now t times kept h.1 (omega (arith, length-expire window now dq)) in
        rw full (elim (count-expire window t now dq) [
          | inl same ↦
              omega (arith, bound, count-append window t dq rest, count-append window t kept rest)
          | inr late ↦ omega (
            arith,
            count-append window t dq rest,
            count-le-length window t dq,
            count-late window t now rest late (admitted-InOrder now times kept h.1),
          )
        ])
    | inr (room, less) ↦
        let kept = expire window now dq in
        let taken = kept ++ now ∷ [] in
        let rest = admitted limit window times taken in
        let bound =
          count-admitted now t times taken h.1
            (omega (arith, length-append kept (now ∷ []), less)) in
        rw room (elim (count-expire window t now dq) [
          | inl same ↦ omega (
            arith,
            bound,
            count-append window t dq (now ∷ rest),
            count-append window t taken rest,
            count-append window t kept (now ∷ []),
            count-append window t (now ∷ []) rest,
          )
          | inr late ↦ omega (
            arith,
            count-append window t dq (now ∷ rest),
            count-le-length window t dq,
            count-late window t now (now ∷ rest) late
                (omega arith, admitted-InOrder now times taken h.1),
          )
        ])
  ]

  -- Of requests at times in order, from an empty window of the process, at most `limit` are let
  -- through in any stretch of time as long as the window, its ends included.
  pub admitted-bound :
      (since t : ℕ) (times : List ℕ)
      → InOrder since times
      → count window t (admitted limit window times []) ≤ limit
  admitted-bound since t times h = count-admitted since t times [] h (omega arith)

count-recent :
    (window now low : ℕ) (xs : Window)
    → now - window ≤ low
    → InOrder low xs
    → All (λ a. a ≤ now) xs
    → length xs ≤ count window (now - window) xs
unfolding count
count-recent window now low [] le h past = omega arith
count-recent window now low (x ∷ xs) le h past =
    ground (arith, count-recent window now x xs (omega (arith, h.0)) h.1 past.1, h.0, past.0)

length-expire-count :
    (window now since : ℕ) (dq : Window)
    → InOrder since dq
    → All (λ a. a ≤ now) dq
    → length (expire window now dq) ≤ count window (now - window) dq
unfolding count expire
length-expire-count window now since [] h past = omega arith
length-expire-count window now since (x ∷ xs) h past =
    let later = length-expire-count window now x xs h.1 past.1 in
    let recent = count-recent window now x xs in
    elim (Bool-cases (ltb window (now - x))) [
      | inl old ↦ rw old (ground (arith, later))
      | inr young ↦ rw young (ground (arith, recent (ground arith) h.1 past.1, past.0))
    ]

-- A request is turned away only if the window holds `limit` requests of the stretch of time that
-- ends with it.
pub inmem_allowed-full :
    (limit window now since : ℕ) (dq : Window)
    → InOrder since dq
    → All (λ a. a ≤ now) dq
    → (inmem_allowed limit window now dq).0 ≡ false
    → limit ≤ count window (now - window) dq
inmem_allowed-full limit window now since dq h past no_room =
    elim (inmem_allowed-cases limit window now dq) [
      | inl full ↦ omega (
        arith,
        length-expire-count window now since dq h past,
        inmem_allowed-limit limit window now dq no_room,
      )
      | inr (room, less) ↦ cc
    ]
