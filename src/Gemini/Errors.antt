-- ===== src/Gemini/Errors.antt =====
-- What an exception of the model says: _iter_exception_chain, _is_rate_limited_gemini_error and
-- _get_retry_delay of app/agent/gemini.py. Exceptions are numbered objects; delays are in
-- milliseconds.
use leadpulse.Prelude.{
  ℕ, zero, suc, ◌+◌, ◌<◌, ◌≤◌, Bool, false, not, ◌&&◌, ◌||◌, ◌≡◌, refl, inl, inr, Option, none,
  some, List, [], ◌∷◌, if◌then◌else◌, ◌==◌, any, length, take, reverse, is_some, arith, Bool-cases,
  ◌-◌,
}
use leadpulse.Prelude.Text.{Text, text, is_empty, upper, contains, starts_with}
use leadpulse.Billing.{text_is}
use leadpulse.Gemini.{Call, rate_limited, broken}

-- An item of the details: its "@type" and its "retryDelay", none for an item that is no dict.
abbrev pub Detail : Type 0
Detail = Option (Text × Text)

-- The `details` of an exception: none or no dict, a dict whose "error" is no dict, or its items.
pub data Details : Type 0 where
  no_dict bad_error : Details
  dict : List Detail → Details

-- The attributes that are read; `unpacked` is the delay that the messages of protobuf in
-- `error_details`, or in `details` that are no dict, give.
pub record ErrorObject : Type 0 where
  pub code : Option ℕ
  pub status_code : Option ℕ
  pub status : Option Text
  pub message : Text
  pub retry_after : Option ℕ
  pub details : Details
  pub unpacked : Option ℕ
  pub cause : Option ℕ
  pub context : Option ℕ

-- `current.__cause__ or current.__context__`
abbrev pub next_error : ErrorObject → Option ℕ
next_error e = if is_some e.cause then e.cause else e.context

abbrev pub push : ErrorObject → Option (List ErrorObject) → Option (List ErrorObject)
push e none = none
push e (some es) = some (e ∷ es)

abbrev pub is_seen : ℕ → List ℕ → Bool
is_seen i seen = any (λ j. j == i) seen

-- `_iter_exception_chain`, by fuel: none if it is not enough.
unfoldable pub iter_exception_chain :
    (ℕ → ErrorObject) → ℕ → List ℕ → Option ℕ → Option (List ErrorObject)
iter_exception_chain heap zero seen current = none
iter_exception_chain heap (suc fuel) seen none = some []
iter_exception_chain heap (suc fuel) seen (some i) =
    let rest = iter_exception_chain heap fuel (i ∷ seen) (next_error (heap i)) in
    if is_seen i seen then some [] else push (heap i) rest

abbrev is_429 : Option ℕ → Bool
is_429 none = false
is_429 (some n) = n == 429

abbrev pub says_rate_limit : ErrorObject → Bool
says_rate_limit e =
    is_429 e.code
    || is_429 e.status_code
    || text_is e.status (text "RESOURCE_EXHAUSTED")
    || (contains (text "RESOURCE_EXHAUSTED") (upper e.message)
        && contains (text "429") (upper e.message))

-- `_is_rate_limited_gemini_error`, of the exceptions of the chain.
unfoldable pub is_rate_limited_gemini_error : List ErrorObject → Bool
is_rate_limited_gemini_error es = any says_rate_limit es

abbrev ends_with : Text → Text → Bool
ends_with p s = starts_with (reverse p) (reverse s)

-- `float` of the interpreter for a text, none for its ValueError.
module _ (float : Text → Option ℕ) where
  abbrev delay_of : Text → Option ℕ
  delay_of t = if ends_with (text "s") t then float (take (length t - 1) t) else float t

  abbrev detail_delay : Detail → Option ℕ
  detail_delay none = none
  detail_delay (some (type, delay)) =
      if ends_with (text "RetryInfo") type && not (is_empty delay) then delay_of delay else none

  -- The loop of `_parse_client_error_retry_info`.
  unfoldable pub first_delay : List Detail → Option ℕ
  first_delay [] = none
  first_delay (x ∷ xs) =
      let rest = first_delay xs in elim (detail_delay x) [ some ms ↦ some ms | none ↦ rest ]

  unfoldable pub parse_client_error_retry_info : Details → Option ℕ
  parse_client_error_retry_info no_dict = none
  parse_client_error_retry_info bad_error = none
  parse_client_error_retry_info (dict xs) = first_delay xs

  abbrev pub or_next : Option ℕ → Option ℕ → Option ℕ
  or_next none b = b
  or_next (some a) b = some a

  abbrev error_delay : ErrorObject → Option ℕ
  error_delay e =
      or_next e.retry_after (or_next (parse_client_error_retry_info e.details) e.unpacked)

  -- `_get_retry_delay`, of the exceptions of the chain.
  unfoldable pub get_retry_delay : List ErrorObject → Option ℕ
  get_retry_delay [] = none
  get_retry_delay (e ∷ es) = let rest = get_retry_delay es in or_next (error_delay e) rest

  -- What `ainvoke` makes of an exception.
  unfoldable pub call_of {ℓ} : {A : Type ℓ} → List ErrorObject → Call A
  call_of es = if is_rate_limited_gemini_error es then rate_limited (get_retry_delay es) else broken

-- How many of the first `n` objects are not seen.
abbrev unseen : ℕ → List ℕ → ℕ
unseen zero seen = 0
unseen (suc n) seen = (if is_seen n seen then 0 else 1) + unseen n seen

unseen-above : (n i : ℕ) (seen : List ℕ) → n ≤ i → unseen n (i ∷ seen) ≡ unseen n seen
unseen-above zero i seen le = refl
unseen-above (suc n) i seen le = ground (arith, unseen-above n i seen)

unseen-seen :
    (n i : ℕ) (seen : List ℕ)
    → i < n
    → is_seen i seen ≡ false
    → unseen n (i ∷ seen) + 1 ≡ unseen n seen
unseen-seen zero i seen lt new = absurd (omega (arith, lt))
unseen-seen (suc n) i seen lt new = elim (Bool-cases (n == i)) [
  | inl e ↦ let same : n ≡ i = ground arith in ground (arith, unseen-above n i seen)
  | inr e ↦ ground (arith, unseen-seen n i seen)
]

-- The chain ends, also where it is circular: among `n` exceptions, one try more than there are
-- exceptions is enough, and no exception is visited twice.
pub iter_exception_chain-ends :
    (heap : ℕ → ErrorObject) (n fuel : ℕ) (seen : List ℕ) (current : Option ℕ)
    → ((i j : ℕ) → next_error (heap i) ≡ some j → j < n)
    → ((i : ℕ) → current ≡ some i → i < n)
    → unseen n seen < fuel
    → (es : List ErrorObject) × (iter_exception_chain heap fuel seen current ≡ some es)
      × (length es ≤ unseen n seen)
unfolding iter_exception_chain
iter_exception_chain-ends heap n zero seen current closed inside enough =
    absurd (omega (arith, enough))
iter_exception_chain-ends heap n (suc fuel) seen none closed inside enough = ([], refl, omega arith)
iter_exception_chain-ends heap n (suc fuel) seen (some i) closed inside enough =
    elim (Bool-cases (is_seen i seen)) [
      | inl old ↦ rw old ([], refl, omega arith)
      | inr new ↦
          let less = unseen-seen n i seen (inside i refl) new in
          let (es, e, short) =
            iter_exception_chain-ends heap n fuel (i ∷ seen) (next_error (heap i)) closed
              (λ j f. closed i j f) (omega (arith, less, enough)) in
          rw (new, e) (heap i ∷ es, refl, omega (arith, less, short))
    ]
