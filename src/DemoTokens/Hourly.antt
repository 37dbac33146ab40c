-- ===== src/DemoTokens/Hourly.antt =====
-- Who gets a demo token: app/api/demo.py over app/services/demo_tokens.py.
use leadpulse.Prelude.{
  ℕ, ◌+◌, ◌/◌, ◌≤◌, Bool, true, false, not, ◌&&◌, ◌≡◌, refl, ap, ◌∙◌, some, List, [], ◌∷◌, ◌++◌,
  if◌then◌else◌, ltb, leb, keep_if, length, length-append, arith, Bool-cases, inl, inr,
}
use leadpulse.Prelude.Text.{Text, text, text_eq}
use leadpulse.Prelude.TextLaws.{text_eq_sound, keep_if-append}
use leadpulse.Accounts.Requests.{ok, http}
use leadpulse.DemoTokens.{TokenPackages, issue_demo_token, verify_demo_token}
use leadpulse.DemoTokens.Issue.{is_recent, rate_limited, DemoSession, get_demo_token, hits_after}
use leadpulse.DemoTokens.RoundTrip.{has_dot, verify_demo_token-issue_demo_token}

module _ (x : TokenPackages) (ttl : ℕ) where
  abbrev pub Requests : Type 0
  Requests = List (Text × ℕ)

  -- The times of the requests do not go back, and none is after now.
  abbrev pub IsOrdered : ℕ → Requests → Type 0
  IsOrdered now [] = Unit
  IsOrdered now (q ∷ qs) = (q.1 ≤ now) × IsOrdered q.1 qs

  -- The requests of an address in the hour before now.
  abbrev pub count_recent : Text → ℕ → Requests → ℕ
  count_recent ip now qs = length (keep_if (λ q. text_eq q.0 ip && is_recent now q.1) qs)

  IsOrdered-later : (a b : ℕ) (qs : Requests) → a ≤ b → IsOrdered a qs → IsOrdered b qs
  IsOrdered-later a b [] le h = tt
  IsOrdered-later a b (q ∷ qs) le (h, hs) = (omega (arith, h, le), hs)

  -- What is recent later was recent before.
  keep_if-recent :
      (a b : ℕ) (ts : List ℕ)
      → a ≤ b
      → keep_if (is_recent b) (keep_if (is_recent a) ts) ≡ keep_if (is_recent b) ts
  keep_if-recent a b [] le = refl
  keep_if-recent a b (t ∷ ts) le = ground (arith, keep_if-recent a b ts le)

  length-hits_after :
      (ip : Text) (now : ℕ) (qs : Requests)
      → IsOrdered now qs
      → length (keep_if (is_recent now) (hits_after x ttl qs ip)) ≡ count_recent ip now qs
  unfolding hits_after rate_limited
  length-hits_after ip now [] h = refl
  length-hits_after ip now (q ∷ qs) (le, h) =
      let before = length-hits_after ip now qs (IsOrdered-later q.1 now qs le h) in
      elim (Bool-cases (text_eq q.0 ip)) [
        | inl t ↦
            let same = text_eq_sound q.0 ip t in
            let old = hits_after x ttl qs q.0 in
            let split = keep_if-append (is_recent now) (keep_if (is_recent q.1) old) (q.1 ∷ []) in
            let kept = keep_if-recent q.1 now old le in
            let joined =
              length-append (keep_if (is_recent now) old) (keep_if (is_recent now) (q.1 ∷ [])) in
            let here : length (keep_if (is_recent now) old) ≡ count_recent ip now qs =
              rw same before in
            rw (t, split, kept, joined, here)
              (added (is_recent now q.1) (keep_if (λ r. text_eq r.0 ip && is_recent now r.1) qs))
        | inr f ↦ rw f before
      ]
    where
      added :
          (b : Bool) (ks : Requests)
          → length ks + length (if b then q.1 ∷ [] else []) ≡ length (if b then q ∷ ks else ks)
      added true ks = omega arith
      added false ks = omega arith

  -- An address is refused just when it made twenty requests or more in the hour before, and those
  -- that were refused count as well: what is kept of each address is enough to tell.
  rate_limited-count :
      (ip : Text) (now : ℕ) (qs : Requests)
      → IsOrdered now qs
      → (rate_limited ip now (hits_after x ttl qs)).0 ≡ leb 20 (count_recent ip now qs)
  unfolding rate_limited
  rate_limited-count ip now qs h =
      let kept = keep_if (is_recent now) (hits_after x ttl qs ip) in
      let same = length-hits_after ip now qs h in
      rw (length-append kept (now ∷ []), same) (one_more (count_recent ip now qs))
    where
      one_more : (n : ℕ) → ltb 20 (n + 1) ≡ leb 20 n
      one_more n = ground arith

  demo_session-plain :
      (digits : Text) → has_dot digits ≡ false → has_dot (text "demo-" ++ digits) ≡ false
  demo_session-plain digits h = h

  -- What an address is given after requests in order of time: a refusal if twenty or more of them
  -- came from it within the hour before, else a session and a token that verifies for this session
  -- and no other until it expires. It is so when Base64 decodes what it encodes, and neither digests
  -- nor the digits of a UUID have dots.
  pub get_demo_token-verifies :
      (ip digits : Text) (now : ℕ) (qs : Requests)
      → IsOrdered now qs
      → has_dot digits ≡ false
      → ((s : Text) → x.b64decode (x.b64encode s) ≡ some s)
      → ((s : Text) → has_dot (x.sign s) ≡ false)
      → (leb 20 (count_recent ip now qs) ≡ true
          → (get_demo_token x ttl ip digits now (hits_after x ttl qs)).0 ≡ http 429)
        × (leb 20 (count_recent ip now qs) ≡ false
            → (s : DemoSession) × ((get_demo_token x ttl ip digits now (hits_after x ttl qs)).0
                ≡ ok s)
              × ((later : ℕ) (other : Text)
                  → verify_demo_token x ttl later s.token other
                    ≡ (text_eq s.session_id other && leb later s.expires_at)))
  unfolding get_demo_token issue_demo_token
  get_demo_token-verifies ip digits now qs h plain decodes unsigned =
      let limited = rate_limited-count ip now qs h in
      let session = text "demo-" ++ digits in
      let issued = issue_demo_token x ttl (now / 1000) session in
      let s : DemoSession = record {
        session_id = session;
        token = issued.0;
        expires_at = issued.1;
      } in
      (
        λ e. rw (limited, e) refl,
        λ e. (s, rw (limited, e) refl, λ later other. verifies later other),
      )
    where
      verifies :
          (later : ℕ) (other : Text)
          → verify_demo_token x ttl later
              (issue_demo_token x ttl (now / 1000) (text "demo-" ++ digits)).0
              other
            ≡ (text_eq (text "demo-" ++ digits) other
                && leb later (issue_demo_token x ttl (now / 1000) (text "demo-" ++ digits)).1)
      verifies later other =
          verify_demo_token-issue_demo_token x ttl (now / 1000) later (text "demo-" ++ digits) other
            decodes unsigned
          ∙ ap
              (λ b. not b && text_eq (text "demo-" ++ digits) other && leb later (now / 1000 + ttl))
              (demo_session-plain digits plain)
