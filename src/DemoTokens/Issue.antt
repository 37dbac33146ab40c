-- ===== src/DemoTokens/Issue.antt =====
-- The issue of demo tokens: app/api/demo.py. Times are in milliseconds.
use leadpulse.Prelude.{ℕ, ◌-◌, ◌/◌, Bool, List, [], ◌∷◌, ◌++◌, if◌then◌else◌, ltb, keep_if, length}
use leadpulse.Prelude.Text.{Text, text, text_eq}
use leadpulse.Accounts.Requests.{Reply, ok, http}
use leadpulse.DemoTokens.{TokenPackages, issue_demo_token}

-- `_local_hits`
abbrev pub Hits : Type 0
Hits = Text → List ℕ

abbrev pub is_recent : ℕ → ℕ → Bool
is_recent now t = ltb (now - t) 3_600_000

abbrev pub put_hits : Text → List ℕ → Hits → Hits
put_hits ip ts hits k = if text_eq ip k then ts else hits k

-- `_rate_limited`
unfoldable pub rate_limited : Text → ℕ → Hits → Bool × Hits
rate_limited ip now hits =
    let kept = keep_if (is_recent now) (hits ip) ++ now ∷ [] in
    (ltb 20 (length kept), put_hits ip kept hits)

pub record DemoSession : Type 0 where
  pub session_id : Text
  pub token : Text
  pub expires_at : ℕ

module _ (x : TokenPackages) (ttl : ℕ) where
  -- `get_demo_token`, with eight digits of a fresh UUID.
  unfoldable pub get_demo_token : Text → Text → ℕ → Hits → Reply DemoSession × Hits
  get_demo_token ip digits now hits =
      let (limited, hits') = rate_limited ip now hits in
      let session = text "demo-" ++ digits in
      let (token, expires) = issue_demo_token x ttl (now / 1000) session in
      (
        (if limited
            then http 429
            else ok (record { session_id = session; token = token; expires_at = expires })),
        hits',
      )

  -- The hits after requests, an address and a time each, the latest first.
  unfoldable pub hits_after : List (Text × ℕ) → Hits
  hits_after [] = λ ip. []
  hits_after (q ∷ qs) = (rate_limited q.0 q.1 (hits_after qs)).1
