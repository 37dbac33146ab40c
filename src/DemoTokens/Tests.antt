-- ===== src/DemoTokens/Tests.antt =====
-- A token of a session, and the theorem about it.
use leadpulse.Prelude.Text.{Text}
use leadpulse.Accounts.Requests.{ok, http}
use leadpulse.DemoTokens.Issue.{DemoSession, get_demo_token, hits_after}
use leadpulse.DemoTokens.Hourly.{count_recent, get_demo_token-verifies}
use leadpulse.Prelude.{ℕ, true, List, [], ◌∷◌, arith, false, not, ◌&&◌, ◌≡◌, refl, some, leb, ◌+◌}
use leadpulse.Prelude.Text.{text, text_eq}
use leadpulse.Prelude.Decimal.{str_nat, to_digits, read_from}
use leadpulse.DemoTokens.{TokenPackages, issue_demo_token, verify_demo_token, split_dots}
use leadpulse.DemoTokens.RoundTrip.{has_dot, verify_demo_token-issue_demo_token}

abbrev packages : TokenPackages
packages = record { b64encode = λ s. s; b64decode = λ s. some s; sign = λ s. text "5e1f" }

of_email :
    verify_demo_token packages 600 1000
      (issue_demo_token packages 600 1000 (text "ada@acme.io")).0
      (text "ada@acme.io")
    ≡ false
unfolding verify_demo_token issue_demo_token split_dots str_nat to_digits read_from text_eq
of_email = refl

verify_demo_token-issue_demo_token_example :
    verify_demo_token packages 3600 1200
      (issue_demo_token packages 3600 1000 (text "s1")).0
      (text "s1")
    ≡ (not (has_dot (text "s1")) && text_eq (text "s1") (text "s1") && leb 1200 (1000 + 3600))
verify_demo_token-issue_demo_token_example =
    verify_demo_token-issue_demo_token packages 3600 1000 1200 (text "s1") (text "s1") (λ s. refl)
      (λ s. refl)

-- Two requests of one address in an hour.
abbrev requests : List (Text × ℕ)
requests = (text "1.2.3.4", 5_000) ∷ (text "1.2.3.4", 1_000) ∷ []

get_demo_token-verifies_example :
    (leb 20 (count_recent packages 60 (text "1.2.3.4") 9_000 requests) ≡ true
      → (get_demo_token packages 60
          (text "1.2.3.4")
          (text "0a1b2c3d")
          9_000
          (hits_after packages 60 requests)).0
        ≡ http 429)
    × (leb 20 (count_recent packages 60 (text "1.2.3.4") 9_000 requests) ≡ false
        → (s : DemoSession) × ((get_demo_token packages 60
              (text "1.2.3.4")
              (text "0a1b2c3d")
              9_000
              (hits_after packages 60 requests)).0
            ≡ ok s)
          × ((later : ℕ) (other : Text)
              → verify_demo_token packages 60 later s.token other
                ≡ (text_eq s.session_id other && leb later s.expires_at)))
get_demo_token-verifies_example =
    get_demo_token-verifies packages 60 (text "1.2.3.4") (text "0a1b2c3d") 9_000 requests
      (omega arith, (omega arith, tt)) refl (λ s. refl) (λ s. refl)
