-- ===== src/Analytics/Computed.antt =====
-- compute_org_metrics of app/services/analytics.py.
use leadpulse.Prelude.{
  ℕ, Bool, true, false, true, false, ◌&&◌, ◌||◌, Option, none, some, List, [], ◌∷◌, if◌then◌else◌,
  ◌==◌, keep_if, map, length,
}
use leadpulse.Prelude.Text.{Text, text}
use leadpulse.Billing.{text_is}
use leadpulse.Analytics.{
  Python, LeadConversation, UsageLog, Metrics, Tables, Boundary, overflow, no_boundary, boundary,
  from, until, is_id, parse_date_boundary,
}

abbrev pub overflows : Boundary → Bool
overflows overflow = true
overflows no_boundary = false
overflows (boundary m) = false

-- The values that are not NULL.
abbrev pub present {κ} : {A : Type κ} → List (Option A) → List A
present [] = []
present (none ∷ xs) = present xs
present (some x ∷ xs) = x ∷ present xs

module _ {ℓ} {F : Type ℓ} where
  -- The query of the conversations.
  abbrev pub in_period : ℕ → Boundary → Boundary → LeadConversation F → Bool
  in_period tenant start end c =
      is_id c.tenant_id tenant && (from start c.created_at && until end c.created_at)

  abbrev pub is_charged : ℕ → Boundary → Boundary → UsageLog F → Bool
  is_charged tenant start end u =
      is_id u.organization_id tenant && (from start u.created_at && until end u.created_at)

  abbrev pub has_status : Text → LeadConversation F → Bool
  has_status s c = text_is c.lead_status s

  abbrev pub has_stage : Text → LeadConversation F → Bool
  has_stage s c = text_is c.conversation_stage s

  abbrev pub is_qualified : LeadConversation F → Bool
  is_qualified c = has_status (text "hot") c || has_status (text "warm") c

  -- `sum(xs)`
  abbrev pub sum_from : Python F → F → List F → F
  sum_from py acc [] = acc
  sum_from py acc (x ∷ xs) = sum_from py (py.plus acc x) xs

  abbrev pub rate : Python F → ℕ → ℕ → F
  rate py n total = if total == 0 then py.zero else py.quotient n total

  abbrev pub average_score : Python F → List F → Option F
  average_score py [] = none
  average_score py (x ∷ xs) =
      some (py.round4 (py.over (sum_from py py.zero (x ∷ xs)) (length (x ∷ xs))))

  -- `coalesce(sum(estimated_cost), 0.0)`
  abbrev pub coalesce : Python F → Option F → F
  coalesce py none = py.zero
  coalesce py (some s) = s

  abbrev pub cost_per_meeting : Python F → ℕ → ℕ → F → Option F
  cost_per_meeting py total booked cost =
      if total == 0
      then none
      else if booked == 0
      then none
      else some (py.round4 (py.over cost booked))

  -- The metrics of the conversations that a query gave, and of the costs of the period.
  unfoldable pub metrics_of : Python F → List (LeadConversation F) → List (UsageLog F) → Metrics F
  metrics_of py cs logs =
      let total = length cs in
      let booked = length (keep_if (λ c. c.booking_confirmed) cs) in
      record {
        total = total;
        hot = length (keep_if (has_status (text "hot")) cs);
        warm = length (keep_if (has_status (text "warm")) cs);
        cold = length (keep_if (has_status (text "cold")) cs);
        qualification_rate = py.round4 (rate py (length (keep_if is_qualified cs)) total);
        booking_rate = py.round4 (rate py booked total);
        greeting = length (keep_if (has_stage (text "greeting")) cs);
        collecting = length (keep_if (has_stage (text "collecting")) cs);
        qualified = length (keep_if (has_stage (text "qualified")) cs);
        average_qualification_score =
            average_score py (present (map (λ c. c.qualification_score) cs));
        meetings_booked = booked;
        human_escalations = length (keep_if (λ c. c.human_escalated) cs);
        average_response_time_seconds = none;
        cost_per_booked_meeting =
            cost_per_meeting py total booked
              (coalesce py (py.sql_sum (present (map (λ u. u.estimated_cost) logs))));
      }

  abbrev pub metrics_between : Python F → ℕ → Boundary → Boundary → Tables F → Option (Metrics F)
  metrics_between py tenant start end db =
      if overflows start || overflows end
      then none
      else some (
          metrics_of py (keep_if (in_period tenant start end) db.conversations)
            (keep_if (is_charged tenant start end) db.usage_logs))

  -- `compute_org_metrics`, or none for the OverflowError of a boundary.
  unfoldable pub compute_org_metrics :
      Python F → ℕ → Option Text → Option Text → Tables F → Option (Metrics F)
  compute_org_metrics py tenant start_date end_date db =
      metrics_between py tenant (parse_date_boundary py false start_date)
        (parse_date_boundary py true end_date) db
