-- ===== src/Agent/Fields.antt =====
-- Which lead fields are still missing: app/agent/nodes/info_collection.py and qualification.py.
use leadpulse.Prelude.{
  Bool, true, false, not, Option, none, some, List, [], ◌∷◌, if◌then◌else◌, keep_if, all, is_some,
}
use leadpulse.Scoring.{LeadType, Amount, is_individual}
use leadpulse.Agent.State.{
  Json, null, truthy, is_zero, Field, lead_name, company_name, industry, budget, timeline,
  problem_statement, AgentState,
}

-- The lead fields of a state, the `merged` dict of info_collection_node.
pub record Lead : Type 0 where
  pub lead_name : Json
  pub company_name : Json
  pub industry : Json
  pub budget : Option Amount
  pub timeline : Json
  pub problem_statement : Json

abbrev pub lead_of : AgentState → Lead
lead_of s = record {
  lead_name = s.lead_name;
  company_name = s.company_name;
  industry = s.industry;
  budget = s.budget;
  timeline = s.timeline;
  problem_statement = s.problem_statement;
}

-- `merged.get(field)` of a field but the budget.
abbrev pub text_field : Lead → Field → Json
text_field l lead_name = l.lead_name
text_field l company_name = l.company_name
text_field l industry = l.industry
text_field l budget = null
text_field l timeline = l.timeline
text_field l problem_statement = l.problem_statement

abbrev is_budget : Field → Bool
is_budget budget = true
is_budget _ = false

abbrev is_company : Field → Bool
is_company company_name = true
is_company _ = false

-- A budget counts unless it is None; any other field must be true.
abbrev pub is_populated : Lead → Field → Bool
is_populated l f = if is_budget f then is_some l.budget else truthy (text_field l f)

abbrev base_field_priority : List Field
base_field_priority =
    lead_name ∷ company_name ∷ industry ∷ problem_statement ∷ budget ∷ timeline ∷ []

abbrev base_required_fields : List Field
base_required_fields =
    lead_name ∷ company_name ∷ industry ∷ budget ∷ timeline ∷ problem_statement ∷ []

without_company : List Field → List Field
without_company = keep_if (λ f. not (is_company f))

unfoldable pub field_priority_for : Option LeadType → List Field
unfolding without_company
field_priority_for lt =
    if is_individual lt then without_company base_field_priority else base_field_priority

unfoldable pub required_fields_for : Option LeadType → List Field
unfolding without_company
required_fields_for lt =
    if is_individual lt then without_company base_required_fields else base_required_fields

-- `_compute_missing`
unfoldable pub compute_missing : Lead → Option LeadType → List Field
unfolding field_priority_for
compute_missing l lt = keep_if (λ f. not (is_populated l f)) (field_priority_for lt)

-- `_all_fields_populated`
unfoldable pub all_fields_populated : Lead → Option LeadType → Bool
unfolding required_fields_for
all_fields_populated l lt = all (is_populated l) (required_fields_for lt)

-- `not state.get(f)`, where a budget of 0.0 is false too.
abbrev is_false : Lead → Field → Bool
is_false l f =
    if is_budget f
    then elim l.budget [ none ↦ true | some a ↦ is_zero a.num ]
    else not (truthy (text_field l f))

-- The `missing` list of qualification_node.
unfoldable pub unmet_fields : Lead → Option LeadType → List Field
unfolding required_fields_for
unmet_fields l lt = keep_if (is_false l) (required_fields_for lt)
