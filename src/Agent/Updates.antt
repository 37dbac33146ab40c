-- ===== src/Agent/Updates.antt =====
-- What the nodes write into the state from a reply of the model: app/agent/nodes/greeting.py and
-- app/agent/nodes/info_collection.py.
use leadpulse.Prelude.{Bool, true, not, ◌&&◌, Option, none, some, List, [], ◌∷◌, if◌then◌else◌}
use leadpulse.Prelude.Text.{Text, text, is_empty}
use leadpulse.Scoring.{LeadType, is_individual}
use leadpulse.Agent.State.{
  Json, not_null, Content, plain, NodeName, Action, collecting, Field, lead_name, company_name,
  industry, budget, timeline, problem_statement, AgentState,
}
use leadpulse.Agent.Budget.{parse_budget}
use leadpulse.Agent.Fields.{lead_of, compute_missing}
use leadpulse.Agent.Reply.{Greeting, Collected, get, or_value}
use leadpulse.Agent.World.{say}

-- `value or default`
abbrev pub text_or : Option Text → Text → Text
text_or none d = d
text_or (some s) d = if is_empty s then d else s

abbrev pub greeted : AgentState → Greeting → AgentState
greeted s g = record (say s (plain g.reply) g.reply) {
  lead_intent = some g.intent;
  lead_type = some g.lead_type;
  current_node = NodeName.greeting;
  next_action = some Action.collect_info;
  conversation_stage = collecting;
}

-- The labels of the prompt, the names of the fields, and what each is for.
abbrev pub base_field_map : List (Text × Text × Field)
base_field_map =
    (text "Name", text "lead_name", lead_name)
    ∷ (text "Company", text "company_name", company_name)
    ∷ (text "Industry", text "industry", industry)
    ∷ (text "Budget", text "budget", budget)
    ∷ (text "Timeline", text "timeline", timeline)
    ∷ (text "Problem", text "problem_statement", problem_statement)
    ∷ []

-- `field_map_for`: no company for an individual.
abbrev pub asked : Option LeadType → Field → Bool
asked lt company_name = not (is_individual lt)
asked lt _ = true

abbrev pub set_field : AgentState → Field → Json → AgentState
set_field s lead_name v = record s { lead_name = v }
set_field s company_name v = record s { company_name = v }
set_field s industry v = record s { industry = v }
set_field s budget v = record s { budget = parse_budget v }
set_field s timeline v = record s { timeline = v }
set_field s problem_statement v = record s { problem_statement = v }

-- The loop over the field map.
unfoldable pub update_fields :
    Option LeadType → List (Text × Json) → List (Text × Text × Field) → AgentState → AgentState
update_fields lt updates [] s = s
update_fields lt updates ((label, name, f) ∷ more) s =
    let v = or_value (get label updates) (get name updates) in
    update_fields lt updates more (if asked lt f && not_null v then set_field s f v else s)

abbrev first_if : Field → List Field → Option Field
first_if first [] = none
first_if first (_ ∷ _) = some first

abbrev pub collected_state : Field → AgentState → Content → Collected → AgentState
collected_state first s reply c =
    let updated = update_fields s.lead_type c.extracted base_field_map s in
    let missing = compute_missing (lead_of updated) s.lead_type in
    record (say updated (plain c.reply) c.reply) {
      missing_fields = missing;
      current_node = NodeName.info_collection;
      next_action = some Action.collect_info;
      conversation_stage = collecting;
      current_question = first_if first missing;
    }
