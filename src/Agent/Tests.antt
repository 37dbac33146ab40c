-- ===== src/Agent/Tests.antt =====
-- Runs of the agent, and the theorems about it at concrete turns.
use leadpulse.Prelude.{true, false, ◌≡◌, refl, Option, none, some, List, [], ◌∷◌, All}
use leadpulse.Prelude.Text.{Text, text}
use leadpulse.Agent.Tenants.{CrmConfig, TenantConfig}
use leadpulse.Double.{literal}
use leadpulse.Scoring.{default_thresholds, company, support}
use leadpulse.Agent.State.{
  Content, plain, null, NodeName, Stage, AgentState, get_initial_state, safe_text, user, assistant,
}
use leadpulse.Agent.Fields.{all_fields_populated}
use leadpulse.Agent.World.{Settings, World}
use leadpulse.Agent.Reply.{parse_greeting}
use leadpulse.Agent.Graph.{invoke}
use leadpulse.Agent.Graph.Termination.{EndsWithin, invoke-EndsWithin}
use leadpulse.Agent.Graph.Escalation.{NoHandoff}
use leadpulse.Agent.Graph.Delivery.{Delivers, invoke-Delivers}
use leadpulse.Agent.Turn.{Row, Request, turn_input, run_agent, Exchange, nodes_run, converse}
use leadpulse.Agent.Turn.Escalated.{nodes_run-NoHandoff}
use leadpulse.Agent.Graph.History.{KeepsHistory, invoke-KeepsHistory}
use leadpulse.Agent.Graph.Stuck.{PastCollection}
use leadpulse.Agent.Turn.Trapped.{RowTrapped, converse-RowTrapped}
use leadpulse.Agent.Turn.Support.{unknown_lead, LeavesTrapped, run_agent-support}

abbrev settings : Settings
settings = record {
  vertical = text "generic";
  business_name = text "Acme";
  thresholds = default_thresholds;
  human_handoff_confidence = literal 30;
}

-- A model that takes every first message for a request for support.
abbrev ask : NodeName → AgentState → Option Content
ask NodeName.greeting s =
    some (plain (text "INTENT: support\nLEAD_TYPE: company\nREPLY: What can I do for you?"))
ask _ s = some (plain (text "Our opening hours are nine to five."))

abbrev world : World
world = record {
  ask = ask;
  loads = λ s. none;
  parse_uuid = λ s. none;
  slots = record { label = text "Tomorrow at nine"; datetime = text "2026-01-02T09:00:00" } ∷ [];
}

abbrev request : Request
request = record {
  session_id = text "s1";
  message = text "My order is late";
  channel = text "web";
  tenant_id = some (text "t1");
  vertical = none;
  business_name = some (text "Acme");
}

abbrev start : AgentState
start = get_initial_state (text "s1") (text "web") none

invoke-EndsWithin_example : EndsWithin 7 (invoke settings world start)
invoke-EndsWithin_example = invoke-EndsWithin settings world start

invoke-Delivers_example : Delivers (invoke settings world start)
unfolding get_initial_state
invoke-Delivers_example = invoke-Delivers settings world start refl

invoke-KeepsHistory_example : KeepsHistory start.conversation_history (invoke settings world start)
invoke-KeepsHistory_example = invoke-KeepsHistory settings world start

abbrev exchanges : List Exchange
exchanges =
    record { world = world; request = request; saved = true }
    ∷ record {
      world = world;
      request = record request { message = text "Are you there?" };
      saved = true;
    }
    ∷ []

nodes_run-NoHandoff_example : NoHandoff (nodes_run settings (λ t. none) exchanges none)
unfolding literal
nodes_run-NoHandoff_example = nodes_run-NoHandoff settings (λ t. none) exchanges none refl tt

run_agent-support_example :
    LeavesTrapped (λ t. none) (some company) (run_agent settings world request none)
unfolding parse_greeting turn_input literal safe_text
run_agent-support_example =
    run_agent-support settings world (λ t. none) request
      (plain (text "INTENT: support\nLEAD_TYPE: company\nREPLY: What can I do for you?")) refl refl
      refl

abbrev trapped : Row
trapped = record {
  lead_name = null;
  company_name = null;
  industry = null;
  budget = none;
  timeline = null;
  problem_statement = null;
  qualification_score = none;
  lead_status = none;
  lead_intent = some support;
  lead_type = some company;
  booking_confirmed = false;
  meeting_time = none;
  conversation_history =
      record { role = user; content = text "My order is late" }
      ∷ record { role = assistant; content = text "Our opening hours are nine to five." }
      ∷ [];
  conversation_stage = Stage.greeting;
  current_node = NodeName.qualification;
  human_escalated = false;
}

trapped-RowTrapped : RowTrapped trapped unknown_lead (some company)
unfolding all_fields_populated
trapped-RowTrapped = record {
  current_node = tt;
  lead = refl;
  lead_type = refl;
  incomplete = refl;
  lead_status = refl;
  booking_confirmed = refl;
  human_escalated = refl;
}

converse-RowTrapped_example :
    All PastCollection (nodes_run settings (λ t. none) exchanges (some trapped))
    × ((r : Row) × (converse settings (λ t. none) exchanges (some trapped) ≡ some r)
        × RowTrapped r unknown_lead (some company))
unfolding literal
converse-RowTrapped_example =
    converse-RowTrapped settings (λ t. none) exchanges trapped unknown_lead (some company) refl
      trapped-RowTrapped

-- The key of a tenant changed after its first turn, and another tenant had a turn between.
abbrev key_row : Text → Text → CrmConfig
key_row tenant key = record {
  organization_id = tenant;
  integration_type = text "gemini";
  is_active = true;
  config = key;
}

abbrev with_key : Text → Option TenantConfig
with_key k = some (record { api_key = some k; vertical = none; business_name = none })

abbrev turns : List (Option Text × List CrmConfig)
turns =
    (some (text "globex"), key_row (text "globex") (text "g1") ∷ [])
    ∷ (some (text "acme"), key_row (text "acme") (text "a1") ∷ [])
    ∷ []
