-- ===== src/Agent/World.antt =====
-- What the nodes of the conversation graph share: the settings (app/config/settings.py), what is
-- outside of the agent, and the merge of a node's update (app/agent/state.py).
-- A node takes the state and gives the state with its update merged in: a returned key replaces
-- the value, and `messages` and `conversation_history` are appended to.
-- `none` is an exception that leaves the node.
use leadpulse.Prelude.{ℕ, Bool, Option, none, some, List, [], ◌∷◌, ◌++◌}
use leadpulse.Prelude.Text.{Text}
use leadpulse.Double.{Double}
use leadpulse.Scoring.{Thresholds, LeadStatus}
use leadpulse.Agent.State.{Content, ai, assistant, NodeName, AgentState}
use leadpulse.Agent.Fields.{Lead}
use leadpulse.Agent.Reply.{Loaded}

-- The settings that the agent reads.
pub record Settings : Type 0 where
  pub vertical : Text
  pub business_name : Text
  pub thresholds : Thresholds
  pub human_handoff_confidence : Double

pub record Slot : Type 0 where
  pub label : Text
  pub datetime : Text

-- What is outside of the agent in one turn. `ask` is the model's answer to the prompt of a node,
-- which is formatted from the state, or `none` if the call raised.
pub record World : Type 0 where
  pub ask : NodeName → AgentState → Option Content
  pub loads : Text → Option Loaded
  pub parse_uuid : Text → Option Text
  pub slots : List Slot

-- The `lead_data` of end_conversation_node.
pub record LeadData : Type 0 where
  pub lead : Lead
  pub qualification_score : Option ℕ
  pub lead_status : Option LeadStatus
  pub meeting_time : Option Text
  pub booking_confirmed : Bool
  pub human_escalated : Bool

-- What the graph does to other systems: `update_crm` with the session, the data and the tenant,
-- and `notify_tenant`.
pub data Effect : Type 0 where
  crm_update : Text → LeadData → Option Text → Effect
  notify_tenant : Text → LeadData → Effect

infixl 5 ◌>>=◌
abbrev pub ◌>>=◌ {ℓ κ} : {A : Type ℓ} {B : Type κ} → Option A → (A → Option B) → Option B
none >>= k = none
some a >>= k = k a

-- One answer in `messages` and in `conversation_history`.
abbrev pub say : AgentState → Content → Text → AgentState
say s content reply = record s {
  messages = s.messages ++ ai content ∷ [];
  conversation_history =
      s.conversation_history ++ record { role = assistant; content = reply } ∷ [];
}
