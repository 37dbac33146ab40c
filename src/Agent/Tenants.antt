-- ===== src/Agent/Tenants.antt =====
-- The model that a tenant's turn talks to: resolve_tenant_config, resolve_tenant_gemini_key and get_graph of
-- app/agent/graph.py, with get_crm_config of app/database/crud.py.
pub mod Keys
use leadpulse.Prelude.{
  ℕ, Bool, true, false, ◌&&◌, Option, none, some, List, [], ◌∷◌, if◌then◌else◌, keep_if,
}
use leadpulse.Prelude.Text.{Text, text, text_eq, is_empty}
use leadpulse.Accounts.{Selected, no_row, rows, one_row, selected}
use leadpulse.Access.{given}

-- A row of crm_configs, with its encrypted text.
pub record CrmConfig : Type 0 where
  pub organization_id : Text
  pub integration_type : Text
  pub is_active : Bool
  pub config : Text

abbrev pub is_config_of : Text → Option Text → CrmConfig → Bool
is_config_of tenant none c = text_eq c.organization_id tenant && c.is_active
is_config_of tenant (some type) c =
    (text_eq c.organization_id tenant && c.is_active) && text_eq c.integration_type type

-- `get_crm_config`, where an empty integration type is none.
unfoldable pub get_crm_config : Text → Option Text → List CrmConfig → Selected CrmConfig
get_crm_config tenant type configs = selected (keep_if (is_config_of tenant type) configs)

pub record TenantConfig : Type 0 where
  pub api_key : Option Text
  pub vertical : Option Text
  pub business_name : Option Text

abbrev pub no_config : TenantConfig
no_config = record { api_key = none; vertical = none; business_name = none }

-- A graph, as far as the calls of its model depend on it: the key and the tenant of its limiter.
pub record AgentGraph : Type 0 where
  pub gemini_key : Text
  pub tenant_id : Option Text

-- `_agent_graph`, `_tenant_graphs` and `_tenant_graph_keys`.
pub record Graphs : Type 0 where
  pub agent_graph : Option AgentGraph
  pub tenant_graphs : Text → Option AgentGraph
  pub tenant_graph_keys : Text → Option Text

abbrev pub no_graphs : Graphs
no_graphs = record { agent_graph = none; tenant_graphs = λ t. none; tenant_graph_keys = λ t. none }

abbrev pub put_at {ℓ} : {A : Type ℓ} → Text → A → (Text → A) → Text → A
put_at key a f k = if text_eq key k then a else f k

-- `a == b` of two keys.
abbrev pub same_key : Option Text → Option Text → Bool
same_key none none = true
same_key none (some b) = false
same_key (some a) none = false
same_key (some a) (some b) = text_eq a b

-- The decryption of a config, none for an exception, and settings.gemini_api_key.
module _ (decrypt : Text → Option TenantConfig) (platform_key : Text) where
  abbrev decrypted : Option TenantConfig → TenantConfig
  decrypted none = no_config
  decrypted (some c) = c

  abbrev pub of_row : Selected CrmConfig → TenantConfig
  of_row no_row = no_config
  of_row rows = no_config
  of_row (one_row c) = if is_empty c.config then no_config else decrypted (decrypt c.config)

  -- `resolve_tenant_config`
  unfoldable pub resolve_tenant_config : Option Text → List CrmConfig → TenantConfig
  resolve_tenant_config none configs = no_config
  resolve_tenant_config (some tenant) configs =
      of_row (get_crm_config tenant (some (text "gemini")) configs)

  -- `key or settings.gemini_api_key`
  abbrev pub or_platform : Option Text → Text
  or_platform none = platform_key
  or_platform (some k) = k

  -- `resolve_tenant_gemini_key`
  unfoldable pub resolve_tenant_gemini_key : Option Text → List CrmConfig → Text
  resolve_tenant_gemini_key tenant configs =
      or_platform (given (resolve_tenant_config tenant configs).api_key)

  -- `build_graph`, as far as `AgentGraph` has it.
  abbrev pub build_graph : Option Text → Option Text → AgentGraph
  build_graph api_key tenant = record {
    gemini_key = or_platform (given api_key);
    tenant_id = tenant;
  }

  abbrev pub built_for : Text → Option Text → Graphs → AgentGraph × Graphs
  built_for tenant api_key g =
      let graph = build_graph api_key (some tenant) in
      (
        graph,
        record g {
          tenant_graphs = put_at tenant (some graph) g.tenant_graphs;
          tenant_graph_keys = put_at tenant api_key g.tenant_graph_keys;
        },
      )

  abbrev pub cached_graph : Text → Option Text → Graphs → Option AgentGraph → AgentGraph × Graphs
  cached_graph tenant api_key g none = built_for tenant api_key g
  cached_graph tenant api_key g (some graph) =
      if same_key (g.tenant_graph_keys tenant) api_key
      then (graph, g)
      else built_for tenant api_key g

  -- `get_graph`
  unfoldable pub get_graph : Option Text → Option Text → Graphs → AgentGraph × Graphs
  get_graph none api_key g = elim g.agent_graph [
    | some graph ↦ (graph, g)
    | none ↦ let graph = build_graph api_key none in (graph, record g { agent_graph = some graph })
  ]
  get_graph (some tenant) api_key g = cached_graph tenant api_key g (g.tenant_graphs tenant)

  -- The start of `run_agent`: the graph of the turn, by the rows of the time.
  unfoldable pub turn_graph : Option Text → List CrmConfig → Graphs → AgentGraph × Graphs
  turn_graph tenant configs g = get_graph tenant (some (resolve_tenant_gemini_key tenant configs)) g

  -- The graphs after turns of any tenants, each with the rows of its time.
  unfoldable pub graphs_after : List (Option Text × List CrmConfig) → Graphs
  graphs_after [] = no_graphs
  graphs_after (t ∷ ts) = (turn_graph t.0 t.1 (graphs_after ts)).1
