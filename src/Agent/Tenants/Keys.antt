-- ===== src/Agent/Tenants/Keys.antt =====
-- Whose key a turn uses: get_graph of app/agent/graph.py.
use leadpulse.Prelude.{◌≡◌, Option, some}
use leadpulse.Prelude.Text.{Text}
use leadpulse.Agent.Tenants.{TenantConfig, AgentGraph, Graphs, build_graph}

module _ (decrypt : Text → Option TenantConfig) (platform_key : Text) where
  -- Each cached graph is what would be built for its tenant with the key that is noted.
  abbrev pub IsCoherent : Graphs → Type 0
  IsCoherent g =
      (t : Text) (graph : AgentGraph)
      → g.tenant_graphs t ≡ some graph
      → graph ≡ build_graph decrypt platform_key (g.tenant_graph_keys t) (some t)
