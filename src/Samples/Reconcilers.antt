-- ===== src/Samples/Reconcilers.antt =====
-- A reconciler with all its parts, and an agent whose canary is due.
use agentrax.Prelude.{pos, String, true, false, some, none}
use agentrax.Api.{Phase, Strategy, AgentDeployment}
use agentrax.Rollout.Canary.{Controller}
use agentrax.Controller.Registration.{AgentRegistrar, alive}
use agentrax.Controller.Agents.{Reconciler}
use agentrax.Samples.{sample_agent}

-- An agent that runs v1, and whose spec asks for v2 by a canary.
abbrev pub changed_agent : Phase → String → AgentDeployment
changed_agent phase canary = record sample_agent {
  spec = record sample_agent.spec {
    image = "agent:v2";
    rollout = record sample_agent.spec.rollout { strategy = Strategy.canary };
  };
  status = record sample_agent.status { phase = phase; canary_version = canary };
}

abbrev pub due_agent : AgentDeployment
due_agent = changed_agent Phase.running ""

abbrev pub registrar : AgentRegistrar
registrar = record { register = λ h ad. true; deregister = λ h ad. true; heartbeat = λ h ad. alive }

abbrev pub controller : Controller
controller = record {
  gateway_name = "gateway";
  gateway_namespace = "agentrax-system";
  fail_safe_timeout = pos 300;
  register = none;
}

abbrev pub reconciler : Reconciler
reconciler = record {
  canary_controller = some controller;
  registrar = some registrar;
  mcp_health_interval = pos 0;
  has_service_monitor_crd = false;
}
