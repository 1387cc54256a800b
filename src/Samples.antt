-- ===== src/Samples.antt =====
-- Concrete objects for the tests: an agent, its tenant's quota, and an enforcer.
pub mod Server
pub mod Reconcilers
pub mod Prometheus
use agentrax.Prelude.{ℤ, pos, ltb_ℤ, leb_ℤ, false, none, some, [], ◌∷◌}
use agentrax.Api.ErrorRate.{Float}
use agentrax.Api.{
  Quantity, parsed, Strategy, Phase, AgentDeploymentSpec, AgentDeployment, TenantQuotaSpec,
  TenantQuotaStatus, TenantQuota,
}
use agentrax.Quota.{Enforcer, new_enforcer}

-- One GPU per replica, two replicas at most.
abbrev pub sample_spec : AgentDeploymentSpec
sample_spec = record {
  image = "agent:v1";
  port = pos 0;
  tenant_ref = "team-a";
  replicas = record { min = pos 1; max = pos 2; metric = "queueDepth"; target = pos 10 };
  rollout = record {
    strategy = Strategy.recreate;
    steps = [];
    rollback = record {
      max_error_rate = "";
      max_p99_latency_ms = pos 0;
      min_request_sample = pos 0;
    };
    abort = false;
  };
  mcp = record { expose = false; tools = [] };
  resources = record { limits = ("nvidia.com/gpu", parsed "1") ∷ []; requests = [] };
  env = [];
  args = [];
}

abbrev pub sample_agent : AgentDeployment
sample_agent = record {
  name = "agent";
  namespace = "team-a";
  generation = pos 1;
  deletion_timestamp = none;
  finalizers = [];
  spec = sample_spec;
  status = record {
    phase = Phase.running;
    current_replicas = pos 1;
    stable_version = "agent:v1";
    canary_version = "";
    canary_weight = pos 0;
    canary_step_index = pos 0;
    pause_started_at = none;
    prom_unreachable_since = none;
    registered = false;
    conditions = [];
  };
}

abbrev pub sample_quota : TenantQuotaSpec
sample_quota = record {
  max_agents = pos 3;
  max_gpus = pos 8;
  max_total_replicas = pos 10;
  max_replicas_per_agent = pos 4;
}

abbrev pub sample_use : TenantQuotaStatus
sample_use = record {
  used_agents = pos 1;
  used_gpus = pos 2;
  used_total_replicas = pos 2;
  conditions = [];
}

abbrev pub sample_tenant : TenantQuota
sample_tenant = record {
  name = "team-a";
  namespace = "team-a";
  generation = pos 1;
  spec = sample_quota;
  status = sample_use;
}

-- Every quantity counts one.
abbrev pub sample_value : Quantity → ℤ
sample_value q = pos 1

abbrev pub sample_enforcer : Enforcer
sample_enforcer = new_enforcer sample_value ""

-- Integers in the place of floating-point numbers.
abbrev pub sample_float : Float
sample_float = record {
  F = ℤ;
  ltb_f = ltb_ℤ;
  leb_f = leb_ℤ;
  div_f = λ x y. x;
  is_nan = λ x. false;
  is_inf = λ x. false;
  of_int = λ n. n;
  parse_float = λ s. some (pos 100);
}
