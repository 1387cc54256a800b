-- ===== src/Controller/EndTests.antt =====
-- That a rollout ends, at one of two steps that Prometheus does not answer.
use agentrax.Prelude.{pos, ◌+ℤ◌, refl, arith, false, none, some, List, [], ◌∷◌}
use agentrax.Api.{Time, Duration, CanaryStep, Phase, Strategy, AgentDeployment}
use agentrax.Scaling.{build_hpa}
use agentrax.Controller.Objects.{in_rollout, desired_service}
use agentrax.Rollout.Objects.{desired_canary_deployment}
use agentrax.Rollout.Cluster.{Api, object}
use agentrax.Rollout.Cluster.Stored.{stored, IsStoring}
use agentrax.Rollout.Canary.{Controller}
use agentrax.Rollout.Step.Progress.{HasEnded, IsPatient, IsOnTrack}
use agentrax.Controller.Agents.{Reconciler}
use agentrax.Controller.Agents.Termination.{Spaced, IsReady, rounds, rollout_ends}
use agentrax.Samples.Server.{server}
use agentrax.Samples.{sample_agent, sample_float}

abbrev two_steps : List CanaryStep
two_steps =
    record { set_weight = some (pos 10); pause = none }
    ∷ record { set_weight = none; pause = some (pos 60000000000) }
    ∷ []

-- An agent whose rollout has just begun.
abbrev rolling_agent : AgentDeployment
rolling_agent = record sample_agent {
  spec = record sample_agent.spec {
    image = "agent:v2";
    rollout = record sample_agent.spec.rollout { strategy = Strategy.canary; steps = two_steps };
  };
  status = record sample_agent.status {
    phase = Phase.rollout_in_progress;
    canary_version = "agent:v2";
    canary_step_index = pos 0;
    pause_started_at = none;
    prom_unreachable_since = none;
  };
}

-- A server that keeps the statuses that are written.
abbrev api : Api
api = record (server rolling_agent) { agent = λ h namespace name. object (stored rolling_agent h) }

stores : IsStoring api rolling_agent
stores = record {
  available = record {
    agent = λ h namespace name. (stored rolling_agent h, refl);
    deployment = λ h namespace name e. ground arith;
    service = λ h namespace name e. ground arith;
    route = λ h namespace name e. ground arith;
    hpa_to_mutate = λ h namespace name. (build_hpa rolling_agent (pos 0), refl);
    update_status = λ h ad. (ad, refl);
    store = λ h k. refl;
    delete = λ h k namespace name e. ground arith;
    set_owner = λ h ad. refl;
  };
  agent = λ h. refl;
  update_status = λ h ad. refl;
  stable = λ h. (desired_canary_deployment rolling_agent (stored rolling_agent h).name, refl);
  deployment_to_mutate = λ h namespace name. (desired_canary_deployment rolling_agent name, refl);
  service_to_mutate = λ h namespace name. (desired_service rolling_agent, refl);
}

abbrev controller : Controller
controller = record {
  gateway_name = "gateway";
  gateway_namespace = "agentrax-system";
  fail_safe_timeout = pos 60000000000;
  register = none;
}

abbrev fifteen_minutes : Duration
fifteen_minutes = pos 900000000000

abbrev reconciler : Reconciler
reconciler = record {
  canary_controller = some controller;
  registrar = none;
  mcp_health_interval = pos 0;
  has_service_monitor_crd = false;
}

patient : IsPatient controller two_steps fifteen_minutes
patient = record {
  timeout = omega arith;
  ceiling = omega arith;
  small = omega arith;
  pauses = (tt, (omega arith, tt));
  few = omega arith;
}

ready :
    IsReady reconciler sample_float
      (λ s. s)
      (λ h query. none)
      api
      rolling_agent
      controller
      fifteen_minutes
ready = record { stores = stores; controller = refl; guarded = λ ad e. refl; patient = patient }

on_track : IsOnTrack rolling_agent (pos 0) rolling_agent
unfolding in_rollout
on_track = record {
  same_steps = refl;
  same_finalizers = refl;
  kept = refl;
  rolling = refl;
  named = refl;
  index = (0, refl);
  pause = tt;
  outage = tt;
}

abbrev every_fifteen_minutes : List Time
every_fifteen_minutes =
    pos 900000000000
    ∷ pos 1800000000000
    ∷ pos 2700000000000
    ∷ pos 3600000000000
    ∷ pos 4500000000000
    ∷ pos 5400000000000
    ∷ pos 6300000000000
    ∷ pos 7200000000000
    ∷ pos 8100000000000
    ∷ []

spaced : Spaced fifteen_minutes (pos 0) every_fifteen_minutes
unfolding ◌+ℤ◌
spaced = ground arith

rollout_ends_example : HasEnded (
    stored rolling_agent (
      rounds reconciler sample_float
        (λ s. s)
        (λ h query. none)
        api
        rolling_agent
        every_fifteen_minutes
        []))
rollout_ends_example =
    rollout_ends reconciler sample_float (λ s. s) (λ h query. none) api rolling_agent controller
      fifteen_minutes (pos 0) every_fifteen_minutes ready on_track spaced (omega arith)
