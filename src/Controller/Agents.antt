-- ===== src/Controller/Agents.antt =====
-- internal/controller/agentdeployment_controller.go: Reconcile, its deletion path and startCanary.
-- Logging, tracing and the metrics are left out.
pub mod Deletion
pub mod Completes
pub mod Canaries
pub mod Owned
pub mod Termination
use agentrax.Prelude.{
  ℤ, pos, eqb_ℤ, ltb_ℤ, String, Bool, true, false, not, ◌&&◌, ◌||◌, Option, none, some, List, ◌∷◌,
  if◌then◌else◌,
}
use agentrax.Api.{Duration, Time, Phase, ConditionReason, AgentDeployment}
use agentrax.Api.ErrorRate.{Float}
use agentrax.Rollout.Cluster.{
  History, agents, Reply, object, missing, broken, Exec, pure, fail, ok, ◌>>=◌, ◌>>◌, get, store,
  update_status, asks, need, must, require, write_agent, deregister_call,
}
use agentrax.Rollout.Resources.{pause_hpa}
use agentrax.Rollout.Canary.{Controller, Requeue, rollback}
use agentrax.Rollout.Step.{step}
use agentrax.Controller.Objects.{in_rollout, is_abort_requested, is_canary_triggered}
use agentrax.Controller.Children.{
  reconcile_deployment, reconcile_service, reconcile_service_monitor, reconcile_hpa,
}
use agentrax.Controller.Registration.{AgentRegistrar, call_registrar, five_seconds}
use agentrax.Controller.Status.{update_agent_status}

-- AgentDeploymentReconciler, without its client, its scheme and the GPU resource name, which it does
-- not read.
pub record Reconciler : Type 0 where
  pub canary_controller : Option Controller
  pub registrar : Option AgentRegistrar
  pub mcp_health_interval : Duration
  pub has_service_monitor_crd : Bool

-- The status with which a canary starts.
unfoldable pub started : AgentDeployment → AgentDeployment → AgentDeployment
started ad latest = record latest {
  status = record latest.status {
    phase = Phase.rollout_in_progress;
    canary_version = ad.spec.image;
    canary_step_index = pos 0;
    canary_weight = pos 0;
    pause_started_at = none;
    prom_unreachable_since = none;
  };
}

unfoldable pub start_canary : AgentDeployment → Exec (Unit {0})
start_canary ad = do
  pause_hpa ad
  reply ← get agents (λ api. api.agent) ad.namespace ad.name
  latest ← need "re-fetching AD to start canary" reply
  written ← update_status (started ad latest)
  stored ← need "updating status to RolloutInProgress" written
  pure tt

unfoldable pub run_deletion_cleanup : Option AgentRegistrar → AgentDeployment → Exec (Unit {0})
unfolding call_registrar
run_deletion_cleanup none ad = pure tt
run_deletion_cleanup (some g) ad = do
  gone ← call_registrar deregister_call g.deregister ad
  require "deregistering agent" gone

after : Requeue → ℤ
after none = pos 0
after (some d) = d

-- The shorter of the two intervals, 0 being none.
unfoldable pub shorter : Requeue → Requeue → Requeue
unfolding after
shorter hpa status =
    if ltb_ℤ (pos 0) (after hpa)
      && (eqb_ℤ (after status) (pos 0) || ltb_ℤ (after hpa) (after status))
    then hpa
    else if ltb_ℤ (pos 0) (after status)
    then status
    else none

module _ (r : Reconciler) (fl : Float) (quote : String → String)
    (prom : History → String → Option fl.F) where
  deleted : AgentDeployment → Exec Requeue
  deleted ad = do
    present ← asks (λ api h. api.has_finalizer ad)
    if not present then pure none else do
      run_deletion_cleanup r.registrar ad
      cleaned ← asks (λ api h. api.remove_finalizer ad)
      stored ← store agents (write_agent cleaned)
      must "removing finalizer" stored
      pure none

  ensure_finalizer : String → String → AgentDeployment → Bool → Exec AgentDeployment
  ensure_finalizer namespace name ad true = pure ad
  ensure_finalizer namespace name ad false = do
    marked ← asks (λ api h. api.add_finalizer ad)
    stored ← store agents (write_agent marked)
    must "adding finalizer" stored
    reply ← get agents (λ api. api.agent) namespace name
    need "re-fetching after finalizer add" reply

  -- Steps 4 to 8: the children, and the status last.
  unfoldable pub reconcile_children : AgentDeployment → Exec Requeue
  reconcile_children ad = do
    reconcile_deployment ad
    reconcile_service ad
    reconcile_service_monitor r.has_service_monitor_crd ad
    hpa ← reconcile_hpa ad
    status ← update_agent_status r.registrar r.mcp_health_interval ad hpa.1
    pure (shorter hpa.0 status)

  with_canary : Time → AgentDeployment → Controller → Exec Requeue
  unfolding started start_canary
  with_canary now ad c =
      if is_abort_requested ad
      then (do rollback ad ConditionReason.manual_abort; pure none)
      else if in_rollout ad.status.phase
      then step c fl quote prom now ad
      else if is_canary_triggered ad
      then (do start_canary ad; pure (some five_seconds))
      else reconcile_children ad

  -- Step 3.
  unfoldable pub reconcile_live : Time → AgentDeployment → Option Controller → Exec Requeue
  unfolding with_canary
  reconcile_live now ad none = reconcile_children ad
  reconcile_live now ad (some c) = with_canary now ad c

  by_deletion : String → String → Time → AgentDeployment → Option Time → Exec Requeue
  unfolding deleted ensure_finalizer
  by_deletion namespace name now ad (some t) = deleted ad
  by_deletion namespace name now ad none = do
    present ← asks (λ api h. api.has_finalizer ad)
    current ← ensure_finalizer namespace name ad present
    reconcile_live now current r.canary_controller

  fetched : String → String → Time → Reply AgentDeployment → Exec Requeue
  unfolding by_deletion
  fetched namespace name now missing = pure none
  fetched namespace name now broken = fail "fetching AgentDeployment"
  fetched namespace name now (object ad) = by_deletion namespace name now ad ad.deletion_timestamp

  unfoldable pub reconcile : String → String → Time → Exec Requeue
  unfolding fetched
  reconcile namespace name now = do
    reply ← get agents (λ api. api.agent) namespace name
    fetched namespace name now reply
