-- ===== src/Rollout/Canary.antt =====
-- Rollback, executeSetWeight and promote of internal/rollout/canary.go. Logging is left out; a
-- message that is only shown is left out of the condition.
pub mod Ends
pub mod Completes
pub mod Owned
pub mod Settled
pub mod Namesake
use agentrax.Prelude.{
  ℕ, ◌+◌, ◌%◌, ◌-◌, ℤ, pos, negsuc, pos_part, neg_part, ◌-ℤ◌, ◌*ℤ◌, ltb_ℤ, leb_ℤ, eqb, add64, sub32,
  wrap64, String, ◌==◌, Bool, true, false, not, is_empty, get_elem?, length, Option, none, some,
  List, [], ◌∷◌, if◌then◌else◌,
}
use agentrax.Api.{
  Duration, Time, CanaryStep, Phase, ConditionType, ConditionReason, Condition, AgentDeployment,
  AgentDeploymentStatus,
}
use agentrax.Api.ErrorRate.{Float}
use agentrax.Rollout.Evaluate.{
  Evaluation, sample_too_small, breached, healthy, eval_failed, evaluate,
}
use agentrax.Rollout.Objects.{Deployment, Container}
use agentrax.Rollout.Cluster.{
  Api, Kind, agents, deployments, Call, History, register_call, Reply, object, missing, broken,
  Result, ok, Exec, pure, fail, crash, ◌>>=◌, ◌>>◌, get, store, update_status, asks, need, must,
  write_deployment,
}
use agentrax.Rollout.Resources.{
  ensure_canary_deployment, ensure_canary_service, ensure_http_route, delete_canary_deployment,
  delete_canary_service, delete_http_route, restore_hpa,
}

-- The controller's fields but its clients. `register` is what Registrar.Register answers, if there
-- is a registrar: whether it succeeded.
pub record Controller : Type 0 where
  pub gateway_name : String
  pub gateway_namespace : String
  pub fail_safe_timeout : Duration
  pub register : Option (History → AgentDeployment → Bool)

-- ctrl.Result: when to reconcile again
abbrev pub Requeue : Type 0
Requeue = Option Duration

abbrev pub second : Duration
second = pos 1000000000

with_image : String → List Container → List Container
with_image image [] = []
with_image image (c ∷ cs) = record c { image = image } ∷ cs

set_image : String → Deployment → Deployment
unfolding with_image
set_image image dep = record dep { containers = with_image image dep.containers }

-- The stable Deployment in a rollback: one that is missing, or has no container, is let be.
restore_read : AgentDeployment → Reply Deployment → Exec (Unit {0})
unfolding set_image
restore_read ad missing = pure tt
restore_read ad broken = fail "fetching stable deployment for rollback"
restore_read ad (object dep) = if is_empty dep.containers then pure tt else do
  updated ← store deployments (write_deployment (set_image ad.status.stable_version dep))
  must "restoring stable deployment image during rollback" updated

restore_stable : AgentDeployment → Exec (Unit {0})
unfolding restore_read
restore_stable ad = if ad.status.stable_version == "" then pure tt else do
  reply ← get deployments (λ api. api.deployment) ad.namespace ad.name
  restore_read ad reply

-- The status that a rollback writes.
unfoldable pub rolled_back :
    Api → ConditionReason → AgentDeployment → AgentDeployment → AgentDeployment
rolled_back api reason ad latest = record latest {
  status = record latest.status {
    phase = Phase.rollout_failed;
    canary_version =
        if latest.status.canary_version == "" then ad.spec.image else latest.status.canary_version;
    canary_weight = pos 0;
    canary_step_index = pos 0;
    pause_started_at = none;
    prom_unreachable_since = none;
    conditions = api.remove_condition ConditionType.sample_insufficient (
        api.set_condition
          (record {
            type_of = ConditionType.rollout_failed_condition;
            status = true;
            reason = reason;
            observed_generation = latest.generation;
          })
          latest.status.conditions);
  };
}

unfoldable pub rollback : AgentDeployment → ConditionReason → Exec (Unit {0})
unfolding restore_stable
rollback ad reason = do
  restore_stable ad
  delete_canary_deployment ad
  delete_canary_service ad
  delete_http_route ad
  restore_hpa ad
  reply ← get agents (λ api. api.agent) ad.namespace ad.name
  latest ← need "re-fetching AD for rollback status update" reply
  status ← asks (λ api h. rolled_back api reason ad latest)
  written ← update_status status
  stored ← need "updating status after rollback" written
  pure tt

-- The status that a promotion writes.
unfoldable pub promoted_status : Api → String → AgentDeployment → AgentDeployment
promoted_status api promoted latest = record latest {
  status = record latest.status {
    stable_version = promoted;
    canary_version = "";
    canary_weight = pos 0;
    canary_step_index = pos 0;
    pause_started_at = none;
    prom_unreachable_since = none;
    phase = Phase.running;
    conditions =
        api.remove_condition ConditionType.sample_insufficient
          (api.remove_condition ConditionType.rollout_failed_condition latest.status.conditions);
  };
}

call_register : (History → AgentDeployment → Bool) → AgentDeployment → Exec Bool
call_register register ad api h = let b = register h ad in (ok b, register_call ad b ∷ h)

-- The registration of a promoted agent. Its failure, and that of the status write, are only logged.
set_registered : AgentDeployment → Bool → Exec (Unit {0})
set_registered latest false = pure tt
set_registered latest true = if latest.status.registered then pure tt else do
  written ← update_status (record latest { status = record latest.status { registered = true } })
  pure tt

re_register : Option (History → AgentDeployment → Bool) → AgentDeployment → Exec (Unit {0})
unfolding call_register set_registered
re_register none latest = pure tt
re_register (some register) latest =
    if not latest.spec.mcp.expose
    then pure tt
    else do registered ← call_register register latest; set_registered latest registered

module _ (c : Controller) where
  promote_image : AgentDeployment → Exec (Unit {0})
  unfolding set_image
  promote_image ad = do
    reply ← get deployments (λ api. api.deployment) ad.namespace ad.name
    dep ← need "fetching stable deployment for promotion" reply
    updated ← store deployments (write_deployment (set_image ad.status.canary_version dep))
    must "updating stable deployment image during promotion" updated

  unfoldable pub promote : AgentDeployment → Exec (Unit {0})
  unfolding promote_image re_register
  promote ad =
      if ad.status.canary_version == "" then fail "cannot promote: canaryVersion is empty" else do
        promote_image ad
        delete_canary_deployment ad
        delete_canary_service ad
        delete_http_route ad
        restore_hpa ad
        reply ← get agents (λ api. api.agent) ad.namespace ad.name
        latest ← need "re-fetching AD for promotion status update" reply
        status ← asks (λ api h. promoted_status api ad.status.canary_version latest)
        written ← update_status status
        stored ← need "updating status after promotion" written
        re_register c.register stored

  unfoldable pub weighted : ℤ → ℤ → AgentDeployment → AgentDeployment
  weighted idx weight latest = record latest {
    status = record latest.status {
      canary_weight = weight;
      canary_step_index = add64 idx (pos 1);
      pause_started_at = none;
    };
  }

  unfoldable pub execute_set_weight : AgentDeployment → ℤ → ℤ → Exec Requeue
  execute_set_weight ad idx weight = do
    ensure_canary_deployment ad
    ensure_canary_service ad
    ensure_http_route c.gateway_name c.gateway_namespace ad (sub32 (pos 100) weight) weight
    reply ← get agents (λ api. api.agent) ad.namespace ad.name
    latest ← need "re-fetching AD after setWeight" reply
    written ← update_status (weighted idx weight latest)
    stored ← need "updating status after setWeight" written
    pure (some second)
