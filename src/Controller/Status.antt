-- ===== src/Controller/Status.antt =====
-- internal/controller/agentdeployment_controller.go: updateStatus and detectImagePullFailure.
pub mod Keeps
pub mod Completes
pub mod Owned
use agentrax.Prelude.{
  ℤ, pos, eqb_ℤ, leb_ℤ, ltb_ℤ, String, Bool, true, false, not, ◌&&◌, ◌||◌, Option, none, some, List,
  [], ◌∷◌, ◌++◌, ◌==◌, if◌then◌else◌,
}
use agentrax.Api.{
  Duration, Phase, ConditionType, ConditionReason, AgentDeployment, AgentDeploymentStatus,
}
use agentrax.Api.Objects.{Container, Deployment, ContainerStatus, Pod}
use agentrax.Rollout.Cluster.{
  Api, agents, deployments, pods, Reply, object, missing, broken, Exec, pure, fail, ◌>>=◌, get,
  update_status, asks, need, list_items, need_list,
}
use agentrax.Rollout.Canary.{Requeue}
use agentrax.Controller.Objects.{agent_labels, has_failed}
use agentrax.Controller.Children.{QuotaState, uncapped, capped, unknown, skipped}
use agentrax.Controller.Registration.{
  AgentRegistrar, set_condition, remove_condition, five_seconds, reconcile_mcp_registration,
}

quota_condition : Api → QuotaState → AgentDeployment → AgentDeployment
quota_condition api capped ad =
    set_condition api ConditionType.quota_limited true ConditionReason.hpa_max_replicas_capped ad
quota_condition api unknown ad =
    set_condition api ConditionType.quota_limited true ConditionReason.tenant_quota_not_found ad
quota_condition api uncapped ad = remove_condition api ConditionType.quota_limited ad
quota_condition api skipped ad = ad

-- imagePullReasons
is_image_pull_reason : Option String → Bool
is_image_pull_reason none = false
is_image_pull_reason (some reason) = reason == "ImagePullBackOff" || reason == "ErrImagePull"

any_stuck : List ContainerStatus → Bool
unfolding is_image_pull_reason
any_stuck [] = false
any_stuck (c ∷ statuses) = is_image_pull_reason c.waiting || any_stuck statuses

any_pod_stuck : List Pod → Bool
unfolding any_stuck
any_pod_stuck [] = false
any_pod_stuck (pod ∷ items) =
    any_stuck (pod.container_statuses ++ pod.init_container_statuses) || any_pod_stuck items

unfoldable pub detect_image_pull_failure : AgentDeployment → Exec Bool
unfolding any_pod_stuck
detect_image_pull_failure ad = do
  items ←
      list_items pods (λ api h namespace. api.pod_list h namespace (agent_labels ad)) ad.namespace
  listed ← need_list "listing pods for image pull check" items
  pure (any_pod_stuck listed)

replicas_or_one : Option ℤ → ℤ
replicas_or_one none = pos 1
replicas_or_one (some n) = n

unfoldable pub rollout_complete : Deployment → Bool
unfolding replicas_or_one
rollout_complete dep =
    leb_ℤ dep.generation dep.status.observed_generation
    && eqb_ℤ dep.status.updated_replicas (replicas_or_one dep.replicas)
    && eqb_ℤ dep.status.available_replicas (replicas_or_one dep.replicas)

unfoldable pub with_phase : Phase → AgentDeployment → AgentDeployment
with_phase phase ad = record ad { status = record ad.status { phase = phase } }

-- A failed rollout stays failed while spec.image is not the stable version.
settled_phase : Api → AgentDeployment → AgentDeployment
settled_phase api ad =
    if has_failed ad.status.phase && not (ad.spec.image == ad.status.stable_version)
    then ad
    else remove_condition api ConditionType.rollout_failed_condition
        (record ad { status = record ad.status { phase = Phase.running; canary_version = "" } })

stable_from : List Container → AgentDeployment → AgentDeployment
stable_from [] ad = ad
stable_from (c ∷ containers) ad = record ad {
  status = record ad.status { stable_version = c.image };
}

ready_as : Api → Bool → ConditionReason → AgentDeployment → AgentDeployment
ready_as api ready reason ad =
    set_condition api ConditionType.reconciled true ConditionReason.reconcile_success
      (set_condition api ConditionType.ready ready reason ad)

-- What the live Deployment makes of the status, given whether an image cannot be pulled.
unfoldable pub derive_status : Api → Deployment → Bool → AgentDeployment → AgentDeployment
unfolding settled_phase stable_from ready_as
derive_status api dep true ad =
    with_phase Phase.degraded (
      set_condition api ConditionType.image_pull_failed true ConditionReason.image_pull_back_off ad)
derive_status api dep false ad =
    let pulled = remove_condition api ConditionType.image_pull_failed ad in
    if rollout_complete dep
    then ready_as api true ConditionReason.deployment_ready
        (stable_from dep.containers (settled_phase api pulled))
    else ready_as api false ConditionReason.deployment_not_ready (with_phase Phase.pending pulled)

with_current_replicas : ℤ → AgentDeployment → AgentDeployment
with_current_replicas n ad = record ad { status = record ad.status { current_replicas = n } }

is_pending : Phase → Bool
is_pending Phase.pending = true
is_pending phase = false

-- The object after the write, which decodes the stored one into it.
write_changed : Bool → AgentDeployment → Exec AgentDeployment
write_changed true next = pure next
write_changed false next = do written ← update_status next; need "updating status" written

status_requeue : Phase → Duration → Requeue
unfolding is_pending
status_requeue phase mcp =
    if is_pending phase then some five_seconds else if ltb_ℤ (pos 0) mcp then some mcp else none

module _ (registrar : Option AgentRegistrar) (mcp_health_interval : Duration) where
  status_agent_read :
      AgentDeployment → QuotaState → Deployment → Reply AgentDeployment → Exec Requeue
  unfolding quota_condition with_current_replicas write_changed status_requeue
  status_agent_read ad qs dep missing = pure none
  status_agent_read ad qs dep broken = fail "re-fetching agentdeployment for status update"
  status_agent_read ad qs dep (object latest) = do
    limited ← asks (λ api h. quota_condition api qs latest)
    pull_failed ← detect_image_pull_failure ad
    derived ← asks (λ api h.
        derive_status api dep pull_failed (with_current_replicas dep.status.ready_replicas limited))
    registered ← reconcile_mcp_registration registrar mcp_health_interval derived
    same ← asks (λ api h. api.same_status latest.status registered.0.status)
    next ← write_changed same registered.0
    pure (status_requeue next.status.phase registered.1)

  status_deployment_read : AgentDeployment → QuotaState → Reply Deployment → Exec Requeue
  unfolding status_agent_read
  status_deployment_read ad qs missing = pure (some five_seconds)
  status_deployment_read ad qs broken = fail "fetching deployment for status"
  status_deployment_read ad qs (object dep) = do
    reply ← get agents (λ api. api.agent) ad.namespace ad.name
    status_agent_read ad qs dep reply

  -- updateStatus
  unfoldable pub update_agent_status : AgentDeployment → QuotaState → Exec Requeue
  unfolding status_deployment_read
  update_agent_status ad qs = do
    reply ← get deployments (λ api. api.deployment) ad.namespace ad.name
    status_deployment_read ad qs reply
