-- ===== src/Controller/Children.antt =====
-- internal/controller/agentdeployment_controller.go: the reconciliation of the agent's Deployment,
-- Service, ServiceMonitor and HPA. Logging and tracing are left out.
pub mod Keeps
pub mod Completes
pub mod Headroom
pub mod Owned
use agentrax.Prelude.{
  ℤ, pos, add32, String, Bool, true, false, not, ◌&&◌, ◌||◌, Option, none, some, List, [], ◌∷◌,
  ◌==◌, if◌then◌else◌,
}
use agentrax.Api.{Duration, Time, AgentDeployment, TenantQuota}
use agentrax.Scaling.{build_hpa, is_quota_capped, quota_headroom}
use agentrax.Rollout.Cluster.{
  Kind, agents, deployments, services, autoscalers, tenant_quotas, service_monitors, Reply, object,
  missing, broken, Exec, pure, fail, ◌>>=◌, ◌>>◌, get, store, asks, need, must, require, list_items,
  need_list, write_deployment, write_service, write_service_monitor, write_hpa,
}
use agentrax.Rollout.Resources.{mutate_hpa}
use agentrax.Rollout.Canary.{Requeue}
use agentrax.Controller.Objects.{
  in_rollout, desired_deployment, update_deployment, desired_service, update_service,
  desired_service_monitor, update_service_monitor,
}

pub data QuotaState : Type 0 where
  uncapped capped unknown skipped : QuotaState

unfoldable pub own : String → AgentDeployment → Exec (Unit {0})
own message ad = do owned ← asks (λ api h. api.set_owner h ad); require message owned

unfoldable pub reconcile_deployment : AgentDeployment → Exec (Unit {0})
unfolding own
reconcile_deployment ad = do
  reply ← get deployments (λ api. api.deployment_to_mutate) ad.namespace ad.name
  existing ← need "reconciling deployment" reply
  own "setting controller reference" ad
  stored ← store deployments (write_deployment (update_deployment (desired_deployment ad) existing))
  must "reconciling deployment" stored

unfoldable pub reconcile_service : AgentDeployment → Exec (Unit {0})
unfolding own
reconcile_service ad = do
  reply ← get services (λ api. api.service_to_mutate) ad.namespace ad.name
  existing ← need "reconciling service" reply
  own "setting controller reference" ad
  stored ← store services (write_service (update_service (desired_service ad) existing))
  must "reconciling service" stored

unfoldable pub reconcile_service_monitor : Bool → AgentDeployment → Exec (Unit {0})
unfolding own
reconcile_service_monitor has_crd ad = if not has_crd then pure tt else do
  reply ← get service_monitors (λ api. api.service_monitor_to_mutate) ad.namespace ad.name
  existing ← need "reconciling servicemonitor" reply
  own "setting controller reference" ad
  stored ←
      store service_monitors
        (write_service_monitor (update_service_monitor (desired_service_monitor ad) existing))
  must "reconciling servicemonitor" stored

is_terminating : Option Time → Bool
is_terminating none = false
is_terminating (some t) = true

-- The three `continue`s of the loop.
unfoldable pub counts_for_others : AgentDeployment → AgentDeployment → Bool
unfolding is_terminating
counts_for_others ad other =
    if not (other.spec.tenant_ref == ad.spec.tenant_ref)
    then false
    else if other.name == ad.name && other.namespace == ad.namespace
    then false
    else not (is_terminating other.deletion_timestamp)

unfoldable pub sum_others : AgentDeployment → ℤ → List AgentDeployment → ℤ
sum_others ad total [] = total
sum_others ad total (other ∷ items) =
    sum_others ad
      (if counts_for_others ad other then add32 total other.spec.replicas.max else total) items

unfoldable pub replicas_used_by_other_agents : AgentDeployment → Exec ℤ
replicas_used_by_other_agents ad = do
  items ← list_items agents (λ api. api.agent_list) ad.namespace
  listed ← need_list "listing AgentDeployments for quota headroom" items
  pure (sum_others ad (pos 0) listed)

-- The quota is there: the HPA is capped by what it leaves.
write_capped_hpa : AgentDeployment → ℤ → Exec (Requeue × QuotaState)
unfolding own
write_capped_hpa ad headroom = do
  let desired = build_hpa ad headroom
  own "setting HPA owner reference" ad
  reply ← get autoscalers (λ api. api.hpa_to_mutate) desired.namespace desired.name
  existing ← need "creating/updating HPA" reply
  own "setting HPA owner reference" ad
  stored ← store autoscalers (write_hpa (mutate_hpa desired existing))
  must "creating/updating HPA" stored
  pure (none, if is_quota_capped ad headroom then capped else uncapped)

hpa_quota_read : AgentDeployment → Reply TenantQuota → Exec (Requeue × QuotaState)
unfolding write_capped_hpa
hpa_quota_read ad missing = pure (some (pos 10000000000), unknown)
hpa_quota_read ad broken = fail "fetching TenantQuota"
hpa_quota_read ad (object tq) = do
  used_by_others ← replicas_used_by_other_agents ad
  write_capped_hpa ad (quota_headroom tq.spec ad.spec used_by_others)

unfoldable pub reconcile_hpa : AgentDeployment → Exec (Requeue × QuotaState)
unfolding hpa_quota_read
reconcile_hpa ad = if in_rollout ad.status.phase then pure (none, skipped) else do
  reply ← get tenant_quotas (λ api. api.tenant_quota) ad.namespace ad.spec.tenant_ref
  hpa_quota_read ad reply
