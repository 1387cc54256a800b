-- ===== src/Controller/Children/Completes.antt =====
-- The children against an API server that works.
use agentrax.Prelude.{ℤ, String, refl, Bool, not, ◌≡◌, ◌≢◌, true}
use agentrax.Api.{AgentDeployment, TenantQuota}
use agentrax.Scaling.{quota_headroom}
use agentrax.Rollout.Cluster.{Api, Reply, object, missing, broken}
use agentrax.Rollout.Cluster.Success.{
  Returns-bind, Returns-if, Returns-get, Returns-require, Returns-asks,
}
use agentrax.Controller.Objects.{in_rollout}
use agentrax.Controller.Children.{
  own, reconcile_deployment, reconcile_service, reconcile_service_monitor,
  replicas_used_by_other_agents, write_capped_hpa, hpa_quota_read, reconcile_hpa,
}
use agentrax.Controller.Serving.{
  IsServing, Ends, Ends-bind, Ends-pure, Ends-listed, Ends-needed, Ends-stored, Ends-stored_then,
}

module _ (api : Api) (works : IsServing api) (ad : AgentDeployment) where
  Ends-own : (message : String) → Ends api (own message ad)
  unfolding own
  Ends-own message =
      Returns-bind api (λ b. b ≡ true) _ _ _
        (Returns-asks api _ (λ api h. api.set_owner h ad) (λ h. works.available.set_owner h ad))
        (Returns-require api message)

  pub Ends-reconcile_deployment : Ends api (reconcile_deployment ad)
  unfolding reconcile_deployment
  Ends-reconcile_deployment =
      Ends-needed api _ (λ api. api.deployment_to_mutate) _ _ _ _
        (λ h. works.deployment_to_mutate h _ _)
        λ existing. Ends-bind api _ _ (Ends-own _) λ u. Ends-stored api works.available _ _ _

  pub Ends-reconcile_service : Ends api (reconcile_service ad)
  unfolding reconcile_service
  Ends-reconcile_service =
      Ends-needed api _ (λ api. api.service_to_mutate) _ _ _ _ (λ h. works.service_to_mutate h _ _)
        λ existing. Ends-bind api _ _ (Ends-own _) λ u. Ends-stored api works.available _ _ _

  pub Ends-reconcile_service_monitor : (b : Bool) → Ends api (reconcile_service_monitor b ad)
  unfolding reconcile_service_monitor
  Ends-reconcile_service_monitor b = Returns-if api _ (not b) _ _ (Ends-pure api tt) (
      Ends-needed api _ (λ api. api.service_monitor_to_mutate) _ _ _ _
        (λ h. works.service_monitor_to_mutate h _ _)
        λ existing. Ends-bind api _ _ (Ends-own _) λ u. Ends-stored api works.available _ _ _)

  Ends-write_capped_hpa : (n : ℤ) → Ends api (write_capped_hpa ad n)
  unfolding write_capped_hpa
  Ends-write_capped_hpa n = Ends-bind api _ _ (Ends-own _) λ u.
      Ends-needed api _ (λ api. api.hpa_to_mutate) _ _ _ _
        (λ h. works.available.hpa_to_mutate h _ _)
        λ existing.
          Ends-bind api _ _ (Ends-own _)
            λ v. Ends-stored_then api works.available _ _ _ _ λ w. Ends-pure api _

  Ends-hpa_quota_read : (r : Reply TenantQuota) → r ≢ broken → Ends api (hpa_quota_read ad r)
  unfolding hpa_quota_read replicas_used_by_other_agents
  Ends-hpa_quota_read missing n = Ends-pure api _
  Ends-hpa_quota_read broken n = absurd (n refl)
  Ends-hpa_quota_read (object tq) n =
      Ends-bind api _ _
        (Ends-listed api _ (λ api. api.agent_list) _ _ _ (λ h. works.agent_list h _)
          (λ items. Ends-pure api _))
        (λ used. Ends-write_capped_hpa (quota_headroom tq.spec ad.spec used))

  pub Ends-reconcile_hpa : Ends api (reconcile_hpa ad)
  unfolding reconcile_hpa
  Ends-reconcile_hpa = Returns-if api _ (in_rollout ad.status.phase) _ _ (Ends-pure api _) (
      Returns-bind api (λ r. r ≢ broken) _ _ _
        (Returns-get api _ _ (λ api. api.tenant_quota) _ _ (λ h. works.tenant_quota h _ _))
        Ends-hpa_quota_read)
