-- ===== src/Controller/Children/Owned.antt =====
-- The reconciliation of an agent's children stays with the agent.
use agentrax.Prelude.{ℤ, String, refl, inl, Bool, not}
use agentrax.Api.{AgentDeployment, TenantQuota}
use agentrax.Scaling.{build_hpa, quota_headroom}
use agentrax.Rollout.Cluster.{
  Api, agents, deployments, services, autoscalers, tenant_quotas, service_monitors, Reply, object,
  missing, broken,
}
use agentrax.Rollout.Cluster.Traces.{
  Anything, OnObject, OnObject-any, Does-bind, Does-pure, Does-fail, Does-if, Does-asks, Does-get,
  Does-needed, Does-require, Does-list, Does-stored, Does-store, Does-must,
}
use agentrax.Rollout.Cluster.Owned.{Is, Stays, IsFaithful}
use agentrax.Rollout.Resources.{mutate_hpa}
use agentrax.Rollout.Canary.{Requeue}
use agentrax.Controller.Objects.{
  in_rollout, update_deployment, update_service, update_service_monitor,
}
use agentrax.Controller.Children.{
  QuotaState, own, reconcile_deployment, reconcile_service, reconcile_service_monitor,
  replicas_used_by_other_agents, write_capped_hpa, hpa_quota_read, reconcile_hpa,
}

module _ (api : Api) (faithful : IsFaithful api) (ad : AgentDeployment) where
  Stays-own : (message : String) → Stays api ad Anything (own message ad)
  unfolding own
  Stays-own message =
      Does-bind api _ Anything Anything _ _ (Does-asks api _ Anything _ (λ h. tt))
        (λ b u. Does-require api _ _ b)

  pub Stays-reconcile_deployment : Stays api ad Anything (reconcile_deployment ad)
  unfolding reconcile_deployment update_deployment
  Stays-reconcile_deployment =
      Does-needed api _ (λ o. Is ad.namespace ad.name o.namespace o.name) Anything deployments
        (λ api. api.deployment_to_mutate) _ _ _ _ (λ a. refl)
        (λ h. faithful.deployment_to_mutate h _ _)
        λ existing found.
          Does-bind api _ Anything Anything _ _ (Stays-own _)
            λ u v. Does-stored api _ _ _ _ (λ a. (found.0, inl found.1))

  pub Stays-reconcile_service : Stays api ad Anything (reconcile_service ad)
  unfolding reconcile_service update_service
  Stays-reconcile_service =
      Does-needed api _ (λ o. Is ad.namespace ad.name o.namespace o.name) Anything services
        (λ api. api.service_to_mutate) _ _ _ _ (λ a. refl) (λ h. faithful.service_to_mutate h _ _)
        λ existing found.
          Does-bind api _ Anything Anything _ _ (Stays-own _)
            λ u v. Does-stored api _ _ _ _ (λ a. (found.0, inl found.1))

  pub Stays-reconcile_service_monitor :
      (has_crd : Bool) → Stays api ad Anything (reconcile_service_monitor has_crd ad)
  unfolding reconcile_service_monitor update_service_monitor
  Stays-reconcile_service_monitor has_crd =
      Does-if api _ Anything (not has_crd) _ _ (Does-pure api _ Anything tt tt) (
        Does-needed api _ (λ o. Is ad.namespace ad.name o.namespace o.name) Anything
          service_monitors (λ api. api.service_monitor_to_mutate) _ _ _ _ (λ a. refl)
          (λ h. faithful.service_monitor_to_mutate h _ _)
          λ existing found.
            Does-bind api _ Anything Anything _ _ (Stays-own _)
              λ u v. Does-stored api _ _ _ _ (λ a. (found.0, inl found.1)))

  Stays-replicas_used_by_other_agents : Stays api ad Anything (replicas_used_by_other_agents ad)
  unfolding replicas_used_by_other_agents
  Stays-replicas_used_by_other_agents =
      Does-list api _ Anything agents (λ api. api.agent_list) _ _ _ (λ b. refl)
        λ items. Does-pure api _ Anything _ tt

  Stays-write_capped_hpa : (headroom : ℤ) → Stays api ad Anything (write_capped_hpa ad headroom)
  unfolding write_capped_hpa mutate_hpa build_hpa
  Stays-write_capped_hpa headroom = Does-bind api _ Anything Anything _ _ (Stays-own _) λ u v.
      Does-needed api _ (λ o. Is ad.namespace ad.name o.namespace o.name) Anything autoscalers
        (λ api. api.hpa_to_mutate) _ _ _ _ (λ a. refl) (λ h. faithful.hpa_to_mutate h _ _)
        λ existing found. Does-bind api _ Anything Anything _ _ (Stays-own _) λ u2 v2.
          Does-bind api _ Anything Anything _ _
            (Does-store api _ autoscalers _ (λ a. (found.0, inl found.1)))
            λ a u3.
              Does-bind api _ Anything Anything _ _ (Does-must api _ _ a)
                λ u4 v4. Does-pure api _ {A = Requeue × QuotaState} Anything _ tt

  Stays-hpa_quota_read : (r : Reply TenantQuota) → Stays api ad Anything (hpa_quota_read ad r)
  unfolding hpa_quota_read
  Stays-hpa_quota_read missing = Does-pure api _ {A = Requeue × QuotaState} Anything _ tt
  Stays-hpa_quota_read broken = Does-fail api _ {A = Requeue × QuotaState} Anything _
  Stays-hpa_quota_read (object tq) =
      Does-bind api _ Anything Anything _ _ Stays-replicas_used_by_other_agents
        λ used u. Stays-write_capped_hpa (quota_headroom tq.spec ad.spec used)

  pub Stays-reconcile_hpa : Stays api ad Anything (reconcile_hpa ad)
  unfolding reconcile_hpa
  Stays-reconcile_hpa =
      Does-if api _ Anything (in_rollout ad.status.phase) _ _
        (Does-pure api _ {A = Requeue × QuotaState} Anything _ tt)
        (Does-bind api _ (OnObject Anything) Anything _ _
          (Does-get api _ Anything tenant_quotas (λ api. api.tenant_quota) _ _ (λ a. refl)
            (λ h. OnObject-any (api.tenant_quota h _ _)))
          (λ r u. Stays-hpa_quota_read r))
