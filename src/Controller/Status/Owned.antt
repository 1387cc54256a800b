-- ===== src/Controller/Status/Owned.antt =====
-- updateStatus stays with the agent.
use agentrax.Prelude.{
  String, refl, sym, inl, Bool, true, false, not, ◌&&◌, ◌==◌, Option, List, [], ◌∷◌, if◌then◌else◌,
}
use agentrax.Api.{Duration, Phase, ConditionType, ConditionReason, AgentDeployment}
use agentrax.Api.Objects.{Container, Deployment}
use agentrax.Rollout.Cluster.{Api, agents, deployments, pods, Reply, object, missing, broken}
use agentrax.Rollout.Cluster.Traces.{
  Anything, OnObject, OnObject-any, Does-bind, Does-pure, Does-fail, Does-asks, Does-get, Does-need,
  Does-list, Does-update_status,
}
use agentrax.Rollout.Cluster.Owned.{IsAgent, Stays, IsFaithful}
use agentrax.Rollout.Canary.{Requeue}
use agentrax.Controller.Objects.{agent_labels, has_failed}
use agentrax.Controller.Children.{QuotaState, uncapped, capped, unknown, skipped}
use agentrax.Controller.Registration.{
  AgentRegistrar, set_condition, remove_condition, reconcile_mcp_registration,
}
use agentrax.Controller.Registration.Owned.{Stays-reconcile_mcp_registration}
use agentrax.Controller.Status.{
  quota_condition, detect_image_pull_failure, rollout_complete, with_phase, settled_phase,
  stable_from, ready_as, derive_status, with_current_replicas, write_changed, status_agent_read,
  status_deployment_read, update_agent_status,
}

module _ (ns n : String) where
  quota_condition-IsAgent :
      (api : Api) (qs : QuotaState) (ad : AgentDeployment)
      → IsAgent ns n ad
      → IsAgent ns n (quota_condition api qs ad)
  unfolding quota_condition set_condition remove_condition
  quota_condition-IsAgent api capped ad is = is
  quota_condition-IsAgent api unknown ad is = is
  quota_condition-IsAgent api uncapped ad is = is
  quota_condition-IsAgent api skipped ad is = is

  stable_from-IsAgent :
      (containers : List Container) (ad : AgentDeployment)
      → IsAgent ns n ad
      → IsAgent ns n (stable_from containers ad)
  unfolding stable_from
  stable_from-IsAgent [] ad is = is
  stable_from-IsAgent (c ∷ containers) ad is = is

  settled_phase-IsAgent :
      (api : Api) (ad : AgentDeployment) → IsAgent ns n ad → IsAgent ns n (settled_phase api ad)
  unfolding settled_phase remove_condition
  settled_phase-IsAgent api ad is =
      by_test (has_failed ad.status.phase && not (ad.spec.image == ad.status.stable_version))
    where
      by_test :
          (b : Bool)
          → IsAgent ns n (
              if b
              then ad
              else remove_condition api ConditionType.rollout_failed_condition (record ad {
                status = record ad.status { phase = Phase.running; canary_version = "" };
              }))
      by_test true = is
      by_test false = is

  derive_status-IsAgent :
      (api : Api) (dep : Deployment) (stuck : Bool) (ad : AgentDeployment)
      → IsAgent ns n ad
      → IsAgent ns n (derive_status api dep stuck ad)
  unfolding derive_status with_phase set_condition remove_condition ready_as
  derive_status-IsAgent api dep true ad is = is
  derive_status-IsAgent api dep false ad is = by_test (rollout_complete dep)
    where
      by_test :
          (b : Bool)
          → IsAgent ns n (
              let pulled = remove_condition api ConditionType.image_pull_failed ad in
              if b
              then ready_as api true ConditionReason.deployment_ready
                  (stable_from dep.containers (settled_phase api pulled))
              else ready_as api false ConditionReason.deployment_not_ready
                  (with_phase Phase.pending pulled))
      by_test true =
          stable_from-IsAgent dep.containers _
            (settled_phase-IsAgent api (remove_condition api ConditionType.image_pull_failed ad) is)
      by_test false = is

module _ (api : Api) (faithful : IsFaithful api) (ad : AgentDeployment) where
  Stays-detect_image_pull_failure : Stays api ad Anything (detect_image_pull_failure ad)
  unfolding detect_image_pull_failure
  Stays-detect_image_pull_failure =
      Does-list api _ Anything pods (λ api h namespace. api.pod_list h namespace (agent_labels ad))
        _ _ _ (λ b. refl) λ items. Does-pure api _ Anything _ tt

  Stays-write_changed :
      (b : Bool) (next : AgentDeployment)
      → IsAgent ad.namespace ad.name next
      → Stays api ad Anything (write_changed b next)
  unfolding write_changed
  Stays-write_changed true next is = Does-pure api _ Anything next tt
  Stays-write_changed false next is =
      Does-bind api _ (OnObject Anything) Anything _ _
        (Does-update_status api _ Anything _ (λ a. (is.0, inl is.1))
          (λ h. OnObject-any (api.update_status h next)))
        (λ r o. Does-need api _ Anything _ r o)

  module _ (registrar : Option AgentRegistrar) (interval : Duration) (qs : QuotaState) where
    Stays-status_agent_read :
        (dep : Deployment) (r : Reply AgentDeployment)
        → OnObject (IsAgent ad.namespace ad.name) r
        → Stays api ad Anything (status_agent_read registrar interval ad qs dep r)
    unfolding status_agent_read with_current_replicas
    Stays-status_agent_read dep missing o = Does-pure api _ {A = Requeue} Anything _ tt
    Stays-status_agent_read dep broken o = Does-fail api _ {A = Requeue} Anything _
    Stays-status_agent_read dep (object latest) o =
        let Again : AgentDeployment → Type 0 = IsAgent ad.namespace ad.name in
        Does-bind api _ Again Anything _ _
          (Does-asks api _ Again _ (λ h. quota_condition-IsAgent _ _ api qs latest o))
          λ limited is1.
            Does-bind api _ Anything Anything _ _ Stays-detect_image_pull_failure λ stuck u1.
              Does-bind api _ Again Anything _ _
                (Does-asks api _ Again _ (λ h. derive_status-IsAgent _ _ api dep stuck _ is1))
                λ derived is2.
                  Does-bind api _ (λ out. Again out.0) Anything _ _ (registered derived is2)
                    λ out is3.
                      Does-bind api _ Anything Anything _ _ (Does-asks api _ Anything _ (λ h. tt))
                        λ same u2.
                          Does-bind api _ Anything Anything _ _ (Stays-write_changed same out.0 is3)
                            λ next u3. Does-pure api _ {A = Requeue} Anything _ tt
      where
        registered :
            (derived : AgentDeployment)
            → (is : IsAgent ad.namespace ad.name derived)
            → Stays api ad
                (λ out. IsAgent ad.namespace ad.name out.0)
                (reconcile_mcp_registration registrar interval derived)
        registered derived is =
            rw (sym is.0, sym is.1)
              (Stays-reconcile_mcp_registration api derived registrar interval)

    Stays-status_deployment_read :
        (r : Reply Deployment)
        → Stays api ad Anything (status_deployment_read registrar interval ad qs r)
    unfolding status_deployment_read
    Stays-status_deployment_read missing = Does-pure api _ {A = Requeue} Anything _ tt
    Stays-status_deployment_read broken = Does-fail api _ {A = Requeue} Anything _
    Stays-status_deployment_read (object dep) =
        Does-bind api _ (OnObject (IsAgent ad.namespace ad.name)) Anything _ _
          (Does-get api _ (IsAgent ad.namespace ad.name) agents (λ api. api.agent) _ _ (λ a. refl)
            (λ h. faithful.agent h _ _))
          (λ r o. Stays-status_agent_read dep r o)

    pub Stays-update_agent_status :
        Stays api ad Anything (update_agent_status registrar interval ad qs)
    unfolding update_agent_status
    Stays-update_agent_status =
        Does-bind api _ (OnObject Anything) Anything _ _
          (Does-get api _ Anything deployments (λ api. api.deployment) _ _ (λ a. refl)
            (λ h. OnObject-any (api.deployment h _ _)))
          (λ r u. Stays-status_deployment_read r)
