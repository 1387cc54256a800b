-- ===== src/Rollout/Canary/Owned.antt =====
-- Rollback, executeSetWeight and promote stay with the agent.
use agentrax.Prelude.{
  ℤ, pos, sub32, refl, inl, Bool, true, false, is_empty, not, ◌==◌, Option, none, some, [], ◌∷◌,
}
use agentrax.Api.{AgentDeployment, ConditionReason}
use agentrax.Rollout.Objects.{Deployment}
use agentrax.Rollout.Cluster.{
  Api, History, register_call, deployments, agents, Reply, object, missing, broken,
}
use agentrax.Rollout.Cluster.Traces.{
  Anything, OnObject, Does-bind, Does-pure, Does-fail, Does-if, Does-asks, Does-get, Does-needed,
  Does-stored, Does-written, Does-update_status,
}
use agentrax.Rollout.Cluster.Owned.{
  Is, IsAgent, Stays, Stays-IsAgent, update_status-IsAgent, IsFaithful,
}
use agentrax.Rollout.Resources.Owned.{
  Stays-ensure_canary_deployment, Stays-ensure_canary_service, Stays-delete_canary_deployment,
  Stays-delete_canary_service, Stays-delete_http_route, Stays-restore_hpa, Stays-ensure_http_route,
}
use agentrax.Rollout.Canary.{
  Controller, set_image, restore_read, restore_stable, rolled_back, rollback, promoted_status,
  call_register, set_registered, re_register, promote_image, promote, weighted, execute_set_weight,
}

module _ (api : Api) (faithful : IsFaithful api) (ad : AgentDeployment) where
  -- The agent itself, read again or written.
  abbrev Again : AgentDeployment → Type 0
  Again = IsAgent ad.namespace ad.name

  Stays-restore_stable : Stays api ad Anything (restore_stable ad)
  unfolding restore_stable restore_read set_image
  Stays-restore_stable =
      Does-if api _ Anything (ad.status.stable_version == "") _ _ (Does-pure api _ Anything tt tt) (
        Does-bind api _ (OnObject (λ o. Is ad.namespace ad.name o.namespace o.name)) Anything _ _
          (Does-get api _ (λ o. Is ad.namespace ad.name o.namespace o.name) deployments
            (λ api. api.deployment) _ _ (λ a. refl) (λ h. faithful.deployment h _ _))
          restored)
    where
      restored :
          (r : Reply Deployment)
          → OnObject (λ o. Is ad.namespace ad.name o.namespace o.name) r
          → Stays api ad Anything (restore_read ad r)
      restored missing o = Does-pure api _ Anything tt tt
      restored broken o = Does-fail api _ {A = Unit {0}} Anything _
      restored (object dep) o =
          Does-if api _ Anything (is_empty dep.containers) _ _ (Does-pure api _ Anything tt tt)
            (Does-stored api _ _ _ _ (λ a. (o.0, inl o.1)))

  pub Stays-rollback : (reason : ConditionReason) → Stays api ad Anything (rollback ad reason)
  unfolding rollback rolled_back
  Stays-rollback reason = Does-bind api _ Anything Anything _ _ Stays-restore_stable λ u1 v1.
      Does-bind api _ Anything Anything _ _ (Stays-delete_canary_deployment api faithful ad)
        λ u2 v2.
          Does-bind api _ Anything Anything _ _ (Stays-delete_canary_service api faithful ad)
            λ u3 v3.
              Does-bind api _ Anything Anything _ _ (Stays-delete_http_route api faithful ad)
                λ u4 v4.
                  Does-bind api _ Anything Anything _ _ (Stays-restore_hpa api faithful ad) λ u5 v5.
                    Does-needed api _ Again Anything agents (λ api. api.agent) _ _ _ _ (λ a. refl)
                      (λ h. faithful.agent h _ _)
                      λ latest again.
                        Does-bind api _ Again Anything _ _ (Does-asks api _ Again _ (λ h. again))
                          λ status same.
                            Does-written api _ Again Anything status _ _ (λ a. (same.0, inl same.1))
                              (λ h. update_status-IsAgent api faithful _ _ status h same)
                              λ stored w. Does-pure api _ Anything tt tt

  Stays-set_registered : (b : Bool) → Stays api ad Anything (set_registered ad b)
  unfolding set_registered
  Stays-set_registered false = Does-pure api _ Anything tt tt
  Stays-set_registered true =
      Does-if api _ Anything ad.status.registered _ _ (Does-pure api _ Anything tt tt) (
        Does-bind api _ (OnObject Again) Anything _ _
          (Does-update_status api _ Again _ (λ a. (refl, inl refl))
            (λ h. update_status-IsAgent api faithful _ _ _ h (refl, refl)))
          (λ r o. Does-pure api _ Anything tt tt))

  Stays-re_register :
      (register : Option (History → AgentDeployment → Bool))
      → Stays api ad Anything (re_register register ad)
  unfolding re_register call_register
  Stays-re_register none = Does-pure api _ Anything tt tt
  Stays-re_register (some register) =
      Does-if api _ Anything (not ad.spec.mcp.expose) _ _ (Does-pure api _ Anything tt tt) (
        Does-bind api _ Anything Anything (call_register register ad) _
          (λ h. ((register_call ad (register h ad) ∷ [], refl, ((refl, inl refl), tt)), tt))
          (λ b u. Stays-set_registered b))

  module _ (c : Controller) where
    Stays-promote_image : Stays api ad Anything (promote_image c ad)
    unfolding promote_image set_image
    Stays-promote_image =
        Does-needed api _ (λ o. Is ad.namespace ad.name o.namespace o.name) Anything deployments
          (λ api. api.deployment) _ _ _ _ (λ a. refl) (λ h. faithful.deployment h _ _)
          λ dep found. Does-stored api _ _ _ _ (λ a. (found.0, inl found.1))

    pub Stays-execute_set_weight :
        (idx weight : ℤ) → Stays api ad Anything (execute_set_weight c ad idx weight)
    unfolding execute_set_weight weighted
    Stays-execute_set_weight idx weight =
        Does-bind api _ Anything Anything _ _ (Stays-ensure_canary_deployment api faithful ad)
          λ u1 v1.
            Does-bind api _ Anything Anything _ _ (Stays-ensure_canary_service api faithful ad)
              λ u2 v2.
                Does-bind api _ Anything Anything _ _
                  (Stays-ensure_http_route api faithful ad _ _ (sub32 (pos 100) weight) weight)
                  λ u3 v3.
                    Does-needed api _ Again Anything agents (λ api. api.agent) _ _ _ _ (λ a. refl)
                      (λ h. faithful.agent h _ _)
                      λ latest again.
                        Does-written api _ Again Anything _ _ _ (λ a. (again.0, inl again.1))
                          (λ h. update_status-IsAgent api faithful _ _ _ h again)
                          λ stored w. Does-pure api _ Anything _ tt

module _ (api : Api) (faithful : IsFaithful api) (c : Controller) (ad : AgentDeployment) where
  pub Stays-promote : Stays api ad Anything (promote c ad)
  unfolding promote promoted_status
  Stays-promote =
      let Again : AgentDeployment → Type 0 = IsAgent ad.namespace ad.name in
      Does-if api _ Anything (ad.status.canary_version == "") _ _
        (Does-fail api _ {A = Unit {0}} Anything _)
        (Does-bind api _ Anything Anything _ _ (Stays-promote_image api faithful ad c) λ u1 v1.
          Does-bind api _ Anything Anything _ _ (Stays-delete_canary_deployment api faithful ad)
            λ u2 v2.
              Does-bind api _ Anything Anything _ _ (Stays-delete_canary_service api faithful ad)
                λ u3 v3.
                  Does-bind api _ Anything Anything _ _ (Stays-delete_http_route api faithful ad)
                    λ u4 v4.
                      Does-bind api _ Anything Anything _ _ (Stays-restore_hpa api faithful ad)
                        λ u5 v5.
                          Does-needed api _ Again Anything agents (λ api. api.agent) _ _ _ _
                            (λ a. refl) (λ h. faithful.agent h _ _)
                            λ latest again.
                              Does-bind api _ Again Anything _ _
                                (Does-asks api _ Again _ (λ h. again))
                                λ status same.
                                  Does-written api _ Again Anything status _ _
                                    (λ a. (same.0, inl same.1))
                                    (λ h. update_status-IsAgent api faithful _ _ status h same)
                                    λ stored is.
                                      Stays-IsAgent api _ _ stored Anything
                                        (re_register c.register stored) is
                                        (Stays-re_register api faithful stored c.register))
