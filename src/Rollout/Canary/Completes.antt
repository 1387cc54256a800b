-- ===== src/Rollout/Canary/Completes.antt =====
-- Rollbacks and promotions against an API server that works.
use agentrax.Prelude.{String, ◌==◌, ◌≡◌, ◌≢◌, refl, is_empty}
use agentrax.Api.{AgentDeployment, ConditionReason}
use agentrax.Rollout.Cluster.{
  agents, deployments, History, Reply, object, missing, broken, Api, ok, pure, ◌>>=◌, update_status,
  need, write_deployment,
}
use agentrax.Rollout.Cluster.Success.{
  IsObject, IsAvailable, Returns-bind, Returns-if, Returns-pure, Returns-get, Returns-need,
  Returns-must, Returns-store, Returns-update_status, Returns-asks,
}
use agentrax.Rollout.Resources.Available.{
  Completes, delete_canary_deployment-Completes, delete_canary_service-Completes,
  delete_http_route-Completes, restore_hpa-Completes,
}
use agentrax.Rollout.Canary.{set_image, restore_read, restore_stable, rolled_back, rollback}

module _ (api : Api) (works : IsAvailable api) (ad : AgentDeployment) where
  restore_read-Completes : (r : Reply _) → r ≢ broken → Completes api works (restore_read ad r)
  unfolding restore_read
  restore_read-Completes missing n = Returns-pure api _ tt tt
  restore_read-Completes broken n = absurd (n refl)
  restore_read-Completes (object dep) n =
      Returns-if api _ (is_empty dep.containers) _ _ (Returns-pure api _ tt tt) (
        Returns-bind api _ _ _ _
          (Returns-store api works deployments
            (write_deployment (set_image ad.status.stable_version dep)))
          (Returns-must api "restoring stable deployment image during rollback"))

  restore_stable-Completes : Completes api works (restore_stable ad)
  unfolding restore_stable
  restore_stable-Completes =
      Returns-if api _ (ad.status.stable_version == "") _ _ (Returns-pure api _ tt tt) (
        Returns-bind api (λ r. r ≢ broken) _ _ _
          (Returns-get api _ deployments (λ api. api.deployment) _ _ (λ h. works.deployment h _ _))
          restore_read-Completes)

  write-Completes :
      (message : String) (status : AgentDeployment)
      → Completes api works
          (update_status status >>= λ written. need message written >>= λ stored. pure tt)
  write-Completes message status =
      Returns-bind api IsObject _ _ _ (Returns-update_status api works status) (λ written o.
        Returns-bind api _ _ _ _ (Returns-need api message written o)
          (λ stored u. Returns-pure api _ tt tt))

  rollback-Completes : (reason : ConditionReason) → Completes api works (rollback ad reason)
  unfolding rollback
  rollback-Completes reason = Returns-bind api _ _ _ _ restore_stable-Completes (λ u1 p1.
      Returns-bind api _ _ _ _ (delete_canary_deployment-Completes api works ad) (λ u2 p2.
        Returns-bind api _ _ _ _ (delete_canary_service-Completes api works ad) (λ u3 p3.
          Returns-bind api _ _ _ _ (delete_http_route-Completes api works ad) (λ u4 p4.
            Returns-bind api _ _ _ _ (restore_hpa-Completes api works ad) (λ u5 p5.
              Returns-bind api IsObject _ _ _
                (Returns-get api _ agents (λ api. api.agent) _ _ (λ h. works.agent h _ _))
                (λ reply o.
                  Returns-bind api _ _ _ _
                    (Returns-need api "re-fetching AD for rollback status update" reply o)
                    (λ latest u6.
                      Returns-bind api (λ s. Unit {0}) _ _ _
                        (Returns-asks api _ (λ api h. rolled_back api reason ad latest) (λ h. tt))
                        (λ status u7.
                          write-Completes "updating status after rollback" status))))))))

  -- A rollback succeeds, whatever has been called before, if the API server gives an object for every
  -- read of an agent, for the HPA that CreateOrUpdate mutates and for every status write, answers the
  -- other reads with an object or that there is none, does every other write, fails no deletion, and
  -- every owner can be set.
  pub rollback_completes :
      (reason : ConditionReason) (h : History) → (rollback ad reason api h).0 ≡ ok tt
  rollback_completes reason h = (rollback-Completes reason h).1
