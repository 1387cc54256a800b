-- ===== src/Rollout/Canary/Namesake.antt =====
-- What a rollback does to an agent whose name is that of another one's canary.
use agentrax.Prelude.{◌≡◌, ◌≢◌, sym, ap, ◌∷◌}
use agentrax.Api.{AgentDeployment, ConditionReason}
use agentrax.Rollout.Objects.{canary_name}
use agentrax.Rollout.Cluster.{
  deployments, agents, Answer, done, failed, History, read, delete_call, Api, ok,
}
use agentrax.Rollout.Cluster.Success.{IsObject, IsAvailable}
use agentrax.Rollout.Cluster.Runs.{
  Recorded, Recorded-bind, Keeps-bind, Keeps-need, Keeps-get, Keeps-pure, Keeps-asks,
  Keeps-update_status, bind-ok,
}
use agentrax.Rollout.Resources.{delete_canary_deployment}
use agentrax.Rollout.Resources.Cleanup.{
  delete_canary_deployment-Recorded, Keeps-delete_canary_service, Keeps-delete_http_route,
  Keeps-restore_hpa,
}
use agentrax.Rollout.Canary.{restore_stable, rollback}
use agentrax.Rollout.Canary.Completes.{rollback_completes}

module _ (api : Api) (works : IsAvailable api) (ad : AgentDeployment)
    (reason : ConditionReason) where
  deleted :
      (h : History)
      → ((h : History) → IsObject (api.deployment h ad.namespace (canary_name ad)))
      → (a : Answer) × (a ≢ failed)
        × Recorded
            (delete_call deployments ad.namespace (canary_name ad) a)
            (rollback ad reason api h).1
  unfolding rollback
  deleted h there =
      let h' = (rollback ad reason api h).1 in
      let run : rollback ad reason api h ≡ (ok tt, h') =
        λ i. (rollback_completes api works ad reason h i, h') in
      let (u, h0, r0, e0) = bind-ok (restore_stable ad) _ tt api h h' run in
      let (dep, found) = there h0 in
      let read_it = read deployments ad.namespace (canary_name ad) done ∷ h0 in
      (
        api.delete read_it deployments ad.namespace (canary_name ad),
        works.delete _ deployments _ _,
        rw (sym (ap (λ p. p.1) e0)) (
            Recorded-bind (delete_canary_deployment ad) _ _ api h0
              (λ u1. Keeps-bind _ _ (Keeps-delete_canary_service ad) λ u2.
                Keeps-bind _ _ (Keeps-delete_http_route ad) λ u3.
                  Keeps-bind _ _ (Keeps-restore_hpa ad) λ u4.
                    Keeps-bind _ _ (Keeps-get agents _ _ _) λ reply.
                      Keeps-bind _ _ (Keeps-need _ reply) λ latest.
                        Keeps-bind _ _ (Keeps-asks _) λ status.
                          Keeps-bind _ _ (Keeps-update_status status) λ written.
                            Keeps-bind _ _ (Keeps-need _ written) (λ stored. Keeps-pure tt))
              (delete_canary_deployment-Recorded ad dep api h0 found)),
      )

-- Of two agents of one namespace, one of which has the other's name followed by -canary, and against
-- an API server that answers every call and has the Deployment of the former: a rollback of the
-- latter deletes that Deployment, whatever has been called before.
pub rollback_deletes_namesake :
    (api : Api) (ad other : AgentDeployment) (reason : ConditionReason) (h : History)
    → IsAvailable api
    → other.namespace ≡ ad.namespace
    → other.name ≡ canary_name ad
    → ((h : History) → IsObject (api.deployment h other.namespace other.name))
    → (a : Answer) × (a ≢ failed)
      × Recorded (delete_call deployments other.namespace other.name a) (rollback ad reason api h).1
rollback_deletes_namesake api ad other reason h works same_namespace same_name there =
    rw (same_namespace, same_name)
      (deleted api works ad reason h (λ h. rw (sym same_namespace, sym same_name) (there h)))
