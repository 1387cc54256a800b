-- ===== src/Rollout/Resources/Available.antt =====
-- The deletions and the HPA against an API server that works.
use agentrax.Prelude.{pos, String, ◌≡◌, ◌≢◌, refl, true}
use agentrax.Api.{AgentDeployment}
use agentrax.Scaling.{build_hpa}
use agentrax.Rollout.Cluster.{
  Kind, deployments, services, routes, autoscalers, Answer, done, not_found, failed, Reply, object,
  missing, broken, Api, Exec, write_hpa,
}
use agentrax.Rollout.Cluster.Success.{
  IsObject, IsAvailable, Returns, Returns-bind, Returns-pure, Returns-get, Returns-need,
  Returns-must, Returns-require, Returns-store, Returns-delete, Returns-asks,
}
use agentrax.Rollout.Resources.{
  set_controller_reference, tolerate, delete_read, delete_canary_deployment, delete_canary_service,
  delete_http_route, mutate_hpa, restore_hpa,
}

module _ (api : Api) (works : IsAvailable api) where
  abbrev pub Completes : Exec (Unit {0}) → Type 0
  Completes = Returns api (λ u. Unit {0})

  tolerate-Completes : (message : String) (a : Answer) → a ≢ failed → Completes (tolerate message a)
  unfolding tolerate
  tolerate-Completes message done n = Returns-pure api _ tt tt
  tolerate-Completes message not_found n = Returns-pure api _ tt tt
  tolerate-Completes message failed n = absurd (n refl)

  delete_read-Completes :
      {A : Type 0} (k : Kind) (namespace name getting deleting : String) (r : Reply A)
      → r ≢ broken
      → Completes (delete_read k namespace name getting deleting r)
  unfolding delete_read
  delete_read-Completes k namespace name getting deleting missing n = Returns-pure api _ tt tt
  delete_read-Completes k namespace name getting deleting broken n = absurd (n refl)
  delete_read-Completes k namespace name getting deleting (object a) n =
      Returns-bind api _ _ _ _ (Returns-delete api works k namespace name)
        (tolerate-Completes deleting)

  module _ (ad : AgentDeployment) where
    pub delete_canary_deployment-Completes : Completes (delete_canary_deployment ad)
    unfolding delete_canary_deployment
    delete_canary_deployment-Completes =
        Returns-bind api (λ r. r ≢ broken) _ _ _
          (Returns-get api _ deployments (λ api. api.deployment) _ _ (λ h. works.deployment h _ _))
          (delete_read-Completes deployments _ _ _ _)

    pub delete_canary_service-Completes : Completes (delete_canary_service ad)
    unfolding delete_canary_service
    delete_canary_service-Completes =
        Returns-bind api (λ r. r ≢ broken) _ _ _
          (Returns-get api _ services (λ api. api.service) _ _ (λ h. works.service h _ _))
          (delete_read-Completes services _ _ _ _)

    pub delete_http_route-Completes : Completes (delete_http_route ad)
    unfolding delete_http_route
    delete_http_route-Completes =
        Returns-bind api (λ r. r ≢ broken) _ _ _
          (Returns-get api _ routes (λ api. api.route) _ _ (λ h. works.route h _ _))
          (delete_read-Completes routes _ _ _ _)

    set_controller_reference-Completes : Completes (set_controller_reference ad)
    unfolding set_controller_reference
    set_controller_reference-Completes =
        Returns-bind api (λ b. b ≡ true) _ _ _
          (Returns-asks api _ (λ api h. api.set_owner h ad) (λ h. works.set_owner h ad))
          (Returns-require api "setting controller reference")

    pub restore_hpa-Completes : Completes (restore_hpa ad)
    unfolding restore_hpa
    restore_hpa-Completes =
        Returns-bind api IsObject _ _ _
          (Returns-get api _ autoscalers (λ api. api.hpa_to_mutate) _ _
            (λ h. works.hpa_to_mutate h _ _))
          (λ reply o.
            Returns-bind api _ _ _ _ (Returns-need api "restoring HPA" reply o) (λ existing u.
              Returns-bind api _ _ _ _ set_controller_reference-Completes (λ v w.
                Returns-bind api _ _ _ _
                  (Returns-store api works autoscalers
                    (write_hpa (mutate_hpa (build_hpa ad (pos 0)) existing)))
                  (Returns-must api "restoring HPA"))))
