-- ===== src/Rollout/Resources/Settled.antt =====
-- The canary's resources against a server that works: each is brought about, and the stored agent is
-- left alone.
use agentrax.Prelude.{ℤ, String, ◌≡◌, ◌≢◌, refl, true}
use agentrax.Api.{AgentDeployment}
use agentrax.Rollout.Objects.{HttpRoute}
use agentrax.Rollout.Cluster.{
  Api, History, Kind, deployments, services, routes, autoscalers, Answer, done, not_found, failed,
  Reply, object, missing, broken, Exec, ◌>>=◌, get, delete,
}
use agentrax.Rollout.Cluster.Stored.{
  IsStoring, Settles, Settles-bind, Settles-pure, Settles-asks, Settles-if, Settles-get,
  Settles-needed, Settles-require, Settles-stored,
}
use agentrax.Rollout.Resources.{
  set_controller_reference, ensure_canary_deployment, ensure_canary_service, tolerate, delete_read,
  delete_canary_deployment, delete_canary_service, delete_http_route, restore_hpa, route_read,
  ensure_http_route,
}

module _ (api : Api) (first : AgentDeployment) (stores : IsStoring api first)
    (ad : AgentDeployment) where
  abbrev pub Settled : Exec (Unit {0}) → Type 0
  Settled = Settles api first (λ u. Unit {0})

  Settled-own : Settled (set_controller_reference ad)
  unfolding set_controller_reference
  Settled-own =
      Settles-bind api first (λ b. b ≡ true) _ _ _
        (Settles-asks api first _ (λ api h. api.set_owner h ad)
          (λ h. stores.available.set_owner h ad))
        (Settles-require api first _)

  pub Settled-ensure_canary_deployment : Settled (ensure_canary_deployment ad)
  unfolding ensure_canary_deployment
  Settled-ensure_canary_deployment =
      Settles-needed api first _ deployments (λ api. api.deployment_to_mutate) _ _ _ _
        (λ h. stores.deployment_to_mutate h _ _)
        λ existing.
          Settles-bind api first _ _ _ _ Settled-own
            λ u v. Settles-stored api first stores deployments _ _ (λ h. refl)

  pub Settled-ensure_canary_service : Settled (ensure_canary_service ad)
  unfolding ensure_canary_service
  Settled-ensure_canary_service =
      Settles-needed api first _ services (λ api. api.service_to_mutate) _ _ _ _
        (λ h. stores.service_to_mutate h _ _)
        λ existing.
          Settles-bind api first _ _ _ _ Settled-own
            λ u v. Settles-stored api first stores services _ _ (λ h. refl)

  pub Settled-restore_hpa : Settled (restore_hpa ad)
  unfolding restore_hpa
  Settled-restore_hpa =
      Settles-needed api first _ autoscalers (λ api. api.hpa_to_mutate) _ _ _ _
        (λ h. stores.available.hpa_to_mutate h _ _)
        λ existing.
          Settles-bind api first _ _ _ _ Settled-own
            λ u v. Settles-stored api first stores autoscalers _ _ (λ h. refl)

  Settled-tolerate : (message : String) (a : Answer) → a ≢ failed → Settled (tolerate message a)
  unfolding tolerate
  Settled-tolerate message done n = Settles-pure api first _ tt tt
  Settled-tolerate message not_found n = Settles-pure api first _ tt tt
  Settled-tolerate message failed n = absurd (n refl)

  Settled-delete :
      (k : Kind) (namespace name : String)
      → Settles api first (λ a. a ≢ failed) (delete k namespace name)
  unfolding delete
  Settled-delete k namespace name h =
      (api.delete h k namespace name, _, refl, stores.available.delete h k namespace name, refl)

  Settled-delete_read :
      {A : Type 0} (k : Kind) (namespace name getting deleting : String) (r : Reply A)
      → r ≢ broken
      → Settled (delete_read k namespace name getting deleting r)
  unfolding delete_read
  Settled-delete_read k namespace name getting deleting missing n = Settles-pure api first _ tt tt
  Settled-delete_read k namespace name getting deleting broken n = absurd (n refl)
  Settled-delete_read k namespace name getting deleting (object a) n =
      Settles-bind api first _ _ _ _ (Settled-delete k namespace name) (Settled-tolerate deleting)

  Settled-get_delete :
      {A : Type 0} (k : Kind) (from : Api → History → String → String → Reply A)
      (namespace name getting deleting : String)
      → ((h : History) → from api h namespace name ≢ broken)
      → Settled (get k from namespace name >>= delete_read k namespace name getting deleting)
  Settled-get_delete k from namespace name getting deleting n =
      Settles-bind api first (λ r. r ≢ broken) _ _ _
        (Settles-get api first _ k from namespace name n)
        (Settled-delete_read k namespace name getting deleting)

  pub Settled-delete_canary_deployment : Settled (delete_canary_deployment ad)
  unfolding delete_canary_deployment
  Settled-delete_canary_deployment =
      Settled-get_delete deployments (λ api. api.deployment) _ _ _ _
        (λ h. stores.available.deployment h _ _)

  pub Settled-delete_canary_service : Settled (delete_canary_service ad)
  unfolding delete_canary_service
  Settled-delete_canary_service =
      Settled-get_delete services (λ api. api.service) _ _ _ _ (λ h. stores.available.service h _ _)

  pub Settled-delete_http_route : Settled (delete_http_route ad)
  unfolding delete_http_route
  Settled-delete_http_route =
      Settled-get_delete routes (λ api. api.route) _ _ _ _ (λ h. stores.available.route h _ _)

  Settled-route_read :
      (desired : HttpRoute) (r : Reply HttpRoute) → r ≢ broken → Settled (route_read ad desired r)
  unfolding route_read
  Settled-route_read desired broken n = absurd (n refl)
  Settled-route_read desired missing n =
      Settles-bind api first _ _ _ _ Settled-own
        λ u v. Settles-stored api first stores routes _ _ (λ h. refl)
  Settled-route_read desired (object existing) n = Settles-bind api first _ _ _ _ Settled-own λ u v.
      Settles-bind api first (λ b. Unit {0}) _ _ _
        (Settles-asks api first _ (λ api h. api.same_route existing.spec desired.spec) (λ h. tt))
        λ same w.
          Settles-if api first _ same _ _ (Settles-pure api first _ tt tt)
            (Settles-stored api first stores routes _ _ (λ h. refl))

  pub Settled-ensure_http_route :
      (gateway_name gateway_namespace : String) (stable_weight canary_weight : ℤ)
      → Settled (ensure_http_route gateway_name gateway_namespace ad stable_weight canary_weight)
  unfolding ensure_http_route
  Settled-ensure_http_route gateway_name gateway_namespace stable_weight canary_weight =
      Settles-bind api first (λ r. r ≢ broken) _ _ _
        (Settles-get api first _ routes (λ api. api.route) _ _ (λ h. stores.available.route h _ _))
        (Settled-route_read _)
