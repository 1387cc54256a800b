-- ===== src/Rollout/Resources/Owned.antt =====
-- The canary's resources belong to the agent.
use agentrax.Prelude.{ℤ, String, refl, inl, inr}
use agentrax.Api.{AgentDeployment}
use agentrax.Scaling.{build_hpa}
use agentrax.Rollout.Objects.{
  HttpRoute, canary_name, mutate_deployment, mutate_service, desired_http_route,
}
use agentrax.Rollout.Cluster.{
  Api, History, ◌>>=◌, get, Kind, deployments, services, routes, autoscalers, Answer, done,
  not_found, failed, Reply, object, missing, broken,
}
use agentrax.Rollout.Cluster.Traces.{
  Anything, OnObject, OnObject-any, Does-bind, Does-pure, Does-fail, Does-if, Does-asks, Does-get,
  Does-needed, Does-require, Does-delete, Does-stored,
}
use agentrax.Rollout.Cluster.Owned.{Is, Owned, Stays, IsFaithful}
use agentrax.Rollout.Resources.{
  set_controller_reference, ensure_canary_deployment, ensure_canary_service, tolerate, delete_read,
  delete_canary_deployment, delete_canary_service, delete_http_route, pause_hpa, mutate_hpa,
  restore_hpa, route_read, ensure_http_route,
}

module _ (api : Api) (faithful : IsFaithful api) (ad : AgentDeployment) where
  Stays-own : Stays api ad Anything (set_controller_reference ad)
  unfolding set_controller_reference
  Stays-own =
      Does-bind api _ Anything Anything _ _ (Does-asks api _ Anything _ (λ h. tt))
        (λ b u. Does-require api _ _ b)

  pub Stays-ensure_canary_deployment : Stays api ad Anything (ensure_canary_deployment ad)
  unfolding ensure_canary_deployment mutate_deployment
  Stays-ensure_canary_deployment =
      Does-needed api _ (λ o. Is ad.namespace (canary_name ad) o.namespace o.name) Anything
        deployments (λ api. api.deployment_to_mutate) _ _ _ _ (λ a. refl)
        (λ h. faithful.deployment_to_mutate h _ _)
        λ existing found.
          Does-bind api _ Anything Anything _ _ Stays-own
            λ u v. Does-stored api _ _ _ _ (λ a. (found.0, inr found.1))

  pub Stays-ensure_canary_service : Stays api ad Anything (ensure_canary_service ad)
  unfolding ensure_canary_service mutate_service
  Stays-ensure_canary_service =
      Does-needed api _ (λ o. Is ad.namespace (canary_name ad) o.namespace o.name) Anything services
        (λ api. api.service_to_mutate) _ _ _ _ (λ a. refl) (λ h. faithful.service_to_mutate h _ _)
        λ existing found.
          Does-bind api _ Anything Anything _ _ Stays-own
            λ u v. Does-stored api _ _ _ _ (λ a. (found.0, inr found.1))

  Stays-tolerate : (message : String) (a : Answer) → Stays api ad Anything (tolerate message a)
  unfolding tolerate
  Stays-tolerate message done = Does-pure api _ Anything tt tt
  Stays-tolerate message not_found = Does-pure api _ Anything tt tt
  Stays-tolerate message failed = Does-fail api _ {A = Unit {0}} Anything message

  Stays-delete_read :
      {A : Type 0} (k : Kind) (namespace name getting deleting : String) (r : Reply A)
      → Owned ad.namespace ad.name namespace name
      → Stays api ad Anything (delete_read k namespace name getting deleting r)
  unfolding delete_read
  Stays-delete_read k namespace name getting deleting missing o = Does-pure api _ Anything tt tt
  Stays-delete_read k namespace name getting deleting broken o =
      Does-fail api _ {A = Unit {0}} Anything getting
  Stays-delete_read k namespace name getting deleting (object a) o =
      Does-bind api _ Anything Anything _ _ (Does-delete api _ k namespace name (λ a. o))
        (λ a u. Stays-tolerate deleting a)

  -- Get, and then Delete.
  Stays-get_delete :
      {A : Type 0} (k : Kind) (from : Api → History → String → String → Reply A)
      (namespace name getting deleting : String)
      → Owned ad.namespace ad.name namespace name
      → Stays api ad Anything
          (get k from namespace name >>= delete_read k namespace name getting deleting)
  Stays-get_delete k from namespace name getting deleting o =
      Does-bind api _ (OnObject Anything) Anything _ _
        (Does-get api _ Anything k from namespace name (λ a. o.0)
          (λ h. OnObject-any (from api h namespace name)))
        (λ r u. Stays-delete_read k namespace name getting deleting r o)

  pub Stays-delete_canary_deployment : Stays api ad Anything (delete_canary_deployment ad)
  unfolding delete_canary_deployment
  Stays-delete_canary_deployment =
      Stays-get_delete deployments (λ api. api.deployment) _ _ _ _ (refl, inr refl)

  pub Stays-delete_canary_service : Stays api ad Anything (delete_canary_service ad)
  unfolding delete_canary_service
  Stays-delete_canary_service =
      Stays-get_delete services (λ api. api.service) _ _ _ _ (refl, inr refl)

  pub Stays-delete_http_route : Stays api ad Anything (delete_http_route ad)
  unfolding delete_http_route
  Stays-delete_http_route = Stays-get_delete routes (λ api. api.route) _ _ _ _ (refl, inl refl)

  pub Stays-pause_hpa : Stays api ad Anything (pause_hpa ad)
  unfolding pause_hpa
  Stays-pause_hpa = Stays-get_delete autoscalers (λ api. api.hpa) _ _ _ _ (refl, inl refl)

  pub Stays-restore_hpa : Stays api ad Anything (restore_hpa ad)
  unfolding restore_hpa mutate_hpa build_hpa
  Stays-restore_hpa =
      Does-needed api _ (λ o. Is ad.namespace ad.name o.namespace o.name) Anything autoscalers
        (λ api. api.hpa_to_mutate) _ _ _ _ (λ a. refl) (λ h. faithful.hpa_to_mutate h _ _)
        λ existing found.
          Does-bind api _ Anything Anything _ _ Stays-own
            λ u v. Does-stored api _ _ _ _ (λ a. (found.0, inl found.1))

  Stays-route_read :
      (desired : HttpRoute) (r : Reply HttpRoute)
      → Is ad.namespace ad.name desired.namespace desired.name
      → OnObject (λ o. Is ad.namespace ad.name o.namespace o.name) r
      → Stays api ad Anything (route_read ad desired r)
  unfolding route_read
  Stays-route_read desired broken d o = Does-fail api _ {A = Unit {0}} Anything _
  Stays-route_read desired missing d o =
      Does-bind api _ Anything Anything _ _ Stays-own
        λ u v. Does-stored api _ _ _ _ (λ a. (d.0, inl d.1))
  Stays-route_read desired (object existing) d o =
      Does-bind api _ Anything Anything _ _ Stays-own λ u v.
        Does-bind api _ Anything Anything _ _ (Does-asks api _ Anything _ (λ h. tt)) λ same w.
          Does-if api _ Anything same _ _ (Does-pure api _ Anything tt tt)
            (Does-stored api _ _ _ _ (λ a. (o.0, inl o.1)))

  pub Stays-ensure_http_route :
      (gateway_name gateway_namespace : String) (stable_weight canary_weight : ℤ)
      → Stays api ad Anything
          (ensure_http_route gateway_name gateway_namespace ad stable_weight canary_weight)
  unfolding ensure_http_route desired_http_route
  Stays-ensure_http_route gateway_name gateway_namespace stable_weight canary_weight =
      Does-bind api _ (OnObject (λ o. Is ad.namespace ad.name o.namespace o.name)) Anything _ _
        (Does-get api _ (λ o. Is ad.namespace ad.name o.namespace o.name) routes (λ api. api.route)
          _ _ (λ a. refl) (λ h. faithful.route h _ _))
        (λ r o. Stays-route_read _ r (refl, refl) o)
