-- ===== src/Rollout/Resources.antt =====
-- The parts of internal/rollout/canary.go that create, update and delete the canary's resources and
-- the HPA.
pub mod Cleanup
pub mod Owned
pub mod Settled
pub mod Available
use agentrax.Prelude.{ℤ, pos, String, Bool, true, false, if◌then◌else◌}
use agentrax.Api.{AgentDeployment}
use agentrax.Scaling.{Hpa, build_hpa}
use agentrax.Rollout.Objects.{
  Deployment, Service, HttpRoute, canary_name, desired_canary_deployment, mutate_deployment,
  desired_canary_service, mutate_service, desired_http_route,
}
use agentrax.Rollout.Cluster.{
  Api, Kind, deployments, services, routes, autoscalers, Answer, done, not_found, failed, Reply,
  object, missing, broken, Exec, pure, fail, ◌>>=◌, ◌>>◌, get, delete, store, asks, need, must,
  require, write_deployment, write_service, write_route, write_hpa,
}

set_controller_reference : AgentDeployment → Exec (Unit {0})
set_controller_reference ad = do
  owned ← asks (λ api h. api.set_owner h ad)
  require "setting controller reference" owned

unfoldable pub ensure_canary_deployment : AgentDeployment → Exec (Unit {0})
unfolding set_controller_reference
ensure_canary_deployment ad = do
  let desired = desired_canary_deployment ad (canary_name ad)
  reply ← get deployments (λ api. api.deployment_to_mutate) ad.namespace (canary_name ad)
  existing ← need "reconciling canary deployment" reply
  set_controller_reference ad
  stored ← store deployments (write_deployment (mutate_deployment desired existing))
  must "reconciling canary deployment" stored

unfoldable pub ensure_canary_service : AgentDeployment → Exec (Unit {0})
unfolding set_controller_reference
ensure_canary_service ad = do
  let desired = desired_canary_service ad (canary_name ad)
  reply ← get services (λ api. api.service_to_mutate) ad.namespace (canary_name ad)
  existing ← need "reconciling canary service" reply
  set_controller_reference ad
  stored ← store services (write_service (mutate_service desired existing))
  must "reconciling canary service" stored

-- Get, and then Delete if the object is there; that it is not found is tolerated in both.
tolerate : String → Answer → Exec (Unit {0})
tolerate message done = pure tt
tolerate message not_found = pure tt
tolerate message failed = fail message

delete_read : {A : Type 0} → Kind → String → String → String → String → Reply A → Exec (Unit {0})
unfolding tolerate
delete_read k namespace name getting deleting missing = pure tt
delete_read k namespace name getting deleting broken = fail getting
delete_read k namespace name getting deleting (object a) = do
  deleted ← delete k namespace name
  tolerate deleting deleted

unfoldable pub delete_canary_deployment : AgentDeployment → Exec (Unit {0})
unfolding delete_read
delete_canary_deployment ad = do
  reply ← get deployments (λ api. api.deployment) ad.namespace (canary_name ad)
  delete_read deployments ad.namespace (canary_name ad) "getting canary deployment for deletion"
      "deleting canary deployment" reply

unfoldable pub delete_canary_service : AgentDeployment → Exec (Unit {0})
unfolding delete_read
delete_canary_service ad = do
  reply ← get services (λ api. api.service) ad.namespace (canary_name ad)
  delete_read services ad.namespace (canary_name ad) "getting canary service for deletion"
      "deleting canary service" reply

unfoldable pub delete_http_route : AgentDeployment → Exec (Unit {0})
unfolding delete_read
delete_http_route ad = do
  reply ← get routes (λ api. api.route) ad.namespace ad.name
  delete_read routes ad.namespace ad.name "getting httproute for deletion" "deleting httproute"
      reply

unfoldable pub pause_hpa : AgentDeployment → Exec (Unit {0})
unfolding delete_read
pause_hpa ad = do
  reply ← get autoscalers (λ api. api.hpa) ad.namespace ad.name
  delete_read autoscalers ad.namespace ad.name "getting HPA for pause" "pausing HPA" reply

unfoldable pub mutate_hpa : Hpa → Hpa → Hpa
mutate_hpa desired existing = record desired {
  name = existing.name;
  namespace = existing.namespace;
}

unfoldable pub restore_hpa : AgentDeployment → Exec (Unit {0})
unfolding set_controller_reference
restore_hpa ad = do
  let desired = build_hpa ad (pos 0)
  reply ← get autoscalers (λ api. api.hpa_to_mutate) desired.namespace desired.name
  existing ← need "restoring HPA" reply
  set_controller_reference ad
  stored ← store autoscalers (write_hpa (mutate_hpa desired existing))
  must "restoring HPA" stored

route_read : AgentDeployment → HttpRoute → Reply HttpRoute → Exec (Unit {0})
unfolding set_controller_reference
route_read ad desired broken = fail "getting httproute"
route_read ad desired missing = do
  set_controller_reference ad
  created ← store routes (write_route desired)
  must "creating httproute" created
route_read ad desired (object existing) = do
  set_controller_reference ad
  same ← asks (λ api h. api.same_route existing.spec desired.spec)
  if same then pure tt else do
    updated ← store routes (write_route (record existing { spec = desired.spec }))
    must "updating httproute weights" updated

unfoldable pub ensure_http_route : String → String → AgentDeployment → ℤ → ℤ → Exec (Unit {0})
unfolding route_read
ensure_http_route gateway_name gateway_namespace ad stable_weight canary_weight = do
  let desired = desired_http_route gateway_name gateway_namespace ad stable_weight canary_weight
  reply ← get routes (λ api. api.route) ad.namespace ad.name
  route_read ad desired reply
