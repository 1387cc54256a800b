-- ===== src/Controller/Status/Completes.antt =====
-- updateStatus against an API server that works.
use agentrax.Prelude.{refl, ◌≢◌, Bool, true, false, Option}
use agentrax.Api.{Duration, AgentDeployment}
use agentrax.Api.Objects.{Deployment}
use agentrax.Rollout.Cluster.{Api, Reply, object, missing, broken}
use agentrax.Rollout.Cluster.Success.{
  IsObject, Returns-bind, Returns-get, Returns-need, Returns-update_status,
}
use agentrax.Controller.Objects.{agent_labels}
use agentrax.Controller.Children.{QuotaState}
use agentrax.Controller.Registration.{AgentRegistrar}
use agentrax.Controller.Registration.Completes.{Ends-reconcile_mcp_registration}
use agentrax.Controller.Serving.{IsServing, Ends, Ends-bind, Ends-pure, Ends-asks, Ends-listed}
use agentrax.Controller.Status.{
  detect_image_pull_failure, write_changed, status_agent_read, status_deployment_read,
  update_agent_status,
}

module _ (api : Api) (works : IsServing api) (o : Option AgentRegistrar) (d : Duration)
    (ad : AgentDeployment) (qs : QuotaState) where
  Ends-detect : Ends api (detect_image_pull_failure ad)
  unfolding detect_image_pull_failure
  Ends-detect =
      Ends-listed api _ (λ api h namespace. api.pod_list h namespace (agent_labels ad)) _ _ _
        (λ h. works.pod_list h _ _) (λ items. Ends-pure api _)

  Ends-write_changed : (b : Bool) (next : AgentDeployment) → Ends api (write_changed b next)
  unfolding write_changed
  Ends-write_changed true next = Ends-pure api _
  Ends-write_changed false next =
      Returns-bind api IsObject _ _ _ (Returns-update_status api works.available next)
        (Returns-need api "updating status")

  Ends-status_agent_read :
      (dep : Deployment) (reply : Reply AgentDeployment)
      → reply ≢ broken
      → Ends api (status_agent_read o d ad qs dep reply)
  unfolding status_agent_read
  Ends-status_agent_read dep missing n = Ends-pure api _
  Ends-status_agent_read dep broken n = absurd (n refl)
  Ends-status_agent_read dep (object latest) n = Ends-bind api _ _ (Ends-asks api _) λ limited.
      Ends-bind api _ _ Ends-detect λ failed. Ends-bind api _ _ (Ends-asks api _) λ derived.
        Ends-bind api _ _ (Ends-reconcile_mcp_registration api d derived o) λ registered.
          Ends-bind api _ _ (Ends-asks api _)
            λ same. Ends-bind api _ _ (Ends-write_changed same registered.0) λ next. Ends-pure api _

  Ends-status_deployment_read :
      (reply : Reply Deployment)
      → reply ≢ broken
      → Ends api (status_deployment_read o d ad qs reply)
  unfolding status_deployment_read
  Ends-status_deployment_read missing n = Ends-pure api _
  Ends-status_deployment_read broken n = absurd (n refl)
  Ends-status_deployment_read (object dep) n =
      Returns-bind api (λ r. r ≢ broken) _ _ _
        (Returns-get api _ _ (λ api. api.agent) _ _ (λ h. works.found h _ _))
        (Ends-status_agent_read dep)

  pub Ends-update_agent_status : Ends api (update_agent_status o d ad qs)
  unfolding update_agent_status
  Ends-update_agent_status =
      Returns-bind api (λ r. r ≢ broken) _ _ _
        (Returns-get api _ _ (λ api. api.deployment) _ _ (λ h. works.available.deployment h _ _))
        Ends-status_deployment_read
