-- ===== src/Controller/Status/Keeps.antt =====
-- What updateStatus has recorded stays recorded.
use agentrax.Prelude.{Bool, true, false, Option}
use agentrax.Api.{Duration, AgentDeployment}
use agentrax.Api.Objects.{Deployment}
use agentrax.Rollout.Cluster.{Reply, object, missing, broken}
use agentrax.Rollout.Cluster.Runs.{
  Keeps, Keeps-bind, Keeps-need, Keeps-get, Keeps-update_status, Keeps-asks, Keeps-pure, Keeps-fail,
  Keeps-list_items, Keeps-need_list,
}
use agentrax.Controller.Children.{QuotaState}
use agentrax.Controller.Registration.{AgentRegistrar}
use agentrax.Controller.Registration.Keeps.{Keeps-reconcile_mcp_registration}
use agentrax.Controller.Status.{
  detect_image_pull_failure, write_changed, status_agent_read, status_deployment_read,
  update_agent_status,
}

Keeps-detect : (ad : AgentDeployment) → Keeps (detect_image_pull_failure ad)
unfolding detect_image_pull_failure
Keeps-detect ad =
    Keeps-bind _ _ (Keeps-list_items _ _ _)
      λ items. Keeps-bind _ _ (Keeps-need_list _ items) λ listed. Keeps-pure _

Keeps-write_changed : (b : Bool) (next : AgentDeployment) → Keeps (write_changed b next)
unfolding write_changed
Keeps-write_changed true next = Keeps-pure _
Keeps-write_changed false next = Keeps-bind _ _ (Keeps-update_status next) (λ w. Keeps-need _ w)

module _ (o : Option AgentRegistrar) (d : Duration) (ad : AgentDeployment) (qs : QuotaState) where
  Keeps-status_agent_read :
      (dep : Deployment) (reply : Reply AgentDeployment)
      → Keeps (status_agent_read o d ad qs dep reply)
  unfolding status_agent_read
  Keeps-status_agent_read dep missing = Keeps-pure _
  Keeps-status_agent_read dep broken = Keeps-fail _ _
  Keeps-status_agent_read dep (object latest) = Keeps-bind _ _ (Keeps-asks _) λ limited.
      Keeps-bind _ _ (Keeps-detect ad) λ failed. Keeps-bind _ _ (Keeps-asks _) λ derived.
        Keeps-bind _ _ (Keeps-reconcile_mcp_registration o d derived) λ registered.
          Keeps-bind _ _ (Keeps-asks _)
            λ same. Keeps-bind _ _ (Keeps-write_changed same registered.0) λ next. Keeps-pure _

  Keeps-status_deployment_read :
      (reply : Reply Deployment) → Keeps (status_deployment_read o d ad qs reply)
  unfolding status_deployment_read
  Keeps-status_deployment_read missing = Keeps-pure _
  Keeps-status_deployment_read broken = Keeps-fail _ _
  Keeps-status_deployment_read (object dep) =
      Keeps-bind _ _ (Keeps-get _ _ _ _) (Keeps-status_agent_read dep)

  pub Keeps-update_agent_status : Keeps (update_agent_status o d ad qs)
  unfolding update_agent_status
  Keeps-update_agent_status = Keeps-bind _ _ (Keeps-get _ _ _ _) Keeps-status_deployment_read
