-- ===== src/Samples/Server.antt =====
-- An API server that answers every call, with one agent and its tenant.
use agentrax.Prelude.{pos, true, false, some, [], ◌∷◌}
use agentrax.Api.{AgentDeployment}
use agentrax.Scaling.{build_hpa}
use agentrax.Controller.Objects.{desired_service, desired_service_monitor}
use agentrax.Rollout.Objects.{desired_canary_deployment}
use agentrax.Rollout.Cluster.{Api, object, missing, done}
use agentrax.Samples.{sample_tenant}

abbrev pub server : AgentDeployment → Api
server ad = record {
  agent = λ h namespace name. object ad;
  deployment = λ h namespace name. object (desired_canary_deployment ad name);
  route = λ h namespace name. missing;
  hpa = λ h namespace name. missing;
  service = λ h namespace name. missing;
  tenant_quota = λ h namespace name. object sample_tenant;
  agent_list = λ h namespace. some (ad ∷ []);
  pod_list = λ h namespace labels. some [];
  update_status = λ h ad. object ad;
  store = λ h k. done;
  delete = λ h k namespace name. done;
  deployment_to_mutate = λ h namespace name. object (desired_canary_deployment ad name);
  service_to_mutate = λ h namespace name. object (desired_service ad);
  hpa_to_mutate = λ h namespace name. object (build_hpa ad (pos 0));
  service_monitor_to_mutate = λ h namespace name. object (desired_service_monitor ad);
  set_owner = λ h ad. true;
  same_route = λ a b. false;
  same_status = λ a b. false;
  same_tenant_status = λ a b. false;
  set_condition = λ c cs. c ∷ cs;
  remove_condition = λ t cs. cs;
  has_finalizer = λ ad. true;
  add_finalizer = λ ad. ad;
  remove_finalizer = λ ad. ad;
}
