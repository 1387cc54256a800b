-- ===== src/Controller/Objects.antt =====
-- internal/controller/agentdeployment_controller.go: the objects that the reconciler wants to exist,
-- and the callbacks with which it updates those that do.
pub mod Triggers
use agentrax.Prelude.{
  ℤ, pos, eqb_ℤ, String, Bool, true, false, not, ◌&&◌, some, List, [], ◌∷◌, ◌==◌, if◌then◌else◌,
}
use agentrax.Dict.{Dict}
use agentrax.Api.{AgentDeployment, Phase, Strategy}
use agentrax.Api.Objects.{
  Protocol, tcp, Container, fresh_status, Deployment, ServiceType, cluster_ip, ServicePort, Service,
  ServiceMonitor,
}

unfoldable pub agent_labels : AgentDeployment → Dict String
agent_labels ad =
    ("app.kubernetes.io/name", ad.name)
    ∷ ("app.kubernetes.io/managed-by", "agentrax")
    ∷ ("agentrax.io/tenant", ad.spec.tenant_ref)
    ∷ ("agentrax.io/variant", "stable")
    ∷ ("agentrax.io/agent", "true")
    ∷ []

unfoldable pub in_rollout : Phase → Bool
in_rollout Phase.rollout_in_progress = true
in_rollout phase = false

unfoldable pub port_of : AgentDeployment → ℤ
port_of ad = if eqb_ℤ ad.spec.port (pos 0) then pos 8080 else ad.spec.port

-- During a rollout the stable image is frozen; otherwise it is the spec's.
unfoldable pub stable_image : AgentDeployment → String
unfolding in_rollout
stable_image ad =
    if in_rollout ad.status.phase && not (ad.status.stable_version == "")
    then ad.status.stable_version
    else ad.spec.image

agent_container : AgentDeployment → Container
unfolding port_of stable_image
agent_container ad = record {
  name = "agent";
  image = stable_image ad;
  port = port_of ad;
  protocol = tcp;
  resources = ad.spec.resources;
  env = ad.spec.env;
  args = ad.spec.args;
}

unfoldable pub desired_deployment : AgentDeployment → Deployment
unfolding agent_labels agent_container
desired_deployment ad = record {
  name = ad.name;
  namespace = ad.namespace;
  resource_version = "";
  generation = pos 0;
  labels = agent_labels ad;
  replicas = some ad.spec.replicas.min;
  selector = agent_labels ad;
  template_labels = agent_labels ad;
  containers = agent_container ad ∷ [];
  status = fresh_status;
}

-- The first container keeps its name, and the others are let be. The desired one stands first in
-- the list of the desired containers.
unfoldable pub update_containers : List Container → List Container → List Container
update_containers desired [] = desired
update_containers [] (c ∷ existing) = c ∷ existing
update_containers (d ∷ desired) (c ∷ existing) =
    record c {
      image = d.image;
      port = d.port;
      protocol = d.protocol;
      resources = d.resources;
      env = d.env;
      args = d.args;
    }
    ∷ existing

-- The callback of CreateOrUpdate up to the owner reference.
unfoldable pub update_deployment : Deployment → Deployment → Deployment
unfolding update_containers
update_deployment desired existing = record existing {
  labels = desired.labels;
  selector = if existing.resource_version == "" then desired.selector else existing.selector;
  replicas = desired.replicas;
  template_labels = desired.template_labels;
  containers = update_containers desired.containers existing.containers;
}

unfoldable pub desired_service : AgentDeployment → Service
unfolding agent_labels port_of
desired_service ad = record {
  name = ad.name;
  namespace = ad.namespace;
  labels = agent_labels ad;
  selector = agent_labels ad;
  ports =
      record { name = "agent"; port = port_of ad; target_port = port_of ad; protocol = tcp } ∷ [];
  type_of = cluster_ip;
}

-- The type of an existing Service is not set.
unfoldable pub update_service : Service → Service → Service
update_service desired existing = record existing {
  labels = desired.labels;
  selector = desired.selector;
  ports = desired.ports;
}

unfoldable pub desired_service_monitor : AgentDeployment → ServiceMonitor
unfolding agent_labels
desired_service_monitor ad = record {
  name = ad.name;
  namespace = ad.namespace;
  labels = agent_labels ad;
  selector = agent_labels ad;
  target_labels =
      "app.kubernetes.io/name" ∷ "app.kubernetes.io/managed-by" ∷ "agentrax.io/variant" ∷ [];
  endpoint_port = "agent";
  endpoint_path = "/metrics";
}

unfoldable pub update_service_monitor : ServiceMonitor → ServiceMonitor → ServiceMonitor
update_service_monitor desired existing = record desired {
  name = existing.name;
  namespace = existing.namespace;
}

is_canary_strategy : Strategy → Bool
is_canary_strategy Strategy.canary = true
is_canary_strategy strategy = false

unfoldable pub has_failed : Phase → Bool
has_failed Phase.rollout_failed = true
has_failed phase = false

unfoldable pub is_canary_triggered : AgentDeployment → Bool
unfolding is_canary_strategy in_rollout has_failed
is_canary_triggered ad =
    if not (is_canary_strategy ad.spec.rollout.strategy)
    then false
    else if ad.status.stable_version == ""
    then false
    else if ad.spec.image == ad.status.stable_version
    then false
    else if in_rollout ad.status.phase
    then false
    else not (has_failed ad.status.phase && ad.spec.image == ad.status.canary_version)

unfoldable pub is_abort_requested : AgentDeployment → Bool
unfolding in_rollout
is_abort_requested ad = ad.spec.rollout.abort && in_rollout ad.status.phase
