-- ===== src/Rollout/Objects.antt =====
-- The objects that internal/rollout/canary.go builds: the canary's Deployment and Service, and the
-- HTTPRoute that splits the traffic.
use Prim.Native.String.{◌++◌ as str_append}
use agentrax.Prelude.{ℤ, pos, eqb_ℤ, String, ◌==◌, List, [], ◌∷◌, some, if◌then◌else◌}
use agentrax.Dict.{Dict}
use agentrax.Api.{AgentDeployment}
pub use agentrax.Api.Objects.{
  Protocol, tcp, Container, DeploymentStatus, fresh_status, Deployment, ServiceType, cluster_ip,
  other_type, ServicePort, Service,
}

abbrev pub canary_variant_label : String
canary_variant_label = "agentrax.io/variant"

abbrev pub canary_variant_value : String
canary_variant_value = "canary"

abbrev pub canary_deployment_suffix : String
canary_deployment_suffix = "-canary"

abbrev pub canary_name : AgentDeployment → String
canary_name ad = str_append ad.name canary_deployment_suffix

pub record Backend : Type 0 where
  pub kind : String
  pub group : String
  pub name : String
  pub port : ℤ
  pub weight : ℤ

pub data PathMatch : Type 0 where
  path_prefix : String → PathMatch

pub record RouteSpec : Type 0 where
  pub gateway_name : String
  pub gateway_namespace : String
  pub path : PathMatch
  pub backends : List Backend

pub record HttpRoute : Type 0 where
  pub name : String
  pub namespace : String
  pub labels : Dict String
  pub spec : RouteSpec

abbrev pub port_or_default : ℤ → ℤ
port_or_default port = if eqb_ℤ port (pos 0) then pos 8080 else port

unfoldable pub canary_labels : AgentDeployment → Dict String
canary_labels ad =
    ("app.kubernetes.io/name", ad.name)
    ∷ ("app.kubernetes.io/managed-by", "agentrax")
    ∷ ("agentrax.io/tenant", ad.spec.tenant_ref)
    ∷ (canary_variant_label, canary_variant_value)
    ∷ []

unfoldable pub desired_canary_deployment : AgentDeployment → String → Deployment
desired_canary_deployment ad name = record {
  name = name;
  namespace = ad.namespace;
  resource_version = "";
  generation = pos 0;
  labels = canary_labels ad;
  replicas = some (pos 1);
  selector = canary_labels ad;
  template_labels = canary_labels ad;
  containers =
      record {
        name = "agent";
        image = ad.status.canary_version;
        port = port_or_default ad.spec.port;
        protocol = tcp;
        resources = ad.spec.resources;
        env = ad.spec.env;
        args = ad.spec.args;
      }
      ∷ [];
  status = fresh_status;
}

-- The callback of CreateOrUpdate up to the owner reference: an immutable selector is kept.
unfoldable pub mutate_deployment : Deployment → Deployment → Deployment
mutate_deployment desired existing = record existing {
  labels = desired.labels;
  selector = if existing.resource_version == "" then desired.selector else existing.selector;
  replicas = desired.replicas;
  template_labels = desired.template_labels;
  containers = desired.containers;
}

unfoldable pub desired_canary_service : AgentDeployment → String → Service
desired_canary_service ad name = record {
  name = name;
  namespace = ad.namespace;
  labels = canary_labels ad;
  selector = canary_labels ad;
  ports =
      record {
        name = "agent";
        port = port_or_default ad.spec.port;
        target_port = port_or_default ad.spec.port;
        protocol = tcp;
      }
      ∷ [];
  type_of = cluster_ip;
}

unfoldable pub mutate_service : Service → Service → Service
mutate_service desired existing = record existing {
  labels = desired.labels;
  selector = desired.selector;
  ports = desired.ports;
  type_of = desired.type_of;
}

service_backend : String → ℤ → ℤ → Backend
service_backend name port weight = record {
  kind = "Service";
  group = "";
  name = name;
  port = port;
  weight = weight;
}

-- The gateway's name and namespace are fields of the controller.
unfoldable pub desired_http_route : String → String → AgentDeployment → ℤ → ℤ → HttpRoute
unfolding service_backend
desired_http_route gateway_name gateway_namespace ad stable_weight canary_weight = record {
  name = ad.name;
  namespace = ad.namespace;
  labels = ("app.kubernetes.io/name", ad.name) ∷ ("app.kubernetes.io/managed-by", "agentrax") ∷ [];
  spec = record {
    gateway_name = gateway_name;
    gateway_namespace = gateway_namespace;
    path = path_prefix "/";
    backends =
        service_backend ad.name (port_or_default ad.spec.port) stable_weight
        ∷ service_backend (canary_name ad) (port_or_default ad.spec.port) canary_weight
        ∷ [];
  };
}
