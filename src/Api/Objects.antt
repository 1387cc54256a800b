-- ===== src/Api/Objects.antt =====
-- The Kubernetes objects that the operator reads and writes, with the fields that the source sets or
-- reads.
use agentrax.Prelude.{ℤ, pos, String, Option, List}
use agentrax.Dict.{Dict}
use agentrax.Api.{ResourceRequirements, EnvVar}

pub data Protocol : Type 0 where
  tcp : Protocol

pub record Container : Type 0 where
  pub name : String
  pub image : String
  pub port : ℤ
  pub protocol : Protocol
  pub resources : ResourceRequirements
  pub env : List EnvVar
  pub args : List String

pub record DeploymentStatus : Type 0 where
  pub observed_generation : ℤ
  pub ready_replicas : ℤ
  pub updated_replicas : ℤ
  pub available_replicas : ℤ

abbrev pub fresh_status : DeploymentStatus
fresh_status = record {
  observed_generation = pos 0;
  ready_replicas = pos 0;
  updated_replicas = pos 0;
  available_replicas = pos 0;
}

pub record Deployment : Type 0 where
  pub name : String
  pub namespace : String
  -- empty in an object that the API server has not stored
  pub resource_version : String
  pub generation : ℤ
  pub labels : Dict String
  -- a pointer, which the API server defaults
  pub replicas : Option ℤ
  pub selector : Dict String
  pub template_labels : Dict String
  pub containers : List Container
  pub status : DeploymentStatus

pub data ServiceType : Type 0 where
  cluster_ip other_type : ServiceType

pub record ServicePort : Type 0 where
  pub name : String
  pub port : ℤ
  pub target_port : ℤ
  pub protocol : Protocol

pub record Service : Type 0 where
  pub name : String
  pub namespace : String
  pub labels : Dict String
  pub selector : Dict String
  pub ports : List ServicePort
  pub type_of : ServiceType

pub record ServiceMonitor : Type 0 where
  pub name : String
  pub namespace : String
  pub labels : Dict String
  pub selector : Dict String
  pub target_labels : List String
  pub endpoint_port : String
  pub endpoint_path : String

-- A container's state: the reason for which it waits, if it waits.
pub record ContainerStatus : Type 0 where
  pub waiting : Option String

pub record Pod : Type 0 where
  pub name : String
  pub container_statuses : List ContainerStatus
  pub init_container_statuses : List ContainerStatus
