-- ===== src/Api.antt =====
-- The custom resources: api/v1alpha1/agentdeployment_types.go and tenantquota_types.go.
-- An int32 or int64 is an integer of the model, a duration or a time a number of nanoseconds.
-- The fields that are carried along and never read (object metadata but name, namespace,
-- generation and deletion time) are left out.
pub mod ErrorRate
pub mod Objects
use agentrax.Prelude.{ℤ, String, Bool, Option, List}
use agentrax.Dict.{Dict}

-- time.Duration and time.Time, in nanoseconds.
abbrev pub Duration : Type 0
Duration = ℤ

abbrev pub Time : Type 0
Time = ℤ

-- resource.Quantity, by the text that it is parsed from or the number of thousandths that it is
-- made of. What number it stands for is the library's business, and a parameter where it is read.
pub data Quantity : Type 0 where
  parsed : String → Quantity
  milli : ℤ → Quantity

pub record ResourceRequirements : Type 0 where
  pub limits : Dict Quantity
  pub requests : Dict Quantity

pub record EnvVar : Type 0 where
  pub name : String
  pub value : String

pub record ScalingPolicy : Type 0 where
  pub min : ℤ
  pub max : ℤ
  pub metric : String
  pub target : ℤ

pub record CanaryStep : Type 0 where
  pub set_weight : Option ℤ
  pub pause : Option Duration

pub record RollbackPolicy : Type 0 where
  pub max_error_rate : String
  pub max_p99_latency_ms : ℤ
  pub min_request_sample : ℤ

-- The values of the enumerated string fields; `unset` is the empty string.
pub data Strategy : Type 0 where
  unset recreate canary : Strategy

pub record RolloutPolicy : Type 0 where
  pub strategy : Strategy
  pub steps : List CanaryStep
  pub rollback : RollbackPolicy
  pub abort : Bool

pub record McpConfig : Type 0 where
  pub expose : Bool
  pub tools : List String

pub record AgentDeploymentSpec : Type 0 where
  pub image : String
  pub port : ℤ
  pub tenant_ref : String
  pub replicas : ScalingPolicy
  pub rollout : RolloutPolicy
  pub mcp : McpConfig
  pub resources : ResourceRequirements
  pub env : List EnvVar
  pub args : List String

pub data Phase : Type 0 where
  unset pending running rollout_in_progress rollout_failed degraded : Phase

pub data ConditionType : Type 0 where
  ready reconciled image_pull_failed quota_limited mcp_handshake_failed : ConditionType
  sample_insufficient rollout_failed_condition over_quota : ConditionType

pub data ConditionReason : Type 0 where
  hpa_max_replicas_capped tenant_quota_not_found image_pull_back_off deployment_ready :
      ConditionReason
  deployment_not_ready reconcile_success insufficient_sample usage_exceeds_quota : ConditionReason
  deregister_failed heartbeat_failed handshake_failed : ConditionReason
  invalid_step prometheus_unavailable threshold_breached manual_abort : ConditionReason

-- metav1.Condition; its message is left out, and its time of transition is the library's.
pub record Condition : Type 0 where
  pub type_of : ConditionType
  pub status : Bool
  pub reason : ConditionReason
  pub observed_generation : ℤ

pub record AgentDeploymentStatus : Type 0 where
  pub phase : Phase
  pub current_replicas : ℤ
  pub stable_version : String
  pub canary_version : String
  pub canary_weight : ℤ
  pub canary_step_index : ℤ
  pub pause_started_at : Option Time
  pub prom_unreachable_since : Option Time
  pub registered : Bool
  pub conditions : List Condition

pub record AgentDeployment : Type 0 where
  pub name : String
  pub namespace : String
  pub generation : ℤ
  pub deletion_timestamp : Option Time
  pub finalizers : List String
  pub spec : AgentDeploymentSpec
  pub status : AgentDeploymentStatus

pub record TenantQuotaSpec : Type 0 where
  pub max_agents : ℤ
  pub max_gpus : ℤ
  pub max_total_replicas : ℤ
  pub max_replicas_per_agent : ℤ

pub record TenantQuotaStatus : Type 0 where
  pub used_agents : ℤ
  pub used_gpus : ℤ
  pub used_total_replicas : ℤ
  pub conditions : List Condition

pub record TenantQuota : Type 0 where
  pub name : String
  pub namespace : String
  pub generation : ℤ
  pub spec : TenantQuotaSpec
  pub status : TenantQuotaStatus
