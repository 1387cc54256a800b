-- ===== src/Scaling.antt =====
-- internal/scaling/autoscaler.go: the HorizontalPodAutoscaler of an agent, and the replicas that
-- the quota leaves for it.
pub mod Bounds
use agentrax.Prelude.{
  ℤ, pos, ◌*ℤ◌, ltb_ℤ, sub32, wrap64, String, Bool, List, [], ◌∷◌, ◌==◌, if◌then◌else◌,
}
use agentrax.Dict.{Dict}
use agentrax.Api.{Quantity, milli, AgentDeployment, AgentDeploymentSpec, TenantQuotaSpec}

abbrev pub metric_gpu_utilization : String
metric_gpu_utilization = "gpuUtilization"

abbrev pub custom_metric_queue_depth : String
custom_metric_queue_depth = "agentrax_queue_depth"

abbrev pub custom_metric_gpu_utilization : String
custom_metric_gpu_utilization = "agentrax_gpu_utilization"

abbrev pub scale_up_stabilization_sec : ℤ
scale_up_stabilization_sec = pos 60

abbrev pub scale_down_stabilization_sec : ℤ
scale_down_stabilization_sec = pos 300

pub data SelectPolicy : Type 0 where
  max_change min_change : SelectPolicy

-- One policy of the kind Pods: `value` pods in each `period_seconds`.
pub record ScalingRules : Type 0 where
  pub stabilization_window_seconds : ℤ
  pub select_policy : SelectPolicy
  pub value : ℤ
  pub period_seconds : ℤ

pub record Hpa : Type 0 where
  pub name : String
  pub namespace : String
  pub labels : Dict String
  pub target_api_version : String
  pub target_kind : String
  pub target_name : String
  pub min_replicas : ℤ
  pub max_replicas : ℤ
  pub metric_name : String
  pub metric_selector : Dict String
  pub average_value : Quantity
  pub scale_up : ScalingRules
  pub scale_down : ScalingRules

unfoldable pub hpa_labels : AgentDeployment → Dict String
hpa_labels ad =
    ("app.kubernetes.io/name", ad.name)
    ∷ ("app.kubernetes.io/managed-by", "agentrax")
    ∷ ("agentrax.io/tenant", ad.spec.tenant_ref)
    ∷ []

unfoldable pub custom_metric_name_for : String → String
custom_metric_name_for metric =
    if metric == metric_gpu_utilization
    then custom_metric_gpu_utilization
    else custom_metric_queue_depth

-- The first two assignments to maxReplicas.
capped_max : ℤ → ℤ → ℤ
capped_max max headroom = if ltb_ℤ headroom max then headroom else max

floored_max : ℤ → ℤ → ℤ
floored_max max min = if ltb_ℤ max min then min else max

unfoldable pub build_hpa : AgentDeployment → ℤ → Hpa
unfolding capped_max floored_max
build_hpa ad quota_headroom = record {
  name = ad.name;
  namespace = ad.namespace;
  labels = hpa_labels ad;
  target_api_version = "apps/v1";
  target_kind = "Deployment";
  target_name = ad.name;
  min_replicas = ad.spec.replicas.min;
  max_replicas = floored_max (capped_max ad.spec.replicas.max quota_headroom) ad.spec.replicas.min;
  metric_name = custom_metric_name_for ad.spec.replicas.metric;
  metric_selector =
      ("app_kubernetes_io_name", ad.name) ∷ ("app_kubernetes_io_managed_by", "agentrax") ∷ [];
  average_value = milli (wrap64 (ad.spec.replicas.target *ℤ pos 1000));
  scale_up = record {
    stabilization_window_seconds = scale_up_stabilization_sec;
    select_policy = SelectPolicy.max_change;
    value = pos 4;
    period_seconds = pos 60;
  };
  scale_down = record {
    stabilization_window_seconds = scale_down_stabilization_sec;
    select_policy = SelectPolicy.min_change;
    value = pos 1;
    period_seconds = pos 60;
  };
}

unfoldable pub is_quota_capped : AgentDeployment → ℤ → Bool
is_quota_capped ad quota_headroom = ltb_ℤ quota_headroom ad.spec.replicas.max

-- The total budget that the other agents leave, not below 0.
remaining : ℤ → ℤ → ℤ
remaining max_total used_by_others =
    let left = sub32 max_total used_by_others in if ltb_ℤ left (pos 0) then pos 0 else left

unfoldable pub quota_headroom : TenantQuotaSpec → AgentDeploymentSpec → ℤ → ℤ
unfolding remaining
quota_headroom tq ad used_replicas_by_others =
    let per_agent_ceiling = tq.max_replicas_per_agent in
    let left = remaining tq.max_total_replicas used_replicas_by_others in
    if ltb_ℤ left per_agent_ceiling then left else per_agent_ceiling
