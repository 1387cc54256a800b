-- ===== src/Quota/Verdicts.antt =====
-- internal/quota/enforcer.go: evalQuotaRules and IsOverQuota. The messages of a denial are
-- constructors.
use agentrax.Prelude.{
  ℤ, pos, ltb_ℤ, eqb_ℤ, max_int32, add64, Bool, true, false, not, ◌&&◌, ◌||◌, Option, none, some,
  if◌then◌else◌,
}
use agentrax.Api.{Time, TenantQuotaSpec, TenantQuotaStatus}

-- reservationEntry
pub record Reservation : Type 0 where
  pub agents : ℤ
  pub gpus : ℤ
  pub replicas : ℤ
  pub expiry : Time

pub data Denial : Type 0 where
  gpu_overflow : Denial
  exceeds_max_agents exceeds_max_gpus exceeds_max_total_replicas : ℤ → ℤ → ℤ → ℤ → Denial
  exceeds_max_replicas_per_agent : ℤ → ℤ → Denial

pub data Verdict : Type 0 where
  admitted : Verdict
  denied : Denial → Verdict

unfoldable pub eval_quota_rules :
    TenantQuotaSpec → TenantQuotaStatus → Reservation → Reservation → ℤ → Bool → ℤ → Verdict
eval_quota_rules quota used in_flight delta requested_max is_update prev_max =
    let proj_agents = add64 (add64 used.used_agents in_flight.agents) delta.agents in
    let proj_gpus = add64 (add64 used.used_gpus in_flight.gpus) delta.gpus in
    let proj_replicas = add64 (add64 used.used_total_replicas in_flight.replicas) delta.replicas in
    if eqb_ℤ delta.gpus max_int32
    then denied gpu_overflow
    else if ltb_ℤ quota.max_agents proj_agents && (not is_update || ltb_ℤ (pos 0) delta.agents)
    then denied (exceeds_max_agents quota.max_agents used.used_agents in_flight.agents delta.agents)
    else if ltb_ℤ quota.max_gpus proj_gpus && (not is_update || ltb_ℤ (pos 0) delta.gpus)
    then denied (exceeds_max_gpus quota.max_gpus used.used_gpus in_flight.gpus delta.gpus)
    else if ltb_ℤ quota.max_total_replicas proj_replicas
        && (not is_update || ltb_ℤ (pos 0) delta.replicas)
    then denied (
        exceeds_max_total_replicas quota.max_total_replicas used.used_total_replicas
          in_flight.replicas delta.replicas)
    else if ltb_ℤ quota.max_replicas_per_agent requested_max
        && (not is_update || ltb_ℤ prev_max requested_max)
    then denied (exceeds_max_replicas_per_agent requested_max quota.max_replicas_per_agent)
    else admitted

unfoldable pub is_admitted : Verdict → Bool
is_admitted admitted = true
is_admitted (denied d) = false

-- none: within the quota
unfoldable pub is_over_quota : TenantQuotaSpec → TenantQuotaStatus → Option Denial
is_over_quota quota usage =
    if ltb_ℤ quota.max_agents usage.used_agents
    then some (exceeds_max_agents quota.max_agents usage.used_agents (pos 0) (pos 0))
    else if ltb_ℤ quota.max_gpus usage.used_gpus
    then some (exceeds_max_gpus quota.max_gpus usage.used_gpus (pos 0) (pos 0))
    else if ltb_ℤ quota.max_total_replicas usage.used_total_replicas
    then some (
        exceeds_max_total_replicas quota.max_total_replicas usage.used_total_replicas (pos 0)
          (pos 0))
    else none
