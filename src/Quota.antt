-- ===== src/Quota.antt =====
-- internal/quota/enforcer.go: quota arithmetic and the in-flight reservations of the admission
-- webhook. A method that holds the mutex is one step, from the state before to the state after;
-- the clock is read by the caller and passed in. The messages of a denial are constructors.
pub mod Verdicts
pub mod Gpus
pub mod Rules
pub mod Inflight
pub mod Room
pub mod Admission
pub mod Safety
pub mod Races
pub mod Usage
mod Tests
use agentrax.Prelude.{
  ℤ, pos, ◌+ℤ◌, ◌*ℤ◌, ltb_ℤ, eqb_ℤ, pos_part, wrap32, wrap64, max_int32, add32, sub32, add64, ◌/◌,
  String, Bool, true, false, not, ◌&&◌, ◌||◌, Option, none, some, List, [], ◌∷◌, ◌==◌,
  if◌then◌else◌,
}
use agentrax.Dict.{Dict, lookup, insert, delete}
use agentrax.Api.{
  Duration, Time, Quantity, ResourceRequirements, AgentDeploymentSpec, TenantQuotaSpec,
  TenantQuotaStatus,
}
use agentrax.Quota.Verdicts.{
  Reservation, Denial, gpu_overflow, exceeds_max_agents, exceeds_max_gpus,
  exceeds_max_total_replicas, exceeds_max_replicas_per_agent, Verdict, admitted, denied,
  eval_quota_rules, is_admitted, is_over_quota,
}

abbrev pub default_gpu_resource_name : String
default_gpu_resource_name = "nvidia.com/gpu"

-- `quantity_value` stands for the library's `Quantity.Value`; `stopped` for the closed channel.
pub record Enforcer : Type 0 where
  pub gpu_resource_name : String
  pub reservations : Dict Reservation
  pub stopped : Bool
  pub quantity_value : Quantity → ℤ

unfoldable pub new_enforcer : (Quantity → ℤ) → String → Enforcer
new_enforcer value name = record {
  gpu_resource_name = if name == "" then default_gpu_resource_name else name;
  reservations = [];
  stopped = false;
  quantity_value = value;
}

unfoldable pub stop : Enforcer → Enforcer
stop e = record e { stopped = true }

-- now.After(v.expiry)
abbrev pub expired : Time → Reservation → Bool
expired now v = ltb_ℤ v.expiry now

unfoldable pub sweep : Time → Dict Reservation → Dict Reservation
sweep now [] = []
sweep now ((k, v) ∷ m) = let rest = sweep now m in if expired now v then rest else (k, v) ∷ rest

unfoldable pub sweep_expired : Enforcer → Time → Enforcer
unfolding sweep
sweep_expired e now = record e { reservations = sweep now e.reservations }

-- The iterations of sweepLoop: on each tick it sweeps, and it ends once the enforcer is stopped.
unfoldable pub sweep_loop : Enforcer → List Time → Enforcer
sweep_loop e [] = e
sweep_loop e (now ∷ ticks) = sweep_loop (if e.stopped then e else sweep_expired e now) ticks

extract_gpus_of : Option Quantity → (Quantity → ℤ) → ℤ
extract_gpus_of none value = pos 0
extract_gpus_of (some qty) value = value qty

unfoldable pub extract_gpus : Enforcer → ResourceRequirements → ℤ
unfolding extract_gpus_of
extract_gpus e r = extract_gpus_of (lookup e.gpu_resource_name r.limits) e.quantity_value

-- perReplica × max, saturating; `math.MaxInt64/perReplica` is read only where perReplica > 0.
unfoldable pub gpus_total : ℤ → ℤ → ℤ
gpus_total per_replica max =
    let total = wrap64 (per_replica *ℤ max) in
    if ltb_ℤ per_replica (pos 0) || ltb_ℤ max (pos 0)
    then max_int32
    else if ltb_ℤ (pos 0) per_replica
        && ltb_ℤ (pos (9223372036854775807 / pos_part per_replica)) max
    then max_int32
    else if ltb_ℤ max_int32 total
    then max_int32
    else wrap32 total

unfoldable pub gpus_for_ad : Enforcer → AgentDeploymentSpec → ℤ
gpus_for_ad e ad = gpus_total (extract_gpus e ad.resources) ad.replicas.max

abbrev pub zero_status : TenantQuotaStatus
zero_status = record {
  used_agents = pos 0;
  used_gpus = pos 0;
  used_total_replicas = pos 0;
  conditions = [];
}

compute_usage_from : Enforcer → TenantQuotaStatus → List AgentDeploymentSpec → TenantQuotaStatus
compute_usage_from e s [] = s
compute_usage_from e s (ad ∷ ads) =
    compute_usage_from e
      (record s {
        used_agents = add32 s.used_agents (pos 1);
        used_total_replicas = add32 s.used_total_replicas ad.replicas.max;
        used_gpus = add32 s.used_gpus (gpus_for_ad e ad);
      })
      ads

unfoldable pub compute_usage : Enforcer → List AgentDeploymentSpec → TenantQuotaStatus
unfolding compute_usage_from
compute_usage e ads = compute_usage_from e zero_status ads

unfoldable pub same_tenant_update : AgentDeploymentSpec → Option AgentDeploymentSpec → Bool
same_tenant_update requested none = false
same_tenant_update requested (some old) = requested.tenant_ref == old.tenant_ref

-- A delta has no expiry of its own: the zero time.
full_delta : Enforcer → AgentDeploymentSpec → Reservation
full_delta e requested = record {
  agents = pos 1;
  gpus = gpus_for_ad e requested;
  replicas = requested.replicas.max;
  expiry = pos 0;
}

unfoldable pub compute_delta :
    Enforcer → AgentDeploymentSpec → Option AgentDeploymentSpec → Reservation
unfolding full_delta
compute_delta e requested none = full_delta e requested
compute_delta e requested (some old) =
    if not (requested.tenant_ref == old.tenant_ref) then full_delta e requested else record {
      agents = pos 0;
      gpus = sub32 (gpus_for_ad e requested) (gpus_for_ad e old);
      replicas = sub32 requested.replicas.max old.replicas.max;
      expiry = pos 0;
    }

unfoldable pub old_max : Option AgentDeploymentSpec → ℤ
old_max none = pos 0
old_max (some old) = old.replicas.max

abbrev pub no_reservation : Reservation
no_reservation = record { agents = pos 0; gpus = pos 0; replicas = pos 0; expiry = pos 0 }

pub charge : Reservation → Reservation → Reservation
charge total v = record total {
  agents = add32 total.agents v.agents;
  gpus = add32 total.gpus v.gpus;
  replicas = add32 total.replicas v.replicas;
}

pub sum_inflight_from : String → Time → Reservation → Dict Reservation → Reservation
sum_inflight_from exclude now total [] = total
sum_inflight_from exclude now total ((k, v) ∷ m) =
    sum_inflight_from exclude now (if k == exclude || expired now v then total else charge total v)
      m

unfoldable pub sum_inflight : Enforcer → String → Time → Reservation
unfolding sum_inflight_from charge
sum_inflight e exclude now = sum_inflight_from exclude now no_reservation e.reservations

unfoldable pub can_admit :
    Enforcer
    → Time
    → String
    → TenantQuotaSpec
    → TenantQuotaStatus
    → AgentDeploymentSpec
    → Option AgentDeploymentSpec
    → Verdict
can_admit e now key quota used requested old =
    eval_quota_rules quota used (sum_inflight e key now) (compute_delta e requested old)
      requested.replicas.max (same_tenant_update requested old) (old_max old)

unfoldable pub reserve :
    Enforcer
    → Time
    → String
    → AgentDeploymentSpec
    → Option AgentDeploymentSpec
    → Duration
    → Enforcer
reserve e now key requested old ttl =
    let delta = compute_delta e requested old in
    record e { reservations = insert key (record delta { expiry = now +ℤ ttl }) e.reservations }

settle : Verdict → Enforcer → Enforcer → Enforcer × Verdict
settle admitted before after = (after, admitted)
settle (denied d) before after = (before, denied d)

unfoldable pub admit_and_reserve :
    Enforcer
    → Time
    → String
    → TenantQuotaSpec
    → TenantQuotaStatus
    → AgentDeploymentSpec
    → Option AgentDeploymentSpec
    → Duration
    → Enforcer × Verdict
unfolding settle
admit_and_reserve e now key quota used requested old ttl =
    let delta = compute_delta e requested old in
    let in_flight = sum_inflight e key now in
    let verdict =
      eval_quota_rules quota used in_flight delta requested.replicas.max
        (same_tenant_update requested old) (old_max old) in
    settle verdict e
      (record e { reservations = insert key (record delta { expiry = now +ℤ ttl }) e.reservations })

unfoldable pub release : Enforcer → String → Enforcer
release e key = record e { reservations = delete key e.reservations }
