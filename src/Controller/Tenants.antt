-- ===== src/Controller/Tenants.antt =====
-- internal/controller/tenantquota_controller.go: TenantQuotaReconciler.Reconcile. Logging and the
-- metrics are left out. The enforcer's Release takes the mutex, and no call in between can fail, so
-- the loop over the listed agents is one step from the enforcer before to the enforcer after.
pub mod Counts
pub mod Held
pub mod Ledger
pub mod System
pub mod Failures
use Prim.Native.String.{◌++◌ as str_append}
use agentrax.Prelude.{
  pos, String, Bool, true, false, Option, none, some, List, [], ◌∷◌, ◌==◌, if◌then◌else◌,
}
use agentrax.Api.{
  Duration, Condition, ConditionType, ConditionReason, AgentDeployment, AgentDeploymentSpec,
  TenantQuota, TenantQuotaStatus,
}
use agentrax.Quota.{Enforcer, release, compute_usage}
use agentrax.Quota.Verdicts.{Denial, is_over_quota}
use agentrax.Rollout.Cluster.{
  Kind, agents, tenant_quotas, Reply, object, missing, broken, Api, History, Result, ok, error,
  panic, Exec, pure, fail, ◌>>=◌, ◌>>◌, get, store, asks, must, list_items, need_list,
  write_tenant_status,
}
use agentrax.Rollout.Canary.{Requeue}

abbrev pub resync_period : Duration
resync_period = pos 300000000000

-- fmt.Sprintf("%s/%s", Namespace, Name)
unfoldable pub reservation_key : AgentDeployment → String
reservation_key ad = str_append ad.namespace (str_append "/" ad.name)

-- The loop over the listed agents: those that name the quota are released, and their specs kept.
unfoldable pub collect :
    Enforcer → String → List AgentDeployment → Enforcer × List AgentDeploymentSpec
unfolding reservation_key
collect e name [] = (e, [])
collect e name (ad ∷ ads) =
    let mine = ad.spec.tenant_ref == name in
    let (e', specs) = collect (if mine then release e (reservation_key ad) else e) name ads in
    (e', if mine then ad.spec ∷ specs else specs)

-- A Get whose "not found" ends the reconciliation without an error.
found : String → Reply TenantQuota → Exec (Option TenantQuota)
found message (object tq) = pure (some tq)
found message missing = pure none
found message broken = fail message

set_over_quota : Api → TenantQuota → Option Denial → List Condition → List Condition
set_over_quota api latest (some over) conditions =
    api.set_condition
      (record {
        type_of = ConditionType.over_quota;
        status = true;
        reason = ConditionReason.usage_exceeds_quota;
        observed_generation = latest.generation;
      })
      conditions
set_over_quota api latest none conditions = api.remove_condition ConditionType.over_quota conditions

-- The re-fetched quota with the computed usage, and the condition that goes with it.
unfoldable pub with_usage : Api → TenantQuotaStatus → TenantQuota → TenantQuota
unfolding set_over_quota
with_usage api usage latest = record latest {
  status = record {
    used_agents = usage.used_agents;
    used_gpus = usage.used_gpus;
    used_total_replicas = usage.used_total_replicas;
    conditions =
        set_over_quota api latest (is_over_quota latest.spec usage) latest.status.conditions;
  };
}

write_usage : TenantQuotaStatus → Option TenantQuota → Exec Requeue
write_usage usage none = pure none
write_usage usage (some latest) = do
  counted ← asks (λ api h. with_usage api usage latest)
  same ← asks (λ api h. api.same_tenant_status latest.status counted.status)
  if same then pure (some resync_period) else do
    stored ← store tenant_quotas (write_tenant_status counted)
    must "updating TenantQuota status" stored
    pure (some resync_period)

list_of : Option TenantQuota → Exec (Option (String × List AgentDeployment))
list_of none = pure none
list_of (some tq) = do
  items ← list_items agents (λ api. api.agent_list) tq.namespace
  ads ← need_list "listing AgentDeployments" items
  pure (some (tq.name, ads))

-- Up to the List: the quota's name and the agents of its namespace, or nothing if it is gone.
unfoldable pub gather : String → String → Exec (Option (String × List AgentDeployment))
unfolding found list_of
gather namespace name = do
  reply ← get tenant_quotas (λ api. api.tenant_quota) namespace name
  tq ← found "fetching TenantQuota" reply
  list_of tq

-- From the second Get on.
unfoldable pub publish : TenantQuotaStatus → String → String → Exec Requeue
unfolding found write_usage
publish usage namespace name = do
  reply ← get tenant_quotas (λ api. api.tenant_quota) namespace name
  latest ← found "re-fetching TenantQuota for status update" reply
  write_usage usage latest

abbrev pub Reconciled : Type 0
Reconciled = Enforcer × Result Requeue × History

count_listed :
    Enforcer
    → String
    → String
    → Api
    → Result (Option (String × List AgentDeployment)) × History
    → Reconciled
count_listed e namespace name api (error message, h) = (e, error message, h)
count_listed e namespace name api (panic, h) = (e, panic, h)
count_listed e namespace name api (ok none, h) = (e, ok none, h)
count_listed e namespace name api (ok (some (tenant, ads)), h) =
    let (e', specs) = collect e tenant ads in
    let (result, h') = publish (compute_usage e' specs) namespace name api h in (e', result, h')

unfoldable pub reconcile_tenant_quota : Enforcer → String → String → Api → History → Reconciled
unfolding count_listed
reconcile_tenant_quota e namespace name api h =
    count_listed e namespace name api (gather namespace name api h)
