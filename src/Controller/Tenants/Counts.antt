-- ===== src/Controller/Tenants/Counts.antt =====
-- What a reconciliation of a TenantQuota counts, releases and writes.
use agentrax.Prelude.{
  leb_ℤ, String, Bool, true, false, ◌≡◌, refl, ap, inl, inr, arith, none, some, List, [], ◌∷◌, map,
  contains, Bool-cases, ◌==◌, ◌&&◌, if◌then◌else◌,
}
use agentrax.Dict.{lookup, lookup-delete}
use agentrax.Api.{
  AgentDeployment, AgentDeploymentSpec, Condition, ConditionType, ConditionReason, TenantQuota,
  TenantQuotaStatus,
}
use agentrax.Quota.{Enforcer, release, compute_usage}
use agentrax.Quota.Verdicts.{is_over_quota}
use agentrax.Webhook.{admission_key}
use agentrax.Rollout.Cluster.{
  agents, tenant_quotas, Answer, done, not_found, failed, object, Api, History, Result, ok,
  continue, pure, fail, ◌>>=◌, get, store, asks, must, list_items, need_list, answer_of, read,
  list_call, write_tenant_status,
}
use agentrax.Rollout.Cluster.Runs.{ended}
use agentrax.Rollout.Canary.{Requeue}
use agentrax.Controller.Tenants.{
  reservation_key, collect, with_usage, found, list_of, gather, publish, resync_period, write_usage,
  set_over_quota, count_listed, reconcile_tenant_quota,
}

-- The listed agents that name the quota.
unfoldable pub of_tenant : String → List AgentDeployment → List AgentDeployment
of_tenant name [] = []
of_tenant name (ad ∷ ads) =
    let rest = of_tenant name ads in if ad.spec.tenant_ref == name then ad ∷ rest else rest

abbrev pub specs_of : List AgentDeployment → List AgentDeploymentSpec
specs_of = map (λ ad. ad.spec)

pub collect-specs :
    (e : Enforcer) (name : String) (ads : List AgentDeployment)
    → (collect e name ads).1 ≡ specs_of (of_tenant name ads)
unfolding collect of_tenant
collect-specs e name [] = refl
collect-specs e name (ad ∷ ads) = elim (Bool-cases (ad.spec.tenant_ref == name)) [
  | inl mine ↦
      rw mine (ap (λ l. ad.spec ∷ l) (collect-specs (release e (reservation_key ad)) name ads))
  | inr other ↦ rw other (collect-specs e name ads)
]

abbrev pub keys_of : List AgentDeployment → List String
keys_of = map reservation_key

-- The reservations of the agents that name the quota are gone, and the others stand.
pub lookup-collect :
    (e : Enforcer) (name : String) (ads : List AgentDeployment) (j : String)
    → lookup j (collect e name ads).0.reservations
      ≡ (if contains j (keys_of (of_tenant name ads)) then none else lookup j e.reservations)
unfolding collect of_tenant contains release
lookup-collect e name [] j = refl
lookup-collect e name (ad ∷ ads) j = elim (Bool-cases (ad.spec.tenant_ref == name)) [
  | inl mine ↦ rw mine (
      ground (
        arith,
        lookup-collect (release e (reservation_key ad)) name ads j,
        lookup-delete (reservation_key ad) j e.reservations,
      ))
  | inr other ↦ rw other (lookup-collect e name ads j)
]

module _ (e : Enforcer) (namespace name : String) (api : Api) (h : History)
    (tq latest : TenantQuota) (ads : List AgentDeployment) where
  abbrev pub after_list : History
  after_list = list_call agents tq.namespace true ∷ read tenant_quotas namespace name done ∷ h

  abbrev pub after_reads : History
  after_reads = read tenant_quotas namespace name done ∷ after_list

  -- The reads of a reconciliation that finds its quota, twice, and the agents of its namespace.
  pub record IsRead : Type 0 where
    pub first : api.tenant_quota h namespace name ≡ object tq
    pub listed : api.agent_list (read tenant_quotas namespace name done ∷ h) tq.namespace ≡ some ads
    pub second : api.tenant_quota after_list namespace name ≡ object latest

  abbrev pub usage : TenantQuotaStatus
  usage = compute_usage (collect e tq.name ads).0 (specs_of (of_tenant tq.name ads))

  abbrev pub counted : TenantQuota
  counted = with_usage api usage latest

  gathered : IsRead → gather namespace name api h ≡ (ok (some (tq.name, ads)), after_list)
  unfolding gather found list_of get list_items need_list ◌>>=◌ continue pure answer_of
  gathered r = rw (r.first, r.listed) refl

  publish_same :
      IsRead
      → api.same_tenant_status latest.status counted.status ≡ true
      → publish usage namespace name api after_list ≡ (ok (some resync_period), after_reads)
  unfolding publish found write_usage get asks ◌>>=◌ continue pure answer_of
  publish_same r same = rw (r.second, same) refl

  pub publish_changed :
      (a : Answer)
      → IsRead
      → api.same_tenant_status latest.status counted.status ≡ false
      → api.store after_reads tenant_quotas ≡ a
      → publish usage namespace name api after_list ≡ (
        ended a (some resync_period) "updating TenantQuota status",
        write_tenant_status counted a ∷ after_reads,
      )
  unfolding publish found write_usage get asks store must fail ◌>>=◌ continue pure answer_of
  publish_changed done r changed stored = rw (r.second, changed, stored) refl
  publish_changed not_found r changed stored = rw (r.second, changed, stored) refl
  publish_changed failed r changed stored = rw (r.second, changed, stored) refl

  pub reconciled :
      IsRead
      → reconcile_tenant_quota e namespace name api h ≡ (
        (collect e tq.name ads).0,
        (publish usage namespace name api after_list).0,
        (publish usage namespace name api after_list).1,
      )
  unfolding reconcile_tenant_quota count_listed
  reconciled r = rw (gathered r, count_listed, collect-specs e tq.name ads) refl

  -- The usage is within the three ceilings of the quota as it was read again.
  abbrev pub is_within : Bool
  is_within =
      leb_ℤ usage.used_agents latest.spec.max_agents
      && leb_ℤ usage.used_gpus latest.spec.max_gpus
      && leb_ℤ usage.used_total_replicas latest.spec.max_total_replicas

  abbrev pub over_quota : Condition
  over_quota = record {
    type_of = ConditionType.over_quota;
    status = true;
    reason = ConditionReason.usage_exceeds_quota;
    observed_generation = latest.generation;
  }

  -- The status that is to be published.
  abbrev pub PublishesUsage : TenantQuotaStatus → Type 0
  PublishesUsage s =
      (s.used_agents ≡ usage.used_agents)
      × (s.used_gpus ≡ usage.used_gpus)
      × (s.used_total_replicas ≡ usage.used_total_replicas)
      × (s.conditions ≡ (
          if is_within
          then api.remove_condition ConditionType.over_quota latest.status.conditions
          else api.set_condition over_quota latest.status.conditions))

  counted-PublishesUsage : PublishesUsage counted.status
  unfolding with_usage set_over_quota is_over_quota
  counted-PublishesUsage = (refl, refl, refl, ground arith)

  -- A reconciliation that finds its quota and lists the agents of the quota's namespace releases
  -- the webhook's reservations of exactly the listed agents that name the quota. The status of the
  -- re-fetched quota gets the usage of those agents, and the condition that it is over its quota
  -- exactly if that usage exceeds a ceiling; it is written if it differs from the one read, and not
  -- otherwise. Unless the write fails, which is an error, the quota is reconciled again after five
  -- minutes.
  pub reconcile_tenant_quota-counts :
      IsRead
      → let (e', result, h') = reconcile_tenant_quota e namespace name api h in
        let written = api.store after_reads tenant_quotas in
        ((j : String)
          → lookup j e'.reservations ≡ (
              if contains j (map admission_key (of_tenant tq.name ads))
              then none
              else lookup j e.reservations))
        × PublishesUsage counted.status
        × (let ends : Result Requeue × History = (result, h') in
            ends ≡ (
              if api.same_tenant_status latest.status counted.status
              then (ok (some resync_period), after_reads)
              else (
                ended written (some resync_period) "updating TenantQuota status",
                write_tenant_status counted written ∷ after_reads,
              )))
  unfolding admission_key reservation_key
  reconcile_tenant_quota-counts r = rw (reconciled r) (
    λ j. lookup-collect e tq.name ads j,
    counted-PublishesUsage,
    elim (Bool-cases (api.same_tenant_status latest.status counted.status)) [
      | inl same ↦ rw same (publish_same r same)
      | inr changed ↦ rw changed (publish_changed _ r changed refl)
    ],
  )
