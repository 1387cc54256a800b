-- ===== src/Controller/Tests.antt =====
-- The theorems about the quota system at concrete objects.
use agentrax.Prelude.{
  eq_refl, inl, pos, wrap64, wrap32, ◌*ℤ◌, ◌+ℤ◌, String, ◌≡◌, refl, none, some, [], ◌∷◌, map,
  contains, if◌then◌else◌, arith,
}
use agentrax.Dict.{lookup, insert}
use agentrax.Quota.{
  admit_and_reserve, compute_delta, gpus_for_ad, gpus_total, extract_gpus, new_enforcer,
  sum_inflight, release, compute_usage, Enforcer,
}
use agentrax.Quota.Verdicts.{Reservation, eval_quota_rules}
use agentrax.Api.{TenantQuota}
use agentrax.Rollout.Cluster.{
  object, failed, Api, History, Result, tenant_quotas, write_tenant_status, ok,
}
use agentrax.Rollout.Cluster.Runs.{ended}
use agentrax.Rollout.Canary.{Requeue}
use agentrax.Webhook.{admission_key}
use agentrax.Controller.Tenants.{reservation_key, resync_period, reconcile_tenant_quota}
use agentrax.Controller.Tenants.Counts.{
  IsRead, PublishesUsage, of_tenant, counted, after_reads, reconcile_tenant_quota-counts,
}
use agentrax.Controller.Tenants.Held.{delete_all}
use agentrax.Controller.Tenants.Ledger.{at, Fits}
use agentrax.Controller.Tenants.Ledger.Promise.{IsQuota}
use agentrax.Controller.Tenants.System.{Job, State, stored, Step, Reach, IsCalm}
use agentrax.Controller.Tenants.System.Refines.{initial, calm-Fits}
use agentrax.Samples.Server.{server}
use agentrax.Samples.{sample_agent, sample_quota, sample_tenant, sample_enforcer}

sample_quota-IsQuota : IsQuota sample_quota
sample_quota-IsQuota =
    ((omega arith, omega arith, omega arith), omega arith, omega arith, omega arith)

-- A creation is read, judged and stored; the agent is listed, released and counted.
abbrev looked : State
looked = record (initial (pos 0)) { looks = (initial (pos 0)).used ∷ [] }

abbrev admitted_state : State
admitted_state = record looked {
  reservations =
      (admit_and_reserve (at sample_enforcer []) (pos 0) (reservation_key sample_agent) sample_quota
        looked.used sample_agent.spec none (pos 5)).0.reservations;
}

abbrev stored_state : State
stored_state = record admitted_state { fresh = sample_agent ∷ [] }

abbrev listed_state : State
listed_state = record stored_state {
  job = Job.counting (sample_agent.spec ∷ []) (sample_agent ∷ []);
  fresh = [];
  counted = sample_agent ∷ [];
}

abbrev released_state : State
released_state = record listed_state {
  reservations =
      (release (at sample_enforcer listed_state.reservations)
        (reservation_key sample_agent)).reservations;
  job = Job.counting (sample_agent.spec ∷ []) [];
}

abbrev published_state : State
published_state = record released_state {
  used = compute_usage (at sample_enforcer released_state.reservations) (sample_agent.spec ∷ []);
  job = Job.idle;
}

life : Reach sample_enforcer sample_quota "team-a" (initial (pos 0)) published_state
unfolding of_tenant
life =
    Reach.next
      (Reach.next
        (Reach.next
          (Reach.next
            (Reach.next (Reach.next Reach.here Step.look)
              (Step.judge sample_agent (pos 5) looked.used (inl refl)))
            (Step.store sample_agent (eq_refl "team-a", (omega arith, omega arith))))
          (Step.list refl))
        (Step.release_next (sample_agent.spec ∷ []) sample_agent [] refl))
      (Step.publish (sample_agent.spec ∷ []) refl)

life-IsCalm : IsCalm sample_enforcer sample_quota "team-a" life
unfolding life contains admit_and_reserve lookup eval_quota_rules compute_delta gpus_for_ad
    gpus_total extract_gpus new_enforcer wrap64 ◌*ℤ◌ wrap32 ◌+ℤ◌ sum_inflight insert reservation_key
    delete_all
life-IsCalm = (
  (
    (
      (
        ((tt, tt), (refl, refl, omega arith, refl)),
        (record { expiry = pos 5; reserved = refl; live_at = omega arith }, refl),
      ),
      tt,
    ),
    tt,
  ),
  tt,
)

calm-Fits_example : Fits sample_enforcer sample_quota (stored published_state)
calm-Fits_example =
    calm-Fits sample_enforcer sample_quota "team-a" sample_quota-IsQuota (pos 0) life life-IsCalm

abbrev api : Api
api = server sample_agent

reads :
    IsRead sample_enforcer "team-a" "team-a" api [] sample_tenant sample_tenant (sample_agent ∷ [])
reads = record { first = refl; listed = refl; second = refl }

reconcile_tenant_quota-counts_example :
    let (e', result, h') = reconcile_tenant_quota sample_enforcer "team-a" "team-a" api [] in
    let reads_done =
      after_reads sample_enforcer "team-a" "team-a" api [] sample_tenant sample_tenant
        (sample_agent ∷ []) in
    let new =
      counted sample_enforcer "team-a" "team-a" api [] sample_tenant sample_tenant
        (sample_agent ∷ []) in
    let written = api.store reads_done tenant_quotas in
    ((j : String)
      → lookup j e'.reservations ≡ (
          if contains j (map admission_key (of_tenant sample_tenant.name (sample_agent ∷ [])))
          then none
          else lookup j sample_enforcer.reservations))
    × PublishesUsage sample_enforcer "team-a" "team-a" api [] sample_tenant sample_tenant
        (sample_agent ∷ [])
        new.status
    × (let ends : Result Requeue × History = (result, h') in
        ends ≡ (
          if api.same_tenant_status sample_tenant.status new.status
          then (ok (some resync_period), reads_done)
          else (
            ended written (some resync_period) "updating TenantQuota status",
            write_tenant_status new written ∷ reads_done,
          )))
reconcile_tenant_quota-counts_example =
    reconcile_tenant_quota-counts sample_enforcer "team-a" "team-a" api [] sample_tenant
      sample_tenant (sample_agent ∷ []) reads

-- A tenant that may have two agents, with one of them counted.
abbrev tight_tenant : TenantQuota
tight_tenant = record sample_tenant { spec = record sample_quota { max_agents = pos 2 } }

-- A server that refuses the writes.
abbrev refusing : Api
refusing = record (server sample_agent) {
  tenant_quota = λ h namespace name. object tight_tenant;
  store = λ h k. failed;
}

abbrev in_flight : Reservation
in_flight = record { agents = pos 1; gpus = pos 2; replicas = pos 2; expiry = pos 9 }

abbrev holding : Enforcer
holding = record sample_enforcer {
  reservations = insert (reservation_key sample_agent) in_flight [];
}
