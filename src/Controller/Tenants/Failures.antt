-- ===== src/Controller/Tenants/Failures.antt =====
-- A reconciliation of a TenantQuota that fails after its releases: Reconcile releases the reservations
-- in the loop over the listed agents, and writes the count only at its end.
use agentrax.Prelude.{
  pos, ◌+ℤ◌, ◌≤ℤ◌, InInt32, String, ◌≡◌, ◌≢◌, true, false, none, List, [], contains,
}
use agentrax.Dict.{Dict, insert}
use agentrax.Api.{Time, AgentDeployment, AgentDeploymentSpec, TenantQuota}
use agentrax.Quota.{Enforcer, can_admit}
use agentrax.Quota.Verdicts.{Reservation, admitted}
use agentrax.Rollout.Cluster.{Api, History, tenant_quotas, failed}
use agentrax.Controller.Tenants.Counts.{keys_of, of_tenant, after_reads, counted}

-- The enforcer with these reservations.
abbrev at : Enforcer → Dict Reservation → Enforcer
at e m = record e { reservations = m }

module _ (e : Enforcer) (namespace name : String) (api : Api) (h : History)
    (tq latest : TenantQuota) (ads : List AgentDeployment) (key other : String) (v : Reservation)
    (later : Time) (r : AgentDeploymentSpec) where
  -- One reservation is in flight, of one listed agent of the tenant; it is not in the published use,
  -- which leaves room for that agent and no other. What the published use leaves is enough for
  -- the new agent alone.
  pub record IsLastSlot : Type 0 where
    pub listed : contains key (keys_of (of_tenant tq.name ads)) ≡ true
    pub alone : e.reservations ≡ insert key v []
    pub one : v.agents ≡ pos 1
    pub lives : later ≤ℤ v.expiry
    pub new : key ≢ other
    pub last_slot : latest.status.used_agents +ℤ pos 1 ≡ latest.spec.max_agents
    pub small : InInt32 latest.spec.max_agents
    pub fits : can_admit (at e []) later other latest.spec latest.status r none ≡ admitted

  -- The server refuses the status write, which is due.
  pub record IsRefused : Type 0 where
    pub changed :
        api.same_tenant_status latest.status (counted e namespace name api h tq latest ads).status
        ≡ false
    pub refused :
        api.store (after_reads e namespace name api h tq latest ads) tenant_quotas ≡ failed
