-- ===== src/Controller/Tenants/Ledger.antt =====
-- The ledger of a tenant: the quota system of Controller/Tenants/System with the releases, the count
-- and the publication of a reconciliation taken as one event, at the time of its list, and with the
-- read and the verdict of the webhook taken as one. The steps of the program refine it there.
pub mod Weights
pub mod Changes
pub mod Invariant
pub mod Promise
use agentrax.Prelude.{
  ℕ, ◌+◌, ◌≤◌, ℤ, pos, pos_part, ltb_ℤ, ◌+ℤ◌, ◌≤ℤ◌, +ℤ_parts, InInt32, max_int32, String, ◌≡◌, refl,
  sym, ap, ◌∙◌, arith, true, false, Option, none, some, List, [], ◌∷◌, ◌++◌, length, map, All,
  All-append, contains, Distinct, ◌==◌,
}
use agentrax.Dict.{Dict, lookup}
use agentrax.Api.{
  Time, Duration, AgentDeployment, AgentDeploymentSpec, TenantQuotaSpec, TenantQuotaStatus,
}
use agentrax.Quota.{
  Enforcer, compute_delta, gpus_for_ad, sweep, sweep_expired, release, admit_and_reserve,
  compute_usage, extract_gpus,
}
use agentrax.Quota.Verdicts.{Reservation}
use agentrax.Quota.Inflight.{live, NonNegative, live_nonneg}
use agentrax.Quota.Room.{HasRoom, IsSafe, IsSetting}
use agentrax.Quota.Usage.{total, max_of, gpus_of, IsStored, compute_usage_exact}
use agentrax.Controller.Tenants.{reservation_key, collect}
use agentrax.Controller.Tenants.Counts.{keys_of, specs_of, of_tenant, collect-specs}
use agentrax.Controller.Tenants.Held.{IsBacked, delete_all}

-- `counted` are the agents of the last reconciliation that are still stored, `fresh` those that
-- were stored since.
pub record State : Type 0 where
  pub now : Time
  pub reservations : Dict Reservation
  pub used : TenantQuotaStatus
  pub fresh : List AgentDeployment
  pub counted : List AgentDeployment

abbrev pub stored : State → List AgentDeployment
stored s = s.fresh ++ s.counted

-- The enforcer with these reservations.
abbrev pub at : Enforcer → Dict Reservation → Enforcer
at base m = record base { reservations = m }

-- An agent of the tenant, as the API server's validation accepts it.
abbrev pub IsMember : String → AgentDeployment → Type 0
IsMember tenant ad = ((ad.spec.tenant_ref == tenant) ≡ true) × IsStored ad.spec

-- What the quota promises of the agents that are stored.
abbrev pub Fits : Enforcer → TenantQuotaSpec → List AgentDeployment → Type 0
Fits base q ads =
    (pos (length (specs_of ads)) ≤ℤ q.max_agents)
    × (pos (total (gpus_of base) (specs_of ads)) ≤ℤ q.max_gpus)
    × (pos (total max_of (specs_of ads)) ≤ℤ q.max_total_replicas)

module _ (base : Enforcer) (q : TenantQuotaSpec) (tenant : String) where
  -- An admitted agent is stored before its reservation expires, and the reconciler counts it before
  -- its reservation expires; otherwise the events come in any order.
  pub data Step (s : State) : State → Type 0 where
    -- The webhook judges the creation of an agent that is not stored.
    create :
        (ad : AgentDeployment) (ttl : Duration)
        → InInt32 ad.spec.replicas.max
        → contains (reservation_key ad) (keys_of s.fresh) ≡ false
        → Step s (record s {
          reservations =
              (admit_and_reserve
                (at base s.reservations)
                s.now
                (reservation_key ad)
                q
                s.used
                ad.spec
                none
                ttl).0.reservations;
        })
    -- The API server stores an agent whose creation has been admitted.
    store :
        (ad : AgentDeployment)
        → IsMember tenant ad
        → IsBacked base s.now s.reservations ad
        → contains (reservation_key ad) (keys_of s.fresh) ≡ false
        → Step s (record s { fresh = ad ∷ s.fresh })
    -- The reconciler releases, counts and publishes what is stored.
    count : Step s (record s {
      reservations = (collect (at base s.reservations) tenant (stored s)).0.reservations;
      used =
          compute_usage
            (collect (at base s.reservations) tenant (stored s)).0
            (collect (at base s.reservations) tenant (stored s)).1;
      fresh = [];
      counted = stored s;
    })
    remove_fresh :
        (xs ys : List AgentDeployment) (ad : AgentDeployment)
        → s.fresh ≡ xs ++ ad ∷ ys
        → Step s (record s { fresh = xs ++ ys })
    remove_counted :
        (xs ys : List AgentDeployment) (ad : AgentDeployment)
        → s.counted ≡ xs ++ ad ∷ ys
        → Step s (record s { counted = xs ++ ys })
    sweep_out : Step s (record s { reservations = sweep s.now s.reservations })
    let_go :
        (key : String)
        → contains key (keys_of s.fresh) ≡ false
        → Step s (record s { reservations = (release (at base s.reservations) key).reservations })
    wait :
        (later : Time)
        → s.now ≤ℤ later
        → All (IsBacked base later s.reservations) s.fresh
        → Step s (record s { now = later })

  pub data Reach (s : State) : State → Type 0 where
    here : Reach s s
    next : {t u : State} → Reach s t → Step t u → Reach s u
