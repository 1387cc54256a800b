-- ===== src/Controller/Tenants/System.antt =====
-- The quota system in the steps of the program, for one tenant's agents: the webhook's read of the
-- TenantQuota and its AdmitAndReserve, the API server that stores what was admitted, and the TenantQuota
-- reconciler with its list, its Release of one agent after the other, and its status write.
pub mod Refines
use agentrax.Prelude.{
  ◌≤ℤ◌, InInt32, String, ◌≡◌, ◌⊎◌, false, none, List, [], ◌∷◌, ◌++◌, All, contains,
}
use agentrax.Dict.{Dict}
use agentrax.Api.{
  Time, Duration, AgentDeployment, AgentDeploymentSpec, TenantQuotaSpec, TenantQuotaStatus,
}
use agentrax.Quota.{Enforcer, sweep, release, admit_and_reserve, compute_usage}
use agentrax.Quota.Verdicts.{Reservation}
use agentrax.Controller.Tenants.{reservation_key}
use agentrax.Controller.Tenants.Counts.{keys_of, specs_of, of_tenant}
use agentrax.Controller.Tenants.Held.{IsBacked, delete_all}
use agentrax.Controller.Tenants.Ledger.{at, IsMember}

-- The reconciliation that is running: what it counts, and the agents it has yet to release. One whose
-- second Get or status write fails stays with nothing to release, until the next one lists again.
pub data Job : Type 0 where
  idle : Job
  counting : List AgentDeploymentSpec → List AgentDeployment → Job

abbrev pub to_release : Job → List AgentDeployment
to_release idle = []
to_release (counting specs todo) = todo

-- `looks` are the published uses that requests of the webhook have read. The stored agents are
-- `counted`, those of the last list that are still there, and `fresh`, those stored since.
pub record State : Type 0 where
  pub now : Time
  pub reservations : Dict Reservation
  pub used : TenantQuotaStatus
  pub looks : List TenantQuotaStatus
  pub job : Job
  pub fresh : List AgentDeployment
  pub counted : List AgentDeployment

abbrev pub stored : State → List AgentDeployment
stored s = s.fresh ++ s.counted

abbrev pub IsIn : TenantQuotaStatus → List TenantQuotaStatus → Type 0
IsIn u [] = ⊥
IsIn u (x ∷ xs) = (x ≡ u) ⊎ IsIn u xs

-- The reservations that the running reconciliation is not about to release.
abbrev pub kept : State → Dict Reservation
kept s = delete_all (keys_of (to_release s.job)) s.reservations

module _ (base : Enforcer) (q : TenantQuotaSpec) (tenant : String) where
  -- Each step is one call of the program, and the steps come in any order. A list gives the agents that
  -- are stored at that time, and one reconciliation of the quota runs at a time.
  pub data Step (s : State) : State → Type 0 where
    -- A request of the webhook reads the TenantQuota.
    look : Step s (record s { looks = s.used ∷ s.looks })
    -- The webhook judges the creation of an agent by what it has read.
    judge :
        (ad : AgentDeployment) (ttl : Duration) (seen : TenantQuotaStatus)
        → IsIn seen s.looks
        → Step s (record s {
          reservations =
              (admit_and_reserve
                (at base s.reservations)
                s.now
                (reservation_key ad)
                q
                seen
                ad.spec
                none
                ttl).0.reservations;
        })
    -- The API server stores an agent.
    store : (ad : AgentDeployment) → IsMember tenant ad → Step s (record s { fresh = ad ∷ s.fresh })
    -- A reconciliation lists the agents.
    list :
        to_release s.job ≡ []
        → Step s (record s {
          job = counting (specs_of (of_tenant tenant (stored s))) (of_tenant tenant (stored s));
          fresh = [];
          counted = stored s;
        })
    release_next :
        (specs : List AgentDeploymentSpec) (ad : AgentDeployment) (todo : List AgentDeployment)
        → s.job ≡ counting specs (ad ∷ todo)
        → Step s (record s {
          reservations = (release (at base s.reservations) (reservation_key ad)).reservations;
          job = counting specs todo;
        })
    -- The status write is done.
    publish :
        (specs : List AgentDeploymentSpec)
        → s.job ≡ counting specs []
        → Step s (record s { used = compute_usage (at base s.reservations) specs; job = idle })
    remove_fresh :
        (xs ys : List AgentDeployment) (ad : AgentDeployment)
        → s.fresh ≡ xs ++ ad ∷ ys
        → Step s (record s { fresh = xs ++ ys })
    remove_counted :
        (xs ys : List AgentDeployment) (ad : AgentDeployment)
        → s.counted ≡ xs ++ ad ∷ ys
        → Step s (record s { counted = xs ++ ys })
    sweep_out : Step s (record s { reservations = sweep s.now s.reservations })
    -- The reconciliation of another TenantQuota releases the reservation of one of its agents.
    let_go :
        (key : String)
        → Step s (record s { reservations = (release (at base s.reservations) key).reservations })
    wait : (later : Time) → s.now ≤ℤ later → Step s (record s { now = later })

  pub data Reach (s : State) : State → Type 0 where
    here : Reach s s
    next : {t u : State} → Reach s t → Step t u → Reach s u

  -- A creation is judged while no reconciliation is between its list and its status write, by the
  -- use that is still the published one, and not for a key whose agent waits to be counted. An agent
  -- is stored while its reservation lives, which also stays until the agent is listed.
  abbrev pub Calm : {s t : State} → Step s t → Type 0
  Calm {s} look = Unit
  Calm {s} (judge ad ttl seen is_in) =
      (s.job ≡ idle)
      × (seen ≡ s.used)
      × InInt32 ad.spec.replicas.max
      × (contains (reservation_key ad) (keys_of s.fresh) ≡ false)
  Calm {s} (store ad member) =
      IsBacked base s.now (kept s) ad × (contains (reservation_key ad) (keys_of s.fresh) ≡ false)
  Calm {s} (list done) = Unit
  Calm {s} (release_next specs ad todo is) = Unit
  Calm {s} (publish specs is) = Unit
  Calm {s} (remove_fresh xs ys ad is) = Unit
  Calm {s} (remove_counted xs ys ad is) = Unit
  Calm {s} sweep_out = Unit
  Calm {s} (let_go key) = contains key (keys_of s.fresh) ≡ false
  Calm {s} (wait later after) = All (IsBacked base later (kept s)) s.fresh

  abbrev pub IsCalm : {s t : State} → Reach s t → Type 0
  IsCalm here = Unit
  IsCalm (next r st) = IsCalm r × Calm st
