-- ===== src/Controller/Tenants/Ledger/Changes.antt =====
-- Agents that leave, and what admissions and sweeps keep of the reservations.
use agentrax.Prelude.{
  ℕ, ◌≤◌, String, ◌≡◌, ◌∙◌, arith, false, none, some, List, [], ◌∷◌, ◌++◌, All, contains, Distinct,
  eq_iff,
}
use agentrax.Dict.{Dict, lookup}
use agentrax.Api.{
  Time, Duration, AgentDeployment, AgentDeploymentSpec, TenantQuotaSpec, TenantQuotaStatus,
}
use agentrax.Quota.{Enforcer, expired, sweep, admit_and_reserve}
use agentrax.Quota.Verdicts.{Reservation}
use agentrax.Quota.Admission.{admit_and_reserve-can_admit}
use agentrax.Quota.Room.{IsSafe}
use agentrax.Quota.Usage.{total}
use agentrax.Controller.Tenants.{reservation_key}
use agentrax.Controller.Tenants.Counts.{keys_of, specs_of}
use agentrax.Controller.Tenants.Held.{IsBacked}
use agentrax.Controller.Tenants.Ledger.{State, at}

contains_remove :
    (k : String) (xs ys : List AgentDeployment) (ad : AgentDeployment)
    → contains k (keys_of (xs ++ ad ∷ ys)) ≡ false
    → contains k (keys_of (xs ++ ys)) ≡ false
unfolding contains
contains_remove k [] ys ad h = ground arith
contains_remove k (x ∷ xs) ys ad h = ground (arith, contains_remove k xs ys ad)

pub Distinct-remove :
    (xs ys : List AgentDeployment) (ad : AgentDeployment)
    → Distinct (keys_of (xs ++ ad ∷ ys))
    → Distinct (keys_of (xs ++ ys))
Distinct-remove [] ys ad h = h.1
Distinct-remove (x ∷ xs) ys ad h =
    (contains_remove (reservation_key x) xs ys ad h.0, Distinct-remove xs ys ad h.1)

pub total-remove :
    (f : AgentDeploymentSpec → ℕ) (xs ys : List AgentDeployment) (ad : AgentDeployment)
    → total f (specs_of (xs ++ ys)) ≤ total f (specs_of (xs ++ ad ∷ ys))
unfolding total
total-remove f [] ys ad = omega arith
total-remove f (x ∷ xs) ys ad = omega (arith, total-remove f xs ys ad)

-- Entries that have not expired stay.
lookup-sweep :
    (now : Time) (k : String) (v : Reservation) (m : Dict Reservation)
    → lookup k m ≡ some v
    → expired now v ≡ false
    → lookup k (sweep now m) ≡ some v
unfolding lookup sweep
lookup-sweep now k v [] h lives = h
lookup-sweep now k v ((j, u) ∷ m) h lives = ground (arith, lookup-sweep now k v m)

pub IsSafe-at :
    (q : TenantQuotaSpec) (used : TenantQuotaStatus) (now : Time) (base e : Enforcer)
    → IsSafe q used now e
    → IsSafe q used now (at base e.reservations)
IsSafe-at q used now base e h = record { agents = h.agents; gpus = h.gpus; replicas = h.replicas }

module _ (base : Enforcer) (q : TenantQuotaSpec) where
  -- The agents that are not stored yet keep the reservations of the others.
  pub IsBacked-admitted :
      (s : State) (ad : AgentDeployment) (ttl : Duration) (ads : List AgentDeployment)
      → contains (reservation_key ad) (keys_of ads) ≡ false
      → All (IsBacked base s.now s.reservations) ads
      → All
          (IsBacked base s.now
            (admit_and_reserve
              (at base s.reservations)
              s.now
              (reservation_key ad)
              q
              s.used
              ad.spec
              none
              ttl).0.reservations)
          ads
  unfolding contains
  IsBacked-admitted s ad ttl [] n b = tt
  IsBacked-admitted s ad ttl (x ∷ xs) n b =
      let k = reservation_key ad in
      let j = reservation_key x in
      let (verdict, looked) =
        admit_and_reserve-can_admit (at base s.reservations) s.now k q s.used ad.spec none ttl j in
      (
        record {
          expiry = b.0.expiry;
          reserved = looked ∙ ground (arith, eq_iff k j, eq_iff j k, b.0.reserved);
          live_at = b.0.live_at;
        },
        IsBacked-admitted s ad ttl xs (ground arith) b.1,
      )

  pub IsBacked-swept :
      (s : State) (ads : List AgentDeployment)
      → All (IsBacked base s.now s.reservations) ads
      → All (IsBacked base s.now (sweep s.now s.reservations)) ads
  IsBacked-swept s [] b = tt
  IsBacked-swept s (x ∷ xs) b = (
    record {
      expiry = b.0.expiry;
      reserved =
          lookup-sweep s.now (reservation_key x) _ s.reservations b.0.reserved
            (ground (arith, b.0.live_at));
      live_at = b.0.live_at;
    },
    IsBacked-swept s xs b.1,
  )
