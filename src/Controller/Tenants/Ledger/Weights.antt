-- ===== src/Controller/Tenants/Ledger/Weights.antt =====
-- One counter of the quota system: its limit bounds what is stored, and a count leaves it room.
use agentrax.Prelude.{
  ℕ, ◌+◌, ℤ, pos, ◌+ℤ◌, ◌≤ℤ◌, +ℤ_parts, String, ◌≡◌, refl, ap, arith, true, none, List, [], ◌∷◌,
  ◌++◌, length, All, Distinct, ◌==◌,
}
use agentrax.Dict.{Dict, delete}
use agentrax.Api.{Time, AgentDeployment, AgentDeploymentSpec}
use agentrax.Quota.{Enforcer, compute_delta, release}
use agentrax.Quota.Verdicts.{Reservation}
use agentrax.Quota.Gpus.{gpus_for_ad_bounds}
use agentrax.Quota.Inflight.{live, live_nonneg}
use agentrax.Quota.Room.{HasRoom}
use agentrax.Quota.Usage.{total, max_of, gpus_of, IsStored}
use agentrax.Controller.Tenants.{reservation_key, collect}
use agentrax.Controller.Tenants.Counts.{keys_of, specs_of, of_tenant}
use agentrax.Controller.Tenants.Held.{
  IsBacked, delete_all, held, live-delete_all, NonNegative-delete_all,
}

-- Every agent counts for one.
abbrev pub one : AgentDeploymentSpec → ℕ
one s = 1

pub total-append :
    (f : AgentDeploymentSpec → ℕ) (xs ys : List AgentDeployment)
    → total f (specs_of (xs ++ ys)) ≡ total f (specs_of xs) + total f (specs_of ys)
unfolding total
total-append f [] ys = omega arith
total-append f (x ∷ xs) ys = omega (arith, total-append f xs ys)

pub total-one : (xs : List AgentDeployment) → total one (specs_of xs) ≡ length (specs_of xs)
unfolding total
total-one [] = refl
total-one (x ∷ xs) = omega (arith, total-one xs)

delete_all-append :
    (xs ys : List AgentDeployment) (m : Dict Reservation)
    → delete_all (keys_of (xs ++ ys)) m ≡ delete_all (keys_of ys) (delete_all (keys_of xs) m)
unfolding delete_all
delete_all-append [] ys m = refl
delete_all-append (x ∷ xs) ys m = delete_all-append xs ys (delete (reservation_key x) m)

-- A list of the tenant's agents is collected as a whole.
pub collect-members :
    (e : Enforcer) (tenant : String) (ads : List AgentDeployment)
    → All (λ (ad : AgentDeployment). (ad.spec.tenant_ref == tenant) ≡ true) ads
    → ((collect e tenant ads).0
        ≡ record e { reservations = delete_all (keys_of ads) e.reservations })
      × (of_tenant tenant ads ≡ ads)
unfolding collect of_tenant delete_all release
collect-members e tenant [] h = (refl, refl)
collect-members e tenant (ad ∷ ads) h =
    let (gone, same) = collect-members (release e (reservation_key ad)) tenant ads h.1 in
    rw h.0 (gone, ap (λ l. ad ∷ l) same)

module _ (e : Enforcer) (s : AgentDeploymentSpec) (t : Time) (valid : IsStored s) where
  abbrev made : Reservation
  made = record (compute_delta e s none) { expiry = t }

  pub weighs_agents : made.agents ≡ pos (one s)
  unfolding compute_delta
  weighs_agents = refl

  pub weighs_gpus : made.gpus ≡ pos (gpus_of e s)
  unfolding compute_delta
  weighs_gpus = ground (arith, gpus_for_ad_bounds e s valid.0)

  pub weighs_replicas : made.replicas ≡ pos (max_of s)
  unfolding compute_delta
  weighs_replicas = ground (arith, valid.1)

module _ (e : Enforcer) (w : Reservation → ℤ) (f : AgentDeploymentSpec → ℕ)
    (weighs : (s : AgentDeploymentSpec) (t : Time)
      → IsStored s
      → w (record (compute_delta e s none) { expiry = t }) ≡ pos (f s))
    (limit used : ℤ) (now : Time) (m : Dict Reservation) (fresh counted : List AgentDeployment)
    (room : HasRoom w limit used now m) (covers : pos (total f (specs_of counted)) ≤ℤ used)
    (valid : All (λ (ad : AgentDeployment). IsStored ad.spec) fresh)
    (backed : All (IsBacked e now m) fresh) (distinct : Distinct (keys_of fresh)) where
  -- The stored agents and the reservations that a count leaves fit in the limit.
  counted_room :
      pos (total f (specs_of (fresh ++ counted)))
        +ℤ live w now (delete_all (keys_of (fresh ++ counted)) m)
      ≤ℤ limit
  counted_room =
      let left = delete_all (keys_of fresh) m in
      rw (total-append f fresh counted, delete_all-append fresh counted m)
        (omega (
          arith,
          room.room,
          covers,
          held w now e f weighs fresh m valid backed distinct room.nonneg,
          live-delete_all w now (keys_of counted) left
              (NonNegative-delete_all w now (keys_of fresh) m room.nonneg),
          +ℤ_parts used (live w now m),
          +ℤ_parts (pos (total f (specs_of fresh))) (live w now left),
          +ℤ_parts (pos (total f (specs_of fresh) + total f (specs_of counted)))
              (live w now (delete_all (keys_of counted) left)),
        ))

  pub HasRoom-counted :
      HasRoom w limit
        (pos (total f (specs_of (fresh ++ counted))))
        now
        (delete_all (keys_of (fresh ++ counted)) m)
  HasRoom-counted = record {
    nonneg = NonNegative-delete_all w now (keys_of (fresh ++ counted)) m room.nonneg;
    room = counted_room;
  }

  -- What is stored is within the limit.
  pub total-le-limit : pos (total f (specs_of (fresh ++ counted))) ≤ℤ limit
  total-le-limit = omega (
    arith,
    counted_room,
    live_nonneg w now (delete_all (keys_of (fresh ++ counted)) m) HasRoom-counted.nonneg,
    +ℤ_parts (pos (total f (specs_of (fresh ++ counted))))
        (live w now (delete_all (keys_of (fresh ++ counted)) m)),
  )
