-- ===== src/Controller/Tenants/Held.antt =====
-- Reservations that hold the room of agents which are stored but not counted yet, for one counter.
use agentrax.Prelude.{
  ℕ, ◌+◌, ℤ, pos, ◌+ℤ◌, ◌≤ℤ◌, +ℤ_parts, String, ◌≡◌, ◌∙◌, inl, inr, arith, false, none, some, List,
  [], ◌∷◌, All, contains, Distinct, Bool-cases, eq_iff, ◌==◌,
}
use agentrax.Dict.{Dict, lookup, delete, lookup-delete}
use agentrax.Api.{Time, AgentDeployment, AgentDeploymentSpec}
use agentrax.Quota.{Enforcer, expired, compute_delta}
use agentrax.Quota.Verdicts.{Reservation}
use agentrax.Quota.Inflight.{live, NonNegative, NonNegative-delete, live-delete}
use agentrax.Quota.Usage.{total, IsStored}
use agentrax.Controller.Tenants.{reservation_key}
use agentrax.Controller.Tenants.Counts.{keys_of, specs_of}

unfoldable pub delete_all : List String → Dict Reservation → Dict Reservation
delete_all [] m = m
delete_all (k ∷ ks) m = delete_all ks (delete k m)

-- The agent's reservation is the one that its admission made, and it is live.
pub record IsBacked (e : Enforcer) (now : Time) (m : Dict Reservation) (ad : AgentDeployment)
    : Type 0 where
  pub expiry : Time
  pub reserved :
      lookup (reservation_key ad) m
      ≡ some (record (compute_delta e ad.spec none) { expiry = expiry })
  pub live_at : now ≤ℤ expiry

IsBacked-delete :
    (e : Enforcer) (now : Time) (m : Dict Reservation) (k : String) (ad : AgentDeployment)
    → (reservation_key ad == k) ≡ false
    → IsBacked e now m ad
    → IsBacked e now (delete k m) ad
IsBacked-delete e now m k ad n b = record {
  expiry = b.expiry;
  reserved =
      lookup-delete k (reservation_key ad) m
      ∙ ground (arith, eq_iff (reservation_key ad) k, eq_iff k (reservation_key ad), b.reserved);
  live_at = b.live_at;
}

pub All-IsBacked-delete :
    (e : Enforcer) (now : Time) (m : Dict Reservation) (k : String) (ads : List AgentDeployment)
    → contains k (keys_of ads) ≡ false
    → All (IsBacked e now m) ads
    → All (IsBacked e now (delete k m)) ads
unfolding contains
All-IsBacked-delete e now m k [] n b = tt
All-IsBacked-delete e now m k (ad ∷ ads) n b = (
  IsBacked-delete e now m k ad (ground arith) b.0,
  All-IsBacked-delete e now m k ads (ground arith) b.1,
)

module _ (w : Reservation → ℤ) (now : Time) where
  -- A live reservation is part of the sum.
  live-taken :
      (k : String) (v : Reservation) (m : Dict Reservation)
      → lookup k m ≡ some v
      → expired now v ≡ false
      → NonNegative w m
      → w v +ℤ live w now (delete k m) ≤ℤ live w now m
  unfolding live lookup delete
  live-taken k v [] found lives h = absurd (ground arith)
  live-taken k v ((j, u) ∷ m) found lives h = elim (Bool-cases (j == k)) [
    | inl e ↦
        let is_v : u ≡ v = ground arith in
        rw (e, is_v, lives)
          (ground (
            arith,
            live-delete w now k m h.1,
            +ℤ_parts (w v) (live w now m),
            +ℤ_parts (w v) (live w now (delete k m)),
          ))
    | inr e ↦ rw e (
        ground (
          arith,
          live-taken k v m (rw e at found) lives h.1,
          +ℤ_parts (w v) (live w now (delete k m)),
          +ℤ_parts (w u) (live w now (delete k m)),
          +ℤ_parts (w v) (w u +ℤ live w now (delete k m)),
          +ℤ_parts (w u) (live w now m),
        ))
  ]

  pub live-delete_all :
      (ks : List String) (m : Dict Reservation)
      → NonNegative w m
      → live w now (delete_all ks m) ≤ℤ live w now m
  unfolding delete_all
  live-delete_all [] m h = omega arith
  live-delete_all (k ∷ ks) m h =
      omega (
        arith,
        live-delete w now k m h,
        live-delete_all ks (delete k m) (NonNegative-delete w k m h),
      )

  pub NonNegative-delete_all :
      (ks : List String) (m : Dict Reservation) → NonNegative w m → NonNegative w (delete_all ks m)
  unfolding delete_all
  NonNegative-delete_all [] m h = h
  NonNegative-delete_all (k ∷ ks) m h =
      NonNegative-delete_all ks (delete k m) (NonNegative-delete w k m h)

  -- `f` is what the reservation of an agent weighs.
  module _ (e : Enforcer) (f : AgentDeploymentSpec → ℕ)
      (weighs : (s : AgentDeploymentSpec) (t : Time)
        → IsStored s
        → w (record (compute_delta e s none) { expiry = t }) ≡ pos (f s)) where
    -- The stored agents that are not counted fit, together with the rest of the reservations, in
    -- the sum of the reservations.
    pub held :
        (ads : List AgentDeployment) (m : Dict Reservation)
        → All (λ (ad : AgentDeployment). IsStored ad.spec) ads
        → All (IsBacked e now m) ads
        → Distinct (keys_of ads)
        → NonNegative w m
        → pos (total f (specs_of ads)) +ℤ live w now (delete_all (keys_of ads) m) ≤ℤ live w now m
    unfolding total delete_all
    held [] m s b d h = omega (arith, +ℤ_parts (pos 0) (live w now m))
    held (ad ∷ ads) m s b d h =
        let k = reservation_key ad in
        let first =
          live-taken k (record (compute_delta e ad.spec none) { expiry = b.0.expiry }) m
            b.0.reserved (ground (arith, b.0.live_at)) h in
        let rest =
          held ads (delete k m) s.1 (All-IsBacked-delete e now m k ads d.0 b.1) d.1
            (NonNegative-delete w k m h) in
        let first' = rw (weighs ad.spec b.0.expiry s.0) at first in
        omega (
          arith,
          first',
          rest,
          +ℤ_parts (pos (f ad.spec)) (live w now (delete k m)),
          +ℤ_parts (pos (total f (specs_of ads)))
              (live w now (delete_all (keys_of ads) (delete k m))),
          +ℤ_parts (pos (f ad.spec + total f (specs_of ads)))
              (live w now (delete_all (keys_of ads) (delete k m))),
        )
