-- ===== src/Quota/Gpus.antt =====
-- gpusForAD: a product that saturates.
use Prim.Native.Nat.{min}
use agentrax.Prelude.{
  ℕ, zero, suc, ◌*◌, ◌/◌, ◌≤◌, ◌<◌, ℤ, pos, negsuc, ◌*ℤ◌, ◌≤ℤ◌, ◌<ℤ◌, ◌⊎◌, wrap32, wrap64,
  wrap64_id, wrap32_id, InInt32, max_int32, ltb, ◌≡◌, arith, inl, inr, Bool-cases, if◌then◌else◌,
  ◌&&◌, ltb_ℤ, ◌∙◌,
}
use agentrax.Api.{AgentDeploymentSpec}
use agentrax.Quota.{Enforcer, gpus_total, gpus_for_ad, extract_gpus}

-- The product of two naturals, as integers.
pos-mul : (p m : ℕ) → pos p *ℤ pos m ≡ pos (p * m)
unfolding ◌*ℤ◌
pos-mul p m = ground arith

mul-le_of_le-div : (p m n : ℕ) → 0 < p → m ≤ n / p → p * m ≤ n
mul-le_of_le-div p m n h k = grind arith

lt-mul_of_div-lt : (p m n : ℕ) → 0 < p → n / p < m → n < p * m
lt-mul_of_div-lt p m n h k = grind arith

-- The last two branches, at a product that fits an int64.
saturate : ℕ → ℤ
saturate t = if ltb_ℤ max_int32 (wrap64 (pos t)) then max_int32 else wrap32 (wrap64 (pos t))

saturate_lem : (t : ℕ) → t ≤ 9223372036854775807 → saturate t ≡ pos (min t 2147483647)
unfolding saturate
saturate_lem t h = rw (wrap64_id (pos t) (h, omega arith)) (elim (Bool-cases (ltb 2147483647 t)) [
  | inl over ↦ ground (arith, over)
  | inr fits ↦ ground (arith, wrap32_id (pos t))
])

gpus_total-pos :
    (p m : ℕ)
    → gpus_total (pos p) (pos m)
      ≡ (if ltb 0 p && ltb (9223372036854775807 / p) m then max_int32 else saturate (p * m))
unfolding gpus_total saturate
gpus_total-pos p m = rw (pos-mul p m) (ground arith)

-- For non-negative inputs, the GPUs of a deployment are GPUs per replica times maximal replicas,
-- computed without a wrap and cut off at the greatest int32.
pub gpus_total-eq-min :
    (p m : ℕ) → m ≤ 2147483647 → gpus_total (pos p) (pos m) ≡ pos (min (p * m) 2147483647)
gpus_total-eq-min zero m h = gpus_total-pos 0 m ∙ ground (arith, saturate_lem (0 * m))
gpus_total-eq-min (suc p) m h =
    gpus_total-pos (suc p) m ∙ elim (Bool-cases (ltb (9223372036854775807 / suc p) m)) [
      | inl over ↦ ground (arith, lt-mul_of_div-lt (suc p) m 9223372036854775807)
      | inr fits ↦
          ground (arith, saturate_lem (suc p * m), mul-le_of_le-div (suc p) m 9223372036854775807)
    ]

-- A negative GPU quantity or replica count is counted as the greatest int32, so it fails closed.
pub gpus_total_negative :
    (per_replica max : ℤ)
    → (per_replica <ℤ pos 0) ⊎ (max <ℤ pos 0)
    → gpus_total per_replica max ≡ max_int32
unfolding gpus_total
gpus_total_negative per_replica max h = ground arith

bounds :
    (per_replica max : ℤ)
    → InInt32 max
    → (pos 0 ≤ℤ gpus_total per_replica max) × (gpus_total per_replica max ≤ℤ max_int32)
bounds (pos p) (pos m) h = rw (gpus_total-eq-min p m h.0) (omega arith, omega arith)
bounds (pos p) (negsuc m) h =
    rw (gpus_total_negative (pos p) (negsuc m) (inr (omega arith))) (omega arith, omega arith)
bounds (negsuc p) max h =
    rw (gpus_total_negative (negsuc p) max (inl (omega arith))) (omega arith, omega arith)

-- What gpusForAD counts is never negative and always an int32.
pub gpus_for_ad_bounds :
    (e : Enforcer) (ad : AgentDeploymentSpec)
    → InInt32 ad.replicas.max
    → (pos 0 ≤ℤ gpus_for_ad e ad) × (gpus_for_ad e ad ≤ℤ max_int32)
unfolding gpus_for_ad
gpus_for_ad_bounds e ad h = bounds (extract_gpus e ad.resources) ad.replicas.max h
