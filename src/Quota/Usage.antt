-- ===== src/Quota/Usage.antt =====
-- ComputeUsage and IsOverQuota, the arithmetic of the TenantQuota reconciler.
use agentrax.Prelude.{
  ℕ, ◌+◌, ◌≤◌, ℤ, pos, pos_part, ◌+ℤ◌, ◌≤ℤ◌, wrap32, add32, InInt32, length, All, ◌≡◌, ◌∙◌, ap,
  refl, ◌↔◌, List, [], ◌∷◌, arith, none,
}
use native.Mathlib.Nat.{add_assoc}
use agentrax.Api.{AgentDeploymentSpec, TenantQuotaSpec, TenantQuotaStatus}
use agentrax.Quota.{
  Enforcer, extract_gpus, gpus_for_ad, zero_status, compute_usage_from, compute_usage,
}
use agentrax.Quota.Verdicts.{Reservation, is_over_quota}
use agentrax.Dict.{Dict}
use agentrax.Quota.Gpus.{gpus_for_ad_bounds}

unfoldable pub total : (AgentDeploymentSpec → ℕ) → List AgentDeploymentSpec → ℕ
total f [] = 0
total f (ad ∷ ads) = f ad + total f ads

abbrev pub max_of : AgentDeploymentSpec → ℕ
max_of ad = pos_part ad.replicas.max

abbrev pub gpus_of : Enforcer → AgentDeploymentSpec → ℕ
gpus_of e ad = pos_part (gpus_for_ad e ad)

-- What the API server's validation gives of a stored deployment.
abbrev pub IsStored : AgentDeploymentSpec → Type 0
IsStored ad = InInt32 ad.replicas.max × (pos 0 ≤ℤ ad.replicas.max)

pub add32-pos :
    (x y : ℤ) (m : ℕ)
    → x ≡ pos m
    → pos 0 ≤ℤ y
    → m + pos_part y ≤ 2147483647
    → add32 x y ≡ pos (m + pos_part y)
unfolding ◌+ℤ◌ wrap32
add32-pos x y m e n h = rw e (ground arith)

-- The count does not read the reservations.
usage_from-at :
    (e : Enforcer) (m : Dict Reservation) (ads : List AgentDeploymentSpec) (s : TenantQuotaStatus)
    → compute_usage_from (record e { reservations = m }) s ads ≡ compute_usage_from e s ads
unfolding compute_usage_from gpus_for_ad extract_gpus
usage_from-at e m [] s = refl
usage_from-at e m (ad ∷ ads) s = usage_from-at e m ads _

pub compute_usage-at :
    (e : Enforcer) (m : Dict Reservation) (ads : List AgentDeploymentSpec)
    → compute_usage (record e { reservations = m }) ads ≡ compute_usage e ads
unfolding compute_usage
compute_usage-at e m ads = usage_from-at e m ads zero_status

module _ (e : Enforcer) where
  usage_from :
      (s : TenantQuotaStatus) (a g r : ℕ) (ads : List AgentDeploymentSpec)
      → All IsStored ads
      → s.used_agents ≡ pos a
      → s.used_gpus ≡ pos g
      → s.used_total_replicas ≡ pos r
      → a + length ads ≤ 2147483647
      → g + total (gpus_of e) ads ≤ 2147483647
      → r + total max_of ads ≤ 2147483647
      → let u = compute_usage_from e s ads in
        (u.used_agents ≡ pos (a + length ads))
        × (u.used_gpus ≡ pos (g + total (gpus_of e) ads))
        × (u.used_total_replicas ≡ pos (r + total max_of ads))
  unfolding compute_usage_from total
  usage_from s a g r [] h ea eg er ba bg br = ground arith
  usage_from s a g r (ad ∷ ads) h ea eg er ba bg br =
      let (count, gpus, replicas) =
        usage_from
          (record s {
            used_agents = add32 s.used_agents (pos 1);
            used_total_replicas = add32 s.used_total_replicas ad.replicas.max;
            used_gpus = add32 s.used_gpus (gpus_for_ad e ad);
          })
          (a + 1) (g + gpus_of e ad) (r + max_of ad) ads h.1
          (add32-pos s.used_agents (pos 1) a ea (omega arith) (omega arith))
          (add32-pos s.used_gpus (gpus_for_ad e ad) g eg (gpus_for_ad_bounds e ad h.0.0).0
            (omega arith))
          (add32-pos s.used_total_replicas ad.replicas.max r er h.0.1 (omega arith)) (omega arith)
          (omega arith) (omega arith) in
      (
        count ∙ ap pos (omega arith),
        gpus ∙ ap pos (add_assoc g (gpus_of e ad) (total (gpus_of e) ads)),
        replicas ∙ ap pos (add_assoc r (max_of ad) (total max_of ads)),
      )

  -- For stored deployments whose totals fit an int32, ComputeUsage counts the deployments, and sums
  -- their GPUs and maximal replicas, exactly.
  pub compute_usage_exact :
      (ads : List AgentDeploymentSpec)
      → All IsStored ads
      → length ads ≤ 2147483647
      → total (gpus_of e) ads ≤ 2147483647
      → total max_of ads ≤ 2147483647
      → let u = compute_usage e ads in
        (u.used_agents ≡ pos (length ads))
        × (u.used_gpus ≡ pos (total (gpus_of e) ads))
        × (u.used_total_replicas ≡ pos (total max_of ads))
  unfolding compute_usage
  compute_usage_exact ads h a g r =
      let (count, gpus, replicas) =
        usage_from zero_status 0 0 0 ads h refl refl refl (omega arith) (omega arith)
          (omega arith) in
      (count ∙ ap pos (omega arith), gpus ∙ ap pos (omega arith), replicas ∙ ap pos (omega arith))

-- IsOverQuota reports nothing exactly if agents, GPUs and total replicas are within their ceilings.
pub is_over_quota-none_iff :
    (q : TenantQuotaSpec) (u : TenantQuotaStatus)
    → (is_over_quota q u ≡ none) ↔ (
        (u.used_agents ≤ℤ q.max_agents)
        × (u.used_gpus ≤ℤ q.max_gpus)
        × (u.used_total_replicas ≤ℤ q.max_total_replicas))
unfolding is_over_quota
is_over_quota-none_iff q u = (λ h. ground arith, λ h. ground arith)
