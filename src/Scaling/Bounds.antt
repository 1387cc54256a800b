-- ===== src/Scaling/Bounds.antt =====
-- Between the floor of the minimal replicas and the ceiling of the quota.
use agentrax.Prelude.{
  ℤ, pos, ◌+ℤ◌, ◌-ℤ◌, ◌≤ℤ◌, ◌<ℤ◌, ltb_ℤ, +ℤ_parts, -ℤ_parts, -ℤ_bounds, neg_part-eq_zero, wrap32_id,
  InInt32, ◌≡◌, ◌⊎◌, ◌↔◌, arith, Bool-cases, inl, inr, if◌then◌else◌,
}
use agentrax.Api.{AgentDeployment, AgentDeploymentSpec, TenantQuotaSpec}
use agentrax.Scaling.{build_hpa, quota_headroom, remaining}

-- The greatest replica count of the built autoscaler is the least of spec.replicas.max and the
-- headroom, raised to spec.replicas.min where that is greater; so it is never below the minimum,
-- and above the specified maximum or the headroom only where the minimum is.
pub build_hpa_bounds :
    (ad : AgentDeployment) (headroom : ℤ)
    → let h = build_hpa ad headroom in
      (h.min_replicas ≡ ad.spec.replicas.min)
      × (h.min_replicas ≤ℤ h.max_replicas)
      × ((h.max_replicas ≡ h.min_replicas)
          ⊎ ((h.max_replicas ≤ℤ ad.spec.replicas.max) × (h.max_replicas ≤ℤ headroom)))
      × ((h.max_replicas ≡ ad.spec.replicas.min)
          ⊎ ((h.max_replicas ≡ ad.spec.replicas.max) ⊎ (h.max_replicas ≡ headroom)))
unfolding build_hpa
build_hpa_bounds ad headroom = ground arith

-- What is left of the budget is the difference, cut off at 0.
remaining_lem :
    (total others : ℤ)
    → InInt32 total
    → InInt32 others
    → pos 0 ≤ℤ total
    → pos 0 ≤ℤ others
    → (x : ℤ) → (x ≤ℤ remaining total others) ↔ ((x ≤ℤ pos 0) ⊎ (others +ℤ x ≤ℤ total))
unfolding remaining
remaining_lem total others ht ho nt no' x =
    let fits = wrap32_id (total -ℤ others) (
      omega
        (arith, -ℤ_bounds total others, neg_part-eq_zero total nt, neg_part-eq_zero others no')) in
    rw fits (elim (Bool-cases (ltb_ℤ (total -ℤ others) (pos 0))) [
      | inl low ↦
          rw low
            ((λ h. inl h), (λ h. ground (arith, low, -ℤ_parts total others, +ℤ_parts others x)))
      | inr left ↦ rw left (
        (λ h. inr (omega (arith, -ℤ_parts total others, +ℤ_parts others x, h))),
        (λ h. ground (arith, left, -ℤ_parts total others, +ℤ_parts others x)),
      )
    ])

le_both : (a b x : ℤ) → x ≤ℤ b → x ≤ℤ a → x ≤ℤ (if ltb_ℤ a b then a else b)
le_both a b x p q = ground arith

-- The quota headroom is the greatest replica count that respects both ceilings: a count is at most
-- the headroom exactly if it is at most maxReplicasPerAgent and, where it is positive, fits with
-- the replicas of the other agents into maxTotalReplicas.
pub le-quota_headroom_iff :
    (tq : TenantQuotaSpec) (ad : AgentDeploymentSpec) (others x : ℤ)
    → InInt32 tq.max_total_replicas
    → InInt32 others
    → pos 0 ≤ℤ tq.max_total_replicas
    → pos 0 ≤ℤ others
    → (x ≤ℤ quota_headroom tq ad others)
      ↔ ((x ≤ℤ tq.max_replicas_per_agent) × ((x ≤ℤ pos 0) ⊎ (others +ℤ x ≤ℤ tq.max_total_replicas)))
unfolding quota_headroom
le-quota_headroom_iff tq ad others x ht ho nt no' =
    let left = remaining_lem tq.max_total_replicas others ht ho nt no' x in
    (
      (λ h. (ground arith, left.0 (ground arith))),
      (λ h.
          le_both (remaining tq.max_total_replicas others) tq.max_replicas_per_agent x h.0
            (left.1 h.1)),
    )

-- An agent whose minimal replicas fit into the quota is given an autoscaler with which the tenant
-- stays in it: at its greatest replica count the agent respects maxReplicasPerAgent, and with the
-- maxima of the other agents it respects maxTotalReplicas.
pub hpa_within_quota :
    (tq : TenantQuotaSpec) (ad : AgentDeployment) (others : ℤ)
    → InInt32 tq.max_total_replicas
    → InInt32 others
    → pos 0 ≤ℤ others
    → pos 0 <ℤ ad.spec.replicas.min
    → ad.spec.replicas.min ≤ℤ tq.max_replicas_per_agent
    → others +ℤ ad.spec.replicas.min ≤ℤ tq.max_total_replicas
    → let h = build_hpa ad (quota_headroom tq ad.spec others) in
      (h.max_replicas ≤ℤ tq.max_replicas_per_agent)
      × (others +ℤ h.max_replicas ≤ℤ tq.max_total_replicas)
hpa_within_quota tq ad others ht ho no' lo per tot =
    let nt : pos 0 ≤ℤ tq.max_total_replicas = omega (arith, +ℤ_parts others ad.spec.replicas.min) in
    let hr = quota_headroom tq ad.spec others in
    let h = build_hpa ad hr in
    let low : ad.spec.replicas.min ≤ℤ hr =
      (le-quota_headroom_iff tq ad.spec others _ ht ho nt no').1 (per, inr tot) in
    let (same, above, bounded, _) = build_hpa_bounds ad hr in
    let fits : h.max_replicas ≤ℤ hr = ground arith in
    let (p, t) = (le-quota_headroom_iff tq ad.spec others h.max_replicas ht ho nt no').0 fits in
    (p, ground arith)
