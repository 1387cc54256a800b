-- ===== src/Controller/Children/Headroom.antt =====
-- The HPA that reconcileHPA writes, against the tenant's ceilings.
use agentrax.Prelude.{
  ℕ, ◌+◌, ◌≤◌, ℤ, pos, ◌+ℤ◌, ◌≤ℤ◌, ◌<ℤ◌, InInt32, String, ◌≡◌, refl, sym, ap, ◌∙◌, inl, inr, arith,
  Bool, true, false, not, ◌&&◌, Bool-cases, All, none, some, List, [], ◌∷◌, ◌==◌, if◌then◌else◌,
}
use native.Mathlib.Nat.{add_assoc}
use agentrax.Api.{AgentDeployment, TenantQuota}
use agentrax.Scaling.{Hpa, build_hpa, quota_headroom, is_quota_capped}
use agentrax.Scaling.Bounds.{hpa_within_quota}
use agentrax.Quota.Usage.{total, max_of, IsStored, add32-pos}
use agentrax.Rollout.Cluster.{
  Api, History, agents, autoscalers, tenant_quotas, Answer, done, not_found, failed, object, read,
  list_call, write_hpa, ok, continue, pure, fail, ◌>>=◌, get, store, must, list_items, need_list,
  answer_of,
}
use agentrax.Rollout.Cluster.Runs.{Recorded, bind-ok}
use agentrax.Rollout.Resources.{mutate_hpa}
use agentrax.Rollout.Canary.{Requeue}
use agentrax.Controller.Objects.{in_rollout}
use agentrax.Controller.Children.{
  QuotaState, capped, uncapped, is_terminating, counts_for_others, sum_others,
  replicas_used_by_other_agents, write_capped_hpa, hpa_quota_read, reconcile_hpa,
}
use agentrax.Controller.Tenants.Counts.{specs_of}

-- Another agent of the same tenant that is not being deleted.
is_other : AgentDeployment → AgentDeployment → Bool
is_other ad other =
    other.spec.tenant_ref == ad.spec.tenant_ref
    && not (other.name == ad.name && other.namespace == ad.namespace)
    && not (is_terminating other.deletion_timestamp)

unfoldable pub others_of : AgentDeployment → List AgentDeployment → List AgentDeployment
unfolding is_other is_terminating
others_of ad [] = []
others_of ad (other ∷ items) =
    let rest = others_of ad items in if is_other ad other then other ∷ rest else rest

counts-is_other : (ad other : AgentDeployment) → counts_for_others ad other ≡ is_other ad other
unfolding counts_for_others is_other
counts-is_other ad other = ground arith

-- What replicasUsedByOtherAgents sums, without a wrap.
sum_others_exact :
    (ad : AgentDeployment) (n : ℕ) (items : List AgentDeployment)
    → All (λ (other : AgentDeployment). IsStored other.spec) items
    → n + total max_of (specs_of (others_of ad items)) ≤ 2147483647
    → sum_others ad (pos n) items ≡ pos (n + total max_of (specs_of (others_of ad items)))
unfolding sum_others others_of total
sum_others_exact ad n [] h b = ap pos (omega arith)
sum_others_exact ad n (other ∷ items) h b = elim (Bool-cases (is_other ad other)) [
  | inl counts ↦
      let b' : n + (max_of other.spec + total max_of (specs_of (others_of ad items))) ≤ 2147483647 =
        rw counts at b in
      rw (counts-is_other ad other, counts)
        (ap (λ t. sum_others ad t items)
            (add32-pos (pos n) other.spec.replicas.max n refl h.0.1 (omega arith))
          ∙ sum_others_exact ad (n + max_of other.spec) items h.1 (omega arith)
          ∙ ap pos (add_assoc n (max_of other.spec) _))
  | inr skips ↦
      rw (counts-is_other ad other, skips) (sum_others_exact ad n items h.1 (rw skips at b))
]

must-ok :
    (message : String) (a : Answer) (u : Unit {0}) (api : Api) (h h' : History)
    → must message a api h ≡ (ok u, h')
    → (a ≡ done) × (h' ≡ h)
unfolding must pure fail
must-ok message done u api h h' e = (refl, sym (ap (λ p. p.1) e))
must-ok message not_found u api h h' e = absurd (ground (arith, ap (λ p. p.0) e))
must-ok message failed u api h h' e = absurd (ground (arith, ap (λ p. p.0) e))

write_capped_hpa-ok :
    (ad : AgentDeployment) (n : ℤ) (p : Requeue × QuotaState) (api : Api) (h h' : History)
    → write_capped_hpa ad n api h ≡ (ok p, h')
    → (existing : Hpa) × Recorded (write_hpa (mutate_hpa (build_hpa ad n) existing) done) h'
      × (p ≡ (none, if is_quota_capped ad n then capped else uncapped))
unfolding write_capped_hpa pure store
write_capped_hpa-ok ad n p api h h' e =
    let (u, h1, r1, e1) = bind-ok _ _ p api h h' e in
    let (reply, h2, r2, e2) = bind-ok _ _ p api h1 h' e1 in
    let (existing, h3, r3, e3) = bind-ok _ _ p api h2 h' e2 in
    let (v, h4, r4, e4) = bind-ok _ _ p api h3 h' e3 in
    let (stored, h5, r5, e5) = bind-ok _ _ p api h4 h' e4 in
    let (w, h6, r6, e6) = bind-ok _ _ p api h5 h' e5 in
    let (is_done, same) = must-ok "creating/updating HPA" stored w api h5 h6 r6 in
    let call = mutate_hpa (build_hpa ad n) existing in
    let put : h5 ≡ write_hpa call (api.store h4 autoscalers) ∷ h4 = sym (ap (λ q. q.1) r5) in
    let was : api.store h4 autoscalers ≡ done = ground (arith, ap (λ q. q.0) r5) in
    (
      existing,
      rw (sym (ap (λ q. q.1) e6), same, put, was) (inl refl),
      ground (arith, ap (λ q. q.0) e6),
    )

module _ (ad : AgentDeployment) (tq : TenantQuota) (items : List AgentDeployment) (api : Api)
    (h : History) where
  abbrev pub quota_read : History
  quota_read = read tenant_quotas ad.namespace ad.spec.tenant_ref done ∷ h

  abbrev pub used_by_others : ℕ
  used_by_others = total max_of (specs_of (others_of ad items))

  -- The reads of a reconciliation outside a rollout, in a namespace of stored agents whose replicas
  -- fit an int32.
  pub record IsCounted : Type 0 where
    pub idle : in_rollout ad.status.phase ≡ false
    pub quota : api.tenant_quota h ad.namespace ad.spec.tenant_ref ≡ object tq
    pub listed : api.agent_list quota_read ad.namespace ≡ some items
    pub valid : All (λ (other : AgentDeployment). IsStored other.spec) items
    pub small : used_by_others ≤ 2147483647

  hpa_run :
      IsCounted
      → reconcile_hpa ad api h
        ≡ write_capped_hpa ad
            (quota_headroom tq.spec ad.spec (pos used_by_others))
            api
            (list_call agents ad.namespace true ∷ quota_read)
  unfolding reconcile_hpa hpa_quota_read replicas_used_by_other_agents get list_items need_list pure
      ◌>>=◌ continue answer_of
  hpa_run c =
      rw (c.idle, c.quota, hpa_quota_read, c.listed)
        (ap
          (λ n.
            write_capped_hpa ad (quota_headroom tq.spec ad.spec n) api
              (list_call agents ad.namespace true ∷ quota_read))
          (sum_others_exact ad 0 items c.valid (omega (arith, c.small)) ∙ ap pos (omega arith)))

  -- Outside a rollout, if the quota and the tenant's stored agents are read and an agent's minimum
  -- fits in the tenant's ceilings together with the maxima of the other agents that are not being
  -- deleted: when reconcileHPA succeeds, it has written an HPA whose maximum is within the
  -- per-agent ceiling, and with the others' maxima within the tenant's total; it asks for no
  -- requeue, and reports the quota as limiting exactly if the spec's maximum exceeds the headroom.
  pub reconcile_hpa-within :
      (h' : History) (requeue : Requeue) (qs : QuotaState)
      → IsCounted
      → InInt32 tq.spec.max_total_replicas
      → pos 0 <ℤ ad.spec.replicas.min
      → ad.spec.replicas.min ≤ℤ tq.spec.max_replicas_per_agent
      → pos used_by_others +ℤ ad.spec.replicas.min ≤ℤ tq.spec.max_total_replicas
      → reconcile_hpa ad api h ≡ (ok (requeue, qs), h')
      → (hpa : Hpa) × Recorded (write_hpa hpa done) h'
        × (hpa.max_replicas ≤ℤ tq.spec.max_replicas_per_agent)
        × (pos used_by_others +ℤ hpa.max_replicas ≤ℤ tq.spec.max_total_replicas)
        × (requeue ≡ none)
        × (qs ≡ (
            if is_quota_capped ad (quota_headroom tq.spec ad.spec (pos used_by_others))
            then capped
            else uncapped))
  unfolding mutate_hpa
  reconcile_hpa-within h' requeue qs c int32 lo per tot e =
      let (existing, recorded, result) =
        write_capped_hpa-ok ad (quota_headroom tq.spec ad.spec (pos used_by_others)) (requeue, qs)
          api _ h' (sym (hpa_run c) ∙ e) in
      let (within, fits) =
        hpa_within_quota tq.spec ad (pos used_by_others) int32 (omega (arith, c.small))
          (omega arith) lo per tot in
      (_, recorded, within, fits, ap (λ p. p.0) result, ap (λ p. p.1) result)
