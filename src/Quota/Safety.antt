-- ===== src/Quota/Safety.antt =====
-- Admitted creates stay in the quota, whatever the order in which requests come.
use agentrax.Prelude.{
  ℤ, pos, ◌+ℤ◌, ◌≤ℤ◌, ltb_ℤ, neg_part-eq_zero, InInt32, max_int32, String, ◌≡◌, refl, ◌∙◌, ap, ◌⊎◌,
  ◌≢◌, arith, false, Bool, Bool-cases, inl, inr, Option, none, some,
}
use agentrax.Dict.{insert}
use agentrax.Api.{Time, Duration, AgentDeploymentSpec, TenantQuotaSpec, TenantQuotaStatus}
use agentrax.Quota.{
  Enforcer, extract_gpus, sum_inflight, sweep_expired, release, can_admit, gpus_for_ad,
  no_reservation, compute_delta, same_tenant_update, old_max, admit_and_reserve,
}
use agentrax.Quota.Verdicts.{Reservation, Verdict, Denial, admitted, denied}
use agentrax.Quota.Gpus.{gpus_total_negative, gpus_for_ad_bounds}
use agentrax.Quota.Rules.{Within, IsAdmissible, eval_quota_rules-IsAdmissible}
use agentrax.Quota.Inflight.{IsCounter}
use agentrax.Quota.Room.{
  HasRoom, IsSafe, IsSetting, others, kept, HasRoom-delete, HasRoom-sweep, HasRoom-later, counters,
}
use agentrax.Quota.Admission.{reservation, admitted_state, denied_state}

-- The delta of a request that is no update within its tenant.
delta_full :
    (e : Enforcer) (r : AgentDeploymentSpec) (old : Option AgentDeploymentSpec)
    → same_tenant_update r old ≡ false
    → ((compute_delta e r old).agents ≡ pos 1)
      × ((compute_delta e r old).gpus ≡ gpus_for_ad e r)
      × ((compute_delta e r old).replicas ≡ r.replicas.max)
unfolding compute_delta same_tenant_update
delta_full e r none h = (refl, refl, refl)
delta_full e r (some old) h = rw h (refl, refl, refl)

-- A negative replica count is caught by the GPU sentinel.
replicas_nonneg :
    (e : Enforcer) (r : AgentDeploymentSpec) → gpus_for_ad e r ≢ max_int32 → pos 0 ≤ℤ r.replicas.max
unfolding gpus_for_ad
replicas_nonneg e r h = elim (Bool-cases (ltb_ℤ r.replicas.max (pos 0))) [
  | inl low ↦
      absurd
        (h (gpus_total_negative (extract_gpus e r.resources) r.replicas.max (inr (ground arith))))
  | inr fine ↦ ground arith
]

-- What a create needs of one counter.
fits_of_Within :
    (limit a f g c : ℤ) (u : Bool) → u ≡ false → f ≡ g → Within limit a f c u → a +ℤ g +ℤ c ≤ℤ limit
fits_of_Within limit a f g c u n e h = ground (arith, ap (λ (x : ℤ). a +ℤ x +ℤ c) e)

Verdict-cases : (v : Verdict) → (v ≡ admitted) ⊎ ((d : Denial) × (v ≡ denied d))
Verdict-cases admitted = inl refl
Verdict-cases (denied d) = inr (d, refl)

module _ (e : Enforcer) (now : Time) (key : String) (q : TenantQuotaSpec) (used : TenantQuotaStatus)
    (r : AgentDeploymentSpec) (old : Option AgentDeploymentSpec) (ttl : Duration) where
  module _ (set : IsSetting q used) (small : InInt32 r.replicas.max)
      (fresh : same_tenant_update r old ≡ false) (safe : IsSafe q used now e) where
    admissible :
        can_admit e now key q used r old ≡ admitted
        → IsAdmissible q used
            (sum_inflight e key now)
            (compute_delta e r old)
            r.replicas.max
            (same_tenant_update r old)
            (old_max old)
    unfolding can_admit
    admissible ok =
        let (ca, cg, cr) = counters in
        let d = delta_full e r old fresh in
        let a =
          others (λ v. v.agents) ca q.max_agents used.used_agents now key e refl set.limits.0
            set.counts.0 safe.agents in
        let g =
          others (λ v. v.gpus) cg q.max_gpus used.used_gpus now key e refl set.limits.1 set.counts.1
            safe.gpus in
        let p =
          others (λ v. v.replicas) cr q.max_total_replicas used.used_total_replicas now key e refl
            set.limits.2 set.counts.2 safe.replicas in
        (eval_quota_rules-IsAdmissible q used (sum_inflight e key now) (compute_delta e r old)
            r.replicas.max (same_tenant_update r old) (old_max old)
            (record {
              used_agents = a.2;
              used_gpus = g.2;
              used_replicas = p.2;
              flight_agents = a.1;
              flight_gpus = g.1;
              flight_replicas = p.1;
              delta_agents = rw d.0 (omega arith);
              delta_gpus = rw d.1 (
                  omega (
                    arith,
                    gpus_for_ad_bounds e r small,
                    neg_part-eq_zero (gpus_for_ad e r) (gpus_for_ad_bounds e r small).0,
                  ));
              delta_replicas = rw d.2 small;
            })).0
          ok

    keep :
        (w : Reservation → ℤ) (counter : IsCounter w) (limit committed : ℤ)
        → w no_reservation ≡ pos 0
        → limit ≤ℤ max_int32
        → pos 0 ≤ℤ committed
        → HasRoom w limit committed now e.reservations
        → pos 0 ≤ℤ w (reservation e now key q used r old ttl)
        → Within limit committed
            (w (sum_inflight e key now))
            (w (reservation e now key q used r old ttl))
            (same_tenant_update r old)
        → HasRoom w limit committed now
            (insert key (reservation e now key q used r old ttl) e.reservations)
    keep w counter limit committed zero l c h p fits =
        kept w counter limit committed now key _ e.reservations h.nonneg p (
          fits_of_Within limit committed _ _ _ _ fresh
            (others w counter limit committed now key e zero l c h).0 fits)

    admitted_room :
        can_admit e now key q used r old ≡ admitted
        → IsSafe q used now (admit_and_reserve e now key q used r old ttl).0
    admitted_room ok =
        let adm = admissible ok in
        let (ca, cg, cr) = counters in
        let d = delta_full e r old fresh in
        let many : gpus_for_ad e r ≢ max_int32 = λ h. adm.counted (d.1 ∙ h) in
        rw (admitted_state e now key q used r old ttl ok) (record {
          agents =
              keep (λ v. v.agents) ca q.max_agents used.used_agents refl set.limits.0 set.counts.0
                safe.agents (rw d.0 (omega arith)) adm.agents;
          gpus =
              keep (λ v. v.gpus) cg q.max_gpus used.used_gpus refl set.limits.1 set.counts.1
                safe.gpus (rw d.1 (gpus_for_ad_bounds e r small).0) adm.gpus;
          replicas =
              keep (λ v. v.replicas) cr q.max_total_replicas used.used_total_replicas refl
                set.limits.2 set.counts.2 safe.replicas (rw d.2 (replicas_nonneg e r many))
                adm.replicas;
        })

    -- For int32 limits, committed counts that are not negative and an int32 replica maximum: in a
    -- safe state, a request that creates an agent, or moves it to the tenant, keeps agents, GPUs
    -- and replicas of committed use and live reservations together within the quota, admitted or
    -- not.
    pub admit_and_reserve-IsSafe :
        IsSafe q used now (admit_and_reserve e now key q used r old ttl).0
    admit_and_reserve-IsSafe = elim (Verdict-cases (can_admit e now key q used r old)) [
      | inl ok ↦ admitted_room ok
      | inr (d, no_room) ↦ rw (denied_state e now key q used r old ttl d no_room) safe
    ]

-- The life of the in-flight map while one tenant's committed use stands still: create requests,
-- in any order and for any keys, releases, sweeps and the passing of time. A request holds the
-- mutex from the check to the write, so requests that arrive together are steps in some order.
pub data Step (q : TenantQuotaSpec) (used : TenantQuotaStatus)
    : Time × Enforcer → Time × Enforcer → Type 0 where
  create :
      (now : Time) (e : Enforcer) (key : String) (r : AgentDeploymentSpec) (ttl : Duration)
      → InInt32 r.replicas.max
      → Step q used (now, e) (now, (admit_and_reserve e now key q used r none ttl).0)
  let_go : (now : Time) (e : Enforcer) (key : String) → Step q used (now, e) (now, release e key)
  clean : (now : Time) (e : Enforcer) → Step q used (now, e) (now, sweep_expired e now)
  wait : (now later : Time) (e : Enforcer) → now ≤ℤ later → Step q used (now, e) (later, e)

pub data Reach (q : TenantQuotaSpec) (used : TenantQuotaStatus) (s : Time × Enforcer)
    : Time × Enforcer → Type 0 where
  here : Reach q used s s
  next : {t u : Time × Enforcer} → Reach q used s t → Step q used t u → Reach q used s u

module _ {q : TenantQuotaSpec} {used : TenantQuotaStatus} (set : IsSetting q used) where
  pub Step-IsSafe :
      {s t : Time × Enforcer} → Step q used s t → IsSafe q used s.0 s.1 → IsSafe q used t.0 t.1
  unfolding release sweep_expired
  Step-IsSafe (create now e key r ttl small) h =
      admit_and_reserve-IsSafe e now key q used r none ttl set small
        (unfold same_tenant_update in refl) h
  Step-IsSafe (let_go now e key) h = record {
    agents = HasRoom-delete (λ v. v.agents) counters.0 _ _ now key e.reservations h.agents;
    gpus = HasRoom-delete (λ v. v.gpus) counters.1 _ _ now key e.reservations h.gpus;
    replicas = HasRoom-delete (λ v. v.replicas) counters.2 _ _ now key e.reservations h.replicas;
  }
  Step-IsSafe (clean now e) h = record {
    agents = HasRoom-sweep (λ v. v.agents) counters.0 _ _ now e.reservations h.agents;
    gpus = HasRoom-sweep (λ v. v.gpus) counters.1 _ _ now e.reservations h.gpus;
    replicas = HasRoom-sweep (λ v. v.replicas) counters.2 _ _ now e.reservations h.replicas;
  }
  Step-IsSafe (wait now later e t) h = record {
    agents = HasRoom-later (λ v. v.agents) counters.0 _ _ now later e.reservations t h.agents;
    gpus = HasRoom-later (λ v. v.gpus) counters.1 _ _ now later e.reservations t h.gpus;
    replicas = HasRoom-later (λ v. v.replicas) counters.2 _ _ now later e.reservations t h.replicas;
  }

  -- For int32 limits and committed counts that are not negative and do not change: whatever the
  -- order of concurrent creates, releases, sweeps and passing time, from a safe state (a fresh
  -- enforcer and a tenant within its quota is one) the committed use and the live reservations
  -- together stay within the tenant's agents, GPUs and total replicas.
  pub Reach-IsSafe :
      {s t : Time × Enforcer} → IsSafe q used s.0 s.1 → Reach q used s t → IsSafe q used t.0 t.1
  Reach-IsSafe h here = h
  Reach-IsSafe h (next r st) = Step-IsSafe st (Reach-IsSafe h r)
