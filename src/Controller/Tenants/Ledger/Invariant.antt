-- ===== src/Controller/Tenants/Ledger/Invariant.antt =====
-- What every event of the quota system keeps.
use agentrax.Prelude.{
  pos, ◌≤ℤ◌, max_int32, String, ◌≡◌, sym, ap, ◌∙◌, arith, true, List, [], All, All-append, All-mono,
  All-map, All-remove, Distinct, ◌==◌,
}
use agentrax.Api.{AgentDeployment, AgentDeploymentSpec, TenantQuotaSpec}
use agentrax.Quota.{Enforcer, gpus_for_ad, extract_gpus, release, compute_usage, sweep_expired}
use agentrax.Quota.Room.{IsSafe, IsSetting}
use agentrax.Quota.Safety
use agentrax.Quota.Safety.{Step-IsSafe}
use agentrax.Quota.Usage.{total, max_of, gpus_of, IsStored, compute_usage_exact}
use agentrax.Controller.Tenants.{reservation_key}
use agentrax.Controller.Tenants.Counts.{keys_of, specs_of, collect-specs}
use agentrax.Controller.Tenants.Held.{IsBacked, All-IsBacked-delete, delete_all}
use agentrax.Controller.Tenants.Ledger.{
  State, stored, at, IsMember, Step, Fits, create, store, count, remove_fresh, remove_counted,
  sweep_out, let_go, wait,
}
use agentrax.Controller.Tenants.Ledger.Weights.{
  one, total-one, collect-members, weighs_agents, weighs_gpus, weighs_replicas, HasRoom-counted,
  total-le-limit,
}
use agentrax.Controller.Tenants.Ledger.Changes.{
  Distinct-remove, total-remove, IsSafe-at, IsBacked-admitted, IsBacked-swept,
}

-- The ceilings are int32.
abbrev pub Limited : TenantQuotaSpec → Type 0
Limited q =
    (q.max_agents ≤ℤ max_int32) × (q.max_gpus ≤ℤ max_int32) × (q.max_total_replicas ≤ℤ max_int32)

module _ (base : Enforcer) (q : TenantQuotaSpec) (tenant : String) where
  pub record IsConsistent (s : State) : Type 0 where
    pub safe : IsSafe q s.used s.now (at base s.reservations)
    pub agents : pos (total one (specs_of s.counted)) ≤ℤ s.used.used_agents
    pub gpus : pos (total (gpus_of base) (specs_of s.counted)) ≤ℤ s.used.used_gpus
    pub replicas : pos (total max_of (specs_of s.counted)) ≤ℤ s.used.used_total_replicas
    pub backed : All (IsBacked base s.now s.reservations) s.fresh
    pub distinct : Distinct (keys_of s.fresh)
    pub fresh_members : All (IsMember tenant) s.fresh
    pub counted_members : All (IsMember tenant) s.counted

  setting : (s : State) → IsConsistent s → Limited q → IsSetting q s.used
  setting s h limits = record {
    limits = limits;
    counts = (omega (arith, h.agents), omega (arith, h.gpus), omega (arith, h.replicas));
  }

  valid :
      (ads : List AgentDeployment)
      → All (IsMember tenant) ads
      → All (λ (ad : AgentDeployment). IsStored ad.spec) ads
  valid = All-mono (IsMember tenant) (λ ad. IsStored ad.spec) (λ ad m. m.1)

  -- What is stored fits in the quota.
  pub IsConsistent-Fits : (s : State) → IsConsistent s → Fits base q (stored s)
  IsConsistent-Fits s h = (
    rw (sym (total-one (stored s))) (
        total-le-limit base (λ v. v.agents) one (weighs_agents base) q.max_agents s.used.used_agents
          s.now s.reservations s.fresh s.counted h.safe.agents h.agents
          (valid s.fresh h.fresh_members) h.backed h.distinct),
    total-le-limit base (λ v. v.gpus) (gpus_of base) (weighs_gpus base) q.max_gpus s.used.used_gpus
        s.now s.reservations s.fresh s.counted h.safe.gpus h.gpus (valid s.fresh h.fresh_members)
        h.backed h.distinct,
    total-le-limit base (λ v. v.replicas) max_of (weighs_replicas base) q.max_total_replicas
        s.used.used_total_replicas s.now s.reservations s.fresh s.counted h.safe.replicas h.replicas
        (valid s.fresh h.fresh_members) h.backed h.distinct,
  )

  module _ (limits : Limited q) where
    -- The counts that a reconciliation publishes are exact, and what they leave is safe.
    counted-IsConsistent :
        (s : State) (e' : Enforcer) (specs : List AgentDeploymentSpec)
        → e' ≡ at base (delete_all (keys_of (stored s)) s.reservations)
        → specs ≡ specs_of (stored s)
        → IsConsistent s
        → IsConsistent (record s {
          reservations = e'.reservations;
          used = compute_usage e' specs;
          fresh = [];
          counted = stored s;
        })
    unfolding gpus_for_ad extract_gpus
    counted-IsConsistent s e' specs is_at are h =
        let m' = delete_all (keys_of (stored s)) s.reservations in
        let (few, gpus_fit, replicas_fit) = IsConsistent-Fits s h in
        let members =
          All-append (IsMember tenant) s.fresh s.counted h.fresh_members h.counted_members in
        let (number, gpus, replicas) =
          compute_usage_exact (at base m') (specs_of (stored s))
            (All-map IsStored (λ ad. ad.spec) (stored s) (valid (stored s) members))
            (omega (arith, few, limits.0)) (omega (arith, gpus_fit, limits.1))
            (omega (arith, replicas_fit, limits.2)) in
        let fresh_valid = valid s.fresh h.fresh_members in
        rw (is_at, are)
          (record {
            safe = record {
              agents =
                  rw (number, sym (total-one (stored s)))
                    (HasRoom-counted base (λ v. v.agents) one (weighs_agents base) q.max_agents
                      s.used.used_agents s.now s.reservations s.fresh s.counted h.safe.agents
                      h.agents fresh_valid h.backed h.distinct);
              gpus = rw gpus (
                  HasRoom-counted base (λ v. v.gpus) (gpus_of base) (weighs_gpus base) q.max_gpus
                    s.used.used_gpus s.now s.reservations s.fresh s.counted h.safe.gpus h.gpus
                    fresh_valid h.backed h.distinct);
              replicas = rw replicas (
                  HasRoom-counted base (λ v. v.replicas) max_of (weighs_replicas base)
                    q.max_total_replicas s.used.used_total_replicas s.now s.reservations s.fresh
                    s.counted h.safe.replicas h.replicas fresh_valid h.backed h.distinct);
            };
            agents = rw (number, total-one (stored s)) (omega arith);
            gpus = rw gpus (omega arith);
            replicas = rw replicas (omega arith);
            backed = tt;
            distinct = tt;
            fresh_members = tt;
            counted_members = members;
          })

    pub Step-IsConsistent : {s t : State} → Step base q tenant s t → IsConsistent s → IsConsistent t
    unfolding release sweep_expired
    Step-IsConsistent {s} (create ad ttl small unstored) h = record {
      safe = IsSafe-at q s.used s.now base _ (
          Step-IsSafe (setting s h limits)
            (Safety.Step.create s.now (at base s.reservations) (reservation_key ad) ad.spec ttl
              small)
            h.safe);
      agents = h.agents;
      gpus = h.gpus;
      replicas = h.replicas;
      backed = IsBacked-admitted base q s ad ttl s.fresh unstored h.backed;
      distinct = h.distinct;
      fresh_members = h.fresh_members;
      counted_members = h.counted_members;
    }
    Step-IsConsistent {s} (store ad member back unstored) h = record {
      safe = h.safe;
      agents = h.agents;
      gpus = h.gpus;
      replicas = h.replicas;
      backed = (back, h.backed);
      distinct = (unstored, h.distinct);
      fresh_members = (member, h.fresh_members);
      counted_members = h.counted_members;
    }
    Step-IsConsistent {s} count h =
        let members =
          All-append (IsMember tenant) s.fresh s.counted h.fresh_members h.counted_members in
        let (collected, all) = collect-members (at base s.reservations) tenant (stored s) (
          All-mono (IsMember tenant) (λ ad. (ad.spec.tenant_ref == tenant) ≡ true) (λ ad m. m.0)
            (stored s) members) in
        counted-IsConsistent s _ _ collected
          (collect-specs (at base s.reservations) tenant (stored s) ∙ ap specs_of all) h
    Step-IsConsistent {s} (remove_fresh xs ys ad e) h = record {
      safe = h.safe;
      agents = h.agents;
      gpus = h.gpus;
      replicas = h.replicas;
      backed = All-remove (IsBacked base s.now s.reservations) xs ys ad (rw e at h.backed);
      distinct = Distinct-remove xs ys ad (rw e at h.distinct);
      fresh_members = All-remove (IsMember tenant) xs ys ad (rw e at h.fresh_members);
      counted_members = h.counted_members;
    }
    Step-IsConsistent {s} (remove_counted xs ys ad e) h = record {
      safe = h.safe;
      agents = omega (arith, total-remove one xs ys ad, rw e at h.agents);
      gpus = omega (arith, total-remove (gpus_of base) xs ys ad, rw e at h.gpus);
      replicas = omega (arith, total-remove max_of xs ys ad, rw e at h.replicas);
      backed = h.backed;
      distinct = h.distinct;
      fresh_members = h.fresh_members;
      counted_members = All-remove (IsMember tenant) xs ys ad (rw e at h.counted_members);
    }
    Step-IsConsistent {s} sweep_out h = record {
      safe = IsSafe-at q s.used s.now base _ (
          Step-IsSafe (setting s h limits) (Safety.Step.clean s.now (at base s.reservations))
            h.safe);
      agents = h.agents;
      gpus = h.gpus;
      replicas = h.replicas;
      backed = IsBacked-swept base q s s.fresh h.backed;
      distinct = h.distinct;
      fresh_members = h.fresh_members;
      counted_members = h.counted_members;
    }
    Step-IsConsistent {s} (let_go key unstored) h = record {
      safe = IsSafe-at q s.used s.now base _ (
          Step-IsSafe (setting s h limits) (Safety.Step.let_go s.now (at base s.reservations) key)
            h.safe);
      agents = h.agents;
      gpus = h.gpus;
      replicas = h.replicas;
      backed = All-IsBacked-delete base s.now s.reservations key s.fresh unstored h.backed;
      distinct = h.distinct;
      fresh_members = h.fresh_members;
      counted_members = h.counted_members;
    }
    Step-IsConsistent {s} (wait later t back) h = record {
      safe =
          Step-IsSafe (setting s h limits) (Safety.Step.wait s.now later (at base s.reservations) t)
            h.safe;
      agents = h.agents;
      gpus = h.gpus;
      replicas = h.replicas;
      backed = back;
      distinct = h.distinct;
      fresh_members = h.fresh_members;
      counted_members = h.counted_members;
    }
