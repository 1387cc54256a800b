-- ===== src/Quota/Races.antt =====
-- What the in-flight map does not tell apart: an update replaces the reservation of its own
-- create, and the sum over the map spans every tenant.
use agentrax.Prelude.{
  ℤ, pos, ◌+ℤ◌, ◌-ℤ◌, ◌≤ℤ◌, int_laws, wrap32, wrap64_id, add64, +ℤ_bounds, +ℤ_parts, InInt32,
  String, ◌≡◌, ◌≢◌, refl, ap, ◌∙◌, [], arith, true, false, ◌==◌, eq_iff, eq_refl, Bool-cases, inl,
  inr, Option, none, some,
}
use agentrax.Dict.{Dict, delete, insert}
use agentrax.Api.{Time, Duration, AgentDeploymentSpec, TenantQuotaSpec, TenantQuotaStatus}
use agentrax.Quota.{
  Enforcer, extract_gpus, expired, charge, no_reservation, sum_inflight_from, sum_inflight, release,
  can_admit, gpus_for_ad, compute_delta, same_tenant_update, old_max, admit_and_reserve,
}
use agentrax.Quota.Verdicts.{Reservation, admitted, eval_quota_rules}
use agentrax.Quota.Admission.{reservation, admitted_state, verdict-same}

sub_self : (a : ℤ) → wrap32 (a -ℤ a) ≡ pos 0
unfolding wrap32
sub_self a = rw zero refl
  where
    zero : a -ℤ a ≡ pos 0
    zero = omega int_laws

abbrev IsZero : Reservation → Type 0
IsZero v = (v.agents ≡ pos 0) × (v.gpus ≡ pos 0) × (v.replicas ≡ pos 0)

delta_self : (e : Enforcer) (r : AgentDeploymentSpec) → IsZero (compute_delta e r (some r))
unfolding compute_delta
delta_self e r =
    rw (eq_refl r.tenant_ref) (refl, sub_self (gpus_for_ad e r), sub_self r.replicas.max)

-- A request that raises nothing passes every guard.
zero_admitted :
    (q : TenantQuotaSpec) (used : TenantQuotaStatus) (f d : Reservation) (m : ℤ)
    → IsZero d
    → eval_quota_rules q used f d m true m ≡ admitted
unfolding eval_quota_rules
zero_admitted q used f d m z = ground arith

charge_zero : (v : Reservation) → IsZero v → charge no_reservation v ≡ no_reservation
unfolding charge wrap32 ◌+ℤ◌
charge_zero v z = rw (z.0, z.1, z.2) refl

sum_insert_zero :
    (e : Enforcer) (other key : String) (later : Time) (v : Reservation)
    → (key == other) ≡ false
    → IsZero v
    → sum_inflight (record e { reservations = insert key v e.reservations }) other later
      ≡ sum_inflight (release e key) other later
unfolding sum_inflight insert release
sum_insert_zero e other key later v n z =
    rw (n, sum_inflight_from)
      (elim (Bool-cases (expired later v)) [
        | inl x ↦ rw (x, sum_inflight_from) refl
        | inr x ↦
            rw (x, sum_inflight_from)
              (ap (λ t. sum_inflight_from other later t (delete key e.reservations))
                (charge_zero v z))
      ])

-- The delta of a request does not read the reservations.
compute_delta-reservations :
    (e : Enforcer) (m : Dict Reservation) (r : AgentDeploymentSpec)
    (old : Option AgentDeploymentSpec)
    → compute_delta (record e { reservations = m }) r old ≡ compute_delta e r old
unfolding compute_delta gpus_for_ad extract_gpus
compute_delta-reservations e m r none = refl
compute_delta-reservations e m r (some old) = refl

can_admit_of_sum :
    (e : Enforcer) (m m' : Dict Reservation) (later : Time) (other : String) (q : TenantQuotaSpec)
    (used : TenantQuotaStatus) (r : AgentDeploymentSpec) (old : Option AgentDeploymentSpec)
    → sum_inflight (record e { reservations = m }) other later
      ≡ sum_inflight (record e { reservations = m' }) other later
    → can_admit (record e { reservations = m }) later other q used r old
      ≡ can_admit (record e { reservations = m' }) later other q used r old
unfolding can_admit
can_admit_of_sum e m m' later other q used r old h =
    rw (h, compute_delta-reservations e m r old, compute_delta-reservations e m' r old)

ne→false : (a b : String) → a ≢ b → (a == b) ≡ false
ne→false a b h = ground (arith, eq_iff a b)

module _ (e : Enforcer) (now : Time) (key : String) (q : TenantQuotaSpec) (used : TenantQuotaStatus)
    (r : AgentDeploymentSpec) (ttl : Duration) where
  update_passes : can_admit e now key q used r (some r) ≡ admitted
  unfolding can_admit same_tenant_update old_max
  update_passes =
      rw (eq_refl r.tenant_ref) (zero_admitted q used _ _ r.replicas.max (delta_self e r))

  -- An update that changes nothing is always admitted, and every later request of another agent is
  -- judged as if the reservation of the updated agent had been released, although its create may
  -- not be counted in the committed use yet.
  pub update_forgets_create :
      (other : String) (later : Time) (q' : TenantQuotaSpec) (used' : TenantQuotaStatus)
      (r' : AgentDeploymentSpec) (old' : Option AgentDeploymentSpec)
      → key ≢ other
      → ((admit_and_reserve e now key q used r (some r) ttl).1 ≡ admitted)
        × (can_admit
              (admit_and_reserve e now key q used r (some r) ttl).0
              later
              other
              q'
              used'
              r'
              old'
            ≡ can_admit (release e key) later other q' used' r' old')
  unfolding release
  update_forgets_create other later q' used' r' old' n = (
    verdict-same e now key q used r (some r) ttl ∙ update_passes,
    rw (admitted_state e now key q used r (some r) ttl update_passes) (
        can_admit_of_sum e _ (delete key e.reservations) later other q' used' r' old' (
          sum_insert_zero e other key later (reservation e now key q used r (some r) ttl)
            (ne→false key other n) (delta_self e r))),
  )

lone_reservation :
    (e : Enforcer) (later : Time) (key other : String) (v : Reservation)
    → key ≢ other
    → e.reservations ≡ insert key v []
    → later ≤ℤ v.expiry
    → (sum_inflight e other later).agents ≡ wrap32 (pos 0 +ℤ v.agents)
unfolding sum_inflight insert delete charge
lone_reservation e later key other v n m live =
    rw (m, ne→false key other n, sum_inflight_from) (ground arith)

create_agents :
    (q : TenantQuotaSpec) (used : TenantQuotaStatus) (f d : Reservation) (m p : ℤ)
    → eval_quota_rules q used f d m false p ≡ admitted
    → add64 (add64 used.used_agents f.agents) d.agents ≤ℤ q.max_agents
unfolding eval_quota_rules
create_agents q used f d m p h = ground arith

one_over :
    (a limit : ℤ)
    → a +ℤ pos 1 ≡ limit
    → InInt32 limit
    → ¬ (add64 (add64 a (pos 1)) (pos 1) ≤ℤ limit)
one_over a limit full small h = absurd (
    omega (
      arith,
      +ℤ_parts limit (pos 1),
      (rw
          (
            full,
            wrap64_id limit (omega arith),
            wrap64_id (limit +ℤ pos 1) (omega (arith, +ℤ_bounds limit (pos 1))),
          )
          at h),
    ))

-- With one reservation in flight, of one agent of any tenant, a tenant with one free slot is
-- refused the create of another agent for as long as the reservation lives.
pub other_tenant_blocks :
    (e : Enforcer) (later : Time) (key other : String) (v : Reservation) (q : TenantQuotaSpec)
    (used : TenantQuotaStatus) (r : AgentDeploymentSpec)
    → key ≢ other
    → e.reservations ≡ insert key v []
    → v.agents ≡ pos 1
    → later ≤ℤ v.expiry
    → used.used_agents +ℤ pos 1 ≡ q.max_agents
    → InInt32 q.max_agents
    → can_admit e later other q used r none ≢ admitted
unfolding can_admit same_tenant_update old_max
other_tenant_blocks e later key other v q used r n m one live full small ok =
    let flight : (sum_inflight e other later).agents ≡ pos 1 =
      lone_reservation e later key other v n m live ∙ rw one (unfold wrap32 ◌+ℤ◌ in refl) in
    let single : (compute_delta e r none).agents ≡ pos 1 = unfold compute_delta in refl in
    let too_many =
      create_agents q used (sum_inflight e other later) (compute_delta e r none) r.replicas.max
        (pos 0) ok in
    absurd (one_over used.used_agents q.max_agents full small (rw (flight, single) at too_many))
