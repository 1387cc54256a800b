-- ===== src/Quota/Admission.antt =====
-- AdmitAndReserve: its verdict, and what it does to the reservations.
use agentrax.Prelude.{
  ◌+ℤ◌, String, ◌≡◌, refl, arith, false, ◌&&◌, ◌==◌, if◌then◌else◌, Option, some,
}
use agentrax.Dict.{lookup, insert, lookup-insert}
use agentrax.Api.{Time, Duration, AgentDeploymentSpec, TenantQuotaSpec, TenantQuotaStatus}
use agentrax.Quota.{
  Enforcer, sum_inflight, can_admit, compute_delta, same_tenant_update, old_max, admit_and_reserve,
  settle,
}
use agentrax.Quota.Verdicts.{
  Reservation, Verdict, Denial, admitted, denied, is_admitted, eval_quota_rules,
}

settle_cases :
    (v : Verdict) (before after : Enforcer)
    → ((settle v before after).1 ≡ v)
      × ((settle v before after).1 ≡ admitted → (settle v before after).0 ≡ after)
      × ((d : Denial) → (settle v before after).1 ≡ denied d → (settle v before after).0 ≡ before)
unfolding settle
settle_cases admitted before after = (refl, (λ h. refl), (λ d h. cc))
settle_cases (denied x) before after = (refl, (λ h. cc), (λ d h. refl))

settle_denied :
    (v : Verdict) (before after : Enforcer)
    → is_admitted (settle v before after).1 ≡ false
    → (settle v before after).0 ≡ before
unfolding settle is_admitted
settle_denied admitted before after h = ground arith
settle_denied (denied d) before after h = refl

lookup-settle :
    (v : Verdict) (e : Enforcer) (key : String) (r : Reservation) (j : String)
    → let (e', v') = settle v e (record e { reservations = insert key r e.reservations }) in
      lookup j e'.reservations
      ≡ (if is_admitted v' && key == j then some r else lookup j e.reservations)
unfolding settle is_admitted
lookup-settle admitted e key r j = lookup-insert key j r e.reservations
lookup-settle (denied d) e key r j = refl

module _ (e : Enforcer) (now : Time) (key : String) (q : TenantQuotaSpec) (used : TenantQuotaStatus)
    (r : AgentDeploymentSpec) (old : Option AgentDeploymentSpec) (ttl : Duration) where
  abbrev pub reservation : Reservation
  reservation = record (compute_delta e r old) { expiry = now +ℤ ttl }

  pub verdict-same :
      (admit_and_reserve e now key q used r old ttl).1 ≡ can_admit e now key q used r old
  unfolding admit_and_reserve can_admit
  verdict-same =
      let (same, passes, fails) =
        settle_cases
          (eval_quota_rules q used (sum_inflight e key now) (compute_delta e r old) r.replicas.max
            (same_tenant_update r old) (old_max old))
          e (record e { reservations = insert key reservation e.reservations }) in
      same

  -- AdmitAndReserve gives the verdict of the dry run. If it admits, it sets the reservation of its
  -- key and leaves those of all other keys; if it denies, it leaves all of them.
  pub admit_and_reserve-can_admit :
      (j : String)
      → let (e', verdict) = admit_and_reserve e now key q used r old ttl in
        (verdict ≡ can_admit e now key q used r old)
        × (lookup j e'.reservations ≡ (
            if is_admitted verdict && key == j then some reservation else lookup j e.reservations))
  unfolding admit_and_reserve
  admit_and_reserve-can_admit j = (verdict-same, lookup-settle _ e key reservation j)

  pub admitted_state :
      can_admit e now key q used r old ≡ admitted
      → (admit_and_reserve e now key q used r old ttl).0
        ≡ record e { reservations = insert key reservation e.reservations }
  unfolding admit_and_reserve can_admit
  admitted_state ok = rw ok

  pub denied_state :
      (d : Denial)
      → can_admit e now key q used r old ≡ denied d
      → (admit_and_reserve e now key q used r old ttl).0 ≡ e
  unfolding admit_and_reserve can_admit
  denied_state d ok = rw ok

  pub denied_keeps :
      is_admitted (admit_and_reserve e now key q used r old ttl).1 ≡ false
      → (admit_and_reserve e now key q used r old ttl).0 ≡ e
  unfolding admit_and_reserve
  denied_keeps h = settle_denied _ _ _ h
