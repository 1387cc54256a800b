-- ===== src/Quota/Room.antt =====
-- Room in the quota: one counter, and what each operation on the in-flight map leaves of it.
use agentrax.Prelude.{
  ℤ, pos, ◌+ℤ◌, ◌≤ℤ◌, neg_part-eq_zero, +ℤ_parts, zero-+ℤ, InInt32, max_int32, String, ◌≡◌, refl,
  ◌∙◌, arith,
}
use agentrax.Dict.{Dict, delete, insert}
use agentrax.Api.{Time, TenantQuotaSpec, TenantQuotaStatus}
use agentrax.Quota.{Enforcer, charge, sum_inflight, sweep, no_reservation}
use agentrax.Quota.Verdicts.{Reservation}
use agentrax.Quota.Inflight.{
  live, NonNegative, IsCounter, live_nonneg, NonNegative-delete, NonNegative-sweep, live-delete,
  live-sweep, live-later, live-insert, sum_inflight_from-live,
}

-- One counter of the in-flight map stays within its limit, on top of the committed use.
pub record HasRoom (w : Reservation → ℤ) (limit used : ℤ) (now : Time) (m : Dict Reservation)
    : Type 0 where
  pub nonneg : NonNegative w m
  pub room : used +ℤ live w now m ≤ℤ limit

pub record IsSafe (q : TenantQuotaSpec) (used : TenantQuotaStatus) (now : Time) (e : Enforcer)
    : Type 0 where
  pub agents : HasRoom (λ v. v.agents) q.max_agents used.used_agents now e.reservations
  pub gpus : HasRoom (λ v. v.gpus) q.max_gpus used.used_gpus now e.reservations
  pub replicas :
      HasRoom (λ v. v.replicas) q.max_total_replicas used.used_total_replicas now e.reservations

-- What the API server's validation gives: limits and committed counts are int32 and not negative.
pub record IsSetting (q : TenantQuotaSpec) (used : TenantQuotaStatus) : Type 0 where
  pub limits :
      (q.max_agents ≤ℤ max_int32) × (q.max_gpus ≤ℤ max_int32) × (q.max_total_replicas ≤ℤ max_int32)
  pub counts :
      (pos 0 ≤ℤ used.used_agents) × (pos 0 ≤ℤ used.used_gpus) × (pos 0 ≤ℤ used.used_total_replicas)

module _ (w : Reservation → ℤ) (counter : IsCounter w) where
  -- The code's sum over the other keys is the exact one, and an int32.
  pub others :
      (limit used : ℤ) (now : Time) (key : String) (e : Enforcer)
      → w no_reservation ≡ pos 0
      → limit ≤ℤ max_int32
      → pos 0 ≤ℤ used
      → HasRoom w limit used now e.reservations
      → (w (sum_inflight e key now) ≡ live w now (delete key e.reservations))
        × InInt32 (w (sum_inflight e key now))
        × InInt32 used
  unfolding sum_inflight
  others limit used now key e zero l u h =
      let gone = live-delete w now key e.reservations h.nonneg in
      let rest = live_nonneg w now _ (NonNegative-delete w key e.reservations h.nonneg) in
      let fits : live w now (delete key e.reservations) ≤ℤ max_int32 =
        omega (arith, h.room, +ℤ_parts used (live w now e.reservations)) in
      let exact : w (sum_inflight e key now) ≡ live w now (delete key e.reservations) =
        sum_inflight_from-live w counter key now no_reservation e.reservations h.nonneg
          (rw zero (omega arith)) (rw (zero, zero-+ℤ) fits)
        ∙ rw (zero, zero-+ℤ) refl in
      (
        exact,
        rw exact (omega (arith, neg_part-eq_zero _ rest)),
        omega (
          arith,
          neg_part-eq_zero used u,
          +ℤ_parts used (live w now e.reservations),
          h.room,
          live_nonneg w now _ h.nonneg,
        ),
      )

  -- After an admission that was within the limit, the new sum is within it too.
  pub kept :
      (limit used : ℤ) (now : Time) (key : String) (v : Reservation) (m : Dict Reservation)
      → NonNegative w m
      → pos 0 ≤ℤ w v
      → used +ℤ live w now (delete key m) +ℤ w v ≤ℤ limit
      → HasRoom w limit used now (insert key v m)
  kept limit used now key v m h p fits = record {
    nonneg = unfold insert in (p, NonNegative-delete w key m h);
    room = omega (
      arith,
      live-insert w now key v m p,
      +ℤ_parts used (live w now (insert key v m)),
      +ℤ_parts (w v) (live w now (delete key m)),
      +ℤ_parts used (live w now (delete key m)),
      +ℤ_parts (used +ℤ live w now (delete key m)) (w v),
    );
  }

  pub HasRoom-delete :
      (limit used : ℤ) (now : Time) (key : String) (m : Dict Reservation)
      → HasRoom w limit used now m
      → HasRoom w limit used now (delete key m)
  HasRoom-delete limit used now key m h = record {
    nonneg = NonNegative-delete w key m h.nonneg;
    room = omega (
      arith,
      h.room,
      live-delete w now key m h.nonneg,
      +ℤ_parts used (live w now m),
      +ℤ_parts used (live w now (delete key m)),
    );
  }

  pub HasRoom-sweep :
      (limit used : ℤ) (now : Time) (m : Dict Reservation)
      → HasRoom w limit used now m
      → HasRoom w limit used now (sweep now m)
  HasRoom-sweep limit used now m h = record {
    nonneg = NonNegative-sweep w now m h.nonneg;
    room = rw (live-sweep w now m) h.room;
  }

  pub HasRoom-later :
      (limit used : ℤ) (now later : Time) (m : Dict Reservation)
      → now ≤ℤ later
      → HasRoom w limit used now m
      → HasRoom w limit used later m
  HasRoom-later limit used now later m t h = record {
    nonneg = h.nonneg;
    room = omega (
      arith,
      h.room,
      live-later w now later m t h.nonneg,
      +ℤ_parts used (live w now m),
      +ℤ_parts used (live w later m),
    );
  }

pub counters : IsCounter (λ v. v.agents) × IsCounter (λ v. v.gpus) × IsCounter (λ v. v.replicas)
unfolding charge
counters = ((λ t v. refl), (λ t v. refl), (λ t v. refl))
