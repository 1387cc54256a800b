-- ===== src/Quota/Tests.antt =====
-- The quota theorems at concrete requests.
use agentrax.Prelude.{
  pos, ◌+ℤ◌, String, ◌≡◌, ◌≢◌, ◌↔◌, refl, false, ◌&&◌, none, some, [], ◌==◌, eq_iff, arith,
  if◌then◌else◌,
}
use agentrax.Dict.{lookup, insert}
use agentrax.Api.{TenantQuotaSpec}
use agentrax.Quota.{
  Enforcer, can_admit, admit_and_reserve, gpus_total, release, same_tenant_update, new_enforcer,
}
use agentrax.Quota.Verdicts.{Reservation, admitted, is_admitted, eval_quota_rules}
use agentrax.Quota.Gpus.{gpus_total-eq-min}
use agentrax.Quota.Inflight.{live}
use agentrax.Quota.Rules.{IsAdmissible, IsInt32, eval_quota_rules-IsAdmissible}
use agentrax.Quota.Room.{IsSafe, IsSetting}
use agentrax.Quota.Admission.{reservation, admit_and_reserve-can_admit}
use agentrax.Quota.Safety.{Step, Reach, admit_and_reserve-IsSafe, Reach-IsSafe}
use agentrax.Quota.Races.{update_forgets_create, other_tenant_blocks}
use agentrax.Samples.{sample_spec, sample_quota, sample_use, sample_enforcer}

setting : IsSetting sample_quota sample_use
setting = record {
  limits = (omega arith, omega arith, omega arith);
  counts = (omega arith, omega arith, omega arith);
}

sample_enforcer-IsSafe : IsSafe sample_quota sample_use (pos 0) sample_enforcer
unfolding new_enforcer live ◌+ℤ◌
sample_enforcer-IsSafe = record {
  agents = record { nonneg = tt; room = omega arith };
  gpus = record { nonneg = tt; room = omega arith };
  replicas = record { nonneg = tt; room = omega arith };
}

abbrev after_create : Enforcer
after_create =
    (admit_and_reserve sample_enforcer (pos 0) "a/one" sample_quota sample_use sample_spec none
      (pos 5)).0

two_creates :
    Reach sample_quota sample_use
      (pos 0, sample_enforcer)
      (
        pos 0,
        (admit_and_reserve after_create
            (pos 0)
            "a/two"
            sample_quota
            sample_use
            sample_spec
            none
            (pos 5)).0,
      )
two_creates =
    Reach.next
      (Reach.next Reach.here
        (Step.create (pos 0) sample_enforcer "a/one" sample_spec (pos 5) (omega arith)))
      (Step.create (pos 0) after_create "a/two" sample_spec (pos 5) (omega arith))

Reach-IsSafe_example :
    IsSafe sample_quota sample_use
      (pos 0)
      (admit_and_reserve after_create
        (pos 0)
        "a/two"
        sample_quota
        sample_use
        sample_spec
        none
        (pos 5)).0
Reach-IsSafe_example = Reach-IsSafe setting sample_enforcer-IsSafe two_creates

admit_and_reserve-IsSafe_example : IsSafe sample_quota sample_use (pos 0) after_create
admit_and_reserve-IsSafe_example =
    admit_and_reserve-IsSafe sample_enforcer (pos 0) "a/one" sample_quota sample_use sample_spec
      none (pos 5) setting (omega arith) (unfold same_tenant_update in refl) sample_enforcer-IsSafe

abbrev one_agent : Reservation
one_agent = record { agents = pos 1; gpus = pos 2; replicas = pos 2; expiry = pos 9 }

small : IsInt32 sample_use one_agent one_agent
small = record {
  used_agents = omega arith;
  used_gpus = omega arith;
  used_replicas = omega arith;
  flight_agents = omega arith;
  flight_gpus = omega arith;
  flight_replicas = omega arith;
  delta_agents = omega arith;
  delta_gpus = omega arith;
  delta_replicas = omega arith;
}

differs : (a b : String) → (a == b) ≡ false → a ≢ b
differs a b n h = ground (arith, (eq_iff a b).1 h)

eval_quota_rules-IsAdmissible_example :
    (eval_quota_rules sample_quota sample_use one_agent one_agent (pos 2) false (pos 0) ≡ admitted)
    ↔ IsAdmissible sample_quota sample_use one_agent one_agent (pos 2) false (pos 0)
eval_quota_rules-IsAdmissible_example =
    eval_quota_rules-IsAdmissible sample_quota sample_use one_agent one_agent (pos 2) false (pos 0)
      small

admit_and_reserve-can_admit_example :
    let (e', verdict) =
      admit_and_reserve sample_enforcer
        (pos 0)
        "a/one"
        sample_quota
        sample_use
        sample_spec
        none
        (pos 5) in
    (verdict ≡ can_admit sample_enforcer (pos 0) "a/one" sample_quota sample_use sample_spec none)
    × (lookup "a/one" e'.reservations ≡ (
        if is_admitted verdict && "a/one" == "a/one"
        then some (
            reservation sample_enforcer
              (pos 0)
              "a/one"
              sample_quota
              sample_use
              sample_spec
              none
              (pos 5))
        else lookup "a/one" sample_enforcer.reservations))
admit_and_reserve-can_admit_example =
    admit_and_reserve-can_admit sample_enforcer (pos 0) "a/one" sample_quota sample_use sample_spec
      none (pos 5) "a/one"

gpus_total-eq-min_example : gpus_total (pos 3) (pos 5) ≡ pos 15
gpus_total-eq-min_example = gpus_total-eq-min 3 5 (omega arith)

update_forgets_create_example :
    ((admit_and_reserve after_create
        (pos 1)
        "a/one"
        sample_quota
        sample_use
        sample_spec
        (some sample_spec)
        (pos 5)).1
      ≡ admitted)
    × (can_admit
          (admit_and_reserve after_create
            (pos 1)
            "a/one"
            sample_quota
            sample_use
            sample_spec
            (some sample_spec)
            (pos 5)).0
          (pos 2)
          "a/two"
          sample_quota
          sample_use
          sample_spec
          none
        ≡ can_admit
            (release after_create "a/one")
            (pos 2)
            "a/two"
            sample_quota
            sample_use
            sample_spec
            none)
update_forgets_create_example =
    update_forgets_create after_create (pos 1) "a/one" sample_quota sample_use sample_spec (pos 5)
      "a/two" (pos 2) sample_quota sample_use sample_spec none (differs "a/one" "a/two" refl)

abbrev one_slot_left : TenantQuotaSpec
one_slot_left = record sample_quota { max_agents = pos 2 }

other_tenant_blocks_example :
    can_admit
      (record sample_enforcer { reservations = insert "b/one" one_agent [] })
      (pos 5)
      "a/two"
      one_slot_left
      sample_use
      sample_spec
      none
    ≢ admitted
other_tenant_blocks_example =
    other_tenant_blocks (record sample_enforcer { reservations = insert "b/one" one_agent [] })
      (pos 5) "b/one" "a/two" one_agent one_slot_left sample_use sample_spec
      (differs "b/one" "a/two" refl) refl refl (omega arith) (unfold ◌+ℤ◌ in refl) (omega arith)
