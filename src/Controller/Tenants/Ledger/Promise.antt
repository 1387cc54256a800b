-- ===== src/Controller/Tenants/Ledger/Promise.antt =====
-- What the ledger promises: it is a store into which an agent comes only if it fits.
use mathlib.Core.List.{append_assoc}
use agentrax.Prelude.{pos, ◌+ℤ◌, ◌≤ℤ◌, String, ◌≡◌, refl, sym, ap, ◌∙◌, arith, List, [], ◌∷◌, ◌++◌}
use agentrax.Api.{Time, AgentDeployment, TenantQuotaSpec}
use agentrax.Quota.{Enforcer, zero_status}
use agentrax.Quota.Inflight.{live}
use agentrax.Quota.Usage.{total}
use agentrax.Controller.Tenants.Ledger.{
  State, stored, Step, Reach, Fits, create, store, count, remove_fresh, remove_counted, sweep_out,
  let_go, wait, here, next,
}
use agentrax.Controller.Tenants.Ledger.Invariant.{
  Limited, IsConsistent, IsConsistent-Fits, Step-IsConsistent,
}

-- Nothing is stored, reserved or counted.
abbrev pub start : Time → State
start now = record { now = now; reservations = []; used = zero_status; fresh = []; counted = [] }

-- The ceilings are int32 and not negative.
abbrev pub IsQuota : TenantQuotaSpec → Type 0
IsQuota q =
    Limited q × (pos 0 ≤ℤ q.max_agents) × (pos 0 ≤ℤ q.max_gpus) × (pos 0 ≤ℤ q.max_total_replicas)

-- The specification: agents come if they fit, and go; it knows of no reservations and no counts.
pub data StoreStep (base : Enforcer) (q : TenantQuotaSpec) (before after : List AgentDeployment)
    : Type 0 where
  unchanged : after ≡ before → StoreStep base q before after
  added :
      (ad : AgentDeployment)
      → after ≡ ad ∷ before
      → Fits base q after
      → StoreStep base q before after
  removed :
      (xs ys : List AgentDeployment) (ad : AgentDeployment)
      → before ≡ xs ++ ad ∷ ys
      → after ≡ xs ++ ys
      → StoreStep base q before after

pub data StoreReach (base : Enforcer) (q : TenantQuotaSpec) (s : List AgentDeployment)
    : List AgentDeployment → Type 0 where
  stay : StoreReach base q s s
  go :
      {t u : List AgentDeployment}
      → StoreReach base q s t
      → StoreStep base q t u
      → StoreReach base q s u

module _ (base : Enforcer) (q : TenantQuotaSpec) (tenant : String) (is_quota : IsQuota q) where
  start-IsConsistent : (now : Time) → IsConsistent base q tenant (start now)
  unfolding live total ◌+ℤ◌
  start-IsConsistent now = record {
    safe = record {
      agents = record { nonneg = tt; room = is_quota.1 };
      gpus = record { nonneg = tt; room = is_quota.2 };
      replicas = record { nonneg = tt; room = is_quota.3 };
    };
    agents = omega arith;
    gpus = omega arith;
    replicas = omega arith;
    backed = tt;
    distinct = tt;
    fresh_members = tt;
    counted_members = tt;
  }

  Reach-IsConsistent :
      {s t : State}
      → IsConsistent base q tenant s
      → Reach base q tenant s t
      → IsConsistent base q tenant t
  Reach-IsConsistent h here = h
  Reach-IsConsistent h (next r st) =
      Step-IsConsistent base q tenant is_quota.0 st (Reach-IsConsistent h r)

  pub Ledger-Fits :
      (now : Time) {t : State} → Reach base q tenant (start now) t → Fits base q (stored t)
  Ledger-Fits now r =
      IsConsistent-Fits base q tenant _ (Reach-IsConsistent (start-IsConsistent now) r)

  Step-StoreStep :
      {s t : State}
      → Step base q tenant s t
      → IsConsistent base q tenant t
      → StoreStep base q (stored s) (stored t)
  Step-StoreStep (create ad ttl small unstored) h = unchanged refl
  Step-StoreStep (store ad member back unstored) h =
      added ad refl (IsConsistent-Fits base q tenant _ h)
  Step-StoreStep count h = unchanged refl
  Step-StoreStep {s} (remove_fresh xs ys ad e) h =
      removed xs (ys ++ s.counted) ad
        (ap (λ l. l ++ s.counted) e ∙ append_assoc xs (ad ∷ ys) s.counted)
        (append_assoc xs ys s.counted)
  Step-StoreStep {s} (remove_counted xs ys ad e) h =
      removed (s.fresh ++ xs) ys ad
        (ap (λ l. s.fresh ++ l) e ∙ sym (append_assoc s.fresh xs (ad ∷ ys)))
        (sym (append_assoc s.fresh xs ys))
  Step-StoreStep sweep_out h = unchanged refl
  Step-StoreStep (let_go key unstored) h = unchanged refl
  Step-StoreStep (wait later t back) h = unchanged refl

  pub Ledger-StoreReach :
      (now : Time) {t : State} → Reach base q tenant (start now) t → StoreReach base q [] (stored t)
  Ledger-StoreReach now here = stay
  Ledger-StoreReach now (next r st) =
      go (Ledger-StoreReach now r)
        (Step-StoreStep st (Reach-IsConsistent (start-IsConsistent now) (next r st)))
