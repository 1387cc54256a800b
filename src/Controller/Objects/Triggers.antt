-- ===== src/Controller/Objects/Triggers.antt =====
-- isCanaryTriggered against the conditions that it stands for.
use agentrax.Prelude.{◌≡◌, ◌≢◌, ◌↔◌, refl, arith, true, eq_iff}
use agentrax.Api.{Phase, Strategy, AgentDeployment}
use agentrax.Controller.Objects.{in_rollout, has_failed, is_canary_strategy, is_canary_triggered}

pub in_rollout_iff : (p : Phase) → (in_rollout p ≡ true) ↔ (p ≡ Phase.rollout_in_progress)
unfolding in_rollout
in_rollout_iff Phase.unset = (λ h. ground arith, λ h. ground arith)
in_rollout_iff Phase.pending = (λ h. ground arith, λ h. ground arith)
in_rollout_iff Phase.running = (λ h. ground arith, λ h. ground arith)
in_rollout_iff Phase.rollout_in_progress = (λ h. refl, λ h. refl)
in_rollout_iff Phase.rollout_failed = (λ h. ground arith, λ h. ground arith)
in_rollout_iff Phase.degraded = (λ h. ground arith, λ h. ground arith)

pub has_failed_iff : (p : Phase) → (has_failed p ≡ true) ↔ (p ≡ Phase.rollout_failed)
unfolding has_failed
has_failed_iff Phase.unset = (λ h. ground arith, λ h. ground arith)
has_failed_iff Phase.pending = (λ h. ground arith, λ h. ground arith)
has_failed_iff Phase.running = (λ h. ground arith, λ h. ground arith)
has_failed_iff Phase.rollout_in_progress = (λ h. ground arith, λ h. ground arith)
has_failed_iff Phase.rollout_failed = (λ h. refl, λ h. refl)
has_failed_iff Phase.degraded = (λ h. ground arith, λ h. ground arith)

is_canary_strategy_iff : (s : Strategy) → (is_canary_strategy s ≡ true) ↔ (s ≡ Strategy.canary)
unfolding is_canary_strategy
is_canary_strategy_iff Strategy.unset = (λ h. ground arith, λ h. ground arith)
is_canary_strategy_iff Strategy.recreate = (λ h. ground arith, λ h. ground arith)
is_canary_strategy_iff Strategy.canary = (λ h. refl, λ h. refl)

-- When a new canary is due.
pub record IsDue (ad : AgentDeployment) : Type 0 where
  pub canary : ad.spec.rollout.strategy ≡ Strategy.canary
  pub deployed : ad.status.stable_version ≢ ""
  pub changed : ad.spec.image ≢ ad.status.stable_version
  pub idle : ad.status.phase ≢ Phase.rollout_in_progress
  pub new :
      ¬ ((ad.status.phase ≡ Phase.rollout_failed) × (ad.spec.image ≡ ad.status.canary_version))

-- A canary is triggered exactly if the strategy is canary, a stable version is known and is not
-- the spec's image, no rollout is in progress, and the image is not one whose rollout has failed.
pub is_canary_triggered_iff : (ad : AgentDeployment) → (is_canary_triggered ad ≡ true) ↔ IsDue ad
unfolding is_canary_triggered
is_canary_triggered_iff ad = (forth, back)
  where
    forth : is_canary_triggered ad ≡ true → IsDue ad
    forth h = record {
      canary = (is_canary_strategy_iff ad.spec.rollout.strategy).0 (ground arith);
      deployed = λ e. ground (arith, eq_iff ad.status.stable_version "");
      changed = λ e. ground (arith, eq_iff ad.spec.image ad.status.stable_version);
      idle = λ e. ground (arith, in_rollout_iff ad.status.phase);
      new = λ (a, b).
          ground
            (arith, has_failed_iff ad.status.phase, eq_iff ad.spec.image ad.status.canary_version);
    }

    back : IsDue ad → is_canary_triggered ad ≡ true
    back d = ground (
      arith,
      d.canary,
      d.deployed,
      d.changed,
      d.idle,
      d.new,
      is_canary_strategy_iff ad.spec.rollout.strategy,
      in_rollout_iff ad.status.phase,
      has_failed_iff ad.status.phase,
      eq_iff ad.status.stable_version "",
      eq_iff ad.spec.image ad.status.stable_version,
      eq_iff ad.spec.image ad.status.canary_version,
    )
