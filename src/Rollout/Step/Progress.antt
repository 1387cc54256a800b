-- ===== src/Rollout/Step/Progress.antt =====
-- What one step makes of a rollout, against a server that works: it ends, or gets on.
use agentrax.Prelude.{
  ℕ, suc, ◌+◌, ◌*◌, ◌-◌, ◌<◌, ◌≤◌, ℤ, pos, pos_part, ◌-ℤ◌, ◌+ℤ◌, ◌≤ℤ◌, int_laws, max_int64, ◌==◌,
  ◌≡◌, ◌⊎◌, inr, arith, true, false, length, All, Option, none, some, List,
}
use agentrax.Api.{Time, Duration, CanaryStep, Phase, AgentDeployment}
use agentrax.Rollout.Canary.{Controller}
use agentrax.Controller.Objects.{in_rollout}
use agentrax.Rollout.Step.{saturate, since, max_wait}

-- Promoted, or rolled back.
abbrev pub HasEnded : AgentDeployment → Type 0
HasEnded ad = (ad.status.phase ≡ Phase.running) ⊎ (ad.status.phase ≡ Phase.rollout_failed)

abbrev pub Every : (Time → Type 0) → Option Time → Type 0
Every P none = Unit
Every P (some t) = P t

abbrev absent : Option Time → ℕ
absent none = 1
absent (some t) = 0

-- What a patience has to reach: the fail-safe timeout, the ceiling of a pause's extension and every
-- pause of the steps.
pub record IsPatient (c : Controller) (steps : List CanaryStep) (patience : Duration) : Type 0 where
  pub timeout : c.fail_safe_timeout ≤ℤ patience
  pub ceiling : pos 900000000000 ≤ℤ patience
  pub small : patience ≤ℤ max_int64
  pub pauses : All (λ s. Every (λ d. d ≤ℤ patience) s.pause) steps
  pub few : length steps < 9223372036854775807

abbrev pub steps_of : AgentDeployment → List CanaryStep
steps_of ad = ad.spec.rollout.steps

-- `first` is the agent as the rollout has found it.
module _ (first : AgentDeployment) where
  -- The rollout goes on at one of the steps or past them, and its clocks have not begun after `now`.
  pub record IsOnTrack (now : Time) (ad : AgentDeployment) : Type 0 where
    pub same_steps : steps_of ad ≡ steps_of first
    pub same_finalizers : ad.finalizers ≡ first.finalizers
    pub kept : ad.deletion_timestamp ≡ none
    pub rolling : in_rollout ad.status.phase ≡ true
    pub named : (ad.status.canary_version == "") ≡ false
    pub index : (i : ℕ) × (ad.status.canary_step_index ≡ pos i)
    pub pause : Every (λ t. t ≤ℤ now) ad.status.pause_started_at
    pub outage : Every (λ t. t ≤ℤ now) ad.status.prom_unreachable_since

  -- How many calls of Step are left at most, less one: three for each step, and one for each clock
  -- that has not begun.
  abbrev pub left : AgentDeployment → ℕ
  left ad =
      3 * (length (steps_of first) - pos_part ad.status.canary_step_index)
      + (absent ad.status.pause_started_at + absent ad.status.prom_unreachable_since)

  -- The rollout has ended, or fewer steps are left.
  abbrev pub GetsOn : Time → AgentDeployment → AgentDeployment → Type 0
  GetsOn now ad next = HasEnded next ⊎ (IsOnTrack now next × (left next < left ad))

  -- The next step's index, with no pause begun.
  pub record IsNext (i : ℕ) (now : Time) (next : AgentDeployment) : Type 0 where
    pub on_track : IsOnTrack now next
    pub index : next.status.canary_step_index ≡ pos (suc i)

  absent-le : (t : Option Time) → absent t ≤ 1
  absent-le none = omega arith
  absent-le (some t) = omega arith

  pub left-le : (ad : AgentDeployment) → left ad ≤ 3 * length (steps_of first) + 2
  left-le ad =
      let p = absent-le ad.status.pause_started_at in
      let o = absent-le ad.status.prom_unreachable_since in omega (arith, p, o)

  pub IsNext-GetsOn :
      (i : ℕ) (now : Time) (ad next : AgentDeployment)
      → i < length (steps_of first)
      → ad.status.canary_step_index ≡ pos i
      → IsNext i now next
      → GetsOn now ad next
  IsNext-GetsOn i now ad next lt here n =
      let p = absent-le next.status.pause_started_at in
      let o = absent-le next.status.prom_unreachable_since in
      inr (n.on_track, rw (here, n.index) (omega (arith, lt, p, o)))

  weaken :
      (t before now : Time) (o : Option Time)
      → before ≤ℤ now
      → Every (λ t. t ≤ℤ before) o
      → Every (λ t. t ≤ℤ now) o
  weaken t before now none le h = tt
  weaken t before now (some x) le h = omega (arith, le, h)

  pub IsOnTrack-later :
      (before now : Time) (ad : AgentDeployment)
      → before ≤ℤ now
      → IsOnTrack before ad
      → IsOnTrack now ad
  IsOnTrack-later before now ad le o = record {
    same_steps = o.same_steps;
    same_finalizers = o.same_finalizers;
    kept = o.kept;
    rolling = o.rolling;
    named = o.named;
    index = o.index;
    pause = weaken now before now ad.status.pause_started_at le o.pause;
    outage = weaken now before now ad.status.prom_unreachable_since le o.outage;
  }

saturate-ge :
    (patience d : ℤ)
    → patience ≤ℤ max_int64
    → pos 0 ≤ℤ patience
    → patience ≤ℤ d
    → patience ≤ℤ saturate d
unfolding saturate
saturate-ge patience d small nonneg le = ground (arith, small, nonneg, le)

sub-ge :
    (patience before now t : ℤ) → before +ℤ patience ≤ℤ now → t ≤ℤ before → patience ≤ℤ now -ℤ t
unfolding ◌-ℤ◌ ◌+ℤ◌
sub-ge patience before now t late le = omega (int_laws, late, le)

-- A clock that had begun by `before` has run for the patience at `now`.
pub since-late :
    (patience : Duration) (before now : Time) (o : Option Time)
    → patience ≤ℤ max_int64
    → pos 0 ≤ℤ patience
    → before +ℤ patience ≤ℤ now
    → Every (λ t. t ≤ℤ before) o
    → Every (λ t. patience ≤ℤ since now t) o
unfolding since
since-late patience before now none small nonneg late h = tt
since-late patience before now (some t) small nonneg late h =
    saturate-ge patience _ small nonneg (sub-ge patience before now t late h)

-- The ceiling bounds the longest wait.
pub max_wait-le : (duration : Duration) → max_wait duration ≤ℤ pos 900000000000
unfolding max_wait
max_wait-le duration = ground arith
