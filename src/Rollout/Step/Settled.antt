-- ===== src/Rollout/Step/Settled.antt =====
-- The parts of a pause against a server that works.
pub mod Judged
use agentrax.Prelude.{
  ℕ, suc, ◌<◌, ◌≤◌, ◌+◌, ℤ, pos, negsuc, pos_part, neg_part, ◌≤ℤ◌, ltb_ℤ, leb_ℤ, sub32, wrap64,
  wrap64_id, add64, String, ◌==◌, ◌≡◌, refl, sym, ap, ◌∙◌, inl, inr, arith, Bool, true, false, not,
  Bool-cases, int_laws, ◌+ℤ◌, get_elem?, get_elem?-lt, All-get_elem?, length, Option, Option-cases,
  none, some, List,
}
use agentrax.Api.{Time, Duration, CanaryStep, Phase, AgentDeployment, Condition, ConditionReason}
use agentrax.Api.ErrorRate.{Float}
use agentrax.Rollout.Evaluate.{
  Evaluation, sample_too_small, breached, healthy, eval_failed, evaluate,
}
use agentrax.Rollout.Cluster.{Api, History, Exec, pure, need, continue, ◌>>=◌, ◌>>◌}
use agentrax.Rollout.Cluster.Stored.{
  IsStoring, Settles, Ends, Ends-settled, Ends-bind, Ends-pure, Ends-asks, Ends-if, Ends-fetched,
  Ends-written, Ends-updated, Ends-mono, Ends-given, Settles-if, Settles-pure, Settles-bind,
}
use agentrax.Rollout.Resources.Settled.{
  Settled-ensure_canary_deployment, Settled-ensure_canary_service, Settled-ensure_http_route,
}
use agentrax.Rollout.Canary.{Controller, Requeue, second, rollback, weighted, execute_set_weight}
use agentrax.Rollout.Canary.Settled.{rollback-EndsIn, promote-EndsIn, execute_set_weight-Ends}
use agentrax.Controller.Objects.{in_rollout}
use agentrax.Rollout.Step.{
  since, max_wait, with_pause_started, with_unreachable_since, sample_insufficient, advanced,
  finish_pause, extend_pause, clear_unreachable, mark_unreachable, fail_safe, unreachable, judge,
  paused, execute_pause, self_heal_objects, self_heal_route, run_step, picked, pick_step, step,
}
use agentrax.Rollout.Step.Progress.{
  steps_of, Every, IsPatient, IsOnTrack, left, GetsOn, IsNext, IsNext-GetsOn, max_wait-le,
}

add64-suc : (i : ℕ) → i < 9223372036854775807 → add64 (pos i) (pos 1) ≡ pos (suc i)
add64-suc i small =
    let sum : pos i +ℤ pos 1 ≡ pos (suc i) = omega int_laws in
    ap wrap64 sum ∙ wrap64_id (pos (suc i)) (omega (arith, small))

module _ (api : Api) (first : AgentDeployment) (stores : IsStoring api first) (now : Time) where
  -- The same step of the rollout.
  record IsStill (i : ℕ) (l : AgentDeployment) : Type 0 where
    on_track : IsOnTrack first now l
    index : l.status.canary_step_index ≡ pos i

  -- Conditions and clocks do not move it.
  IsStill-clocks :
      (i : ℕ) (l : AgentDeployment) (cs : List Condition) (p o : Option Time)
      → IsStill i l
      → Every (λ t. t ≤ℤ now) p
      → Every (λ t. t ≤ℤ now) o
      → IsStill i (record l {
        status = record l.status {
          conditions = cs;
          pause_started_at = p;
          prom_unreachable_since = o;
        };
      })
  IsStill-clocks i l cs p o s hp ho = record {
    on_track = record {
      same_steps = s.on_track.same_steps;
      same_finalizers = s.on_track.same_finalizers;
      kept = s.on_track.kept;
      rolling = s.on_track.rolling;
      named = s.on_track.named;
      index = s.on_track.index;
      pause = hp;
      outage = ho;
    };
    index = s.index;
  }

  advanced-IsNext :
      (i : ℕ) (l : AgentDeployment)
      → i < 9223372036854775807
      → IsStill i l
      → IsNext first i now (advanced api (pos i) l)
  unfolding advanced
  advanced-IsNext i l small s =
      let next : add64 (pos i) (pos 1) ≡ pos (suc i) = add64-suc i small in
      record {
        on_track = record {
          same_steps = s.on_track.same_steps;
          same_finalizers = s.on_track.same_finalizers;
          kept = s.on_track.kept;
          rolling = s.on_track.rolling;
          named = s.on_track.named;
          index = (suc i, next);
          pause = tt;
          outage = s.on_track.outage;
        };
        index = next;
      }

  weighted-IsNext :
      (c : Controller) (i : ℕ) (weight : ℤ) (l : AgentDeployment)
      → i < 9223372036854775807
      → IsStill i l
      → IsNext first i now (weighted c (pos i) weight l)
  unfolding weighted
  weighted-IsNext c i weight l small s =
      let next : add64 (pos i) (pos 1) ≡ pos (suc i) = add64-suc i small in
      record {
        on_track = record {
          same_steps = s.on_track.same_steps;
          same_finalizers = s.on_track.same_finalizers;
          kept = s.on_track.kept;
          rolling = s.on_track.rolling;
          named = s.on_track.named;
          index = (suc i, next);
          pause = tt;
          outage = s.on_track.outage;
        };
        index = next;
      }

  -- A pause that is over ends with the next step.
  finish_pause-Ends :
      (idx : ℤ) (duration elapsed : Duration) (l : AgentDeployment)
      → ltb_ℤ elapsed duration ≡ false
      → Ends api first l (λ r next. next ≡ advanced api idx l) (finish_pause idx duration elapsed l)
  unfolding finish_pause
  finish_pause-Ends idx duration elapsed l late =
      let Q : Requeue → AgentDeployment → Type 0 = λ r next. next ≡ advanced api idx l in
      rw late (
        Ends-asks api first l Q _ _
          λ h. Ends-written api first stores l _ Q _ _ (Ends-pure api first _ Q _ refl))

  extend_pause-Ends :
      (i : ℕ) (duration elapsed : Duration) (l : AgentDeployment)
      → i < 9223372036854775807
      → ltb_ℤ elapsed (max_wait duration) ≡ false
      → ltb_ℤ elapsed duration ≡ false
      → IsStill i l
      → Ends api first l
          (λ r next. IsNext first i now next)
          (extend_pause (pos i) duration elapsed l)
  unfolding extend_pause sample_insufficient
  extend_pause-Ends i duration elapsed l small long late s =
      let Q : Requeue → AgentDeployment → Type 0 = λ r next. IsNext first i now next in
      Ends-asks api first l Q _ _ λ h. Ends-written api first stores l _ Q _ _ (
        rw long (
          Ends-mono api first _ (λ r next. next ≡ advanced api (pos i) (sample_insufficient api l))
            Q (finish_pause (pos i) duration elapsed (sample_insufficient api l))
            (λ r next same. rw same (
              advanced-IsNext i _ small (
                IsStill-clocks i l _ l.status.pause_started_at l.status.prom_unreachable_since s
                  s.on_track.pause s.on_track.outage)))
            (finish_pause-Ends (pos i) duration elapsed _ late)))

  -- The clock of an outage is stopped, and the rollout stands where it stood.
  clear_unreachable-Ends :
      (i : ℕ) (l : AgentDeployment) (t : Option Time)
      → IsStill i l
      → Ends api first l (λ a next. (a ≡ next) × IsStill i next) (clear_unreachable t l)
  unfolding clear_unreachable with_unreachable_since need
  clear_unreachable-Ends i l none s =
      Ends-pure api first l (λ a next. (a ≡ next) × IsStill i next) l (refl, s)
  clear_unreachable-Ends i l (some t) s =
      let Q : AgentDeployment → AgentDeployment → Type 0 = λ a next. (a ≡ next) × IsStill i next in
      Ends-updated api first stores l _ Q _ (
        Ends-pure api first _ Q _ (
          refl,
          IsStill-clocks i l l.status.conditions l.status.pause_started_at none s s.on_track.pause
              tt,
        ))

  -- A rollback ends the rollout.
  rollback_now-Ends :
      (l : AgentDeployment) (reason : ConditionReason)
      → Ends api first l
          (λ r next. next.status.phase ≡ Phase.rollout_failed)
          (rollback l reason >> pure {A = Requeue} none)
  rollback_now-Ends l reason =
      Ends-bind api first l (λ u next. next.status.phase ≡ Phase.rollout_failed)
        (λ r next. next.status.phase ≡ Phase.rollout_failed) _ _
        (rollback-EndsIn api first stores l reason)
        λ u next failed.
          Ends-pure api first next (λ r next. next.status.phase ≡ Phase.rollout_failed) none failed
