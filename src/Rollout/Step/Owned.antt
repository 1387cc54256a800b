-- ===== src/Rollout/Step/Owned.antt =====
-- A step of a rollout stays with the agent.
use agentrax.Prelude.{
  ℤ, pos, negsuc, ltb_ℤ, leb_ℤ, String, ◌==◌, refl, inl, not, get_elem?, Option, none, some,
}
use agentrax.Api.{Time, Duration, CanaryStep, AgentDeployment, ConditionReason}
use agentrax.Api.ErrorRate.{Float}
use agentrax.Rollout.Evaluate.{Evaluation, sample_too_small, breached, healthy, eval_failed}
use agentrax.Rollout.Cluster.{Api, History, agents, Exec, ◌>>=◌, ◌>>◌, pure}
use agentrax.Rollout.Cluster.Traces.{
  Anything, OnObject, Does-bind, Does-pure, Does-crash, Does-if, Does-asks, Does-needed,
  Does-written, Does-update_status, Does-need,
}
use agentrax.Rollout.Cluster.Owned.{
  IsAgent, Stays, Stays-IsAgent, update_status-IsAgent, IsFaithful,
}
use agentrax.Rollout.Resources.Owned.{
  Stays-ensure_canary_deployment, Stays-ensure_canary_service, Stays-ensure_http_route,
}
use agentrax.Rollout.Canary.{Controller, Requeue, rollback}
use agentrax.Rollout.Canary.Owned.{Stays-rollback, Stays-promote, Stays-execute_set_weight}
use agentrax.Rollout.Step.{
  max_wait, rem, with_pause_started, with_unreachable_since, sample_insufficient, advanced,
  finish_pause, wait_remaining, extend_pause, clear_unreachable, mark_unreachable, fail_safe,
  unreachable, since, judge, paused, execute_pause, self_heal_objects, self_heal_route, run_step,
  picked, pick_step, step,
}

module _ (api : Api) (faithful : IsFaithful api) (ad : AgentDeployment) where
  abbrev Again : AgentDeployment → Type 0
  Again = IsAgent ad.namespace ad.name

  Stays-wait_remaining :
      (duration : Duration) (r : Option ℤ) → Stays api ad Anything (wait_remaining duration r)
  unfolding wait_remaining
  Stays-wait_remaining duration none = Does-crash api _ {A = Requeue} Anything
  Stays-wait_remaining duration (some r) = Does-pure api _ {A = Requeue} Anything _ tt

  Stays-finish_pause :
      (idx : ℤ) (duration elapsed : Duration)
      → Stays api ad Anything (finish_pause idx duration elapsed ad)
  unfolding finish_pause advanced
  Stays-finish_pause idx duration elapsed =
      Does-if api _ {A = Requeue} Anything (ltb_ℤ elapsed duration) _ _
        (Does-pure api _ Anything _ tt)
        (Does-bind api _ Again Anything _ _ (Does-asks api _ Again _ (λ h. (refl, refl))) λ next is.
          Does-written api _ Again Anything next _ _ (λ a. (is.0, inl is.1))
            (λ h. update_status-IsAgent api faithful _ _ next h is)
            λ stored w. Does-pure api _ {A = Requeue} Anything _ tt)

  Stays-clear_unreachable : (t : Option Time) → Stays api ad Again (clear_unreachable t ad)
  unfolding clear_unreachable with_unreachable_since
  Stays-clear_unreachable none = Does-pure api _ Again ad (refl, refl)
  Stays-clear_unreachable (some t) =
      Does-bind api _ (OnObject Again) Again _ _
        (Does-update_status api _ Again _ (λ a. (refl, inl refl))
          (λ h. update_status-IsAgent api faithful _ _ _ h (refl, refl)))
        (λ r o. Does-need api _ Again _ r o)

  Stays-mark_unreachable :
      (now : Time) (t : Option Time) → Stays api ad Again (mark_unreachable now t ad)
  unfolding mark_unreachable with_unreachable_since
  Stays-mark_unreachable now (some t) = Does-pure api _ Again ad (refl, refl)
  Stays-mark_unreachable now none =
      Does-bind api _ (OnObject Again) Again _ _
        (Does-update_status api _ Again _ (λ a. (refl, inl refl))
          (λ h. update_status-IsAgent api faithful _ _ _ h (refl, refl)))
        (λ r o. Does-need api _ Again _ r o)

  Stays-fail_safe :
      (c : Controller) (now : Time) (t : Option Time) → Stays api ad Anything (fail_safe c now ad t)
  unfolding fail_safe
  Stays-fail_safe c now none = Does-crash api _ {A = Requeue} Anything
  Stays-fail_safe c now (some t) =
      Does-if api _ {A = Requeue} Anything (not (leb_ℤ c.fail_safe_timeout (since now t))) _ _
        (Does-pure api _ Anything _ tt)
        (Does-bind api _ Anything Anything _ _
          (Stays-rollback api faithful ad ConditionReason.prometheus_unavailable)
          (λ u v. Does-pure api _ {A = Requeue} Anything _ tt))

module _ (api : Api) (faithful : IsFaithful api) where
  -- What follows once the agent has been read again or written.
  Stays-extend_pause :
      (idx : ℤ) (duration elapsed : Duration) (ad : AgentDeployment)
      → Stays api ad Anything (extend_pause idx duration elapsed ad)
  unfolding extend_pause sample_insufficient
  Stays-extend_pause idx duration elapsed ad =
      let Again : AgentDeployment → Type 0 = IsAgent ad.namespace ad.name in
      Does-bind api _ Again Anything _ _ (Does-asks api _ Again _ (λ h. (refl, refl))) λ marked is.
        Does-written api _ Again Anything marked _ _ (λ a. (is.0, inl is.1))
          (λ h. update_status-IsAgent api faithful _ _ marked h is)
          λ stored w.
            Does-if api _ {A = Requeue} Anything (ltb_ℤ elapsed (max_wait duration)) _ _
              (Stays-wait_remaining api faithful ad duration (rem elapsed duration))
              (Stays-IsAgent api _ _ stored Anything (finish_pause idx duration elapsed stored) w
                (Stays-finish_pause api faithful stored idx duration elapsed))

  Stays-unreachable :
      (c : Controller) (now : Time) (ad : AgentDeployment)
      → Stays api ad Anything (unreachable c now ad)
  unfolding unreachable
  Stays-unreachable c now ad =
      let Again : AgentDeployment → Type 0 = IsAgent ad.namespace ad.name in
      Does-bind api _ Again Anything _ _
        (Stays-mark_unreachable api faithful ad now ad.status.prom_unreachable_since)
        λ marked is.
          Stays-IsAgent api _ _ marked Anything
            (fail_safe c now marked marked.status.prom_unreachable_since) is
            (Stays-fail_safe api faithful marked c now marked.status.prom_unreachable_since)

  -- What is done with the agent whose failed queries are forgotten.
  Stays-cleared :
      (ad : AgentDeployment) (f : AgentDeployment → Exec Requeue)
      → ((cleared : AgentDeployment) → Stays api cleared Anything (f cleared))
      → Stays api ad Anything (clear_unreachable ad.status.prom_unreachable_since ad >>= f)
  Stays-cleared ad f kf =
      Does-bind api _ (IsAgent ad.namespace ad.name) Anything _ _
        (Stays-clear_unreachable api faithful ad ad.status.prom_unreachable_since)
        λ cleared is. Stays-IsAgent api _ _ cleared Anything (f cleared) is (kf cleared)

  Stays-rolled_back :
      (ad : AgentDeployment) (reason : ConditionReason)
      → Stays api ad Anything (rollback ad reason >> pure {A = Requeue} none)
  Stays-rolled_back ad reason =
      Does-bind api _ Anything Anything _ _ (Stays-rollback api faithful ad reason)
        λ u v. Does-pure api _ {A = Requeue} Anything _ tt

  Stays-judge :
      (c : Controller) {F : Type 0} (now : Time) (idx : ℤ) (duration elapsed : Duration)
      (ad : AgentDeployment) (e : Evaluation F)
      → Stays api ad Anything (judge c now idx duration elapsed ad e)
  unfolding judge
  Stays-judge c now idx duration elapsed ad (eval_failed e) = Stays-unreachable c now ad
  Stays-judge c now idx duration elapsed ad (breached b) =
      Stays-cleared ad _ λ cleared. Stays-rolled_back cleared ConditionReason.threshold_breached
  Stays-judge c now idx duration elapsed ad (sample_too_small n) =
      Stays-cleared ad _ λ cleared. Stays-extend_pause idx duration elapsed cleared
  Stays-judge c now idx duration elapsed ad (healthy n r p) =
      Stays-cleared ad _ λ cleared. Stays-finish_pause api faithful cleared idx duration elapsed

module _ (api : Api) (faithful : IsFaithful api) (c : Controller) (fl : Float)
    (quote : String → String) (prom : History → String → Option fl.F) where
  Stays-paused :
      (now : Time) (idx : ℤ) (duration : Duration) (ad : AgentDeployment) (t : Option Time)
      → Stays api ad Anything (paused c fl quote prom now idx duration ad t)
  unfolding paused with_pause_started
  Stays-paused now idx duration ad none =
      Does-written api _ (IsAgent ad.namespace ad.name) Anything _ _ _ (λ a. (refl, inl refl))
        (λ h. update_status-IsAgent api faithful _ _ _ h (refl, refl))
        λ stored w. Does-pure api _ {A = Requeue} Anything _ tt
  Stays-paused now idx duration ad (some started) =
      Does-bind api _ Anything Anything _ _ (Does-asks api _ Anything _ (λ h. tt))
        λ e u. Stays-judge api faithful c now idx duration (since now started) ad e

  Stays-execute_pause :
      (now : Time) (ad : AgentDeployment) (idx : ℤ) (duration : Duration)
      → Stays api ad Anything (execute_pause c fl quote prom now ad idx duration)
  unfolding execute_pause
  Stays-execute_pause now ad idx duration =
      Does-needed api _ (IsAgent ad.namespace ad.name) Anything agents (λ api. api.agent) _ _ _ _
        (λ a. refl) (λ h. faithful.agent h _ _)
        λ latest again.
          Stays-IsAgent api _ _ latest Anything
            (paused c fl quote prom now idx duration latest latest.status.pause_started_at) again
            (Stays-paused now idx duration latest latest.status.pause_started_at)

  Stays-self_heal_objects :
      (ad : AgentDeployment) → Stays api ad Anything (self_heal_objects c fl quote prom ad)
  unfolding self_heal_objects
  Stays-self_heal_objects ad =
      Does-if api _ Anything (ad.status.canary_version == "") _ _ (Does-pure api _ Anything tt tt) (
        Does-bind api _ Anything Anything _ _ (Stays-ensure_canary_deployment api faithful ad)
          λ u v. Stays-ensure_canary_service api faithful ad)

  Stays-self_heal_route :
      (ad : AgentDeployment) → Stays api ad Anything (self_heal_route c fl quote prom ad)
  unfolding self_heal_route
  Stays-self_heal_route ad =
      Does-if api _ Anything (not (ltb_ℤ (pos 0) ad.status.canary_weight)) _ _
        (Does-pure api _ Anything tt tt) (Stays-ensure_http_route api faithful ad _ _ _ _)

  Stays-picked :
      (now : Time) (ad : AgentDeployment) (idx : ℤ) (s : Option CanaryStep)
      → Stays api ad Anything (picked c fl quote prom now ad idx s)
  unfolding picked run_step
  Stays-picked now ad idx none =
      Does-bind api _ Anything Anything _ _ (Stays-promote api faithful c ad)
        λ u v. Does-pure api _ {A = Requeue} Anything _ tt
  Stays-picked now ad idx (some s) = run s.set_weight s.pause
    where
      run :
          (weight : Option ℤ) (pause : Option Duration)
          → Stays api ad Anything (run_step c fl quote prom now ad idx weight pause)
      run (some weight) pause = Stays-execute_set_weight api faithful ad c idx weight
      run none (some duration) = Stays-execute_pause now ad idx duration
      run none none = Stays-rolled_back api faithful ad ConditionReason.invalid_step

  Stays-pick_step :
      (now : Time) (ad : AgentDeployment) (idx : ℤ)
      → Stays api ad Anything (pick_step c fl quote prom now ad idx)
  unfolding pick_step
  Stays-pick_step now ad (negsuc i) = Does-crash api _ {A = Requeue} Anything
  Stays-pick_step now ad (pos i) = Stays-picked now ad (pos i) (get_elem? ad.spec.rollout.steps i)

  pub Stays-step :
      (now : Time) (ad : AgentDeployment) → Stays api ad Anything (step c fl quote prom now ad)
  unfolding step
  Stays-step now ad = Does-bind api _ Anything Anything _ _ (Stays-self_heal_objects ad) λ u1 v1.
      Does-bind api _ Anything Anything _ _ (Stays-self_heal_route ad)
        λ u2 v2. Stays-pick_step now ad ad.status.canary_step_index
