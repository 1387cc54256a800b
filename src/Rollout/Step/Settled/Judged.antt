-- ===== src/Rollout/Step/Settled/Judged.antt =====
-- A call of Step whose clocks have run out, against a server that works: the rollout ends or gets on.
use agentrax.Prelude.{
  ℕ, ◌<◌, ℤ, pos, negsuc, ◌≤ℤ◌, ltb_ℤ, leb_ℤ, String, ◌==◌, ◌≡◌, refl, sym, ap, inl, inr, arith,
  true, false, not, get_elem?, get_elem?-lt, All-get_elem?, length, Option, none, some,
}
use agentrax.Api.{Time, Duration, CanaryStep, Phase, AgentDeployment, ConditionReason}
use agentrax.Api.ErrorRate.{Float}
use agentrax.Rollout.Evaluate.{
  Evaluation, sample_too_small, breached, healthy, eval_failed, evaluate,
}
use agentrax.Rollout.Cluster.{Api, History, Exec, pure, need, continue, ◌>>=◌, ◌>>◌}
use agentrax.Rollout.Cluster.Stored.{
  IsStoring, Settles, Ends, Ends-settled, Ends-bind, Ends-pure, Ends-asks, Ends-if, Ends-fetched,
  Ends-written, Ends-updated, Ends-mono, Ends-given, Settles-if, Settles-pure, Settles-bind,
}
use agentrax.Rollout.Resources.Settled.{
  Settled-ensure_canary_deployment, Settled-ensure_canary_service, Settled-ensure_http_route,
}
use agentrax.Rollout.Canary.{Controller, Requeue, rollback, weighted, execute_set_weight}
use agentrax.Rollout.Canary.Settled.{promote-EndsIn, execute_set_weight-Ends}
use agentrax.Rollout.Step.{
  since, max_wait, with_pause_started, with_unreachable_since, advanced, finish_pause, extend_pause,
  clear_unreachable, mark_unreachable, fail_safe, unreachable, judge, paused, execute_pause,
  self_heal_objects, self_heal_route, run_step, picked, pick_step, step,
}
use agentrax.Rollout.Step.Progress.{
  steps_of, Every, IsPatient, IsOnTrack, GetsOn, IsNext, IsNext-GetsOn, max_wait-le,
}
use agentrax.Rollout.Step.Settled.{
  IsStill, IsStill-clocks, advanced-IsNext, weighted-IsNext, finish_pause-Ends, extend_pause-Ends,
  clear_unreachable-Ends, rollback_now-Ends,
}

module _ (api : Api) (first : AgentDeployment) (stores : IsStoring api first) (patience : Duration)
    (c : Controller) (patient : IsPatient c (steps_of first) patience) (now : Time)
    (ad : AgentDeployment) (i : ℕ) (s : IsStill api first stores now i ad) where
  -- What every branch comes to.
  abbrev Progress : Exec Requeue → Type 0
  Progress m = Ends api first ad (λ r next. GetsOn first now ad next) m

  abbrev Gets : Requeue → AgentDeployment → Type 0
  Gets r next = GetsOn first now ad next

  rolled-Progress :
      (l : AgentDeployment) (reason : ConditionReason)
      → Ends api first l Gets (rollback l reason >> pure {A = Requeue} none)
  rolled-Progress l reason =
      Ends-mono api first l (λ r next. next.status.phase ≡ Phase.rollout_failed) Gets
        (rollback l reason >> pure {A = Requeue} none) (λ r next e. inl (inr e))
        (rollback_now-Ends api first stores now l reason)

  fail_safe-Progress :
      (l : AgentDeployment) (o : Option Time) (t : Time)
      → o ≡ some t
      → c.fail_safe_timeout ≤ℤ since now t
      → Ends api first l Gets (fail_safe c now l o)
  unfolding fail_safe
  fail_safe-Progress l o t clock late =
      let over : leb_ℤ c.fail_safe_timeout (since now t) ≡ true = ground (arith, late) in
      rw (clock, over) (rolled-Progress l ConditionReason.prometheus_unavailable)

  -- Prometheus does not answer: the clock of the outage begins, or has run out.
  abbrev marked : AgentDeployment
  marked = with_unreachable_since (some now) ad

  marked-Gets : ad.status.prom_unreachable_since ≡ none → GetsOn first now ad marked
  unfolding with_unreachable_since
  marked-Gets clock = inr (
    (IsStill-clocks api first stores now i ad ad.status.conditions ad.status.pause_started_at
        (some now) s s.on_track.pause (omega arith)).on_track,
    rw clock (omega arith),
  )

  mark_unreachable-Ends :
      Ends api first ad (λ a next. (a ≡ next) × (next ≡ marked)) (mark_unreachable now none ad)
  unfolding mark_unreachable need
  mark_unreachable-Ends =
      let Q : AgentDeployment → AgentDeployment → Type 0 = λ a next. (a ≡ next) × (next ≡ marked) in
      Ends-updated api first stores ad marked Q _ (Ends-pure api first marked Q marked (refl, refl))

  after_mark : AgentDeployment → Exec Requeue
  after_mark l = fail_safe c now l l.status.prom_unreachable_since

  after_mark-Progress :
      ad.status.prom_unreachable_since ≡ none → Ends api first marked Gets (after_mark marked)
  unfolding after_mark fail_safe with_unreachable_since
  after_mark-Progress clock =
      Ends-if api first marked Gets (not (leb_ℤ c.fail_safe_timeout (since now now))) _ _
        (Ends-pure api first marked Gets _ (marked-Gets clock))
        (rolled-Progress marked ConditionReason.prometheus_unavailable)

  unreachable-Progress :
      (o : Option Time)
      → ad.status.prom_unreachable_since ≡ o
      → Every (λ t. patience ≤ℤ since now t) o
      → Progress (mark_unreachable now o ad >>= after_mark)
  unfolding mark_unreachable after_mark pure ◌>>=◌ continue
  unreachable-Progress none clock late =
      Ends-given api first ad (λ a. a ≡ marked) Gets (mark_unreachable now none ad) after_mark
        mark_unreachable-Ends λ a same. rw same (after_mark-Progress clock)
  unreachable-Progress (some t) clock late =
      fail_safe-Progress ad ad.status.prom_unreachable_since t clock
        (omega (arith, late, patient.timeout))

  module _ (duration elapsed : Duration) (small : i < length (steps_of first))
      (long : patience ≤ℤ elapsed) (short : duration ≤ℤ patience) where
    over : ltb_ℤ elapsed duration ≡ false
    over = ground (arith, long, short)

    waited : ltb_ℤ elapsed (max_wait duration) ≡ false
    waited = ground (arith, long, patient.ceiling, max_wait-le duration)

    next-Gets :
        (r : Requeue) (next : AgentDeployment) → IsNext first i now next → GetsOn first now ad next
    next-Gets r next n = IsNext-GetsOn first i now ad next small s.index n

    few : i < 9223372036854775807
    few = omega (arith, small, patient.few)

    -- The clock of the outage is stopped first.
    cleared-Progress :
        (f : AgentDeployment → Exec Requeue)
        → ((l : AgentDeployment) → IsStill api first stores now i l → Ends api first l Gets (f l))
        → Progress (clear_unreachable ad.status.prom_unreachable_since ad >>= f)
    cleared-Progress f kf =
        Ends-given api first ad (IsStill api first stores now i) Gets _ f
          (clear_unreachable-Ends api first stores now i ad ad.status.prom_unreachable_since s) kf

    judge-Progress :
        {F : Type 0} (e : Evaluation F)
        → Every (λ t. patience ≤ℤ since now t) ad.status.prom_unreachable_since
        → Progress (judge c now (pos i) duration elapsed ad e)
    unfolding judge unreachable after_mark
    judge-Progress (eval_failed e) late =
        unreachable-Progress ad.status.prom_unreachable_since refl late
    judge-Progress (breached b) late =
        cleared-Progress _ λ l still. rolled-Progress l ConditionReason.threshold_breached
    judge-Progress (sample_too_small n) late = cleared-Progress _ λ l still.
        Ends-mono api first l (λ r next. IsNext first i now next) Gets
          (extend_pause (pos i) duration elapsed l) next-Gets
          (extend_pause-Ends api first stores now i duration elapsed l few waited over still)
    judge-Progress (healthy n r p) late = cleared-Progress _ λ l still.
        Ends-mono api first l (λ r next. next ≡ advanced api (pos i) l) Gets
          (finish_pause (pos i) duration elapsed l)
          (λ r next same.
            next-Gets r next (rw same (advanced-IsNext api first stores now i l few still)))
          (finish_pause-Ends api first stores now (pos i) duration elapsed l over)

module _ (api : Api) (first : AgentDeployment) (stores : IsStoring api first) (patience : Duration)
    (c : Controller) (patient : IsPatient c (steps_of first) patience) (fl : Float)
    (quote : String → String) (prom : History → String → Option fl.F) (now : Time)
    (ad : AgentDeployment) where
  abbrev GetsFrom : Requeue → AgentDeployment → Type 0
  GetsFrom r next = GetsOn first now ad next

  -- A pause begins, or has run out and is judged.
  paused-Progress :
      (i : ℕ) (duration : Duration) (o : Option Time)
      → IsStill api first stores now i ad
      → i < length (steps_of first)
      → duration ≤ℤ patience
      → ad.status.pause_started_at ≡ o
      → Every (λ t. patience ≤ℤ since now t) o
      → Every (λ t. patience ≤ℤ since now t) ad.status.prom_unreachable_since
      → Ends api first ad GetsFrom (paused c fl quote prom now (pos i) duration ad o)
  unfolding paused with_pause_started
  paused-Progress i duration none s small short clock late outage =
      let begun : GetsOn first now ad (with_pause_started (some now) ad) = inr (
        (IsStill-clocks api first stores now i ad ad.status.conditions (some now)
            ad.status.prom_unreachable_since s (omega arith) s.on_track.outage).on_track,
        rw clock (omega arith),
      ) in
      Ends-written api first stores ad _ GetsFrom _ _ (Ends-pure api first _ GetsFrom _ begun)
  paused-Progress i duration (some t) s small short clock late outage =
      Ends-asks api first ad GetsFrom _ _ λ h.
        judge-Progress api first stores patience c patient now ad i s duration (since now t) small
          late short (evaluate fl quote (prom h) ad duration) outage

  execute_pause-Progress :
      (i : ℕ) (duration : Duration)
      → IsStill api first stores now i ad
      → i < length (steps_of first)
      → duration ≤ℤ patience
      → Every (λ t. patience ≤ℤ since now t) ad.status.pause_started_at
      → Every (λ t. patience ≤ℤ since now t) ad.status.prom_unreachable_since
      → Ends api first ad GetsFrom (execute_pause c fl quote prom now ad (pos i) duration)
  unfolding execute_pause
  execute_pause-Progress i duration s small short pause outage =
      Ends-fetched api first stores ad GetsFrom _ _
        (paused-Progress i duration ad.status.pause_started_at s small short refl pause outage)

  run_step-Progress :
      (i : ℕ) (x : CanaryStep)
      → IsStill api first stores now i ad
      → get_elem? (steps_of first) i ≡ some x
      → Every (λ t. patience ≤ℤ since now t) ad.status.pause_started_at
      → Every (λ t. patience ≤ℤ since now t) ad.status.prom_unreachable_since
      → (weight : Option ℤ) (pause : Option Duration) → Every (λ d. d ≤ℤ patience) pause
      → Ends api first ad GetsFrom (run_step c fl quote prom now ad (pos i) weight pause)
  unfolding run_step
  run_step-Progress i x s here p o (some weight) pause short =
      let lt = get_elem?-lt (steps_of first) i x here in
      Ends-mono api first ad (λ r next. next ≡ weighted c (pos i) weight ad) GetsFrom
        (execute_set_weight c ad (pos i) weight)
        (λ r next same. rw same (
          IsNext-GetsOn first i now ad _ lt s.index (
            weighted-IsNext api first stores now c i weight ad (omega (arith, lt, patient.few)) s)))
        (execute_set_weight-Ends api first stores c ad (pos i) weight)
  run_step-Progress i x s here p o none (some duration) short =
      execute_pause-Progress i duration s (get_elem?-lt (steps_of first) i x here) short p o
  run_step-Progress i x s here p o none none short =
      rolled-Progress api first stores patience c patient now ad i s ad ConditionReason.invalid_step

  picked-Progress :
      (i : ℕ) (x : Option CanaryStep)
      → IsStill api first stores now i ad
      → get_elem? (steps_of first) i ≡ x
      → Every (λ t. patience ≤ℤ since now t) ad.status.pause_started_at
      → Every (λ t. patience ≤ℤ since now t) ad.status.prom_unreachable_since
      → Ends api first ad GetsFrom (picked c fl quote prom now ad (pos i) x)
  unfolding picked
  picked-Progress i none s here p o =
      Ends-bind api first ad (λ u next. next.status.phase ≡ Phase.running) GetsFrom _ _
        (promote-EndsIn api first stores c ad s.on_track.named)
        λ u next runs. Ends-pure api first next GetsFrom none (inl (inl runs))
  picked-Progress i (some x) s here p o = run_step-Progress i x s here p o x.set_weight x.pause (
      All-get_elem? (λ x. Every (λ d. d ≤ℤ patience) x.pause) (steps_of first) i x patient.pauses
        here)

  self_heal_objects-Settles :
      Settles api first (λ u. Unit {0}) (self_heal_objects c fl quote prom ad)
  unfolding self_heal_objects
  self_heal_objects-Settles =
      Settles-if api first _ (ad.status.canary_version == "") _ _ (Settles-pure api first _ tt tt) (
        Settles-bind api first _ _ _ _ (Settled-ensure_canary_deployment api first stores ad)
          λ u v. Settled-ensure_canary_service api first stores ad)

  self_heal_route-Settles : Settles api first (λ u. Unit {0}) (self_heal_route c fl quote prom ad)
  unfolding self_heal_route
  self_heal_route-Settles =
      Settles-if api first _ (not (ltb_ℤ (pos 0) ad.status.canary_weight)) _ _
        (Settles-pure api first _ tt tt) (Settled-ensure_http_route api first stores ad _ _ _ _)

  pick_step-Progress :
      (idx : ℤ)
      → IsOnTrack first now ad
      → ad.status.canary_step_index ≡ idx
      → Every (λ t. patience ≤ℤ since now t) ad.status.pause_started_at
      → Every (λ t. patience ≤ℤ since now t) ad.status.prom_unreachable_since
      → Ends api first ad GetsFrom (pick_step c fl quote prom now ad idx)
  unfolding pick_step
  pick_step-Progress (negsuc n) on_track here p o =
      let (i, is) = on_track.index in absurd (ground (arith, here, is))
  pick_step-Progress (pos i) on_track here p o =
      picked-Progress i (get_elem? ad.spec.rollout.steps i)
        (record { on_track = on_track; index = here })
        (ap (λ xs. get_elem? xs i) (sym on_track.same_steps)) p o

  -- Once its clocks have run out, a call of Step succeeds, and the rollout ends or gets on.
  pub step-Progress :
      IsOnTrack first now ad
      → Every (λ t. patience ≤ℤ since now t) ad.status.pause_started_at
      → Every (λ t. patience ≤ℤ since now t) ad.status.prom_unreachable_since
      → Ends api first ad (λ r next. GetsOn first now ad next) (step c fl quote prom now ad)
  unfolding step
  step-Progress on_track p o =
      Ends-settled api first (λ u. Unit {0}) ad GetsFrom _ _ self_heal_objects-Settles
        λ u v.
          Ends-settled api first (λ u. Unit {0}) ad GetsFrom _ _ self_heal_route-Settles
            λ w x. pick_step-Progress ad.status.canary_step_index on_track refl p o
