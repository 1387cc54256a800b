-- ===== src/Controller/Agents/Termination.antt =====
-- A rollout ends: Reconcile, called again and again for an agent whose rollout is in progress.
use agentrax.Prelude.{
  ◌+◌, ◌*◌, ◌<◌, ◌≤◌, pos, ◌+ℤ◌, ◌≤ℤ◌, String, ◌≡◌, refl, ap, inl, inr, arith, int_laws, true,
  false, length, Option, none, some, List, [], ◌∷◌, if◌then◌else◌,
}
use agentrax.Api.{Time, Duration, Phase, AgentDeployment, ConditionReason}
use agentrax.Api.ErrorRate.{Float}
use agentrax.Rollout.Cluster.{Api, History, pure, ◌>>=◌, ◌>>◌, continue}
use agentrax.Rollout.Cluster.Stored.{
  stored, IsStoring, Ends, Ends-found, Ends-asks, Ends-if, Ends-bind, Ends-pure,
}
use agentrax.Rollout.Canary.{Controller, Requeue, rollback}
use agentrax.Rollout.Canary.Settled.{rollback-EndsIn}
use agentrax.Rollout.Step.{since}
use agentrax.Rollout.Step.Progress.{
  HasEnded, Every, steps_of, IsPatient, IsOnTrack, left, left-le, GetsOn, since-late,
  IsOnTrack-later,
}
use agentrax.Rollout.Step.Settled.Judged.{step-Progress}
use agentrax.Controller.Objects.{in_rollout, is_abort_requested}
use agentrax.Controller.Agents.{
  Reconciler, ensure_finalizer, with_canary, reconcile_live, by_deletion, fetched, reconcile,
}

-- Each time comes at least the patience after the one before it.
abbrev pub Spaced : Duration → Time → List Time → Type 0
Spaced patience before [] = Unit
Spaced patience before (now ∷ times) = (before +ℤ patience ≤ℤ now) × Spaced patience now times

before-le :
    (before now : Time) (patience : Duration)
    → pos 0 ≤ℤ patience
    → before +ℤ patience ≤ℤ now
    → before ≤ℤ now
before-le before now patience nonneg late = omega (int_laws, nonneg, late)

module _ (r : Reconciler) (fl : Float) (quote : String → String)
    (prom : History → String → Option fl.F) (api : Api) (first : AgentDeployment) where
  -- The calls after Reconcile has been called for the stored agent at each of the times, as long as
  -- its rollout is in progress.
  unfoldable pub rounds : List Time → History → History
  unfolding in_rollout
  rounds [] h = h
  rounds (now ∷ times) h =
      let ad = stored first h in
      rounds times (
        if in_rollout ad.status.phase
        then (reconcile r fl quote prom ad.namespace ad.name now api h).1
        else h)

  rounds-HasEnded :
      (times : List Time) (h : History)
      → HasEnded (stored first h)
      → HasEnded (stored first (rounds times h))
  unfolding rounds
  rounds-HasEnded [] h ended = ended
  rounds-HasEnded (now ∷ times) h ended =
      let idle : in_rollout (stored first h).status.phase ≡ false = still ended in
      rw idle (rounds-HasEnded times h ended)
    where
      still : HasEnded (stored first h) → in_rollout (stored first h).status.phase ≡ false
      still (inl runs) = ap in_rollout runs
      still (inr failed) = ap in_rollout failed

  -- The reconciler has a canary controller with that patience, and the agent has its finalizer.
  pub record IsReady (c : Controller) (patience : Duration) : Type 0 where
    pub stores : IsStoring api first
    pub controller : r.canary_controller ≡ some c
    pub guarded :
        (ad : AgentDeployment) → ad.finalizers ≡ first.finalizers → api.has_finalizer ad ≡ true
    pub patient : IsPatient c (steps_of first) patience

  module _ (c : Controller) (patience : Duration) (ready : IsReady c patience) where
    module _ (now : Time) (ad : AgentDeployment) (on_track : IsOnTrack first now ad)
        (pause : Every (λ t. patience ≤ℤ since now t) ad.status.pause_started_at)
        (outage : Every (λ t. patience ≤ℤ since now t) ad.status.prom_unreachable_since) where
      abbrev Gets : Requeue → AgentDeployment → Type 0
      Gets requeue next = GetsOn first now ad next

      aborted-Ends : Ends api first ad Gets (rollback ad ConditionReason.manual_abort >> pure none)
      aborted-Ends =
          Ends-bind api first ad (λ u next. next.status.phase ≡ Phase.rollout_failed) Gets _ _
            (rollback-EndsIn api first ready.stores ad ConditionReason.manual_abort)
            λ u next failed. Ends-pure api first next Gets none (inl (inr failed))

      with_canary-Ends : Ends api first ad Gets (with_canary r fl quote prom now ad c)
      unfolding with_canary
      with_canary-Ends = Ends-if api first ad Gets (is_abort_requested ad) _ _ aborted-Ends (
          rw on_track.rolling (
            step-Progress api first ready.stores patience c ready.patient fl quote prom now ad
              on_track pause outage))

      reconcile_live-Ends :
          (o : Option Controller)
          → o ≡ some c
          → Ends api first ad Gets (reconcile_live r fl quote prom now ad o)
      unfolding reconcile_live
      reconcile_live-Ends o e = rw e with_canary-Ends

      by_deletion-Ends :
          (namespace name : String) (t : Option Time)
          → t ≡ none
          → Ends api first ad Gets (by_deletion r fl quote prom namespace name now ad t)
      unfolding by_deletion ensure_finalizer pure ◌>>=◌ continue
      by_deletion-Ends namespace name t e = rw e (
          Ends-asks api first ad Gets _ _ λ h.
            rw (ready.guarded ad on_track.same_finalizers)
              (reconcile_live-Ends r.canary_controller ready.controller))

      reconcile-Ends : Ends api first ad Gets (reconcile r fl quote prom ad.namespace ad.name now)
      unfolding reconcile fetched
      reconcile-Ends =
          Ends-found api first ready.stores ad Gets _
            (by_deletion-Ends ad.namespace ad.name ad.deletion_timestamp on_track.kept)

    nonneg : pos 0 ≤ℤ patience
    nonneg = omega (arith, ready.patient.ceiling)

    rounds-end :
        (times : List Time) (before : Time) (h : History)
        → IsOnTrack first before (stored first h)
        → Spaced patience before times
        → left first (stored first h) < length times
        → HasEnded (stored first (rounds times h))
    unfolding rounds
    rounds-end [] before h on_track spaced lt = absurd (omega (arith, lt))
    rounds-end (now ∷ times) before h on_track (late, spaced) lt =
        let ad = stored first h in
        let small = ready.patient.small in
        let (requeue, h', run, gets_on) =
          reconcile-Ends now ad
            (IsOnTrack-later first before now ad (before-le before now patience nonneg late)
              on_track)
            (since-late patience before now ad.status.pause_started_at small nonneg late
              on_track.pause)
            (since-late patience before now ad.status.prom_unreachable_since small nonneg late
              on_track.outage)
            h refl in
        rw (on_track.rolling, ap (λ x. x.1) run)
          (elim gets_on [
            | inl ended ↦ rounds-HasEnded times h' ended
            | inr (next, fewer) ↦ rounds-end times now h' next spaced (omega (arith, fewer, lt))
          ])

-- A rollout that is in progress, with a named canary, at one of its steps or past them, ends: for an
-- agent that is not being deleted, by a reconciler with a canary controller, against a server that
-- answers every call, keeps the statuses that are written and has the stable Deployment, and
-- whatever Prometheus answers and the registrar says, if Reconcile is called for the agent at three
-- times for each step and three times more, each of them at least the patience after the one before,
-- then in the end the agent is promoted or rolled back. The patience reaches the fail-safe timeout,
-- every pause, and the fifteen minutes by which a pause is extended at most.
pub rollout_ends :
    (r : Reconciler) (fl : Float) (quote : String → String) (prom : History → String → Option fl.F)
    (api : Api) (first : AgentDeployment) (c : Controller) (patience : Duration) (start : Time)
    (times : List Time)
    → IsReady r fl quote prom api first c patience
    → IsOnTrack first start first
    → Spaced patience start times
    → 3 * length (steps_of first) + 3 ≤ length times
    → HasEnded (stored first (rounds r fl quote prom api first times []))
rollout_ends r fl quote prom api first c patience start times ready on_track spaced enough =
    rounds-end r fl quote prom api first c patience ready times start [] on_track spaced
      (omega (arith, enough, left-le first first))
