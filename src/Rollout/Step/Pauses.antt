-- ===== src/Rollout/Step/Pauses.antt =====
-- What a pause does with an evaluation. The agent that is read has begun its pause.
use agentrax.Prelude.{
  ℤ, pos, ltb_ℤ, leb_ℤ, String, ◌≡◌, refl, sym, ◌∙◌, ap, true, false, Option, none, some, [], ◌∷◌,
}
use agentrax.Api.{Time, Duration, AgentDeployment, ConditionReason}
use agentrax.Api.ErrorRate.{Float}
use agentrax.Rollout.Evaluate.{
  Evaluation, Breach, EvalError, healthy, breached, sample_too_small, eval_failed, evaluate,
  min_sample,
}
use agentrax.Rollout.Evaluate.Thresholds.{Answers, evaluate-few}
use agentrax.Rollout.Cluster.{
  agents, done, History, read, write_status, object, Exec, update_status, Api, Result, ok, pure,
  ◌>>=◌, get, asks, need, answer_of,
}
use agentrax.Rollout.Query.{request_count_query}
use agentrax.Rollout.Cluster.Runs.{bind-ok, write_needed-ok, written-ok, stored-ok}
use agentrax.Rollout.Cluster.Owned.{IsAgent}
use agentrax.Rollout.Canary.{Controller, Requeue, second, rollback}
use agentrax.Rollout.Canary.Ends.{EndsFailed, rollback-ok}
use agentrax.Rollout.Step.Advanced.{advanced-IsAdvanced, EndsAdvanced, KeepsNames, named_object}
use agentrax.Rollout.Step.{
  since, max_wait, sub64, with_unreachable_since, sample_insufficient, advanced, finish_pause,
  extend_pause, clear_unreachable, mark_unreachable, fail_safe, unreachable, judge, paused,
  execute_pause,
}

module _ (c : Controller) (fl : Float) (quote : String → String)
    (prom : History → String → Option fl.F) (api : Api) (now started : Time)
    (ad latest : AgentDeployment) (idx : ℤ) (duration : Duration) where
  abbrev pub fetched : History
  fetched = read agents ad.namespace ad.name done ∷ []

  -- The agent is read, and its pause has begun.
  pub record IsPaused : Type 0 where
    pub agent_read : api.agent [] ad.namespace ad.name ≡ object latest
    pub begun : latest.status.pause_started_at ≡ some started

  execute_pause-judge :
      IsPaused
      → execute_pause c fl quote prom now ad idx duration api []
        ≡ judge c now idx duration
            (since now started)
            latest
            (evaluate fl quote (prom fetched) latest duration)
            api
            fetched
  unfolding execute_pause paused get need asks answer_of ◌>>=◌
  execute_pause-judge p = rw (p.agent_read, p.begun) refl

  -- The run of the pause, and what Evaluate finds in it.
  abbrev pub run : Result Requeue × History
  run = execute_pause c fl quote prom now ad idx duration api []

  abbrev pub verdict : Evaluation fl.F
  verdict = evaluate fl quote (prom fetched) latest duration

  -- What the mark of an outage leaves when it is cleared: an agent without one is the agent as read,
  -- one with the mark is what the status write without it gave back.
  abbrev pub Cleared : Option Time → AgentDeployment → Type 0
  Cleared none l = l ≡ latest
  Cleared (some t) l = api.update_status fetched (with_unreachable_since none latest) ≡ object l

  abbrev pub after_clearing : Option Time → History
  after_clearing none = fetched
  after_clearing (some t) = write_status (with_unreachable_since none latest) done ∷ fetched

  clear_unreachable-ok :
      (t : Option Time) {B : Type 0} (k : AgentDeployment → Exec B) (b : B) (h' : History)
      → (clear_unreachable t latest >>= k) api fetched ≡ (ok b, h')
      → (l : AgentDeployment) × Cleared t l × (k l api (after_clearing t) ≡ (ok b, h'))
  unfolding clear_unreachable pure ◌>>=◌
  clear_unreachable-ok none k b h' e = (latest, refl, e)
  clear_unreachable-ok (some t) k b h' e =
      let cleared = with_unreachable_since none latest in
      let (l, h2, w, e1) = bind-ok (clear_unreachable (some t) latest) k b api fetched h' e in
      let (reply, h1, u, n) =
        bind-ok (update_status cleared) (need "clearing prom unreachable time") l api fetched h2
          w in
      let (given, recorded) =
        written-ok "clearing prom unreachable time" cleared l reply api fetched h1 h2 u n in
      (l, given, ap (λ x. k l api x) (sym recorded) ∙ e1)

  Cleared-IsAgent :
      (t : Option Time) (l : AgentDeployment)
      → KeepsNames api
      → IsAgent ad.namespace ad.name latest
      → Cleared t l
      → IsAgent ad.namespace ad.name l
  unfolding with_unreachable_since
  Cleared-IsAgent none l keeps is same =
      (ap (λ x. x.namespace) same ∙ is.0, ap (λ x. x.name) same ∙ is.1)
  Cleared-IsAgent (some t) l keeps is given =
      let same = named_object _ _ l given (keeps fetched (with_unreachable_since none latest)) in
      (same.0 ∙ is.0, same.1 ∙ is.1)

  judged :
      IsPaused
      → (v : Evaluation fl.F) → verdict ≡ v
      → run ≡ judge c now idx duration (since now started) latest v api fetched
  judged p v e =
      execute_pause-judge p
      ∙ ap (λ v. judge c now idx duration (since now started) latest v api fetched) e

  -- For an agent whose pause has begun and is not over, with Prometheus not marked unreachable, a
  -- healthy evaluation writes nothing, and the next look is due when the pause ends.
  pub healthy_pause_waits :
      (n r p : fl.F)
      → IsPaused
      → verdict ≡ healthy n r p
      → latest.status.prom_unreachable_since ≡ none
      → ltb_ℤ (since now started) duration ≡ true
      → run ≡ (ok (some (sub64 duration (since now started))), fetched)
  unfolding judge clear_unreachable finish_pause pure ◌>>=◌
  healthy_pause_waits n r p paused v reachable early =
      judged paused (healthy n r p) v ∙ rw (reachable, early) refl

  finish_pause-ok :
      (elapsed : Duration) (l : AgentDeployment) (r : Requeue) (h h' : History)
      → ltb_ℤ elapsed duration ≡ false
      → finish_pause idx duration elapsed l api h ≡ (ok r, h')
      → (r ≡ some second) × (h' ≡ write_status (advanced api idx l) done ∷ h)
  unfolding finish_pause asks ◌>>=◌ pure
  finish_pause-ok elapsed l r h h' late e =
      let (stored, e1) =
        write_needed-ok "advancing step index after pause" (advanced api idx l)
          (λ s. pure (some second)) r api h h' (rw late at e) in
      (cc, sym (ap (λ p. p.1) e1))

  -- For an agent whose pause is over, a healthy evaluation moves on: if the run reports success,
  -- its last call has written the next step's index and ended the pause, with phase, weight,
  -- version and spec kept. Before that it has made no call but the read and the clearing of the mark.
  pub healthy_pause_advances :
      (n r p : fl.F) (next : Requeue) (h' : History)
      → IsPaused
      → verdict ≡ healthy n r p
      → ltb_ℤ (since now started) duration ≡ false
      → run ≡ (ok next, h')
      → (l : AgentDeployment) × (next ≡ some second)
        × Cleared latest.status.prom_unreachable_since l
        × EndsAdvanced idx l (after_clearing latest.status.prom_unreachable_since) h'
  unfolding judge
  healthy_pause_advances n r p next h' paused v late e =
      let (l, cleared, e1) =
        clear_unreachable-ok latest.status.prom_unreachable_since _ next h'
          (sym (judged paused (healthy n r p) v) ∙ e) in
      let (soon, last) = finish_pause-ok (since now started) l next _ h' late e1 in
      (l, soon, cleared, (advanced api idx l, advanced-IsAdvanced api idx l, last))

  -- A rollback and then no requeue.
  rolled :
      (reason : ConditionReason) (l : AgentDeployment) (next : Requeue) (h h' : History)
      → (rollback l reason >>= λ u. pure none) api h ≡ (ok next, h')
      → (next ≡ none) × EndsFailed api reason l h'
  unfolding pure
  rolled reason l next h h' e =
      let (u, h1, r, e1) = bind-ok (rollback l reason) (λ u. pure none) next api h h' e in
      let (l', written, seen, cleaned, found, failed, last) = rollback-ok l reason api h h1 r in
      (cc, (l', written, seen, cleaned, found, failed, sym (ap (λ p. p.1) e1) ∙ last))

  -- For an agent that is read under its own name, whose pause has begun, a breach of a threshold
  -- ends in a rollback, if status writes are answered with the agent that was written. If the run
  -- reports success, the rollback is that of the agent as it was read, or as the status write gave
  -- it back that cleared the mark of an outage. This agent still has the name, the canary's objects
  -- are gone, and the last call has written the status of a failed rollout with that reason.
  pub breach_rolls_back :
      (b : Breach fl.F) (next : Requeue) (h' : History)
      → IsPaused
      → verdict ≡ breached b
      → KeepsNames api
      → IsAgent ad.namespace ad.name latest
      → run ≡ (ok next, h')
      → (l : AgentDeployment) × (next ≡ none)
        × Cleared latest.status.prom_unreachable_since l
        × IsAgent ad.namespace ad.name l
        × EndsFailed api ConditionReason.threshold_breached l h'
  unfolding judge
  breach_rolls_back b next h' paused v keeps is e =
      let (l, cleared, e1) =
        clear_unreachable-ok latest.status.prom_unreachable_since _ next h'
          (sym (judged paused (breached b) v) ∙ e) in
      let (stop, ends) = rolled ConditionReason.threshold_breached l next _ h' e1 in
      let named = Cleared-IsAgent latest.status.prom_unreachable_since l keeps is cleared in
      (l, stop, cleared, named, ends)

  fail_safe_over :
      (t : Time)
      → leb_ℤ c.fail_safe_timeout (since now t) ≡ true
      → fail_safe c now latest (some t) api fetched
        ≡ (rollback latest ConditionReason.prometheus_unavailable >>= λ u. pure none) api fetched
  unfolding fail_safe
  fail_safe_over t late = rw late refl

  unreachable_marked :
      (t : Time)
      → latest.status.prom_unreachable_since ≡ some t
      → unreachable c now latest api fetched ≡ fail_safe c now latest (some t) api fetched
  unfolding unreachable mark_unreachable pure ◌>>=◌
  unreachable_marked t marked =
      ap
        (λ o.
          (mark_unreachable now o latest >>= λ m. fail_safe c now m m.status.prom_unreachable_since)
            api fetched)
        marked
      ∙ ap (λ o. fail_safe c now latest o api fetched) marked

  -- For an agent whose pause has begun and for which Prometheus has been marked unreachable for
  -- the fail-safe timeout or longer, an evaluation that fails ends in a rollback: if the run
  -- reports success, the canary's objects are gone, and the last call has written the status of a
  -- failed rollout with that reason.
  pub fail_safe_rolls_back :
      (x : EvalError) (since_when : Time) (next : Requeue) (h' : History)
      → IsPaused
      → verdict ≡ eval_failed x
      → latest.status.prom_unreachable_since ≡ some since_when
      → leb_ℤ c.fail_safe_timeout (since now since_when) ≡ true
      → run ≡ (ok next, h')
      → (next ≡ none) × EndsFailed api ConditionReason.prometheus_unavailable latest h'
  unfolding judge
  fail_safe_rolls_back x since_when next h' paused v marked late e =
      let e1 = sym (judged paused (eval_failed x) v) ∙ e in
      rolled ConditionReason.prometheus_unavailable latest next fetched h'
        (sym (fail_safe_over since_when late) ∙ sym (unreachable_marked since_when marked) ∙ e1)

  -- For an agent whose pause has begun and for which Prometheus has been marked unreachable for
  -- less than the fail-safe timeout, an evaluation that fails writes nothing, and the next look
  -- is due in ten seconds.
  pub fail_safe_waits :
      (x : EvalError) (since_when : Time)
      → IsPaused
      → verdict ≡ eval_failed x
      → latest.status.prom_unreachable_since ≡ some since_when
      → leb_ℤ c.fail_safe_timeout (since now since_when) ≡ false
      → run ≡ (ok (some (pos 10000000000)), fetched)
  unfolding judge unreachable mark_unreachable fail_safe pure ◌>>=◌
  fail_safe_waits x since_when paused v marked early =
      judged paused (eval_failed x) v ∙ rw (marked, early) refl

  -- For an agent whose pause is over and whose longest wait has passed, a canary moves on if
  -- Prometheus counts fewer requests than the minimal sample, whatever it answers about errors and
  -- latency. If the run reports success, its calls have been the read of the agent, the clearing of
  -- the mark of an outage if there is one, the write of the condition SampleInsufficient, and the
  -- last one, which writes over what that gave back the next step's index and ends the pause.
  pub small_sample_advances :
      (n : fl.F) (next : Requeue) (h' : History)
      → IsPaused
      → Answers fl quote
          (prom fetched)
          (request_count_query quote latest.name latest.namespace duration)
          n
      → fl.ltb_f n (min_sample fl latest.spec.rollout.rollback) ≡ true
      → ltb_ℤ (since now started) (max_wait duration) ≡ false
      → ltb_ℤ (since now started) duration ≡ false
      → run ≡ (ok next, h')
      → (l stored : AgentDeployment) × (next ≡ some second)
        × Cleared latest.status.prom_unreachable_since l
        × (api.update_status
              (after_clearing latest.status.prom_unreachable_since)
              (sample_insufficient api l)
            ≡ object stored)
        × EndsAdvanced idx stored
            (write_status (sample_insufficient api l) done
              ∷ after_clearing latest.status.prom_unreachable_since)
            h'
  unfolding judge extend_pause asks ◌>>=◌
  small_sample_advances n next h' paused counted few long late e =
      let v = evaluate-few fl quote (prom fetched) latest duration n counted few in
      let (l, cleared, e1) =
        clear_unreachable-ok latest.status.prom_unreachable_since
          (extend_pause idx duration (since now started)) next h'
          (sym (judged paused (sample_too_small n) v) ∙ e) in
      let (stored, given, e2) =
        stored-ok "setting SampleInsufficient condition" (sample_insufficient api l) _ next api _ h'
          e1 in
      let (soon, last) =
        finish_pause-ok (since now started) stored next _ h' late (rw long at e2) in
      let written = advanced api idx stored in
      (l, stored, soon, cleared, given, (written, advanced-IsAdvanced api idx stored, last))
