-- ===== src/Registrar/Strikes.antt =====
-- Heartbeats: three failed probes in a row deregister an agent.
use agentrax.Prelude.{
  ℤ, pos, ◌+ℤ◌, leb_ℤ, add64, wrap64, String, ◌≡◌, refl, ◌∙◌, true, false, Option, none, some,
  eq_refl, Option-cases, inl, inr,
}
use agentrax.Dict.{lookup, insert, lookup-insert}
use agentrax.Api.{Time, AgentDeployment}
use agentrax.Registry
use agentrax.Registry.{Registry, RegistryError, Entry, not_found, key}
use agentrax.Registry.Expiry.{get-deregister}
use agentrax.Registrar.{
  Registrar, RegistrarError, Probe, unreachable, heartbeat_deregistered, deregistering,
  probe_failed, endpoint_for_agent, increment_failures, heartbeat, strike, third_strike, count_of,
}

-- A failed probe of an agent with `n` failures on record.
failed_probe :
    (g : Registrar) (r : Registry) (now : Time) (initialize again : String → Probe)
    (ad : AgentDeployment) (reason : String)
    → g.registry ≡ some r
    → initialize (endpoint_for_agent ad) ≡ unreachable reason
    → heartbeat g now initialize again ad ≡ strike g r ad
unfolding heartbeat
failed_probe g r now initialize again ad reason e down = rw (e, down) refl

below_three :
    (g : Registrar) (r : Registry) (ad : AgentDeployment) (n m : ℤ)
    → count_of (lookup (key ad.namespace ad.name) g.failures) ≡ n
    → add64 n (pos 1) ≡ m
    → leb_ℤ (pos 3) m ≡ false
    → strike g r ad ≡ (
      record g { failures = insert (key ad.namespace ad.name) m g.failures },
      some (probe_failed m),
    )
unfolding strike increment_failures
below_three g r ad n m c s t = rw (c, s) (rw t refl)

-- What the heartbeat reports of a deregistration.
abbrev pub last_error : ℤ → Option RegistryError → RegistrarError
last_error m none = heartbeat_deregistered m
last_error m (some e) = deregistering e

at_three :
    (g : Registrar) (r : Registry) (ad : AgentDeployment) (n m : ℤ)
    → count_of (lookup (key ad.namespace ad.name) g.failures) ≡ n
    → add64 n (pos 1) ≡ m
    → leb_ℤ (pos 3) m ≡ true
    → ((strike g r ad).0.registry ≡ some (Registry.deregister r ad.namespace ad.name).0)
      × ((strike g r ad).1 ≡ some (last_error m (Registry.deregister r ad.namespace ad.name).1))
unfolding strike third_strike increment_failures
at_three g r ad n m c s t =
    rw (c, s)
      (rw t (elim (Option-cases (Registry.deregister r ad.namespace ad.name).1) [
        | inl fine ↦ rw (fine, third_strike) (refl, refl)
        | inr (e, bad) ↦ rw (bad, third_strike) (refl, refl)
      ]))

count_after : (g : Registrar) (k : String) (m : ℤ) → count_of (lookup k (insert k m g.failures)) ≡ m
unfolding count_of
count_after g k m = rw (lookup-insert, eq_refl k) refl

one_more :
    (add64 (pos 0) (pos 1) ≡ pos 1)
    × (add64 (pos 1) (pos 1) ≡ pos 2)
    × (add64 (pos 2) (pos 1) ≡ pos 3)
unfolding wrap64 ◌+ℤ◌
one_more = (refl, refl, refl)

not_found_after :
    (r : Registry) (later : Time) (ad : AgentDeployment)
    → Registry.get (Registry.deregister r ad.namespace ad.name).0 later ad.namespace ad.name ≡ none
not_found_after r later ad =
    get-deregister r later ad.namespace ad.name ad.namespace ad.name
    ∙ rw (eq_refl (key ad.namespace ad.name)) refl

-- Three probes in a row that fail, for an agent with no failure on record: after the first and the
-- second the registry is as it was and the error counts them; the third takes the agent out of the
-- registry, where no lookup finds it, and says so, or reports that writing the registry failed.
pub three_strikes :
    (g : Registrar) (r : Registry) (ad : AgentDeployment) (t1 t2 t3 later : Time)
    (i1 i2 i3 again : String → Probe) (d1 d2 d3 : String)
    → g.registry ≡ some r
    → lookup (key ad.namespace ad.name) g.failures ≡ none
    → i1 (endpoint_for_agent ad) ≡ unreachable d1
    → i2 (endpoint_for_agent ad) ≡ unreachable d2
    → i3 (endpoint_for_agent ad) ≡ unreachable d3
    → let (g1, e1) = heartbeat g t1 i1 again ad in
      let (g2, e2) = heartbeat g1 t2 i2 again ad in
      let (g3, e3) = heartbeat g2 t3 i3 again ad in
      (e1 ≡ some (probe_failed (pos 1)))
      × (g1.registry ≡ some r)
      × (e2 ≡ some (probe_failed (pos 2)))
      × (g2.registry ≡ some r)
      × (g3.registry ≡ some (Registry.deregister r ad.namespace ad.name).0)
      × (Registry.get (Registry.deregister r ad.namespace ad.name).0 later ad.namespace ad.name
          ≡ none)
      × (e3 ≡ some (last_error (pos 3) (Registry.deregister r ad.namespace ad.name).1))
three_strikes g r ad t1 t2 t3 later i1 i2 i3 again d1 d2 d3 reg fresh f1 f2 f3 =
    let k = key ad.namespace ad.name in
    let g1 = record g { failures = insert k (pos 1) g.failures } in
    let g2 = record g { failures = insert k (pos 2) g1.failures } in
    let h1 : heartbeat g t1 i1 again ad ≡ (g1, some (probe_failed (pos 1))) =
      failed_probe g r t1 i1 again ad d1 reg f1
      ∙ below_three g r ad (pos 0) (pos 1) (unfold count_of in rw fresh refl) one_more.0 refl in
    let h2 : heartbeat g1 t2 i2 again ad ≡ (g2, some (probe_failed (pos 2))) =
      failed_probe g1 r t2 i2 again ad d2 reg f2
      ∙ below_three g1 r ad (pos 1) (pos 2) (count_after g k (pos 1)) one_more.1 refl in
    let h3 : heartbeat g2 t3 i3 again ad ≡ strike g2 r ad =
      failed_probe g2 r t3 i3 again ad d3 reg f3 in
    let last = at_three g2 r ad (pos 2) (pos 3) (count_after g1 k (pos 2)) one_more.2 refl in
    rw h1 (rw h2 (rw h3 (refl, reg, refl, reg, last.0, (not_found_after r later ad), last.1)))
