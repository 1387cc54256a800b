-- ===== src/Controller/OwnedTests.antt =====
-- That a reconcile keeps to its agent, at one that starts a canary.
use agentrax.Prelude.{pos, ◌≡◌, refl, none, [], ◌++◌, All}
use agentrax.Scaling.{build_hpa}
use agentrax.Controller.Objects.{desired_service, desired_service_monitor}
use agentrax.Rollout.Objects.{desired_canary_deployment}
use agentrax.Rollout.Cluster.{Api, History, object}
use agentrax.Rollout.Cluster.Owned.{Within, IsFaithful}
use agentrax.Controller.Agents.{reconcile}
use agentrax.Controller.Agents.Owned.{reconcile_touches_own_objects}
use agentrax.Samples.Server.{server}
use agentrax.Samples.Reconcilers.{due_agent, reconciler}
use agentrax.Samples.{sample_float}

-- A server that answers with what it is asked for.
abbrev api : Api
api = record (server due_agent) {
  agent = λ h namespace name. object (record due_agent { namespace = namespace; name = name });
  deployment = λ h namespace name.
      object (record (desired_canary_deployment due_agent "agent") {
        namespace = namespace;
        name = name;
      });
  deployment_to_mutate = λ h namespace name.
      object (record (desired_canary_deployment due_agent "agent") {
        namespace = namespace;
        name = name;
      });
  service_to_mutate = λ h namespace name.
      object (record (desired_service due_agent) { namespace = namespace; name = name });
  hpa_to_mutate = λ h namespace name.
      object (record (build_hpa due_agent (pos 0)) { namespace = namespace; name = name });
  service_monitor_to_mutate = λ h namespace name.
      object (record (desired_service_monitor due_agent) { namespace = namespace; name = name });
}

faithful : IsFaithful api
faithful = record {
  agent = λ h ns n. (refl, refl);
  deployment = λ h ns n. (refl, refl);
  route = λ h ns n. tt;
  update_status = λ h ad. (refl, refl);
  deployment_to_mutate = λ h ns n. (refl, refl);
  service_to_mutate = λ h ns n. (refl, refl);
  hpa_to_mutate = λ h ns n. (refl, refl);
  service_monitor_to_mutate = λ h ns n. (refl, refl);
  add_finalizer = λ ad. (refl, refl);
  remove_finalizer = λ ad. (refl, refl);
}

reconcile_touches_own_objects_example :
    (new : History) × ((reconcile reconciler sample_float
        (λ s. s)
        (λ h query. none)
        "team-a"
        "agent"
        (pos 9)
        api
        []).1
      ≡ new ++ [])
    × All (Within "team-a" "agent") new
reconcile_touches_own_objects_example =
    reconcile_touches_own_objects reconciler sample_float (λ s. s) (λ h query. none) "team-a"
      "agent" (pos 9) api faithful []
