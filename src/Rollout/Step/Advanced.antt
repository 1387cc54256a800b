-- ===== src/Rollout/Step/Advanced.antt =====
-- What the end of a pause writes, and how a status write is answered.
use agentrax.Prelude.{wrap64, ◌+ℤ◌, ℤ, pos, ◌≡◌, refl, none, ◌∷◌}
use agentrax.Api.{AgentDeployment}
use agentrax.Rollout.Cluster.{done, History, write_status, object, Reply, Api}
use agentrax.Rollout.Cluster.Traces.{OnObject}
use agentrax.Rollout.Cluster.Owned.{IsAgent}
use agentrax.Rollout.Step.{advanced}

-- The status of the next step, written over `latest`.
pub record IsAdvanced (idx : ℤ) (latest written : AgentDeployment) : Type 0 where
  pub next_step : written.status.canary_step_index ≡ wrap64 (idx +ℤ pos 1)
  pub no_pause : written.status.pause_started_at ≡ none
  pub same_phase : written.status.phase ≡ latest.status.phase
  pub same_weight : written.status.canary_weight ≡ latest.status.canary_weight
  pub same_version : written.status.canary_version ≡ latest.status.canary_version
  pub same_spec : written.spec ≡ latest.spec

pub advanced-IsAdvanced :
    (api : Api) (idx : ℤ) (latest : AgentDeployment)
    → IsAdvanced idx latest (advanced api idx latest)
unfolding advanced
advanced-IsAdvanced api idx latest = record {
  next_step = refl;
  no_pause = refl;
  same_phase = refl;
  same_weight = refl;
  same_version = refl;
  same_spec = refl;
}

-- The status of the next step is written over `latest`, as the last call after `before`.
abbrev pub EndsAdvanced : ℤ → AgentDeployment → History → History → Type 0
EndsAdvanced idx latest before h =
    (written : AgentDeployment) × IsAdvanced idx latest written
    × (h ≡ write_status written done ∷ before)

-- A status write is answered with the agent that was written.
abbrev pub KeepsNames : Api → Type 0
KeepsNames api =
    (h : History) (ad : AgentDeployment)
    → OnObject (IsAgent ad.namespace ad.name) (api.update_status h ad)

pub named_object :
    (P : AgentDeployment → Type 0) (r : Reply AgentDeployment) (o : AgentDeployment)
    → r ≡ object o
    → OnObject P r
    → P o
named_object P r o e x = rw e at x
