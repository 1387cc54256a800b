-- ===== src/Controller/Children/Keeps.antt =====
-- What the reconciliation of the children has recorded stays recorded.
use agentrax.Prelude.{String, ℤ, Bool, not}
use agentrax.Api.{AgentDeployment, TenantQuota}
use agentrax.Scaling.{quota_headroom}
use agentrax.Rollout.Cluster.{Reply, object, missing, broken}
use agentrax.Rollout.Cluster.Runs.{
  Keeps, Keeps-bind, Keeps-need, Keeps-must, Keeps-require, Keeps-get, Keeps-store, Keeps-asks,
  Keeps-pure, Keeps-fail, Keeps-if, Keeps-list_items, Keeps-need_list,
}
use agentrax.Controller.Objects.{in_rollout}
use agentrax.Controller.Children.{
  own, reconcile_service, reconcile_service_monitor, replicas_used_by_other_agents,
  write_capped_hpa, hpa_quota_read, reconcile_hpa,
}

Keeps-own : (message : String) (ad : AgentDeployment) → Keeps (own message ad)
unfolding own
Keeps-own message ad = Keeps-bind _ _ (Keeps-asks _) (λ b. Keeps-require message b)

pub Keeps-reconcile_service : (ad : AgentDeployment) → Keeps (reconcile_service ad)
unfolding reconcile_service
Keeps-reconcile_service ad = Keeps-bind _ _ (Keeps-get _ _ _ _) λ reply.
    Keeps-bind _ _ (Keeps-need _ reply) λ existing.
      Keeps-bind _ _ (Keeps-own _ ad)
        λ u. Keeps-bind _ _ (Keeps-store _ _) λ stored. Keeps-must _ stored

pub Keeps-reconcile_service_monitor :
    (b : Bool) (ad : AgentDeployment) → Keeps (reconcile_service_monitor b ad)
unfolding reconcile_service_monitor
Keeps-reconcile_service_monitor b ad = Keeps-if (not b) _ _ (Keeps-pure tt) (
    Keeps-bind _ _ (Keeps-get _ _ _ _) λ reply. Keeps-bind _ _ (Keeps-need _ reply) λ existing.
      Keeps-bind _ _ (Keeps-own _ ad)
        λ u. Keeps-bind _ _ (Keeps-store _ _) λ stored. Keeps-must _ stored)

Keeps-write_capped_hpa : (ad : AgentDeployment) (n : ℤ) → Keeps (write_capped_hpa ad n)
unfolding write_capped_hpa
Keeps-write_capped_hpa ad n = Keeps-bind _ _ (Keeps-own _ ad) λ u.
    Keeps-bind _ _ (Keeps-get _ _ _ _) λ reply. Keeps-bind _ _ (Keeps-need _ reply) λ existing.
      Keeps-bind _ _ (Keeps-own _ ad) λ v.
        Keeps-bind _ _ (Keeps-store _ _)
          λ stored. Keeps-bind _ _ (Keeps-must _ stored) λ w. Keeps-pure _

Keeps-replicas_used : (ad : AgentDeployment) → Keeps (replicas_used_by_other_agents ad)
unfolding replicas_used_by_other_agents
Keeps-replicas_used ad =
    Keeps-bind _ _ (Keeps-list_items _ _ _)
      λ items. Keeps-bind _ _ (Keeps-need_list _ items) λ listed. Keeps-pure _

Keeps-hpa_quota_read :
    (ad : AgentDeployment) (reply : Reply TenantQuota) → Keeps (hpa_quota_read ad reply)
unfolding hpa_quota_read
Keeps-hpa_quota_read ad missing = Keeps-pure _
Keeps-hpa_quota_read ad broken = Keeps-fail _ _
Keeps-hpa_quota_read ad (object tq) =
    Keeps-bind _ _ (Keeps-replicas_used ad)
      (λ n. Keeps-write_capped_hpa ad (quota_headroom tq.spec ad.spec n))

pub Keeps-reconcile_hpa : (ad : AgentDeployment) → Keeps (reconcile_hpa ad)
unfolding reconcile_hpa
Keeps-reconcile_hpa ad =
    Keeps-if (in_rollout ad.status.phase) _ _ (Keeps-pure _)
      (Keeps-bind _ _ (Keeps-get _ _ _ _) (Keeps-hpa_quota_read ad))
