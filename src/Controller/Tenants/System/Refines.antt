-- ===== src/Controller/Tenants/System/Refines.antt =====
-- The steps of the quota system, under the conditions of a calm history, refine the tenant's ledger.
use agentrax.Prelude.{
  String, ◌≡◌, refl, ap, ◌∙◌, ◌⊎◌, inl, inr, arith, List, [], ◌∷◌, Bool-cases, ◌==◌,
}
use agentrax.Dict.{Dict, delete}
use agentrax.Api.{Time, AgentDeployment, TenantQuotaSpec, TenantQuotaStatus}
use agentrax.Quota.{Enforcer, sweep, release, compute_usage, zero_status}
use agentrax.Quota.Verdicts.{Reservation}
use agentrax.Quota.Usage.{compute_usage-at}
use agentrax.Controller.Tenants.{reservation_key, collect}
use agentrax.Controller.Tenants.Counts.{keys_of, specs_of, of_tenant, collect-specs}
use agentrax.Controller.Tenants.Held.{delete_all}
use agentrax.Controller.Tenants.Ledger.{Fits, at}
use agentrax.Controller.Tenants.Ledger
use agentrax.Controller.Tenants.Ledger.Promise.{start, IsQuota, Ledger-Fits}
use agentrax.Controller.Tenants.System.{
  Job, idle, counting, to_release, State, stored, kept, Step, Reach, Calm, IsCalm, look, judge,
  store, list, release_next, publish, remove_fresh, remove_counted, sweep_out, let_go, wait, here,
  next,
}

delete-delete :
    (j k : String) (m : Dict Reservation) → delete j (delete k m) ≡ delete k (delete j m)
unfolding delete
delete-delete j k [] = refl
delete-delete j k ((i, v) ∷ m) = ground (arith, delete-delete j k m)

delete-sweep :
    (k : String) (now : Time) (m : Dict Reservation)
    → delete k (sweep now m) ≡ sweep now (delete k m)
unfolding delete sweep
delete-sweep k now [] = refl
delete-sweep k now ((i, v) ∷ m) = ground (arith, delete-sweep k now m)

delete_all-delete :
    (ks : List String) (k : String) (m : Dict Reservation)
    → delete_all ks (delete k m) ≡ delete k (delete_all ks m)
unfolding delete_all
delete_all-delete [] k m = refl
delete_all-delete (j ∷ ks) k m =
    ap (delete_all ks) (delete-delete j k m) ∙ delete_all-delete ks k (delete j m)

delete_all-sweep :
    (ks : List String) (now : Time) (m : Dict Reservation)
    → delete_all ks (sweep now m) ≡ sweep now (delete_all ks m)
unfolding delete_all
delete_all-sweep [] now m = refl
delete_all-sweep (k ∷ ks) now m =
    ap (delete_all ks) (delete-sweep k now m) ∙ delete_all-sweep ks now (delete k m)

-- What the loop over the list releases as a whole.
collect-all :
    (e : Enforcer) (tenant : String) (ads : List AgentDeployment)
    → (collect e tenant ads).0 ≡ at e (delete_all (keys_of (of_tenant tenant ads)) e.reservations)
unfolding collect of_tenant delete_all release
collect-all e tenant [] = refl
collect-all e tenant (ad ∷ ads) = elim (Bool-cases (ad.spec.tenant_ref == tenant)) [
  | inl mine ↦ rw mine (collect-all (release e (reservation_key ad)) tenant ads)
  | inr other ↦ rw other (collect-all e tenant ads)
]

-- The use that is published, or that the running reconciliation is going to publish.
abbrev view_used : Enforcer → TenantQuotaStatus → Job → TenantQuotaStatus
view_used base used idle = used
view_used base used (counting specs todo) = compute_usage base specs

-- The ledger of a state: the running reconciliation has released and published.
abbrev view : Enforcer → State → Ledger.State
view base s = record {
  now = s.now;
  reservations = kept s;
  used = view_used base s.used s.job;
  fresh = s.fresh;
  counted = s.counted;
}

module _ (base : Enforcer) (q : TenantQuotaSpec) (tenant : String) where
  -- What a step is for the ledger: nothing, or one event.
  abbrev Refined : State → State → Type 0
  Refined s t = (view base t ≡ view base s) ⊎ Ledger.Step base q tenant (view base s) (view base t)

  moved :
      {v t t' : Ledger.State}
      → t ≡ t'
      → Ledger.Step base q tenant v t
      → Ledger.Step base q tenant v t'
  moved e st = rw e at st

  list-Refined :
      (s : State)
      → to_release s.job ≡ []
      → Ledger.Step base q tenant (view base s) (record (view base s) {
        reservations = delete_all (keys_of (of_tenant tenant (stored s))) s.reservations;
        used = compute_usage base (specs_of (of_tenant tenant (stored s)));
        fresh = [];
        counted = stored s;
      })
  unfolding delete_all
  list-Refined s free =
      let mine = of_tenant tenant (stored s) in
      let left = delete_all (keys_of mine) s.reservations in
      let listed = collect (at base (kept s)) tenant (stored s) in
      let gone : listed.0 ≡ at base left =
        collect-all (at base (kept s)) tenant (stored s)
        ∙ ap (λ ads. at base (delete_all (keys_of mine) (delete_all (keys_of ads) s.reservations)))
            free in
      let specs : listed.1 ≡ specs_of mine = collect-specs (at base (kept s)) tenant (stored s) in
      let after : Enforcer → TenantQuotaStatus → Ledger.State = λ e u. record (view base s) {
        reservations = e.reservations;
        used = u;
        fresh = [];
        counted = stored s;
      } in
      moved
        ((λ i. after (gone i) (compute_usage (gone i) (specs i)))
          ∙ ap (after (at base left)) (compute_usage-at base left (specs_of mine)))
        Ledger.Step.count

  Step-Refined : {s t : State} (st : Step base q tenant s t) → Calm base q tenant st → Refined s t
  unfolding delete_all release
  Step-Refined {s} look c = inl refl
  Step-Refined {s} (judge ad ttl seen is_in) c =
      inr (rw (c.0, c.1) (Ledger.Step.create ad ttl c.2 c.3))
  Step-Refined {s} (store ad member) c = inr (Ledger.Step.store ad member c.0 c.1)
  Step-Refined {s} (list free) c = inr (list-Refined s free)
  Step-Refined {s} (release_next specs ad todo is) c = inl (rw is refl)
  Step-Refined {s} (publish specs is) c = inl (
      rw is (
        ap (λ (u : TenantQuotaStatus). record (view base (record s { job = idle })) { used = u })
          (compute_usage-at base s.reservations specs)))
  Step-Refined {s} (remove_fresh xs ys ad is) c = inr (Ledger.Step.remove_fresh xs ys ad is)
  Step-Refined {s} (remove_counted xs ys ad is) c = inr (Ledger.Step.remove_counted xs ys ad is)
  Step-Refined {s} sweep_out c = inr (
      rw (delete_all-sweep (keys_of (to_release s.job)) s.now s.reservations) Ledger.Step.sweep_out)
  Step-Refined {s} (let_go key) c = inr (
      rw (delete_all-delete (keys_of (to_release s.job)) key s.reservations)
        (Ledger.Step.let_go key c))
  Step-Refined {s} (wait later after) c = inr (Ledger.Step.wait later after c)

  Reach-Refined :
      {s t : State} (r : Reach base q tenant s t)
      → IsCalm base q tenant r
      → Ledger.Reach base q tenant (view base s) (view base t)
  Reach-Refined here c = Ledger.Reach.here
  Reach-Refined {s} (next {t} {u} r st) c = elim (Step-Refined st c.1) [
    | inl same ↦ rw same (Reach-Refined r c.0)
    | inr event ↦ Ledger.Reach.next (Reach-Refined r c.0) event
  ]

-- Nothing is stored, reserved or counted, and nothing is running.
abbrev pub initial : Time → State
initial now = record {
  now = now;
  reservations = [];
  used = zero_status;
  looks = [];
  job = idle;
  fresh = [];
  counted = [];
}

module _ (base : Enforcer) (q : TenantQuotaSpec) (tenant : String) (is_quota : IsQuota q) where
  ledger :
      (now : Time) {t : State} (r : Reach base q tenant (initial now) t)
      → IsCalm base q tenant r
      → Ledger.Reach base q tenant (start now) (view base t)
  unfolding delete_all
  ledger now r c = Reach-Refined base q tenant r c

  -- From an empty start, in any order of the reads and verdicts of the webhook, the stores and
  -- deletions of agents, the list, each release and the status write of the reconciler, the releases
  -- of other quotas' reconcilers, sweeps and passing time: the stored agents of the tenant are
  -- within the quota's ceilings on agents, GPUs and total replicas, which are int32 and not
  -- negative, if the history is calm. That is: a creation is judged by the published use, while
  -- no reconciliation is between its list and its status write and no stored agent of that key waits
  -- to be listed; an agent is stored, and once stored is listed, while its own reservation lives;
  -- and no other quota's reconciler releases that reservation before. Updates of agents and
  -- requests of other tenants are left out.
  pub calm-Fits :
      (now : Time) {t : State} (r : Reach base q tenant (initial now) t)
      → IsCalm base q tenant r
      → Fits base q (stored t)
  calm-Fits now r c = Ledger-Fits base q tenant is_quota now (ledger now r c)
