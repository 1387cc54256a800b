-- ===== src/Rollout/Cluster/Success.antt =====
-- Runs against an API server that works: every read and write is answered without an error.
use agentrax.Prelude.{String, ◌≡◌, ◌≢◌, refl, ◌∙◌, ap, Bool, true, false, if◌then◌else◌}
use agentrax.Api.{AgentDeployment}
use agentrax.Rollout.Cluster.{
  Kind, Answer, done, failed, Call, History, Reply, object, broken, Api, ok, Exec, pure, continue,
  ◌>>=◌, get, delete, store, update_status, asks, need, must, require,
}

abbrev pub IsObject : {A : Type 0} → Reply A → Type 0
IsObject {A} r = (a : A) × (r ≡ object a)

pub record IsAvailable (api : Api) : Type 0 where
  pub agent : (h : History) (namespace name : String) → IsObject (api.agent h namespace name)
  pub deployment :
      (h : History) (namespace name : String) → api.deployment h namespace name ≢ broken
  pub service : (h : History) (namespace name : String) → api.service h namespace name ≢ broken
  pub route : (h : History) (namespace name : String) → api.route h namespace name ≢ broken
  pub hpa_to_mutate :
      (h : History) (namespace name : String) → IsObject (api.hpa_to_mutate h namespace name)
  pub update_status : (h : History) (ad : AgentDeployment) → IsObject (api.update_status h ad)
  pub store : (h : History) (k : Kind) → api.store h k ≡ done
  pub delete :
      (h : History) (k : Kind) (namespace name : String) → api.delete h k namespace name ≢ failed
  pub set_owner : (h : History) (ad : AgentDeployment) → api.set_owner h ad ≡ true

module _ (api : Api) where
  -- Whatever has been called before, the run succeeds, with a value of which `P` holds.
  abbrev pub Returns : {A : Type 0} → (A → Type 0) → Exec A → Type 0
  Returns {A} P m = (h : History) → (a : A) × ((m api h).0 ≡ ok a) × P a

  pub Returns-bind :
      {A B : Type 0} (P : A → Type 0) (Q : B → Type 0) (m : Exec A) (f : A → Exec B)
      → Returns P m
      → ((a : A) → P a → Returns Q (f a))
      → Returns Q (m >>= f)
  unfolding ◌>>=◌ continue
  Returns-bind P Q m f km kf h =
      let (a, e, p) = km h in
      let (b, e', q) = kf a p (m api h).1 in
      (b, ap (λ r. (continue r f api (m api h).1).0) e ∙ e', q)

  pub Returns-if :
      {A : Type 0} (P : A → Type 0) (b : Bool) (m n : Exec A)
      → Returns P m
      → Returns P n
      → Returns P (if b then m else n)
  Returns-if P true m n km kn = km
  Returns-if P false m n km kn = kn

  pub Returns-pure : {A : Type 0} (P : A → Type 0) (a : A) → P a → Returns P (pure a)
  unfolding pure
  Returns-pure P a p h = (a, refl, p)

  pub Returns-get :
      {A : Type 0} (P : Reply A → Type 0) (k : Kind)
      (from : Api → History → String → String → Reply A) (namespace name : String)
      → ((h : History) → P (from api h namespace name))
      → Returns P (get k from namespace name)
  unfolding get
  Returns-get P k from namespace name p h = (from api h namespace name, refl, p h)

  pub Returns-need :
      {A : Type 0} (message : String) (r : Reply A)
      → IsObject r
      → Returns (λ a. Unit {0}) (need message r)
  unfolding need pure
  Returns-need message r o h = (o.0, ap (λ r. (need message r api h).0) o.1, tt)

  pub Returns-must :
      (message : String) (a : Answer) → a ≡ done → Returns (λ u. Unit {0}) (must message a)
  unfolding must pure
  Returns-must message a o h = (tt, ap (λ r. (must message r api h).0) o, tt)

  pub Returns-require :
      (message : String) (b : Bool) → b ≡ true → Returns (λ u. Unit {0}) (require message b)
  unfolding require pure
  Returns-require message b o h = (tt, ap (λ r. (require message r api h).0) o, tt)

  module _ (works : IsAvailable api) where
    pub Returns-store : (k : Kind) (call : Answer → Call) → Returns (λ a. a ≡ done) (store k call)
    unfolding store
    Returns-store k call h = (api.store h k, refl, works.store h k)

    pub Returns-delete :
        (k : Kind) (namespace name : String) → Returns (λ a. a ≢ failed) (delete k namespace name)
    unfolding delete
    Returns-delete k namespace name h =
        (api.delete h k namespace name, refl, works.delete h k namespace name)

    pub Returns-update_status : (ad : AgentDeployment) → Returns IsObject (update_status ad)
    unfolding update_status
    Returns-update_status ad h = (api.update_status h ad, refl, works.update_status h ad)

  pub Returns-asks :
      {A : Type 0} (P : A → Type 0) (f : Api → History → A)
      → ((h : History) → P (f api h))
      → Returns P (asks f)
  unfolding asks
  Returns-asks P f p h = (f api h, refl, p h)
