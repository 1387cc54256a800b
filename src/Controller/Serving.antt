-- ===== src/Controller/Serving.antt =====
-- An API server that works for the reconciler: what the rollout needs of it, and the reads of the
-- quota, of lists and of the objects that are updated.
use agentrax.Prelude.{String, ◌≡◌, ◌≢◌, refl, ap, Option, some, List}
use agentrax.Dict.{Dict}
use agentrax.Rollout.Cluster.{
  Api, History, Kind, Answer, done, Call, Reply, broken, Exec, ◌>>=◌, get, store, asks, need, must,
  list_items, need_list, pure,
}
use agentrax.Rollout.Cluster.Success.{
  IsObject, IsAvailable, Returns, Returns-bind, Returns-get, Returns-need, Returns-must,
  Returns-store,
}

abbrev pub IsSome : {A : Type 0} → Option A → Type 0
IsSome {A} o = (a : A) × (o ≡ some a)

pub record IsServing (api : Api) : Type 0 where
  pub available : IsAvailable api
  pub deployment_to_mutate :
      (h : History) (namespace name : String) → IsObject (api.deployment_to_mutate h namespace name)
  pub service_to_mutate :
      (h : History) (namespace name : String) → IsObject (api.service_to_mutate h namespace name)
  pub service_monitor_to_mutate :
      (h : History) (namespace name : String)
      → IsObject (api.service_monitor_to_mutate h namespace name)
  pub tenant_quota :
      (h : History) (namespace name : String) → api.tenant_quota h namespace name ≢ broken
  pub found : (h : History) (namespace name : String) → api.agent h namespace name ≢ broken
  pub agent_list : (h : History) (namespace : String) → IsSome (api.agent_list h namespace)
  pub pod_list :
      (h : History) (namespace : String) (labels : Dict String)
      → IsSome (api.pod_list h namespace labels)

module _ (api : Api) where
  -- The run succeeds, whatever has been called before.
  abbrev pub Ends : {A : Type 0} → Exec A → Type 0
  Ends = Returns api (λ a. Unit {0})

  pub Ends-bind :
      {A B : Type 0} (m : Exec A) (f : A → Exec B)
      → Ends m
      → ((a : A) → Ends (f a))
      → Ends (m >>= f)
  Ends-bind m f km kf = Returns-bind api (λ a. Unit {0}) (λ b. Unit {0}) m f km (λ a u. kf a)

  pub Ends-pure : {A : Type 0} (a : A) → Ends (pure a)
  unfolding pure
  Ends-pure a h = (a, refl, tt)

  pub Ends-asks : {A : Type 0} (f : Api → History → A) → Ends (asks f)
  unfolding asks
  Ends-asks f h = (f api h, refl, tt)

  -- A list that is needed.
  pub Ends-listed :
      {A B : Type 0} (k : Kind) (from : Api → History → String → Option (List A))
      (namespace message : String) (f : List A → Exec B)
      → ((h : History) → IsSome (from api h namespace))
      → ((items : List A) → Ends (f items))
      → Ends (list_items k from namespace >>= λ items. need_list message items >>= f)
  unfolding list_items need_list pure
  Ends-listed k from namespace message f s kf =
      Returns-bind api IsSome (λ a. Unit {0}) _ _ (λ h. (from api h namespace, refl, s h))
        λ o is.
          Ends-bind (need_list message o) f
            (λ h. (is.0, ap (λ x. (need_list message x api h).0) is.1, tt)) kf

  -- An object that is needed.
  pub Ends-needed :
      {A B : Type 0} (k : Kind) (from : Api → History → String → String → Reply A)
      (namespace name message : String) (f : A → Exec B)
      → ((h : History) → IsObject (from api h namespace name))
      → ((a : A) → Ends (f a))
      → Ends (get k from namespace name >>= λ reply. need message reply >>= f)
  Ends-needed k from namespace name message f s kf =
      Returns-bind api IsObject (λ b. Unit {0}) _ _
        (Returns-get api IsObject k from namespace name s)
        (λ reply o. Ends-bind (need message reply) f (Returns-need api message reply o) kf)

  module _ (works : IsAvailable api) where
    pub Ends-stored :
        (k : Kind) (call : Answer → Call) (message : String) → Ends (store k call >>= must message)
    Ends-stored k call message =
        Returns-bind api (λ a. a ≡ done) (λ u. Unit {0}) _ _ (Returns-store api works k call)
          (Returns-must api message)

    pub Ends-stored_then :
        {B : Type 0} (k : Kind) (call : Answer → Call) (message : String) (f : Unit {0} → Exec B)
        → ((u : Unit {0}) → Ends (f u))
        → Ends (store k call >>= λ stored. must message stored >>= f)
    Ends-stored_then k call message f kf =
        Returns-bind api (λ a. a ≡ done) (λ u. Unit {0}) _ _ (Returns-store api works k call)
          (λ a is. Ends-bind (must message a) f (Returns-must api message a is) kf)
