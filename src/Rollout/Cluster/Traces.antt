-- ===== src/Rollout/Cluster/Traces.antt =====
-- What a run calls: every new call is one that `P` allows, whatever has been called before, and if the
-- run succeeds its result is one that `Q` allows.
use agentrax.Prelude.{
  String, ◌≡◌, refl, sym, ap, ◌∙◌, Bool, true, false, Option, none, some, List, [], ◌∷◌, ◌++◌, All,
  All-append, if◌then◌else◌,
}
use mathlib.Core.List.{append_assoc}
use agentrax.Api.{AgentDeployment}
use agentrax.Rollout.Cluster.{
  Kind, Answer, done, not_found, failed, Call, History, read, delete_call, list_call, write_status,
  Reply, object, missing, broken, Api, Result, ok, error, panic, Exec, pure, fail, crash, continue,
  ◌>>=◌, get, delete, store, update_status, asks, need, must, require, list_items, need_list,
}

abbrev pub Anything : {A : Type 0} → A → Type 0
Anything a = Unit

abbrev pub OnOk : {A : Type 0} → (A → Type 0) → Result A → Type 0
OnOk Q (ok a) = Q a
OnOk Q (error e) = Unit
OnOk Q panic = Unit

abbrev pub OnObject : {A : Type 0} → (A → Type 0) → Reply A → Type 0
OnObject Q (object a) = Q a
OnObject Q missing = Unit
OnObject Q broken = Unit

pub OnObject-any : {A : Type 0} (r : Reply A) → OnObject Anything r
OnObject-any (object a) = tt
OnObject-any missing = tt
OnObject-any broken = tt

module _ (api : Api) (P : Call → Type 0) where
  abbrev pub Adds : History → History → Type 0
  Adds h h' = (new : History) × (h' ≡ new ++ h) × All P new

  abbrev pub Does : {A : Type 0} → (A → Type 0) → Exec A → Type 0
  Does Q m = (h : History) → Adds h (m api h).1 × OnOk Q (m api h).0

  module _ {A B : Type 0} (Q : A → Type 0) (R : B → Type 0) where
    Does-continue :
        (r : Result A) (f : A → Exec B) (h : History)
        → OnOk Q r
        → ((a : A) → Q a → Does R (f a))
        → Adds h (continue r f api h).1 × OnOk R (continue r f api h).0
    unfolding continue
    Does-continue (ok a) f h q kf = kf a q h
    Does-continue (error e) f h q kf = (([], refl, tt), tt)
    Does-continue panic f h q kf = (([], refl, tt), tt)

    pub Does-bind :
        (m : Exec A) (f : A → Exec B) → Does Q m → ((a : A) → Q a → Does R (f a)) → Does R (m >>= f)
    unfolding ◌>>=◌
    Does-bind m f km kf h =
        let (before, q) = km h in
        let (first, is_first, all_first) = before in
        let (after, r) = Does-continue (m api h).0 f (m api h).1 q kf in
        let (second, is_second, all_second) = after in
        (
          (
            second ++ first,
            is_second ∙ ap (λ x. second ++ x) is_first ∙ sym (append_assoc second first h),
            All-append P second first all_second all_first,
          ),
          r,
        )

  module _ {A : Type 0} (Q : A → Type 0) where
    pub Does-pure : (a : A) → Q a → Does Q (pure a)
    unfolding pure
    Does-pure a q h = (([], refl, tt), q)

    pub Does-fail : (message : String) → Does Q (fail message)
    unfolding fail
    Does-fail message h = (([], refl, tt), tt)

    pub Does-crash : Does Q crash
    unfolding crash
    Does-crash h = (([], refl, tt), tt)

    pub Does-if : (b : Bool) (m n : Exec A) → Does Q m → Does Q n → Does Q (if b then m else n)
    Does-if true m n km kn = km
    Does-if false m n km kn = kn

    pub Does-asks : (f : Api → History → A) → ((h : History) → Q (f api h)) → Does Q (asks f)
    unfolding asks
    Does-asks f q h = (([], refl, tt), q h)

    pub Does-get :
        (k : Kind) (from : Api → History → String → String → Reply A) (namespace name : String)
        → ((a : Answer) → P (read k namespace name a))
        → ((h : History) → OnObject Q (from api h namespace name))
        → Does (OnObject Q) (get k from namespace name)
    unfolding get
    Does-get k from namespace name p q h = ((read k namespace name _ ∷ [], refl, (p _, tt)), q h)

    pub Does-need : (message : String) (r : Reply A) → OnObject Q r → Does Q (need message r)
    unfolding need
    Does-need message (object a) q = Does-pure a q
    Does-need message missing q = Does-fail message
    Does-need message broken q = Does-fail message

  pub Does-delete :
      (k : Kind) (namespace name : String)
      → ((a : Answer) → P (delete_call k namespace name a))
      → Does Anything (delete k namespace name)
  unfolding delete
  Does-delete k namespace name p h = ((delete_call k namespace name _ ∷ [], refl, (p _, tt)), tt)

  pub Does-store :
      (k : Kind) (call : Answer → Call) → ((a : Answer) → P (call a)) → Does Anything (store k call)
  unfolding store
  Does-store k call p h = ((call _ ∷ [], refl, (p _, tt)), tt)

  pub Does-update_status :
      (Q : AgentDeployment → Type 0) (ad : AgentDeployment)
      → ((a : Answer) → P (write_status ad a))
      → ((h : History) → OnObject Q (api.update_status h ad))
      → Does (OnObject Q) (update_status ad)
  unfolding update_status
  Does-update_status Q ad p q h = ((write_status ad _ ∷ [], refl, (p _, tt)), q h)

  pub Does-must : (message : String) (a : Answer) → Does Anything (must message a)
  unfolding must
  Does-must message done = Does-pure Anything tt tt
  Does-must message not_found = Does-fail {A = Unit {0}} Anything message
  Does-must message failed = Does-fail {A = Unit {0}} Anything message

  pub Does-require : (message : String) (b : Bool) → Does Anything (require message b)
  unfolding require
  Does-require message true = Does-pure Anything tt tt
  Does-require message false = Does-fail {A = Unit {0}} Anything message

  pub Does-list :
      {A B : Type 0} (Q : B → Type 0) (k : Kind) (from : Api → History → String → Option (List A))
      (namespace message : String) (f : List A → Exec B)
      → ((b : Bool) → P (list_call k namespace b))
      → ((items : List A) → Does Q (f items))
      → Does Q (list_items k from namespace >>= λ items. need_list message items >>= f)
  unfolding list_items need_list
  Does-list {A} Q k from namespace message f p kf =
      Does-bind Anything Q _ _ (λ h. ((list_call k namespace _ ∷ [], refl, (p _, tt)), tt))
        λ o u. Does-bind Anything Q _ _ (needed o) λ items v. kf items
    where
      needed : (o : Option (List A)) → Does Anything (need_list message o)
      needed none = Does-fail {A = List A} Anything message
      needed (some items) = Does-pure Anything items tt

  -- The usual ends: a write that has to succeed, and the use of an object that has to be there.
  pub Does-stored :
      (k : Kind) (call : Answer → Call) (message : String)
      → ((a : Answer) → P (call a))
      → Does Anything (store k call >>= must message)
  Does-stored k call message p =
      Does-bind Anything Anything _ _ (Does-store k call p) (λ a u. Does-must message a)

  pub Does-needed :
      {A B : Type 0} (Q : A → Type 0) (R : B → Type 0) (k : Kind)
      (from : Api → History → String → String → Reply A) (namespace name message : String)
      (f : A → Exec B)
      → ((a : Answer) → P (read k namespace name a))
      → ((h : History) → OnObject Q (from api h namespace name))
      → ((a : A) → Q a → Does R (f a))
      → Does R (get k from namespace name >>= λ reply. need message reply >>= f)
  Does-needed Q R k from namespace name message f p q kf =
      Does-bind (OnObject Q) R _ _ (Does-get Q k from namespace name p q)
        λ reply o. Does-bind Q R (need message reply) f (Does-need Q message reply o) kf

  pub Does-written :
      {B : Type 0} (Q : AgentDeployment → Type 0) (R : B → Type 0) (ad : AgentDeployment)
      (message : String) (f : AgentDeployment → Exec B)
      → ((a : Answer) → P (write_status ad a))
      → ((h : History) → OnObject Q (api.update_status h ad))
      → ((a : AgentDeployment) → Q a → Does R (f a))
      → Does R (update_status ad >>= λ reply. need message reply >>= f)
  Does-written Q R ad message f p q kf =
      Does-bind (OnObject Q) R _ _ (Does-update_status Q ad p q)
        λ reply o. Does-bind Q R (need message reply) f (Does-need Q message reply o) kf
