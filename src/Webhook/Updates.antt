-- ===== src/Webhook/Updates.antt =====
-- ValidateUpdate: which updates pass, and what it does to the reservations.
use agentrax.Prelude.{
  String, ◌==◌, eq_iff, ◌≡◌, refl, ◌≢◌, ◌⊎◌, ◌↔◌, arith, Bool, true, false, not, ◌&&◌, inl, inr,
  Option, some, is_some, if◌then◌else◌,
}
use agentrax.Api.{Time, Phase, AgentDeployment}
use agentrax.Api.ErrorRate.{Float}
use agentrax.Quota.{Enforcer}
use agentrax.Webhook.{
  QuotaLookup, validate_spec, Response, allowed, is_rolling_out, validate_update,
  image_update_forbidden,
}
use agentrax.Webhook.Outcomes.{respond_iff, respond_rejected, IsAccepted, validate_spec-IsAccepted}

-- The checks before validateSpec.
stop_rejected :
    {e : Enforcer} (b : Bool) (kind : Response) (r : Enforcer × Response)
    → (r.1 ≢ allowed → r.0 ≡ e)
    → (if b then (e, kind) else r).1 ≢ allowed
    → (if b then (e, kind) else r).0 ≡ e
stop_rejected true kind r keeps h = refl
stop_rejected false kind r keeps h = keeps h

pass_iff :
    (e : Enforcer) (b : Bool) (r : Enforcer × Response)
    → ((if b then (e, allowed) else r).1 ≡ allowed) ↔ ((b ≡ true) ⊎ (r.1 ≡ allowed))
pass_iff e true r = (λ h. inl refl, λ h. refl)
pass_iff e false r = (λ h. inr h, λ h. elim h [ inl x ↦ ground arith | inr x ↦ x ])

forbid_iff :
    (e : Enforcer) (b : Bool) (r : Enforcer × Response)
    → ((if b then (e, image_update_forbidden) else r).1 ≡ allowed) ↔ ((b ≡ false) × (r.1 ≡ allowed))
forbid_iff e true r = (λ h. ground arith, λ h. ground arith)
forbid_iff e false r = (λ h. (refl, h), λ h. h.1)

changes_rollout_iff :
    (a b : String) (p : Phase)
    → ((not (a == b) && is_rolling_out p) ≡ false) ↔ ((a ≡ b) ⊎ (p ≢ Phase.rollout_in_progress))
unfolding is_rolling_out
changes_rollout_iff a b p = (λ h. ground (arith, eq_iff a b), λ h. ground (arith, eq_iff a b))

module _ (fl : Float) (e : Enforcer) (now : Time) (get : String → String → QuotaLookup)
    (ad : AgentDeployment) where
  -- A rejected update, for its image as for its spec, leaves the reservations alone.
  pub rejected_update_reserves_nothing :
      (request : Option (Option Bool)) (old_ad : AgentDeployment)
      → (validate_update fl request e now get old_ad ad).1 ≢ allowed
      → (validate_update fl request e now get old_ad ad).0 ≡ e
  unfolding validate_update
  rejected_update_reserves_nothing request old_ad h =
      stop_rejected (is_some ad.deletion_timestamp) allowed _
        (stop_rejected
          (not (old_ad.spec.image == ad.spec.image) && is_rolling_out old_ad.status.phase)
          image_update_forbidden _ (respond_rejected fl e now get ad request (some old_ad.spec)))
        h

  -- An update is allowed exactly if the object is being deleted, or if it does not change the image
  -- of a rollout in progress and is accepted against the old spec.
  pub validate_update-allowed :
      (request : Option (Option Bool)) (old_ad : AgentDeployment)
      → ((validate_update fl request e now get old_ad ad).1 ≡ allowed) ↔ (
          (is_some ad.deletion_timestamp ≡ true)
          ⊎ (((old_ad.spec.image ≡ ad.spec.image)
                ⊎ (old_ad.status.phase ≢ Phase.rollout_in_progress))
              × IsAccepted fl e now get ad (some old_ad.spec)))
  unfolding validate_update
  validate_update-allowed request old_ad =
      let accepted = validate_spec-IsAccepted fl e now get ad request (some old_ad.spec) in
      let answer = respond_iff (validate_spec fl request e now get ad (some old_ad.spec)) in
      let stays = changes_rollout_iff old_ad.spec.image ad.spec.image old_ad.status.phase in
      let outer = pass_iff e (is_some ad.deletion_timestamp) _ in
      let inner =
        forbid_iff e
          (not (old_ad.spec.image == ad.spec.image) && is_rolling_out old_ad.status.phase) _ in
      (
        (λ h. elim (outer.0 h) [
          | inl deleting ↦ inl deleting
          | inr rest ↦ let (a, b) = inner.0 rest in inr (stays.0 a, accepted.0 (answer.0 b))
        ]),
        (λ h. elim h [
          | inl deleting ↦ outer.1 (inl deleting)
          | inr rest ↦ outer.1 (inr (inner.1 (stays.1 rest.0, answer.1 (accepted.1 rest.1))))
        ]),
      )
