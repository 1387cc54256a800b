-- ===== src/Quota/Rules.antt =====
-- evalQuotaRules against a description of the four limits over the integers.
use agentrax.Prelude.{
  ℤ, pos, ◌+ℤ◌, ◌≤ℤ◌, ltb_ℤ, eqb_ℤ, eqb_ℤ_iff, InInt32, add64, wrap64_id, max_int32, +ℤ_bounds, ◌≡◌,
  ◌≢◌, ◌⊎◌, ◌↔◌, arith, Bool, true, false, not, ◌&&◌, ◌||◌,
}
use agentrax.Api.{TenantQuotaSpec, TenantQuotaStatus}
use agentrax.Quota.Verdicts.{Reservation, admitted, eval_quota_rules}

-- A sum of three int32 values is computed in 64 bits without a wrap.
pub projected : (a b c : ℤ) → InInt32 a → InInt32 b → InInt32 c → add64 (add64 a b) c ≡ a +ℤ b +ℤ c
projected a b c ha hb hc =
    rw (wrap64_id (a +ℤ b) (omega (arith, +ℤ_bounds a b)))
      (wrap64_id (a +ℤ b +ℤ c) (omega (arith, +ℤ_bounds a b, +ℤ_bounds (a +ℤ b) c)))

-- One dimension of the quota: the projected use is within the limit, or the request is an update
-- that does not raise it.
abbrev pub Within : ℤ → ℤ → ℤ → ℤ → Bool → Type 0
Within limit used in_flight delta is_update =
    (used +ℤ in_flight +ℤ delta ≤ℤ limit) ⊎ ((is_update ≡ true) × (delta ≤ℤ pos 0))

module _ (quota : TenantQuotaSpec) (used : TenantQuotaStatus) (in_flight delta : Reservation)
    (requested_max : ℤ) (is_update : Bool) (prev_max : ℤ) where
  pub record IsAdmissible : Type 0 where
    pub counted : delta.gpus ≢ max_int32
    pub agents : Within quota.max_agents used.used_agents in_flight.agents delta.agents is_update
    pub gpus : Within quota.max_gpus used.used_gpus in_flight.gpus delta.gpus is_update
    pub replicas :
        Within quota.max_total_replicas used.used_total_replicas in_flight.replicas delta.replicas
          is_update
    pub per_agent :
        (requested_max ≤ℤ quota.max_replicas_per_agent)
        ⊎ ((is_update ≡ true) × (requested_max ≤ℤ prev_max))

-- The request is built of int32 values.
pub record IsInt32 (used : TenantQuotaStatus) (in_flight delta : Reservation) : Type 0 where
  pub used_agents : InInt32 used.used_agents
  pub used_gpus : InInt32 used.used_gpus
  pub used_replicas : InInt32 used.used_total_replicas
  pub flight_agents : InInt32 in_flight.agents
  pub flight_gpus : InInt32 in_flight.gpus
  pub flight_replicas : InInt32 in_flight.replicas
  pub delta_agents : InInt32 delta.agents
  pub delta_gpus : InInt32 delta.gpus
  pub delta_replicas : InInt32 delta.replicas

-- The guard of one dimension.
exceeds : ℤ → ℤ → ℤ → Bool → Bool
exceeds limit proj delta is_update = ltb_ℤ limit proj && (not is_update || ltb_ℤ (pos 0) delta)

exceeds_iff :
    (limit proj delta : ℤ) (is_update : Bool)
    → (exceeds limit proj delta is_update ≡ false)
      ↔ ((proj ≤ℤ limit) ⊎ ((is_update ≡ true) × (delta ≤ℤ pos 0)))
unfolding exceeds
exceeds_iff limit proj delta is_update = (λ h. ground arith, λ h. ground arith)

exceeds-Within :
    (limit a b c : ℤ) (u : Bool)
    → InInt32 a
    → InInt32 b
    → InInt32 c
    → (exceeds limit (add64 (add64 a b) c) c u ≡ false) ↔ Within limit a b c u
exceeds-Within limit a b c u ha hb hc =
    rw (projected a b c ha hb hc) (exceeds_iff limit (a +ℤ b +ℤ c) c u)

-- The request passes exactly if none of the five guards holds.
eval_quota_rules_lem :
    (quota : TenantQuotaSpec) (used : TenantQuotaStatus) (f d : Reservation) (rm : ℤ) (u : Bool)
    (pm : ℤ)
    → (eval_quota_rules quota used f d rm u pm ≡ admitted) ↔ (
        (eqb_ℤ d.gpus max_int32 ≡ false)
        × (exceeds quota.max_agents (add64 (add64 used.used_agents f.agents) d.agents) d.agents u
            ≡ false)
        × (exceeds quota.max_gpus (add64 (add64 used.used_gpus f.gpus) d.gpus) d.gpus u ≡ false)
        × (exceeds quota.max_total_replicas
              (add64 (add64 used.used_total_replicas f.replicas) d.replicas)
              d.replicas
              u
            ≡ false)
        × ((ltb_ℤ quota.max_replicas_per_agent rm && (not u || ltb_ℤ pm rm)) ≡ false))
unfolding eval_quota_rules exceeds
eval_quota_rules_lem quota used f d rm u pm = (λ h. ground arith, λ h. ground arith)

-- With int32 values, evalQuotaRules admits exactly the requests that IsAdmissible describes: the
-- GPU count did not overflow, and agents, GPUs, replicas and replicas per agent are each within
-- their limit or not raised by an update; no 64-bit sum wraps.
pub eval_quota_rules-IsAdmissible :
    (quota : TenantQuotaSpec) (used : TenantQuotaStatus) (f d : Reservation) (rm : ℤ) (u : Bool)
    (pm : ℤ)
    → IsInt32 used f d
    → (eval_quota_rules quota used f d rm u pm ≡ admitted) ↔ IsAdmissible quota used f d rm u pm
eval_quota_rules-IsAdmissible quota used f d rm u pm h =
    let rules = eval_quota_rules_lem quota used f d rm u pm in
    let agents =
      exceeds-Within quota.max_agents _ _ _ u h.used_agents h.flight_agents h.delta_agents in
    let gpus = exceeds-Within quota.max_gpus _ _ _ u h.used_gpus h.flight_gpus h.delta_gpus in
    let replicas =
      exceeds-Within quota.max_total_replicas _ _ _ u h.used_replicas h.flight_replicas
        h.delta_replicas in
    (
      (λ e.
          let (a, b, c, d', g) = rules.0 e in
          record {
            counted = λ q. ground (arith, eqb_ℤ_iff d.gpus max_int32);
            agents = agents.0 b;
            gpus = gpus.0 c;
            replicas = replicas.0 d';
            per_agent = ground arith;
          }),
      (λ a. rules.1 (
        ground (arith, a.counted),
        agents.1 a.agents,
        gpus.1 a.gpus,
        replicas.1 a.replicas,
        ground (arith, a.per_agent),
      )),
    )
