-- ===== src/Quota/Inflight.antt =====
-- sumInflightLocked against the exact sum of the live reservations.
use agentrax.Prelude.{
  ℤ, pos, ◌+ℤ◌, ◌≤ℤ◌, +ℤ_parts, +ℤ_zero, +ℤ_assoc, neg_part-eq_zero, int_laws, wrap32_id, add32,
  max_int32, String, ◌≡◌, refl, sym, ◌∙◌, ap, [], ◌∷◌, All, arith, ◌==◌, Bool-cases, inl, inr,
  if◌then◌else◌,
}
use agentrax.Dict.{Dict, delete, insert}
use agentrax.Api.{Time}
use agentrax.Quota.{expired, charge, sum_inflight_from, sweep}
use agentrax.Quota.Verdicts.{Reservation}

-- The sum of `w` over the reservations that have not expired.
unfoldable pub live : (Reservation → ℤ) → Time → Dict Reservation → ℤ
live w now [] = pos 0
live w now ((k, v) ∷ m) = let rest = live w now m in if expired now v then rest else w v +ℤ rest

abbrev pub NonNegative : (Reservation → ℤ) → Dict Reservation → Type 0
NonNegative w = All (λ (e : String × Reservation). pos 0 ≤ℤ w e.1)

module _ (w : Reservation → ℤ) where
  pub live_nonneg : (now : Time) (m : Dict Reservation) → NonNegative w m → pos 0 ≤ℤ live w now m
  unfolding live
  live_nonneg now [] h = omega arith
  live_nonneg now ((k, v) ∷ m) h =
      ground (arith, live_nonneg now m h.1, +ℤ_parts (w v) (live w now m))

  pub NonNegative-delete :
      (k : String) (m : Dict Reservation) → NonNegative w m → NonNegative w (delete k m)
  unfolding delete
  NonNegative-delete k [] h = h
  NonNegative-delete k ((j, v) ∷ m) h = elim (Bool-cases (j == k)) [
    | inl e ↦ rw e (NonNegative-delete k m h.1)
    | inr e ↦ rw e (h.0, NonNegative-delete k m h.1)
  ]

  pub NonNegative-sweep :
      (now : Time) (m : Dict Reservation) → NonNegative w m → NonNegative w (sweep now m)
  unfolding sweep
  NonNegative-sweep now [] h = h
  NonNegative-sweep now ((j, v) ∷ m) h = elim (Bool-cases (expired now v)) [
    | inl e ↦ rw e (NonNegative-sweep now m h.1)
    | inr e ↦ rw e (h.0, NonNegative-sweep now m h.1)
  ]

  -- Deleting an entry does not raise the sum.
  pub live-delete :
      (now : Time) (k : String) (m : Dict Reservation)
      → NonNegative w m
      → live w now (delete k m) ≤ℤ live w now m
  unfolding live delete
  live-delete now k [] h = omega arith
  live-delete now k ((j, v) ∷ m) h = elim (Bool-cases (j == k)) [
    | inl e ↦ rw e (ground (arith, live-delete now k m h.1, +ℤ_parts (w v) (live w now m)))
    | inr e ↦ rw e (
        ground (
          arith,
          live-delete now k m h.1,
          +ℤ_parts (w v) (live w now m),
          +ℤ_parts (w v) (live w now (delete k m)),
        ))
  ]

  -- Sweeping removes only what is not summed.
  pub live-sweep : (now : Time) (m : Dict Reservation) → live w now (sweep now m) ≡ live w now m
  unfolding live sweep
  live-sweep now [] = refl
  live-sweep now ((j, v) ∷ m) = ground (arith, live-sweep now m)

  -- As time passes, the sum falls.
  pub live-later :
      (now later : Time) (m : Dict Reservation)
      → now ≤ℤ later
      → NonNegative w m
      → live w later m ≤ℤ live w now m
  unfolding live
  live-later now later [] t h = omega arith
  live-later now later ((j, v) ∷ m) t h = ground (
    arith,
    live-later now later m t h.1,
    +ℤ_parts (w v) (live w now m),
    +ℤ_parts (w v) (live w later m),
  )

  pub live-insert :
      (now : Time) (k : String) (v : Reservation) (m : Dict Reservation)
      → pos 0 ≤ℤ w v
      → live w now (insert k v m) ≤ℤ w v +ℤ live w now (delete k m)
  unfolding live insert
  live-insert now k v m h = ground (arith, +ℤ_parts (w v) (live w now (delete k m)))

-- `w` reads one of the three int32 counters.
abbrev pub IsCounter : (Reservation → ℤ) → Type 0
IsCounter w = (total v : Reservation) → w (charge total v) ≡ add32 (w total) (w v)

module _ (w : Reservation → ℤ) (counter : IsCounter w) (exclude : String) (now : Time) where
  -- A live entry of another key is added, and the sum fits.
  added :
      (a b rest : ℤ)
      → pos 0 ≤ℤ a
      → pos 0 ≤ℤ b
      → pos 0 ≤ℤ rest
      → a +ℤ (b +ℤ rest) ≤ℤ max_int32
      → (add32 a b ≡ a +ℤ b) × (pos 0 ≤ℤ a +ℤ b) × (a +ℤ b +ℤ rest ≤ℤ max_int32)
  added a b rest ha hb hr h =
      let sum : pos 0 ≤ℤ a +ℤ b = omega (arith, +ℤ_parts a b) in
      (
        wrap32_id (a +ℤ b) (
            omega (
              arith,
              neg_part-eq_zero (a +ℤ b) sum,
              +ℤ_parts a (b +ℤ rest),
              +ℤ_parts b rest,
              +ℤ_parts a b,
            )),
        sum,
        omega int_laws,
      )

  pub sum_inflight_from-live :
      (total : Reservation) (m : Dict Reservation)
      → NonNegative w m
      → pos 0 ≤ℤ w total
      → w total +ℤ live w now (delete exclude m) ≤ℤ max_int32
      → w (sum_inflight_from exclude now total m) ≡ w total +ℤ live w now (delete exclude m)
  unfolding sum_inflight_from live delete
  sum_inflight_from-live total [] h t b = sym (+ℤ_zero (w total))
  sum_inflight_from-live total ((k, v) ∷ m) h t b = elim (Bool-cases (k == exclude)) [
    | inl e ↦ rw e (sum_inflight_from-live total m h.1 t (rw e at b))
    | inr e ↦ elim (Bool-cases (expired now v)) [
      | inl x ↦ rw (e, x) (sum_inflight_from-live total m h.1 t (rw (e, x) at b))
      | inr x ↦
          rw (e, x)
            (let b' : w total +ℤ (w v +ℤ live w now (delete exclude m)) ≤ℤ max_int32 =
                rw (e, x) at b in
              let rest =
                live_nonneg w now (delete exclude m) (NonNegative-delete w exclude m h.1) in
              let (fits, sum, room) = added (w total) (w v) _ t h.0 rest b' in
              let here = counter total v ∙ fits in
              sum_inflight_from-live (charge total v) m h.1 (rw here sum) (rw here room)
              ∙ ap (λ (a : ℤ). a +ℤ live w now (delete exclude m)) here
              ∙ +ℤ_assoc (w total) (w v) (live w now (delete exclude m)))
    ]
  ]
