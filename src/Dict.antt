-- ===== src/Dict.antt =====
-- Go's maps with string keys, as association lists: a write moves the key to the front, since the
-- order of a Go map is not specified and the program sorts nothing by it. A nil map and an empty
-- one behave alike in every operation that the program makes on them.
use agentrax.Prelude.{
  String, ◌≡◌, refl, Option, none, some, List, [], ◌∷◌, arith, ◌==◌, eq_iff, eq_refl, Bool,
  Bool-cases, inl, inr, if◌then◌else◌,
}

abbrev pub Dict {ℓ} : Type ℓ → Type ℓ
Dict V = List (String × V)

module _ {ℓ} {V : Type ℓ} where
  -- v, ok := m[k]
  unfoldable pub lookup : String → Dict V → Option V
  lookup k [] = none
  lookup k ((j, v) ∷ m) = if j == k then some v else lookup k m

  -- delete(m, k)
  unfoldable pub delete : String → Dict V → Dict V
  delete k [] = []
  delete k ((j, v) ∷ m) = let rest = delete k m in if j == k then rest else (j, v) ∷ rest

  -- m[k] = v
  unfoldable pub insert : String → V → Dict V → Dict V
  insert k v m = (k, v) ∷ delete k m

  pub lookup-delete :
      (k j : String) (m : Dict V) → lookup j (delete k m) ≡ (if k == j then none else lookup j m)
  unfolding lookup delete
  lookup-delete k j [] = ground arith
  lookup-delete k j ((i, v) ∷ m) =
      ground (arith, lookup-delete k j m, eq_iff i k, eq_iff i j, eq_iff k j)

  pub lookup-insert :
      (k j : String) (v : V) (m : Dict V)
      → lookup j (insert k v m) ≡ (if k == j then some v else lookup j m)
  unfolding lookup insert
  lookup-insert k j v m = ground (arith, lookup-delete k j m)

-- for k, v := range m { if !p(v) { delete(m, k) } }
module _ {ℓ} {V : Type ℓ} where
  unfoldable pub keep : (V → Bool) → Dict V → Dict V
  keep p [] = []
  keep p ((k, v) ∷ m) = let rest = keep p m in if p v then (k, v) ∷ rest else rest

  abbrev pub keep_option : (V → Bool) → Option V → Option V
  keep_option p none = none
  keep_option p (some v) = if p v then some v else none

  -- No key stands twice.
  abbrev pub IsMap : Dict V → Type ℓ
  IsMap [] = Unit
  IsMap ((k, v) ∷ m) = (lookup k m ≡ none) × IsMap m

  pub IsMap-delete : (k : String) (m : Dict V) → IsMap m → IsMap (delete k m)
  unfolding delete
  IsMap-delete k [] h = h
  IsMap-delete k ((j, v) ∷ m) h = elim (Bool-cases (j == k)) [
    | inl e ↦ rw e (IsMap-delete k m h.1)
    | inr e ↦ rw e (ground (arith, lookup-delete k j m, eq_iff k j, h.0), IsMap-delete k m h.1)
  ]

  pub IsMap-insert : (k : String) (v : V) (m : Dict V) → IsMap m → IsMap (insert k v m)
  unfolding insert
  IsMap-insert k v m h = (rw (lookup-delete k k m, eq_refl k) refl, IsMap-delete k m h)

  keep-none :
      (p : V → Bool) (k : String) (m : Dict V) → lookup k m ≡ none → lookup k (keep p m) ≡ none
  unfolding lookup keep
  keep-none p k [] h = refl
  keep-none p k ((j, v) ∷ m) h = ground (arith, keep-none p k m)

  pub IsMap-keep : (p : V → Bool) (m : Dict V) → IsMap m → IsMap (keep p m)
  unfolding keep
  IsMap-keep p [] h = h
  IsMap-keep p ((k, v) ∷ m) h = elim (Bool-cases (p v)) [
    | inl e ↦ rw e (keep-none p k m h.0, IsMap-keep p m h.1)
    | inr e ↦ rw e (IsMap-keep p m h.1)
  ]

  pub lookup-keep :
      (p : V → Bool) (k : String) (m : Dict V)
      → IsMap m
      → lookup k (keep p m) ≡ keep_option p (lookup k m)
  unfolding lookup keep
  lookup-keep p k [] h = refl
  lookup-keep p k ((j, v) ∷ m) h =
      ground (arith, lookup-keep p k m h.1, keep-none p k m, h.0, eq_iff j k)
