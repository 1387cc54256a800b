-- ===== src/Registry/Restart.antt =====
-- What loadFromConfigMap makes of the entries that it reads.
use agentrax.Prelude.{
  String, ◌≡◌, refl, ◌∙◌, inl, inr, arith, Bool-cases, Option, none, some, [], ◌∷◌, ◌==◌, eq_iff,
}
use agentrax.Dict.{Dict, IsMap, lookup, insert, lookup-insert}
use agentrax.Registry.{Entry, insert_all}

abbrev pub or_else : Option Entry → Option Entry → Option Entry
or_else none other = other
or_else (some e) other = some e

-- What was loaded stands before what was there.
pub lookup-insert_all :
    (j : String) (loaded m : Dict Entry)
    → IsMap loaded
    → lookup j (insert_all loaded m) ≡ or_else (lookup j loaded) (lookup j m)
unfolding insert_all lookup
lookup-insert_all j [] m h = refl
lookup-insert_all j ((k, e) ∷ loaded) m h =
    lookup-insert_all j loaded (insert k e m) h.1 ∙ elim (Bool-cases (k == j)) [
      | inl same ↦
          let absent : lookup j loaded ≡ none = ground (arith, eq_iff k j, h.0) in
          rw (lookup-insert k j e m, absent, same) refl
      | inr other ↦ rw (lookup-insert k j e m, other) refl
    ]

pub or_else-none : (o : Option Entry) → or_else o none ≡ o
or_else-none none = refl
or_else-none (some e) = refl
