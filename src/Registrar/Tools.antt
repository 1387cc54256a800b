-- ===== src/Registrar/Tools.antt =====
-- The tools of a registration: those that the agent advertises, then the declared ones.
use agentrax.Prelude.{
  String, ◌≡◌, refl, sym, ◌∙◌, arith, false, ◌||◌, List, [], ◌∷◌, ◌++◌, ◌==◌, eq_iff, contains,
  Distinct, Bool-cases, inl, inr, if◌then◌else◌,
}
use agentrax.Registrar.{merge_tools, combine}

contains-append :
    (t : String) (xs ys : List String) → contains t (xs ++ ys) ≡ (contains t xs || contains t ys)
unfolding contains
contains-append t [] ys = refl
contains-append t (x ∷ xs) ys = ground (arith, contains-append t xs ys)

Distinct-snoc :
    (xs : List String) (t : String) → Distinct xs → contains t xs ≡ false → Distinct (xs ++ t ∷ [])
unfolding contains
Distinct-snoc [] t d h = (refl, tt)
Distinct-snoc (x ∷ xs) t d h = (
  ground (arith, contains-append x xs (t ∷ []), eq_iff x t, eq_iff t x),
  Distinct-snoc xs t d.1 (ground arith),
)

added : List String → List String → String → List String
added tools seen d = if contains d seen then tools else tools ++ d ∷ []

-- `seen` has what has been kept so far.
seen_added :
    (tools seen : List String) (d : String)
    → ((t : String) → contains t seen ≡ contains t tools)
    → (t : String) → contains t (d ∷ seen) ≡ contains t (added tools seen d)
unfolding added contains
seen_added tools seen d s t = elim (Bool-cases (contains d seen)) [
  | inl old ↦ rw old (ground (arith, s t, s d, eq_iff d t))
  | inr new ↦ rw new (ground (arith, s t, s d, eq_iff d t, contains-append t tools (d ∷ [])))
]

contains-added :
    (tools seen : List String) (d : String)
    → ((t : String) → contains t seen ≡ contains t tools)
    → (t : String) → contains t (added tools seen d) ≡ (contains t tools || d == t)
contains-added tools seen d s t =
    sym (seen_added tools seen d s t) ∙ unfold contains in ground (arith, s t)

Distinct-added :
    (tools seen : List String) (d : String)
    → ((t : String) → contains t seen ≡ contains t tools)
    → Distinct tools
    → Distinct (added tools seen d)
unfolding added
Distinct-added tools seen d s h = elim (Bool-cases (contains d seen)) [
  | inl old ↦ rw old h
  | inr new ↦ rw new (Distinct-snoc tools d h (sym (s d) ∙ new))
]

combine-members :
    (tools seen declared : List String)
    → ((t : String) → contains t seen ≡ contains t tools)
    → (t : String)
    → contains t (combine tools seen declared) ≡ (contains t tools || contains t declared)
unfolding combine added
combine-members tools seen [] s t = unfold contains in ground arith
combine-members tools seen (d ∷ declared) s t =
    combine-members (added tools seen d) (d ∷ seen) declared (seen_added tools seen d s) t
    ∙ unfold contains in ground (arith, contains-added tools seen d s t)

combine-Distinct :
    (tools seen declared : List String)
    → ((t : String) → contains t seen ≡ contains t tools)
    → Distinct tools
    → Distinct (combine tools seen declared)
unfolding combine added
combine-Distinct tools seen [] s h = h
combine-Distinct tools seen (d ∷ declared) s h =
    combine-Distinct (added tools seen d) (d ∷ seen) declared (seen_added tools seen d s)
      (Distinct-added tools seen d s h)

-- Registering an agent advertises exactly the tools of the handshake and those that its spec
-- declares.
pub contains-merge_tools :
    (tools declared : List String) (t : String)
    → contains t (merge_tools tools declared) ≡ (contains t tools || contains t declared)
unfolding merge_tools
contains-merge_tools tools declared t = combine-members tools tools declared (λ t. refl) t

-- If the handshake names no tool twice, no tool is advertised twice, whatever the spec declares.
pub merge_tools-Distinct :
    (tools declared : List String) → Distinct tools → Distinct (merge_tools tools declared)
unfolding merge_tools
merge_tools-Distinct tools declared h = combine-Distinct tools tools declared (λ t. refl) h
