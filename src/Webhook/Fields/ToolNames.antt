-- ===== src/Webhook/Fields/ToolNames.antt =====
-- validateMcpTools against a description of the names that it lets pass.
use agentrax.Prelude.{
  ℕ, suc, String, ◌==◌, eq_iff, ◌≡◌, refl, sym, ◌↔◌, arith, false, Bool-cases, inl, inr, List, [],
  ◌∷◌, All, contains, Distinct,
}
use agentrax.Webhook.Fields.{FieldError, is_blank, tool_errors, validate_mcp_tools}
use agentrax.Webhook.Fields.Specs.{append_empty_iff, error_if_iff}

-- A name that is not blank and does not stand among the names before it.
abbrev pub AreFresh : List String → List String → Type 0
AreFresh seen [] = Unit
AreFresh seen (t ∷ tools) =
    (is_blank t ≡ false) × (contains t seen ≡ false) × AreFresh (t ∷ seen) tools

tool_errors_iff :
    (i : ℕ) (seen tools : List String) → (tool_errors i seen tools ≡ []) ↔ AreFresh seen tools
unfolding tool_errors
tool_errors_iff i seen [] = (λ h. tt, λ h. refl)
tool_errors_iff i seen (t ∷ tools) =
    let blank = error_if_iff (is_blank t) (FieldError.tool_empty i) in
    let again = error_if_iff (contains t seen) (FieldError.tool_duplicate i) in
    let rest = tool_errors_iff (suc i) (t ∷ seen) tools in
    let outer = append_empty_iff _ _ in
    let inner = append_empty_iff _ _ in
    (
      (λ h. let (a, b) = outer.0 h in let (c, d) = inner.0 b in (blank.0 a, again.0 c, rest.0 d)),
      (λ h. outer.1 (blank.1 h.0, inner.1 (again.1 h.1, rest.1 h.2))),
    )

contains-cons_iff :
    (u t : String) (seen : List String)
    → (contains u (t ∷ seen) ≡ false) ↔ (((t == u) ≡ false) × (contains u seen ≡ false))
unfolding contains
contains-cons_iff u t seen = (λ h. ground arith, λ h. ground arith)

==-comm : (t u : String) → (t == u) ≡ false → (u == t) ≡ false
==-comm t u h = elim (Bool-cases (u == t)) [
  | inl same ↦ ground (arith, (eq_iff u t).0 same, (eq_iff t u).1 (sym ((eq_iff u t).0 same)))
  | inr other ↦ other
]

abbrev pub Outside : List String → List String → Type 0
Outside seen tools = All (λ u. contains u seen ≡ false) tools

Outside-cons :
    (t : String) (seen tools : List String)
    → Outside (t ∷ seen) tools ↔ ((contains t tools ≡ false) × Outside seen tools)
Outside-cons t seen [] = (λ h. (unfold contains in refl, tt), λ h. tt)
Outside-cons t seen (u ∷ tools) =
    let rest = Outside-cons t seen tools in
    let first = contains-cons_iff u t seen in
    let second = contains-cons_iff t u tools in
    (
      (λ h.
          let (a, b) = first.0 h.0 in
          let (c, d) = rest.0 h.1 in (second.1 (==-comm t u a, c), (b, d))),
      (λ h. let (a, b) = second.0 h.0 in (first.1 (==-comm u t a, h.1.0), rest.1 (b, h.1.1))),
    )

AreFresh-Distinct :
    (seen tools : List String)
    → AreFresh seen tools
      ↔ (All (λ t. is_blank t ≡ false) tools × Distinct tools × Outside seen tools)
AreFresh-Distinct seen [] = (λ h. (tt, tt, tt), λ h. tt)
AreFresh-Distinct seen (t ∷ tools) =
    let rest = AreFresh-Distinct (t ∷ seen) tools in
    let out = Outside-cons t seen tools in
    (
      (λ h.
          let (blanks, distinct, outside) = rest.0 h.2 in
          let (once, before) = out.0 outside in ((h.0, blanks), (once, distinct), (h.1, before))),
      (λ h. (h.0.0, h.2.0, rest.1 (h.0.1, h.1.1, out.1 (h.1.0, h.2.1)))),
    )

nothing_before : (tools : List String) → Outside [] tools
nothing_before [] = tt
nothing_before (t ∷ tools) = (unfold contains in refl, nothing_before tools)

-- validateMcpTools reports nothing exactly if no tool name is blank and none stands twice.
pub validate_mcp_tools-Distinct :
    (tools : List String)
    → (validate_mcp_tools tools ≡ []) ↔ (All (λ t. is_blank t ≡ false) tools × Distinct tools)
unfolding validate_mcp_tools
validate_mcp_tools-Distinct tools =
    let errors = tool_errors_iff 0 [] tools in
    let fresh = AreFresh-Distinct [] tools in
    (
      (λ h. let (blanks, distinct, outside) = fresh.0 (errors.0 h) in (blanks, distinct)),
      (λ h. errors.1 (fresh.1 (h.0, h.1, nothing_before tools))),
    )
