-- ===== src/Prelude/Text.antt =====
-- fmt's `%d` of a number, and sets of texts (map[string]bool).
pub mod Digits
use Prim.Native.Nat.{ℕ, zero, suc, ◌/◌, ◌%◌}
use Prim.Native.Char.{Char, code}
use Prim.Native.String.{String, ◌++◌ as str_append}
use mathlib.Core.Path.{◌≡◌, refl}
use mathlib.Core.Bool.{Bool, true, false, ◌||◌, ◌&&◌}
use mathlib.Core.List.{List, [], ◌∷◌}
use text.Mathlib.Text.{◌==◌}
use agentrax.Prelude.Tests.{ltb, eqb, if◌then◌else◌}
use agentrax.Prelude.Int.{ℤ, pos, negsuc}

digit : ℕ → String
digit n =
    if eqb n 0
    then "0"
    else if eqb n 1
    then "1"
    else if eqb n 2
    then "2"
    else if eqb n 3
    then "3"
    else if eqb n 4
    then "4"
    else if eqb n 5
    then "5"
    else if eqb n 6
    then "6"
    else if eqb n 7
    then "7"
    else if eqb n 8
    then "8"
    else "9"

-- The decimal digits of a number below 10 ^ fuel.
digits_of : ℕ → ℕ → String
digits_of zero n = ""
digits_of (suc fuel) n =
    let front = digits_of fuel (n / 10) in
    if ltb n 10 then digit n else str_append front (digit (n % 10))

-- An int64 has at most 19 digits.
unfoldable pub decimal : ℤ → String
unfolding digits_of digit
decimal (pos n) = digits_of 20 n
decimal (negsuc n) = str_append "-" (digits_of 20 (suc n))

decimal_port : decimal (pos 8080) ≡ "8080"
unfolding decimal
decimal_port = refl

-- seen[t]
unfoldable pub contains : String → List String → Bool
contains t [] = false
contains t (s ∷ seen) = s == t || contains t seen

-- No member stands twice.
abbrev pub Distinct : List String → Type 0
Distinct [] = Unit
Distinct (t ∷ ts) = (contains t ts ≡ false) × Distinct ts

abbrev pub is_empty_text : String → Bool
is_empty_text String.[] = true
is_empty_text (String.◌∷◌ c s) = false

abbrev pub is_slash : Char → Bool
is_slash c = eqb (code c) b'/'

-- strings.TrimRight(s, "/")
unfoldable pub trim_slashes : String → String
trim_slashes String.[] = String.[]
trim_slashes (String.◌∷◌ c s) =
    let rest = trim_slashes s in
    if is_slash c && is_empty_text rest then String.[] else String.◌∷◌ c rest

-- strings.HasSuffix(s, suffix)
unfoldable pub has_suffix : String → String → Bool
has_suffix String.[] suffix = suffix == ""
has_suffix (String.◌∷◌ c s) suffix =
    let later = has_suffix s suffix in String.◌∷◌ c s == suffix || later

trims : trim_slashes "http://a/b//" ≡ "http://a/b"
unfolding trim_slashes
trims = refl

ends_so : has_suffix "http://a/initialize" "/initialize" ≡ true
unfolding has_suffix
ends_so = refl
