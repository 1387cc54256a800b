-- ===== src/Registrar/Mcp/Targets.antt =====
-- The URL to which the handshake goes.
use Prim.Native.String.{◌++◌ as str_append}
use Prim.Native.Char.{Char}
use text.Mathlib.TextLemmas.{cons-append, nil-append}
use agentrax.Prelude.{
  String, ◌≡◌, refl, inl, inr, Bool-cases, true, false, ◌&&◌, arith, trim_slashes, has_suffix,
  is_slash, is_empty_text, if◌then◌else◌,
}
use agentrax.Registrar.Mcp.{initialize_url}

abbrev cons_trimmed : Char → String → String
cons_trimmed c rest = if is_slash c && is_empty_text rest then String.[] else String.◌∷◌ c rest

trim_slashes-cons :
    (c : Char) (s : String) → trim_slashes (String.◌∷◌ c s) ≡ cons_trimmed c (trim_slashes s)
unfolding trim_slashes
trim_slashes-cons c s = refl

trim_slashes-append : (s : String) → trim_slashes (str_append s "/") ≡ trim_slashes s
unfolding trim_slashes
trim_slashes-append String.[] = refl
trim_slashes-append (String.◌∷◌ c s) =
    rw (cons-append c s "/", trim_slashes-cons c (str_append s "/"), trim_slashes-append s) refl

trim_slashes-cons_trimmed :
    (c : Char) (s : String)
    → trim_slashes s ≡ s
    → trim_slashes (cons_trimmed c s) ≡ cons_trimmed c s
unfolding trim_slashes
trim_slashes-cons_trimmed c s h = elim (Bool-cases (is_slash c && is_empty_text s)) [
  | inl gone ↦ rw gone refl
  | inr kept ↦ rw (kept, trim_slashes-cons c s, h, kept) refl
]

trim_slashes-twice : (s : String) → trim_slashes (trim_slashes s) ≡ trim_slashes s
unfolding trim_slashes
trim_slashes-twice String.[] = refl
trim_slashes-twice (String.◌∷◌ c s) =
    trim_slashes-cons_trimmed c (trim_slashes s) (trim_slashes-twice s)

abbrev path : String
path = "/initialize"

is_empty_text-path : (s : String) → is_empty_text (str_append s path) ≡ false
is_empty_text-path String.[] = refl
is_empty_text-path (String.◌∷◌ c s) = rw (cons-append c s path) refl

-- What ends in the path has no slash to trim.
trim_slashes-path : (s : String) → trim_slashes (str_append s path) ≡ str_append s path
unfolding trim_slashes
trim_slashes-path String.[] = rw (nil-append path) refl
trim_slashes-path (String.◌∷◌ c s) =
    rw
      (
        cons-append c s path,
        trim_slashes-cons c (str_append s path),
        trim_slashes-path s,
        is_empty_text-path s,
      )
      (ground arith)

has_suffix-path : (s : String) → has_suffix (str_append s path) path ≡ true
unfolding has_suffix
has_suffix-path String.[] = refl
has_suffix-path (String.◌∷◌ c s) = rw (cons-append c s path, has_suffix-path s) (ground arith)

initialize_url-fixed :
    (url : String) → trim_slashes url ≡ url → has_suffix url path ≡ true → initialize_url url ≡ url
unfolding initialize_url
initialize_url-fixed url trimmed ends = rw (trimmed, ends) refl

-- The URL of the handshake ends in /initialize, is the same with and without a slash at the end
-- of the endpoint, and, taken for an endpoint, is its own URL.
pub initialize_url_normal :
    (endpoint : String)
    → (has_suffix (initialize_url endpoint) "/initialize" ≡ true)
      × (initialize_url (str_append endpoint "/") ≡ initialize_url endpoint)
      × (initialize_url (initialize_url endpoint) ≡ initialize_url endpoint)
unfolding initialize_url
initialize_url_normal endpoint =
    let url = trim_slashes endpoint in
    elim (Bool-cases (has_suffix url path)) [
      | inl ends ↦
          rw (trim_slashes-append endpoint, ends)
            (ends, refl, initialize_url-fixed url (trim_slashes-twice endpoint) ends)
      | inr other ↦
          rw (trim_slashes-append endpoint, other)
            (
              has_suffix-path url,
              refl,
              initialize_url-fixed (str_append url path) (trim_slashes-path url)
                  (has_suffix-path url),
            )
    ]
