-- ===== src/Rollout/Query/Durations.antt =====
-- The durations of promql.go, read back as Prometheus reads them.
use Prim.Native.Char.{Char, code}
use Prim.Native.String.{◌++◌ as str_append}
use agentrax.Prelude.{
  ℕ, ◌+◌, ◌-◌, ◌*◌, ◌/◌, ◌%◌, ◌<◌, pos, eqb, decimal, String, ◌≡◌, refl, ap, ◌∙◌, inl, inr, arith,
  Bool-cases, Option, none, some, [], ◌∷◌, if◌then◌else◌,
}
use agentrax.Prelude.Text.Digits.{fold_text, fold_text-append, fold_text-decimal}
use agentrax.Rollout.Query.{concat, unit_text, hms, positive_duration, prom_duration}

-- The milliseconds so far, the number that is being read, and the number before an `m`, which are
-- minutes unless an `s` is next.
record Reading : Type 0 where
  total : ℕ
  number : ℕ
  minutes : ℕ

abbrev state : ℕ → ℕ → ℕ → Reading
state t n m = record { total = t; number = n; minutes = m }

abbrev read_char : Reading → Char → Reading
read_char r c =
    if eqb (code c) b'h'
    then state (r.total + r.number * 3600000) 0 0
    else if eqb (code c) b'm'
    then state (r.total + r.number * 60000) 0 r.number
    else if eqb (code c) b's'
    then state (r.total - r.minutes * 60000 + r.minutes + r.number * 1000) 0 0
    else state r.total (r.number * 10 + (code c - 48)) 0

-- A duration in milliseconds.
abbrev pub read_duration : String → ℕ
read_duration text = (fold_text read_char (state 0 0 0) text).total

first : (t m d : ℕ) (c : Char) → d < 10 → code c ≡ 48 + d → read_char (state t 0 m) c ≡ state t d 0
first t m d c small coded = rw coded (ground (arith, ap (λ n. state t n 0)))

next :
    (t a d : ℕ) (c : Char)
    → d < 10
    → code c ≡ 48 + d
    → read_char (state t a 0) c ≡ state t (a * 10 + d) 0
next t a d c small coded = rw coded (ground arith)

read_number :
    (t m n : ℕ)
    → n < 10000000000000000000
    → fold_text read_char (state t 0 m) (decimal (pos n)) ≡ state t n 0
read_number t m n h =
    fold_text-decimal read_char (state t 0 m) (λ a. state t a 0) (first t m) (next t) n h

read_hours :
    (n : ℕ)
    → n < 10000000000000000000
    → fold_text read_char (state 0 0 0) (unit_text n "h") ≡ state (n * 3600000) 0 0
unfolding unit_text
read_hours n h = elim (Bool-cases (eqb n 0)) [
  | inl zero ↦ rw zero (ground arith)
  | inr other ↦
      rw
        (other, fold_text-append read_char (state 0 0 0) (decimal (pos n)) "h", read_number 0 0 n h)
        (ap (λ t. state t 0 0) (omega arith))
]

read_minutes :
    (t n : ℕ)
    → n < 10000000000000000000
    → fold_text read_char (state t 0 0) (unit_text n "m") ≡ state (t + n * 60000) 0 n
unfolding unit_text
read_minutes t n h = elim (Bool-cases (eqb n 0)) [
  | inl zero ↦ rw zero (ground arith)
  | inr other ↦
      rw
        (other, fold_text-append read_char (state t 0 0) (decimal (pos n)) "m", read_number t 0 n h)
        refl
]

read_seconds :
    (t m n : ℕ)
    → n < 10000000000000000000
    → (fold_text read_char (state t 0 m) (unit_text n "s")).total ≡ t + n * 1000
unfolding unit_text
read_seconds t m n h = elim (Bool-cases (eqb n 0)) [
  | inl zero ↦ rw zero (ground arith)
  | inr other ↦
      rw
        (other, fold_text-append read_char (state t 0 m) (decimal (pos n)) "s", read_number t m n h)
        (omega arith)
]

fold_text-concat :
    (st : Reading) (a b c : String)
    → fold_text read_char st (concat (a ∷ b ∷ c ∷ []))
      ≡ fold_text read_char (fold_text read_char (fold_text read_char st a) b) c
unfolding concat
fold_text-concat st a b c =
    fold_text-append read_char st a (str_append b (str_append c ""))
    ∙ fold_text-append read_char (fold_text read_char st a) b (str_append c "")
    ∙ fold_text-append read_char (fold_text read_char (fold_text read_char st a) b) c ""

read-hms : (s : ℕ) → s < 10000000000000000000 → read_duration (hms s) ≡ s * 1000
unfolding hms
read-hms s h =
    let hours = s / 3600 in
    let left = s - hours * 3600 in
    let mins = left / 60 in
    let secs = left - mins * 60 in
    let m = unit_text mins "m" in
    let ends = unit_text secs "s" in
    ap (λ r. r.total) (fold_text-concat (state 0 0 0) (unit_text hours "h") m ends)
    ∙ ap (λ r. (fold_text read_char (fold_text read_char r m) ends).total)
        (read_hours hours (omega arith))
    ∙ ap (λ r. (fold_text read_char r ends).total)
        (read_minutes (hours * 3600000) mins (omega arith))
    ∙ read_seconds (hours * 3600000 + mins * 60000) mins secs (omega arith)
    ∙ omega arith

read_milliseconds :
    (n : ℕ) → n < 10000000000000000000 → read_duration (str_append (decimal (pos n)) "ms") ≡ n
read_milliseconds n h =
    ap (λ r. r.total) (fold_text-append read_char (state 0 0 0) (decimal (pos n)) "ms")
    ∙ ap (λ r. (fold_text read_char r "ms").total) (read_number 0 0 n h)
    ∙ omega arith

abbrev read_option : Option String → ℕ
read_option none = 0
read_option (some text) = read_duration text

-- The text that promDuration writes for a duration of an int64 number of nanoseconds, zero or more,
-- denotes that duration exactly when it is read as Prometheus reads it (h, m, s and ms).
pub read-prom_duration :
    (n : ℕ) (text : String)
    → n < 9223372036854775808
    → prom_duration (pos n) ≡ some text
    → read_duration text * 1000000 ≡ n
unfolding prom_duration positive_duration
read-prom_duration n text h e = elim (Bool-cases (eqb n 0)) [
  | inl nothing ↦
      let zero : n ≡ 0 = ground (arith, nothing) in
      let reads : 0 ≡ read_duration text = ap read_option (rw nothing at e) in
      omega (arith, zero, reads)
  | inr positive ↦ elim (Bool-cases (eqb (n % 1000000000) 0)) [
    | inl whole ↦
        let seconds = n / 1000000000 in
        let exact : n % 1000000000 ≡ 0 = ground (arith, whole) in
        let reads : read_duration (hms seconds) ≡ read_duration text =
          ap read_option (rw (positive, whole) at e) in
        omega (arith, exact, reads, read-hms seconds (omega arith))
    | inr part ↦ elim (Bool-cases (eqb (n % 1000000) 0)) [
      | inl millis ↦
          let count = n / 1000000 in
          let exact : n % 1000000 ≡ 0 = ground (arith, millis) in
          let reads : read_duration (str_append (decimal (pos count)) "ms") ≡ read_duration text =
            ap read_option (rw (positive, part, millis) at e) in
          omega (arith, exact, reads, read_milliseconds count (omega arith))
      | inr sub ↦ absurd (ground (arith, (rw (positive, part, sub) at e)))
    ]
  ]
]
