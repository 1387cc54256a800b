-- ===== src/Prelude/Text/Digits.antt =====
-- The digits of a number, read back.
use Prim.Native.Nat.{ℕ, zero, suc, ◌+◌, ◌*◌, ◌/◌, ◌%◌, ◌<◌, ◌≤◌}
use Prim.Native.Char.{Char, code}
use Prim.Native.String.{String, ◌++◌}
use mathlib.Core.Path.{◌≡◌, refl, ap}
use mathlib.Core.Logic.{inl, inr}
use native.Mathlib.Omega.{arith}
use text.Mathlib.TextLemmas.{cons-append, nil-append}
use agentrax.Prelude.Tests.{ltb, Bool-cases}
use agentrax.Prelude.Int.{pos}
use agentrax.Prelude.Text.{digit, digits_of, decimal}

module _ {S : Type 0} (f : S → Char → S) where
  -- From the left.
  abbrev pub fold_text : S → String → S
  fold_text st String.[] = st
  fold_text st (String.◌∷◌ c s) = fold_text (f st c) s

  pub fold_text-append :
      (st : S) (s t : String) → fold_text st (s ++ t) ≡ fold_text (fold_text st s) t
  fold_text-append st String.[] t = rw (nil-append t) refl
  fold_text-append st (String.◌∷◌ c s) t = rw (cons-append c s t) (fold_text-append (f st c) s t)

digit-code : (n : ℕ) → n < 10 → (c : Char) × (digit n ≡ String.◌∷◌ c String.[]) × (code c ≡ 48 + n)
unfolding digit
digit-code zero h = ("0", refl, refl)
digit-code (suc zero) h = ("1", refl, refl)
digit-code (suc (suc zero)) h = ("2", refl, refl)
digit-code (suc (suc (suc zero))) h = ("3", refl, refl)
digit-code (suc (suc (suc (suc zero)))) h = ("4", refl, refl)
digit-code (suc (suc (suc (suc (suc zero))))) h = ("5", refl, refl)
digit-code (suc (suc (suc (suc (suc (suc zero)))))) h = ("6", refl, refl)
digit-code (suc (suc (suc (suc (suc (suc (suc zero))))))) h = ("7", refl, refl)
digit-code (suc (suc (suc (suc (suc (suc (suc (suc zero)))))))) h = ("8", refl, refl)
digit-code (suc (suc (suc (suc (suc (suc (suc (suc (suc zero))))))))) h = ("9", refl, refl)
digit-code (suc (suc (suc (suc (suc (suc (suc (suc (suc (suc n)))))))))) h = absurd (omega arith)

abbrev power_of_ten : ℕ → ℕ
power_of_ten zero = 1
power_of_ten (suc n) = 10 * power_of_ten n

more_digits : (fuel n : ℕ) → 10 ≤ n → n < power_of_ten (suc fuel) → 1 ≤ fuel
more_digits zero n large h = absurd (omega arith)
more_digits (suc fuel) n large h = omega arith

-- Digits are read one after the other: `st` takes the first one, and `P a` has read `a`.
module _ {S : Type 0} (f : S → Char → S) (st : S) (P : ℕ → S)
    (first : (d : ℕ) (c : Char) → d < 10 → code c ≡ 48 + d → f st c ≡ P d)
    (next : (a d : ℕ) (c : Char) → d < 10 → code c ≡ 48 + d → f (P a) c ≡ P (a * 10 + d)) where
  fold_text-digit : (n : ℕ) → n < 10 → fold_text f st (digit n) ≡ P n
  fold_text-digit n small = let (c, is, coded) = digit-code n small in rw is (first n c small coded)

  fold_text-digit_next : (a n : ℕ) → n < 10 → fold_text f (P a) (digit n) ≡ P (a * 10 + n)
  fold_text-digit_next a n small =
      let (c, is, coded) = digit-code n small in rw is (next a n c small coded)

  fold_text-digits_of :
      (fuel n : ℕ) → n < power_of_ten fuel → 1 ≤ fuel → fold_text f st (digits_of fuel n) ≡ P n
  unfolding digits_of
  fold_text-digits_of zero n h one = absurd (omega arith)
  fold_text-digits_of (suc fuel) n h one = elim (Bool-cases (ltb n 10)) [
    | inl small ↦ rw small (fold_text-digit n (ground arith))
    | inr large ↦
        let front =
          fold_text-digits_of fuel (n / 10) (omega arith) (more_digits fuel n (ground arith) h) in
        rw
          (
            large,
            fold_text-append f st (digits_of fuel (n / 10)) (digit (n % 10)),
            front,
            fold_text-digit_next (n / 10) (n % 10) (omega arith),
          )
          (ap P (omega arith))
  ]

  -- A number of at most 19 digits is read back.
  pub fold_text-decimal :
      (n : ℕ) → n < 10000000000000000000 → fold_text f st (decimal (pos n)) ≡ P n
  unfolding decimal
  fold_text-decimal n h = fold_text-digits_of 20 n (omega arith) (omega arith)
