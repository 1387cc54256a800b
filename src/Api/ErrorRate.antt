-- ===== src/Api/ErrorRate.antt =====
-- ParseErrorRate of api/v1alpha1/error_rate.go. A float64 is the library's: `Float` carries what
-- the program uses of it.
use Prim.Native.Char.{Char, code}
use agentrax.Prelude.{ℤ, pos, String, eqb, Bool, not, ◌||◌, Option, none, some, if◌then◌else◌}

-- float64: IEEE comparison (false whenever a side is NaN), division, and the conversions.
pub record Float : Type 1 where
  pub F : Type 0
  pub ltb_f : F → F → Bool
  pub leb_f : F → F → Bool
  pub div_f : F → F → F
  pub is_nan : F → Bool
  pub is_inf : F → Bool
  pub of_int : ℤ → F
  -- strconv.ParseFloat
  pub parse_float : String → Option F

pub data RateError : Type 0 where
  empty no_percent bad_number not_finite out_of_range : RateError

pub data RateResult (F : Type 0) : Type 0 where
  rate : F → RateResult F
  rate_error : RateError → RateResult F

-- The text before its last character, and that character.
split_last : Char → String → String × Char
split_last c String.[] = (String.[], c)
split_last c (String.◌∷◌ d s) = let (front, last) = split_last d s in (String.◌∷◌ c front, last)

module _ (fl : Float) where
  open fl use {F, ltb_f, div_f, is_nan, is_inf, of_int, parse_float}

  in_range : F → RateResult F
  in_range pct =
      if is_nan pct || is_inf pct
      then rate_error not_finite
      else if ltb_f pct (of_int (pos 0)) || ltb_f (of_int (pos 100)) pct
      then rate_error out_of_range
      else rate (div_f pct (of_int (pos 100)))

  parsed_rate : Option F → RateResult F
  parsed_rate none = rate_error bad_number
  parsed_rate (some pct) = in_range pct

  unfoldable pub parse_error_rate : String → RateResult F
  unfolding split_last in_range parsed_rate
  parse_error_rate String.[] = rate_error empty
  parse_error_rate (String.◌∷◌ c s) =
      let (front, last) = split_last c s in
      if not (eqb (code last) b'%') then rate_error no_percent else parsed_rate (parse_float front)
