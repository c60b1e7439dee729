-- ===== src/Decimal.antt =====
-- apps/backend/src/common/helpers/decimal.helper.ts: how an amount is written in a response.
pub mod Trim
use Prim.Native.Char.{Char, code}
use Prim.Native.String.{[], ◌∷◌}
use hau_cex.Common.{
  ℕ, Bool, true, false, ◌&&◌, ◌||◌, Option, none, some, String, ℤ, ◌==◌, if◌then◌else◌,
}
use hau_cex.Platform.{Platform}

-- b'0' is the number of the character 0, b'.' that of the point.
abbrev pub is_zero_digit : Char → Bool
is_zero_digit c = code c == b'0'

abbrev pub is_point : Char → Bool
is_point c = code c == b'.'

-- `0*$`.
abbrev pub all_zeros : String → Bool
all_zeros [] = true
all_zeros (c ∷ s) = is_zero_digit c && all_zeros s

-- `0+$`.
abbrev pub some_zeros : String → Bool
some_zeros [] = false
some_zeros (c ∷ s) = is_zero_digit c && all_zeros s

-- `\.?0+$`, from here.
abbrev pub matches : String → Bool
matches [] = false
matches (c ∷ s) = some_zeros (c ∷ s) || (is_point c && some_zeros s)

-- `replace(/\.?0+$/, '')`: the first place where the pattern matches is cut off.
abbrev pub strip : String → String
strip [] = []
strip (c ∷ s) = let rest = strip s in if matches (c ∷ s) then [] else c ∷ rest

module _ (env : Platform) where
  -- `formatDecimal`.
  pub format_decimal : ℤ → String
  format_decimal d = strip (env.to_fixed18 d)

  pub format_optional : Option ℤ → Option String
  format_optional none = none
  format_optional (some d) = some (format_decimal d)
