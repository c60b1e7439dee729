-- ===== src/Tests/Pages.antt =====
-- The text of an amount.
use Prim.Native.Char.{Char, char}
use hau_cex.Common.{◌≡◌, refl, false, [], ◌∷◌, ◌++◌}
use hau_cex.Decimal.{strip}
use hau_cex.Decimal.Trim.{text, trim, fraction, units, ends_in_zero, strip_trims}

abbrev point : Char
point = char 46 tt

abbrev zero_digit : Char
zero_digit = char 48 tt

abbrev five : Char
five = char 53 tt

-- "10.0500".
strip_trims_example :
    let whole = char 49 tt ∷ zero_digit ∷ [] in
    let digits = five ∷ zero_digit ∷ zero_digit ∷ [] in
    (strip (text (whole ++ point ∷ zero_digit ∷ digits))
      ≡ text (whole ++ fraction point (trim (zero_digit ∷ digits))))
    × (units 18 (trim (zero_digit ∷ digits)) ≡ units 18 (zero_digit ∷ digits))
    × (ends_in_zero (trim (zero_digit ∷ digits)) ≡ false)
strip_trims_example =
    strip_trims point refl (char 49 tt ∷ zero_digit ∷ []) zero_digit
      (five ∷ zero_digit ∷ zero_digit ∷ []) 18 (refl, (refl, tt)) (refl, (refl, (refl, (refl, tt))))
