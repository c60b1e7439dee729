-- ===== src/Decimal/Trim.antt =====
-- decimal.helper.ts: the text that is left has the same value and no trailing zero.
use Prim.Native.Char.{Char, code}
use Prim.Native.String.{[] as empty, ◌∷◌ as cons}
use hau_cex.Common.{
  ℕ, zero, suc, ◌+◌, ◌-◌, ◌*◌, ◌^◌, ◌≡◌, refl, ap, ◌∙◌, Bool, true, false, ◌&&◌, ◌||◌, List, [],
  ◌∷◌, ◌++◌, inl, inr, String, ==_iff, All, if◌then◌else◌, Bool-cases, arith,
}
use hau_cex.Decimal.{is_zero_digit, is_point, all_zeros, strip}

-- The text of some characters.
abbrev pub text : List Char → String
text [] = empty
text (c ∷ cs) = cons c (text cs)

abbrev is_nil : List Char → Bool
is_nil [] = true
is_nil (c ∷ cs) = false

abbrev trim_one : Char → List Char → List Char
trim_one c [] = if is_zero_digit c then [] else c ∷ []
trim_one c (d ∷ ds) = c ∷ d ∷ ds

-- Without the zeros at the end.
abbrev pub trim : List Char → List Char
trim [] = []
trim (c ∷ cs) = trim_one c (trim cs)

-- The point and the digits after it, or nothing.
abbrev pub fraction : Char → List Char → List Char
fraction point [] = []
fraction point (c ∷ cs) = point ∷ c ∷ cs

-- The digits after a point, in units of 10^-n.
abbrev pub units : ℕ → List Char → ℕ
units zero cs = 0
units (suc n) [] = 0
units (suc n) (c ∷ cs) = (code c - b'0') * 10 ^ n + units n cs

abbrev pub ends_in_zero : List Char → Bool
ends_in_zero [] = false
ends_in_zero (c ∷ []) = is_zero_digit c
ends_in_zero (c ∷ d ∷ ds) = ends_in_zero (d ∷ ds)

abbrev pub IsNoPoint : Char → Type 0
IsNoPoint c = is_point c ≡ false

all_zeros-trim : (cs : List Char) → all_zeros (text cs) ≡ is_nil (trim cs)
all_zeros-trim [] = refl
all_zeros-trim (c ∷ cs) = rw (all_zeros-trim cs) (one c (trim cs))
  where
    one : (c : Char) (ds : List Char) → (is_zero_digit c && is_nil ds) ≡ is_nil (trim_one c ds)
    one c [] = ground arith
    one c (d ∷ ds) = ground arith

strip-one :
    (c : Char) (ds : List Char)
    → (if is_zero_digit c && is_nil ds then empty else cons c (text ds)) ≡ text (trim_one c ds)
strip-one c [] = ground arith
strip-one c (d ∷ ds) = ground arith

strip-digits : (cs : List Char) → All IsNoPoint cs → strip (text cs) ≡ text (trim cs)
strip-digits [] h = refl
strip-digits (c ∷ cs) (no_point, h) =
    rw (no_point, strip-digits cs h, all_zeros-trim cs)
      (ap (λ b. if b then empty else cons c (text (trim cs)))
          (or_false (is_zero_digit c && is_nil (trim cs)))
        ∙ strip-one c (trim cs))
  where
    or_false : (b : Bool) → (b || false) ≡ b
    or_false true = refl
    or_false false = refl

units_nil : (n : ℕ) → units n [] ≡ 0
units_nil zero = refl
units_nil (suc n) = refl

units-trim_one :
    (n : ℕ) (c : Char) (ds : List Char)
    → units (suc n) (trim_one c ds) ≡ (code c - b'0') * 10 ^ n + units n ds
units-trim_one n c (d ∷ ds) = refl
units-trim_one n c [] = elim (Bool-cases (is_zero_digit c)) [
  | inl b ↦ rw (b, (==_iff (code c) b'0').0 b, units_nil n) (omega arith)
  | inr b ↦ rw b refl
]

units-trim : (n : ℕ) (cs : List Char) → units n (trim cs) ≡ units n cs
units-trim zero cs = refl
units-trim (suc n) [] = refl
units-trim (suc n) (c ∷ cs) =
    units-trim_one n c (trim cs) ∙ ap (λ u. (code c - b'0') * 10 ^ n + u) (units-trim n cs)

trim-ends : (cs : List Char) → ends_in_zero (trim cs) ≡ false
trim-ends [] = refl
trim-ends (c ∷ cs) = one c (trim cs) (trim-ends cs)
  where
    one :
        (c : Char) (ds : List Char) → ends_in_zero ds ≡ false → ends_in_zero (trim_one c ds) ≡ false
    one c [] h = ground arith
    one c (d ∷ ds) h = h

module _ (point : Char) (is : is_point point ≡ true) where
  point_not_zero : is_zero_digit point ≡ false
  point_not_zero = ground (arith, is)

  strip-fraction :
      (c : Char) (cs : List Char)
      → All IsNoPoint (c ∷ cs)
      → strip (text (point ∷ c ∷ cs)) ≡ text (fraction point (trim (c ∷ cs)))
  strip-fraction c cs h =
      rw (is, point_not_zero, strip-digits (c ∷ cs) h, all_zeros-trim cs) (one c (trim cs))
    where
      one :
          (c : Char) (ds : List Char)
          → (if is_zero_digit c && is_nil ds then empty else cons point (text (trim_one c ds)))
            ≡ text (fraction point (trim_one c ds))
      one c [] = ground arith
      one c (d ∷ ds) = ground arith

  zeros_stop : (whole rest : List Char) → all_zeros (text (whole ++ point ∷ rest)) ≡ false
  zeros_stop [] rest = rw point_not_zero refl
  zeros_stop (c ∷ cs) rest = rw (zeros_stop cs rest) (and_false (is_zero_digit c))
    where
      and_false : (b : Bool) → (b && false) ≡ false
      and_false true = refl
      and_false false = refl

  strip-fixed :
      (whole : List Char) (c : Char) (cs : List Char)
      → All IsNoPoint whole
      → All IsNoPoint (c ∷ cs)
      → strip (text (whole ++ point ∷ c ∷ cs)) ≡ text (whole ++ fraction point (trim (c ∷ cs)))
  strip-fixed [] c cs hw h = strip-fraction c cs h
  strip-fixed (d ∷ ds) c cs (no_point, hw) h =
      rw (no_point, zeros_stop ds (c ∷ cs), strip-fixed ds c cs hw h) (ground arith)

  -- A number that is written with a point and at least one digit after it is cut to the same whole
  -- part and the same digits after the point without the zeros at their end, or to the whole part
  -- alone if there are none left: its value is the same, and no zero after the point is left
  -- at the end.
  pub strip_trims :
      (whole : List Char) (c : Char) (cs : List Char) (n : ℕ)
      → All IsNoPoint whole
      → All IsNoPoint (c ∷ cs)
      → (strip (text (whole ++ point ∷ c ∷ cs)) ≡ text (whole ++ fraction point (trim (c ∷ cs))))
        × (units n (trim (c ∷ cs)) ≡ units n (c ∷ cs))
        × (ends_in_zero (trim (c ∷ cs)) ≡ false)
  strip_trims whole c cs n hw h =
      (strip-fixed whole c cs hw h, units-trim n (c ∷ cs), trim-ends (c ∷ cs))
