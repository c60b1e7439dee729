-- ===== src/Platform.antt =====
-- What the backend calls and does not implement: decimal.js (`Prisma.Decimal`), node's crypto and
-- the text of a uuid. A `Prisma.Decimal` is the integer of its units of 10^-18, the scale of every
-- `Decimal(38, 18)` column; comparisons and `negated` are exact, the other operations are taken
-- from the record below.
use hau_cex.Common.{ℕ, ◌*◌, ◌^◌, ◌<◌, ◌≡◌, String, ℤ, pos_part, neg_part, ◌+ℤ◌, ◌-ℤ◌}

-- The magnitude of an amount in units.
abbrev pub magnitude : ℤ → ℕ
magnitude z = Prim.Native.Nat.max (pos_part z) (neg_part z)

-- decimal.js keeps 20 significant digits by default.
abbrev pub FitsPrecision : ℤ → Type 0
FitsPrecision z =
    (digits : ℕ) × (scale : ℕ) × (digits < 10 ^ 20) × (magnitude z ≡ digits * 10 ^ scale)

-- `plus`, `minus`, `mul` and `mod` of decimal.js, `toFixed(18)`, sha256 in hex, the text of a uuid,
-- and `toUpperCase`. The first two are exact as long as the exact result fits the precision.
pub record Platform : Type 0 where
  pub plus : ℤ → ℤ → ℤ
  pub minus : ℤ → ℤ → ℤ
  pub mul : ℤ → ℤ → ℤ
  pub modulo : ℤ → ℤ → ℤ
  pub to_fixed18 : ℤ → String
  pub sha256 : String → String
  pub uuid_text : ℕ → String
  pub to_upper_case : String → String
  pub plus_exact : (a b : ℤ) → FitsPrecision (a +ℤ b) → plus a b ≡ a +ℤ b
  pub minus_exact : (a b : ℤ) → FitsPrecision (a -ℤ b) → minus a b ≡ a -ℤ b
