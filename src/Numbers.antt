-- ===== src/Numbers.antt =====
-- The numbers that the control plane computes with and does not implement: the decimals of
-- github.com/shopspring/decimal and the `float64` of a confidence. Both are parameters of the
-- model. `Numbers` has the operations that the source calls, `Laws` what it relies on.
pub mod Laws
pub mod Whole
use alpha_mint_x.Base.{ℕ, String, Ordering, Bool, true, false, Option}

pub record Numbers : Type 1 where
  pub Amount : Type 0
  pub zero_amount : Amount
  -- `NewFromInt` of a number that is not negative.
  pub of_int : ℕ → Amount
  pub add : Amount → Amount → Amount
  pub sub : Amount → Amount → Amount
  pub mul : Amount → Amount → Amount
  pub div : Amount → Amount → Amount
  pub neg : Amount → Amount
  pub abs : Amount → Amount
  -- `Cmp`, to which `LessThan`, `GreaterThan` and their kin reduce.
  pub cmp : Amount → Amount → Ordering
  -- `Round(places)`.
  pub round : ℕ → Amount → Amount
  -- `Shift(-places)`.
  pub shift_down : ℕ → Amount → Amount
  pub floor : Amount → Amount
  pub ceil : Amount → Amount
  -- `New(1, -places)`.
  pub last_place : ℕ → Amount
  -- `NewFromString`, `none` where it returns an error, and `String`.
  pub of_text : String → Option Amount
  pub text : Amount → String
  pub Score : Type 0
  pub less : Score → Score → Bool
  pub score_zero : Score
  pub score_one : Score
  -- The literal 0.3 of riskgate.LowConfidenceThreshold.
  pub low_confidence : Score
  -- `InexactFloat64`.
  pub inexact : Amount → Score

-- What a comparison says, as a test.
abbrev pub is_lt : Ordering → Bool
is_lt Ordering.lt = true
is_lt _ = false

abbrev pub is_gt : Ordering → Bool
is_gt Ordering.gt = true
is_gt _ = false

abbrev pub is_eq : Ordering → Bool
is_eq Ordering.eq = true
is_eq _ = false

abbrev pub is_le : Ordering → Bool
is_le Ordering.gt = false
is_le _ = true

abbrev pub is_ge : Ordering → Bool
is_ge Ordering.lt = false
is_ge _ = true

module _ (n : Numbers) where
  open n use {Amount, zero_amount, cmp}

  -- `LessThan`, `GreaterThan` and their kin.
  abbrev pub less_than : Amount → Amount → Bool
  less_than a b = is_lt (cmp a b)

  abbrev pub greater_than : Amount → Amount → Bool
  greater_than a b = is_gt (cmp a b)

  abbrev pub less_than_or_equal : Amount → Amount → Bool
  less_than_or_equal a b = is_le (cmp a b)

  abbrev pub greater_than_or_equal : Amount → Amount → Bool
  greater_than_or_equal a b = is_ge (cmp a b)

  -- `Sign`, as the comparison with zero, and `IsZero`.
  abbrev pub sign : Amount → Ordering
  sign a = cmp a zero_amount

  abbrev pub is_zero : Amount → Bool
  is_zero a = is_eq (cmp a zero_amount)
