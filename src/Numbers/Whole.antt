-- ===== src/Numbers/Whole.antt =====
-- Whole numbers as the amounts, and as the scores: an instance of the parameter at which the laws
-- hold and the model can be run. Only two texts stand for a number.
use alpha_mint_x.Base.{
  ℕ, ◌+◌, ◌*◌, ◌/◌, ◌<◌, ◌≡◌, refl, String, Option, none, some, ◌=ₛ◌, if◌then◌else◌, Ordering,
  compare, ltb, arith,
}
use alpha_mint_x.Base.Int.{ℤ, pos, negsuc, pos_part, neg_part, sub_ℕ, ◌+ℤ◌, ◌-ℤ◌}
use native.Mathlib.Nat.{mul-div_cancel}
use alpha_mint_x.Numbers.{Numbers}
use alpha_mint_x.Numbers.Laws.{Laws}

abbrev cmp_ℤ : ℤ → ℤ → Ordering
cmp_ℤ a b = compare (pos_part a + neg_part b) (pos_part b + neg_part a)

abbrev neg_ℤ : ℤ → ℤ
neg_ℤ a = sub_ℕ (neg_part a) (pos_part a)

abbrev abs_ℤ : ℤ → ℤ
abs_ℤ a = pos (pos_part a + neg_part a)

abbrev mul_ℤ : ℤ → ℤ → ℤ
mul_ℤ a b =
    sub_ℕ (pos_part a * pos_part b + neg_part a * neg_part b)
      (pos_part a * neg_part b + neg_part a * pos_part b)

-- Division toward zero.
abbrev div_ℤ : ℤ → ℤ → ℤ
div_ℤ a (pos k) = sub_ℕ (pos_part a / k) (neg_part a / k)
div_ℤ a (negsuc k) = sub_ℕ (neg_part a / (k + 1)) (pos_part a / (k + 1))

abbrev read_digit : String → Option ℤ
read_digit s = if s =ₛ "0" then some (pos 0) else if s =ₛ "1" then some (pos 1) else none

abbrev pub whole : Numbers
whole = record {
  Amount = ℤ;
  zero_amount = pos 0;
  of_int = pos;
  add = ◌+ℤ◌;
  sub = ◌-ℤ◌;
  mul = mul_ℤ;
  div = div_ℤ;
  neg = neg_ℤ;
  abs = abs_ℤ;
  cmp = cmp_ℤ;
  round = λ places a. a;
  shift_down = λ places a. pos 0;
  floor = λ a. a;
  ceil = λ a. a;
  last_place = λ places. pos 1;
  of_text = read_digit;
  text = λ a. "";
  Score = ℕ;
  less = ltb;
  score_zero = 0;
  score_one = 100;
  low_confidence = 30;
  inexact = pos_part;
}

mul_one_ℤ : (a : ℤ) → mul_ℤ a (pos 1) ≡ a
mul_one_ℤ (pos a) = ground arith
mul_one_ℤ (negsuc a) = ground arith

one_mul_ℤ : (a : ℤ) → mul_ℤ (pos 1) a ≡ a
one_mul_ℤ (pos a) = ground arith
one_mul_ℤ (negsuc a) = ground arith

mul_parts :
    (a : ℤ) (b : ℕ)
    → (pos_part (mul_ℤ a (pos b)) ≡ pos_part a * b) × (neg_part (mul_ℤ a (pos b)) ≡ neg_part a * b)
mul_parts (pos a) b = ground arith
mul_parts (negsuc a) b = ground arith

parts_self : (a : ℤ) → sub_ℕ (pos_part a) (neg_part a) ≡ a
parts_self (pos a) = ground arith
parts_self (negsuc a) = ground arith

div-mul_ℤ : (a b : ℤ) → cmp_ℤ b (pos 0) ≡ Ordering.gt → div_ℤ (mul_ℤ a b) b ≡ a
div-mul_ℤ a (pos b) h =
    let positive : 0 < b = ground arith in
    let (p, q) = mul_parts a b in
    rw (p, q, mul-div_cancel (pos_part a) positive, mul-div_cancel (neg_part a) positive)
      (parts_self a)
div-mul_ℤ a (negsuc b) h = ground arith

pub whole-Laws : Laws whole
unfolding ◌+ℤ◌ ◌-ℤ◌
whole-Laws = record {
  add_comm = λ a b. ground arith;
  add_assoc = λ a b c. ground arith;
  add_zero = λ a. ground arith;
  add_neg = λ a. ground arith;
  sub_add_neg = λ a b. ground arith;
  zero_mul = λ a. ground arith;
  mul_one = mul_one_ℤ;
  one_mul = one_mul_ℤ;
  neg_one_mul = λ a. ground arith;
  cmp_refl = λ a. ground arith;
  eq_of_cmp = λ a b h. ground arith;
  cmp_flip = λ a b. ground arith;
  cmp_add_right = λ a b c. ground arith;
  gt_trans = λ a b c h k. ground arith;
  one_pos = refl;
  abs_of_pos = λ a h. ground arith;
  abs_of_neg = λ a h. ground arith;
  abs_zero = refl;
  div_mul = div-mul_ℤ;
}
