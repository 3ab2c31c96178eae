-- ===== src/Numbers/Laws.antt =====
-- What the control plane relies on of github.com/shopspring/decimal: its decimals are exact, up to
-- trailing zeros they are an ordered commutative group under `Add`, and `Abs` and the product with a
-- sign are what they are called. `Div` and `Round` are exact where the quotient has few places. Two
-- amounts are equal in the model if they have the same value.
use alpha_mint_x.Base.{◌≡◌, sym, ◌∙◌, ap, Ordering}
use alpha_mint_x.Numbers.{Numbers}

abbrev pub flip : Ordering → Ordering
flip Ordering.lt = Ordering.gt
flip Ordering.eq = Ordering.eq
flip Ordering.gt = Ordering.lt

pub record Laws (n : Numbers) : Type 0 where
  pub add_comm : (a b : n.Amount) → n.add a b ≡ n.add b a
  pub add_assoc : (a b c : n.Amount) → n.add (n.add a b) c ≡ n.add a (n.add b c)
  pub add_zero : (a : n.Amount) → n.add a n.zero_amount ≡ a
  pub add_neg : (a : n.Amount) → n.add a (n.neg a) ≡ n.zero_amount
  pub sub_add_neg : (a b : n.Amount) → n.sub a b ≡ n.add a (n.neg b)
  pub zero_mul : (a : n.Amount) → n.mul n.zero_amount a ≡ n.zero_amount
  pub mul_one : (a : n.Amount) → n.mul a (n.of_int 1) ≡ a
  pub one_mul : (a : n.Amount) → n.mul (n.of_int 1) a ≡ a
  pub neg_one_mul : (a : n.Amount) → n.mul (n.neg (n.of_int 1)) a ≡ n.neg a
  pub cmp_refl : (a : n.Amount) → n.cmp a a ≡ Ordering.eq
  pub eq_of_cmp : (a b : n.Amount) → n.cmp a b ≡ Ordering.eq → a ≡ b
  pub cmp_flip : (a b : n.Amount) → n.cmp b a ≡ flip (n.cmp a b)
  pub cmp_add_right : (a b c : n.Amount) → n.cmp (n.add a c) (n.add b c) ≡ n.cmp a b
  pub gt_trans :
      (a b c : n.Amount)
      → n.cmp a b ≡ Ordering.gt
      → n.cmp b c ≡ Ordering.gt
      → n.cmp a c ≡ Ordering.gt
  pub one_pos : n.cmp (n.of_int 1) n.zero_amount ≡ Ordering.gt
  pub abs_of_pos : (a : n.Amount) → n.cmp a n.zero_amount ≡ Ordering.gt → n.abs a ≡ a
  pub abs_of_neg : (a : n.Amount) → n.cmp a n.zero_amount ≡ Ordering.lt → n.abs a ≡ n.neg a
  pub abs_zero : n.abs n.zero_amount ≡ n.zero_amount
  -- A product of a price that has been rounded to 8 places, divided again, is exact.
  pub div_mul :
      (a b : n.Amount)
      → n.cmp b n.zero_amount ≡ Ordering.gt
      → n.div (n.mul (n.round 8 a) b) b ≡ n.round 8 a

module _ (n : Numbers) (l : Laws n) where
  open n use {Amount, zero_amount, add, sub, neg, cmp}

  pub cmp_sub_zero : (a b : Amount) → cmp (add a (neg b)) zero_amount ≡ cmp a b
  cmp_sub_zero a b = ap (cmp (add a (neg b))) (sym (l.add_neg b)) ∙ l.cmp_add_right a b (neg b)

  pub cmp_sub_self : (a b : Amount) → cmp (add a (neg b)) a ≡ cmp zero_amount b
  cmp_sub_self a b = cc (
    l.add_comm a (neg b),
    l.add_comm zero_amount a,
    l.add_zero a,
    l.cmp_add_right (neg b) zero_amount a,
    l.cmp_add_right zero_amount b (neg b),
    l.add_neg b,
    l.add_comm zero_amount (neg b),
    l.add_zero (neg b),
  )

  -- The same for a sum: `a + b` against zero and against `a`.
  pub cmp_add_self : (a b : Amount) → cmp (add a b) a ≡ cmp b zero_amount
  cmp_add_self a b =
      cc (l.add_comm a b, l.add_comm zero_amount a, l.add_zero a, l.cmp_add_right b zero_amount a)

  pub cmp_add_zero : (a b : Amount) → cmp (add a b) zero_amount ≡ cmp b (neg a)
  cmp_add_zero a b =
      cc (l.add_comm a b, l.add_comm (neg a) a, l.add_neg a, l.cmp_add_right b (neg a) a)
