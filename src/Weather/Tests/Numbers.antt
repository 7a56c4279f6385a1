-- ===== src/Weather/Tests/Numbers.antt =====
-- Whole numbers with two infinities satisfy what section2/q2_grpc relies on of floats.
use mathlib.Core.Option
use dist_compute.Base.{ℕ, ◌≡◌, refl, Bool, true, false, not, arith}
use dist_compute.Base.Int.{ℤ, pos, negsuc, pos_part, floor_div, ltb_ℤ, beq_ℤ, ◌+ℤ◌, neg_ℤ}
use dist_compute.Base.Order.{IsOrder}
use dist_compute.Base.Text.{Text, codes, decimal}
use dist_compute.Base.Text.Parse.{int_of_text}
use dist_compute.Weather.Floats.{Floats, FloatLaws}

pub data Number : Type 0 where
  below above : Number
  whole : ℤ → Number

abbrev sum : Number → Number → Number
sum (whole a) (whole b) = whole (a +ℤ b)
sum below b = below
sum above b = above
sum a b = b

abbrev negative : Number → Number
negative below = above
negative above = below
negative (whole a) = whole (neg_ℤ a)

abbrev less : Number → Number → Bool
less (whole a) (whole b) = ltb_ℤ a b
less below below = false
less below b = true
less a below = false
less above b = false
less a above = true

abbrev same : Number → Number → Bool
same (whole a) (whole b) = beq_ℤ a b
same below below = true
same above above = true
same _ _ = false

abbrev size : Number → Number
size (whole (negsuc n)) = negative (whole (negsuc n))
size below = above
size a = a

abbrev shown : Number → Text
shown (whole (pos n)) = decimal n
shown (whole (negsuc n)) = codes "-"
shown a = codes "inf"

abbrev divided : Number → ℕ → Number
divided (whole a) n = whole (floor_div a n)
divided a n = a

abbrev part : Number → ℕ
part (whole a) = pos_part a
part a = 0

abbrev pub numbers : Floats
numbers = record {
  Float = Number;
  zero_float = whole (pos 0);
  one_float = whole (pos 1);
  forty = whole (pos 40);
  inf = above;
  neg_inf = below;
  add = sum;
  sub = λ a b. sum a (negative b);
  abs = size;
  div = divided;
  quotient = λ n a. divided (whole (pos n)) (part a);
  lt = less;
  le = λ a b. not (less b a);
  eq = same;
  of_text = λ t. Option.map whole (int_of_text t);
  fixed2 = shown;
}

numbers-IsOrder : IsOrder less same
numbers-IsOrder = record {
  eq_iff = λ a b. ground arith;
  irrefl = λ a. ground arith;
  trans = λ a b c h k. ground arith;
  total = λ a b h k. ground arith;
}

above-last : (a : Number) → less above a ≡ false
above-last below = refl
above-last above = refl
above-last (whole a) = refl

below-first : (a : Number) → less a below ≡ false
below-first below = refl
below-first above = refl
below-first (whole a) = refl

sum-zero : (a : Number) → sum a (whole (pos 0)) ≡ a
unfolding ◌+ℤ◌
sum-zero below = refl
sum-zero above = refl
sum-zero (whole a) = ground arith

pub numbers_laws : FloatLaws numbers
numbers_laws = record {
  order = numbers-IsOrder;
  le_lt = λ a b. refl;
  inf_last = above-last;
  neg_inf_first = below-first;
  add_zero_float = sum-zero;
}
