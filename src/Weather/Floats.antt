-- ===== src/Weather/Floats.antt =====
-- Python's `float` as section2/q2_grpc uses it: a parameter, with the operations that the code calls.
-- A value stands for a float that is not NaN, the two zeros being one value.
use dist_compute.Base.{ℕ, ◌≡◌, ◌≤◌, Bool, false, not, Option, List}
use dist_compute.Base.Order.{IsOrder}
use dist_compute.Base.Text.{Text}

pub record Floats : Type 1 where
  pub Float : Type 0
  -- 0.0, 1.0, 40.0 and the infinities
  pub zero_float : Float
  pub one_float : Float
  pub forty : Float
  pub inf : Float
  pub neg_inf : Float
  pub add : Float → Float → Float
  pub sub : Float → Float → Float
  pub abs : Float → Float
  -- a float by a whole number
  pub div : Float → ℕ → Float
  -- a whole number by a float
  pub quotient : ℕ → Float → Float
  pub lt : Float → Float → Bool
  pub le : Float → Float → Bool
  pub eq : Float → Float → Bool
  -- `float(text)`, `none` for the ValueError
  pub of_text : Text → Option Float
  -- `f"{x:.2f}"`
  pub fixed2 : Float → Text

-- What IEEE 754 says of the comparisons of such values, and of adding 0.0.
pub record FloatLaws (f : Floats) : Type 0 where
  pub order : IsOrder f.lt f.eq
  pub le_lt : (a b : f.Float) → f.le a b ≡ not (f.lt b a)
  pub inf_last : (a : f.Float) → f.lt f.inf a ≡ false
  pub neg_inf_first : (a : f.Float) → f.lt a f.neg_inf ≡ false
  pub add_zero_float : (a : f.Float) → f.add a f.zero_float ≡ a

-- What the programs that print measurements of time use beside: `f"{x:spec}"`, the mean of a list,
-- `x * 1e3`, `int(p * n)`, and the constants 0.5, 0.95, 0.99 and 1e-9.
pub record Measures (F : Type 0) : Type 0 where
  pub format : Text → F → Text
  pub mean : List F → F
  pub milli : F → F
  pub portion : F → ℕ → ℕ
  pub half : F
  pub p95 : F
  pub p99 : F
  pub nano : F

-- Rounding keeps the order: `x * 1e3` and `int(p * n)` never fall where x and p do not.
pub record MeasuresLaws (f : Floats) (m : Measures f.Float) : Type 0 where
  pub milli_le : (a b : f.Float) → f.lt b a ≡ false → f.lt (m.milli b) (m.milli a) ≡ false
  pub portion_le : (p q : f.Float) (n : ℕ) → f.lt q p ≡ false → m.portion p n ≤ m.portion q n
  pub half_p95 : f.lt m.p95 m.half ≡ false
  pub p95_p99 : f.lt m.p99 m.p95 ≡ false
