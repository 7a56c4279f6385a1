-- ===== src/Base/Order.antt =====
-- A strict total order with its tests, as an interface; orders built from others; and the choice of
-- the first of two elements, which is what `min`, `max` and the tie-breaks of a program compute.
pub mod Pick
pub mod Sort
use mathlib.Core.Path.{◌≡◌, refl, ap, ◌∙◌}
use mathlib.Core.Logic.{◌↔◌}
use mathlib.Core.Bool.{Bool, true, false, not, ◌&&◌}
use mathlib.Core.Option.{Option, none, some}
use native.Mathlib.Omega.{arith}
use dist_compute.Base.Tests.{if◌then◌else◌}
use dist_compute.Base.Int.{ltb_ℤ, beq_ℤ, beq_ℤ_iff, ltb_ℤ-irrefl, ltb_ℤ-trans, ltb_ℤ-total}

-- the laws of a test `lt` that is a strict total order, with `eq` for equality
pub record IsOrder {ℓ} {A : Type ℓ} (lt eq : A → A → Bool) : Type ℓ where
  pub eq_iff : (a b : A) → (eq a b ≡ true) ↔ (a ≡ b)
  pub irrefl : (a : A) → lt a a ≡ false
  pub trans : (a b c : A) → lt a b ≡ true → lt b c ≡ true → lt a c ≡ true
  pub total : (a b : A) → lt a b ≡ false → lt b a ≡ false → a ≡ b

pub ℤ-IsOrder : IsOrder ltb_ℤ beq_ℤ
ℤ-IsOrder = record {
  eq_iff = beq_ℤ_iff;
  irrefl = ltb_ℤ-irrefl;
  trans = ltb_ℤ-trans;
  total = ltb_ℤ-total;
}

abbrev pub flip {ℓ} : {A : Type ℓ} → (A → A → Bool) → A → A → Bool
flip lt a b = lt b a

pub flip-IsOrder {ℓ} : {A : Type ℓ} (lt eq : A → A → Bool) → IsOrder lt eq → IsOrder (flip lt) eq
flip-IsOrder lt eq o = record {
  eq_iff = o.eq_iff;
  irrefl = o.irrefl;
  trans = λ a b c h k. o.trans c b a k h;
  total = λ a b h k. o.total a b k h;
}

-- by the first component, and by the second where the first ones are equal
abbrev pub lex {ℓ κ} :
    {A : Type ℓ} {B : Type κ}
    → (A → A → Bool)
    → (A → A → Bool)
    → (B → B → Bool)
    → A × B
    → A × B
    → Bool
lex lt eq lt' (a, b) (a', b') = if not (eq a a') then lt a a' else lt' b b'

abbrev pub both {ℓ κ} :
    {A : Type ℓ} {B : Type κ} → (A → A → Bool) → (B → B → Bool) → A × B → A × B → Bool
both eq eq' (a, b) (a', b') = eq a a' && eq' b b'

module _ {ℓ κ} {A : Type ℓ} {B : Type κ} (lt eq : A → A → Bool) (lt' eq' : B → B → Bool)
    (o : IsOrder lt eq) (o' : IsOrder lt' eq') where
  pub lex-IsOrder : IsOrder (lex lt eq lt') (both eq eq')
  lex-IsOrder = record {
    eq_iff = λ x y. ground (arith, o.eq_iff x.0 y.0, o'.eq_iff x.1 y.1);
    irrefl = λ x. ground (arith, o.irrefl x.0, o'.irrefl x.1);
    trans = λ x y z h k. ground (
      arith,
      o.eq_iff x.0 y.0,
      o.eq_iff y.0 z.0,
      o.eq_iff x.0 z.0,
      o.irrefl x.0,
      o.trans x.0 y.0 z.0,
      o.trans x.0 y.0 x.0,
      o'.trans x.1 y.1 z.1,
    );
    total = λ x y h k.
        ground (arith, o.eq_iff x.0 y.0, o.eq_iff y.0 x.0, o.total x.0 y.0, o'.total x.1 y.1);
  }

-- an absent value comes after every present one
abbrev pub absent_last {ℓ} : {A : Type ℓ} → (A → A → Bool) → Option A → Option A → Bool
absent_last lt none b = false
absent_last lt (some a) none = true
absent_last lt (some a) (some b) = lt a b

abbrev pub option_eq {ℓ} : {A : Type ℓ} → (A → A → Bool) → Option A → Option A → Bool
option_eq eq none none = true
option_eq eq none (some b) = false
option_eq eq (some a) none = false
option_eq eq (some a) (some b) = eq a b

module _ {ℓ} {A : Type ℓ} (lt eq : A → A → Bool) (o : IsOrder lt eq) where
  absent_last-eq_iff : (a b : Option A) → (option_eq eq a b ≡ true) ↔ (a ≡ b)
  absent_last-eq_iff none none = ground arith
  absent_last-eq_iff none (some b) = ground arith
  absent_last-eq_iff (some a) none = ground arith
  absent_last-eq_iff (some a) (some b) = ground (arith, o.eq_iff a b)

  absent_last_irrefl : (a : Option A) → absent_last lt a a ≡ false
  absent_last_irrefl none = refl
  absent_last_irrefl (some a) = o.irrefl a

  absent_last_trans :
      (a b c : Option A)
      → absent_last lt a b ≡ true
      → absent_last lt b c ≡ true
      → absent_last lt a c ≡ true
  absent_last_trans none b c h k = h
  absent_last_trans (some a) none c h k = ground arith
  absent_last_trans (some a) (some b) none h k = refl
  absent_last_trans (some a) (some b) (some c) h k = o.trans a b c h k

  absent_last_total :
      (a b : Option A) → absent_last lt a b ≡ false → absent_last lt b a ≡ false → a ≡ b
  absent_last_total none none h k = refl
  absent_last_total none (some b) h k = ground arith
  absent_last_total (some a) none h k = ground arith
  absent_last_total (some a) (some b) h k = ap some (o.total a b h k)

  pub absent_last-IsOrder : IsOrder (absent_last lt) (option_eq eq)
  absent_last-IsOrder = record {
    eq_iff = absent_last-eq_iff;
    irrefl = absent_last_irrefl;
    trans = absent_last_trans;
    total = absent_last_total;
  }
