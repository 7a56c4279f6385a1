-- ===== src/Base/Fold.antt =====
-- Folds whose steps commute do not depend on the order of the list.
use mathlib.Core.Path.{◌≡◌, refl, ap, ◌∙◌}
use mathlib.Core.Bool.{Bool}
use Prim.Native.Nat.{ℕ, ◌+◌}
use native.Mathlib.Omega.{arith}
use dist_compute.Base.Tests.{if◌then◌else◌}
use mathlib.Core.List.{List, [], ◌∷◌, ◌++◌, foldl, foldr, Permᴰ}

module _ {ℓ κ} {A : Type ℓ} {B : Type κ} (f : A → B → B) where
  pub foldr-append : (e : B) (xs ys : List A) → foldr f e (xs ++ ys) ≡ foldr f (foldr f e ys) xs
  foldr-append e [] ys = refl
  foldr-append e (x ∷ xs) ys = ap (f x) (foldr-append e xs ys)

  module _ (comm : (x y : A) (b : B) → f x (f y b) ≡ f y (f x b)) where
    pub foldr-perm : (e : B) {xs ys : List A} → Permᴰ xs ys → foldr f e xs ≡ foldr f e ys
    foldr-perm e Permᴰ.nil = refl
    foldr-perm e (Permᴰ.cons {b = b} p r) = rw p (ap (f b) (foldr-perm e r))
    foldr-perm e (Permᴰ.swap {a = a} {b = b} {l = l} p q) = rw (← p, ← q) (comm a b (foldr f e l))
    foldr-perm e (Permᴰ.trans r s) = foldr-perm e r ∙ foldr-perm e s

    foldr-step : (x : A) (e : B) (xs : List A) → foldr f (f x e) xs ≡ f x (foldr f e xs)
    foldr-step x e [] = refl
    foldr-step x e (y ∷ xs) = ap (f y) (foldr-step x e xs) ∙ comm y x (foldr f e xs)

    -- the loop of a program, which folds from the left
    pub foldl-eq-foldr : (e : B) (xs : List A) → foldl (λ b x. f x b) e xs ≡ foldr f e xs
    foldl-eq-foldr e [] = refl
    foldl-eq-foldr e (x ∷ xs) = foldl-eq-foldr (f x e) xs ∙ foldr-step x e xs

-- how many elements pass a test
abbrev pub tally {ℓ} : {A : Type ℓ} → (A → Bool) → List A → ℕ
tally test = foldr (λ x n. n + (if test x then 1 else 0)) 0

module _ {ℓ} {A : Type ℓ} (test : A → Bool) where
  pub tally-append : (xs ys : List A) → tally test (xs ++ ys) ≡ tally test xs + tally test ys
  tally-append [] ys = omega arith
  tally-append (x ∷ xs) ys = omega (arith, tally-append xs ys)

  pub tally-perm : {xs ys : List A} → Permᴰ xs ys → tally test xs ≡ tally test ys
  tally-perm p = foldr-perm (λ x n. n + (if test x then 1 else 0)) (λ x y n. omega arith) 0 p
