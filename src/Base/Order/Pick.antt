-- ===== src/Base/Order/Pick.antt =====
-- The earlier of two elements in a strict total order, and the earliest of a list.
use mathlib.Core.Path.{◌≡◌, ap, ◌∙◌, sym}
use mathlib.Core.Bool.{Bool, false}
use mathlib.Core.List.{List, [], ◌∷◌, foldr, Permᴰ, ◌++◌}
use native.Mathlib.Omega.{arith}
use dist_compute.Base.Fold.{foldr-perm, foldr-append}
use dist_compute.Base.Tests.{if◌then◌else◌}
use dist_compute.Base.Order.{IsOrder}

-- `b if b < a else a`
abbrev pub pick {ℓ} : {A : Type ℓ} → (A → A → Bool) → A → A → A
pick lt a b = if lt b a then b else a

-- the earliest element of the list, and of `e`
abbrev pub earliest {ℓ κ} : {A : Type ℓ} {R : Type κ} → (A → A → Bool) → (R → A) → A → List R → A
earliest lt g e rs = foldr (λ r m. pick lt m (g r)) e rs

module _ {ℓ} {A : Type ℓ} (lt eq : A → A → Bool) (o : IsOrder lt eq) where
  pub pick_comm : (a b : A) → pick lt a b ≡ pick lt b a
  pick_comm a b = ground (arith, o.trans a b a, o.irrefl a, o.total a b)

  pub pick_assoc : (a b c : A) → pick lt (pick lt a b) c ≡ pick lt a (pick lt b c)
  pick_assoc a b c = ground (arith, o.trans c b a, o.trans c a b, o.total a b)

  pub pick_right_comm : (m a b : A) → pick lt (pick lt m a) b ≡ pick lt (pick lt m b) a
  pick_right_comm m a b = pick_assoc m a b ∙ ap (pick lt m) (pick_comm a b) ∙ sym (pick_assoc m b a)

  -- two earliest elements make the earliest of both lists, if nothing is before `e`
  pub earliest-pick {κ} :
      {R : Type κ} (g : R → A) (e m : A) (rs : List R)
      → ((a : A) → lt e a ≡ false)
      → earliest lt g m rs ≡ pick lt m (earliest lt g e rs)
  earliest-pick g e m [] top = rw (top m)
  earliest-pick g e m (r ∷ rs) top =
      ap (λ x. pick lt x (g r)) (earliest-pick g e m rs top)
      ∙ pick_assoc m (earliest lt g e rs) (g r)

  pub earliest-append {κ} :
      {R : Type κ} (g : R → A) (e : A) (rs qs : List R)
      → ((a : A) → lt e a ≡ false)
      → earliest lt g e (rs ++ qs) ≡ pick lt (earliest lt g e rs) (earliest lt g e qs)
  earliest-append g e rs qs top =
      foldr-append (λ r m. pick lt m (g r)) e rs qs
      ∙ earliest-pick g e (earliest lt g e qs) rs top
      ∙ pick_comm (earliest lt g e qs) (earliest lt g e rs)

  pub earliest-perm {κ} :
      {R : Type κ} (g : R → A) (e : A) {rs qs : List R}
      → Permᴰ rs qs
      → earliest lt g e rs ≡ earliest lt g e qs
  earliest-perm g e p =
      foldr-perm (λ r m. pick lt m (g r)) (λ x y m. pick_right_comm m (g y) (g x)) e p
