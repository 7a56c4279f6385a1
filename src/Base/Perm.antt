-- ===== src/Base/Perm.antt =====
-- Rearrangements of lists, as derivations that can be matched.
use Prim.Native.Nat.{suc}
use mathlib.Core.Path.{◌≡◌, refl, ap, sym, ◌∙◌, subst}
use mathlib.Core.List.{List, [], ◌∷◌, ◌++◌, foldl, append-nil, append_assoc, Permᴰ}
use dist_compute.Base.Lists.{length, All}

module _ {ℓ} {A : Type ℓ} where
  pub perm_refl : (xs : List A) → Permᴰ xs xs
  perm_refl [] = Permᴰ.nil
  perm_refl (x ∷ xs) = Permᴰ.cons refl (perm_refl xs)

  pub perm_of_eq : {xs ys : List A} → xs ≡ ys → Permᴰ xs ys
  perm_of_eq {xs} e = subst (Permᴰ xs) e (perm_refl xs)

  pub perm_symm : {xs ys : List A} → Permᴰ xs ys → Permᴰ ys xs
  perm_symm Permᴰ.nil = Permᴰ.nil
  perm_symm (Permᴰ.cons p r) = Permᴰ.cons (sym p) (perm_symm r)
  perm_symm (Permᴰ.swap p q) = Permᴰ.swap (sym q) (sym p)
  perm_symm (Permᴰ.trans r s) = Permᴰ.trans (perm_symm s) (perm_symm r)

  pub perm_append_left : (xs : List A) {ys zs : List A} → Permᴰ ys zs → Permᴰ (xs ++ ys) (xs ++ zs)
  perm_append_left [] p = p
  perm_append_left (x ∷ xs) p = Permᴰ.cons refl (perm_append_left xs p)

  pub perm_append_right : (zs : List A) {xs ys : List A} → Permᴰ xs ys → Permᴰ (xs ++ zs) (ys ++ zs)
  perm_append_right zs Permᴰ.nil = perm_refl zs
  perm_append_right zs (Permᴰ.cons e p) = Permᴰ.cons e (perm_append_right zs p)
  perm_append_right zs (Permᴰ.swap e g) = Permᴰ.swap e g
  perm_append_right zs (Permᴰ.trans p q) =
      Permᴰ.trans (perm_append_right zs p) (perm_append_right zs q)

  -- an element may move past a list
  pub perm_move : (x : A) (xs ys : List A) → Permᴰ (x ∷ (xs ++ ys)) (xs ++ x ∷ ys)
  perm_move x [] ys = perm_refl (x ∷ ys)
  perm_move x (y ∷ xs) ys = Permᴰ.trans (Permᴰ.swap refl refl) (Permᴰ.cons refl (perm_move x xs ys))

  -- a loop that puts each element in front rearranges its list
  pub foldl_cons-perm : (rs xs : List A) → Permᴰ (foldl (λ t x. x ∷ t) rs xs) (rs ++ xs)
  foldl_cons-perm rs [] = perm_of_eq (sym (append-nil rs))
  foldl_cons-perm rs (x ∷ xs) = Permᴰ.trans (foldl_cons-perm (x ∷ rs) xs) (perm_move x rs xs)

  pub length-perm : {xs ys : List A} → Permᴰ xs ys → length xs ≡ length ys
  length-perm Permᴰ.nil = refl
  length-perm (Permᴰ.cons e p) = ap suc (length-perm p)
  length-perm (Permᴰ.swap e g) = refl
  length-perm (Permᴰ.trans p q) = length-perm p ∙ length-perm q

module _ {ℓ} {A : Type ℓ} where
  pub perm_append_comm : (xs ys : List A) → Permᴰ (xs ++ ys) (ys ++ xs)
  perm_append_comm [] ys = perm_of_eq (sym (append-nil ys))
  perm_append_comm (x ∷ xs) ys =
      Permᴰ.trans (Permᴰ.cons refl (perm_append_comm xs ys)) (perm_move x ys xs)

  pub perm_swap_end : (xs ys zs : List A) → Permᴰ ((xs ++ ys) ++ zs) ((xs ++ zs) ++ ys)
  perm_swap_end xs ys zs =
      rw (append_assoc xs ys zs, append_assoc xs zs ys)
        (perm_append_left xs (perm_append_comm ys zs))

pub All-perm {ℓ κ} :
    {A : Type ℓ} (P : A → Type κ) {xs ys : List A} → Permᴰ xs ys → All P xs → All P ys
All-perm P Permᴰ.nil h = h
All-perm P (Permᴰ.cons e p) h = (subst P e h.0, All-perm P p h.1)
All-perm P (Permᴰ.swap e g) h = (subst P g h.1.0, (subst P e h.0, h.1.1))
All-perm P (Permᴰ.trans p q) h = All-perm P q (All-perm P p h)
