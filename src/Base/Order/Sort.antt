-- ===== src/Base/Order/Sort.antt =====
-- `sorted` by a test, and the positions in what it gives.
use Prim.Native.Nat.{ℕ, zero, suc, ◌≤◌}
use mathlib.Core.Path.{◌≡◌, refl}
use mathlib.Core.Logic.{inl, inr}
use mathlib.Core.Bool.{Bool, false}
use mathlib.Core.Option.{some}
use mathlib.Core.List.{List, [], ◌∷◌, Permᴰ}
use native.Mathlib.Omega.{arith}
use dist_compute.Base.Lists.{length, get_elem?, All}
use dist_compute.Base.Tests.{if◌then◌else◌, Bool-cases}
use dist_compute.Base.Order.{IsOrder}
use dist_compute.Base.Perm.{perm_refl}

-- the sort is stable: an element goes in front of those that are not less than it
unfoldable pub insert_by {ℓ} : {A : Type ℓ} → (A → A → Bool) → A → List A → List A
insert_by lt x [] = x ∷ []
insert_by lt x (y ∷ ys) = if lt y x then y ∷ insert_by lt x ys else x ∷ y ∷ ys

unfoldable pub sort_by {ℓ} : {A : Type ℓ} → (A → A → Bool) → List A → List A
unfolding insert_by
sort_by lt [] = []
sort_by lt (x ∷ xs) = insert_by lt x (sort_by lt xs)

-- no element is less than one before it
abbrev pub Ascending {ℓ} : {A : Type ℓ} → (A → A → Bool) → List A → Type 0
Ascending lt [] = Unit
Ascending lt (x ∷ xs) = All (λ y. lt y x ≡ false) xs × Ascending lt xs

module _ {ℓ} {A : Type ℓ} (lt eq : A → A → Bool) (o : IsOrder lt eq) where
  insert_by-perm : (x : A) (xs : List A) → Permᴰ (x ∷ xs) (insert_by lt x xs)
  unfolding insert_by
  insert_by-perm x [] = perm_refl (x ∷ [])
  insert_by-perm x (y ∷ ys) = elim (Bool-cases (lt y x)) [
    | inl less ↦
        rw less (Permᴰ.trans (Permᴰ.swap refl refl) (Permᴰ.cons refl (insert_by-perm x ys)))
    | inr more ↦ rw more (perm_refl (x ∷ y ∷ ys))
  ]

  pub sort_by-perm : (xs : List A) → Permᴰ xs (sort_by lt xs)
  unfolding sort_by
  sort_by-perm [] = Permᴰ.nil
  sort_by-perm (x ∷ xs) =
      Permᴰ.trans (Permᴰ.cons refl (sort_by-perm xs)) (insert_by-perm x (sort_by lt xs))

  All-insert_by :
      (P : A → Type 0) (x : A) (xs : List A) → P x → All P xs → All P (insert_by lt x xs)
  unfolding insert_by
  All-insert_by P x [] p h = (p, tt)
  All-insert_by P x (y ∷ ys) p h = elim (Bool-cases (lt y x)) [
    | inl less ↦ rw less (h.0, All-insert_by P x ys p h.1)
    | inr more ↦ rw more (p, h)
  ]

  after_least :
      (x y : A) (ys : List A)
      → lt y x ≡ false
      → All (λ z. lt z y ≡ false) ys
      → All (λ z. lt z x ≡ false) ys
  after_least x y [] h a = tt
  after_least x y (z ∷ ys) h a =
      (ground (arith, a.0, o.trans z x y, o.total x y), after_least x y ys h a.1)

  insert_by-Ascending : (x : A) (xs : List A) → Ascending lt xs → Ascending lt (insert_by lt x xs)
  unfolding insert_by
  insert_by-Ascending x [] h = (tt, tt)
  insert_by-Ascending x (y ∷ ys) h = elim (Bool-cases (lt y x)) [
    | inl less ↦ rw less (
      All-insert_by (λ z. lt z y ≡ false) x ys (ground (arith, o.trans x y x, o.irrefl x)) h.0,
      insert_by-Ascending x ys h.1,
    )
    | inr more ↦ rw more ((more, after_least x y ys more h.0), h)
  ]

  pub sort_by-Ascending : (xs : List A) → Ascending lt (sort_by lt xs)
  unfolding sort_by
  sort_by-Ascending [] = tt
  sort_by-Ascending (x ∷ xs) = insert_by-Ascending x (sort_by lt xs) (sort_by-Ascending xs)

  get_elem?-All :
      (P : A → Type 0) (xs : List A) (i : ℕ) (a : A) → All P xs → get_elem? xs i ≡ some a → P a
  get_elem?-All P [] i a h e = absurd (ground (arith, e))
  get_elem?-All P (x ∷ xs) zero a h e = let same : x ≡ a = ground (arith, e) in rw (← same) h.0
  get_elem?-All P (x ∷ xs) (suc i) a h e = get_elem?-All P xs i a h.1 e

  pub Ascending-at :
      (xs : List A) (i j : ℕ) (a b : A)
      → Ascending lt xs
      → i ≤ j
      → get_elem? xs i ≡ some a
      → get_elem? xs j ≡ some b
      → lt b a ≡ false
  Ascending-at [] i j a b h le e g = absurd (ground (arith, e))
  Ascending-at (x ∷ xs) zero zero a b h le e g =
      let first : x ≡ a = ground (arith, e) in
      let second : x ≡ b = ground (arith, g) in rw (← first, ← second) (o.irrefl x)
  Ascending-at (x ∷ xs) zero (suc j) a b h le e g =
      let first : x ≡ a = ground (arith, e) in
      rw (← first) (get_elem?-All (λ y. lt y x ≡ false) xs j b h.0 g)
  Ascending-at (x ∷ xs) (suc i) zero a b h le e g = absurd (omega arith)
  Ascending-at (x ∷ xs) (suc i) (suc j) a b h le e g = Ascending-at xs i j a b h.1 (omega arith) e g

  -- nothing is greater than the last element
  pub Ascending-last :
      (xs : List A) (n : ℕ) (b : A)
      → Ascending lt xs
      → length xs ≡ suc n
      → get_elem? xs n ≡ some b
      → All (λ a. lt b a ≡ false) xs
  Ascending-last [] n b h l e = tt
  Ascending-last (x ∷ xs) zero b h l e =
      let same : x ≡ b = ground (arith, e) in
      elim xs as (λ xs. length (x ∷ xs) ≡ 1 → All (λ a. lt b a ≡ false) (x ∷ xs)) [
        | [] ↦ λ l. (rw (← same) (o.irrefl x), tt)
        | y ∷ ys ↦ λ l. absurd (omega arith)
      ]
        l
  Ascending-last (x ∷ xs) (suc n) b h l e =
      (get_elem?-All (λ z. lt z x ≡ false) xs n b h.0 e, Ascending-last xs n b h.1 (omega arith) e)
