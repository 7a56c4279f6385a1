-- ===== src/Base/Text/Find/Pieces.antt =====
-- Splitting takes apart what was joined.
use Prim.Native.Nat.{ℕ}
use mathlib.Core.Path.{◌≡◌, refl}
use mathlib.Core.Bool.{true, false}
use mathlib.Core.List.{[], ◌∷◌, ◌++◌}
use native.Mathlib.Omega.{arith}
use dist_compute.Base.Tests.{nat_beq}
use dist_compute.Base.Lists.{All}
use dist_compute.Base.Text.{Text}
use dist_compute.Base.Text.Find.{without_from, split_on, starts_with, occurs}

-- the character `c` is not in the text
abbrev pub Free : ℕ → Text → Type 0
Free c = All (λ x. nat_beq x c ≡ false)

pub split_on-Free : (c : ℕ) (s : Text) → Free c s → split_on c s ≡ s ∷ []
unfolding split_on
split_on-Free c [] h = refl
split_on-Free c (x ∷ s) h = rw (h.0, split_on-Free c s h.1) refl

-- a piece without `c` and a `c` after it
pub split_on-piece : (c : ℕ) (p s : Text) → Free c p → split_on c (p ++ c ∷ s) ≡ p ∷ split_on c s
unfolding split_on
split_on-piece c [] s h = rw same refl
  where
    same : nat_beq c c ≡ true
    same = ground arith
split_on-piece c (x ∷ p) s h = rw (h.0, split_on-piece c p s h.1) refl

-- a text that does not have the first character of `c ∷ t` stays where that is taken out
pub without-Free :
    (c : ℕ) (t p s : Text)
    → Free c p
    → without_from (c ∷ t) 0 (p ++ s) ≡ p ++ without_from (c ∷ t) 0 s
without-Free c t [] s h = refl
without-Free c t (x ∷ p) s h = rw (differs, without-Free c t p s h.1) refl
  where
    differs : nat_beq c x ≡ false
    differs = ground (arith, h.0)

starts_with-append : (t s : Text) → starts_with t (t ++ s) ≡ true
starts_with-append [] s = refl
starts_with-append (c ∷ t) s = ground (arith, starts_with-append t s)

pub occurs-append : (a t s : Text) → occurs t (a ++ t ++ s) ≡ true
unfolding occurs
occurs-append [] [] [] = refl
occurs-append [] [] (x ∷ s) = refl
occurs-append [] (c ∷ t) s = ground (arith, starts_with-append (c ∷ t) s)
occurs-append (x ∷ a) t s = ground (arith, occurs-append a t s)

-- a text that does not have the first character of `c ∷ t` can be skipped in looking for that
pub occurs-Free : (c : ℕ) (t p s : Text) → Free c p → occurs (c ∷ t) (p ++ s) ≡ occurs (c ∷ t) s
unfolding occurs
occurs-Free c t [] s h = refl
occurs-Free c t (x ∷ p) s h = rw differs (occurs-Free c t p s h.1)
  where
    differs : nat_beq c x ≡ false
    differs = ground (arith, h.0)
