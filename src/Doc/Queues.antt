-- ===== src/Doc/Queues.antt =====
-- The queues of section3/problem1/server.py: what a broadcast and a removal do to them.
use mathlib.Core.List.{append-nil, append_assoc}
use native.Mathlib.Nat.{zero-add}
use native.Mathlib.Numerals.{one-add}
use dist_compute.Base.{
  ℕ, ◌+◌, ◌≤◌, ◌<◌, ◌≡◌, ◌≢◌, refl, ◌∙◌, Bool, true, false, List, [], ◌∷◌, ◌++◌, arith, nat_beq,
  if◌then◌else◌, length, get_or, replicate, inl, inr, Bool-cases, length-set, get_or-set_self,
  get_or-set_ne,
}
use dist_compute.Base.Text.{text_eq}
use dist_compute.Doc.{Update, no_update, put, broadcast, remove}

-- how often a queue is among the subscribers
abbrev pub count : ℕ → List ℕ → ℕ
count q [] = 0
count q (r ∷ rs) = (if nat_beq r q then 1 else 0) + count q rs

pub count-append : (q : ℕ) (rs ss : List ℕ) → count q (rs ++ ss) ≡ count q rs + count q ss
count-append q [] ss = omega arith
count-append q (r ∷ rs) ss = omega (arith, count-append q rs ss)

pub count-remove_ne : (q r : ℕ) (rs : List ℕ) → q ≢ r → count q (remove r rs) ≡ count q rs
unfolding remove
count-remove_ne q r [] h = refl
count-remove_ne q r (x ∷ rs) h = ground (arith, count-remove_ne q r rs h)

pub count-remove-le : (q r : ℕ) (rs : List ℕ) → count q (remove r rs) ≤ count q rs
unfolding remove
count-remove-le q r [] = omega arith
count-remove-le q r (x ∷ rs) = ground (arith, count-remove-le q r rs)

pub length-broadcast :
    (rs : List ℕ) (u : Update) (qs : List (List Update)) → length (broadcast rs u qs) ≡ length qs
unfolding broadcast
length-broadcast [] u qs = refl
length-broadcast (r ∷ rs) u qs =
    unfold put in length-broadcast rs u (put qs r u) ∙ length-set qs r _

get_or-put :
    (q r : ℕ) (u : Update) (qs : List (List Update))
    → q < length qs
    → get_or (put qs r u) q no_update
      ≡ get_or qs q no_update ++ replicate (if nat_beq r q then 1 else 0) u
unfolding put
get_or-put q r u qs h = elim (Bool-cases (nat_beq r q)) [
  | inl same ↦
      let e : r ≡ q = ground arith in
      rw (same, e) (get_or-set_self qs q (get_or qs q no_update ++ u ∷ []) no_update h)
  | inr other ↦
      let e : r ≢ q = ground arith in
      rw (other, append-nil) (get_or-set_ne qs r q (get_or qs r no_update ++ u ∷ []) no_update e)
]

replicate-append {ℓ} :
    {A : Type ℓ} (b : Bool) (n : ℕ) (u : A)
    → replicate (if b then 1 else 0) u ++ replicate n u ≡ replicate ((if b then 1 else 0) + n) u
replicate-append true n u = rw one-add
replicate-append false n u = rw zero-add

-- A broadcast puts the update on a queue once for each time the queue is subscribed.
pub get_or-broadcast :
    (q : ℕ) (rs : List ℕ) (u : Update) (qs : List (List Update))
    → q < length qs
    → get_or (broadcast rs u qs) q no_update ≡ get_or qs q no_update ++ replicate (count q rs) u
unfolding broadcast
get_or-broadcast q [] u qs h = rw append-nil
get_or-broadcast q (r ∷ rs) u qs h =
    get_or-broadcast q rs u (put qs r u) (unfold put in omega (arith, length-set qs r))
    ∙ rw (get_or-put q r u qs h, append_assoc, replicate-append)

-- the removal of a queue that is listed once
pub count-remove_self : (q : ℕ) (rs : List ℕ) → count q rs ≡ 1 → count q (remove q rs) ≡ 0
unfolding remove
count-remove_self q [] h = refl
count-remove_self q (x ∷ rs) h = ground (arith, count-remove_self q rs)
