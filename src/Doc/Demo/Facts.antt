-- ===== src/Doc/Demo/Facts.antt =====
-- The numbers and the texts that the checks of section3/problem1/concurrent_demo.py compare.
use dist_compute.Base.{
  ℕ, zero, suc, ◌+◌, ◌≤◌, ◌<◌, ◌≡◌, refl, ap, ◌∙◌, sym, true, List, [], ◌∷◌, ◌++◌, arith, nat_beq,
  number_key, length, map, length-append,
}
use dist_compute.Base.Fold.{tally}
use dist_compute.Base.Text.{Text, text_beq_iff}
use dist_compute.Doc.{Update, update_of}
use dist_compute.Doc.Demo.{enumerate, range_from, total_length, sorted, insert_sorted, numbers_beq}
use dist_compute.Doc.Demo.Moves.{body, log, results_after}

abbrev pub times : ℕ → List (ℕ × Text) → ℕ
times i = tally (λ x. nat_beq i x.0)

pub map-append {ℓ κ} :
    {A : Type ℓ} {B : Type κ} (f : A → B) (xs ys : List A) → map f (xs ++ ys) ≡ map f xs ++ map f ys
map-append f [] ys = refl
map-append f (x ∷ xs) ys = ap (◌∷◌ (f x)) (map-append f xs ys)

range_from-suc : (a n : ℕ) → range_from a (suc n) ≡ range_from a n ++ (a + n) ∷ []
range_from-suc a zero = ap (λ b. b ∷ []) (omega arith)
range_from-suc a (suc n) =
    ap (◌∷◌ a) (range_from-suc (a + 1) n ∙ ap (λ b. range_from (a + 1) n ++ b ∷ []) (omega arith))

range_one-suc : (n : ℕ) → range_from 1 (suc n) ≡ range_from 1 n ++ suc n ∷ []
range_one-suc n = range_from-suc 1 n ∙ ap (λ b. range_from 1 n ++ b ∷ []) (omega arith)

pub versions-log :
    (name peer : Text) (past : List (ℕ × Text))
    → map (λ (u : Update). u.version) (log name peer past) ≡ range_from 1 (length past)
unfolding update_of
versions-log name peer [] = refl
versions-log name peer (x ∷ past) =
    rw (map-append, versions-log name peer past) (sym (range_one-suc (length past)))

pub versions-results :
    (past : List (ℕ × Text))
    → map (λ (x : ℕ × (ℕ × Text)). x.1.0) (results_after past) ≡ range_from 1 (length past)
versions-results [] = refl
versions-results (x ∷ past) =
    rw (map-append, versions-results past) (sym (range_one-suc (length past)))

insert_sorted-least : (x a n : ℕ) → x ≤ a → insert_sorted x (range_from a n) ≡ x ∷ range_from a n
unfolding insert_sorted
insert_sorted-least x a zero h = refl
insert_sorted-least x a (suc n) h = ground arith

pub sorted-range_from : (a n : ℕ) → sorted (range_from a n) ≡ range_from a n
unfolding sorted
sorted-range_from a zero = refl
sorted-range_from a (suc n) =
    rw (sorted-range_from (a + 1) n) (insert_sorted-least a (a + 1) n (omega arith))

pub numbers_beq_refl : (xs : List ℕ) → numbers_beq xs xs ≡ true
numbers_beq_refl xs = ground (arith, text_beq_iff xs xs)

pub total_length-body :
    (past : List (ℕ × Text)) → length (body past) ≡ total_length (map (λ x. x.1) past)
total_length-body [] = refl
total_length-body (x ∷ past) = omega (arith, length-append x.1 (body past), total_length-body past)

pub map-enumerate : (i : ℕ) (ts : List Text) → map (λ x. x.1) (enumerate i ts) ≡ ts
map-enumerate i [] = refl
map-enumerate i (t ∷ ts) = ap (◌∷◌ t) (map-enumerate (i + 1) ts)

pub times-enumerate :
    (i k : ℕ) (ts : List Text)
    → (times i (enumerate k ts) ≤ 1) × (i < k → times i (enumerate k ts) ≡ 0)
times-enumerate i k [] = (omega arith, λ h. refl)
times-enumerate i k (t ∷ ts) =
    let e = times-enumerate i (k + 1) ts in (ground (arith, e.0, e.1), λ h. ground (arith, e.1))
