-- ===== src/Base/Text/Find.antt =====
-- Python's `t in s`, `s.startswith(t)`, `s.replace(t, "")`, `s.split(c)`, `s.splitlines()` and
-- `s.rstrip(chars)`.
pub mod Pieces
use Prim.Native.Nat.{ℕ, zero, suc, ◌-◌}
use mathlib.Core.Path.{◌≡◌, refl}
use mathlib.Core.Bool.{Bool, true, false, ◌&&◌, ◌||◌}
use mathlib.Core.List.{List, [], ◌∷◌, ◌++◌, reverse, foldr}
use dist_compute.Base.Tests.{nat_beq, leb, if◌then◌else◌}
use dist_compute.Base.Lists.{length}
use dist_compute.Base.Text.{Text, codes}

-- whether the text starts with `t`
abbrev pub starts_with : Text → Text → Bool
starts_with [] s = true
starts_with (c ∷ t) [] = false
starts_with (c ∷ t) (x ∷ s) = nat_beq c x && starts_with t s

-- `t in s`
unfoldable pub occurs : Text → Text → Bool
occurs t [] = starts_with t []
occurs t (x ∷ s) = starts_with t (x ∷ s) || occurs t s

-- the text without the occurrences of `t`, after the next `k` characters, which belong to one
abbrev pub without_from : Text → ℕ → Text → Text
without_from t k [] = []
without_from t zero (x ∷ s) =
    let kept = without_from t zero s in
    let dropped = without_from t (length t - 1) s in
    if starts_with t (x ∷ s) then dropped else x ∷ kept
without_from t (suc k) (x ∷ s) = without_from t k s

-- `s.replace(t, "")` for a text `t` that is not empty
abbrev pub without : Text → Text → Text
without t = without_from t 0

-- a character in front of the first piece
abbrev pub on_first : ℕ → List Text → List Text
on_first x [] = (x ∷ []) ∷ []
on_first x (p ∷ ps) = (x ∷ p) ∷ ps

-- `s.split(c)`
unfoldable pub split_on : ℕ → Text → List Text
split_on c [] = [] ∷ []
split_on c (x ∷ s) = let rest = split_on c s in if nat_beq x c then [] ∷ rest else on_first x rest

abbrev is_break : ℕ → Bool
is_break c =
    (leb 10 c && leb c 13)
    || (leb 28 c && leb c 30)
    || nat_beq c 133
    || nat_beq c 8232
    || nat_beq c 8233

-- the lines of the text, the last one of which may have no break; a line feed right after a
-- carriage return belongs to it
lines_from : Bool → Text → List Text
lines_from cr [] = []
lines_from cr (x ∷ []) =
    if nat_beq x 10 && cr then [] else if is_break x then [] ∷ [] else (x ∷ []) ∷ []
lines_from cr (x ∷ y ∷ s) =
    let rest = lines_from (nat_beq x 13) (y ∷ s) in
    if nat_beq x 10 && cr then rest else if is_break x then [] ∷ rest else on_first x rest

-- `s.splitlines()`
unfoldable pub splitlines : Text → List Text
unfolding lines_from
splitlines = lines_from false

abbrev pub is_in : List ℕ → ℕ → Bool
is_in cs c = foldr (λ d b. nat_beq d c || b) false cs

unfoldable pub drop_in : List ℕ → Text → Text
drop_in cs [] = []
drop_in cs (c ∷ s) = let rest = drop_in cs s in if is_in cs c then rest else c ∷ s

-- `s.rstrip(chars)`
unfoldable pub rstrip : List ℕ → Text → Text
unfolding drop_in
rstrip cs s = reverse (drop_in cs (reverse s))

splitlines_example :
    splitlines (codes "a" ++ 13 ∷ 10 ∷ codes "b" ++ 10 ∷ 10 ∷ codes "c" ++ 13 ∷ [])
    ≡ codes "a" ∷ codes "b" ∷ [] ∷ codes "c" ∷ []
unfolding splitlines
splitlines_example = refl

without_example : without (codes "aa") (codes "baaac") ≡ codes "bac"
without_example = refl

split_on_example : split_on 44 (codes "a,,b") ≡ codes "a" ∷ [] ∷ codes "b" ∷ []
unfolding split_on
split_on_example = refl

rstrip_example : rstrip (codes "s)") (codes "2s.s)s") ≡ codes "2s."
unfolding rstrip
rstrip_example = refl
