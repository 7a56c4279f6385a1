-- ===== src/Base/Text/Parse.antt =====
-- `str.split()` and `int(text)` of Python, on ASCII digits.
use Prim.Native.Nat.{ℕ, zero, suc, ◌+◌, ◌-◌, ◌*◌}
use mathlib.Core.Path.{◌≡◌, refl}
use mathlib.Core.Bool.{Bool, true, false, ◌&&◌}
use mathlib.Core.Option
use mathlib.Core.Option.{Option, none, some}
use mathlib.Core.List.{List, [], ◌∷◌, ◌++◌}
use dist_compute.Base.Tests.{nat_beq, leb, if◌then◌else◌}
use dist_compute.Base.Int.{ℤ, pos, negsuc}
use dist_compute.Base.Text.{Text, codes, is_space, strip}

-- a word so far, in front of the words that follow it
unfoldable pub push_word : Text → List Text → List Text
push_word [] ws = ws
push_word (c ∷ w) ws = (c ∷ w) ∷ ws

-- the words of the text, the first one with `w` in front of it
unfoldable pub split_from : Text → Text → List Text
unfolding push_word
split_from w [] = push_word w []
split_from w (c ∷ s) =
    let more = split_from (w ++ c ∷ []) s in
    let next = split_from [] s in if is_space c then push_word w next else more

-- `s.split()`
unfoldable pub split_words : Text → List Text
unfolding split_from is_space
split_words = split_from []

unfoldable pub is_digit : ℕ → Bool
is_digit c = leb 48 c && leb c 57

-- Digits with single underscores between them; `ready` says that a digit was the last character.
unfoldable pub digits_from : ℕ → Bool → Text → Option ℕ
unfolding is_digit
digits_from n true [] = some n
digits_from n false [] = none
digits_from n ready (c ∷ s) =
    let number = digits_from (n * 10 + (c - 48)) true s in
    let gap = digits_from n false s in
    if is_digit c then number else if nat_beq c 95 && ready then gap else none

unfoldable pub negated : ℕ → ℤ
negated zero = pos 0
negated (suc n) = negsuc n

unfoldable pub signed : Text → Option ℤ
unfolding digits_from negated
signed [] = none
signed (c ∷ s) =
    if nat_beq c 45
    then Option.map negated (digits_from 0 false s)
    else if nat_beq c 43
    then Option.map pos (digits_from 0 false s)
    else Option.map pos (digits_from 0 false (c ∷ s))

-- `int(text)`; `none` stands for the ValueError
unfoldable pub int_of_text : Text → Option ℤ
unfolding signed strip is_space
int_of_text s = signed (strip s)

split_words_example : split_words (codes " 12  -3 x ") ≡ codes "12" ∷ codes "-3" ∷ codes "x" ∷ []
unfolding split_words
split_words_example = refl

int_of_text_example : int_of_text (codes " -1_2 ") ≡ some (negsuc 11)
unfolding int_of_text
int_of_text_example = refl

int_of_text_bad : int_of_text (codes "1__2") ≡ none
unfolding int_of_text
int_of_text_bad = refl
