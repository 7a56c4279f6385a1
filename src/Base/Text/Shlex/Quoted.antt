-- ===== src/Base/Text/Shlex/Quoted.antt =====
-- `shlex.split` gives back words that were put in double quotes.
use mathlib.Core.Path.{◌≡◌, refl, ap, ◌∙◌}
use mathlib.Core.Bool.{Bool, true, false}
use mathlib.Core.List.{List, [], ◌∷◌, ◌++◌, append-nil, append_assoc}
use dist_compute.Base.Tests.{nat_beq}
use dist_compute.Base.Lists.{All}
use dist_compute.Base.Text.{Text}
use dist_compute.Base.Text.Shlex.{
  outside, inside, quotation, words, has_word, with_word, is_blank, is_quote, split_in, shlex_split,
}

-- neither a double quote nor a backslash
abbrev pub Plain : Text → Type 0
Plain = All (λ c. (nat_beq c 34 ≡ false) × (nat_beq c 92 ≡ false))

-- the words in double quotes, one blank after each
abbrev pub quoted : List Text → Text
quoted [] = []
quoted (w ∷ ws) = 34 ∷ (w ++ 34 ∷ 32 ∷ quoted ws)

split_in-quotation :
    (t w rest : Text) (q : Bool)
    → Plain t
    → split_in (quotation 34) w q (t ++ 34 ∷ rest) ≡ split_in inside (w ++ t) true rest
unfolding split_in
split_in-quotation [] w rest q h = rw append-nil refl
split_in-quotation (c ∷ t) w rest q h =
    rw (h.0.0, h.0.1) (split_in-quotation t (w ++ c ∷ []) rest true h.1 ∙ rw append_assoc refl)

has_word-quoted : (w : Text) → has_word w true ≡ true
has_word-quoted [] = refl
has_word-quoted (c ∷ w) = refl

split_in-blank :
    (w rest : Text)
    → split_in inside w true (32 ∷ rest) ≡ with_word w (split_in outside [] false rest)
unfolding split_in is_blank
split_in-blank w rest = rw (has_word-quoted w) refl

split_in-quoted : (ws : List Text) → All Plain ws → split_in outside [] false (quoted ws) ≡ words ws
unfolding split_in is_blank is_quote
split_in-quoted [] h = refl
split_in-quoted (w ∷ ws) h =
    split_in-quotation w [] (32 ∷ quoted ws) false h.0
    ∙ split_in-blank w (quoted ws)
    ∙ ap (with_word w) (split_in-quoted ws h.1)

-- `shlex.split` of words in double quotes, none of them with a double quote or a backslash, is the
-- list of these words, blanks and empty words included.
pub shlex_split-quoted : (ws : List Text) → All Plain ws → shlex_split (quoted ws) ≡ words ws
unfolding shlex_split
shlex_split-quoted = split_in-quoted
