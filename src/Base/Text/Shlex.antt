-- ===== src/Base/Text/Shlex.antt =====
-- `shlex.split(line)` of Python's library: POSIX rules, words split at white space only, no comments.
pub mod Quoted
use Prim.Native.Nat.{ℕ}
use mathlib.Core.Path.{◌≡◌, refl}
use mathlib.Core.Bool.{Bool, true, false, ◌&&◌, ◌||◌, not}
use mathlib.Core.List.{List, [], ◌∷◌, ◌++◌}
use dist_compute.Base.Tests.{nat_beq, if◌then◌else◌}
use dist_compute.Base.Text.{Text, codes}

-- where the reader is: between words, in a word, in a quotation, after a backslash
pub data Mode : Type 0 where
  outside inside escaped : Mode
  quotation : ℕ → Mode
  -- a backslash in double quotes
  quoted_escape : Mode

pub data Split : Type 0 where
  words : List Text → Split
  parse_error : Text → Split

abbrev pub with_word : Text → Split → Split
with_word w (words ws) = words (w ∷ ws)
with_word w (parse_error t) = parse_error t

pub is_blank : ℕ → Bool
is_blank c = nat_beq c 32 || nat_beq c 9 || nat_beq c 13 || nat_beq c 10

pub is_quote : ℕ → Bool
is_quote c = nat_beq c 34 || nat_beq c 39

-- a word is there if it has a character or had a quotation
abbrev pub has_word : Text → Bool → Bool
has_word [] quoted = quoted
has_word (c ∷ w) quoted = true

-- The words of the text from a mode, with the word so far and whether it had a quotation.
pub split_in : Mode → Text → Bool → Text → Split
unfolding is_blank is_quote
split_in outside w q [] = if has_word w q then words (w ∷ []) else words []
split_in inside w q [] = if has_word w q then words (w ∷ []) else words []
split_in (quotation k) w q [] = parse_error (codes "No closing quotation")
split_in escaped w q [] = parse_error (codes "No escaped character")
split_in quoted_escape w q [] = parse_error (codes "No escaped character")
split_in outside w q (c ∷ s) =
    let ended = with_word w (split_in outside [] false s) in
    let skipped = split_in outside w q s in
    let escape = split_in escaped w q s in
    let quote = split_in (quotation c) w q s in
    let more = split_in inside (c ∷ []) q s in
    if is_blank c
    then (if has_word w q then ended else skipped)
    else if nat_beq c 92
    then escape
    else if is_quote c
    then quote
    else more
split_in inside w q (c ∷ s) =
    let ended = with_word w (split_in outside [] false s) in
    let skipped = split_in outside w q s in
    let quote = split_in (quotation c) w q s in
    let escape = split_in escaped w q s in
    let more = split_in inside (w ++ c ∷ []) q s in
    if is_blank c
    then (if has_word w q then ended else skipped)
    else if is_quote c
    then quote
    else if nat_beq c 92
    then escape
    else more
split_in (quotation k) w q (c ∷ s) =
    let closed = split_in inside w true s in
    let escape = split_in quoted_escape w true s in
    let more = split_in (quotation k) (w ++ c ∷ []) true s in
    if nat_beq c k then closed else if nat_beq c 92 && nat_beq k 34 then escape else more
split_in escaped w q (c ∷ s) = split_in inside (w ++ c ∷ []) q s
split_in quoted_escape w q (c ∷ s) =
    let kept = split_in (quotation 34) (w ++ c ∷ []) q s in
    let both = split_in (quotation 34) (w ++ 92 ∷ c ∷ []) q s in
    if nat_beq c 92 || nat_beq c 34 then kept else both

-- `shlex.split`
unfoldable pub shlex_split : Text → Split
unfolding split_in is_blank is_quote
shlex_split = split_in outside [] false

shlex_split_example :
    shlex_split (codes "edit a\\ b \"x 'y\\\" z\"'' 3")
    ≡ words (codes "edit" ∷ codes "a b" ∷ codes "x 'y\" z" ∷ codes "3" ∷ [])
unfolding shlex_split
shlex_split_example = refl

shlex_split_open : shlex_split (codes "edit \"a") ≡ parse_error (codes "No closing quotation")
unfolding shlex_split
shlex_split_open = refl
