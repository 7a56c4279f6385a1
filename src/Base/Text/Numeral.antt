-- ===== src/Base/Text/Numeral.antt =====
-- Numbers in decimal read back: `int(str(n))` is n.
use Prim.Native.Nat.{ℕ, zero, suc, ◌+◌, ◌-◌, ◌*◌, ◌/◌, ◌%◌, ◌≤◌, ◌<◌}
use mathlib.Core.Path.{◌≡◌, refl, ap, sym, ◌∙◌}
use mathlib.Core.Logic.{inl, inr}
use mathlib.Core.Bool.{Bool, true, false}
use mathlib.Core.Option
use mathlib.Core.Option.{Option, none, some}
use mathlib.Core.List.{
  List, [], ◌∷◌, reverse, reverse-reverse, reverse-cons, append-nil, append_assoc, ◌++◌,
}
use native.Mathlib.Omega.{arith}
use dist_compute.Base.Tests.{nat_beq, ltb, Bool-cases}
use dist_compute.Base.Int.{pos, negsuc}
use dist_compute.Base.Lists.{All, All-append}
use dist_compute.Base.Text.{Text, is_space, lstrip, strip, digits, decimal}
use dist_compute.Base.Text.Parse.{
  digits_from, is_digit, signed, negated, int_of_text, split_from, split_words, push_word,
}

abbrev pub Digit : ℕ → Type 0
Digit c = (48 ≤ c) × (c ≤ 57)

digits-Digit : (f n : ℕ) (acc : Text) → All Digit acc → All Digit (digits f n acc)
unfolding digits
digits-Digit zero n acc h = h
digits-Digit (suc f) n acc h = elim (Bool-cases (ltb n 10)) [
  | inl small ↦ rw small ((omega arith, ground arith), h)
  | inr big ↦ rw big (digits-Digit f (n / 10) ((48 + n % 10) ∷ acc) ((omega arith, omega arith), h))
]

pub decimal-Digit : (n : ℕ) → All Digit (decimal n)
unfolding decimal
decimal-Digit n = digits-Digit (suc n) n [] tt

digits_from-Digit :
    (m c : ℕ) (r : Bool) (s : Text)
    → Digit c
    → digits_from m r (c ∷ s) ≡ digits_from (m * 10 + (c - 48)) true s
unfolding digits_from is_digit
digits_from-Digit m c r s h = ground (arith, h)

digits_from-digits :
    (f n : ℕ) (acc : Text) → n < f → digits_from 0 false (digits f n acc) ≡ digits_from n true acc
unfolding digits
digits_from-digits zero n acc h = absurd (omega arith)
digits_from-digits (suc f) n acc h = elim (Bool-cases (ltb n 10)) [
  | inl small ↦ rw small (
      digits_from-Digit 0 (48 + n) false acc (omega arith, ground arith)
      ∙ ap (λ m. digits_from m true acc) (omega arith))
  | inr big ↦ rw big (
      digits_from-digits f (n / 10) ((48 + n % 10) ∷ acc) (ground arith)
      ∙ digits_from-Digit (n / 10) (48 + n % 10) true acc (omega arith, omega arith)
      ∙ ap (λ m. digits_from m true acc) (omega arith))
]

-- no blank in the text
abbrev pub Solid : Text → Type 0
Solid = All (λ c. is_space c ≡ false)

pub Digit-Solid : (s : Text) → All Digit s → Solid s
unfolding is_space
Digit-Solid [] h = tt
Digit-Solid (c ∷ s) h = (ground (arith, h.0), Digit-Solid s h.1)

lstrip-Solid : (s : Text) → Solid s → lstrip s ≡ s
unfolding lstrip
lstrip-Solid [] h = refl
lstrip-Solid (c ∷ s) h = rw h.0 refl

reverse-Solid : (s : Text) → Solid s → Solid (reverse s)
reverse-Solid [] h = tt
reverse-Solid (c ∷ s) h =
    rw reverse-cons (All-append _ (reverse s) _ (reverse-Solid s h.1) (h.0, tt))

pub strip-Solid : (s : Text) → Solid s → strip s ≡ s
unfolding strip
strip-Solid s h =
    rw (lstrip-Solid s h, lstrip-Solid (reverse s) (reverse-Solid s h)) (reverse-reverse s)

digits-not_empty :
    (f n : ℕ) (c : ℕ) (acc : Text) → (d : ℕ) × (s : Text) × (digits f n (c ∷ acc) ≡ d ∷ s)
unfolding digits
digits-not_empty zero n c acc = (c, acc, refl)
digits-not_empty (suc f) n c acc = elim (Bool-cases (ltb n 10)) [
  | inl small ↦ rw small (48 + n, c ∷ acc, refl)
  | inr big ↦ rw big (digits-not_empty f (n / 10) (48 + n % 10) (c ∷ acc))
]

pub decimal-not_empty : (n : ℕ) → (d : ℕ) × (s : Text) × (decimal n ≡ d ∷ s)
unfolding decimal digits
decimal-not_empty n = elim (Bool-cases (ltb n 10)) [
  | inl small ↦ rw small (48 + n, [], refl)
  | inr big ↦ rw big (digits-not_empty n (n / 10) (48 + n % 10) [])
]

signed-digits :
    (s : Text) (d n : ℕ) (rest : Text)
    → s ≡ d ∷ rest
    → All Digit s
    → digits_from 0 false s ≡ some n
    → signed s ≡ some (pos n)
unfolding signed
signed-digits [] d n rest e h r = absurd (ground (arith, e))
signed-digits (c ∷ s) d n rest e h r =
    let not_minus : nat_beq c 45 ≡ false = ground (arith, h.0) in
    let not_plus : nat_beq c 43 ≡ false = ground (arith, h.0) in
    rw (not_minus, not_plus) (ap (Option.map pos) r)

pub int_of_text-decimal : (n : ℕ) → int_of_text (decimal n) ≡ some (pos n)
unfolding int_of_text
int_of_text-decimal n =
    let (d, s, e) = decimal-not_empty n in
    rw (strip-Solid (decimal n) (Digit-Solid (decimal n) (decimal-Digit n))) (
      signed-digits (decimal n) d n s e (decimal-Digit n)
        (unfold decimal digits_from in digits_from-digits (suc n) n [] (omega arith)))

pub int_of_text-minus : (n : ℕ) → int_of_text (45 ∷ decimal (suc n)) ≡ some (negsuc n)
unfolding int_of_text signed negated is_space
int_of_text-minus n =
    let read : digits_from 0 false (decimal (suc n)) ≡ some (suc n) =
      unfold decimal digits_from in digits_from-digits (suc (suc n)) (suc n) [] (omega arith) in
    rw
      (strip-Solid (45 ∷ decimal (suc n))
        (refl, Digit-Solid (decimal (suc n)) (decimal-Digit (suc n))))
      (ap (Option.map negated) read)

split_from-Solid : (w u s : Text) → Solid u → split_from w (u ++ s) ≡ split_from (w ++ u) s
unfolding split_from
split_from-Solid w [] s h = rw append-nil refl
split_from-Solid w (c ∷ u) s h =
    rw h.0 (
      split_from-Solid (w ++ c ∷ []) u s h.1 ∙ ap (λ x. split_from x s) (append_assoc w (c ∷ []) u))

push_word-same :
    (w : Text) (d : ℕ) (rest : Text) (ws : List Text) → w ≡ d ∷ rest → push_word w ws ≡ w ∷ ws
unfolding push_word
push_word-same [] d rest ws e = absurd (ground (arith, e))
push_word-same (c ∷ w) d rest ws e = refl

-- a word and a blank after it
pub split_words-word :
    (d : ℕ) (w : Text) (c : ℕ) (s : Text)
    → Solid (d ∷ w)
    → is_space c ≡ true
    → split_words ((d ∷ w) ++ c ∷ s) ≡ (d ∷ w) ∷ split_words s
unfolding split_words split_from push_word
split_words-word d w c s h blank = split_from-Solid [] (d ∷ w) (c ∷ s) h ∙ rw blank refl

-- a word at the end
pub split_words_last : (d : ℕ) (w : Text) → Solid (d ∷ w) → split_words (d ∷ w) ≡ (d ∷ w) ∷ []
unfolding split_words split_from push_word
split_words_last d w h =
    ap (split_from []) (sym (append-nil (d ∷ w))) ∙ split_from-Solid [] (d ∷ w) [] h

-- a numeral and a blank after it are a word in front of the others
pub split_words-decimal :
    (n c : ℕ) (s : Text)
    → is_space c ≡ true
    → split_words (decimal n ++ c ∷ s) ≡ decimal n ∷ split_words s
unfolding split_words split_from
split_words-decimal n c s h =
    let (d, rest, e) = decimal-not_empty n in
    split_from-Solid [] (decimal n) (c ∷ s) (Digit-Solid (decimal n) (decimal-Digit n))
    ∙ rw h (push_word-same (decimal n) d rest _ e)
