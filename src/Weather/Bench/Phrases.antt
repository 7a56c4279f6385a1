-- ===== src/Weather/Bench/Phrases.antt =====
-- Texts of figures and of words, as the line of section2/q2_grpc/streamer.py has them.

use mathlib.Core.List.{reverse, reverse-reverse, reverse-append, reverse-cons}
use dist_compute.Base.{
  ℕ, suc, ◌≡◌, refl, ap, ◌∙◌, Bool, true, false, List, [], ◌∷◌, ◌++◌, arith, nat_beq, All,
  All-append,
}
use dist_compute.Base.Int.{ℤ, pos, negsuc}
use dist_compute.Base.Text.{Text, codes, decimal, is_space, text_beq}
use dist_compute.Base.Text.Numeral.{
  Solid, Digit, decimal-Digit, decimal-not_empty, split_words-word, split_words_last,
}
use dist_compute.Base.Text.Parse.{split_words}
use dist_compute.Base.Text.Find.{rstrip, drop_in, is_in}
use dist_compute.Base.Text.Find.Pieces.{Free}
use dist_compute.Weather.Report.{int_text}

-- no blank, `(`, `)`, `>`, `s` and `w`
abbrev pub Printed : ℕ → Type 0
Printed c =
    (is_space c ≡ false)
    × (nat_beq c 40 ≡ false)
    × (nat_beq c 41 ≡ false)
    × (nat_beq c 62 ≡ false)
    × (nat_beq c 115 ≡ false)
    × (nat_beq c 119 ≡ false)

abbrev pub some_text : Text → Bool
some_text [] = false
some_text (c ∷ s) = true

abbrev pub Word : Text → Type 0
Word w = (some_text w ≡ true) × Solid w

-- a text of such characters, which is not empty
abbrev pub Figure : Text → Type 0
Figure t = (some_text t ≡ true) × All Printed t

Digit-Printed : (s : Text) → All Digit s → All Printed s
unfolding is_space
Digit-Printed [] h = tt
Digit-Printed (c ∷ s) h = (
  (
    ground (arith, h.0),
    ground (arith, h.0),
    ground (arith, h.0),
    ground (arith, h.0),
    ground (arith, h.0),
    ground (arith, h.0),
  ),
  Digit-Printed s h.1,
)

pub decimal-Figure : (n : ℕ) → Figure (decimal n)
decimal-Figure n =
    let (d, u, e) = decimal-not_empty n in
    (ap some_text e, Digit-Printed (decimal n) (decimal-Digit n))

pub int_text-Figure : (n : ℤ) → Figure (int_text n)
unfolding int_text is_space
int_text-Figure (pos n) = decimal-Figure n
int_text-Figure (negsuc n) =
    (refl, ((refl, refl, refl, refl, refl, refl), (decimal-Figure (suc n)).1))

some_text-append : (s t : Text) → some_text s ≡ true → some_text (s ++ t) ≡ true
some_text-append [] t h = absurd cc
some_text-append (c ∷ s) t h = refl

pub Printed-Solid : (s : Text) → All Printed s → Solid s
Printed-Solid [] h = tt
Printed-Solid (c ∷ s) h = (h.0.0, Printed-Solid s h.1)

pub Figure-Word : (s t : Text) → Figure s → Solid t → Word (s ++ t)
Figure-Word s t h solid = (some_text-append s t h.0, All-append _ s t (Printed-Solid s h.1) solid)

-- words, each with a blank after it, before a text
abbrev pub spaced : List Text → Text → Text
spaced [] t = t
spaced (w ∷ ws) t = w ++ 32 ∷ spaced ws t

blank : is_space 32 ≡ true
unfolding is_space
blank = refl

pub split_words-spaced :
    (ws : List Text) (t : Text) → All Word ws → split_words (spaced ws t) ≡ ws ++ split_words t
split_words-spaced [] t h = refl
split_words-spaced ([] ∷ ws) t h = absurd (let e : false ≡ true = h.0.0 in cc)
split_words-spaced ((d ∷ w) ∷ ws) t h =
    split_words-word d w 32 (spaced ws t) h.0.1 blank
    ∙ ap (λ x. (d ∷ w) ∷ x) (split_words-spaced ws t h.1)

pub split_words-only : (w : Text) → Word w → split_words w ≡ w ∷ []
split_words-only [] h = absurd (let e : false ≡ true = h.0 in cc)
split_words-only (d ∷ w) h = split_words_last d w h.1

pub text_beq-Free : (c : ℕ) (t x : Text) → Free c x → text_beq x (c ∷ t) ≡ false
text_beq-Free c t [] h = refl
text_beq-Free c t (y ∷ x) h = rw h.0 refl

pub text_beq-second : (b c : ℕ) (t x : Text) → Free c x → text_beq x (b ∷ c ∷ t) ≡ false
text_beq-second b c t [] h = refl
text_beq-second b c t (y ∷ []) h = ground arith
text_beq-second b c t (y ∷ z ∷ x) h = ground (arith, h.1.0)

All-reverse : (P : ℕ → Type 0) (s : Text) → All P s → All P (reverse s)
All-reverse P [] h = tt
All-reverse P (c ∷ s) h =
    rw reverse-cons (All-append P (reverse s) _ (All-reverse P s h.1) (h.0, tt))

drop_in-none : (cs : List ℕ) (s : Text) → All (λ c. is_in cs c ≡ false) s → drop_in cs s ≡ s
unfolding drop_in
drop_in-none cs [] h = refl
drop_in-none cs (c ∷ s) h = rw h.0 refl

pub rstrip-append :
    (cs : List ℕ) (s t : Text)
    → All (λ c. is_in cs c ≡ false) s
    → drop_in cs (reverse t ++ reverse s) ≡ drop_in cs (reverse s)
    → rstrip cs (s ++ t) ≡ s
unfolding rstrip
rstrip-append cs s t h dropped =
    ap (λ x. reverse (drop_in cs x)) (reverse-append s t)
    ∙ ap reverse (dropped ∙ drop_in-none cs (reverse s) (All-reverse _ (s) h))
    ∙ reverse-reverse s

pub Printed-s : (s : Text) → All Printed s → All (λ c. is_in (codes "s") c ≡ false) s
Printed-s [] h = tt
Printed-s (c ∷ s) h = (ground (arith, h.0.4), Printed-s s h.1)

pub Printed-s_close : (s : Text) → All Printed s → All (λ c. is_in (codes "s)") c ≡ false) s
Printed-s_close [] h = tt
Printed-s_close (c ∷ s) h = (ground (arith, h.0.4, h.0.2), Printed-s_close s h.1)

pub Printed-w : (s : Text) → All Printed s → Free 119 s
Printed-w [] h = tt
Printed-w (c ∷ s) h = (h.0.5, Printed-w s h.1)

pub Printed-greater : (s : Text) → All Printed s → Free 62 s
Printed-greater [] h = tt
Printed-greater (c ∷ s) h = (h.0.3, Printed-greater s h.1)

pub Printed-open : (s : Text) → All Printed s → Free 40 s
Printed-open [] h = tt
Printed-open (c ∷ s) h = (h.0.1, Printed-open s h.1)
