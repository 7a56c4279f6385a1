-- ===== src/Weather/Bench/Figures.antt =====
-- section2/q2_grpc/bench/bench.py reads from the log what bench/query_load.py has printed.
use mathlib.Core.Option
use mathlib.Core.List.{append_assoc, append-nil}
use dist_compute.Base.{
  ℕ, ◌≡◌, refl, ap, sym, ◌∙◌, Bool, true, false, some, List, [], ◌∷◌, ◌++◌, map, foldl, foldr, not,
  ◌&&◌, arith, nat_beq, All, All-append,
}
use dist_compute.Base.Dict.{Dict, insert}
use dist_compute.Base.Text.{Text, codes, decimal, is_space, text_eq}
use dist_compute.Base.Text.Numeral.{Solid, Digit, decimal-Digit, split_words-word, split_words_last}
use dist_compute.Base.Text.Parse.{split_words}
use dist_compute.Base.Text.Find.{without, occurs, split_on}
use dist_compute.Base.Text.Find.Pieces.{
  Free, split_on-Free, split_on-piece, without-Free, occurs-append,
}
use dist_compute.Weather.Bench.Outputs.{pairs_of, pair_of, values_of, line_stats}

-- no blank, `=`, `l` or `q`
abbrev pub Mark : ℕ → Type 0
Mark c =
    (is_space c ≡ false)
    × (nat_beq c 61 ≡ false)
    × (nat_beq c 108 ≡ false)
    × (nat_beq c 113 ≡ false)

abbrev pub Plain : Text → Type 0
Plain = All Mark

Digit-Plain : (s : Text) → All Digit s → Plain s
unfolding is_space
Digit-Plain [] h = tt
Digit-Plain (c ∷ s) h = (
  (ground (arith, h.0), ground (arith, h.0), ground (arith, h.0), ground (arith, h.0)),
  Digit-Plain s h.1,
)

pub decimal-Plain : (n : ℕ) → Plain (decimal n)
decimal-Plain n = Digit-Plain (decimal n) (decimal-Digit n)

Plain-Solid : (s : Text) → Plain s → Solid s
Plain-Solid [] h = tt
Plain-Solid (c ∷ s) h = (h.0.0, Plain-Solid s h.1)

Plain-equals : (s : Text) → Plain s → Free 61 s
Plain-equals [] h = tt
Plain-equals (c ∷ s) h = (h.0.1, Plain-equals s h.1)

Plain-l : (s : Text) → Plain s → Free 108 s
Plain-l [] h = tt
Plain-l (c ∷ s) h = (h.0.2, Plain-l s h.1)

pub Plain-q : (s : Text) → Plain s → Free 113 s
Plain-q [] h = tt
Plain-q (c ∷ s) h = (h.0.3, Plain-q s h.1)

-- the word `k=v`
abbrev word : Text × Text → Text
word (k, v) = k ++ 61 ∷ v

-- such words with a blank before each
abbrev items : List (Text × Text) → Text
items [] = []
items ((k, v) ∷ r) = 32 ∷ word (k, v) ++ items r

abbrev Fit : Text × Text → Type 0
Fit (k, v) = Solid (word (k, v)) × Free 61 k × Free 61 v

blank : is_space 32 ≡ true
unfolding is_space
blank = refl

split_words-items :
    (d : ℕ) (w : Text) (r : List (Text × Text))
    → Solid (d ∷ w)
    → All Fit r
    → split_words ((d ∷ w) ++ items r) ≡ (d ∷ w) ∷ map word r
split_words-items d w [] h fit = ap split_words (append-nil (d ∷ w)) ∙ split_words_last d w h
split_words-items d w (([], v) ∷ r) h fit =
    split_words-word d w 32 (word ([], v) ++ items r) h blank
    ∙ ap (λ x. (d ∷ w) ∷ x) (split_words-items 61 v r fit.0.0 fit.1)
split_words-items d w ((c ∷ k, v) ∷ r) h fit =
    split_words-word d w 32 (word (c ∷ k, v) ++ items r) h blank
    ∙ ap (λ x. (d ∷ w) ∷ x) (split_words-items c (k ++ 61 ∷ v) r fit.0.0 fit.1)

pairs_of_word :
    (d : Dict Text Text) (t k v : Text) (ts : List Text)
    → occurs (codes "=") t ≡ true
    → split_on 61 t ≡ k ∷ v ∷ []
    → pairs_of d (t ∷ ts) ≡ pairs_of (insert k v d) ts
unfolding pairs_of pair_of mathlib.Core.Option.bind
pairs_of_word d t k v ts has parts = rw (has, parts) refl

pairs_of-items :
    (d : Dict Text Text) (r : List (Text × Text))
    → All Fit r
    → pairs_of d (map word r) ≡ some (foldl (λ d x. insert x.0 x.1 d) d r)
unfolding pairs_of
pairs_of-items d [] fit = refl
pairs_of-items d ((k, v) ∷ r) fit =
    pairs_of_word d (k ++ 61 ∷ v) k v (map word r)
      (ap (occurs (codes "=")) (sym (append_assoc k (codes "=") v)) ∙ occurs-append k (codes "=") v)
      (split_on-piece 61 k v fit.0.1 ∙ ap (λ x. k ∷ x) (split_on-Free 61 v fit.0.2))
    ∙ pairs_of-items (insert k v d) r fit.1

-- what follows the label of a line, with the texts of its figures: the clients, the queries, the
-- time, the rate, the mean, the percentiles and the maximum
abbrev pub tail_line : Text → Text → Text → Text → Text → Text → Text → Text → Text → Text
tail_line c n w r a b d e m =
    codes " clients="
    ++ (c
        ++ (codes " queries="
            ++ (n
                ++ (codes " wall="
                    ++ (w
                        ++ (codes "s qps="
                            ++ (r
                                ++ (codes " latency ms: mean="
                                    ++ (a
                                        ++ (codes " p50="
                                            ++ (b
                                                ++ (codes " p95="
                                                    ++ (d
                                                        ++ (codes " p99="
                                                            ++ (e
                                                            ++ (codes " max=" ++ m))))))))))))))))

abbrev entries : Text → Text → Text → Text → Text → Text → Text → Text → Text → List (Text × Text)
entries c n w r a b d e m =
    (codes "clients", c)
    ∷ (codes "queries", n)
    ∷ (codes "wall", w ++ codes "s")
    ∷ (codes "qps", r)
    ∷ (codes "mean", a)
    ∷ (codes "p50", b)
    ∷ (codes "p95", d)
    ∷ (codes "p99", e)
    ∷ (codes "max", m)
    ∷ []

unfoldable pub taken_out : Text → Text
taken_out = without (codes "latency ms: ")

taken_out-Plain : (p s : Text) → Plain p → taken_out (p ++ s) ≡ p ++ taken_out s
unfolding taken_out
taken_out-Plain p s h = without-Free 108 (codes "atency ms: ") p s (Plain-l p h)

taken_out-tail_line :
    (c n w r a b d e m : Text)
    → Plain c
    → Plain n
    → Plain w
    → Plain r
    → Plain a
    → Plain b
    → Plain d
    → Plain e
    → Plain m
    → taken_out (tail_line c n w r a b d e m) ≡ items (entries c n w r a b d e m)
unfolding taken_out
taken_out-tail_line c n w r a b d e m hc hn hw hr ha hb hd he hm =
    let m_last : taken_out m ≡ m =
      ap taken_out (sym (append-nil m)) ∙ taken_out-Plain m [] hm ∙ append-nil m in
    ap (λ x. codes " clients=" ++ x)
      (taken_out-Plain c _ hc
        ∙ ap (λ x. c ++ (codes " queries=" ++ x))
            (taken_out-Plain n _ hn
              ∙ ap (λ x. n ++ (codes " wall=" ++ x))
                  (taken_out-Plain w _ hw
                    ∙ ap (λ x. w ++ (codes "s qps=" ++ x))
                        (taken_out-Plain r _ hr
                          ∙ ap (λ x. r ++ (codes " mean=" ++ x))
                              (taken_out-Plain a _ ha
                                ∙ ap (λ x. a ++ (codes " p50=" ++ x))
                                    (taken_out-Plain b _ hb
                                      ∙ ap (λ x. b ++ (codes " p95=" ++ x))
                                          (taken_out-Plain d _ hd
                                            ∙ ap (λ x. d ++ (codes " p99=" ++ x))
                                                (taken_out-Plain e _ he
                                                  ∙ ap (λ x. e ++ (codes " max=" ++ x))
                                                      (m_last)))))))))
    ∙ simp (append_assoc, append-nil) refl

-- whether the text has no blank and no `=`
abbrev pub is_key : Text → Bool
is_key = foldr (λ c b. not (is_space c) && not (nat_beq c 61) && b) true

pub is_key-Solid : (k : Text) → is_key k ≡ true → Solid k × Free 61 k
is_key-Solid [] h = (tt, tt)
is_key-Solid (c ∷ k) h =
    let rest = is_key-Solid k (ground (arith, h)) in
    ((ground (arith, h), rest.0), (ground (arith, h), rest.1))

Fit-Plain : (k v : Text) → is_key k ≡ true → Plain v → Fit (k, v)
unfolding is_space
Fit-Plain k v h plain =
    let (solid, free) = is_key-Solid k h in
    (All-append _ k (61 ∷ v) solid (refl, Plain-Solid v plain), free, Plain-equals v plain)

entries-Fit :
    (c n w r a b d e m : Text)
    → Plain c
    → Plain n
    → Plain w
    → Plain r
    → Plain a
    → Plain b
    → Plain d
    → Plain e
    → Plain m
    → All Fit (entries c n w r a b d e m)
unfolding is_space
entries-Fit c n w r a b d e m hc hn hw hr ha hb hd he hm = (
  Fit-Plain (codes "clients") c refl hc,
  (
    Fit-Plain (codes "queries") n refl hn,
    (
      Fit-Plain (codes "wall") (w ++ codes "s") refl
          (All-append _ w (codes "s") hw ((refl, refl, refl, refl), tt)),
      (
        Fit-Plain (codes "qps") r refl hr,
        (
          Fit-Plain (codes "mean") a refl ha,
          (
            Fit-Plain (codes "p50") b refl hb,
            (
              Fit-Plain (codes "p95") d refl hd,
              (Fit-Plain (codes "p99") e refl he, (Fit-Plain (codes "max") m refl hm, tt)),
            ),
          ),
        ),
      ),
    ),
  ),
)

-- the figures of a line, for a label that is a word with no `=` and nothing to take out
pub line_stats-tail_line :
    (x : ℕ) (label : Text) (c n w r a b d e m : Text)
    → is_key (x ∷ label) ≡ true
    → occurs (codes "=") (x ∷ label) ≡ false
    → ((s : Text) → taken_out ((x ∷ label) ++ 32 ∷ s) ≡ (x ∷ label) ++ taken_out (32 ∷ s))
    → Plain c
    → Plain n
    → Plain w
    → Plain r
    → Plain a
    → Plain b
    → Plain d
    → Plain e
    → Plain m
    → line_stats ((x ∷ label) ++ tail_line c n w r a b d e m) ≡ some (n ∷ r ∷ a ∷ b ∷ d ∷ e ∷ [])
unfolding line_stats pairs_of values_of taken_out mathlib.Core.Option.bind
line_stats-tail_line x label c n w r a b d e m key no_equals stays hc hn hw hr ha hb hd he hm =
    let es = entries c n w r a b d e m in
    let ws : split_words (taken_out ((x ∷ label) ++ tail_line c n w r a b d e m))
        ≡ (x ∷ label) ∷ map word es =
      ap split_words (
        stays _
        ∙ ap (λ t. (x ∷ label) ++ t)
            (taken_out-tail_line c n w r a b d e m hc hn hw hr ha hb hd he hm))
      ∙ split_words-items x label es (is_key-Solid (x ∷ label) key).0
          (entries-Fit c n w r a b d e m hc hn hw hr ha hb hd he hm) in
    let kv : pairs_of [] ((x ∷ label) ∷ map word es)
        ≡ some (foldl (λ d x. insert x.0 x.1 d) [] es) =
      rw no_equals
        (pairs_of-items [] es (entries-Fit c n w r a b d e m hc hn hw hr ha hb hd he hm)) in
    rw (ws, kv) refl
