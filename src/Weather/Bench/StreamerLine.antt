-- ===== src/Weather/Bench/StreamerLine.antt =====
-- What section2/q2_grpc/bench/bench.py reads from the line that section2/q2_grpc/streamer.py prints.
use mathlib.Core.Option
use mathlib.Core.List.{append_assoc}
use dist_compute.Base.{◌≡◌, refl, ap, ◌∙◌, true, false, some, List, [], ◌∷◌, ◌++◌, All, All-append}
use dist_compute.Base.Int.{ℤ, pos}
use dist_compute.Base.Text.{Text, codes, decimal, is_space, text_beq}
use dist_compute.Base.Text.Numeral.{int_of_text-decimal}
use dist_compute.Base.Text.Parse.{split_words, split_from, push_word}
use dist_compute.Base.Text.Find.{without, drop_in}
use dist_compute.Weather.Floats.{Floats, Measures}
use dist_compute.Weather.Report.{int_text}
use dist_compute.Weather.Streamer.{Stats, streamed_line}
use dist_compute.Weather.Bench.Figures.{is_key, is_key-Solid}
use dist_compute.Weather.Bench.Outputs.{word_after, read_streamed}
use dist_compute.Weather.Bench.Phrases.{
  some_text, Word, Figure, decimal-Figure, int_text-Figure, Printed-Solid, Figure-Word, spaced,
  split_words-spaced, split_words-only, text_beq-Free, text_beq-second, rstrip-append, Printed-s,
  Printed-s_close, Printed-w, Printed-greater, Printed-open,
}

-- the words of the line, with the texts of its figures
abbrev line_words : Text → Text → Text → Text → Text → Text → Text → List Text
line_words n b z w r c e =
    codes "streamed"
    ∷ n
    ∷ codes "records"
    ∷ codes "in"
    ∷ b
    ∷ codes "batches"
    ∷ codes "of"
    ∷ (z ++ codes ":")
    ∷ codes "wall"
    ∷ (w ++ codes "s")
    ∷ codes "->"
    ∷ r
    ∷ codes "rec/s"
    ∷ codes "(streamer)"
    ∷ c
    ∷ codes "rec/s"
    ∷ codes "(coordinator,"
    ∷ (e ++ codes "s)")
    ∷ []

word_after-other :
    (w x : Text) (xs : List Text) → text_beq x w ≡ false → word_after w (x ∷ xs) ≡ word_after w xs
unfolding word_after
word_after-other w x xs h = rw h refl

after_wall :
    (n b z w r c e : Text)
    → Figure n
    → Figure b
    → Figure z
    → word_after (codes "wall") (line_words n b z w r c e) ≡ some (w ++ codes "s")
unfolding word_after
after_wall n b z w r c e hn hb hz =
    let no_n = text_beq-Free 119 (codes "all") n (Printed-w n hn.1) in
    let no_b = text_beq-Free 119 (codes "all") b (Printed-w b hb.1) in
    let no_z =
      text_beq-Free 119 (codes "all") (z ++ codes ":")
        (All-append _ z (codes ":") (Printed-w z hz.1) (refl, tt)) in
    rw (no_n, no_b, no_z) refl

after_arrow :
    (n b z w r c e : Text)
    → Figure n
    → Figure b
    → Figure z
    → Figure w
    → word_after (codes "->") (line_words n b z w r c e) ≡ some r
unfolding word_after
after_arrow n b z w r c e hn hb hz hw =
    let no_n = text_beq-second 45 62 [] n (Printed-greater n hn.1) in
    let no_b = text_beq-second 45 62 [] b (Printed-greater b hb.1) in
    let no_z =
      text_beq-second 45 62 [] (z ++ codes ":")
        (All-append _ z (codes ":") (Printed-greater z hz.1) (refl, tt)) in
    let no_w =
      text_beq-second 45 62 [] (w ++ codes "s")
        (All-append _ w (codes "s") (Printed-greater w hw.1) (refl, tt)) in
    rw (no_n, no_b, no_z, no_w) refl

after_streamer :
    (n b z w r c e : Text)
    → Figure n
    → Figure b
    → Figure z
    → Figure w
    → Figure r
    → word_after (codes "(streamer)") (line_words n b z w r c e) ≡ some c
unfolding word_after
after_streamer n b z w r c e hn hb hz hw hr =
    let rest = codes "streamer)" in
    let no_n = text_beq-Free 40 rest n (Printed-open n hn.1) in
    let no_b = text_beq-Free 40 rest b (Printed-open b hb.1) in
    let no_z =
      text_beq-Free 40 rest (z ++ codes ":")
        (All-append _ z (codes ":") (Printed-open z hz.1) (refl, tt)) in
    let no_w =
      text_beq-Free 40 rest (w ++ codes "s")
        (All-append _ w (codes "s") (Printed-open w hw.1) (refl, tt)) in
    let no_r = text_beq-Free 40 rest r (Printed-open r hr.1) in
    rw (no_n, no_b, no_z, no_w, no_r) refl

-- the words before the two blanks, and those after them but for the last one
abbrev words_before : Text → Text → Text → Text → Text → List Text
words_before n b z w r =
    codes "streamed"
    ∷ n
    ∷ codes "records"
    ∷ codes "in"
    ∷ b
    ∷ codes "batches"
    ∷ codes "of"
    ∷ (z ++ codes ":")
    ∷ codes "wall"
    ∷ (w ++ codes "s")
    ∷ codes "->"
    ∷ r
    ∷ codes "rec/s"
    ∷ codes "(streamer)"
    ∷ []

abbrev words_behind : Text → List Text
words_behind c = c ∷ codes "rec/s" ∷ codes "(coordinator," ∷ []

-- the line, from its words
abbrev line_from : Text → Text → Text → Text → Text → Text → Text → Text
line_from n b z w r c e =
    spaced (words_before n b z w r) (32 ∷ spaced (words_behind c) (e ++ codes "s)"))

split_words-blank : (s : Text) → split_words (32 ∷ s) ≡ split_words s
unfolding split_words split_from push_word is_space
split_words-blank s = refl

known : (s : Text) → some_text s ≡ true → is_key s ≡ true → Word s
known s there key = (there, (is_key-Solid s key).0)

Figure-only : (s : Text) → Figure s → Word s
Figure-only s h = (h.0, Printed-Solid s h.1)

words_before-Word :
    (n b z w r : Text)
    → Figure n
    → Figure b
    → Figure z
    → Figure w
    → Figure r
    → All Word (words_before n b z w r)
unfolding is_space
words_before-Word n b z w r hn hb hz hw hr = (
  known (codes "streamed") refl refl,
  (
    Figure-only n hn,
    (
      known (codes "records") refl refl,
      (
        known (codes "in") refl refl,
        (
          Figure-only b hb,
          (
            known (codes "batches") refl refl,
            (
              known (codes "of") refl refl,
              (
                Figure-Word z (codes ":") hz (refl, tt),
                (
                  known (codes "wall") refl refl,
                  (
                    Figure-Word w (codes "s") hw (refl, tt),
                    (
                      known (codes "->") refl refl,
                      (
                        Figure-only r hr,
                        (
                          known (codes "rec/s") refl refl,
                          (known (codes "(streamer)") refl refl, tt),
                        ),
                      ),
                    ),
                  ),
                ),
              ),
            ),
          ),
        ),
      ),
    ),
  ),
)

words_behind-Word : (c : Text) → Figure c → All Word (words_behind c)
unfolding is_space
words_behind-Word c hc = (
  Figure-only c hc,
  (known (codes "rec/s") refl refl, (known (codes "(coordinator,") refl refl, tt)),
)

split_words-line_from :
    (n b z w r c e : Text)
    → Figure n
    → Figure b
    → Figure z
    → Figure w
    → Figure r
    → Figure c
    → Figure e
    → split_words (line_from n b z w r c e) ≡ line_words n b z w r c e
unfolding is_space
split_words-line_from n b z w r c e hn hb hz hw hr hc he =
    let last = e ++ codes "s)" in
    let before = words_before n b z w r in
    let behind = words_behind c in
    split_words-spaced before (32 ∷ spaced behind last) (words_before-Word n b z w r hn hb hz hw hr)
    ∙ ap (λ x. before ++ x)
        (split_words-blank (spaced behind last)
          ∙ split_words-spaced behind last (words_behind-Word c hc)
          ∙ ap (λ x. behind ++ x)
              (split_words-only last (Figure-Word e (codes "s)") he ((refl, (refl, tt))))))

module _ (f : Floats) (m : Measures f.Float) where
  open f use {Float, of_text}
  open m use {format}

  streamed_line_lem :
      (s : Stats) (size : ℤ) (wall rate coord_rate elapsed : Float)
      → streamed_line f m s size wall rate coord_rate elapsed
        ≡ line_from
            (decimal s.records)
            (decimal s.batches)
            (int_text size)
            (format (codes ".2f") wall)
            (format (codes ",.0f") rate)
            (format (codes ",.0f") coord_rate)
            (format (codes ".2f") elapsed)
  unfolding streamed_line
  streamed_line_lem s size wall rate coord_rate elapsed = simp append_assoc refl

  -- The harness reads back what the streamer prints: the number of records exactly, and the time, the
  -- two rates and the time of the coordinator as `float` reads them, the rates without their commas.
  -- The four texts that are printed for them are assumed to be without blanks, brackets, `>`, `s` and
  -- `w`, as the formats `.2f` and `,.0f` without a width write them.
  pub read_streamed-streamed_line :
      (s : Stats) (size : ℤ) (wall rate coord_rate elapsed : Float)
      → Figure (format (codes ".2f") wall)
      → Figure (format (codes ",.0f") rate)
      → Figure (format (codes ",.0f") coord_rate)
      → Figure (format (codes ".2f") elapsed)
      → (w r c e : Float) → of_text (format (codes ".2f") wall) ≡ some w
      → of_text (without (codes ",") (format (codes ",.0f") rate)) ≡ some r
      → of_text (without (codes ",") (format (codes ",.0f") coord_rate)) ≡ some c
      → of_text (format (codes ".2f") elapsed) ≡ some e
      → read_streamed f (streamed_line f m s size wall rate coord_rate elapsed)
        ≡ some (record {
          records = pos s.records;
          wall = w;
          streamer_rps = r;
          coord_rps = c;
          coord_elapsed = e;
        })
  unfolding read_streamed Option.bind drop_in
  read_streamed-streamed_line s size wall rate coord_rate elapsed h_w h_r h_c h_e w r c e hw hr hc
        he =
      let n = decimal s.records in
      let b = decimal s.batches in
      let z = int_text size in
      let w_text = format (codes ".2f") wall in
      let r_text = format (codes ",.0f") rate in
      let c_text = format (codes ",.0f") coord_rate in
      let e_text = format (codes ".2f") elapsed in
      let hn = decimal-Figure s.records in
      let hb = decimal-Figure s.batches in
      let hz = int_text-Figure size in
      let toks : split_words (streamed_line f m s size wall rate coord_rate elapsed)
          ≡ line_words n b z w_text r_text c_text e_text =
        ap split_words (streamed_line_lem s size wall rate coord_rate elapsed)
        ∙ split_words-line_from n b z w_text r_text c_text e_text hn hb hz h_w h_r h_c h_e in
      rw
        (
          toks,
          int_of_text-decimal s.records,
          after_wall n b z w_text r_text c_text e_text hn hb hz,
          rstrip-append (codes "s") w_text (codes "s") (Printed-s w_text h_w.1) refl,
          hw,
          after_arrow n b z w_text r_text c_text e_text hn hb hz h_w,
          hr,
          after_streamer n b z w_text r_text c_text e_text hn hb hz h_w h_r,
          hc,
          rstrip-append (codes "s)") e_text (codes "s)") (Printed-s_close e_text h_e.1) refl,
          he,
        )
        refl
