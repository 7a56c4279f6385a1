-- ===== src/Weather/Bench/QueryLog.antt =====
-- The figures that section2/q2_grpc/bench/bench.py takes from the lines that
-- section2/q2_grpc/bench/query_load.py prints.
use mathlib.Core.Option
use mathlib.Core.List.{append_assoc, append-nil, flatten}
use dist_compute.Base.{
  ℕ, zero, suc, ◌+◌, ◌/◌, ◌<◌, ◌≡◌, ◌≢◌, refl, ap, sym, ◌∙◌, Bool, true, false, some, List, [], ◌∷◌,
  ◌++◌, arith, nat_beq, ltb, length, inl, inr, Bool-cases,
}
use dist_compute.Base.Text.{Text, codes, decimal, digits, is_space}
use dist_compute.Base.Text.Find.{occurs, starts_with}
use dist_compute.Base.Text.Find.Pieces.{occurs-Free}
use dist_compute.Weather.Floats.{Floats, FloatLaws, Measures, MeasuresLaws}
use dist_compute.Weather.QueryLoad.{
  Sample, Load, active_of, Figures, figures, figures_text, line_of_report, latencies, report,
  active_span, summary, summary_of,
}
use dist_compute.Weather.QueryLoad.Percentiles.{figures_ordered}
use dist_compute.Weather.Bench.Figures.{
  Plain, Plain-q, decimal-Plain, tail_line, taken_out, line_stats-tail_line,
}
use dist_compute.Weather.Bench.Outputs.{
  lines_with, pick, pick_of, query_stats, line_stats, stats_of,
}

-- a positive number is not written with a leading zero
digits-positive :
    (f n : ℕ) (acc : Text)
    → 0 < n
    → n < f
    → (d : ℕ) × (s : Text) × (digits f n acc ≡ d ∷ s) × (nat_beq 48 d ≡ false)
unfolding digits
digits-positive zero n acc h enough = absurd (omega arith)
digits-positive (suc f) n acc h enough = elim (Bool-cases (ltb n 10)) [
  | inl small ↦ rw small (48 + n, acc, refl, ground (arith, h))
  | inr big ↦ rw big (digits-positive f (n / 10) _ (ground (arith, big)) (ground (arith, big)))
]

decimal-positive :
    (n : ℕ) → (d : ℕ) × (s : Text) × (decimal (suc n) ≡ d ∷ s) × (nat_beq 48 d ≡ false)
unfolding decimal
decimal-positive n = digits-positive (suc (suc n)) (suc n) [] (omega arith) (omega arith)

-- `"queries=0" in s`
without_queries : Text → Bool
without_queries = occurs (codes "queries=0")

skips : (p s : Text) → Plain p → without_queries (p ++ s) ≡ without_queries s
unfolding without_queries
skips p s h = occurs-Free 113 (codes "ueries=0") p s (Plain-q p h)

positive-skips :
    (d : ℕ) (p s : Text)
    → nat_beq 48 d ≡ false
    → Plain (d ∷ p)
    → without_queries (codes " queries=" ++ ((d ∷ p) ++ s)) ≡ without_queries s
unfolding without_queries occurs
positive-skips d p s h plain = rw h (skips (d ∷ p) s plain)

tail_line-queries :
    (c : Text) (k : ℕ) (w r a b d e m : Text)
    → Plain c
    → Plain w
    → Plain r
    → Plain a
    → Plain b
    → Plain d
    → Plain e
    → Plain m
    → without_queries (tail_line c (decimal (suc k)) w r a b d e m) ≡ false
unfolding without_queries occurs
tail_line-queries c k w r a b d e m hc hw hr ha hb hd he hm =
    let (x, u, eq, nonzero) = decimal-positive k in
    let plain : Plain (x ∷ u) = rw eq at (decimal-Plain (suc k)) in
    skips c _ hc
    ∙ ap
        (λ n. without_queries (
          codes " queries="
          ++ (n
              ++ (codes " wall="
                  ++ (w
                      ++ (codes "s qps="
                          ++ (r
                              ++ (codes " latency ms: mean="
                                  ++ (a
                                      ++ (codes " p50="
                                          ++ (b
                                              ++ (codes " p95="
                                                  ++ (d
                                                      ++ (codes " p99="
                                                          ++ (e
                                                            ++ (codes " max=" ++ m))))))))))))))))
        eq
    ∙ positive-skips x u _ nonzero plain
    ∙ skips w _ hw
    ∙ skips r _ hr
    ∙ skips a _ ha
    ∙ skips b _ hb
    ∙ skips d _ hd
    ∙ skips e _ he
    ∙ ap without_queries (sym (append-nil m))
    ∙ skips m [] hm

-- the samples that count: those in the stream, or all when there are none
pub shown : {F : Type 0} → List (Sample F) → List (Sample F) → List (Sample F)
shown [] everything = everything
shown (x ∷ xs) everything = x ∷ xs

pick-active :
    (a b : Text)
    → starts_with (codes "active ") a ≡ false
    → starts_with (codes "active ") b ≡ true
    → without_queries b ≡ false
    → pick (a ∷ b ∷ []) ≡ b ∷ []
unfolding pick pick_of lines_with without_queries
pick-active a b other active some_queries = rw (other, active, some_queries) refl

pick-all :
    (a b : Text)
    → starts_with (codes "active ") a ≡ false
    → starts_with (codes "all ") a ≡ true
    → starts_with (codes "all ") b ≡ false
    → starts_with (codes "active ") b ≡ true
    → without_queries b ≡ true
    → pick (a ∷ b ∷ []) ≡ a ∷ []
unfolding pick pick_of lines_with without_queries
pick-all a b other all active in_stream no_queries =
    rw (other, all, active, in_stream, no_queries) refl

first_rest : {A : Type 0} (xs : List A) → xs ≢ [] → (x : A) × (rest : List A) × (xs ≡ x ∷ rest)
first_rest [] some_there = absurd (some_there refl)
first_rest (x ∷ xs) some_there = (x, xs, refl)

module _ (f : Floats) (m : Measures f.Float) (laws : FloatLaws f)
    (rounding : MeasuresLaws f m) where
  open f use {Float, quotient}
  open m use {format}

  -- the time over which they were taken
  pub shown_span : Float → List (Sample Float) → Float
  shown_span wall [] = wall
  shown_span wall (x ∷ xs) = active_span f m (x ∷ xs)

  -- the texts of the number of queries, of their rate, and of the mean and the percentiles
  pub figure_texts : ℕ → Float → Figures f m → List Text
  figure_texts n rate g =
      decimal n
      ∷ format (codes ".1f") rate
      ∷ format (codes ".1f") g.average
      ∷ format (codes ".1f") g.p50_ms
      ∷ format (codes ".1f") g.p95_ms
      ∷ format (codes ".1f") g.p99_ms
      ∷ []

  abbrev tail_of : ℕ → ℕ → Float → Float → Figures f m → Text
  tail_of clients n span rate g =
      tail_line (decimal clients) (decimal n) (format (codes ".1f") span)
        (format (codes ".1f") rate) (format (codes ".1f") g.average) (format (codes ".1f") g.p50_ms)
        (format (codes ".1f") g.p95_ms) (format (codes ".1f") g.p99_ms)
        (format (codes ".1f") g.max_ms)

  line_of_report_lem :
      (label : Text) (clients n : ℕ) (span rate : Float) (g : Figures f m)
      → line_of_report f m label clients n span rate g ≡ label ++ tail_of clients n span rate g
  unfolding line_of_report figures_text
  line_of_report_lem label clients n span rate g = simp append_assoc refl

  module _ (plain : (x : Float) → Plain (format (codes ".1f") x)) where
    stats_all :
        (clients n : ℕ) (span rate : Float) (g : Figures f m)
        → line_stats (line_of_report f m (codes "all") clients n span rate g)
          ≡ some (figure_texts n rate g)
    unfolding figure_texts occurs taken_out is_space
    stats_all clients n span rate g =
        ap line_stats (line_of_report_lem (codes "all") clients n span rate g)
        ∙ line_stats-tail_line 97 (codes "ll") _ _ _ _ _ _ _ _ _ refl refl (λ s. refl)
            (decimal-Plain clients) (decimal-Plain n) (plain span) (plain rate) (plain g.average)
            (plain g.p50_ms) (plain g.p95_ms) (plain g.p99_ms) (plain g.max_ms)

    stats_active :
        (clients n : ℕ) (span rate : Float) (g : Figures f m)
        → line_stats (line_of_report f m (codes "active") clients n span rate g)
          ≡ some (figure_texts n rate g)
    unfolding figure_texts occurs taken_out is_space
    stats_active clients n span rate g =
        ap line_stats (line_of_report_lem (codes "active") clients n span rate g)
        ∙ line_stats-tail_line 97 (codes "ctive") _ _ _ _ _ _ _ _ _ refl refl (λ s. refl)
            (decimal-Plain clients) (decimal-Plain n) (plain span) (plain rate) (plain g.average)
            (plain g.p50_ms) (plain g.p95_ms) (plain g.p99_ms) (plain g.max_ms)

    active_line-queries :
        (clients n : ℕ) (span rate : Float) (g : Figures f m)
        → without_queries (line_of_report f m (codes "active") clients (suc n) span rate g) ≡ false
    unfolding without_queries occurs
    active_line-queries clients n span rate g =
        ap without_queries (line_of_report_lem (codes "active") clients (suc n) span rate g)
        ∙ tail_line-queries (decimal clients) n _ _ _ _ _ _ _ (decimal-Plain clients) (plain span)
            (plain rate) (plain g.average) (plain g.p50_ms) (plain g.p95_ms) (plain g.p99_ms)
            (plain g.max_ms)

    idle_line-queries :
        (clients : ℕ)
        → without_queries
            (codes "active" ++ codes " clients=" ++ decimal clients ++ codes " queries=0")
          ≡ true
    unfolding without_queries occurs
    idle_line-queries clients =
        ap without_queries
          (append_assoc (codes "active clients=") (decimal clients) (codes " queries=0"))
        ∙ skips (decimal clients) (codes " queries=0") (decimal-Plain clients)

    starts_all :
        (clients n : ℕ) (span rate : Float) (g : Figures f m)
        → let a = line_of_report f m (codes "all") clients n span rate g in
          (starts_with (codes "active ") a ≡ false) × (starts_with (codes "all ") a ≡ true)
    starts_all clients n span rate g =
        rw (line_of_report_lem (codes "all") clients n span rate g) (refl, refl)

    starts_active :
        (clients n : ℕ) (span rate : Float) (g : Figures f m)
        → starts_with (codes "active ") (line_of_report f m (codes "active") clients n span rate g)
          ≡ true
    starts_active clients n span rate g =
        rw (line_of_report_lem (codes "active") clients n span rate g) refl

    -- the two lines, and what is read from them
    printed :
        (clients : ℕ) (wall : Float) (x : Sample Float) (xs act : List (Sample Float))
        → let s = shown act (x ∷ xs) in
          (lines : List Text) × (Option.bind (report f m (codes "all") clients (x ∷ xs) wall) (λ a.
              Option.map
                (λ b. a ∷ b ∷ [])
                (report f m (codes "active") clients act (active_span f m act)))
            ≡ some lines)
          × (g : Figures f m) × (figures f m (latencies f m s) ≡ some g)
          × (query_stats lines
              ≡ some (figure_texts (length s) (quotient (length s) (shown_span wall act)) g))
    unfolding report query_stats Option.bind shown shown_span
    printed clients wall x xs [] =
        let n = length (x ∷ xs) in
        let (g, at, _, _, _, _) = figures_ordered f m laws rounding (x ∷ xs) (λ e. cc) in
        let rate = quotient n wall in
        let a = line_of_report f m (codes "all") clients n wall rate g in
        let b = codes "active" ++ codes " clients=" ++ decimal clients ++ codes " queries=0" in
        let (other, all) = starts_all clients n wall rate g in
        (
          a ∷ b ∷ [],
          rw at refl,
          g,
          at,
          ap stats_of (pick-all a b other all refl refl (idle_line-queries clients))
              ∙ stats_all clients n wall rate g,
        )
    printed clients wall x xs (y ∷ ys) =
        let n = length (x ∷ xs) in
        let k = length (y ∷ ys) in
        let span = active_span f m (y ∷ ys) in
        let (g, at, _, _, _, _) = figures_ordered f m laws rounding (x ∷ xs) (λ e. cc) in
        let (h, there, _, _, _, _) = figures_ordered f m laws rounding (y ∷ ys) (λ e. cc) in
        let a = line_of_report f m (codes "all") clients n wall (quotient n wall) g in
        let b = line_of_report f m (codes "active") clients k span (quotient k span) h in
        (
          a ∷ b ∷ [],
          rw (at, there) refl,
          h,
          there,
          ap stats_of (
                pick-active a b (starts_all clients n wall (quotient n wall) g).0
                  (starts_active clients k span (quotient k span) h)
                  (active_line-queries clients (length ys) span (quotient k span) h))
              ∙ stats_active clients k span (quotient k span) h,
        )

    -- What bench.py takes from the log of the query clients: once any query was answered, query_load.py
    -- prints its two lines, and `qstats` is the number, the rate, the mean and the percentiles of the
    -- queries that were answered while the stream was active, or of all queries when there were none
    -- of these. A float in one decimal is assumed to be written without blanks, `=`, `l` and `q`.
    pub query_stats-summary :
        (clients : ℕ) (csv : Text) (wall : Float) (l : Load Float)
        → flatten l.lat ≢ []
        → let act = active_of (flatten l.lat) in
          let s = shown act (flatten l.lat) in
          (lines : List Text) × ((summary f m clients csv wall l).0 ≡ some lines)
          × (g : Figures f m) × (figures f m (latencies f m s) ≡ some g)
          × (query_stats lines
              ≡ some (figure_texts (length s) (quotient (length s) (shown_span wall act)) g))
    unfolding summary summary_of
    query_stats-summary clients csv wall l some_queries =
        let (x, xs, e) = first_rest (flatten l.lat) some_queries in
        rw e (printed clients wall x xs (active_of (x ∷ xs)))
