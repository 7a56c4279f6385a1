-- ===== src/Weather/Bench/Outputs.antt =====
-- section2/q2_grpc/bench/bench.py: what is read from the output of the processes, and the run of a
-- configuration.
use mathlib.Core.Option
use dist_compute.Base.{
  ℕ, zero, suc, ◌+◌, Bool, true, false, not, ◌&&◌, Option, none, some, List, [], ◌∷◌, ◌++◌,
  if◌then◌else◌, get_last?,
}
use dist_compute.Base.Dict.{Dict, lookup, insert}
use dist_compute.Base.Int.{ℤ}
use dist_compute.Base.Text.{Text, codes, text_beq, text_eq, strip}
use dist_compute.Base.Text.Parse.{split_words, int_of_text}
use dist_compute.Base.Text.Find.{starts_with, occurs, without, split_on, rstrip}
use dist_compute.Weather.Floats.{Floats}

-- `[l for l in ls if p(l)]`
unfoldable pub lines_with : (Text → Bool) → List Text → List Text
lines_with p [] = []
lines_with p (l ∷ ls) = let rest = lines_with p ls in if p l then l ∷ rest else rest

-- `xs[0]`
abbrev pub first_of : List Text → Option Text
first_of [] = none
first_of (x ∷ xs) = some x

-- `toks[toks.index(w) + 1]`, `none` for the ValueError and the IndexError
unfoldable pub word_after : Text → List Text → Option Text
word_after w [] = none
word_after w (x ∷ xs) = if text_beq x w then first_of xs else word_after w xs

-- `t.split("=")` as an item for `dict`, which takes pairs only
unfoldable pub pair_of : List Text → Option (Text × Text)
pair_of (k ∷ v ∷ []) = some (k, v)
pair_of _ = none

-- `dict(t.split("=") for t in words if "=" in t)`, added to `d`
unfoldable pub pairs_of : Dict Text Text → List Text → Option (Dict Text Text)
unfolding pair_of
pairs_of d [] = some d
pairs_of d (t ∷ ts) =
    if occurs (codes "=") t
    then Option.bind (pair_of (split_on 61 t)) (λ x. pairs_of (insert x.0 x.1 d) ts)
    else pairs_of d ts

-- `[kv[k] for k in ks]`
unfoldable pub values_of : Dict Text Text → List Text → Option (List Text)
values_of d [] = some []
values_of d (k ∷ ks) = Option.bind (lookup k d) λ v. Option.map (λ vs. v ∷ vs) (values_of d ks)

-- the keys of the figures that are kept
abbrev pub stat_keys : List Text
stat_keys =
    codes "queries" ∷ codes "qps" ∷ codes "mean" ∷ codes "p50" ∷ codes "p95" ∷ codes "p99" ∷ []

-- the figures of the line that was picked
unfoldable pub line_stats : Text → Option (List Text)
unfolding pairs_of values_of
line_stats line =
    Option.bind (pairs_of [] (split_words (without (codes "latency ms: ") line)))
      (λ kv. values_of kv stat_keys)

-- the lines on the queries in the stream, those without any left out, or else those on all queries
unfoldable pub pick_of : List Text → List Text → List Text
pick_of [] all = all
pick_of (l ∷ ls) all = l ∷ ls

unfoldable pub pick : List Text → List Text
unfolding pick_of lines_with
pick lines =
    pick_of
      (lines_with (λ l. starts_with (codes "active ") l && not (occurs (codes "queries=0") l))
        lines)
      (lines_with (starts_with (codes "all ")) lines)

abbrev pub no_stats : List Text
no_stats = [] ∷ [] ∷ [] ∷ [] ∷ [] ∷ [] ∷ []

-- the figures of the first of the lines
abbrev pub stats_of : List Text → Option (List Text)
stats_of [] = some no_stats
stats_of (l ∷ ls) = line_stats l

-- `qstats` from the lines of the log of the query clients
unfoldable pub query_stats : List Text → Option (List Text)
unfolding pick
query_stats lines = stats_of (pick lines)

-- The last of at most `k + 1` attempts from attempt `i` on, which go on while the output is blank.
unfoldable pub last_attempt : ℕ → ℕ → (ℕ → Text) → Text
last_attempt zero i out = out i
last_attempt (suc k) i out =
    let more = last_attempt k (i + 1) out in elim (strip (out i)) [ [] ↦ more | c ∷ s ↦ out i ]

-- what the processes of a configuration answer: whether a port opens, the output of the streamer, of
-- the attempts to get the final report and of `--raw`, and the log of the query clients; with the
-- content of the expected report, if there is one, and the time on the clock at the end
pub record Answers (F : Type 0) : Type 0 where
  pub opens : Text → Bool
  pub streamed : Text
  pub final : ℕ → Text
  pub raw : Text
  pub query_log : Text
  pub expected : Option Text
  pub e2e : F

-- `match`
unfoldable pub match_of : Text → Option Text → Text
match_of out none = []
match_of out (some expected) = if text_beq out expected then codes "yes" else codes "NO"

-- `h, p = adr.split(":")` has two values to take
unfoldable pub is_pair : List Text → Bool
is_pair (h ∷ p ∷ []) = true
is_pair _ = false

-- whether each of the ports opens
unfoldable pub all_open : (Text → Bool) → List Text → Bool
unfolding is_pair
all_open opens [] = true
all_open opens (adr ∷ adrs) = is_pair (split_on 58 adr) && opens adr && all_open opens adrs

module _ (f : Floats) where
  open f use {Float, of_text, zero_float, add, lt}

  -- what is read from the line of the streamer
  pub record Streamed : Type 0 where
    pub records : ℤ
    pub wall : Float
    pub streamer_rps : Float
    pub coord_rps : Float
    pub coord_elapsed : Float

  -- `float(l.split(":")[1])`
  unfoldable pub value_of : Text → Option Float
  value_of l = Option.bind (word_after_colon (split_on 58 l)) of_text
    where
      word_after_colon : List Text → Option Text
      word_after_colon (a ∷ b ∷ rest) = some b
      word_after_colon _ = none

  unfoldable pub read_streamed : Text → Option Streamed
  read_streamed line =
      let toks = split_words line in
      Option.bind (Option.bind (first_of (tail_of toks)) int_of_text) λ records.
        Option.bind
          (Option.bind (word_after (codes "wall") toks) λ t. of_text (rstrip (codes "s") t))
          λ wall.
            Option.bind
              (Option.bind (word_after (codes "->") toks) λ t. of_text (without (codes ",") t))
              λ s_rps.
                Option.bind
                  (Option.bind (word_after (codes "(streamer)") toks)
                    λ t. of_text (without (codes ",") t))
                  λ c_rps.
                    Option.map
                      (λ c_el. record {
                        records = records;
                        wall = wall;
                        streamer_rps = s_rps;
                        coord_rps = c_rps;
                        coord_elapsed = c_el;
                      })
                      (Option.bind (get_last? toks) λ t. of_text (rstrip (codes "s)") t))
    where
      tail_of : List Text → List Text
      tail_of [] = []
      tail_of (x ∷ xs) = xs

  -- `grab`, on the lines of the raw answer
  unfoldable pub grab : Text → List Text → Option Float
  grab key [] = some zero_float
  grab key (l ∷ ls) =
      let rest = grab key ls in if starts_with (key ++ 58 ∷ []) (strip l) then value_of l else rest

  -- the loop over the lines of the raw answer, with `block`, `wcpu` and `wrss` so far
  unfoldable pub scan : (Float → Float) → Bool → Float × Float → List Text → Option (Float × Float)
  unfolding value_of
  scan mib block (cpu, rss) [] = some (cpu, rss)
  scan mib block (cpu, rss) (l ∷ ls) =
      let s = strip l in
      if starts_with (codes "workers {") s
      then scan mib true (cpu, rss) ls
      else if block && starts_with (codes "cpu_seconds:") s
      then Option.bind (value_of s) (λ x. scan mib block (add cpu x, rss) ls)
      else if block && starts_with (codes "rss_bytes:") s
      then Option.bind (value_of s)
          (λ x. scan mib block (cpu, (if lt rss (mib x) then mib x else rss)) ls)
      else scan mib block (cpu, rss) ls
