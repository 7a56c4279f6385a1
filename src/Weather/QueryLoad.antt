-- ===== src/Weather/QueryLoad.antt =====
-- section2/q2_grpc/bench/query_load.py: clients that query the coordinator until they are stopped,
-- and the figures of their latencies. What the scheduler does is a list of turns.
pub mod Percentiles
pub mod Stops
use Prim.Native.Nat.{min}
use mathlib.Core.Option
use mathlib.Core.List.{flatten}
use dist_compute.Base.{
  ℕ, suc, ◌+◌, ◌-◌, Bool, true, false, not, ◌&&◌, ◌||◌, Option, none, some, List, [], ◌∷◌, ◌++◌,
  map, foldl, if◌then◌else◌, length, get_elem?, get_or, set, replicate,
}
use dist_compute.Base.Order.Sort.{sort_by}
use dist_compute.Base.Text.{Text, codes, decimal}
use dist_compute.Weather.Floats.{Floats, Measures}

-- what `client` appends: `(t1 - t0, r.stream_active, t0, t1)`
pub record Sample (F : Type 0) : Type 0 where
  pub latency : F
  pub active : Bool
  pub asked : F
  pub answered : F

-- where the thread of a client is: before the test of its loop, in its query, or at its end
pub data Phase : Type 0 where
  testing asking ended : Phase

-- the locals of `main` that the threads share
pub record Load (F : Type 0) : Type 0 where
  pub lat : List (List (Sample F))
  pub stop : Bool
  pub seen_active : Bool
  pub phases : List Phase

-- The options, with the deadline `t_start + a.duration` and the hour `t_start + 3600`.
pub record Options (F : Type 0) : Type 0 where
  pub until_complete : Bool
  pub deadline : F
  pub hour : F

-- Client `i` tests its loop; its query, asked and answered at two times, says whether the stream is
-- active and complete; or `main` wakes and looks at the clock, twice.
pub data Turn (F : Type 0) : Type 0 where
  tests : ℕ → Turn F
  answers : ℕ → F → F → Bool → Bool → Turn F
  wakes : F → F → Turn F

abbrev pub phase_of : List Phase → ℕ → Phase
phase_of phases i = get_or phases i ended

-- `[x for x in everything if x[1]]`
abbrev pub active_of : {F : Type 0} → List (Sample F) → List (Sample F)
active_of [] = []
active_of (x ∷ xs) = let rest = active_of xs in if x.active then x ∷ rest else rest

module _ (f : Floats) where
  open f use {Float, lt, sub, zero_float}

  unfoldable pub load : ℕ → Load Float
  load clients = record {
    lat = replicate clients [];
    stop = false;
    seen_active = false;
    phases = replicate clients testing;
  }

  -- `while not stop.is_set()`
  unfoldable pub test_loop : ℕ → Load Float → Load Float
  test_loop i l = elim (phase_of l.phases i) [
    | testing ↦ record l { phases = set l.phases i (if l.stop then ended else asking) }
    | asking ↦ l
    | ended ↦ l
  ]

  -- the body of the loop, from the answer on
  unfoldable pub take_answer : Options Float → ℕ → Sample Float → Bool → Load Float → Load Float
  take_answer o i sample complete l = elim (phase_of l.phases i) [
    | testing ↦ l
    | asking ↦
        let seen = l.seen_active || sample.active in
        record {
          lat = set l.lat i (get_or l.lat i [] ++ sample ∷ []);
          stop = l.stop || (o.until_complete && complete && seen);
          seen_active = seen;
          phases = set l.phases i testing;
        }
    | ended ↦ l
  ]

  -- One round of the loop of `main`, which sets `stop` when the loop is left.
  unfoldable pub wake : Options Float → Float → Float → Load Float → Load Float
  wake o now after l =
      let goes_on = o.until_complete || lt now o.deadline in
      let late = o.until_complete && lt o.hour after in
      record l { stop = l.stop || not goes_on || late }

  unfoldable pub turn : Options Float → Load Float → Turn Float → Load Float
  unfolding test_loop take_answer wake
  turn o l (tests i) = test_loop i l
  turn o l (answers i t₀ t₁ active complete) =
      let sample : Sample Float = record {
        latency = sub t₁ t₀;
        active = active;
        asked = t₀;
        answered = t₁;
      } in
      take_answer o i sample complete l
  turn o l (wakes now after) = wake o now after l

  unfoldable pub turns : Options Float → List (Turn Float) → Load Float → Load Float
  unfolding turn
  turns o ts l = foldl (turn o) l ts

  module _ (m : Measures Float) where
    open m use {format, mean, milli, portion, half, p95, p99, nano}

    -- `s[min(n - 1, int(p * n))] * 1e3` of a sorted list; `none` is the IndexError
    unfoldable pub pct : List Float → Float → Option Float
    pct s p = let n = length s in Option.map milli (get_elem? s (min (n - 1) (portion p n)))

    -- the figures of a line, in milliseconds
    pub record Figures : Type 0 where
      pub average : Float
      pub p50_ms : Float
      pub p95_ms : Float
      pub p99_ms : Float
      pub max_ms : Float

    unfoldable pub figures_of :
        List Float → Option Float → Option Float → Option Float → Option Float → Option Figures
    figures_of s (some a) (some b) (some c) (some d) =
        some (record { average = milli (mean s); p50_ms = a; p95_ms = b; p99_ms = c; max_ms = d })
    figures_of s _ _ _ _ = none

    -- `s`, and the figures that `report` prints of it, where there are any samples
    unfoldable pub latencies : List (Sample Float) → List Float
    latencies samples = sort_by lt (map (λ x. x.latency) samples)

    unfoldable pub figures : List Float → Option Figures
    unfolding figures_of pct
    figures s =
        figures_of s (pct s half) (pct s p95) (pct s p99)
          (Option.map milli (get_elem? s (length s - 1)))

    unfoldable pub figures_text : Figures → Text
    figures_text g =
        codes " latency ms: mean="
        ++ format (codes ".1f") g.average
        ++ codes " p50="
        ++ format (codes ".1f") g.p50_ms
        ++ codes " p95="
        ++ format (codes ".1f") g.p95_ms
        ++ codes " p99="
        ++ format (codes ".1f") g.p99_ms
        ++ codes " max="
        ++ format (codes ".1f") g.max_ms

    unfoldable pub line_of_report : Text → ℕ → ℕ → Float → Float → Figures → Text
    unfolding figures_text
    line_of_report label clients n span rate g =
        label
        ++ codes " clients="
        ++ decimal clients
        ++ codes " queries="
        ++ decimal n
        ++ codes " wall="
        ++ format (codes ".1f") span
        ++ codes "s qps="
        ++ format (codes ".1f") rate
        ++ figures_text g

    -- `report`, the line that it prints
    unfoldable pub report : Text → ℕ → List (Sample Float) → Float → Option Text
    unfolding latencies figures line_of_report
    report label clients [] span =
        some (label ++ codes " clients=" ++ decimal clients ++ codes " queries=0")
    report label clients (x ∷ xs) span =
        let n = length (x ∷ xs) in
        Option.map (line_of_report label clients n span (f.quotient n span))
          (figures (latencies (x ∷ xs)))

    -- `max` and `min` of a list that is not empty
    unfoldable pub greatest : Float → List Float → Float
    greatest = foldl (λ a b. if lt a b then b else a)

    unfoldable pub least : Float → List Float → Float
    least = foldl (λ a b. if lt b a then b else a)

    -- `max(active_span, 1e-9)` for the samples taken while the stream was active
    unfoldable pub active_span : List (Sample Float) → Float
    unfolding greatest least
    active_span [] = greatest zero_float (nano ∷ [])
    active_span (x ∷ xs) =
        greatest
          (sub (greatest x.answered (map (λ y. y.answered) xs))
            (least x.asked (map (λ y. y.asked) xs)))
          (nano ∷ [])

    -- how `main` ends; its last lines use names that only `report` binds
    pub data Exit : Type 0 where
      returns name_error : Exit

    -- `if a.csv`
    unfoldable pub exit_of : Text → Exit
    exit_of [] = returns
    exit_of (c ∷ csv) = name_error

    -- the end of `main` on the samples of all clients, `everything`
    unfoldable pub summary_of : ℕ → Text → Float → List (Sample Float) → Option (List Text) × Exit
    unfolding report active_span exit_of
    summary_of clients csv wall [] = (some (codes "no queries completed" ∷ []), returns)
    summary_of clients csv wall (x ∷ xs) =
        let active = active_of (x ∷ xs) in
        (
          Option.bind (report (codes "all") clients (x ∷ xs) wall) (λ a.
              Option.map (λ b. a ∷ b ∷ [])
                (report (codes "active") clients active (active_span active))),
          exit_of csv,
        )

    -- The end of `main`: the lines that it prints, `none` for an IndexError. The CSV file is opened
    -- for `--csv`, and the row that is to be written then raises NameError.
    unfoldable pub summary : ℕ → Text → Float → Load Float → Option (List Text) × Exit
    unfolding summary_of
    summary clients csv wall l = summary_of clients csv wall (flatten l.lat)
