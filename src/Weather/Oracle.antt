-- ===== src/Weather/Oracle.antt =====
-- The reference program `q8_from hw2/scripts/oracle.py`, which computes the same report from all
-- records at once. `math.fsum` is a parameter.
pub mod Agrees
use mathlib.Core.Option
use dist_compute.Base.{
  ℕ, ◌+◌, Bool, true, false, not, ◌&&◌, ◌||◌, Option, none, some, List, [], ◌∷◌, ◌++◌, map, foldl,
  ltb, nat_beq, if◌then◌else◌, length, take,
}
use dist_compute.Base.Dict.{Dict, lookup, insert}
use dist_compute.Base.Int.{ℤ, pos, ltb_ℤ, beq_ℤ, int_eq, floor_div, pos_part, slice_end}
use dist_compute.Base.Order.{flip, lex}
use dist_compute.Base.Text.{Text, codes, decimal}
use dist_compute.Base.Text.Parse.{split_words}
use dist_compute.Weather.Floats.{Floats}
use dist_compute.Weather.Data.{Row}
use dist_compute.Weather.Accum.{or_zero}
use dist_compute.Weather.Dataset.{Header, Line, other, bad, row, row_of, line_of_row, read_header}
use dist_compute.Weather.Report.{StationRow, sort_rows, int_text, station_line}

-- an entry `[count, temps, rainfalls]` of `st`
pub record Readings (F : Type 0) : Type 0 where
  pub count : ℕ
  pub temps : List F
  pub rains : List F

-- the locals of `main` that the loop over the lines changes; a candidate is `(t, (ts, sid))`
pub record Tallies (F : Type 0) : Type 0 where
  pub count : ℕ
  pub t_vals : List F
  pub h_vals : List F
  pub p_vals : List F
  pub rain_vals : List F
  pub wind_vals : List F
  pub extreme : ℕ
  pub hottest : Option (F × (ℤ × ℤ))
  pub coldest : Option (F × (ℤ × ℤ))
  pub st : Dict ℤ (Readings F)
  pub intervals : Dict ℤ ℕ

pub no_tallies : {F : Type 0} → Tallies F
no_tallies = record {
  count = 0;
  t_vals = [];
  h_vals = [];
  p_vals = [];
  rain_vals = [];
  wind_vals = [];
  extreme = 0;
  hottest = none;
  coldest = none;
  st = [];
  intervals = [];
}

-- an entry of the `defaultdict`
pub readings : {F : Type 0} → Option (Readings F) → Readings F
readings none = record { count = 0; temps = []; rains = [] }
readings (some e) = e

module _ (f : Floats) where
  open f use {Float, zero_float, forty, lt, le, eq, div, fixed2}

  -- `(-cand[0], cand[1], cand[2]) < (-hottest[0], hottest[1], hottest[2])`: the sign turns the order
  abbrev pub warmer : Float × (ℤ × ℤ) → Float × (ℤ × ℤ) → Bool
  warmer = lex (flip lt) eq (lex ltb_ℤ beq_ℤ ltb_ℤ)

  abbrev pub cooler : Float × (ℤ × ℤ) → Float × (ℤ × ℤ) → Bool
  cooler = lex lt eq (lex ltb_ℤ beq_ℤ ltb_ℤ)

  -- `if best is None or cand < best: best = cand`
  abbrev pub improve :
      (Float × (ℤ × ℤ) → Float × (ℤ × ℤ) → Bool)
      → Option (Float × (ℤ × ℤ))
      → Float × (ℤ × ℤ)
      → Option (Float × (ℤ × ℤ))
  improve before none cand = some cand
  improve before (some best) cand = if before cand best then some cand else some best

  pub add_reading : Dict ℤ (Readings Float) → Row Float → Dict ℤ (Readings Float)
  unfolding readings
  add_reading st r =
      let e = readings (lookup r.sid st) in
      insert r.sid
        (record {
          count = e.count + 1;
          temps = e.temps ++ r.temp ∷ [];
          rains = e.rains ++ r.rain ∷ [];
        })
        st

  -- one round of the loop over the lines, from `count += 1` on
  pub tally_row : Tallies Float → Row Float → Tallies Float
  unfolding add_reading
  tally_row t r =
      let cand : Float × (ℤ × ℤ) = (r.temp, (r.ts, r.sid)) in
      let bucket = floor_div r.ts 60 in
      record {
        count = t.count + 1;
        t_vals = t.t_vals ++ r.temp ∷ [];
        h_vals = t.h_vals ++ r.hum ∷ [];
        p_vals = t.p_vals ++ r.pres ∷ [];
        rain_vals = t.rain_vals ++ r.rain ∷ [];
        wind_vals = t.wind_vals ++ r.wind ∷ [];
        extreme = t.extreme + (if le forty r.temp || le r.temp zero_float then 1 else 0);
        hottest = improve warmer t.hottest cand;
        coldest = improve cooler t.coldest cand;
        st = add_reading t.st r;
        intervals = insert bucket (or_zero (lookup bucket t.intervals) + 1) t.intervals;
      }

  -- a line counts if it has seven fields or more, of which the first seven are read
  fields : List Text → Line f
  fields (a ∷ b ∷ c ∷ d ∷ e ∷ g ∷ h ∷ more) = line_of_row f (row_of f a b c d e g h)
  fields _ = other

  -- the loop; `none` stands for the ValueError of a field that is no number
  pub tally_lines : Tallies Float → List Text → Option (Tallies Float)
  unfolding tally_row fields
  tally_lines t [] = some t
  tally_lines t (line ∷ lines) = elim (fields (split_words line)) [
    | other ↦ tally_lines t lines
    | bad ↦ none
    | row r ↦ tally_lines (tally_row t r) lines
  ]

  -- `min(vals, default=0.0)` and `max(vals, default=0.0)`
  pub least : List Float → Float
  least [] = zero_float
  least (x ∷ xs) = foldl (λ m y. if lt y m then y else m) x xs

  pub greatest : List Float → Float
  greatest [] = zero_float
  greatest (x ∷ xs) = foldl (λ m y. if lt m y then y else m) x xs

  max_count : Dict ℤ ℕ → ℕ
  max_count = foldl (λ m (x : ℤ × ℕ). if ltb m x.1 then x.1 else m) 0

  -- the smallest interval with that count
  first_with : ℕ → Option ℤ → Dict ℤ ℕ → Option ℤ
  first_with c best [] = best
  first_with c none ((i, n) ∷ d) = first_with c (if nat_beq n c then some i else none) d
  first_with c (some b) ((i, n) ∷ d) =
      first_with c (if nat_beq n c && ltb_ℤ i b then some i else some b) d

  -- the busiest interval and its count, `(0, 0)` if there is none
  pub busiest_of : Dict ℤ ℕ → ℤ × ℕ
  unfolding max_count first_with
  busiest_of d = let c = max_count d in (Option.get_or (first_with c none d) (pos 0), c)

  module _ (fsum : List Float → Float) where
    pub rows_of : Dict ℤ (Readings Float) → List (StationRow Float)
    rows_of [] = []
    rows_of ((sid, v) ∷ st) =
        let rest = rows_of st in
        if ltb 0 v.count
        then record {
          station = sid;
          count = v.count;
          avg_temp = div (fsum v.temps) v.count;
          total_rain = fsum v.rains;
        }
          ∷ rest
        else rest

    candidate_line : Option (Float × (ℤ × ℤ)) → Text
    candidate_line none = fixed2 zero_float ++ codes " 0 0"
    candidate_line (some (t, (ts, sid))) =
        fixed2 t ++ codes " " ++ int_text sid ++ codes " " ++ int_text ts

    -- the lines of the report; `rows[:k]` counts a negative `k` from the end
    pub oracle_lines : ℤ → Tallies Float → List Text
    unfolding least greatest busiest_of rows_of candidate_line
    oracle_lines k t =
        let zero = nat_beq t.count 0 in
        let mean : List Float → Float =
          λ vals. if zero then zero_float else div (fsum vals) t.count in
        let (bid, bcount) = busiest_of t.intervals in
        let rows = sort_rows (rows_of t.st) in
        ((codes "TOTAL_MEASUREMENTS " ++ decimal t.count)
          ∷ (codes "AVERAGE_TEMPERATURE " ++ fixed2 (mean t.t_vals))
          ∷ (codes "MIN_TEMPERATURE " ++ fixed2 (least t.t_vals))
          ∷ (codes "MAX_TEMPERATURE " ++ fixed2 (greatest t.t_vals))
          ∷ (codes "AVERAGE_HUMIDITY " ++ fixed2 (mean t.h_vals))
          ∷ (codes "MIN_HUMIDITY " ++ fixed2 (least t.h_vals))
          ∷ (codes "MAX_HUMIDITY " ++ fixed2 (greatest t.h_vals))
          ∷ (codes "AVERAGE_PRESSURE " ++ fixed2 (mean t.p_vals))
          ∷ (codes "MIN_PRESSURE " ++ fixed2 (least t.p_vals))
          ∷ (codes "MAX_PRESSURE " ++ fixed2 (greatest t.p_vals))
          ∷ (codes "TOTAL_RAINFALL " ++ fixed2 (fsum t.rain_vals))
          ∷ (codes "MAX_RAINFALL " ++ fixed2 (greatest t.rain_vals))
          ∷ (codes "AVERAGE_WIND_SPEED " ++ fixed2 (mean t.wind_vals))
          ∷ (codes "MAX_WIND_SPEED " ++ fixed2 (greatest t.wind_vals))
          ∷ (codes "EXTREME_TEMPERATURE_EVENTS " ++ decimal t.extreme)
          ∷ (codes "HOTTEST_MEASUREMENT " ++ candidate_line t.hottest)
          ∷ (codes "COLDEST_MEASUREMENT " ++ candidate_line t.coldest)
          ∷ (codes "BUSIEST_INTERVAL " ++ int_text bid ++ codes " " ++ decimal bcount)
          ∷ codes "TOP_STATIONS"
          ∷ [])
        ++ map (station_line f) (take (slice_end k (length rows)) rows)

    -- `main`: what it prints; `none` stands for a ValueError
    pub oracle : List Text → Option (List Text)
    unfolding oracle_lines tally_lines no_tallies
    oracle lines =
        Option.bind (read_header lines)
          λ x. Option.map (oracle_lines x.0.k) (tally_lines no_tallies x.1)
