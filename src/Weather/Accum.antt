-- ===== src/Weather/Accum.antt =====
-- section2/q2_grpc/common.py: the compensated sum, the extremes with their tie-break, the partial
-- state of a worker, its update by a batch, and the merge of partial states.
pub mod Spec
pub mod Rows
mod Tables
pub mod Merge
use dist_compute.Base.{
  ℕ, ◌+◌, Bool, true, false, not, ◌||◌, Option, none, some, List, [], foldl, nat_beq, if◌then◌else◌,
  length,
}
use dist_compute.Base.Int.{ℤ, pos, ltb_ℤ, beq_ℤ, int_eq, floor_div}
use dist_compute.Base.Dict.{Dict, lookup, insert}
use dist_compute.Weather.Floats.{Floats}
use dist_compute.Weather.Data.{KSum, Extremum, Station, Partial, RecordBatch, Row, rows}

-- `d.get(k, 0)`
abbrev pub or_zero : Option ℕ → ℕ
or_zero none = 0
or_zero (some n) = n

module _ (f : Floats) where
  open f use {Float, zero_float, forty, inf, neg_inf, lt, le, eq}

  pub ksum : KSum Float
  ksum = record { s = zero_float; c = zero_float }

  -- `KSum.add`
  pub add : KSum Float → Float → KSum Float
  add k x =
      let t = f.add k.s x in
      record {
        s = t;
        c =
            f.add k.c
              (if le (f.abs x) (f.abs k.s) then f.add (f.sub k.s t) x else f.add (f.sub x t) k.s);
      }

  unfoldable pub value : KSum Float → Float
  value k = f.add k.s k.c

  -- `Extremum()`
  pub no_extremum : Extremum Float
  no_extremum = record { valid = false; temp = zero_float; station = pos 0; ts = pos 0 }

  pub hotter : Extremum Float → Extremum Float → Bool
  hotter a b =
      if not b.valid
      then a.valid
      else if not a.valid
      then false
      else if not (eq a.temp b.temp)
      then lt b.temp a.temp
      else if not (beq_ℤ a.ts b.ts)
      then ltb_ℤ a.ts b.ts
      else ltb_ℤ a.station b.station

  pub colder : Extremum Float → Extremum Float → Bool
  colder a b =
      if not b.valid
      then a.valid
      else if not a.valid
      then false
      else if not (eq a.temp b.temp)
      then lt a.temp b.temp
      else if not (beq_ℤ a.ts b.ts)
      then ltb_ℤ a.ts b.ts
      else ltb_ℤ a.station b.station

  -- `Partial()`
  pub empty : Partial Float
  unfolding ksum no_extremum
  empty = record {
    count = 0;
    extreme = 0;
    sum_t = ksum;
    sum_h = ksum;
    sum_p = ksum;
    sum_rain = ksum;
    sum_wind = ksum;
    min_t = inf;
    max_t = neg_inf;
    min_h = inf;
    max_h = neg_inf;
    min_p = inf;
    max_p = neg_inf;
    max_rain = neg_inf;
    max_wind = neg_inf;
    hottest = no_extremum;
    coldest = no_extremum;
    stations = [];
    intervals = [];
    batches_applied = 0;
  }

  -- `if x < m: m = x`, and `min(m, x)`
  abbrev pub lower : Float → Float → Float
  lower m x = if lt x m then x else m

  -- `if x > m: m = x`, and `max(m, x)`
  abbrev pub upper : Float → Float → Float
  upper m x = if lt m x then x else m

  pub here : Row Float → Extremum Float
  here r = record { valid = true; temp = r.temp; station = r.sid; ts = r.ts }

  -- the candidate is compared in full only if its temperature can win
  pub next_hottest : Extremum Float → Row Float → Extremum Float
  unfolding here hotter
  next_hottest hottest r =
      if le hottest.temp r.temp || not hottest.valid
      then (if hotter (here r) hottest then here r else hottest)
      else hottest

  pub next_coldest : Extremum Float → Row Float → Extremum Float
  unfolding here colder
  next_coldest coldest r =
      if le r.temp coldest.temp || not coldest.valid
      then (if colder (here r) coldest then here r else coldest)
      else coldest

  -- `temp >= HOT or temp <= COLD`
  unfoldable pub is_extreme : Row Float → Bool
  is_extreme r = le forty r.temp || le r.temp zero_float

  pub found_station : Option (Station Float) → Station Float
  unfolding ksum
  found_station none = record { count = 0; temp = ksum; rain = ksum }
  found_station (some s) = s

  pub next_stations : Dict ℤ (Station Float) → Row Float → Dict ℤ (Station Float)
  unfolding found_station add
  next_stations tab r =
      let s = found_station (lookup r.sid tab) in
      insert r.sid
        (record { count = s.count + 1; temp = add s.temp r.temp; rain = add s.rain r.rain }) tab

  pub next_intervals : Dict ℤ ℕ → Row Float → Dict ℤ ℕ
  next_intervals tab r =
      let bucket = floor_div r.ts 60 in insert bucket (or_zero (lookup bucket tab) + 1) tab

  -- One round of the loop of `add_batch`. Its locals are kept in the fields that they are read from
  -- and written back to; `extreme` counts in place, where the code adds its count at the end.
  pub add_row : Partial Float → Row Float → Partial Float
  unfolding add next_hottest next_coldest is_extreme next_stations next_intervals
  add_row p r = record p {
    extreme = p.extreme + (if is_extreme r then 1 else 0);
    sum_t = add p.sum_t r.temp;
    sum_h = add p.sum_h r.hum;
    sum_p = add p.sum_p r.pres;
    sum_rain = add p.sum_rain r.rain;
    sum_wind = add p.sum_wind r.wind;
    min_t = lower p.min_t r.temp;
    max_t = upper p.max_t r.temp;
    min_h = lower p.min_h r.hum;
    max_h = upper p.max_h r.hum;
    min_p = lower p.min_p r.pres;
    max_p = upper p.max_p r.pres;
    max_rain = upper p.max_rain r.rain;
    max_wind = upper p.max_wind r.wind;
    hottest = next_hottest p.hottest r;
    coldest = next_coldest p.coldest r;
    stations = next_stations p.stations r;
    intervals = next_intervals p.intervals r;
  }

  -- `add_batch`: the state after it, and the number of records that it returns
  pub add_batch : Partial Float → RecordBatch Float → Partial Float × ℕ
  unfolding add_row
  add_batch p b =
      let n = length b.timestamp in
      if nat_beq n 0 then (p, 0) else (
        (let q = foldl add_row p (rows b) in
            record q { count = q.count + n; batches_applied = q.batches_applied + 1 }),
        n,
      )

  -- `hotter(b, a)` decides whether `b` replaces `a`
  abbrev pub replace :
      (Extremum Float → Extremum Float → Bool) → Extremum Float → Extremum Float → Extremum Float
  replace before a b = if before b a then b else a

  pub merged_station : Option (Station Float) → Station Float → Station Float
  unfolding add value
  merged_station none o = o
  merged_station (some s) o = record {
    count = s.count + o.count;
    temp = add s.temp (value o.temp);
    rain = add s.rain (value o.rain);
  }

  pub merge_station : Dict ℤ (Station Float) → ℤ × Station Float → Dict ℤ (Station Float)
  unfolding merged_station
  merge_station tab (sid, o) = insert sid (merged_station (lookup sid tab) o) tab

  pub merge_interval : Dict ℤ ℕ → ℤ × ℕ → Dict ℤ ℕ
  merge_interval tab (k, v) = insert k (or_zero (lookup k tab) + v) tab

  -- `merge`: the state of `self` after it
  pub merge : Partial Float → Partial Float → Partial Float
  unfolding add value hotter colder merge_station merge_interval
  merge p o = record {
    count = p.count + o.count;
    extreme = p.extreme + o.extreme;
    sum_t = add p.sum_t (value o.sum_t);
    sum_h = add p.sum_h (value o.sum_h);
    sum_p = add p.sum_p (value o.sum_p);
    sum_rain = add p.sum_rain (value o.sum_rain);
    sum_wind = add p.sum_wind (value o.sum_wind);
    min_t = lower p.min_t o.min_t;
    max_t = upper p.max_t o.max_t;
    min_h = lower p.min_h o.min_h;
    max_h = upper p.max_h o.max_h;
    min_p = lower p.min_p o.min_p;
    max_p = upper p.max_p o.max_p;
    max_rain = upper p.max_rain o.max_rain;
    max_wind = upper p.max_wind o.max_wind;
    hottest = replace hotter p.hottest o.hottest;
    coldest = replace colder p.coldest o.coldest;
    stations = foldl merge_station p.stations o.stations;
    intervals = foldl merge_interval p.intervals o.intervals;
    batches_applied = p.batches_applied + o.batches_applied;
  }

  pub merge_all : List (Partial Float) → Partial Float
  unfolding empty merge
  merge_all = foldl merge empty
