-- ===== src/Weather/Accum/Spec.antt =====
-- What a partial state of section2/q2_grpc/common.py says of the records that it has seen, by
-- descriptions that do not depend on their order: counts, first elements in an order, tallies.
use dist_compute.Base.{ℕ, ◌<◌, ◌≡◌, Bool, true, false, Option, none, some, List, arith, length, All}
use dist_compute.Base.Int.{ℤ, pos, ltb_ℤ, beq_ℤ, int_eq, floor_div}
use dist_compute.Base.Dict.{lookup, Distinct}
use dist_compute.Base.Fold.{tally}
use dist_compute.Base.Order.{
  IsOrder, flip, lex, both, absent_last, option_eq, flip-IsOrder, lex-IsOrder, absent_last-IsOrder,
  ℤ-IsOrder,
}
use dist_compute.Base.Order.Pick.{pick, earliest}
use dist_compute.Weather.Floats.{Floats, FloatLaws}
use dist_compute.Weather.Data.{Extremum, Station, Partial, Row}
use dist_compute.Weather.Accum.{
  hotter, colder, next_hottest, next_coldest, replace, is_extreme, or_zero,
}

module _ (f : Floats) where
  open f use {Float, inf, neg_inf, lt, le, eq}

  -- a reading: the temperature, then the timestamp, then the station
  abbrev pub Reading : Type 0
  Reading = Float × (ℤ × ℤ)

  abbrev pub reading : Row Float → Option Reading
  reading r = some (r.temp, (r.ts, r.sid))

  abbrev pub to_extremum : Option Reading → Extremum Float
  to_extremum none = record { valid = false; temp = f.zero_float; station = pos 0; ts = pos 0 }
  to_extremum (some (t, (ts, sid))) = record { valid = true; temp = t; station = sid; ts = ts }

  -- Higher temperatures first, for the coldest lower ones; then the smaller timestamp, then the
  -- smaller station. No reading comes last.
  abbrev pub before_hot : Option Reading → Option Reading → Bool
  before_hot = absent_last (lex (flip lt) eq (lex ltb_ℤ beq_ℤ ltb_ℤ))

  abbrev pub before_cold : Option Reading → Option Reading → Bool
  before_cold = absent_last (lex lt eq (lex ltb_ℤ beq_ℤ ltb_ℤ))

  abbrev pub same_reading : Option Reading → Option Reading → Bool
  same_reading = option_eq (both eq (both beq_ℤ beq_ℤ))

  -- the first reading of all in an order, as an `Extremum`
  abbrev pub hottest_of : List (Row Float) → Extremum Float
  hottest_of rs = to_extremum (earliest before_hot reading none rs)

  abbrev pub coldest_of : List (Row Float) → Extremum Float
  coldest_of rs = to_extremum (earliest before_cold reading none rs)

  abbrev pub lowest : (Row Float → Float) → List (Row Float) → Float
  lowest g = earliest lt g inf

  abbrev pub highest : (Row Float → Float) → List (Row Float) → Float
  highest g = earliest (flip lt) g neg_inf

  abbrev pub at_station : ℤ → Row Float → Bool
  at_station sid r = beq_ℤ r.sid sid

  abbrev pub in_interval : ℤ → Row Float → Bool
  in_interval b r = beq_ℤ (floor_div r.ts 60) b

  -- the count of a station, 0 if it is not in the table
  abbrev pub station_count : Option (Station Float) → ℕ
  station_count none = 0
  station_count (some s) = s.count

  -- The exact fields of the state describe the records `rs`: all but the sums and the number of
  -- batches.
  pub record Summarises (p : Partial Float) (rs : List (Row Float)) : Type 0 where
    pub count : p.count ≡ length rs
    pub extreme : p.extreme ≡ tally (is_extreme f) rs
    pub min_t : p.min_t ≡ lowest (λ r. r.temp) rs
    pub max_t : p.max_t ≡ highest (λ r. r.temp) rs
    pub min_h : p.min_h ≡ lowest (λ r. r.hum) rs
    pub max_h : p.max_h ≡ highest (λ r. r.hum) rs
    pub min_p : p.min_p ≡ lowest (λ r. r.pres) rs
    pub max_p : p.max_p ≡ highest (λ r. r.pres) rs
    pub max_rain : p.max_rain ≡ highest (λ r. r.rain) rs
    pub max_wind : p.max_wind ≡ highest (λ r. r.wind) rs
    pub hottest : p.hottest ≡ hottest_of rs
    pub coldest : p.coldest ≡ coldest_of rs
    pub stations : (sid : ℤ) → station_count (lookup sid p.stations) ≡ tally (at_station sid) rs
    pub intervals : (b : ℤ) → or_zero (lookup b p.intervals) ≡ tally (in_interval b) rs
    pub stations_once : Distinct p.stations
    pub intervals_once : Distinct p.intervals
    pub stations_seen : All (λ (e : ℤ × Station Float). 0 < e.1.count) p.stations
    pub intervals_seen : All (λ (e : ℤ × ℕ). 0 < e.1) p.intervals

  module _ (laws : FloatLaws f) where
    place-IsOrder : IsOrder (lex ltb_ℤ beq_ℤ ltb_ℤ) (both beq_ℤ beq_ℤ)
    place-IsOrder = lex-IsOrder ltb_ℤ beq_ℤ ltb_ℤ beq_ℤ ℤ-IsOrder ℤ-IsOrder

    pub before_hot-IsOrder : IsOrder before_hot same_reading
    before_hot-IsOrder =
        absent_last-IsOrder _ _
          (lex-IsOrder (flip lt) eq _ _ (flip-IsOrder lt eq laws.order) place-IsOrder)

    pub before_cold-IsOrder : IsOrder before_cold same_reading
    before_cold-IsOrder = absent_last-IsOrder _ _ (lex-IsOrder lt eq _ _ laws.order place-IsOrder)

    -- the tie-break of the code is the choice of the first reading
    pub replace-hotter :
        (a b : Option Reading)
        → replace f (hotter f) (to_extremum a) (to_extremum b) ≡ to_extremum (pick before_hot a b)
    unfolding hotter
    replace-hotter a b = ground arith

    pub replace-colder :
        (a b : Option Reading)
        → replace f (colder f) (to_extremum a) (to_extremum b) ≡ to_extremum (pick before_cold a b)
    unfolding colder
    replace-colder a b = ground arith

    -- the test on the temperature in front of `hotter` never rejects a reading that would win
    pub next_hottest-pick :
        (a : Option Reading) (r : Row Float)
        → next_hottest f (to_extremum a) r ≡ to_extremum (pick before_hot a (reading r))
    unfolding next_hottest
    next_hottest-pick none r = ground arith
    next_hottest-pick (some (t, (ts, sid))) r = ground (
      arith,
      laws.le_lt t r.temp,
      laws.order.eq_iff r.temp t,
      laws.order.irrefl t,
      laws.order.trans t r.temp t,
    )

    pub next_coldest-pick :
        (a : Option Reading) (r : Row Float)
        → next_coldest f (to_extremum a) r ≡ to_extremum (pick before_cold a (reading r))
    unfolding next_coldest
    next_coldest-pick none r = ground arith
    next_coldest-pick (some (t, (ts, sid))) r = ground (
      arith,
      laws.le_lt r.temp t,
      laws.order.eq_iff r.temp t,
      laws.order.irrefl t,
      laws.order.trans t r.temp t,
    )
