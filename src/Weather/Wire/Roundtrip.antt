-- ===== src/Weather/Wire/Roundtrip.antt =====
-- `to_pb` and `from_pb` of section2/q2_grpc/common.py: what a partial state keeps on the wire.
use mathlib.Core.Option
use dist_compute.Base.{
  ℕ, ◌<◌, ◌≡◌, refl, ap, ◌∙◌, Option, none, some, List, [], ◌∷◌, map, foldl, arith, length, All,
  if◌then◌else◌, nat_beq, inl, inr, Bool-cases,
}
use dist_compute.Base.Int.{ℤ, int_eq}
use dist_compute.Base.Dict.{Dict, Distinct, foldl-load, loaded, lookup-loaded, loaded-Distinct}
use dist_compute.Base.Text.{Text}
use dist_compute.Weather.Floats.{Floats, FloatLaws}
use dist_compute.Weather.Data.{KSum, Station, Partial, Row}
use dist_compute.Weather.Accum.{value}
use dist_compute.Weather.Accum.Spec.{Summarises, station_count}
use dist_compute.Weather.Wire.{to_pb, from_pb, ksum_of, station_to_pb, load_station, load_interval}

module _ (f : Floats) where
  open f use {Float}

  -- what the wire makes of a sum: its value, with nothing to compensate
  pub settled : KSum Float → KSum Float
  settled k = ksum_of f (value f k)

  pub settled_station : Station Float → Station Float
  unfolding settled
  settled_station s = record { count = s.count; temp = settled s.temp; rain = settled s.rain }

  -- a state with its sums settled, and all else as it is
  pub settled_partial : Partial Float → Partial Float
  unfolding settled settled_station
  settled_partial p = record p {
    sum_t = settled p.sum_t;
    sum_h = settled p.sum_h;
    sum_p = settled p.sum_p;
    sum_rain = settled p.sum_rain;
    sum_wind = settled p.sum_wind;
    stations = loaded settled_station p.stations;
  }

  load_stations :
      (acc d : Dict ℤ (Station Float))
      → foldl (load_station f) acc (map (station_to_pb f) d)
        ≡ foldl (λ t (x : ℤ × Station Float). load_station f t (station_to_pb f x)) acc d
  load_stations acc [] = refl
  load_stations acc (x ∷ d) = load_stations (load_station f acc (station_to_pb f x)) d

  stations-wire :
      (d : Dict ℤ (Station Float))
      → Distinct d
      → foldl (load_station f) [] (map (station_to_pb f) d) ≡ loaded settled_station d
  unfolding load_station station_to_pb settled_station settled
  stations-wire d h = load_stations [] d ∙ foldl-load settled_station d h

  intervals-wire : (d : Dict ℤ ℕ) → Distinct d → foldl (load_interval f) [] d ≡ d
  unfolding load_interval
  intervals-wire d h = foldl-load (λ n. n) d h ∙ same d
    where
      same : (d : Dict ℤ ℕ) → loaded (λ n. n) d ≡ d
      same [] = refl
      same (x ∷ d) = ap (◌∷◌ x) (same d)

  reset : (n : ℕ) (unset x : Float) → (n ≡ 0 → x ≡ unset) → (if nat_beq n 0 then unset else x) ≡ x
  reset n unset x h = elim (Bool-cases (nat_beq n 0)) [
    | inl e ↦ rw (e, h (ground arith)) refl
    | inr e ↦ rw e refl
  ]

  empty-of-count : (rs : List (Row Float)) (n : ℕ) → n ≡ length rs → n ≡ 0 → rs ≡ []
  empty-of-count [] n e z = refl
  empty-of-count (r ∷ rs) n e z = absurd (omega arith)

  -- A state that describes some records comes off the wire as it was, with each sum settled to its
  -- value; the test on the count resets only fields of a state that has seen nothing.
  pub from_pb-to_pb :
      (p : Partial Float) (rs : List (Row Float)) (worker_id : Text)
      → Summarises f p rs
      → from_pb f (to_pb f worker_id p) ≡ settled_partial p
  unfolding from_pb to_pb settled_partial settled
  from_pb-to_pb p rs worker_id h =
      let z = empty-of-count rs p.count h.count in
      rw (
        stations-wire p.stations h.stations_once,
        intervals-wire p.intervals h.intervals_once,
        reset p.count f.inf p.min_t (λ e. h.min_t ∙ rw (z e)),
        reset p.count f.neg_inf p.max_t (λ e. h.max_t ∙ rw (z e)),
        reset p.count f.inf p.min_h (λ e. h.min_h ∙ rw (z e)),
        reset p.count f.neg_inf p.max_h (λ e. h.max_h ∙ rw (z e)),
        reset p.count f.inf p.min_p (λ e. h.min_p ∙ rw (z e)),
        reset p.count f.neg_inf p.max_p (λ e. h.max_p ∙ rw (z e)),
        reset p.count f.neg_inf p.max_rain (λ e. h.max_rain ∙ rw (z e)),
        reset p.count f.neg_inf p.max_wind (λ e. h.max_wind ∙ rw (z e)),
      )

  value-settled : FloatLaws f → (k : KSum Float) → value f (settled k) ≡ value f k
  unfolding value settled ksum_of
  value-settled laws k = laws.add_zero_float (value f k)

  settled-count :
      (o : Option (Station Float))
      → station_count f (Option.map settled_station o) ≡ station_count f o
  unfolding settled_station
  settled-count none = refl
  settled-count (some s) = refl

  settled-All :
      (d : Dict ℤ (Station Float))
      → All (λ (e : ℤ × Station Float). 0 < e.1.count) d
      → All (λ (e : ℤ × Station Float). 0 < e.1.count) (loaded settled_station d)
  unfolding settled_station
  settled-All [] h = tt
  settled-All (x ∷ d) h = (h.0, settled-All d h.1)

  pub settled-Summarises :
      (p : Partial Float) (rs : List (Row Float))
      → Summarises f p rs
      → Summarises f (settled_partial p) rs
  unfolding settled_partial
  settled-Summarises p rs h = record {
    count = h.count;
    extreme = h.extreme;
    min_t = h.min_t;
    max_t = h.max_t;
    min_h = h.min_h;
    max_h = h.max_h;
    min_p = h.min_p;
    max_p = h.max_p;
    max_rain = h.max_rain;
    max_wind = h.max_wind;
    hottest = h.hottest;
    coldest = h.coldest;
    stations = λ sid. rw (lookup-loaded, settled-count) (h.stations sid);
    intervals = h.intervals;
    stations_once = loaded-Distinct settled_station p.stations h.stations_once;
    intervals_once = h.intervals_once;
    stations_seen = settled-All p.stations h.stations_seen;
    intervals_seen = h.intervals_seen;
  }
