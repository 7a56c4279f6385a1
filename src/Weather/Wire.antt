-- ===== src/Weather/Wire.antt =====
-- section2/q2_grpc/common.py, `to_pb` and `from_pb`: a partial state on the wire.
pub mod Roundtrip
use dist_compute.Base.{ℕ, [], map, foldl, nat_beq, if◌then◌else◌}
use dist_compute.Base.Int.{ℤ, int_eq}
use dist_compute.Base.Dict.{Dict, insert}
use dist_compute.Base.Text.{Text}
use dist_compute.Weather.Floats.{Floats}
use dist_compute.Weather.Accum.{value}
use dist_compute.Weather.Data.{KSum, Station, Partial, StationPartial, PartialState}

module _ (f : Floats) where
  open f use {Float, zero_float, inf, neg_inf}

  pub station_to_pb : ℤ × Station Float → StationPartial Float
  station_to_pb (sid, s) = record {
    station = sid;
    count = s.count;
    temp_sum = value f s.temp;
    rain_sum = value f s.rain;
  }

  -- `Partial.to_pb`
  pub to_pb : Text → Partial Float → PartialState Float
  unfolding station_to_pb
  to_pb worker_id p = record {
    count = p.count;
    extreme = p.extreme;
    sum_t = value f p.sum_t;
    sum_h = value f p.sum_h;
    sum_p = value f p.sum_p;
    sum_rain = value f p.sum_rain;
    sum_wind = value f p.sum_wind;
    min_t = p.min_t;
    max_t = p.max_t;
    min_h = p.min_h;
    max_h = p.max_h;
    min_p = p.min_p;
    max_p = p.max_p;
    max_rain = p.max_rain;
    max_wind = p.max_wind;
    hottest = p.hottest;
    coldest = p.coldest;
    stations = map station_to_pb p.stations;
    intervals = p.intervals;
    batches_applied = p.batches_applied;
    worker_id = worker_id;
  }

  -- `KSum(s)`
  pub ksum_of : Float → KSum Float
  ksum_of x = record { s = x; c = zero_float }

  pub load_station : Dict ℤ (Station Float) → StationPartial Float → Dict ℤ (Station Float)
  unfolding ksum_of
  load_station tab s =
      insert s.station
        (record { count = s.count; temp = ksum_of s.temp_sum; rain = ksum_of s.rain_sum }) tab

  pub load_interval : Dict ℤ ℕ → ℤ × ℕ → Dict ℤ ℕ
  load_interval tab (k, v) = insert k v tab

  -- `Partial.from_pb`
  pub from_pb : PartialState Float → Partial Float
  unfolding ksum_of load_station load_interval
  from_pb m =
      let unset = nat_beq m.count 0 in
      record {
        count = m.count;
        extreme = m.extreme;
        sum_t = ksum_of m.sum_t;
        sum_h = ksum_of m.sum_h;
        sum_p = ksum_of m.sum_p;
        sum_rain = ksum_of m.sum_rain;
        sum_wind = ksum_of m.sum_wind;
        min_t = if unset then inf else m.min_t;
        max_t = if unset then neg_inf else m.max_t;
        min_h = if unset then inf else m.min_h;
        max_h = if unset then neg_inf else m.max_h;
        min_p = if unset then inf else m.min_p;
        max_p = if unset then neg_inf else m.max_p;
        max_rain = if unset then neg_inf else m.max_rain;
        max_wind = if unset then neg_inf else m.max_wind;
        hottest = m.hottest;
        coldest = m.coldest;
        stations = foldl load_station [] m.stations;
        intervals = foldl load_interval [] m.intervals;
        batches_applied = m.batches_applied;
      }
