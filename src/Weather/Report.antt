-- ===== src/Weather/Report.antt =====
-- section2/q2_grpc/common.py, the report: the busiest stations, the busiest interval, the fields of
-- `AnalyticsReport` that hold the statistics, and the lines of text.
pub mod Ranking
use dist_compute.Base.{
  ℕ, suc, Bool, ◌&&◌, ◌||◌, List, [], ◌∷◌, ◌++◌, map, foldl, ltb, nat_beq, if◌then◌else◌, length,
  take,
}
use dist_compute.Base.Int.{ℤ, pos, negsuc, ltb_ℤ, pos_part}
use dist_compute.Base.Dict.{Dict}
use dist_compute.Base.Text.{Text, codes, decimal}
use dist_compute.Weather.Floats.{Floats}
use dist_compute.Weather.Data.{Extremum, Station, Partial}
use dist_compute.Weather.Accum.{value}

-- a row `(sid, c, avg, rain)`, and `pb.StationRow`
pub record StationRow (F : Type 0) : Type 0 where
  pub station : ℤ
  pub count : ℕ
  pub avg_temp : F
  pub total_rain : F

-- The fields of `pb.AnalyticsReport` that `fill_report` sets.
pub record AnalyticsReport (F : Type 0) : Type 0 where
  pub total_measurements : ℕ
  pub avg_temperature : F
  pub min_temperature : F
  pub max_temperature : F
  pub avg_humidity : F
  pub min_humidity : F
  pub max_humidity : F
  pub avg_pressure : F
  pub min_pressure : F
  pub max_pressure : F
  pub total_rainfall : F
  pub max_rainfall : F
  pub avg_wind_speed : F
  pub max_wind_speed : F
  pub extreme_temperature_events : ℕ
  pub hottest : Extremum F
  pub coldest : Extremum F
  pub busiest_interval : ℤ
  pub busiest_count : ℕ
  pub top_stations : List (StationRow F)
  pub stations_seen : ℕ
  pub intervals_seen : ℕ

-- the key `(-count, station)` of the sort
pub ranks_before : {F : Type 0} → StationRow F → StationRow F → Bool
ranks_before a b = ltb b.count a.count || (nat_beq a.count b.count && ltb_ℤ a.station b.station)

-- `rows.sort(key=…)`: the sort is stable, so the row that came first stays before its equals
pub insert_row : {F : Type 0} → StationRow F → List (StationRow F) → List (StationRow F)
unfolding ranks_before
insert_row r [] = r ∷ []
insert_row r (x ∷ xs) = if ranks_before x r then x ∷ insert_row r xs else r ∷ x ∷ xs

pub sort_rows : {F : Type 0} → List (StationRow F) → List (StationRow F)
unfolding insert_row
sort_rows [] = []
sort_rows (r ∷ rs) = insert_row r (sort_rows rs)

-- the test of the loop of `busiest`
pub beats : ℤ × ℕ → ℤ × ℕ → Bool
beats (k, v) (best_id, best_c) =
    ltb best_c v || (nat_beq v best_c && ltb 0 best_c && ltb_ℤ k best_id)

-- one round of the loop
pub busier : ℤ × ℕ → ℤ × ℕ → ℤ × ℕ
unfolding beats
busier best x = if beats x best then x else best

pub busiest : {F : Type 0} → Partial F → ℤ × ℕ
unfolding busier
busiest p = foldl busier (pos 0, 0) p.intervals

unfoldable pub int_text : ℤ → Text
int_text (pos n) = decimal n
int_text (negsuc n) = codes "-" ++ decimal (suc n)

module _ (f : Floats) where
  open f use {Float, zero_float, div, fixed2}

  -- the rows of the stations that have measurements
  pub station_rows : Dict ℤ (Station Float) → List (StationRow Float)
  station_rows [] = []
  station_rows ((sid, s) ∷ tab) =
      let rest = station_rows tab in
      if ltb 0 s.count
      then record {
        station = sid;
        count = s.count;
        avg_temp = div (value f s.temp) s.count;
        total_rain = value f s.rain;
      }
        ∷ rest
      else rest

  -- `top_stations`; a negative `k` counts as 0
  pub top_stations : Partial Float → ℤ → List (StationRow Float)
  unfolding station_rows sort_rows
  top_stations p k = take (pos_part k) (sort_rows (station_rows p.stations))

  -- `fill_report` on a fresh report, whose unset fields are 0
  unfoldable pub fill_report : Partial Float → ℤ → AnalyticsReport Float
  unfolding busiest top_stations
  fill_report p k =
      let n = p.count in
      let seen = ltb 0 n in
      let or_unset : Float → Float = λ x. if seen then x else zero_float in
      let (best_id, best_c) = busiest p in
      record {
        total_measurements = n;
        avg_temperature = or_unset (div (value f p.sum_t) n);
        min_temperature = or_unset p.min_t;
        max_temperature = or_unset p.max_t;
        avg_humidity = or_unset (div (value f p.sum_h) n);
        min_humidity = or_unset p.min_h;
        max_humidity = or_unset p.max_h;
        avg_pressure = or_unset (div (value f p.sum_p) n);
        min_pressure = or_unset p.min_p;
        max_pressure = or_unset p.max_p;
        total_rainfall = value f p.sum_rain;
        max_rainfall = or_unset p.max_rain;
        avg_wind_speed = or_unset (div (value f p.sum_wind) n);
        max_wind_speed = or_unset p.max_wind;
        extreme_temperature_events = p.extreme;
        hottest = p.hottest;
        coldest = p.coldest;
        busiest_interval = best_id;
        busiest_count = best_c;
        top_stations = top_stations p k;
        stations_seen = length p.stations;
        intervals_seen = length p.intervals;
      }

  -- `str` of an integer
  extremum_text : Extremum Float → Text
  unfolding int_text
  extremum_text e = fixed2 e.temp ++ codes " " ++ int_text e.station ++ codes " " ++ int_text e.ts

  pub station_line : StationRow Float → Text
  unfolding int_text
  station_line s =
      int_text s.station
      ++ codes " "
      ++ decimal s.count
      ++ codes " "
      ++ fixed2 s.avg_temp
      ++ codes " "
      ++ fixed2 s.total_rain

  pub report_lines : AnalyticsReport Float → List Text
  unfolding extremum_text station_line
  report_lines r =
      ((codes "TOTAL_MEASUREMENTS " ++ decimal r.total_measurements)
        ∷ (codes "AVERAGE_TEMPERATURE " ++ fixed2 r.avg_temperature)
        ∷ (codes "MIN_TEMPERATURE " ++ fixed2 r.min_temperature)
        ∷ (codes "MAX_TEMPERATURE " ++ fixed2 r.max_temperature)
        ∷ (codes "AVERAGE_HUMIDITY " ++ fixed2 r.avg_humidity)
        ∷ (codes "MIN_HUMIDITY " ++ fixed2 r.min_humidity)
        ∷ (codes "MAX_HUMIDITY " ++ fixed2 r.max_humidity)
        ∷ (codes "AVERAGE_PRESSURE " ++ fixed2 r.avg_pressure)
        ∷ (codes "MIN_PRESSURE " ++ fixed2 r.min_pressure)
        ∷ (codes "MAX_PRESSURE " ++ fixed2 r.max_pressure)
        ∷ (codes "TOTAL_RAINFALL " ++ fixed2 r.total_rainfall)
        ∷ (codes "MAX_RAINFALL " ++ fixed2 r.max_rainfall)
        ∷ (codes "AVERAGE_WIND_SPEED " ++ fixed2 r.avg_wind_speed)
        ∷ (codes "MAX_WIND_SPEED " ++ fixed2 r.max_wind_speed)
        ∷ (codes "EXTREME_TEMPERATURE_EVENTS " ++ decimal r.extreme_temperature_events)
        ∷ (codes "HOTTEST_MEASUREMENT " ++ extremum_text r.hottest)
        ∷ (codes "COLDEST_MEASUREMENT " ++ extremum_text r.coldest)
        ∷ (codes "BUSIEST_INTERVAL "
            ++ int_text r.busiest_interval
            ++ codes " "
            ++ decimal r.busiest_count)
        ∷ codes "TOP_STATIONS"
        ∷ [])
      ++ map station_line r.top_stations
