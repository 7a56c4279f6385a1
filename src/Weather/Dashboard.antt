-- ===== src/Weather/Dashboard.antt =====
-- section2/q2_grpc/dashboard.py: the view that it draws of an answer of the coordinator, and what it
-- prints for each of its options.
pub mod Final
use mathlib.Core.List.{reverse}
use dist_compute.Base.{
  ℕ, zero, suc, ◌+◌, ◌-◌, Bool, true, false, not, ◌||◌, Option, none, some, List, [], ◌∷◌, ◌++◌,
  map, nat_beq, if◌then◌else◌, length, replicate,
}
use dist_compute.Base.Int.{ℤ, pos, negsuc, beq_ℤ}
use dist_compute.Base.Text.{Text, codes, decimal}
use dist_compute.Weather.Floats.{Floats, Measures}
use dist_compute.Weather.Data.{Extremum}
use dist_compute.Weather.Report.{StationRow, AnalyticsReport, report_lines, int_text}
use dist_compute.Weather.Worker.{WorkerInfo}
use dist_compute.Weather.Coordinator.{Analytics}

-- digits from the last to the first, with a comma after each three; `k` are written since the last
unfoldable pub grouped : ℕ → Text → Text
grouped k [] = []
grouped k (c ∷ cs) = if nat_beq k 3 then 44 ∷ c ∷ grouped 1 cs else c ∷ grouped (k + 1) cs

-- `f"{n:,}"`
unfoldable pub fmt_int : ℤ → Text
unfolding grouped
fmt_int (pos n) = reverse (grouped 0 (reverse (decimal n)))
fmt_int (negsuc n) = 45 ∷ reverse (grouped 0 (reverse (decimal (suc n))))

-- `{t:>n}` and `{t:<n}`
right : ℕ → Text → Text
right n t = replicate (n - length t) 32 ++ t

left : ℕ → Text → Text
left n t = t ++ replicate (n - length t) 32

-- `separator.join(parts)`
unfoldable pub join_with : Text → List Text → Text
join_with sep [] = []
join_with sep (t ∷ []) = t
join_with sep (t ∷ u ∷ ts) = t ++ sep ++ join_with sep (u ∷ ts)

-- the other figures of `pb.WorkerInfo`
pub record Costs (F : Type 0) : Type 0 where
  pub info : WorkerInfo
  pub cpu_seconds : F
  pub rss_bytes : ℕ

-- A `pb.AnalyticsReport` as it arrives: what `get_analytics` sets, the workers with their costs, and
-- the time of the merge.
pub record Reply (f : Floats) : Type 0 where
  pub analytics : Analytics f
  pub workers : List (Costs f.Float)
  pub merge_ms : f.Float

-- `100.0 * a / n`, and `bytes / 2**20`
pub record Ratios (F : Type 0) : Type 0 where
  pub percent : ℕ → ℤ → F
  pub mebibytes : ℕ → F

-- the options of the command line that choose what is printed
pub record Flags : Type 0 where
  pub final : Bool
  pub wait : Bool
  pub raw : Bool
  pub once : Bool

module _ (f : Floats) where
  -- what a run prints: a report, a dumped message, or views one after another
  pub data Printed : Type 0 where
    final_report : List Text → Printed
    raw : Reply f → Printed
    views : List Text → Printed

  -- The loop of `--final`, on the answers as they come; `none` while it still waits.
  unfoldable pub await_final : Bool → List (Reply f) → Option Printed
  await_final wait [] = none
  await_final wait (r ∷ rs) =
      let later = await_final wait rs in
      if r.analytics.stream_complete || not wait
      then some (final_report (report_lines f r.analytics.statistics))
      else later

module _ (f : Floats) (m : Measures f.Float) (ratios : Ratios f.Float) where
  open f use {Float}
  open m use {format}

  fixed : Float → Text
  fixed = format (codes "8.2f")

  -- the state of the stream
  pub state_name : Bool → Bool → Text
  state_name true complete = codes "STREAMING"
  state_name false true = codes "COMPLETE"
  state_name false false = codes "IDLE"

  progress : Analytics f → Text
  progress a =
      if beq_ℤ a.header.n (pos 0)
      then []
      else codes "  ("
        ++ format (codes "5.1f") (ratios.percent a.records_ingested a.header.n)
        ++ codes "% of "
        ++ fmt_int a.header.n
        ++ codes ")"

  worker_part : Costs Float → Text
  worker_part w =
      w.info.worker_id
      ++ codes ": "
      ++ fmt_int (pos w.info.records_processed)
      ++ codes " rec, cpu "
      ++ format (codes ".1f") w.cpu_seconds
      ++ codes "s, rss "
      ++ format (codes ".0f") (ratios.mebibytes w.rss_bytes)
      ++ codes "MB"

  worker_lines : List (Costs Float) → List Text
  unfolding worker_part join_with
  worker_lines [] = []
  worker_lines (w ∷ ws) =
      (codes "│ workers: " ++ join_with (codes " | ") (map worker_part (w ∷ ws))) ∷ []

  extremum_line : Text → Extremum Float → Text
  unfolding left
  extremum_line name e =
      codes "│ "
      ++ name
      ++ codes "  "
      ++ format (codes "7.2f") e.temp
      ++ codes " °C  station "
      ++ left 6 (int_text e.station)
      ++ codes " ts "
      ++ int_text e.ts

  range_line : Text → Float → Float → Float → Text
  unfolding fixed
  range_line name avg low high =
      codes "│ "
      ++ name
      ++ codes "  avg "
      ++ fixed avg
      ++ codes "   min "
      ++ fixed low
      ++ codes "   max "
      ++ fixed high

  row_line : StationRow Float → Text
  unfolding right fixed
  row_line s =
      codes "│     "
      ++ right 22 (int_text s.station)
      ++ codes "  "
      ++ right 8 (decimal s.count)
      ++ codes "   "
      ++ fixed s.avg_temp
      ++ codes "   "
      ++ format (codes "10.2f") s.total_rain

  statistic_lines : AnalyticsReport Float → List Text
  unfolding range_line extremum_line fixed
  statistic_lines s =
      (codes "│ TOTAL_MEASUREMENTS          " ++ fmt_int (pos s.total_measurements))
      ∷ range_line (codes "TEMPERATURE") s.avg_temperature s.min_temperature s.max_temperature
      ∷ range_line (codes "HUMIDITY   ") s.avg_humidity s.min_humidity s.max_humidity
      ∷ range_line (codes "PRESSURE   ") s.avg_pressure s.min_pressure s.max_pressure
      ∷ (codes "│ RAINFALL   total "
          ++ fixed s.total_rainfall
          ++ codes "   max "
          ++ fixed s.max_rainfall)
      ∷ (codes "│ WIND         avg "
          ++ fixed s.avg_wind_speed
          ++ codes "   max "
          ++ fixed s.max_wind_speed)
      ∷ (codes "│ EXTREME_TEMPERATURE_EVENTS  " ++ fmt_int (pos s.extreme_temperature_events))
      ∷ extremum_line (codes "HOTTEST") s.hottest
      ∷ extremum_line (codes "COLDEST") s.coldest
      ∷ (codes "│ BUSIEST_INTERVAL  bucket "
          ++ int_text s.busiest_interval
          ++ codes " ("
          ++ decimal s.busiest_count
          ++ codes " records)   stations seen "
          ++ decimal s.stations_seen
          ++ codes "   intervals seen "
          ++ decimal s.intervals_seen)
      ∷ (codes "│ TOP_STATIONS (K="
          ++ decimal (length s.top_stations)
          ++ codes ")   id     count   avg_temp   total_rain")
      ∷ []

  stream_lines : Reply f → Float → Text → Text → List Text
  unfolding state_name progress right left
  stream_lines r latency_ms addr now =
      let a = r.analytics in
      (codes "┌─ Weather analytics dashboard ── " ++ addr ++ codes " ── " ++ now ++ codes " ─")
      ∷ (codes "│ stream: "
          ++ left 9 (state_name a.stream_active a.stream_complete)
          ++ codes " ingested "
          ++ right 12 (fmt_int (pos a.records_ingested))
          ++ progress a
          ++ codes "   processed by workers "
          ++ right 12 (fmt_int (pos a.records_processed)))
      ∷ (codes "│ rate:   "
          ++ format (codes ">12,.0f") a.ingest_rate
          ++ codes " rec/s   elapsed "
          ++ fixed a.elapsed_seconds
          ++ codes "s   query latency "
          ++ format (codes "7.1f") latency_ms
          ++ codes " ms (merge "
          ++ format (codes ".1f") r.merge_ms
          ++ codes " ms)   queries served "
          ++ decimal a.query_count)
      ∷ []

  -- `render`, the lines that it joins; `now` is the time of day
  pub render_lines : Reply f → Float → Text → Text → List Text
  unfolding stream_lines worker_lines statistic_lines row_line
  render_lines r latency_ms addr now =
      stream_lines r latency_ms addr now
      ++ worker_lines r.workers
      ++ (codes "├" ++ replicate 78 9472) ∷ statistic_lines r.analytics.statistics
      ++ map row_line r.analytics.statistics.top_stations
      ++ (codes "└" ++ replicate 78 9472) ∷ []

  pub render : Reply f → Float → Text → Text → Text
  unfolding join_with render_lines
  render r latency_ms addr now = join_with (10 ∷ []) (render_lines r latency_ms addr now)

  -- The views of the last loop, each after the codes that clear the screen but for `--once`, which
  -- ends the loop. An answer comes with its latency and the time of day. The end of the list is the
  -- interrupt from the keyboard.
  view : Text → Reply f × Float × Text → Text
  unfolding render
  view addr (r, latency, now) = render r latency addr now

  all_views : Text → List (Reply f × Float × Text) → List Text
  unfolding view
  all_views addr [] = []
  all_views addr (x ∷ xs) =
      (27 ∷ codes "[H" ++ 27 ∷ codes "[2J" ++ view addr x ++ 10 ∷ []) ∷ all_views addr xs

  live : Bool → Text → List (Reply f × Float × Text) → List Text
  unfolding view all_views
  live true addr [] = []
  live true addr (x ∷ xs) = view addr x ∷ []
  live false addr xs = all_views addr xs

  -- `main`; `none` if it waits for more answers
  pub dashboard : Flags → Text → List (Reply f × Float × Text) → Option (Printed f)
  unfolding await_final live
  dashboard o addr xs =
      if o.final
      then await_final f o.wait (map (λ x. x.0) xs)
      else if o.raw
      then elim xs [ [] ↦ none | x ∷ _ ↦ some (Printed.raw x.0) ]
      else some (views (live o.once addr xs))
