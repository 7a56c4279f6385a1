-- ===== src/Weather/Tests/Runs.antt =====
-- Runs of section2/q2_grpc on four records, two workers and both ways to distribute.
use mathlib.Core.Option
use mathlib.Core.List.{flatten, append-nil}
use mathlib.Core.List
use dist_compute.Base.Perm.{perm_of_eq}
use dist_compute.Base.{
  foldl, ℕ, zero, suc, ◌<◌, ◌≡◌, refl, Bool, true, Option, none, map, some, List, [], ◌∷◌, ◌++◌,
  length, arith, All, nat_beq, if◌then◌else◌, ◌⊎◌,
}
use dist_compute.Base
use dist_compute.Base.Int.{ℤ, int_eq, pos, negsuc, pos_part}
use dist_compute.Base.Text.{Text, codes, strip, is_space}
use dist_compute.Base.Fold.{tally}
use dist_compute.Weather.Accum.Spec.{
  at_station, in_interval, Summarises, to_extremum, station_count,
}
use dist_compute.Weather.Report.{fill_report, StationRow, top_stations, busiest}
use dist_compute.Weather.Report.Ranking.{
  counted_at, ByRank, NoBusier, top_stations_lem, busiest_lem,
}
use dist_compute.Weather.Dataset.{Header, read_header, columns, line_of, iter_batches, returned}
use dist_compute.Weather.Streamer.{Stats, stream_file}
use dist_compute.Weather.Streamer.EndToEnd.{messages, streamed_exact}
use dist_compute.Weather.Data.{Row, Partial, RecordBatch, rows}
use dist_compute.Weather.Accum.{empty, add_batch, merge_all, or_zero}
use dist_compute.Weather.Oracle.{least, greatest, tally_row, no_tallies}
use dist_compute.Weather.Oracle.Agrees.{read_count, oracle_agrees}
use dist_compute.Base.Dict.{lookup}
use dist_compute.Weather.Accum.Rows.{empty-Summarises, add_batch-Summarises}
use dist_compute.Weather.Accum.Merge.{merge_all-Summarises}
use dist_compute.Weather.Wire.{from_pb, to_pb}
use dist_compute.Weather.Wire.Roundtrip.{settled_partial, from_pb-to_pb}
use dist_compute.Weather.Dataset.Batches.{Reads, numbered, Fits, iter_batches_lem}
use dist_compute.Base.Text.Parse.{split_words, int_of_text}
use dist_compute.Weather.Coordinator.{Coordinator, IngestSummary, coordinator, merged, open_link}
use dist_compute.Weather.Coordinator.Queries.{
  Event, sends, counts, takes, asks, Moment, events, begun, query_begins,
}
use dist_compute.Weather.Coordinator.Sessions.{
  Step, batch, take, arrived, Ready, stream_records, session_exact,
}
use dist_compute.Weather.Tests.Numbers.{Number, whole, numbers, numbers_laws}

abbrev record_at : ℕ → ℕ → ℕ → Row Number
record_at ts sid temp = record {
  ts = pos ts;
  sid = pos sid;
  temp = whole (pos temp);
  hum = whole (pos 50);
  pres = whole (pos 1000);
  rain = whole (pos 2);
  wind = whole (negsuc 2);
}

abbrev first_rows : List (Row Number)
first_rows = record_at 10 3 41 ∷ record_at 70 4 0 ∷ []

abbrev second_rows : List (Row Number)
second_rows = record_at 75 3 41 ∷ record_at 80 3 20 ∷ []

abbrev first_batch : RecordBatch Number
first_batch = columns 0 first_rows

abbrev second_batch : RecordBatch Number
second_batch = columns 1 second_rows

first_cols : length (rows first_batch) ≡ length first_batch.timestamp
unfolding rows columns
first_cols = refl

abbrev state₁ : Partial Number
state₁ = (add_batch numbers (empty numbers) first_batch).0

-- the state after the first batch describes its records
add_batch-Summarises_example : Summarises numbers state₁ ([] ++ rows first_batch)
add_batch-Summarises_example =
    add_batch-Summarises numbers numbers_laws (empty numbers) [] first_batch first_cols
      (empty-Summarises numbers numbers_laws)

from_pb-to_pb_example :
    from_pb numbers (to_pb numbers (codes "w1") state₁) ≡ settled_partial numbers state₁
from_pb-to_pb_example = from_pb-to_pb numbers state₁ ([] ++ rows first_batch) (codes "w1") (
    add_batch-Summarises numbers numbers_laws (empty numbers) [] first_batch first_cols
      (empty-Summarises numbers numbers_laws))

merge_all-Summarises_example :
    Summarises numbers
      (merge_all numbers (state₁ ∷ empty numbers ∷ []))
      (flatten (([] ++ rows first_batch) ∷ [] ∷ []))
merge_all-Summarises_example =
    merge_all-Summarises numbers numbers_laws (state₁ ∷ empty numbers ∷ [])
      (([] ++ rows first_batch) ∷ [] ∷ [])
      (
        add_batch-Summarises numbers numbers_laws (empty numbers) [] first_batch first_cols
            (empty-Summarises numbers numbers_laws),
        (empty-Summarises numbers numbers_laws, tt),
      )

abbrev two_workers : Text → Coordinator Number
two_workers dist =
    coordinator numbers ((codes "a:1", codes "w1") ∷ (codes "b:1", codes "w2") ∷ []) dist

two_workers-Ready : (dist : Text) → Ready numbers numbers_laws (two_workers dist)
unfolding coordinator
two_workers-Ready dist = record {
  inactive = refl;
  idle = (refl, (refl, tt));
  workers = omega arith;
}

abbrev steps : List (Step Number)
steps =
    batch 0 first_rows (whole (pos 1)) (whole (pos 2))
    ∷ take 0
    ∷ batch 1 second_rows (whole (pos 3)) (whole (pos 4))
    ∷ []

session_exact_example :
    (done : Coordinator Number) × (summary : IngestSummary Number) × (stream_records numbers
        numbers_laws
        (two_workers (codes "station"))
        steps
        (whole (pos 9))
      ≡ some (done, summary))
    × Summarises numbers (merged numbers done) (arrived steps)
    × (summary.records_received ≡ length (arrived steps))
    × (done.complete ≡ true)
    × Ready numbers numbers_laws done
session_exact_example =
    session_exact numbers numbers_laws (two_workers (codes "station")) steps (whole (pos 9))
      (two_workers-Ready (codes "station"))

abbrev opened : Coordinator Number
opened = record (two_workers (codes "rr")) {
  active = true;
  links = map (open_link numbers) (two_workers (codes "rr")).links;
}

-- the query begins when the first batch is at the first worker
abbrev first_events : List (Event Number)
first_events = sends 0 first_rows (whole (pos 1)) ∷ counts (whole (pos 2)) ∷ takes 0 ∷ []

-- the first worker is asked before the second batch is counted and before the second worker is asked
abbrev query_events : List (Event Number)
query_events = asks 0 ∷ sends 1 second_rows (whole (pos 3)) ∷ takes 1 ∷ asks 1 ∷ []

abbrev reached : Option (Moment numbers numbers_laws) → Moment numbers numbers_laws
reached none = begun numbers numbers_laws opened
reached (some m) = m

abbrev started : Moment numbers numbers_laws
started = reached (events numbers numbers_laws first_events (begun numbers numbers_laws opened))

abbrev locked : Moment numbers numbers_laws
locked =
    reached (events numbers numbers_laws query_events (query_begins numbers numbers_laws started))

abbrev lines : List Text
lines =
    codes "10 3 41 50 1000 2 -3" ∷ codes "70 4 0 50 1000 2 -3" ∷ codes "75 3 41 50 1000 2 -3" ∷ []

abbrev three_rows : List (Row Number)
three_rows = record_at 10 3 41 ∷ record_at 70 4 0 ∷ record_at 75 3 41 ∷ []

lines-Reads : Reads numbers lines three_rows
unfolding line_of split_words int_of_text strip is_space Option.bind
lines-Reads = (refl, (refl, (refl, tt)))

iter_batches_lem_example :
    (chunks : List (List (Row Number))) × (iter_batches numbers lines 2 0
      ≡ (numbered 0 chunks, returned))
    × (flatten chunks ≡ (if nat_beq 0 0 then three_rows else Base.take 0 three_rows))
    × All (Fits numbers 2) chunks
iter_batches_lem_example = iter_batches_lem numbers lines three_rows 2 0 (omega arith) lines-Reads

state₁-Summarises : Summarises numbers state₁ ([] ++ rows first_batch)
state₁-Summarises =
    add_batch-Summarises numbers numbers_laws (empty numbers) [] first_batch first_cols
      (empty-Summarises numbers numbers_laws)

arrived_first : flatten (([] ++ rows first_batch) ∷ [] ∷ []) ≡ [] ++ rows first_batch
unfolding mathlib.Core.List.flatten
arrived_first = append-nil (rows first_batch)

oracle_agrees_example :
    let p = merge_all numbers (state₁ ∷ empty numbers ∷ []) in
    let rep = fill_report numbers p (pos 1) in
    let t = foldl (tally_row numbers) no_tallies ([] ++ rows first_batch) in
    (t.count ≡ rep.total_measurements)
    × (t.extreme ≡ rep.extreme_temperature_events)
    × (to_extremum numbers t.hottest ≡ rep.hottest)
    × (to_extremum numbers t.coldest ≡ rep.coldest)
    × (least numbers t.t_vals ≡ rep.min_temperature)
    × (greatest numbers t.t_vals ≡ rep.max_temperature)
    × (least numbers t.h_vals ≡ rep.min_humidity)
    × (greatest numbers t.h_vals ≡ rep.max_humidity)
    × (least numbers t.p_vals ≡ rep.min_pressure)
    × (greatest numbers t.p_vals ≡ rep.max_pressure)
    × (greatest numbers t.rain_vals ≡ rep.max_rainfall)
    × (greatest numbers t.wind_vals ≡ rep.max_wind_speed)
    × ((sid : ℤ) → read_count (lookup sid t.st) ≡ station_count numbers (lookup sid p.stations))
    × ((b : ℤ) → or_zero (lookup b t.intervals) ≡ or_zero (lookup b p.intervals))
oracle_agrees_example =
    oracle_agrees numbers numbers_laws (state₁ ∷ empty numbers ∷ [])
      (([] ++ rows first_batch) ∷ [] ∷ []) ([] ++ rows first_batch) (pos 1)
      (state₁-Summarises, (empty-Summarises numbers numbers_laws, tt)) (perm_of_eq arrived_first)

top_stations_lem_example :
    (ranking : List (StationRow Number)) × (top_stations numbers state₁ (pos 1)
      ≡ Base.take (pos_part (pos 1)) ranking)
    × ByRank ranking
    × ((sid : ℤ)
        → counted_at numbers sid ranking ≡ tally (at_station numbers sid) ([] ++ rows first_batch))
    × All
        (λ (r : StationRow Number).
          r.count ≡ tally (at_station numbers r.station) ([] ++ rows first_batch))
        ranking
    × All (λ (r : StationRow Number). 0 < r.count) ranking
top_stations_lem_example =
    top_stations_lem numbers state₁ ([] ++ rows first_batch) (pos 1) state₁-Summarises

busiest_lem_example :
    ((b : ℤ)
      → NoBusier numbers
          (b, tally (in_interval numbers b) ([] ++ rows first_batch))
          (busiest state₁))
    × ((busiest state₁ ≡ (pos 0, 0))
        ⊎ (tally (in_interval numbers (busiest state₁).0) ([] ++ rows first_batch)
            ≡ (busiest state₁).1))
busiest_lem_example = busiest_lem numbers state₁ ([] ++ rows first_batch) state₁-Summarises

abbrev file : List Text
file = codes "3 1 1" ∷ lines

abbrev file_header : Header
file_header = record { n = pos 3; k = pos 1; s = pos 1 }

file-header : read_header file ≡ some (file_header, lines)
unfolding read_header split_words int_of_text strip is_space Option.bind
file-header = refl

abbrev file_steps : List (Step Number)
file_steps =
    Step.header file_header
    ∷ batch 0 (record_at 10 3 41 ∷ record_at 70 4 0 ∷ []) (whole (pos 1)) (whole (pos 2))
    ∷ take 1
    ∷ batch 1 (record_at 75 3 41 ∷ []) (whole (pos 3)) (whole (pos 4))
    ∷ []

abbrev file_stats : Stats
file_stats = record { records = 3; batches = 2 }

file-streamed : stream_file numbers file 2 0 ≡ some ((messages file_steps, file_stats), returned)
unfolding stream_file read_header split_words int_of_text strip is_space Option.bind line_of
    iter_batches
file-streamed = refl

streamed_exact_example :
    (done : Coordinator Number) × (summary : IngestSummary Number) × (stream_records numbers
        numbers_laws
        (two_workers (codes "rr"))
        file_steps
        (whole (pos 9))
      ≡ some (done, summary))
    × Summarises numbers
        (merged numbers done)
        (if nat_beq 0 0 then three_rows else Base.take 0 three_rows)
    × (file_stats.records ≡ summary.records_received)
    × (returned ≡ returned)
streamed_exact_example =
    streamed_exact numbers numbers_laws file lines file_header three_rows 2 0 file_stats returned
      (two_workers (codes "rr")) file_steps (whole (pos 9)) file-header lines-Reads (omega arith)
      file-streamed (two_workers-Ready (codes "rr"))
