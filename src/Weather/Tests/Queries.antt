-- ===== src/Weather/Tests/Queries.antt =====
-- Concrete runs of the programs that query the coordinator of section2/q2_grpc.
use Prim.Native.Nat.{min}
use dist_compute.Base.{
  ℕ, ◌+◌, ◌*◌, ◌/◌, ◌≤◌, ◌≡◌, ◌∙◌, refl, Bool, true, false, some, Option, List, [], ◌∷◌, ◌++◌,
  length, get_or, All, foldl, arith, map, none,
}
use dist_compute.Base.Int.{pos, negsuc}
use dist_compute.Weather.Floats.{Measures, MeasuresLaws}
use dist_compute.Weather.Tests.Numbers.{Number, whole, below, above, numbers, numbers_laws}
use dist_compute.Base.Text.{codes, decimal}
use dist_compute.Weather.Report.{report_lines, fill_report}
use dist_compute.Weather.Coordinator.{
  Session, coordinator, finish, get_analytics, merged, or_int, Coordinator, open_session, open_link,
  IngestSummary, partials, merged_parts, ingest, distribute, count_batch, dispatch, dispatch_rr,
  send_to, send, push_rate, close,
}
use dist_compute.Weather.Coordinator.Sessions.{
  Step, batch, take, play, arrived, Ready, stream_records,
}
use dist_compute.Weather.Data.{Row, Partial}
use mathlib.Core.List
use mathlib.Core.List.{flatten}
use dist_compute.Weather.Dataset.{columns}
use dist_compute.Weather.Coordinator.Accounts.{merged-Summarises}
use dist_compute.Weather.Accum.Rows.{empty-Summarises}
use dist_compute.Weather.Worker.{worker}
use dist_compute.Weather.Accum.Spec.{Summarises}
use dist_compute.Weather.Coordinator.Window.{Windowed, sessions_exclude, rate_window-Windowed}
use dist_compute.Weather.Dashboard.{fmt_int, Reply, final_report, await_final}
use dist_compute.Weather.Dashboard.Final.{reply, await_final-finish}
use dist_compute.Weather.QueryLoad.{
  Sample, Load, Options, Turn, ended, tests, answers, phase_of, load, turns, turn, take_answer,
  test_loop, Figures, figures, latencies,
}
use dist_compute.Weather.QueryLoad.Percentiles.{figures_ordered}
use dist_compute.Weather.QueryLoad.Stops.{once_stopped}

abbrev thousand : Number → Number
thousand (whole (pos n)) = whole (pos (n * 1000))
thousand (whole (negsuc n)) = whole (negsuc (n * 1000 + 999))
thousand a = a

-- percentages stand for the parts of one
abbrev percent : Number → ℕ → ℕ
percent (whole (pos p)) n = min p 100 * n / 100
percent above n = n
percent a n = 0

abbrev pub measures : Measures Number
measures = record {
  format = λ spec a. numbers.fixed2 a;
  mean = λ xs. numbers.div (foldl numbers.add (whole (pos 0)) xs) (length xs);
  milli = thousand;
  portion = percent;
  half = whole (pos 50);
  p95 = whole (pos 95);
  p99 = whole (pos 99);
  nano = whole (pos 0);
}

thousand_le : (a b : Number) → numbers.lt b a ≡ false → numbers.lt (thousand b) (thousand a) ≡ false
thousand_le a b h = ground arith

times_le : (a b n : ℕ) → a ≤ b → a * n ≤ b * n
times_le a b n h = grind arith

percent_le : (p q : Number) (n : ℕ) → numbers.lt q p ≡ false → percent p n ≤ percent q n
percent_le (whole (pos p)) (whole (pos q)) n h =
    omega (arith, times_le (min p 100) (min q 100) n (ground arith))
percent_le (whole (pos p)) (whole (negsuc q)) n h = absurd (ground arith)
percent_le (whole (pos p)) above n h = omega (arith, times_le (min p 100) 100 n (omega arith))
percent_le (whole (pos p)) below n h = absurd (ground arith)
percent_le (whole (negsuc p)) q n h = omega arith
percent_le below q n h = omega arith
percent_le above above n h = omega arith
percent_le above below n h = absurd (ground arith)
percent_le above (whole q) n h = absurd (ground arith)

pub measures_laws : MeasuresLaws numbers measures
measures_laws = record {
  milli_le = thousand_le;
  portion_le = percent_le;
  half_p95 = refl;
  p95_p99 = refl;
}

abbrev sample : ℕ → Bool → Sample Number
sample t active = record {
  latency = whole (pos t);
  active = active;
  asked = whole (pos 0);
  answered = whole (pos t);
}

abbrev pub samples : List (Sample Number)
samples = sample 7 true ∷ sample 3 false ∷ sample 5 true ∷ []

figures_ordered_example :
    (g : Figures numbers measures) × (figures numbers measures (latencies numbers measures samples)
      ≡ some g)
    × (numbers.lt g.p95_ms g.p50_ms ≡ false)
    × (numbers.lt g.p99_ms g.p95_ms ≡ false)
    × (numbers.lt g.max_ms g.p99_ms ≡ false)
    × All (λ (x : Sample Number). numbers.lt g.max_ms (thousand x.latency) ≡ false) samples
figures_ordered_example =
    figures_ordered numbers measures numbers_laws measures_laws samples (λ e. cc)

abbrev options : Options Number
options = record { until_complete = true; deadline = whole (pos 10); hour = whole (pos 3600) }

-- both clients are in a query when the stream completes
abbrev before_stop : List (Turn Number)
before_stop = tests 0 ∷ tests 1 ∷ answers 0 (whole (pos 1)) (whole (pos 2)) true true ∷ []

abbrev stopping : Load Number
stopping = turns numbers options before_stop (load numbers 2)

stop_set : stopping.stop ≡ true
unfolding turns turn take_answer test_loop load
stop_set = refl

once_stopped_example :
    let end =
      turns numbers options
        ([] ++ answers 1 (whole (pos 1)) (whole (pos 5)) true true ∷ (tests 0 ∷ []) ++ tests 1 ∷ [])
        stopping in
    (phase_of end.phases 1 ≡ ended)
    × (length (get_or end.lat 1 []) ≤ length (get_or stopping.lat 1 []) + 1)
once_stopped_example =
    once_stopped numbers options 1 [] (tests 0 ∷ []) [] (whole (pos 1)) (whole (pos 5)) true true
      stopping stop_set

-- the end of a session over one worker, which has taken nothing
abbrev session : Session numbers
session = record {
  coord = coordinator numbers ((codes "w0", codes "w0") ∷ []) (codes "rr");
  i = 0;
  first = true;
}

abbrev early : Reply numbers
early =
    reply numbers
      (get_analytics numbers session.coord (partials numbers session.coord) [] (pos 0) false
        (whole (pos 1))).1

early_incomplete : early.analytics.stream_complete ≡ false
unfolding get_analytics coordinator
early_incomplete = refl

session-Ready : Ready numbers numbers_laws session.coord
unfolding coordinator
session-Ready = record { inactive = refl; idle = (refl, tt); workers = omega arith }

one_row : Row Number
one_row = record {
  ts = pos 60;
  sid = pos 3;
  temp = whole (pos 41);
  hum = whole (pos 50);
  pres = whole (pos 1000);
  rain = whole (pos 2);
  wind = whole (pos 1);
}

abbrev one_batch : List (Step Number)
one_batch = batch 0 (one_row ∷ []) (whole (pos 1)) (whole (pos 2)) ∷ []

await_final-finish_example :
    (done : Coordinator Number) × (summary : IngestSummary Number) × (p : Partial Number)
    × (stream_records numbers numbers_laws session.coord one_batch (whole (pos 2))
        ≡ some (done, summary))
    × Summarises numbers p (arrived one_batch)
    × (await_final numbers true (
          (early ∷ [])
          ++ reply numbers
              (get_analytics numbers done
                (partials numbers done)
                []
                (pos 3)
                false
                (whole (pos 2))).1
            ∷ [])
        ≡ some (
            final_report (
              report_lines numbers (fill_report numbers p (or_int numbers (pos 3) done.header.k)))))
await_final-finish_example =
    await_final-finish numbers numbers_laws (early ∷ []) [] session.coord one_batch (whole (pos 2))
      (whole (pos 2)) (pos 3) session-Ready (early_incomplete, tt)

-- A query that has asked the worker before the batch came to it, and looks at the coordinator after
-- the end of the session: the answer is complete and counts the record as ingested, but what the
-- worker had answered is a state without records.
abbrev straddling : Option (Coordinator Number × IngestSummary Number) → Bool × ℕ
straddling none = (false, 0)
straddling (some (done, summary)) =
    let a =
      (get_analytics numbers done (partials numbers session.coord) [] (pos 3) false
        (whole (pos 2))).1 in
    (a.stream_complete, a.records_ingested)

straddling_query :
    straddling (stream_records numbers numbers_laws session.coord one_batch (whole (pos 2)))
    ≡ (true, 1)
unfolding stream_records open_session coordinator open_link play ingest distribute count_batch
    dispatch dispatch_rr send_to send push_rate finish close get_analytics merged_parts columns
straddling_query = refl

straddling_parts : (merged_parts numbers (partials numbers session.coord)).count ≡ 0
unfolding merged coordinator worker
straddling_parts =
    let none_yet : Summarises numbers (merged numbers session.coord) (flatten ([] ∷ [])) =
      merged-Summarises numbers numbers_laws session.coord ([] ∷ [])
        (record { exact = empty-Summarises numbers numbers_laws; waiting = tt }, tt) in
    none_yet.count ∙ (unfold mathlib.Core.List.flatten in refl)

million : fmt_int (pos 1234567) ≡ codes "1,234,567"
unfolding fmt_int decimal
million = refl

-- a session begins, and takes a batch
abbrev begun : Coordinator Number
begun = record session.coord { active = true; links = map (open_link numbers) session.coord.links }

begins : open_session numbers session.coord ≡ some begun
unfolding open_session coordinator
begins = refl

abbrev steps : List (Step Number)
steps = batch 0 [] (whole (pos 1)) (whole (pos 2)) ∷ take 0 ∷ []

sessions_exclude_example :
    let s = (play numbers numbers_laws steps (record { coord = begun; i = 0; first = true })).0 in
    (open_session numbers s.coord ≡ none)
    × ((next : Coordinator Number) × (open_session numbers (finish numbers s (whole (pos 9))).0
          ≡ some next))
sessions_exclude_example =
    sessions_exclude numbers numbers_laws session.coord begun steps (whole (pos 9)) begins

rate_window-Windowed_example :
    let s = (play numbers numbers_laws steps (record { coord = begun; i = 0; first = true })).0 in
    Windowed s.coord.rate_window s.coord.records_ingested
rate_window-Windowed_example =
    rate_window-Windowed numbers numbers_laws session.coord begun steps begins
