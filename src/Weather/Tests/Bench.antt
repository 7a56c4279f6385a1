-- ===== src/Weather/Tests/Bench.antt =====
-- Concrete runs of section2/q2_grpc/bench/bench.py.
use mathlib.Core.List
use mathlib.Core.Option
use mathlib.Core.List.{flatten}
use dist_compute.Base.{
  get_elem?, if◌then◌else◌, ◌+◌, ℕ, ◌≡◌, ◌≢◌, refl, ap, true, false, some, List, [], ◌∷◌, ◌++◌, map,
  length, arith,
}
use dist_compute.Base.Int
use dist_compute.Weather.Report.{int_text}
use dist_compute.Base.Int.{ℤ, pos, negsuc}
use dist_compute.Base.Text.{Text, text_beq, codes, decimal, is_space, strip}
use dist_compute.Base.Text.Find.{without, split_on, splitlines, rstrip}
use dist_compute.Base.Text.Parse.{int_of_text, split_words}
use dist_compute.Weather.Tests.Numbers.{Number, whole, below, above, numbers, numbers_laws}
use dist_compute.Weather.Tests.Queries.{measures, measures_laws, samples}
use dist_compute.Weather.Dashboard.{fmt_int}
use dist_compute.Weather.QueryLoad.{Load, Figures, figures, latencies, active_of, summary}
use dist_compute.Weather.Bench.{
  wrap, Options, Config, configs, host, node_at, port_at, worker_address, addresses, ints, product,
  address,
}
use dist_compute.Weather.Floats.{Measures}
use dist_compute.Weather.Bench.Figures.{Plain, decimal-Plain}
use dist_compute.Weather.Bench.Outputs.{
  Answers, query_stats, pick, lines_with, read_streamed, word_after, last_attempt, match_of, grab,
  scan, value_of, all_open,
}
use dist_compute.Weather.Bench.QueryLog.{shown, shown_span, figure_texts, query_stats-summary}
use dist_compute.Weather.Bench.Rows.{length-trial}
use dist_compute.Base.Text.Numeral.{int_of_text-decimal}
use dist_compute.Weather.Streamer.{Stats, streamed_line}
use dist_compute.Weather.Bench.Phrases.{Figure, decimal-Figure}
use dist_compute.Weather.Bench.StreamerLine.{read_streamed-streamed_line}
use dist_compute.Weather.Bench.Targets.{workers_given}
use dist_compute.Weather.Bench.Trial.{
  header_row, trial, basename, stats_for, csv_row, measured, resources,
}

fixed-Plain : (x : Number) → Plain (numbers.fixed2 x)
unfolding is_space
fixed-Plain (whole (pos n)) = decimal-Plain n
fixed-Plain (whole (negsuc n)) = ((refl, refl, refl, refl), tt)
fixed-Plain below = ground arith
fixed-Plain above = ground arith

abbrev asked_load : Load Number
asked_load = record { lat = [] ∷ samples ∷ []; stop = true; seen_active = true; phases = [] }

asked_some : flatten asked_load.lat ≢ []
unfolding mathlib.Core.List.flatten
asked_some e = cc

query_stats-summary_example :
    let act = active_of (flatten asked_load.lat) in
    let s = shown act (flatten asked_load.lat) in
    (lines : List Text) × ((summary numbers measures 2 [] (whole (pos 9)) asked_load).0
      ≡ some lines)
    × (g : Figures numbers measures) × (figures numbers measures (latencies numbers measures s)
        ≡ some g)
    × (query_stats lines
        ≡ some (
            figure_texts numbers measures numbers_laws measures_laws
              (length s)
              (numbers.quotient
                (length s)
                (shown_span numbers measures numbers_laws measures_laws (whole (pos 9)) act))
              g))
query_stats-summary_example =
    query_stats-summary numbers measures numbers_laws measures_laws fixed-Plain 2 [] (whole (pos 9))
      asked_load asked_some

abbrev bench_options : Options
bench_options = record {
  py = codes "python3";
  dataset = codes "data/small.txt";
  workers = codes "1,2";
  batch = codes "10";
  dist = codes "rr,station";
  queries = codes "0";
  rate_text = codes "0.0";
  repeat = 1;
  limit = pos 0;
  coord_port = 60051;
  tag = [];
  preload = false;
  launcher = record {
    slurm = true;
    coord_node = codes "node01";
    worker_nodes = codes "node02" ∷ codes "node03" ∷ [];
    client_node = codes "node04";
  };
}

abbrev two_workers : Config
two_workers = record {
  workers = pos 2;
  batch = pos 10;
  dist = codes "rr";
  queries = pos 0;
  rep = 0;
}

configs_in_order :
    Option.map (map {B = ℤ × Text} (λ c. (c.workers, c.dist))) (configs bench_options)
    ≡ some (
        (pos 1, codes "rr")
        ∷ (pos 1, codes "station")
        ∷ (pos 2, codes "rr")
        ∷ (pos 2, codes "station")
        ∷ [])
unfolding Option.bind configs ints product split_on int_of_text flatten
configs_in_order = refl

second_address : worker_address bench_options 1 ≡ codes "node03:60061"
unfolding worker_address address host node_at port_at decimal
second_address = refl

abbrev answers : Answers Number
answers = record {
  opens = λ adr. true;
  streamed =
      codes
        "streamed 1200 records in 2 batches of 1000: wall 3s -> 1,400 rec/s (streamer)  1,300 rec/s (coordinator, 4s)";
  final = λ attempt. codes "REPORT";
  raw = codes "coord_cpu_seconds: 5" ++ 10 ∷ codes "workers {" ++ 10 ∷ codes "  cpu_seconds: 7";
  query_log = [];
  expected = some (codes "REPORT");
  e2e = whole (pos 6);
}

ports_open : all_open answers.opens (addresses bench_options two_workers) ≡ true
unfolding all_open addresses worker_address address host node_at port_at split_on decimal
ports_open = refl

workers_given_example :
    let l = bench_options.launcher in
    let started = (trial numbers measures (λ x. x) bench_options two_workers answers).started in
    (node : Text) × (port : Text) × (given : Text) × (adr : Text) × (get_elem? started 1
      ≡ some (
          wrap l node
            (bench_options.py
              ∷ codes "worker.py"
              ∷ codes "--port"
              ∷ port
              ∷ codes "--id"
              ∷ (codes "w" ++ decimal 1)
              ∷ [])
            1))
    × (get_elem? started 2
        ≡ some (
            wrap l l.coord_node
              (bench_options.py
                ∷ codes "coordinator.py"
                ∷ codes "--port"
                ∷ decimal 60051
                ∷ codes "--workers"
                ∷ given
                ∷ codes "--dist"
                ∷ two_workers.dist
                ∷ [])
              4))
    × (length (split_on 44 given) ≡ 2)
    × (get_elem? (split_on 44 given) 1 ≡ some adr)
    × (split_on 58 adr ≡ host l node ∷ port ∷ [])
    × (int_of_text port ≡ some (pos (60051 + 9 + 1)))
workers_given_example =
    workers_given numbers measures (λ x. x) bench_options two_workers answers 1 1 refl (omega arith)
      (ground arith) ports_open refl

abbrev row : List Text
row =
    []
    ∷ codes "small.txt"
    ∷ codes "1200"
    ∷ codes "2"
    ∷ codes "10"
    ∷ codes "rr"
    ∷ codes "0"
    ∷ codes "0.0"
    ∷ codes "0"
    ∷ codes "0"
    ∷ codes "3"
    ∷ codes "1400"
    ∷ codes "1300"
    ∷ codes "4"
    ∷ codes "6"
    ∷ []
    ∷ []
    ∷ []
    ∷ []
    ∷ []
    ∷ []
    ∷ codes "5"
    ∷ codes "0"
    ∷ codes "7"
    ∷ codes "0"
    ∷ codes "yes"
    ∷ []

trial_run : (trial numbers measures (λ x. x) bench_options two_workers answers).row ≡ some row
unfolding trial measured resources csv_row stats_for basename query_stats pick lines_with
    read_streamed word_after last_attempt match_of grab scan value_of all_open split_on splitlines
    rstrip split_words int_of_text strip decimal addresses worker_address address host node_at
    port_at Option.bind int_text Int.◌+ℤ◌
trial_run = refl

length-trial_example : length row ≡ length header_row
length-trial_example =
    length-trial numbers measures (λ x. x) bench_options two_workers answers row trial_run

-- a format that heeds its spec: with `,` the thousands are grouped
abbrev grouped_text : Number → Text
grouped_text (whole n) = fmt_int n
grouped_text x = numbers.fixed2 x

abbrev printing : Measures Number
printing = record measures {
  format = λ spec x. if text_beq spec (codes ",.0f") then grouped_text x else numbers.fixed2 x;
}

abbrev counts : Stats
counts = record { records = 1200; batches = 2 }

reads : (n : ℕ) → numbers.of_text (decimal n) ≡ some (whole (pos n))
reads n = ap (Option.map whole) (int_of_text-decimal n)

grouped_reads :
    numbers.of_text (without (codes ",") (printing.format (codes ",.0f") (whole (pos 1400))))
    ≡ some (whole (pos 1400))
unfolding int_of_text decimal strip fmt_int
grouped_reads = refl

grouped-Figure : Figure (printing.format (codes ",.0f") (whole (pos 1400)))
unfolding fmt_int decimal is_space
grouped-Figure = ground arith

read_streamed-streamed_line_example :
    read_streamed numbers (
      streamed_line numbers printing counts
        (pos 1000)
        (whole (pos 3))
        (whole (pos 1400))
        (whole (pos 1400))
        (whole (pos 4)))
    ≡ some (record {
      records = pos 1200;
      wall = whole (pos 3);
      streamer_rps = whole (pos 1400);
      coord_rps = whole (pos 1400);
      coord_elapsed = whole (pos 4);
    })
read_streamed-streamed_line_example =
    read_streamed-streamed_line numbers printing counts (pos 1000) (whole (pos 3))
      (whole (pos 1400)) (whole (pos 1400)) (whole (pos 4)) (decimal-Figure 3) grouped-Figure
      grouped-Figure (decimal-Figure 4) (whole (pos 3)) (whole (pos 1400)) (whole (pos 1400))
      (whole (pos 4)) (reads 3) grouped_reads grouped_reads (reads 4)
