-- ===== src/Weather/Bench/Trial.antt =====
-- section2/q2_grpc/bench/bench.py: the run of a configuration and the row that it writes. The
-- commands of the dashboard are not listed, and a row is the texts of its values.
use mathlib.Core.Option
use dist_compute.Base.{
  ℕ, ◌+◌, false, not, Option, none, some, List, [], ◌∷◌, ◌++◌, map, if◌then◌else◌, get_last?, ltb,
}
use dist_compute.Base.Text.{Text, codes, decimal, text_eq}
use dist_compute.Base.Text.Find.{starts_with, split_on, splitlines}
use dist_compute.Weather.Floats.{Floats, Measures}
use dist_compute.Weather.Report.{int_text}
use dist_compute.Weather.Bench.{
  Options, Config, count, configs, addresses, worker_command, range_from, coordinator_command,
  coordinator_address, query_command, streamer_command,
}
use dist_compute.Weather.Bench.Outputs.{
  lines_with, first_of, query_stats, no_stats, last_attempt, Answers, match_of, all_open, Streamed,
  read_streamed, grab, scan,
}

-- the header row
unfoldable pub header_row : List Text
header_row =
    codes "tag"
    ∷ codes "dataset"
    ∷ codes "records"
    ∷ codes "workers"
    ∷ codes "batch"
    ∷ codes "dist"
    ∷ codes "query_clients"
    ∷ codes "rate"
    ∷ codes "preload"
    ∷ codes "rep"
    ∷ codes "stream_wall_s"
    ∷ codes "streamer_rps"
    ∷ codes "coord_rps"
    ∷ codes "coord_elapsed_s"
    ∷ codes "e2e_s"
    ∷ codes "queries"
    ∷ codes "qps"
    ∷ codes "q_mean_ms"
    ∷ codes "q_p50_ms"
    ∷ codes "q_p95_ms"
    ∷ codes "q_p99_ms"
    ∷ codes "coord_cpu_s"
    ∷ codes "coord_rss_mb"
    ∷ codes "worker_cpu_s_sum"
    ∷ codes "worker_rss_mb_max"
    ∷ codes "final_match"
    ∷ []

-- `os.path.basename`
unfoldable pub basename : Text → Text
basename path = elim (get_last? (split_on 47 path)) [ none ↦ [] | some t ↦ t ]

-- the processes that were started, in order, and the row; `none` is a configuration that FAILED
pub record Trial : Type 0 where
  pub started : List (List Text)
  pub row : Option (List Text)

-- `qstats`, which is blank when no query clients run
unfoldable pub stats_for : ℕ → Text → Option (List Text)
stats_for clients log = if ltb 0 clients then query_stats (splitlines log) else some no_stats

module _ (f : Floats) (m : Measures f.Float) (mib : f.Float → f.Float) where
  open f use {Float, zero_float}
  open m use {format}

  -- the figures of the resources: the coordinator's and the workers'
  unfoldable pub resources : Text → Option ((Float × Float) × (Float × Float))
  resources raw =
      let lines = splitlines raw in
      Option.bind (grab f (codes "coord_cpu_seconds") lines) λ cpu.
        Option.bind (grab f (codes "coord_rss_bytes") lines) λ rss.
          Option.map (λ workers. ((cpu, mib rss), workers))
            (scan f mib false (zero_float, zero_float) lines)

  unfoldable pub csv_row :
      Options
      → Config
      → Answers Float
      → Streamed f
      → List Text
      → (Float × Float) × (Float × Float)
      → List Text
  csv_row o c a s qstats costs =
      o.tag
        ∷ basename o.dataset
        ∷ int_text s.records
        ∷ int_text c.workers
        ∷ int_text c.batch
        ∷ c.dist
        ∷ int_text c.queries
        ∷ o.rate_text
        ∷ (if o.preload then codes "1" else codes "0")
        ∷ decimal c.rep
        ∷ format (codes ".3f") s.wall
        ∷ format (codes ".0f") s.streamer_rps
        ∷ format (codes ".0f") s.coord_rps
        ∷ format (codes ".3f") s.coord_elapsed
        ∷ format (codes ".3f") a.e2e
        ∷ qstats
      ++ format (codes ".2f") costs.0.0
        ∷ format (codes ".0f") costs.0.1
        ∷ format (codes ".2f") costs.1.0
        ∷ format (codes ".0f") costs.1.1
        ∷ match_of (last_attempt 2 0 a.final) a.expected
        ∷ []

  -- from the output of the streamer to the row
  unfoldable pub measured : Options → Config → Answers Float → Option (List Text)
  measured o c a =
      Option.bind (first_of (lines_with (starts_with (codes "streamed")) (splitlines a.streamed)))
        λ line. Option.bind (read_streamed f line) λ s.
          Option.bind (stats_for (count c.queries) a.query_log)
            λ qstats. Option.map (csv_row o c a s qstats) (resources a.raw)

  -- the body of the loop over the configurations
  unfoldable pub trial : Options → Config → Answers Float → Trial
  trial o c a =
      let workers = map (worker_command o) (range_from 0 (count c.workers)) in
      let coordinator = coordinator_command o c ∷ [] in
      let clients = (if ltb 0 (count c.queries) then query_command o c ∷ [] else []) in
      if not (all_open a.opens (addresses o c))
      then record { started = workers; row = none }
      else if not (a.opens (coordinator_address o))
      then record { started = workers ++ coordinator; row = none }
      else record {
        started = workers ++ coordinator ++ clients ++ streamer_command o c ∷ [];
        row = measured o c a;
      }

  -- the trials from the `i`-th on
  unfoldable pub trials : Options → (ℕ → Answers Float) → ℕ → List Config → List Trial
  trials o answers i [] = []
  trials o answers i (c ∷ cs) = trial o c (answers i) ∷ trials o answers (i + 1) cs

  -- `main`: the configurations in order, each with the answers of its processes; `none` is the
  -- ValueError of an option that has no number
  unfoldable pub bench : Options → (ℕ → Answers Float) → Option (List Trial)
  bench o answers = Option.map (trials o answers 0) (configs o)
