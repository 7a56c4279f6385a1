-- ===== src/Weather/Bench.antt =====
-- section2/q2_grpc/bench/bench.py: the configurations of the harness, the commands that it starts for
-- each, what it reads from their output and the row that it writes. What the processes answer is an
-- argument; their ends, the waiting and the clock are not modelled. The base port is 9 above the
-- port of the coordinator.
pub mod Outputs
pub mod Trial
pub mod Figures
pub mod QueryLog
pub mod Rows
pub mod Phrases
pub mod StreamerLine
pub mod Targets
use Prim.Native.Nat.{max}
use mathlib.Core.Option
use mathlib.Core.List.{flatten}
use dist_compute.Base.{
  ℕ, zero, suc, ◌+◌, ◌%◌, Bool, true, false, Option, none, some, List, [], ◌∷◌, ◌++◌, map, length,
  get_or, if◌then◌else◌,
}
use dist_compute.Base.Int.{ℤ, pos, negsuc}
use dist_compute.Base.Text.{Text, codes, decimal}
use dist_compute.Base.Text.Parse.{int_of_text}
use dist_compute.Base.Text.Find.{split_on}
use dist_compute.Weather.Dashboard.{join_with}
use dist_compute.Weather.Report.{int_text}

-- `Launcher` without its processes; `slurm` is `mode == "slurm"`
pub record Launcher : Type 0 where
  pub slurm : Bool
  pub coord_node : Text
  pub worker_nodes : List Text
  pub client_node : Text

-- `a.worker_nodes.split(",") if a.worker_nodes else [""]`
unfoldable pub nodes_of : Text → List Text
nodes_of [] = [] ∷ []
nodes_of (c ∷ s) = split_on 44 (c ∷ s)

-- `_wrap`
unfoldable pub wrap : Launcher → Text → List Text → ℕ → List Text
wrap l [] cmd cpus = cmd
wrap l (c ∷ node) cmd cpus =
    if l.slurm
    then codes "srun"
      ∷ codes "--overlap"
      ∷ codes "-N1"
      ∷ codes "-n1"
      ∷ codes "-w"
      ∷ (c ∷ node)
      ∷ (codes "--cpus-per-task=" ++ decimal cpus)
      ∷ codes "--export=ALL"
      ∷ codes "--quiet"
      ∷ cmd
    else cmd

unfoldable pub host : Launcher → Text → Text
host l node = if l.slurm then node else codes "localhost"

-- The options of the command line. `rate_text` is `str(a.rate)`, and `limit` is as it was given.
pub record Options : Type 0 where
  pub py : Text
  pub dataset : Text
  pub workers : Text
  pub batch : Text
  pub dist : Text
  pub queries : Text
  pub rate_text : Text
  pub repeat : ℕ
  pub limit : ℤ
  pub coord_port : ℕ
  pub tag : Text
  pub preload : Bool
  pub launcher : Launcher

pub record Config : Type 0 where
  pub workers : ℤ
  pub batch : ℤ
  pub dist : Text
  pub queries : ℤ
  pub rep : ℕ

-- `[int(x) for x in xs]`, `none` for the ValueError
unfoldable pub ints : List Text → Option (List ℤ)
ints [] = some []
ints (x ∷ xs) = Option.bind (int_of_text x) λ n. Option.map (λ ns. n ∷ ns) (ints xs)

abbrev pub range_from : ℕ → ℕ → List ℕ
range_from start zero = []
range_from start (suc n) = start ∷ range_from (suc start) n

-- `itertools.product`, the last list running fastest
unfoldable pub product : List ℤ → List ℤ → List Text → List ℤ → List ℕ → List Config
product ws bs ds qs reps = flatten (
    map
      (λ w. flatten (
        map
          (λ b. flatten (
            map
              (λ d. flatten (
                map
                  (λ q.
                    map (λ r. record { workers = w; batch = b; dist = d; queries = q; rep = r })
                      reps)
                  qs))
              ds))
          bs))
      ws)

unfoldable pub configs : Options → Option (List Config)
unfolding ints product
configs o = Option.bind (ints (split_on 44 o.workers)) λ ws.
    Option.bind (ints (split_on 44 o.batch)) λ bs.
      Option.map (λ qs. product ws bs (split_on 44 o.dist) qs (range_from 0 o.repeat))
        (ints (split_on 44 o.queries))

-- the number of rounds of `range(n)`
abbrev pub count : ℤ → ℕ
count (pos n) = n
count (negsuc n) = 0

-- `worker_nodes[i % len(worker_nodes)]`; there is a node, since `split` gives a piece
unfoldable pub node_at : Options → ℕ → Text
node_at o i = let nodes = o.launcher.worker_nodes in get_or nodes (i % length nodes) []

-- the base port and the number of the worker
unfoldable pub port_at : Options → ℕ → ℕ
port_at o i = o.coord_port + 9 + i

unfoldable pub address : Text → ℕ → Text
address h port = h ++ 58 ∷ decimal port

unfoldable pub worker_address : Options → ℕ → Text
unfolding node_at port_at address
worker_address o i = address (host o.launcher (node_at o i)) (port_at o i)

-- `addrs`
unfoldable pub addresses : Options → Config → List Text
unfolding worker_address
addresses o c = map (worker_address o) (range_from 0 (count c.workers))

unfoldable pub worker_command : Options → ℕ → List Text
unfolding node_at port_at
worker_command o i =
    let cmd =
      o.py
      ∷ codes "worker.py"
      ∷ codes "--port"
      ∷ decimal (port_at o i)
      ∷ codes "--id"
      ∷ (codes "w" ++ decimal i)
      ∷ [] in
    wrap o.launcher (node_at o i) cmd 1

unfoldable pub coordinator_command : Options → Config → List Text
unfolding wrap
coordinator_command o c =
    let cmd =
      o.py
      ∷ codes "coordinator.py"
      ∷ codes "--port"
      ∷ decimal o.coord_port
      ∷ codes "--workers"
      ∷ join_with (codes ",") (addresses o c)
      ∷ codes "--dist"
      ∷ c.dist
      ∷ [] in
    wrap o.launcher o.launcher.coord_node cmd 4

-- `caddr`
unfoldable pub coordinator_address : Options → Text
coordinator_address o = address (host o.launcher o.launcher.coord_node) o.coord_port

unfoldable pub query_command : Options → Config → List Text
query_command o c =
    let cmd =
      o.py
      ∷ codes "bench/query_load.py"
      ∷ coordinator_address o
      ∷ codes "--clients"
      ∷ int_text c.queries
      ∷ codes "--until-complete"
      ∷ [] in
    wrap o.launcher o.launcher.client_node cmd (max 2 (count c.queries))

-- `if a.limit`
unfoldable pub limit_args : ℤ → List Text
limit_args (pos zero) = []
limit_args n = codes "--limit" ∷ int_text n ∷ []

unfoldable pub streamer_command : Options → Config → List Text
streamer_command o c =
    let cmd =
      o.py
        ∷ codes "streamer.py"
        ∷ coordinator_address o
        ∷ o.dataset
        ∷ codes "--batch"
        ∷ int_text c.batch
        ∷ codes "--rate"
        ∷ o.rate_text
        ∷ limit_args o.limit
      ++ (if o.preload then codes "--preload" ∷ [] else []) in
    wrap o.launcher o.launcher.client_node cmd 2
