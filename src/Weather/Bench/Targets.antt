-- ===== src/Weather/Bench/Targets.antt =====
-- The workers that section2/q2_grpc/bench/bench.py starts are those whose addresses it gives to the
-- coordinator.
use dist_compute.Base.{
  ℕ, zero, suc, ◌+◌, ◌<◌, ◌≡◌, refl, ap, sym, ◌∙◌, true, some, List, [], ◌∷◌, ◌++◌, map, arith, All,
  All-append, get_or, get_elem?, length, inl, inr, Bool-cases, ltb, if◌then◌else◌,
}
use dist_compute.Base.Int.{pos}
use mathlib.Core.List.{append_assoc, append-nil}
use dist_compute.Base.Text.{Text, codes, decimal}
use dist_compute.Base.Text.Numeral.{Digit, decimal-Digit, int_of_text-decimal}
use dist_compute.Base.Text.Parse.{int_of_text}
use dist_compute.Base.Text.Find.{split_on}
use dist_compute.Base.Text.Find.Pieces.{Free, split_on-Free, split_on-piece}
use dist_compute.Weather.Dashboard.{join_with}
use dist_compute.Weather.Floats.{Floats, Measures}
use dist_compute.Weather.Bench.{
  Options, Config, range_from, count, host, wrap, node_at, port_at, address, worker_address,
  addresses, worker_command, coordinator_command, coordinator_address, query_command,
  streamer_command,
}
use dist_compute.Weather.Bench.Outputs.{Answers, all_open}
use dist_compute.Weather.Bench.Trial.{trial}

-- no `,` and no `:`
abbrev pub HostName : Text → Type 0
HostName h = Free 44 h × Free 58 h

Digit-HostName : (s : Text) → All Digit s → HostName s
Digit-HostName [] h = (tt, tt)
Digit-HostName (x ∷ s) h =
    let rest = Digit-HostName s h.1 in
    ((ground (arith, h.0), rest.0), (ground (arith, h.0), rest.1))

-- what was joined with commas is split at the commas
split_on-join_with :
    (a : Text) (rest : List Text)
    → All (Free 44) (a ∷ rest)
    → split_on 44 (join_with (codes ",") (a ∷ rest)) ≡ a ∷ rest
unfolding join_with
split_on-join_with a [] h = split_on-Free 44 a h.0
split_on-join_with a (b ∷ rest) h =
    ap (split_on 44) (append_assoc a (codes ",") (join_with (codes ",") (b ∷ rest)))
    ∙ split_on-piece 44 a (join_with (codes ",") (b ∷ rest)) h.0
    ∙ ap (λ x. a ∷ x) (split_on-join_with b rest h.1)

get_or-HostName : (nodes : List Text) (i : ℕ) → All HostName nodes → HostName (get_or nodes i [])
get_or-HostName [] i h = (tt, tt)
get_or-HostName (x ∷ nodes) zero h = h.0
get_or-HostName (x ∷ nodes) (suc i) h = get_or-HostName nodes i h.1

host-HostName :
    (o : Options) (i : ℕ)
    → All HostName o.launcher.worker_nodes
    → HostName (host o.launcher (node_at o i))
unfolding host node_at
host-HostName o i h = elim (Bool-cases o.launcher.slurm) [
  | inl slurm ↦ rw slurm (get_or-HostName o.launcher.worker_nodes _ h)
  | inr other ↦ rw other (ground arith)
]

worker_address-Free :
    (o : Options) (i : ℕ) → All HostName o.launcher.worker_nodes → Free 44 (worker_address o i)
unfolding worker_address address
worker_address-Free o i h =
    All-append _ (host o.launcher (node_at o i)) _ (host-HostName o i h).0
      (refl, (Digit-HostName _ (decimal-Digit (port_at o i))).0)

all-Free :
    (o : Options) (start n : ℕ)
    → All HostName o.launcher.worker_nodes
    → All (Free 44) (map (worker_address o) (range_from start n))
all-Free o start zero h = tt
all-Free o start (suc n) h = (worker_address-Free o start h, all-Free o (suc start) n h)

get_elem?-range :
    {A : Type 0} (g : ℕ → A) (start n i : ℕ) (ys : List A)
    → i < n
    → get_elem? (map g (range_from start n) ++ ys) i ≡ some (g (start + i))
get_elem?-range g start zero i ys h = absurd (omega arith)
get_elem?-range g start (suc n) zero ys h = ap (λ k. some (g k)) (omega arith)
get_elem?-range g start (suc n) (suc i) ys h =
    get_elem?-range g (suc start) n i ys (omega arith) ∙ ap (λ k. some (g k)) (omega arith)

get_elem?-behind :
    {A : Type 0} (g : ℕ → A) (start n : ℕ) (y : A) (ys : List A)
    → get_elem? (map g (range_from start n) ++ y ∷ ys) n ≡ some y
get_elem?-behind g start zero y ys = refl
get_elem?-behind g start (suc n) y ys = get_elem?-behind g (suc start) n y ys

zero_plus : (i : ℕ) → 0 + i ≡ i
zero_plus i = omega arith

length-range : {A : Type 0} (g : ℕ → A) (start n : ℕ) → length (map g (range_from start n)) ≡ n
length-range g start zero = refl
length-range g start (suc n) = ap suc (length-range g (suc start) n)

module _ (f : Floats) (m : Measures f.Float) (mib : f.Float → f.Float) where
  -- the processes of a configuration whose ports all open
  all_started :
      (o : Options) (c : Config) (a : Answers f.Float)
      → all_open a.opens (addresses o c) ≡ true
      → a.opens (coordinator_address o) ≡ true
      → (rest : List (List Text)) × ((trial f m mib o c a).started
          ≡ map (worker_command o) (range_from 0 (count c.workers))
            ++ coordinator_command o c ∷ rest)
  unfolding trial
  all_started o c a workers coordinator =
      let clients = (if ltb 0 (count c.queries) then query_command o c ∷ [] else []) in
      (clients ++ streamer_command o c ∷ [], rw (workers, coordinator) (simp append_assoc refl))

  -- With at least one worker, nodes whose names have no comma and no colon, and ports that all open:
  -- the coordinator is started after the workers and gets one address for each of them, in their
  -- order, and the worker that is started `i`-th runs on the node of the `i`-th address and listens on
  -- its port, which is the base port and `i`.
  pub workers_given :
      (o : Options) (c : Config) (a : Answers f.Float) (n i : ℕ)
      → c.workers ≡ pos (suc n)
      → i < suc n
      → All HostName o.launcher.worker_nodes
      → all_open a.opens (addresses o c) ≡ true
      → a.opens (coordinator_address o) ≡ true
      → let l = o.launcher in
        let started = (trial f m mib o c a).started in
        (node : Text) × (port : Text) × (given : Text) × (adr : Text) × (get_elem? started i
          ≡ some (
              wrap l node
                (o.py
                  ∷ codes "worker.py"
                  ∷ codes "--port"
                  ∷ port
                  ∷ codes "--id"
                  ∷ (codes "w" ++ decimal i)
                  ∷ [])
                1))
        × (get_elem? started (suc n)
            ≡ some (
                wrap l l.coord_node
                  (o.py
                    ∷ codes "coordinator.py"
                    ∷ codes "--port"
                    ∷ decimal o.coord_port
                    ∷ codes "--workers"
                    ∷ given
                    ∷ codes "--dist"
                    ∷ c.dist
                    ∷ [])
                  4))
        × (length (split_on 44 given) ≡ suc n)
        × (get_elem? (split_on 44 given) i ≡ some adr)
        × (split_on 58 adr ≡ host l node ∷ port ∷ [])
        × (int_of_text port ≡ some (pos (o.coord_port + 9 + i)))
  unfolding addresses port_at worker_address address worker_command coordinator_command
  workers_given o c a n i e below h workers coordinator =
      let (rest, begun) = all_started o c a workers coordinator in
      let started : (trial f m mib o c a).started
          ≡ map (worker_command o) (range_from 0 (suc n)) ++ coordinator_command o c ∷ rest =
        begun
        ∙ ap (λ k. map (worker_command o) (range_from 0 k) ++ coordinator_command o c ∷ rest)
            (ap count e) in
      let port = decimal (port_at o i) in
      let coordinating : ℕ → List Text = λ k.
        wrap o.launcher o.launcher.coord_node
          (o.py
            ∷ codes "coordinator.py"
            ∷ codes "--port"
            ∷ decimal o.coord_port
            ∷ codes "--workers"
            ∷ join_with (codes ",") (map (worker_address o) (range_from 0 k))
            ∷ codes "--dist"
            ∷ c.dist
            ∷ [])
          4 in
      let given = join_with (codes ",") (map (worker_address o) (range_from 0 (suc n))) in
      let parts : split_on 44 given ≡ map (worker_address o) (range_from 0 (suc n)) =
        split_on-join_with (worker_address o 0) _ (all-Free o 0 (suc n) h) in
      (
        node_at o i,
        port,
        given,
        worker_address o i,
        ap (λ x. get_elem? x i) started
            ∙ get_elem?-range (worker_command o) 0 (suc n) i (coordinator_command o c ∷ rest) below
            ∙ ap (λ k. some (worker_command o k)) (zero_plus i),
        ap (λ x. get_elem? x (suc n)) started
            ∙ get_elem?-behind (worker_command o) 0 (suc n) (coordinator_command o c) rest
            ∙ ap (λ k. some (coordinating k)) (ap count e),
        ap length parts ∙ length-range (worker_address o) 0 (suc n),
        ap (λ x. get_elem? x i)
              (parts ∙ sym (append-nil (map (worker_address o) (range_from 0 (suc n)))))
            ∙ get_elem?-range (worker_address o) 0 (suc n) i [] below
            ∙ ap (λ k. some (worker_address o k)) (zero_plus i),
        split_on-piece 58 (host o.launcher (node_at o i)) port (host-HostName o i h).1
            ∙ ap (λ x. host o.launcher (node_at o i) ∷ x)
                (split_on-Free 58 _ (Digit-HostName _ (decimal-Digit (port_at o i))).1),
        int_of_text-decimal (o.coord_port + 9 + i),
      )
