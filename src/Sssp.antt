-- ===== src/Sssp.antt =====
-- section1/q2_sssp/oracle.py: Dijkstra's algorithm on a graph in the assignment's format. The words
-- of the input are read as natural numbers: the format has no negative ones, and a word that is
-- none, like a missing one or a vertex out of range, ends the run (`none`).
pub mod Ends
pub mod Relax
pub mod Optimal
pub mod Shortest
pub mod Generate
mod Tests
use mathlib.Core.Option
use dist_compute.Base.{
  ℕ, zero, suc, ◌+◌, ◌*◌, Bool, true, false, ◌&&◌, ◌||◌, Option, none, some, List, [], ◌∷◌, ◌++◌,
  ltb, nat_beq, if◌then◌else◌, length, get_elem?, get_or, set, replicate,
}
use dist_compute.Base.Int.{ℤ, pos, negsuc}
use dist_compute.Base.Text.{Text, codes, decimal}
use dist_compute.Base.Text.Parse.{split_words, int_of_text}

-- an edge `(v, w)` in the list of its source
abbrev pub Edges : Type 0
Edges = List (ℕ × ℕ)

abbrev pub no_edges : Edges
no_edges = []

natural : ℤ → Option ℕ
natural (pos n) = some n
natural (negsuc n) = none

pub number : Text → Option ℕ
unfolding natural
number t = Option.bind (int_of_text t) natural

-- `adj[u].append((v, w))`
pub add_edge : List Edges → ℕ → ℕ → ℕ → Option (List Edges)
add_edge adj u v w =
    if ltb u (length adj) then some (set adj u (get_or adj u no_edges ++ (v, w) ∷ [])) else none

-- the loop over the edges, on the words that are left
pub read_edges : ℕ → List Text → List Edges → Option (List Edges)
unfolding number add_edge
read_edges zero ws adj = some adj
read_edges (suc e) (a ∷ b ∷ c ∷ ws) adj = Option.bind (number a) λ u.
    Option.bind (number b)
      λ v. Option.bind (number c) λ w. Option.bind (add_edge adj u v w) (read_edges e ws)
read_edges (suc e) _ adj = none

pub read_graph : List Text → Option (List Edges)
unfolding number read_edges
read_graph (a ∷ b ∷ ws) =
    Option.bind (number a) λ v. Option.bind (number b) λ e. read_edges e ws (replicate v [])
read_graph _ = none

-- a distance, `none` for INF
abbrev pub Distance : Type 0
Distance = Option ℕ

-- `x < d`
abbrev pub below : ℕ → Distance → Bool
below x none = true
below x (some d) = ltb x d

-- `d < x`
abbrev pub above : ℕ → Distance → Bool
above x none = false
above x (some d) = ltb d x

-- `heapq`: the entries in order, so that the front is what `heappop` gives
pub heappush : ℕ × ℕ → List (ℕ × ℕ) → List (ℕ × ℕ)
heappush (d, u) [] = (d, u) ∷ []
heappush (d, u) ((e, v) ∷ pq) =
    if ltb e d || (nat_beq e d && ltb v u)
    then (e, v) ∷ heappush (d, u) pq
    else (d, u) ∷ (e, v) ∷ pq

-- the loop over the edges of a vertex; `none` is the IndexError of a target out of range
pub relax : ℕ → Edges → List Distance × List (ℕ × ℕ) → Option (List Distance × List (ℕ × ℕ))
unfolding heappush
relax d [] s = some s
relax d ((v, w) ∷ es) (dist, pq) = elim (get_elem? dist v) [
  | none ↦ none
  | some old ↦ relax d es (
      if below (d + w) old then (set dist v (some (d + w)), heappush (d + w, v) pq) else (dist, pq))
]

-- how a run of the loop ends, or where it is when the fuel is gone
pub data Outcome : Type 0 where
  finished : List Distance → Outcome
  index_error : Outcome
  still : List Distance → List (ℕ × ℕ) → Outcome

-- `while pq`
pub search : ℕ → List Edges → List Distance → List (ℕ × ℕ) → Outcome
unfolding relax
search fuel adj dist [] = finished dist
search zero adj dist ((d, u) ∷ pq) = still dist ((d, u) ∷ pq)
search (suc fuel) adj dist ((d, u) ∷ pq) = elim (get_elem? dist u) [
  | none ↦ index_error
  | some best ↦
      let skipped = search fuel adj dist pq in
      if above d best then skipped else elim (relax d (get_or adj u no_edges) (dist, pq)) [
        | none ↦ index_error
        | some (dist', pq') ↦ search fuel adj dist' pq'
      ]
]

-- the start: `dist[0] = 0` and `pq = [(0, 0)]`
pub sssp : ℕ → List Edges → Outcome
unfolding search
sssp fuel [] = index_error
sssp fuel (es ∷ adj) = search fuel (es ∷ adj) (some 0 ∷ replicate (length adj) none) ((0, 0) ∷ [])

dist_text : Distance → Text
dist_text none = codes "INF"
dist_text (some d) = decimal d

-- the lines of the output, from vertex `i` on
pub dist_lines : ℕ → List Distance → List Text
unfolding dist_text
dist_lines i [] = []
dist_lines i (d ∷ ds) = (decimal i ++ 32 ∷ dist_text d) ∷ dist_lines (i + 1) ds

pub lines_of : Outcome → Option (List Text)
unfolding dist_lines
lines_of (finished dist) = some (dist_lines 0 dist)
lines_of _ = none

-- `main`, with fuel for the loop
unfoldable pub shortest : ℕ → Text → Option (List Text)
unfolding read_graph sssp lines_of
shortest fuel input = Option.bind (read_graph (split_words input)) λ adj. lines_of (sssp fuel adj)
