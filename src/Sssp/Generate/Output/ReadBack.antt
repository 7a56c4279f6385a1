-- ===== src/Sssp/Generate/Output/ReadBack.antt =====
-- The text of gen_graph.py in section1/q2_sssp, read by oracle.py.
use mathlib.Core.Option
use mathlib.Core.List.{append_assoc}
use dist_compute.Base.{
  ℕ, zero, suc, ◌<◌, ◌≡◌, refl, ap, ◌∙◌, some, List, [], ◌∷◌, ◌++◌, arith, length, get_or, set,
  replicate, All, length-set, length-replicate, All-append,
}
use dist_compute.Base.Text.{Text, decimal, is_space}
use dist_compute.Base.Text.Numeral.{int_of_text-decimal, split_words-decimal}
use dist_compute.Base.Text.Parse.{split_words}
use dist_compute.Sssp.Relax.{Targets}
use dist_compute.Sssp.Optimal.{InRange, sssp-ends}
use dist_compute.Sssp.{
  sssp, finished, Distance, shortest, dist_lines, lines_of, Edges, no_edges, number, add_edge,
  read_edges, read_graph,
}
use dist_compute.Sssp.Generate.{Edge}
use dist_compute.Sssp.Generate.Output.{graph_text, head_line, edge_line, edge_lines}

-- the lists of `adj` after the appends
abbrev pub adjacency : List (Edge × ℕ) → List Edges → List Edges
adjacency [] adj = adj
adjacency (((u, v), w) ∷ es) adj = adjacency es (set adj u (get_or adj u no_edges ++ (v, w) ∷ []))

abbrev words_of : List (Edge × ℕ) → List Text
words_of [] = []
words_of (((u, v), w) ∷ es) = decimal u ∷ decimal v ∷ decimal w ∷ words_of es

line_assoc :
    (a b c rest : Text) (x y z : ℕ)
    → a ++ (x ∷ []) ++ b ++ (y ∷ []) ++ c ++ (z ∷ []) ++ rest ≡ a ++ x ∷ (b ++ y ∷ (c ++ z ∷ rest))
line_assoc a b c rest x y z = simp append_assoc refl

head_assoc :
    (a b rest : Text) (x y : ℕ) → a ++ (x ∷ []) ++ b ++ (y ∷ []) ++ rest ≡ a ++ x ∷ (b ++ y ∷ rest)
head_assoc a b rest x y = simp append_assoc refl

split_words-edges : (es : List (Edge × ℕ)) → split_words (edge_lines es) ≡ words_of es
unfolding edge_lines edge_line split_words is_space
split_words-edges [] = refl
split_words-edges (((u, v), w) ∷ es) =
    ap split_words (line_assoc (decimal u) (decimal v) (decimal w) (edge_lines es) 32 32 10)
    ∙ split_words-decimal u 32 _ refl
    ∙ ap (◌∷◌ (decimal u)) (
        split_words-decimal v 32 _ refl
        ∙ ap (◌∷◌ (decimal v))
            (split_words-decimal w 10 _ refl ∙ ap (◌∷◌ (decimal w)) (split_words-edges es)))

number-decimal : (n : ℕ) → number (decimal n) ≡ some n
unfolding number Option.bind
number-decimal n = rw int_of_text-decimal refl

add_edge-in_range :
    (adj : List Edges) (u v w : ℕ)
    → u < length adj
    → add_edge adj u v w ≡ some (set adj u (get_or adj u no_edges ++ (v, w) ∷ []))
unfolding add_edge
add_edge-in_range adj u v w h = ground arith

read_edges-words :
    (es : List (Edge × ℕ)) (adj : List Edges)
    → All (λ (e : Edge × ℕ). e.0.0 < length adj) es
    → read_edges (length es) (words_of es) adj ≡ some (adjacency es adj)
unfolding read_edges Option.bind
read_edges-words [] adj h = refl
read_edges-words (((u, v), w) ∷ es) adj h =
    rw (number-decimal u, number-decimal v, number-decimal w, add_edge-in_range adj u v w h.0)
      (read_edges-words es _ (rw (length-set adj u _) h.1))

-- What the generator writes of a graph with `v` vertices, whose edges start at these vertices, the
-- reference program reads as that graph: `v` lists, to which the edges are appended in the order in
-- which they are written, with their weights.
pub read_graph-graph_text :
    (v : ℕ) (es : List (Edge × ℕ))
    → All (λ (e : Edge × ℕ). e.0.0 < v) es
    → read_graph (split_words (graph_text v es)) ≡ some (adjacency es (replicate v no_edges))
unfolding graph_text head_line read_graph split_words is_space Option.bind
read_graph-graph_text v es h =
    ap (λ t. read_graph t)
      (ap split_words (head_assoc (decimal v) (decimal (length es)) (edge_lines es) 32 10)
        ∙ split_words-decimal v 32 _ refl
        ∙ ap (◌∷◌ (decimal v)) (
            split_words-decimal (length es) 10 _ refl
            ∙ ap (◌∷◌ (decimal (length es))) (split_words-edges es)))
    ∙ rw (number-decimal v, number-decimal (length es))
        (read_edges-words es (replicate v no_edges) (rw (length-replicate v no_edges) h))

length-adjacency :
    (es : List (Edge × ℕ)) (adj : List Edges) → length (adjacency es adj) ≡ length adj
length-adjacency [] adj = refl
length-adjacency (((u, v), w) ∷ es) adj = length-adjacency es _ ∙ length-set adj u _

set-Targets :
    (n u : ℕ) (row : Edges) (adj : List Edges)
    → Targets n row
    → All (Targets n) adj
    → All (Targets n) (set adj u row)
set-Targets n u row [] t h = tt
set-Targets n zero row (es ∷ adj) t h = (t, h.1)
set-Targets n (suc u) row (es ∷ adj) t h = (h.0, set-Targets n u row adj t h.1)

get_or-Targets :
    (n u : ℕ) (adj : List Edges) → All (Targets n) adj → Targets n (get_or adj u no_edges)
get_or-Targets n u [] h = tt
get_or-Targets n zero (es ∷ adj) h = h.0
get_or-Targets n (suc u) (es ∷ adj) h = get_or-Targets n u adj h.1

adjacency-Targets :
    (n : ℕ) (es : List (Edge × ℕ)) (adj : List Edges)
    → All (λ (e : Edge × ℕ). e.0.1 < n) es
    → All (Targets n) adj
    → All (Targets n) (adjacency es adj)
adjacency-Targets n [] adj h g = g
adjacency-Targets n (((u, v), w) ∷ es) adj h g = adjacency-Targets n es _ h.1 (
    set-Targets n u _ adj
      (All-append _ (get_or adj u no_edges) _ (get_or-Targets n u adj g) (h.0, tt)) g)

replicate-Targets : (n v : ℕ) → All (Targets n) (replicate v no_edges)
replicate-Targets n zero = tt
replicate-Targets n (suc v) = (tt, replicate-Targets n v)

ends_on :
    (adj : List Edges)
    → 0 < length adj
    → InRange adj
    → (fuel : ℕ) × (dist : List Distance) × (sssp fuel adj ≡ finished dist)
ends_on [] h g = absurd (omega arith)
ends_on (es ∷ adj) h g = sssp-ends es adj g

-- The reference program ends on every graph that the generator writes: for a graph with at least one
-- vertex whose edges start and end at its vertices, it reads the graph that was written, its loop
-- ends on it, and it prints the distances that the loop has found.
pub shortest-graph_text :
    (v : ℕ) (es : List (Edge × ℕ))
    → 0 < v
    → All (λ (e : Edge × ℕ). e.0.0 < v) es
    → All (λ (e : Edge × ℕ). e.0.1 < v) es
    → (fuel : ℕ) × (dist : List Distance) × (sssp fuel (adjacency es (replicate v no_edges))
        ≡ finished dist)
      × (shortest fuel (graph_text v es) ≡ some (dist_lines 0 dist))
unfolding shortest Option.bind lines_of
shortest-graph_text v es some_v sources targets =
    let adj = adjacency es (replicate v no_edges) in
    let size : length adj ≡ v =
      length-adjacency es (replicate v no_edges) ∙ length-replicate v no_edges in
    let (fuel, dist, ends) =
      ends_on adj (rw size some_v)
        (rw size (adjacency-Targets v es (replicate v no_edges) targets (replicate-Targets v v))) in
    (fuel, dist, ends, rw (read_graph-graph_text v es sources) (ap lines_of ends))
