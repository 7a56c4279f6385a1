-- ===== src/Sssp/Tests.antt =====
-- The generator of section1/q2_sssp and its reference program on a small graph.
use mathlib.Core.Option
use dist_compute.Base.{
  ℕ, ◌+◌, ◌-◌, ◌%◌, ◌≡◌, refl, none, some, List, [], ◌∷◌, ◌⊎◌, ◌≤◌, ◌<◌, zero, suc, get_or,
  get_elem?, arith, replicate,
}
use Prim.Native.Nat.{max}
use dist_compute.Base.Text.Parse.{split_words, int_of_text}
use dist_compute.Base.Text.{decimal, codes}
use dist_compute.Sssp.{Edges, sssp, shortest, Distance, finished, no_edges, read_graph, dist_lines}
use dist_compute.Sssp.Shortest.{Sound, sssp-Sound, Walk, start, step}
use dist_compute.Sssp.Optimal.{InRange, sssp-ends, sssp-shortest, sssp-unreachable}
use dist_compute.Sssp.Generate.{Random, layered, Edge, generate}
use dist_compute.Base.Order.Sort.{sort_by}
use dist_compute.Sssp.Generate.Output.{graph_text, Chances, written}
use dist_compute.Sssp.Generate.Output.ReadBack.{
  adjacency, read_graph-graph_text, shortest-graph_text,
}
use dist_compute.Sssp.Generate.Simple.{Simple, generate-Simple}

abbrev counter : Random
counter = record { State = ℕ; randrange = λ n s. (s % n, s + 7) }

abbrev nine : ℕ
nine = 9

generate-Simple_example :
    ((generate counter layered 9 12 2 5 ≡ none) × ((layered ≡ layered) ⊎ ((nine ≡ 0) × (0 < 12))))
    ⊎ ((es : List Edge) × (generate counter layered 9 12 2 5 ≡ some es) × Simple (max (9 - 2) 1) es)
generate-Simple_example = generate-Simple counter layered 9 12 2 5

shortest_run :
    shortest 9 (codes "4 4 0 1 9 0 2 1 2 1 3 1 0 1")
    ≡ some (codes "0 0" ∷ codes "1 4" ∷ codes "2 1" ∷ codes "3 INF" ∷ [])
unfolding shortest Option.bind split_words int_of_text decimal
shortest_run = refl

abbrev square : List Edges
square = ((1, 9) ∷ (2, 1) ∷ []) ∷ [] ∷ ((1, 3) ∷ []) ∷ ((0, 1) ∷ []) ∷ []

sssp-Sound_example : Sound square (sssp 9 square)
sssp-Sound_example = sssp-Sound square 9

abbrev corner : Edges
corner = (1, 9) ∷ (2, 1) ∷ []

abbrev others : List Edges
others = [] ∷ ((1, 3) ∷ []) ∷ ((0, 1) ∷ []) ∷ []

in_range : InRange square
in_range = ((omega arith, (omega arith, tt)), (tt, ((omega arith, tt), ((omega arith, tt), tt))))

abbrev found : List Distance
found = some 0 ∷ some 4 ∷ some 1 ∷ none ∷ []

run_ends : sssp 9 square ≡ finished found
unfolding sssp
run_ends = refl

sssp-ends_example : (fuel : ℕ) × (dist : List Distance) × (sssp fuel square ≡ finished dist)
sssp-ends_example = sssp-ends corner others in_range

-- the direct edge to vertex 1 is longer
direct : Walk square 1 9
direct = step 0 0 0 1 9 start refl

sssp-shortest_example : (d : ℕ) × (get_elem? found 1 ≡ some (some d)) × Walk square 1 d × (d ≤ 9)
sssp-shortest_example = sssp-shortest corner others 9 found 1 9 in_range run_ends direct

targets : (u i v w : ℕ) → get_elem? (get_or square u no_edges) i ≡ some (v, w) → v < 3
targets zero zero v w h = ground (arith, h)
targets zero (suc zero) v w h = ground (arith, h)
targets zero (suc (suc i)) v w h = absurd (ground (arith, h))
targets (suc zero) i v w h = absurd (ground (arith, h))
targets (suc (suc zero)) zero v w h = ground (arith, h)
targets (suc (suc zero)) (suc i) v w h = absurd (ground (arith, h))
targets (suc (suc (suc zero))) zero v w h = ground (arith, h)
targets (suc (suc (suc zero))) (suc i) v w h = absurd (ground (arith, h))
targets (suc (suc (suc (suc u)))) i v w h = absurd (ground (arith, h))

none_to : (v e : ℕ) → v ≡ 3 → Walk square v e → ⊥
none_to _ _ h start = absurd (omega arith)
none_to _ _ h (step u d i v w walk edge) = absurd (omega (arith, h, targets u i v w edge))

sssp-unreachable_example : get_elem? found 3 ≡ some none
sssp-unreachable_example =
    sssp-unreachable corner others 9 found 3 in_range (omega arith) run_ends (λ e. none_to 3 e refl)

abbrev weighed : List (Edge × ℕ)
weighed = ((0, 1), 9) ∷ ((0, 2), 1) ∷ ((2, 1), 3) ∷ ((3, 0), 1) ∷ []

read_graph-graph_text_example :
    read_graph (split_words (graph_text 4 weighed))
    ≡ some (adjacency weighed (replicate 4 no_edges))
read_graph-graph_text_example =
    read_graph-graph_text 4 weighed (omega arith, (omega arith, (omega arith, (omega arith, tt))))

shortest-graph_text_example :
    (fuel : ℕ) × (dist : List Distance) × (sssp fuel (adjacency weighed (replicate 4 no_edges))
      ≡ finished dist)
    × (shortest fuel (graph_text 4 weighed) ≡ some (dist_lines 0 dist))
shortest-graph_text_example =
    shortest-graph_text 4 weighed (omega arith)
      (omega arith, (omega arith, (omega arith, (omega arith, tt))))
      (omega arith, (omega arith, (omega arith, (omega arith, tt))))

-- a shuffle that leaves the order, and weights that count up
abbrev in_order : Chances ℕ
in_order = record { shuffle = λ es s. (es, s); randint = λ n s. (s, s + 1) }

written_run : written in_order 9 ((2, 1) ∷ (0, 1) ∷ []) 5 ≡ ((0, 1), 5) ∷ ((2, 1), 6) ∷ []
unfolding written sort_by
written_run = refl
