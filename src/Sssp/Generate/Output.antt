-- ===== src/Sssp/Generate/Output.antt =====
-- section1/q2_sssp/gen_graph.py: the text that it writes, and what oracle.py reads from it.
pub mod ReadBack
use dist_compute.Base.{ℕ, Bool, List, [], ◌∷◌, ◌++◌, ltb, nat_beq, ◌&&◌, ◌||◌, length}
use dist_compute.Base.Order.Sort.{sort_by}
use dist_compute.Base.Text.{Text, codes, decimal}
use dist_compute.Sssp.Generate.{Edge}

-- `rng.shuffle` and `rng.randint(1, n)` on the states of the generator
pub record Chances (S : Type 0) : Type 0 where
  pub shuffle : List Edge → S → List Edge × S
  pub randint : ℕ → S → ℕ × S

-- the order of pairs
abbrev pub edge_before : Edge → Edge → Bool
edge_before (u, v) (a, b) = ltb u a || (nat_beq u a && ltb v b)

pub head_line : ℕ → ℕ → Text
head_line v n = decimal v ++ codes " " ++ decimal n ++ codes "\n"

pub edge_line : ℕ → ℕ → ℕ → Text
edge_line u v w = decimal u ++ codes " " ++ decimal v ++ codes " " ++ decimal w ++ codes "\n"

module _ {S : Type 0} (chances : Chances S) where
  open chances use {shuffle, randint}

  -- the edges with their weights
  unfoldable pub weigh : ℕ → List Edge → S → List (Edge × ℕ)
  weigh wmax [] s = []
  weigh wmax (e ∷ es) s = let (w, s') = randint wmax s in (e, w) ∷ weigh wmax es s'

  -- the edges as they are written, in the state that the generator has come to
  unfoldable pub written : ℕ → List Edge → S → List (Edge × ℕ)
  unfolding weigh
  written wmax edges s = let (es, s') = shuffle (sort_by edge_before edges) s in weigh wmax es s'

pub edge_lines : List (Edge × ℕ) → Text
unfolding edge_line
edge_lines [] = []
edge_lines (((u, v), w) ∷ es) = edge_line u v w ++ edge_lines es

-- what is written of a graph with `v` vertices
pub graph_text : ℕ → List (Edge × ℕ) → Text
unfolding head_line edge_lines
graph_text v es = head_line v (length es) ++ edge_lines es
