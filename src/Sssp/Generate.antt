-- ===== src/Sssp/Generate.antt =====
-- section1/q2_sssp/gen_graph.py: the edges that the generator chooses. Python's `random` is a
-- parameter; `cut` is `int(a.unreachable * V)`. The text of the output is in the child Output.
pub mod Output
pub mod Simple
use dist_compute.Base.{
  ℕ, zero, suc, ◌+◌, ◌-◌, ◌*◌, ◌/◌, ◌<◌, ◌≡◌, ◌≢◌, refl, Bool, true, false, not, ◌&&◌, ◌||◌, Option,
  none, some, List, [], ◌∷◌, ◌++◌, arith, ltb, leb, nat_beq, if◌then◌else◌, length, get_or, All,
  All-append, inl, inr, Bool-cases, Option-cases,
}
use Prim.Native.Nat.{min, max}

-- `rng.randrange(n)` for a positive `n`, and the state of the generator after it
pub record Random : Type 1 where
  pub State : Type 0
  pub randrange : ℕ → State → ℕ × State

pub data Shape : Type 0 where
  random chain layered star : Shape

abbrev pub Edge : Type 0
Edge = ℕ × ℕ

-- `(u, v) in edges`
pub has_edge : List Edge → ℕ → ℕ → Bool
has_edge [] u v = false
has_edge ((a, b) ∷ es) u v = (nat_beq a u && nat_beq b v) || has_edge es u v

-- `add`, on the edges so far; the set is kept as a list
pub add : ℕ → List Edge → ℕ → ℕ → List Edge
unfolding has_edge
add reach es u v =
    if not (nat_beq u v) && ltb v reach && not (has_edge es u v) then es ++ (u, v) ∷ [] else es

-- the loop of the chain, from `i` on
pub add_chain : ℕ → ℕ → ℕ → List Edge → List Edge
unfolding add
add_chain reach zero i es = es
add_chain reach (suc n) i es = add_chain reach n (i + 1) (add reach es i (i + 1))

pub add_star : ℕ → ℕ → ℕ → List Edge → List Edge
unfolding add
add_star reach zero i es = es
add_star reach (suc n) i es = add_star reach n (i + 1) (add reach es 0 i)

-- `math.isqrt(n)`: the largest number with a square of at most `n`, from `k` down
isqrt_from : ℕ → ℕ → ℕ
isqrt_from n zero = 0
isqrt_from n (suc k) = let less = isqrt_from n k in if leb (suc k * suc k) n then suc k else less

pub isqrt : ℕ → ℕ
unfolding isqrt_from
isqrt n = isqrt_from n n

-- `layer(x)`, with `l` layers
pub layer : ℕ → ℕ → ℕ → ℕ
layer reach l x = min (x * l / reach) (l - 1)

-- `by_layer[k]`: the vertices from `x` on that are in the layer
pub by_layer : ℕ → ℕ → ℕ → ℕ → ℕ → List ℕ
unfolding layer
by_layer reach l k zero x = []
by_layer reach l k (suc n) x =
    let rest = by_layer reach l k n (x + 1) in
    if nat_beq (layer reach l x) k then x ∷ rest else rest

module _ (r : Random) where
  open r use {State, randrange}

  -- `rng.randrange(n)`, `none` for the ValueError of an empty range
  pub draw : ℕ → State → Option (ℕ × State)
  draw zero s = none
  draw (suc n) s = some (randrange (suc n) s)

  -- `rng.choice(vertices)`; no layer is empty in a list that is chosen from, else `none` (KeyError)
  pub choice : List ℕ → State → Option (ℕ × State)
  choice [] s = none
  choice (x ∷ xs) s = let (i, s') = randrange (length (x ∷ xs)) s in some (get_or (x ∷ xs) i x, s')

  -- the loop over the vertices of one layer
  pub add_layer : ℕ → List ℕ → List ℕ → List Edge → State → Option (List Edge × State)
  unfolding add choice
  add_layer reach next [] es s = some (es, s)
  add_layer reach next (x ∷ xs) es s = elim (choice next s) [
    | none ↦ none
    | some (v, s') ↦ add_layer reach next xs (add reach es x v) s'
  ]

  -- the loop over the layers, from layer `k` on
  pub add_layers : ℕ → ℕ → ℕ → ℕ → List Edge → State → Option (List Edge × State)
  unfolding add_layer by_layer
  add_layers reach l zero k es s = some (es, s)
  add_layers reach l (suc n) k es s =
      elim (add_layer reach (by_layer reach l (k + 1) reach 0) (by_layer reach l k reach 0) es s) [
        | none ↦ none
        | some (es', s') ↦ add_layers reach l n (k + 1) es' s'
      ]

  -- the branch of the shape
  pub first_edges : Shape → ℕ → ℕ → State → Option (List Edge × State)
  unfolding add_chain add_star add_layers isqrt
  first_edges random v reach s = some ([], s)
  first_edges chain v reach s = some (add_chain reach (min reach v - 1) 0 [], s)
  first_edges star v reach s = some (add_star reach (reach - 1) 1 [], s)
  first_edges layered v reach s = let l = max 2 (isqrt reach) in add_layers reach l (l - 1) 0 [] s

  -- a drawn vertex as a target
  abbrev pub to_target : Option (ℕ × State) → Option (Option ℕ × State)
  to_target none = none
  to_target (some (v, s)) = some (some v, s)

  -- the target of a further edge from `u`; no target for a vertex that has no next layer
  pub target : Shape → ℕ → ℕ → State → Option (Option ℕ × State)
  unfolding choice draw isqrt layer by_layer
  target layered reach u s =
      let l = max 2 (isqrt reach) in
      if leb l (layer reach l u + 1) || leb reach u
      then some (none, s)
      else to_target (choice (by_layer reach l (layer reach l u + 1) reach 0) s)
  target _ reach u s = to_target (draw reach s)

  abbrev pub add_target : ℕ → List Edge → ℕ → Option ℕ → List Edge
  add_target reach es u none = es
  add_target reach es u (some v) = add reach es u v

  -- the loop `while len(edges) < E and tries < 50 * E`, with the tries that are left
  pub further_edges : Shape → ℕ → ℕ → ℕ → ℕ → List Edge → State → Option (List Edge)
  unfolding add draw target
  further_edges shape v reach e zero es s = some es
  further_edges shape v reach e (suc tries) es s =
      if ltb (length es) e
      then elim (draw v s) [
        | none ↦ none
        | some (u, s₁) ↦ elim (target shape reach u s₁) [
          | none ↦ none
          | some (t, s₂) ↦ further_edges shape v reach e tries (add_target reach es u t) s₂
        ]
      ]
      else some es

  abbrev then_further : Shape → ℕ → ℕ → ℕ → Option (List Edge × State) → Option (List Edge)
  then_further shape v reach e none = none
  then_further shape v reach e (some (es, s)) = further_edges shape v reach e (50 * e) es s

  -- `main` up to the sorting: the edges of a graph with `v` vertices
  pub generate : Shape → ℕ → ℕ → ℕ → State → Option (List Edge)
  unfolding first_edges further_edges
  generate shape v e cut s =
      let reach = max (v - cut) 1 in then_further shape v reach e (first_edges shape v reach s)
