-- ===== src/Sssp/Generate/Simple.antt =====
-- The graphs of section1/q2_sssp/gen_graph.py are simple, and the vertices that are to be unreachable
-- have no edge into them.
use dist_compute.Base.{
  ℕ, zero, suc, ◌+◌, ◌-◌, ◌*◌, ◌<◌, ◌≡◌, refl, false, ◌&&◌, ◌||◌, not, Option, none, some, List, [],
  ◌∷◌, ◌++◌, arith, ltb, nat_beq, length, All, All-append, ◌⊎◌, inl, inr, Bool-cases, Option-cases,
}
use Prim.Native.Nat.{min, max}
use dist_compute.Sssp.Generate.{
  Random, Shape, random, chain, layered, star, Edge, has_edge, add, add_chain, add_star, choice,
  add_layer, add_layers, by_layer, first_edges, target, to_target, draw, further_edges, add_target,
  generate, isqrt,
}

-- no edge from a vertex to itself, none to a vertex from `reach` on
abbrev pub Allowed : ℕ → Edge → Type 0
Allowed reach (u, v) = (nat_beq u v ≡ false) × (v < reach)

-- no edge twice
abbrev pub NoTwice : List Edge → Type 0
NoTwice [] = Unit
NoTwice (e ∷ es) = (has_edge es e.0 e.1 ≡ false) × NoTwice es

pub record Simple (reach : ℕ) (es : List Edge) : Type 0 where
  pub allowed : All (Allowed reach) es
  pub no_twice : NoTwice es

has_edge-append :
    (es : List Edge) (u v a b : ℕ)
    → has_edge (es ++ (u, v) ∷ []) a b ≡ (has_edge es a b || (nat_beq u a && nat_beq v b))
unfolding has_edge
has_edge-append [] u v a b = ground arith
has_edge-append ((c, d) ∷ es) u v a b = ground (arith, has_edge-append es u v a b)

NoTwice-append :
    (es : List Edge) (u v : ℕ) → has_edge es u v ≡ false → NoTwice es → NoTwice (es ++ (u, v) ∷ [])
unfolding has_edge
NoTwice-append [] u v new h = (refl, tt)
NoTwice-append ((a, b) ∷ es) u v new h =
    (ground (arith, has_edge-append es u v a b), NoTwice-append es u v (ground arith) h.1)

add-Simple :
    (reach : ℕ) (es : List Edge) (u v : ℕ) → Simple reach es → Simple reach (add reach es u v)
unfolding add
add-Simple reach es u v h =
    elim (Bool-cases (not (nat_beq u v) && ltb v reach && not (has_edge es u v))) [
      | inl new ↦ rw new (record {
        allowed =
            All-append (Allowed reach) es ((u, v) ∷ []) h.allowed
              ((ground arith, ground arith), tt);
        no_twice = NoTwice-append es u v (ground arith) h.no_twice;
      })
      | inr old ↦ rw old h
    ]

none-Simple : (reach : ℕ) → Simple reach []
none-Simple reach = record { allowed = tt; no_twice = tt }

add_chain-Simple :
    (reach n i : ℕ) (es : List Edge) → Simple reach es → Simple reach (add_chain reach n i es)
unfolding add_chain
add_chain-Simple reach zero i es h = h
add_chain-Simple reach (suc n) i es h =
    add_chain-Simple reach n (i + 1) (add reach es i (i + 1)) (add-Simple reach es i (i + 1) h)

add_star-Simple :
    (reach n i : ℕ) (es : List Edge) → Simple reach es → Simple reach (add_star reach n i es)
unfolding add_star
add_star-Simple reach zero i es h = h
add_star-Simple reach (suc n) i es h =
    add_star-Simple reach n (i + 1) (add reach es 0 i) (add-Simple reach es 0 i h)

module _ (r : Random) where
  open r use {State, randrange}

  -- edges and a state, if no choice failed
  abbrev Chosen : ℕ → Option (List Edge × State) → Type 0
  Chosen reach none = Unit
  Chosen reach (some (es, s)) = Simple reach es

  add_layer-Simple :
      (reach : ℕ) (next xs : List ℕ) (es : List Edge) (s : State)
      → Simple reach es
      → Chosen reach (add_layer r reach next xs es s)
  unfolding add_layer
  add_layer-Simple reach next [] es s h = h
  add_layer-Simple reach next (x ∷ xs) es s h = elim (Option-cases (choice r next s)) [
    | inl failed ↦ rw (Chosen, add_layer, failed) tt
    | inr ((v, s'), chosen) ↦
        rw (Chosen, add_layer, chosen)
          (add_layer-Simple reach next xs (add reach es x v) s' (add-Simple reach es x v h))
  ]

  add_layers-Simple :
      (reach l n k : ℕ) (es : List Edge) (s : State)
      → Simple reach es
      → Chosen reach (add_layers r reach l n k es s)
  unfolding add_layers
  add_layers-Simple reach l zero k es s h = h
  add_layers-Simple reach l (suc n) k es s h =
      let next = by_layer reach l (k + 1) reach 0 in
      let xs = by_layer reach l k reach 0 in
      elim (Option-cases (add_layer r reach next xs es s)) [
        | inl failed ↦ rw (Chosen, add_layers, failed) tt
        | inr ((es', s'), chosen) ↦
            rw (Chosen, add_layers, chosen)
              (add_layers-Simple reach l n (k + 1) es' s'
                (rw chosen at (add_layer-Simple reach next xs es s h)))
      ]

  first_edges-Simple :
      (shape : Shape) (v reach : ℕ) (s : State) → Chosen reach (first_edges r shape v reach s)
  unfolding first_edges
  first_edges-Simple random v reach s = none-Simple reach
  first_edges-Simple chain v reach s =
      add_chain-Simple reach (min reach v - 1) 0 [] (none-Simple reach)
  first_edges-Simple star v reach s = add_star-Simple reach (reach - 1) 1 [] (none-Simple reach)
  first_edges-Simple layered v reach s =
      add_layers-Simple reach (max 2 (isqrt reach)) (max 2 (isqrt reach) - 1) 0 [] s
        (none-Simple reach)

  -- the edges, if nothing failed; only a layered graph has choices that can fail, and only a graph
  -- without vertices has no vertex to draw
  abbrev Made : Shape → ℕ → ℕ → ℕ → Option (List Edge) → Type 0
  Made shape v reach e o =
      ((o ≡ none) × ((shape ≡ layered) ⊎ ((v ≡ 0) × (0 < e))))
      ⊎ ((es : List Edge) × (o ≡ some es) × Simple reach es)

  drawn : (n : ℕ) (s : State) → draw r n s ≡ none → n ≡ 0
  unfolding draw
  drawn zero s h = refl
  drawn (suc n) s h = absurd cc

  to_target-none : (o : Option (ℕ × State)) → to_target r o ≡ none → o ≡ none
  to_target-none none h = refl
  to_target-none (some x) h = absurd cc

  target-layered :
      (shape : Shape) (reach u : ℕ) (s : State)
      → 0 < reach
      → target r shape reach u s ≡ none
      → shape ≡ layered
  unfolding target
  target-layered layered reach u s some_reach h = refl
  target-layered random reach u s some_reach h =
      absurd (omega (arith, some_reach, drawn reach s (to_target-none (draw r reach s) h)))
  target-layered chain reach u s some_reach h =
      absurd (omega (arith, some_reach, drawn reach s (to_target-none (draw r reach s) h)))
  target-layered star reach u s some_reach h =
      absurd (omega (arith, some_reach, drawn reach s (to_target-none (draw r reach s) h)))

  add_target-Simple :
      (reach : ℕ) (es : List Edge) (u : ℕ) (t : Option ℕ)
      → Simple reach es
      → Simple reach (add_target r reach es u t)
  add_target-Simple reach es u none h = h
  add_target-Simple reach es u (some v) h = add-Simple reach es u v h

  further_edges-Made :
      (shape : Shape) (v reach e tries : ℕ) (es : List Edge) (s : State)
      → 0 < reach
      → Simple reach es
      → Made shape v reach e (further_edges r shape v reach e tries es s)
  unfolding further_edges
  further_edges-Made shape v reach e zero es s some_reach h = inr (es, refl, h)
  further_edges-Made shape v reach e (suc tries) es s some_reach h =
      elim (Bool-cases (ltb (length es) e)) [
        | inr enough ↦ inr (es, rw enough refl, h)
        | inl more ↦ elim (Option-cases (draw r v s)) [
          | inl empty ↦ inl (rw (more, empty) refl, inr (drawn v s empty, ground (arith, more)))
          | inr ((u, s₁), there) ↦ elim (Option-cases (target r shape reach u s₁)) [
            | inl failed ↦ inl (
              rw (more, there, failed) refl,
              inl (target-layered shape reach u s₁ some_reach failed),
            )
            | inr ((t, s₂), chosen) ↦
                rw (more, there, chosen)
                  (further_edges-Made shape v reach e tries (add_target r reach es u t) s₂
                    some_reach (add_target-Simple reach es u t h))
          ]
        ]
      ]

  first_edges-layered :
      (shape : Shape) (v reach : ℕ) (s : State)
      → first_edges r shape v reach s ≡ none
      → shape ≡ layered
  unfolding first_edges
  first_edges-layered layered v reach s h = refl
  first_edges-layered random v reach s h = cc
  first_edges-layered chain v reach s h = cc
  first_edges-layered star v reach s h = cc

  -- For every shape, number of vertices and edges, and run of the random generator: the generator
  -- chooses edges, none twice and none from a vertex to itself, and none leads into the last `cut`
  -- vertices (vertex 0 aside), unless it raises; and it raises only when the shape is layered, or when
  -- edges are asked for and there is no vertex.
  pub generate-Simple :
      (shape : Shape) (v e cut : ℕ) (s : State)
      → ((generate r shape v e cut s ≡ none) × ((shape ≡ layered) ⊎ ((v ≡ 0) × (0 < e))))
        ⊎ ((es : List Edge) × (generate r shape v e cut s ≡ some es) × Simple (max (v - cut) 1) es)
  unfolding generate
  generate-Simple shape v e cut s =
      let reach = max (v - cut) 1 in
      elim (Option-cases (first_edges r shape v reach s)) [
        | inl failed ↦ inl (rw failed refl, inl (first_edges-layered shape v reach s failed))
        | inr ((es, s'), made) ↦ rw made (
            further_edges-Made shape v reach e (50 * e) es s' (omega arith)
              (rw made at (first_edges-Simple shape v reach s)))
      ]
