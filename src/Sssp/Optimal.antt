-- ===== src/Sssp/Optimal.antt =====
-- section1/q2_sssp/oracle.py: no walk is shorter than a final distance.
use dist_compute.Base.{
  ℕ, zero, suc, ◌+◌, ◌<◌, ◌≤◌, ◌≡◌, refl, ap, sym, ◌∙◌, true, none, some, List, [], ◌∷◌, arith,
  length, get_elem?, get_or, replicate, All, inl, inr, ◌⊎◌, Bool-cases, Option-cases,
  length-replicate,
}
use dist_compute.Sssp.{
  Edges, Distance, above, Outcome, finished, index_error, still, search, sssp, no_edges,
}
use dist_compute.Sssp.Shortest.{Sound, Walks-at, zero_plus, sssp-Sound, Walk, start, step}
use dist_compute.Sssp.Relax.{
  AtMost, Reaches, Queued, Targets, Relaxation, relax-Relaxes, All-map, get_elem?-in_range,
}
use dist_compute.Sssp.Ends.{search-Ends}

-- every edge leads to a vertex of the graph
abbrev pub InRange : List Edges → Type 0
InRange adj = All (Targets (length adj)) adj

Targets-at : (n u : ℕ) (adj : List Edges) → All (Targets n) adj → Targets n (get_or adj u no_edges)
Targets-at n u [] h = tt
Targets-at n zero (es ∷ adj) h = h.0
Targets-at n (suc u) (es ∷ adj) h = Targets-at n u adj h.1

Reaches-at :
    (dist : List Distance) (d : ℕ) (es : Edges) (i v w : ℕ)
    → get_elem? es i ≡ some (v, w)
    → Reaches dist d es
    → AtMost dist v (d + w)
Reaches-at dist d [] i v w e h = absurd (ground arith)
Reaches-at dist d ((a, b) ∷ es) zero v w e h =
    let here : a ≡ v = ground (arith, e) in
    let weight : b ≡ w = ground (arith, e) in rw (← here, ← weight) h.0
Reaches-at dist d (x ∷ es) (suc i) v w e h = Reaches-at dist d es i v w e h.1

module _ (adj : List Edges) where
  -- Each distance in the queue is one that its vertex has or has improved on; a vertex whose
  -- distance is not in the queue has passed it on along its edges.
  record Settled (dist : List Distance) (pq : List (ℕ × ℕ)) : Type 0 where
    size : length dist ≡ length adj
    source : AtMost dist 0 0
    queued : All (λ e. AtMost dist e.1 e.0) pq
    passed :
        (u d : ℕ)
        → get_elem? dist u ≡ some (some d)
        → Queued (d, u) pq ⊎ Reaches dist d (get_or adj u no_edges)

  skip-Settled :
      (dist : List Distance) (d u : ℕ) (best : Distance) (pq : List (ℕ × ℕ))
      → get_elem? dist u ≡ some best
      → above d best ≡ true
      → Settled dist ((d, u) ∷ pq)
      → Settled dist pq
  skip-Settled dist d u best pq there old s = record {
    size = s.size;
    source = s.source;
    queued = s.queued.1;
    passed = λ v e at. elim (s.passed v e at) [
      | inl (inl front) ↦ absurd (
          let number : e ≡ d = ap (λ x. x.0) front in
          let here : v ≡ u = ap (λ x. x.1) front in
          let both = sym there ∙ (rw here at at) in ground (arith, both))
      | inl (inr in_rest) ↦ inl in_rest
      | inr done ↦ inr done
    ];
  }

  relax-Settled :
      (dist dist' : List Distance) (d u : ℕ) (pq pq' : List (ℕ × ℕ))
      → Relaxation d (get_or adj u no_edges) dist dist' pq pq'
      → Settled dist ((d, u) ∷ pq)
      → Settled dist' pq'
  relax-Settled dist dist' d u pq pq' r s = record {
    size = r.same_length ∙ s.size;
    source = r.lower 0 0 s.source;
    queued = r.bounded s.queued.1;
    passed = λ v e at. elim (r.new v e at) [
      | inr queued ↦ inl queued
      | inl before ↦ elim (s.passed v e before) [
        | inl (inl front) ↦ inr (
            let number : e ≡ d = ap (λ x. x.0) front in
            let here : v ≡ u = ap (λ x. x.1) front in rw (number, here) r.reaches)
        | inl (inr in_rest) ↦ inl (r.kept (e, v) in_rest)
        | inr done ↦ inr (All-map _ _ (get_or adj v no_edges) (λ x. r.lower x.0 (e + x.1)) done)
      ]
    ];
  }

  -- how a run ends
  abbrev Correct : Outcome → Type 0
  Correct (finished dist) = Settled dist []
  Correct index_error = ⊥
  Correct (still dist pq) = Unit

  search-Correct :
      (fuel : ℕ) (dist : List Distance) (pq : List (ℕ × ℕ))
      → InRange adj
      → Settled dist pq
      → Correct (search fuel adj dist pq)
  unfolding search
  search-Correct zero dist [] g s = s
  search-Correct (suc fuel) dist [] g s = s
  search-Correct zero dist ((d, u) ∷ pq) g s = tt
  search-Correct (suc fuel) dist ((d, u) ∷ pq) g s =
      let (x, there, _) = s.queued.0 in
      elim (Bool-cases (above d (some x))) [
        | inl old ↦
            rw (Correct, search, there, old)
              (search-Correct fuel dist pq g (skip-Settled dist d u (some x) pq there old s))
        | inr new ↦
            let (dist', pq', made, r) =
              relax-Relaxes d (get_or adj u no_edges) dist pq
                (rw s.size (Targets-at (length adj) u adj g)) in
            rw (Correct, search, there, new, made)
              (search-Correct fuel dist' pq' g (relax-Settled dist dist' d u pq pq' r s))
      ]

  Settled-walk : (dist : List Distance) (v e : ℕ) → Settled dist [] → Walk adj v e → AtMost dist v e
  Settled-walk dist _ _ s start = s.source
  Settled-walk dist _ _ s (step u d i v w walk edge) =
      let (d', at, le) = Settled-walk dist u d s walk in
      elim (s.passed u d' at) [
        | inl queued ↦ absurd queued
        | inr reaches ↦
            let (x, here, less) = Reaches-at dist d' (get_or adj u no_edges) i v w edge reaches in
            (x, here, omega arith)
      ]

none_finite : (n u d : ℕ) → get_elem? (replicate n none) u ≡ some (some d) → ⊥
none_finite zero u d h = ground (arith, h)
none_finite (suc n) zero d h = ground (arith, h)
none_finite (suc n) (suc u) d h = none_finite n u d h

first_entry :
    (es : Edges) (adj : List Edges) (u d : ℕ)
    → get_elem? (some 0 ∷ replicate (length adj) none) u ≡ some (some d)
    → Queued (d, u) ((0, 0) ∷ [])
      ⊎ Reaches (some 0 ∷ replicate (length adj) none) d (get_or (es ∷ adj) u no_edges)
first_entry es adj zero d h = inl (inl (ap (λ e. (e, 0)) (ground (arith, h))))
first_entry es adj (suc u) d h = absurd (none_finite (length adj) u d h)

start-Settled :
    (es : Edges) (adj : List Edges)
    → Settled (es ∷ adj) (some 0 ∷ replicate (length adj) none) ((0, 0) ∷ [])
start-Settled es adj = record {
  size = ap suc (length-replicate (length adj) none);
  source = (0, refl, omega arith);
  queued = ((0, refl, omega arith), tt);
  passed = λ u d at. first_entry es adj u d at;
}

-- On a graph that is not empty and whose edges lead to its vertices, Dijkstra's loop ends: after some
-- number of rounds the queue is empty, and no access was out of range.
pub sssp-ends :
    (es : Edges) (adj : List Edges)
    → InRange (es ∷ adj)
    → (fuel : ℕ) × (dist : List Distance) × (sssp fuel (es ∷ adj) ≡ finished dist)
unfolding sssp
sssp-ends es adj g =
    let dist = some 0 ∷ replicate (length adj) none in
    let (fuel, ended) = search-Ends (es ∷ adj) dist ((0, 0) ∷ []) in
    let right = search-Correct (es ∷ adj) fuel dist ((0, 0) ∷ []) g (start-Settled es adj) in
    elim ended [ inl (dist', end) ↦ (fuel, dist', end) | inr error ↦ absurd (rw error at right) ]

reached_by :
    (es : Edges) (adj : List Edges) (fuel : ℕ) (dist : List Distance) (v d : ℕ)
    → sssp fuel (es ∷ adj) ≡ finished dist
    → get_elem? dist v ≡ some (some d)
    → Walk (es ∷ adj) v d
unfolding Sound
reached_by es adj fuel dist v d end at =
    let sound : Sound (es ∷ adj) (finished dist) = rw end at (sssp-Sound (es ∷ adj) fuel) in
    rw zero_plus at (Walks-at (es ∷ adj) 0 v d dist at sound)

-- When the loop has ended on such a graph, each vertex that a walk from vertex 0 reaches has a
-- distance: it is the length of a walk to that vertex, and no walk to it is shorter.
pub sssp-shortest :
    (es : Edges) (adj : List Edges) (fuel : ℕ) (dist : List Distance) (v e : ℕ)
    → InRange (es ∷ adj)
    → sssp fuel (es ∷ adj) ≡ finished dist
    → Walk (es ∷ adj) v e
    → (d : ℕ) × (get_elem? dist v ≡ some (some d)) × Walk (es ∷ adj) v d × (d ≤ e)
unfolding sssp
sssp-shortest es adj fuel dist v e g end walk =
    let right = search-Correct (es ∷ adj) fuel _ ((0, 0) ∷ []) g (start-Settled es adj) in
    let (d, at, le) = Settled-walk (es ∷ adj) dist v e (rw end at right) walk in
    (d, at, reached_by es adj fuel dist v d end at, le)

-- When the loop has ended on such a graph, a vertex that no walk from vertex 0 reaches has kept its
-- infinite distance.
pub sssp-unreachable :
    (es : Edges) (adj : List Edges) (fuel : ℕ) (dist : List Distance) (v : ℕ)
    → InRange (es ∷ adj)
    → v < length (es ∷ adj)
    → sssp fuel (es ∷ adj) ≡ finished dist
    → ((e : ℕ) → Walk (es ∷ adj) v e → ⊥)
    → get_elem? dist v ≡ some none
unfolding sssp
sssp-unreachable es adj fuel dist v g lt end no_walk =
    let right = search-Correct (es ∷ adj) fuel _ ((0, 0) ∷ []) g (start-Settled es adj) in
    let s : Settled (es ∷ adj) dist [] = rw end at right in
    let (d, at) = get_elem?-in_range dist v (rw s.size lt) in
    elim (Option-cases d) [
      | inl infinite ↦ rw infinite at at
      | inr (n, finite) ↦ absurd (no_walk n (reached_by es adj fuel dist v n end (rw finite at at)))
    ]
