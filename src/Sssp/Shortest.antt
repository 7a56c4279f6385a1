-- ===== src/Sssp/Shortest.antt =====
-- section1/q2_sssp/oracle.py: whatever the number of rounds, a distance is the length of a walk.
use dist_compute.Base.{
  ℕ, zero, suc, ◌+◌, ◌≡◌, refl, Option, none, some, List, [], ◌∷◌, arith, ltb, nat_beq, ◌&&◌, ◌||◌,
  get_elem?, get_or, set, replicate, length, All, inl, inr, Bool-cases, Option-cases,
}
use dist_compute.Sssp.{
  Edges, Distance, below, above, heappush, relax, Outcome, finished, index_error, still, search,
  sssp, no_edges,
}

plus_zero : (a : ℕ) → a + 0 ≡ a
plus_zero a = omega arith

plus_suc : (a b : ℕ) → a + suc b ≡ suc a + b
plus_suc a b = omega arith

pub zero_plus : (a : ℕ) → 0 + a ≡ a
zero_plus a = omega arith

shift_there :
    {A : Type 0} (y : A) (ys xs : List A)
    → All (λ e. (i : ℕ) × (get_elem? ys i ≡ some e)) xs
    → All (λ e. (i : ℕ) × (get_elem? (y ∷ ys) i ≡ some e)) xs
shift_there y ys [] h = tt
shift_there y ys (x ∷ xs) h = ((suc h.0.0, h.0.1), shift_there y ys xs h.1)

each_there : {A : Type 0} (xs : List A) → All (λ e. (i : ℕ) × (get_elem? xs i ≡ some e)) xs
each_there [] = tt
each_there (x ∷ xs) = ((0, refl), shift_there x xs xs (each_there xs))

module _ (adj : List Edges) where
  -- a walk from vertex 0 with its length; a step is an entry of the list of its source
  pub data Walk : ℕ → ℕ → Type 0 where
    start : Walk 0 0
    step :
        (u d i v w : ℕ)
        → Walk u d
        → get_elem? (get_or adj u no_edges) i ≡ some (v, w)
        → Walk v (d + w)

  -- each distance is the length of a walk to its vertex, from vertex `i` on
  abbrev pub Walks : ℕ → List Distance → Type 0
  Walks i [] = Unit
  Walks i (none ∷ ds) = Walks (suc i) ds
  Walks i (some d ∷ ds) = Walk i d × Walks (suc i) ds

  abbrev Entries : List (ℕ × ℕ) → Type 0
  Entries = All (λ e. Walk e.1 e.0)

  -- what a run says, however it ends
  unfoldable pub Sound : Outcome → Type 0
  Sound (finished dist) = Walks 0 dist
  Sound index_error = Unit
  Sound (still dist pq) = Walks 0 dist

  Walks-set :
      (i v d : ℕ) (ds : List Distance) → Walk (i + v) d → Walks i ds → Walks i (set ds v (some d))
  Walks-set i v d [] w h = h
  Walks-set i zero d (none ∷ ds) w h = (rw plus_zero at w, h)
  Walks-set i zero d (some e ∷ ds) w h = (rw plus_zero at w, h.1)
  Walks-set i (suc v) d (none ∷ ds) w h = Walks-set (suc i) v d ds (rw plus_suc at w) h
  Walks-set i (suc v) d (some e ∷ ds) w h = (h.0, Walks-set (suc i) v d ds (rw plus_suc at w) h.1)

  Entries-push :
      (d u : ℕ) (pq : List (ℕ × ℕ)) → Walk u d → Entries pq → Entries (heappush (d, u) pq)
  unfolding heappush
  Entries-push d u [] w h = (w, tt)
  Entries-push d u ((e, v) ∷ pq) w h = elim (Bool-cases (ltb e d || (nat_beq e d && ltb v u))) [
    | inl later ↦ rw later (h.0, Entries-push d u pq w h.1)
    | inr here ↦ rw here (w, h)
  ]

  pub Walks-at :
      (i v d : ℕ) (ds : List Distance)
      → get_elem? ds v ≡ some (some d)
      → Walks i ds
      → Walk (i + v) d
  Walks-at i v d [] at h = absurd (ground (arith, at))
  Walks-at i zero d (none ∷ ds) at h = absurd (ground (arith, at))
  Walks-at i zero d (some e ∷ ds) at h =
      let same : e ≡ d = ground (arith, at) in rw (plus_zero, ← same) h.0
  Walks-at i (suc v) d (none ∷ ds) at h = rw plus_suc (Walks-at (suc i) v d ds at h)
  Walks-at i (suc v) d (some e ∷ ds) at h = rw plus_suc (Walks-at (suc i) v d ds at h.1)

  -- the entries are edges of `u`
  From : ℕ → Edges → Type 0
  From u = All (λ e. (i : ℕ) × (get_elem? (get_or adj u no_edges) i ≡ some e))

  abbrev Relaxed : Option (List Distance × List (ℕ × ℕ)) → Type 0
  Relaxed none = Unit
  Relaxed (some (dist, pq)) = Walks 0 dist × Entries pq

  relax-Walks :
      (u d : ℕ) (es : Edges) (dist : List Distance) (pq : List (ℕ × ℕ))
      → Walk u d
      → From u es
      → Walks 0 dist
      → Entries pq
      → Relaxed (relax d es (dist, pq))
  unfolding relax From
  relax-Walks u d [] dist pq w from h q = (h, q)
  relax-Walks u d ((v, x) ∷ es) dist pq w from h q = elim (Option-cases (get_elem? dist v)) [
    | inl out ↦ rw (Relaxed, relax, out) tt
    | inr (old, there) ↦ elim (Bool-cases (below (d + x) old)) [
      | inl less ↦
          let next = step u d from.0.0 v x w from.0.1 in
          rw (Relaxed, relax, there, less)
            (relax-Walks u d es (set dist v (some (d + x))) (heappush (d + x, v) pq) w from.1
              (Walks-set 0 v (d + x) dist (rw zero_plus next) h) (Entries-push (d + x) v pq next q))
      | inr more ↦ rw (Relaxed, relax, there, more) (relax-Walks u d es dist pq w from.1 h q)
    ]
  ]

  search-Sound :
      (fuel : ℕ) (dist : List Distance) (pq : List (ℕ × ℕ))
      → Walks 0 dist
      → Entries pq
      → Sound (search fuel adj dist pq)
  unfolding search Sound
  search-Sound zero dist [] h q = h
  search-Sound (suc fuel) dist [] h q = h
  search-Sound zero dist ((d, u) ∷ pq) h q = h
  search-Sound (suc fuel) dist ((d, u) ∷ pq) h q = elim (Option-cases (get_elem? dist u)) [
    | inl out ↦ rw (Sound, search, out) tt
    | inr (best, there) ↦ elim (Bool-cases (above d best)) [
      | inl old ↦ rw (Sound, search, there, old) (search-Sound fuel dist pq h q.1)
      | inr new ↦
          let edges = get_or adj u no_edges in
          let relaxed = relax-Walks u d edges dist pq q.0 (unfold From in each_there edges) h q.1 in
          elim (Option-cases (relax d edges (dist, pq))) [
            | inl out ↦ rw (Sound, search, there, new, out) tt
            | inr ((dist', pq'), made) ↦
                let (h', q') = rw made at relaxed in
                rw (Sound, search, there, new, made) (search-Sound fuel dist' pq' h' q')
          ]
    ]
  ]

  Walks-none : (i n : ℕ) → Walks i (replicate n none)
  Walks-none i zero = tt
  Walks-none i (suc n) = Walks-none (suc i) n

-- Dijkstra's loop on any graph, stopped after any number of rounds: every distance that it holds is
-- the length of a walk from vertex 0 to its vertex along edges of the graph.
pub sssp-Sound : (adj : List Edges) (fuel : ℕ) → Sound adj (sssp fuel adj)
unfolding sssp
sssp-Sound [] fuel = unfold Sound in tt
sssp-Sound (es ∷ adj) fuel =
    search-Sound (es ∷ adj) fuel (some 0 ∷ replicate (length adj) none) ((0, 0) ∷ [])
      (start, Walks-none (es ∷ adj) 1 (length adj)) (start, tt)
