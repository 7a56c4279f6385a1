-- ===== src/Sssp/Ends.antt =====
-- section1/q2_sssp/oracle.py: the loop over the queue ends. Each round drops an entry, or makes the
-- distances smaller: fewer are infinite, or as many are and the sum of the others is less.
use dist_compute.Base.{
  ℕ, zero, suc, ◌+◌, ◌<◌, ◌≤◌, ◌≡◌, refl, Option, none, some, List, [], ◌∷◌, arith, get_elem?,
  get_or, set, inl, inr, ◌⊎◌, Bool-cases, Option-cases, ap, true, ◌∙◌,
}
use dist_compute.Sssp.{
  Edges, Distance, below, above, heappush, relax, Outcome, finished, index_error, search, no_edges,
}

-- how many distances are infinite, and the sum of the others
abbrev infinite : List Distance → ℕ
infinite [] = 0
infinite (none ∷ ds) = suc (infinite ds)
infinite (some d ∷ ds) = infinite ds

abbrev total : List Distance → ℕ
total [] = 0
total (none ∷ ds) = total ds
total (some d ∷ ds) = d + total ds

abbrev Less : ℕ → ℕ → ℕ → ℕ → Type 0
Less k m k' m' = (k < k') ⊎ ((k ≡ k') × (m < m'))

abbrev Smaller : List Distance → List Distance → Type 0
Smaller ds ds' = Less (infinite ds) (total ds) (infinite ds') (total ds')

set-Smaller :
    (ds : List Distance) (v x : ℕ) (old : Distance)
    → get_elem? ds v ≡ some old
    → below x old ≡ true
    → Smaller (set ds v (some x)) ds
set-Smaller [] v x old there less = absurd (ground arith)
set-Smaller (none ∷ ds) zero x old there less = inl (omega arith)
set-Smaller (some d ∷ ds) zero x old there less = ground arith
set-Smaller (none ∷ ds) (suc v) x old there less =
    let h = set-Smaller ds v x old there less in ground (arith, h)
set-Smaller (some d ∷ ds) (suc v) x old there less =
    let h = set-Smaller ds v x old there less in ground (arith, h)

-- the distances and the queue are as they were, or the distances are smaller
abbrev Progress : List Distance × List (ℕ × ℕ) → Option (List Distance × List (ℕ × ℕ)) → Type 0
Progress s none = Unit
Progress s (some s') = (s' ≡ s) ⊎ Smaller s'.0 s.0

Progress-trans :
    (dist dist' : List Distance) (pq pq' : List (ℕ × ℕ)) (o : Option (List Distance × List (ℕ × ℕ)))
    → Smaller dist' dist
    → Progress (dist', pq') o
    → Progress (dist, pq) o
Progress-trans dist dist' pq pq' none h p = tt
Progress-trans dist dist' pq pq' (some s) h p = elim p [
  | inl same ↦ inr (rw same h)
  | inr less ↦ inr (ground (arith, h, less))
]

relax-Progress :
    (d : ℕ) (es : Edges) (dist : List Distance) (pq : List (ℕ × ℕ))
    → Progress (dist, pq) (relax d es (dist, pq))
unfolding relax
relax-Progress d [] dist pq = inl refl
relax-Progress d ((v, w) ∷ es) dist pq = elim (Option-cases (get_elem? dist v)) [
  | inl out ↦ rw (relax, out) tt
  | inr (old, there) ↦ elim (Bool-cases (below (d + w) old)) [
    | inl less ↦
        rw (relax, there, less)
          (Progress-trans dist _ pq (heappush (d + w, v) pq) _
            (set-Smaller dist v (d + w) old there less)
            (relax-Progress d es (set dist v (some (d + w))) (heappush (d + w, v) pq)))
    | inr more ↦ rw (relax, there, more) (relax-Progress d es dist pq)
  ]
]

strong : (P : ℕ → Type 0) → ((n : ℕ) → ((m : ℕ) → m < n → P m) → P n) → (n m : ℕ) → m ≤ n → P m
strong P step zero m h = step m (λ j lt. absurd (omega arith))
strong P step (suc n) m h = step m (λ j lt. strong P step n j (omega arith))

-- induction on pairs of numbers, the first one deciding
lexical :
    (P : ℕ → ℕ → Type 0)
    → ((k m : ℕ) → ((k' m' : ℕ) → Less k' m' k m → P k' m') → P k m)
    → (k m : ℕ) → P k m
lexical P step k m =
    strong (λ k. (m : ℕ) → P k m)
      (λ k before m.
        strong (P k)
          (λ m smaller. step k m (λ k' m' less. elim less [
            | inl lt ↦ before k' lt m'
            | inr (same, lt) ↦ rw same (smaller m' lt)
          ]))
          m m (omega arith))
      k k (omega arith) m

module _ (adj : List Edges) where
  -- the run has come to its end
  abbrev pub Ended : Outcome → Type 0
  Ended o = ((dist : List Distance) × (o ≡ finished dist)) ⊎ (o ≡ index_error)

  abbrev Ends : List Distance → List (ℕ × ℕ) → Type 0
  Ends dist pq = (fuel : ℕ) × Ended (search fuel adj dist pq)

  -- with the runs from smaller distances, and from the same distances with a shorter queue
  search-Ends_step :
      (dist : List Distance)
      → ((dist' : List Distance) (pq' : List (ℕ × ℕ)) → Smaller dist' dist → Ends dist' pq')
      → (pq : List (ℕ × ℕ)) → Ends dist pq
  unfolding search
  search-Ends_step dist smaller [] = (0, inl (dist, refl))
  search-Ends_step dist smaller ((d, u) ∷ pq) =
      let rest = search-Ends_step dist smaller pq in
      elim (Option-cases (get_elem? dist u)) [
        | inl out ↦ (1, inr (rw (search, out) refl))
        | inr (best, there) ↦ elim (Bool-cases (above d best)) [
          | inl old ↦ (suc rest.0, rw (search, there, old) rest.1)
          | inr new ↦ elim (Option-cases (relax d (get_or adj u no_edges) (dist, pq))) [
            | inl out ↦ (1, inr (rw (search, there, new, out) refl))
            | inr ((dist', pq'), made) ↦
                (let progress = rw made at (relax-Progress d (get_or adj u no_edges) dist pq) in
                  elim progress [
                    | inl same ↦ (suc rest.0, rw (search, there, new, made ∙ ap some same) rest.1)
                    | inr less ↦
                        let next = smaller dist' pq' less in
                        (suc next.0, rw (search, there, new, made) next.1)
                  ])
          ]
        ]
      ]

  pub search-Ends : (dist : List Distance) (pq : List (ℕ × ℕ)) → Ends dist pq
  search-Ends dist pq =
      lexical
        (λ k m.
          (dist : List Distance) (pq : List (ℕ × ℕ))
          → infinite dist ≡ k
          → total dist ≡ m
          → Ends dist pq)
        (λ k m before dist pq ek em.
          search-Ends_step dist
            (λ dist' pq' less.
              before (infinite dist') (total dist') (rw (← ek, ← em) less) dist' pq' refl refl)
            pq)
        (infinite dist) (total dist) dist pq refl refl
