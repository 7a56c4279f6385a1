-- ===== src/Weather/Report/Ranking.antt =====
-- The report of section2/q2_grpc/common.py names the right stations and the right interval.
use mathlib.Core.List.{Permᴰ}
use dist_compute.Base.{
  ◌<◌, ◌+◌, foldr, if◌then◌else◌, ℕ, ◌≡◌, refl, sym, ◌∙◌, true, false, none, some, List, [], ◌∷◌,
  foldl, arith, ltb, take, All, ◌⊎◌, inl, inr, Bool-cases, Option-cases,
}
use dist_compute.Base.Int.{ℤ, pos, ltb_ℤ, beq_ℤ, beq_ℤ_iff, int_eq, pos_part}
use dist_compute.Base.Dict.{Dict, lookup, Distinct}
use dist_compute.Base.Fold.{tally, foldr-perm}
use dist_compute.Base.Perm.{perm_refl, perm_symm, All-perm}
use dist_compute.Weather.Floats.{Floats}
use dist_compute.Weather.Data.{Partial, Station, Row}
use dist_compute.Weather.Accum.Spec.{Summarises, at_station, in_interval, station_count}
use dist_compute.Weather.Report.{
  StationRow, ranks_before, insert_row, sort_rows, beats, busier, busiest, station_rows,
  top_stations,
}

module _ {F : Type 0} where
  -- a row has a smaller count than an earlier one, or as large a count and no smaller number
  abbrev pub Later : StationRow F → StationRow F → Type 0
  Later x y = (y.count < x.count) ⊎ ((y.count ≡ x.count) × (ltb_ℤ y.station x.station ≡ false))

  -- by falling count, and by rising number where the counts are equal
  abbrev pub ByRank : List (StationRow F) → Type 0
  ByRank [] = Unit
  ByRank (x ∷ xs) = All (Later x) xs × ByRank xs

  ranks_before-Later :
      (x : StationRow F) (xs : List (StationRow F))
      → All (λ y. ranks_before y x ≡ false) xs
      → All (Later x) xs
  unfolding ranks_before
  ranks_before-Later x [] h = tt
  ranks_before-Later x (y ∷ xs) h = (ground arith, ranks_before-Later x xs h.1)

  -- no row ranks before an earlier one
  abbrev Ranked : List (StationRow F) → Type 0
  Ranked [] = Unit
  Ranked (x ∷ xs) = All (λ y. ranks_before y x ≡ false) xs × Ranked xs

  insert_row-All :
      (P : StationRow F → Type 0) (r : StationRow F) (xs : List (StationRow F))
      → P r
      → All P xs
      → All P (insert_row r xs)
  unfolding insert_row
  insert_row-All P r [] p h = (p, tt)
  insert_row-All P r (x ∷ xs) p h = elim (Bool-cases (ranks_before x r)) [
    | inl later ↦ rw later (h.0, insert_row-All P r xs p h.1)
    | inr here ↦ rw here (p, h)
  ]

  unranked_after :
      (r x : StationRow F) (xs : List (StationRow F))
      → ranks_before x r ≡ false
      → All (λ y. ranks_before y x ≡ false) xs
      → All (λ y. ranks_before y r ≡ false) xs
  unfolding ranks_before
  unranked_after r x [] n h = tt
  unranked_after r x (y ∷ xs) n h = (ground arith, unranked_after r x xs n h.1)

  before_asym : (x r : StationRow F) → ranks_before x r ≡ true → ranks_before r x ≡ false
  unfolding ranks_before
  before_asym x r h = ground arith

  insert_row-Ranked :
      (r : StationRow F) (xs : List (StationRow F)) → Ranked xs → Ranked (insert_row r xs)
  unfolding insert_row
  insert_row-Ranked r [] h = (tt, tt)
  insert_row-Ranked r (x ∷ xs) h = elim (Bool-cases (ranks_before x r)) [
    | inl later ↦ rw later (
      insert_row-All (λ y. ranks_before y x ≡ false) r xs (before_asym x r later) h.0,
      insert_row-Ranked r xs h.1,
    )
    | inr here ↦ rw here ((here, unranked_after r x xs here h.0), h)
  ]

  sort_rows-Ranked : (rs : List (StationRow F)) → Ranked (sort_rows rs)
  unfolding sort_rows
  sort_rows-Ranked [] = tt
  sort_rows-Ranked (r ∷ rs) = insert_row-Ranked r (sort_rows rs) (sort_rows-Ranked rs)

  insert_row-perm : (r : StationRow F) (xs : List (StationRow F)) → Permᴰ (insert_row r xs) (r ∷ xs)
  unfolding insert_row
  insert_row-perm r [] = perm_refl (r ∷ [])
  insert_row-perm r (x ∷ xs) = elim (Bool-cases (ranks_before x r)) [
    | inl later ↦
        rw later (Permᴰ.trans (Permᴰ.cons refl (insert_row-perm r xs)) (Permᴰ.swap refl refl))
    | inr here ↦ rw here (perm_refl (r ∷ x ∷ xs))
  ]

  Ranked-ByRank : (rs : List (StationRow F)) → Ranked rs → ByRank rs
  Ranked-ByRank [] h = tt
  Ranked-ByRank (x ∷ xs) h = (ranks_before-Later x xs h.0, Ranked-ByRank xs h.1)

  sort_rows-perm : (rs : List (StationRow F)) → Permᴰ (sort_rows rs) rs
  unfolding sort_rows
  sort_rows-perm [] = Permᴰ.nil
  sort_rows-perm (r ∷ rs) =
      Permᴰ.trans (insert_row-perm r (sort_rows rs)) (Permᴰ.cons refl (sort_rows-perm rs))

lookup-later :
    {V : Type 0} (k : ℤ) (v : V) (d : Dict ℤ V) (e : ℤ × V)
    → lookup k d ≡ none
    → lookup e.0 d ≡ some e.1
    → lookup e.0 ((k, v) ∷ d) ≡ some e.1
lookup-later k v d e fresh there = ground (arith, beq_ℤ_iff k e.0)

entries-later :
    {V : Type 0} (k : ℤ) (v : V) (d es : Dict ℤ V)
    → lookup k d ≡ none
    → All (λ (e : ℤ × V). lookup e.0 d ≡ some e.1) es
    → All (λ (e : ℤ × V). lookup e.0 ((k, v) ∷ d) ≡ some e.1) es
entries-later k v d [] fresh h = tt
entries-later k v d (e ∷ es) fresh h =
    (lookup-later k v d e fresh h.0, entries-later k v d es fresh h.1)

-- each entry is what its key finds
entries : {V : Type 0} (d : Dict ℤ V) → Distinct d → All (λ (e : ℤ × V). lookup e.0 d ≡ some e.1) d
entries [] h = tt
entries ((k, v) ∷ d) h = (ground (arith, beq_ℤ_iff k k), entries-later k v d d h.0 (entries d h.1))

module _ (f : Floats) where
  open f use {Float}

  station-counts :
      (p : Partial Float) (rs : List (Row Float)) (d : Dict ℤ (Station Float))
      → All (λ (e : ℤ × Station Float). lookup e.0 p.stations ≡ some e.1) d
      → ((sid : ℤ) → station_count f (lookup sid p.stations) ≡ tally (at_station f sid) rs)
      → All (λ (e : ℤ × Station Float). e.1.count ≡ tally (at_station f e.0) rs) d
  station-counts p rs [] h k = tt
  station-counts p rs (e ∷ d) h k = (rw h.0 at (k e.0), station-counts p rs d h.1 k)

  rows-count :
      (rs : List (Row Float)) (d : Dict ℤ (Station Float))
      → All (λ (e : ℤ × Station Float). e.1.count ≡ tally (at_station f e.0) rs) d
      → All
          (λ (r : StationRow Float). r.count ≡ tally (at_station f r.station) rs)
          (station_rows f d)
  unfolding station_rows
  rows-count rs [] h = tt
  rows-count rs ((sid, s) ∷ d) h = elim (Bool-cases (ltb 0 s.count)) [
    | inl seen ↦ rw seen (h.0, rows-count rs d h.1)
    | inr unseen ↦ rw unseen (rows-count rs d h.1)
  ]

  -- the counts of the rows of a station, added up
  abbrev pub counted_at : ℤ → List (StationRow Float) → ℕ
  counted_at sid =
      foldr (λ (r : StationRow Float) n. (if beq_ℤ r.station sid then r.count else 0) + n) 0

  station_rows-counted :
      (d : Dict ℤ (Station Float)) (sid : ℤ)
      → Distinct d
      → counted_at sid (station_rows f d) ≡ station_count f (lookup sid d)
  unfolding station_rows
  station_rows-counted [] sid h = refl
  station_rows-counted ((k, s) ∷ d) sid h =
      let rest = station_rows-counted d sid h.1 in
      elim (Bool-cases (ltb 0 s.count)) [
        | inl seen ↦ elim (Bool-cases (beq_ℤ k sid)) [
          | inl same ↦
              let absent : lookup sid d ≡ none = rw (← (beq_ℤ_iff k sid).0 same) h.0 in
              rw (seen, same, rest, absent) (omega arith)
          | inr other ↦ rw (seen, other, rest) (omega arith)
        ]
        | inr unseen ↦ elim (Bool-cases (beq_ℤ k sid)) [
          | inl same ↦
              let absent : lookup sid d ≡ none = rw (← (beq_ℤ_iff k sid).0 same) h.0 in
              rw (unseen, same, rest, absent) (ground (arith, unseen))
          | inr other ↦ rw (unseen, other, rest) (omega arith)
        ]
      ]

  counted_at-perm :
      (sid : ℤ) {xs ys : List (StationRow Float)}
      → Permᴰ xs ys
      → counted_at sid xs ≡ counted_at sid ys
  counted_at-perm sid p =
      foldr-perm (λ (r : StationRow Float) n. (if beq_ℤ r.station sid then r.count else 0) + n)
        (λ x y n. omega arith) 0 p

  rows-positive : (d : Dict ℤ (Station Float)) → All (λ r. 0 < r.count) (station_rows f d)
  unfolding station_rows
  rows-positive [] = tt
  rows-positive ((k, s) ∷ d) = elim (Bool-cases (ltb 0 s.count)) [
    | inl seen ↦ rw seen (ground (arith, seen), rows-positive d)
    | inr unseen ↦ rw unseen (rows-positive d)
  ]

  -- `top_stations` on a state that describes the records: the first `k` rows of a ranking by falling
  -- count and then rising number. The ranking is complete and has no station twice: for every
  -- station the rows on it have as many records as there are of that station, each row has all of
  -- its station's records, and no row has none.
  pub top_stations_lem :
      (p : Partial Float) (rs : List (Row Float)) (k : ℤ)
      → Summarises f p rs
      → (ranking : List (StationRow Float)) × (top_stations f p k ≡ take (pos_part k) ranking)
        × ByRank ranking
        × ((sid : ℤ) → counted_at sid ranking ≡ tally (at_station f sid) rs)
        × All (λ (r : StationRow Float). r.count ≡ tally (at_station f r.station) rs) ranking
        × All (λ (r : StationRow Float). 0 < r.count) ranking
  unfolding top_stations
  top_stations_lem p rs k h =
      let rows = station_rows f p.stations in
      let order = sort_rows-perm rows in
      (
        sort_rows rows,
        refl,
        Ranked-ByRank (sort_rows rows) (sort_rows-Ranked rows),
        (λ sid.
            counted_at-perm sid order
            ∙ station_rows-counted p.stations sid h.stations_once
            ∙ h.stations sid),
        All-perm _ (perm_symm order) (
            rows-count rs p.stations
              (station-counts p rs p.stations (entries p.stations h.stations_once) h.stations)),
        All-perm _ (perm_symm order) (rows-positive p.stations),
      )

  not_regress : (x a b : ℤ × ℕ) → beats x a ≡ false → beats b a ≡ true → beats x b ≡ false
  unfolding beats
  not_regress x a b n h = ground arith

  beats_irrefl : (x : ℤ × ℕ) → beats x x ≡ false
  unfolding beats
  beats_irrefl x = ground arith

  busier-keeps :
      (x best : ℤ × ℕ) (d : Dict ℤ ℕ) → beats x best ≡ false → beats x (foldl busier best d) ≡ false
  busier-keeps x best [] n = n
  busier-keeps x best (e ∷ d) n =
      busier-keeps x (busier best e) d (elim (Bool-cases (beats e best)) [
        | inl new ↦ unfold busier in rw new (not_regress x best e n new)
        | inr old ↦ unfold busier in rw old n
      ])

  busier-beats : (best e : ℤ × ℕ) → beats e (busier best e) ≡ false
  unfolding busier
  busier-beats best e = elim (Bool-cases (beats e best)) [
    | inl new ↦ rw new (beats_irrefl e)
    | inr old ↦ rw old old
  ]

  unbeaten :
      (best : ℤ × ℕ) (d : Dict ℤ ℕ) (b : ℤ) (v : ℕ)
      → lookup b d ≡ some v
      → beats (b, v) (foldl busier best d) ≡ false
  unbeaten best [] b v h = cc
  unbeaten best ((k, w) ∷ d) b v h = elim (Bool-cases (beq_ℤ k b)) [
    | inl same ↦
        let same_key : k ≡ b = (beq_ℤ_iff k b).0 same in
        let same_count : w ≡ v = ground arith in
        busier-keeps (b, v) (busier best (k, w)) d
          (rw (← same_key, ← same_count) (busier-beats best (k, w)))
    | inr other ↦ unbeaten (busier best (k, w)) d b v (rw other at h)
  ]

  found :
      (best : ℤ × ℕ) (d : Dict ℤ ℕ)
      → Distinct d
      → let out = foldl busier best d in (out ≡ best) ⊎ (lookup out.0 d ≡ some out.1)
  found best [] h = inl refl
  found best ((k, w) ∷ d) h = elim (found (busier best (k, w)) d h.1) [
    | inr there ↦ inr (lookup-later k w d _ h.0 there)
    | inl out ↦ elim (Bool-cases (beats (k, w) best)) [
      | inl new ↦
          let e : foldl busier best ((k, w) ∷ d) ≡ (k, w) = out ∙ unfold busier in rw new refl in
          inr (rw e (ground (arith, beq_ℤ_iff k k)))
      | inr old ↦ inl (out ∙ unfold busier in rw old refl)
    ]
  ]

  none-tally :
      (p : Partial Float) (rs : List (Row Float)) (b : ℤ)
      → Summarises f p rs
      → lookup b p.intervals ≡ none
      → tally (in_interval f b) rs ≡ 0
  none-tally p rs b h e = sym (h.intervals b) ∙ rw e refl

  some-tally :
      (p : Partial Float) (rs : List (Row Float)) (b : ℤ) (v : ℕ)
      → Summarises f p rs
      → lookup b p.intervals ≡ some v
      → tally (in_interval f b) rs ≡ v
  some-tally p rs b v h e = sym (h.intervals b) ∙ rw e refl

  zero-unbeaten : (b : ℤ) (x : ℤ × ℕ) → beats (b, 0) x ≡ false
  unfolding beats
  zero-unbeaten b x = ground arith

  -- an interval with its count has fewer records than the one named, or as many and no smaller number
  abbrev pub NoBusier : ℤ × ℕ → ℤ × ℕ → Type 0
  NoBusier (b, v) (k, c) = (v < c) ⊎ ((v ≡ c) × ((c ≡ 0) ⊎ (ltb_ℤ b k ≡ false)))

  beats-NoBusier : (x y : ℤ × ℕ) → beats x y ≡ false → NoBusier x y
  unfolding beats
  beats-NoBusier x y h = ground arith

  -- `busiest` on a state that describes the records: no interval has more of them than the one it
  -- names, and none with as many has a smaller number; its count is that of the interval's
  -- records, unless it answers (0, 0).
  pub busiest_lem :
      (p : Partial Float) (rs : List (Row Float))
      → Summarises f p rs
      → ((b : ℤ) → NoBusier (b, tally (in_interval f b) rs) (busiest p))
        × ((busiest p ≡ (pos 0, 0)) ⊎ (tally (in_interval f (busiest p).0) rs ≡ (busiest p).1))
  unfolding busiest
  busiest_lem p rs h = (
    (λ b. elim (Option-cases (lookup b p.intervals)) [
      | inl absent ↦ rw (none-tally p rs b h absent) (
          beats-NoBusier (b, 0) (foldl busier (pos 0, 0) p.intervals)
            (zero-unbeaten b (foldl busier (pos 0, 0) p.intervals)))
      | inr (v, there) ↦ rw (some-tally p rs b v h there) (
          beats-NoBusier (b, v) (foldl busier (pos 0, 0) p.intervals)
            (unbeaten (pos 0, 0) p.intervals b v there))
    ]),
    elim (found (pos 0, 0) p.intervals h.intervals_once) [
      | inl none_seen ↦ inl none_seen
      | inr there ↦ inr (some-tally p rs _ _ h there)
    ],
  )
