-- ===== src/Weather/Accum/Rows.antt =====
-- `add_batch` of section2/q2_grpc/common.py keeps the description of the records seen.
use mathlib.Core.List.{Permᴰ, append-nil}
use dist_compute.Base.{
  ℕ, suc, ◌+◌, ◌<◌, ◌≡◌, refl, ap, ◌∙◌, Option, none, some, List, [], ◌∷◌, ◌++◌, foldl, arith,
  if◌then◌else◌, length, inl, inr, Bool-cases, nat_beq, length-append,
}
use dist_compute.Base.Int.{ℤ, beq_ℤ_iff, int_eq, floor_div}
use dist_compute.Base.Dict.{Dict, lookup, lookup-insert, insert-Distinct, insert-All}
use dist_compute.Base.Fold.{tally-perm}
use dist_compute.Base.Order.{flip, flip-IsOrder}
use dist_compute.Base.Perm.{length-perm, foldl_cons-perm}
use dist_compute.Base.Order.Pick.{earliest-perm}
use dist_compute.Weather.Floats.{Floats, FloatLaws}
use dist_compute.Weather.Data.{Station, Partial, Row, RecordBatch, rows}
use dist_compute.Weather.Accum.{
  empty, add_row, add_batch, next_stations, next_intervals, or_zero, found_station, is_extreme,
}
use dist_compute.Weather.Accum.Spec.{
  Summarises, at_station, in_interval, station_count, before_hot-IsOrder, before_cold-IsOrder,
  next_hottest-pick, next_coldest-pick, reading, to_extremum,
}

length_zero {ℓ} : {A : Type ℓ} (xs : List A) → length xs ≡ 0 → xs ≡ []
length_zero [] h = refl
length_zero (x ∷ xs) h = absurd (omega arith)

module _ (f : Floats) (laws : FloatLaws f) where
  open f use {Float, lt, eq}

  pub empty-Summarises : Summarises f (empty f) []
  unfolding empty
  empty-Summarises = record {
    count = refl;
    extreme = refl;
    min_t = refl;
    max_t = refl;
    min_h = refl;
    max_h = refl;
    min_p = refl;
    max_p = refl;
    max_rain = refl;
    max_wind = refl;
    hottest = refl;
    coldest = refl;
    stations = λ sid. refl;
    intervals = λ b. refl;
    stations_once = tt;
    intervals_once = tt;
    stations_seen = tt;
    intervals_seen = tt;
  }

  found-count : (o : Option (Station Float)) → (found_station f o).count ≡ station_count f o
  unfolding found_station
  found-count none = refl
  found-count (some s) = refl

  next_stations-count :
      (sid : ℤ) (tab : Dict ℤ (Station Float)) (r : Row Float)
      → station_count f (lookup sid (next_stations f tab r))
        ≡ station_count f (lookup sid tab) + (if at_station f sid r then 1 else 0)
  unfolding next_stations
  next_stations-count sid tab r =
      rw lookup-insert (ground (arith, beq_ℤ_iff r.sid sid, found-count (lookup sid tab)))

  next_intervals-count :
      (b : ℤ) (tab : Dict ℤ ℕ) (r : Row Float)
      → or_zero (lookup b (next_intervals f tab r))
        ≡ or_zero (lookup b tab) + (if in_interval f b r then 1 else 0)
  unfolding next_intervals
  next_intervals-count b tab r = rw lookup-insert (ground (arith, beq_ℤ_iff (floor_div r.ts 60) b))

  -- what the loop of `add_batch` keeps: all but the count, which is set after it
  module _ (r : Row Float) (rs : List (Row Float)) where
    add_row-Summarises :
        (p : Partial Float)
        → Summarises f (record p { count = length rs }) rs
        → Summarises f (record (add_row f p r) { count = suc (length rs) }) (r ∷ rs)
    unfolding add_row
    add_row-Summarises p h = record {
      count = refl;
      extreme = rw h.extreme;
      min_t = rw h.min_t;
      max_t = rw h.max_t;
      min_h = rw h.min_h;
      max_h = rw h.max_h;
      min_p = rw h.min_p;
      max_p = rw h.max_p;
      max_rain = rw h.max_rain;
      max_wind = rw h.max_wind;
      hottest = rw h.hottest (next_hottest-pick f laws _ r);
      coldest = rw h.coldest (next_coldest-pick f laws _ r);
      stations = λ sid. next_stations-count sid p.stations r ∙ rw (h.stations sid);
      intervals = λ b. next_intervals-count b p.intervals r ∙ rw (h.intervals b);
      stations_once = unfold next_stations in insert-Distinct r.sid _ p.stations h.stations_once;
      intervals_once =
          unfold next_intervals in
          insert-Distinct (floor_div r.ts 60) _ p.intervals h.intervals_once;
      stations_seen =
          unfold next_stations in
          insert-All (λ (s : Station Float). 0 < s.count) r.sid _ p.stations (omega arith)
            h.stations_seen;
      intervals_seen =
          unfold next_intervals in
          insert-All (λ (n : ℕ). 0 < n) _ _ p.intervals (omega arith) h.intervals_seen;
    }

  -- the description does not depend on the order of the records
  pub Summarises-perm :
      (p : Partial Float) {rs qs : List (Row Float)}
      → Permᴰ rs qs
      → Summarises f p rs
      → Summarises f p qs
  Summarises-perm p r h =
      let up = flip-IsOrder lt eq laws.order in
      record {
        count = h.count ∙ length-perm r;
        extreme = h.extreme ∙ tally-perm (is_extreme f) r;
        min_t = h.min_t ∙ earliest-perm lt eq laws.order _ _ r;
        max_t = h.max_t ∙ earliest-perm (flip lt) eq up _ _ r;
        min_h = h.min_h ∙ earliest-perm lt eq laws.order _ _ r;
        max_h = h.max_h ∙ earliest-perm (flip lt) eq up _ _ r;
        min_p = h.min_p ∙ earliest-perm lt eq laws.order _ _ r;
        max_p = h.max_p ∙ earliest-perm (flip lt) eq up _ _ r;
        max_rain = h.max_rain ∙ earliest-perm (flip lt) eq up _ _ r;
        max_wind = h.max_wind ∙ earliest-perm (flip lt) eq up _ _ r;
        hottest =
            h.hottest
            ∙ ap (to_extremum f) (earliest-perm _ _ (before_hot-IsOrder f laws) (reading f) none r);
        coldest =
            h.coldest
            ∙ ap (to_extremum f)
                (earliest-perm _ _ (before_cold-IsOrder f laws) (reading f) none r);
        stations = λ sid. h.stations sid ∙ tally-perm (at_station f sid) r;
        intervals = λ b. h.intervals b ∙ tally-perm (in_interval f b) r;
        stations_once = h.stations_once;
        intervals_once = h.intervals_once;
        stations_seen = h.stations_seen;
        intervals_seen = h.intervals_seen;
      }

  add_rows-Summarises :
      (p : Partial Float) (rs xs : List (Row Float))
      → Summarises f (record p { count = length rs }) rs
      → let seen = foldl (λ t x. x ∷ t) rs xs in
        Summarises f (record (foldl (add_row f) p xs) { count = length seen }) seen
  add_rows-Summarises p rs [] h = h
  add_rows-Summarises p rs (x ∷ xs) h =
      add_rows-Summarises (add_row f p x) (x ∷ rs) xs (add_row-Summarises x rs p h)

  count-add_rows :
      (p : Partial Float) (xs : List (Row Float)) → (foldl (add_row f) p xs).count ≡ p.count
  unfolding add_row
  count-add_rows p [] = refl
  count-add_rows p (x ∷ xs) = count-add_rows (add_row f p x) xs

  Summarises-recount :
      (p : Partial Float) (n batches : ℕ) (rs : List (Row Float))
      → n ≡ length rs
      → Summarises f (record p { count = length rs }) rs
      → Summarises f (record p { count = n; batches_applied = batches }) rs
  Summarises-recount p n batches rs e h = record {
    count = e;
    extreme = h.extreme;
    min_t = h.min_t;
    max_t = h.max_t;
    min_h = h.min_h;
    max_h = h.max_h;
    min_p = h.min_p;
    max_p = h.max_p;
    max_rain = h.max_rain;
    max_wind = h.max_wind;
    hottest = h.hottest;
    coldest = h.coldest;
    stations = h.stations;
    intervals = h.intervals;
    stations_once = h.stations_once;
    intervals_once = h.intervals_once;
    stations_seen = h.stations_seen;
    intervals_seen = h.intervals_seen;
  }

  -- Folding a batch in adds its records to those that the state describes: counts, extreme events,
  -- minima and maxima, hottest and coldest reading with their tie-break, and the tables of stations
  -- and intervals. The batch's columns have one length.
  pub add_batch-Summarises :
      (p : Partial Float) (rs : List (Row Float)) (b : RecordBatch Float)
      → length (rows b) ≡ length b.timestamp
      → Summarises f p rs
      → Summarises f (add_batch f p b).0 (rs ++ rows b)
  unfolding add_batch
  add_batch-Summarises p rs b cols h = elim (Bool-cases (nat_beq (length b.timestamp) 0)) [
    | inl none_there ↦
        let no_rows : rows b ≡ [] = length_zero (rows b) (ground arith) in
        rw (none_there, no_rows, append-nil) h
    | inr some_there ↦
        let q = foldl (add_row f) p (rows b) in
        let seen = foldl (λ (t : List (Row Float)) (x : Row Float). x ∷ t) rs (rows b) in
        let order = foldl_cons-perm rs (rows b) in
        let total : q.count + length b.timestamp ≡ length seen = omega (
          arith,
          count-add_rows p (rows b),
          h.count,
          length-perm order,
          length-append rs (rows b),
        ) in
        let kept : Summarises f (record p { count = length rs }) rs =
          Summarises-recount p (length rs) p.batches_applied rs refl (rw (← h.count) h) in
        rw some_there (
          Summarises-perm _ order (
            Summarises-recount q (q.count + length b.timestamp) (q.batches_applied + 1) seen total
              (add_rows-Summarises p rs (rows b) kept)))
  ]
