-- ===== src/Weather/Oracle/Agrees.antt =====
-- `q8_from hw2/scripts/oracle.py` and section2/q2_grpc/common.py agree on the exact figures.
use dist_compute.Base.{
  ℕ, ◌+◌, ◌≡◌, refl, sym, ap, ◌∙◌, Bool, Option, none, some, List, [], ◌∷◌, foldl, arith,
  if◌then◌else◌, length, map, foldr, ◌++◌, true, suc, false, ltb,
}
use mathlib.Core.List.{append-nil, append_assoc, flatten, Permᴰ}
use dist_compute.Base.Int.{ℤ, beq_ℤ, beq_ℤ_iff, int_eq, floor_div}
use dist_compute.Base.Dict.{Dict, lookup, insert, lookup-insert}
use dist_compute.Base.Fold.{tally, tally-perm, foldl-eq-foldr}
use dist_compute.Base.Order.{IsOrder, absent_last, flip, flip-IsOrder}
use dist_compute.Base.Order.Pick.{
  pick, earliest, earliest-perm, earliest-pick, pick_comm, pick_right_comm,
}
use dist_compute.Base.Perm.{length-perm, foldl_cons-perm}
use dist_compute.Weather.Floats.{Floats, FloatLaws}
use dist_compute.Weather.Data.{Partial, Row}
use dist_compute.Weather.Accum.{or_zero, is_extreme, merge_all}
use dist_compute.Weather.Accum.Merge.{Each, merge_all-Summarises}
use dist_compute.Weather.Accum.Rows.{Summarises-perm}
use dist_compute.Weather.Report.{fill_report}
use dist_compute.Weather.Accum.Spec.{
  Summarises, at_station, in_interval, station_count, before_hot, before_cold, before_hot-IsOrder,
  before_cold-IsOrder, reading, to_extremum, lowest, highest,
}
use dist_compute.Weather.Oracle.{
  Tallies, Readings, no_tallies, readings, tally_row, add_reading, improve, warmer, cooler, least,
  greatest,
}

-- the count of a station in `st`
abbrev pub read_count : {F : Type 0} → Option (Readings F) → ℕ
read_count none = 0
read_count (some e) = e.count

foldr-map :
    {A B C : Type 0} (g : A → B) (h : B → C → C) (e : C) (xs : List A)
    → foldr h e (map g xs) ≡ foldr (λ x. h (g x)) e xs
foldr-map g h e [] = refl
foldr-map g h e (x ∷ xs) = ap (h (g x)) (foldr-map g h e xs)

module _ (f : Floats) (laws : FloatLaws f) where
  open f use {Float}

  -- the tallies tell the exact figures of the records
  record Tells (t : Tallies Float) (rs : List (Row Float)) : Type 0 where
    count : t.count ≡ length rs
    extreme : t.extreme ≡ tally (is_extreme f) rs
    hottest : t.hottest ≡ earliest (before_hot f) (reading f) none rs
    coldest : t.coldest ≡ earliest (before_cold f) (reading f) none rs
    stations : (sid : ℤ) → read_count (lookup sid t.st) ≡ tally (at_station f sid) rs
    intervals : (b : ℤ) → or_zero (lookup b t.intervals) ≡ tally (in_interval f b) rs

  readings-count : (o : Option (Readings Float)) → (readings o).count ≡ read_count o
  unfolding readings
  readings-count none = refl
  readings-count (some e) = refl

  add_reading-count :
      (sid : ℤ) (st : Dict ℤ (Readings Float)) (r : Row Float)
      → read_count (lookup sid (add_reading f st r))
        ≡ read_count (lookup sid st) + (if at_station f sid r then 1 else 0)
  unfolding add_reading
  add_reading-count sid st r =
      rw lookup-insert (ground (arith, beq_ℤ_iff r.sid sid, readings-count (lookup r.sid st)))

  bucket-count :
      (b k : ℤ) (d : Dict ℤ ℕ)
      → or_zero (lookup b (insert k (or_zero (lookup k d) + 1) d))
        ≡ or_zero (lookup b d) + (if beq_ℤ k b then 1 else 0)
  bucket-count b k d = rw lookup-insert (ground (arith, beq_ℤ_iff k b))

  improve-pick :
      (before : Float × (ℤ × ℤ) → Float × (ℤ × ℤ) → Bool) (a : Option (Float × (ℤ × ℤ)))
      (c : Float × (ℤ × ℤ))
      → improve f before a c ≡ pick (absent_last before) a (some c)
  improve-pick before none c = refl
  improve-pick before (some a) c = ground arith

  Tells-row :
      (t : Tallies Float) (rs : List (Row Float)) (r : Row Float)
      → Tells t rs
      → Tells (tally_row f t r) (r ∷ rs)
  unfolding tally_row is_extreme
  Tells-row t rs r h = record {
    count = omega (arith, h.count);
    extreme = rw (is_extreme, h.extreme) refl;
    hottest = improve-pick (warmer f) t.hottest (r.temp, (r.ts, r.sid)) ∙ rw h.hottest refl;
    coldest = improve-pick (cooler f) t.coldest (r.temp, (r.ts, r.sid)) ∙ rw h.coldest refl;
    stations = λ sid. add_reading-count sid t.st r ∙ rw (h.stations sid) refl;
    intervals = λ b. bucket-count b (floor_div r.ts 60) t.intervals ∙ rw (h.intervals b) refl;
  }

  Tells-rows :
      (t : Tallies Float) (rs qs : List (Row Float))
      → Tells t rs
      → Tells (foldl (tally_row f) t qs) (foldl (λ t x. x ∷ t) rs qs)
  Tells-rows t rs [] h = h
  Tells-rows t rs (r ∷ qs) h = Tells-rows (tally_row f t r) (r ∷ rs) qs (Tells-row t rs r h)

  Tells-none : Tells no_tallies []
  unfolding no_tallies
  Tells-none = record {
    count = refl;
    extreme = refl;
    hottest = refl;
    coldest = refl;
    stations = λ sid. refl;
    intervals = λ b. refl;
  }

  -- the value lists are the columns of the records
  vals :
      (get : Tallies Float → List Float) (g : Row Float → Float)
      → ((t : Tallies Float) (r : Row Float) → get (tally_row f t r) ≡ get t ++ g r ∷ [])
      → (t : Tallies Float) (rs : List (Row Float))
      → get (foldl (tally_row f) t rs) ≡ get t ++ map g rs
  vals get g step t [] = sym (append-nil (get t))
  vals get g step t (r ∷ rs) =
      vals get g step (tally_row f t r) rs
      ∙ ap (λ x. x ++ map g rs) (step t r)
      ∙ append_assoc (get t) (g r ∷ []) (map g rs)

  -- the first value in an order, found from the left from the first value on
  first_value :
      (before same : Float → Float → Bool) (o : IsOrder before same) (e : Float)
      → ((a : Float) → before e a ≡ false)
      → (g : Row Float → Float) (r : Row Float) (rs : List (Row Float))
      → foldl (λ m y. pick before m y) (g r) (map g rs) ≡ earliest before g e (r ∷ rs)
  first_value before same o e top g r rs =
      foldl-eq-foldr (λ x m. pick before m x) (λ x y m. pick_right_comm before same o m y x) (g r)
        (map g rs)
      ∙ foldr-map g (λ x m. pick before m x) (g r) rs
      ∙ earliest-pick before same o g e (g r) rs top
      ∙ pick_comm before same o (g r) (earliest before g e rs)

  some_there : (n : ℕ) → ltb 0 (suc n) ≡ true
  some_there n = ground arith

  lowest_value :
      (g : Row Float → Float) (rs : List (Row Float))
      → least f (map g rs) ≡ (if ltb 0 (length rs) then lowest f g rs else f.zero_float)
  unfolding least
  lowest_value g [] = refl
  lowest_value g (r ∷ rs) =
      first_value f.lt f.eq laws.order f.inf laws.inf_last g r rs ∙ rw (some_there (length rs)) refl

  highest_value :
      (g : Row Float → Float) (rs : List (Row Float))
      → greatest f (map g rs) ≡ (if ltb 0 (length rs) then highest f g rs else f.zero_float)
  unfolding greatest
  highest_value g [] = refl
  highest_value g (r ∷ rs) =
      first_value (flip f.lt) f.eq (flip-IsOrder f.lt f.eq laws.order) f.neg_inf laws.neg_inf_first
        g r rs
      ∙ rw (some_there (length rs)) refl

  -- The reference program on all records, in any order, and the report on the merged states of any
  -- workers, each of which describes the records that it has seen: the same count and extreme events,
  -- hottest and coldest reading with their tie-break, minima and maxima of the temperature, the
  -- humidity and the pressure, maxima of the rainfall and the wind, and the same count of each station
  -- and of each interval. Sums, averages, the ranking and the busiest interval are not compared.
  pub oracle_agrees :
      (ps : List (Partial Float)) (rss : List (List (Row Float))) (rs : List (Row Float)) (k : ℤ)
      → Each f laws ps rss
      → Permᴰ (flatten rss) rs
      → let p = merge_all f ps in
        let rep = fill_report f p k in
        let t = foldl (tally_row f) no_tallies rs in
        (t.count ≡ rep.total_measurements)
        × (t.extreme ≡ rep.extreme_temperature_events)
        × (to_extremum f t.hottest ≡ rep.hottest)
        × (to_extremum f t.coldest ≡ rep.coldest)
        × (least f t.t_vals ≡ rep.min_temperature)
        × (greatest f t.t_vals ≡ rep.max_temperature)
        × (least f t.h_vals ≡ rep.min_humidity)
        × (greatest f t.h_vals ≡ rep.max_humidity)
        × (least f t.p_vals ≡ rep.min_pressure)
        × (greatest f t.p_vals ≡ rep.max_pressure)
        × (greatest f t.rain_vals ≡ rep.max_rainfall)
        × (greatest f t.wind_vals ≡ rep.max_wind_speed)
        × ((sid : ℤ) → read_count (lookup sid t.st) ≡ station_count f (lookup sid p.stations))
        × ((b : ℤ) → or_zero (lookup b t.intervals) ≡ or_zero (lookup b p.intervals))
  unfolding fill_report tally_row no_tallies
  oracle_agrees ps rss rs k each arrival =
      let h : Summarises f (merge_all f ps) rs =
        Summarises-perm f laws _ arrival (merge_all-Summarises f laws ps rss each) in
      let tells = Tells-rows no_tallies [] rs Tells-none in
      let order = foldl_cons-perm [] rs in
      (
        tells.count ∙ length-perm order ∙ sym h.count,
        tells.extreme ∙ tally-perm (is_extreme f) order ∙ sym h.extreme,
        ap (to_extremum f)
              (tells.hottest ∙ earliest-perm _ _ (before_hot-IsOrder f laws) (reading f) none order)
            ∙ sym h.hottest,
        ap (to_extremum f) (
              tells.coldest ∙ earliest-perm _ _ (before_cold-IsOrder f laws) (reading f) none order)
            ∙ sym h.coldest,
        ap (least f) (vals (λ t. t.t_vals) (λ r. r.temp) (λ t r. refl) no_tallies rs)
            ∙ lowest_value (λ r. r.temp) rs
            ∙ rw (h.count, h.min_t) refl,
        ap (greatest f) (vals (λ t. t.t_vals) (λ r. r.temp) (λ t r. refl) no_tallies rs)
            ∙ highest_value (λ r. r.temp) rs
            ∙ rw (h.count, h.max_t) refl,
        ap (least f) (vals (λ t. t.h_vals) (λ r. r.hum) (λ t r. refl) no_tallies rs)
            ∙ lowest_value (λ r. r.hum) rs
            ∙ rw (h.count, h.min_h) refl,
        ap (greatest f) (vals (λ t. t.h_vals) (λ r. r.hum) (λ t r. refl) no_tallies rs)
            ∙ highest_value (λ r. r.hum) rs
            ∙ rw (h.count, h.max_h) refl,
        ap (least f) (vals (λ t. t.p_vals) (λ r. r.pres) (λ t r. refl) no_tallies rs)
            ∙ lowest_value (λ r. r.pres) rs
            ∙ rw (h.count, h.min_p) refl,
        ap (greatest f) (vals (λ t. t.p_vals) (λ r. r.pres) (λ t r. refl) no_tallies rs)
            ∙ highest_value (λ r. r.pres) rs
            ∙ rw (h.count, h.max_p) refl,
        ap (greatest f) (vals (λ t. t.rain_vals) (λ r. r.rain) (λ t r. refl) no_tallies rs)
            ∙ highest_value (λ r. r.rain) rs
            ∙ rw (h.count, h.max_rain) refl,
        ap (greatest f) (vals (λ t. t.wind_vals) (λ r. r.wind) (λ t r. refl) no_tallies rs)
            ∙ highest_value (λ r. r.wind) rs
            ∙ rw (h.count, h.max_wind) refl,
        (λ sid. tells.stations sid ∙ tally-perm (at_station f sid) order ∙ sym (h.stations sid)),
        (λ b. tells.intervals b ∙ tally-perm (in_interval f b) order ∙ sym (h.intervals b)),
      )
