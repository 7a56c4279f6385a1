-- ===== src/Weather/Accum/Merge.antt =====
-- `merge` of section2/q2_grpc/common.py: the merged state describes the records of both.
use mathlib.Core.List.{flatten, append-nil, append_assoc}
use dist_compute.Base.{
  ◌+◌, ◌≡◌, refl, ap, sym, ◌∙◌, Option, none, some, List, [], ◌∷◌, ◌++◌, foldl, arith,
  length-append,
}
use dist_compute.Base.Fold.{tally-append}
use dist_compute.Base.Order.{flip, flip-IsOrder}
use dist_compute.Base.Order.Pick.{earliest-append}
use dist_compute.Weather.Floats.{Floats, FloatLaws}
use dist_compute.Weather.Data.{Station, Partial, Row}
use dist_compute.Weather.Accum.{
  empty, merge, merge_all, merge_station, merged_station, or_zero, is_extreme,
}
use dist_compute.Weather.Accum.Tables.{count-merge, merge-Distinct, merge-All}
use dist_compute.Weather.Accum.Rows.{empty-Summarises}
use dist_compute.Weather.Accum.Spec.{
  Summarises, station_count, before_hot-IsOrder, before_cold-IsOrder, replace-hotter,
  replace-colder, reading, to_extremum,
}

module _ (f : Floats) (laws : FloatLaws f) where
  open f use {Float, lt, eq}

  merged-count :
      (o : Option (Station Float)) (s : Station Float)
      → station_count f (some (merged_station f o s)) ≡ station_count f o + s.count
  unfolding merged_station
  merged-count none s = omega arith
  merged-count (some t) s = refl

  pub merge-Summarises :
      (p o : Partial Float) (rs qs : List (Row Float))
      → Summarises f p rs
      → Summarises f o qs
      → Summarises f (merge f p o) (rs ++ qs)
  unfolding merge merge_station
  merge-Summarises p o rs qs h k =
      let up = flip-IsOrder lt eq laws.order in
      record {
        count = rw (h.count, k.count, length-append) refl;
        extreme = rw (h.extreme, k.extreme) (sym (tally-append (is_extreme f) rs qs));
        min_t =
            rw (h.min_t, k.min_t) (sym (earliest-append lt eq laws.order _ _ rs qs laws.inf_last));
        max_t =
            rw (h.max_t, k.max_t)
              (sym (earliest-append (flip lt) eq up _ _ rs qs laws.neg_inf_first));
        min_h =
            rw (h.min_h, k.min_h) (sym (earliest-append lt eq laws.order _ _ rs qs laws.inf_last));
        max_h =
            rw (h.max_h, k.max_h)
              (sym (earliest-append (flip lt) eq up _ _ rs qs laws.neg_inf_first));
        min_p =
            rw (h.min_p, k.min_p) (sym (earliest-append lt eq laws.order _ _ rs qs laws.inf_last));
        max_p =
            rw (h.max_p, k.max_p)
              (sym (earliest-append (flip lt) eq up _ _ rs qs laws.neg_inf_first));
        max_rain =
            rw (h.max_rain, k.max_rain)
              (sym (earliest-append (flip lt) eq up _ _ rs qs laws.neg_inf_first));
        max_wind =
            rw (h.max_wind, k.max_wind)
              (sym (earliest-append (flip lt) eq up _ _ rs qs laws.neg_inf_first));
        hottest =
            rw (h.hottest, k.hottest)
              (replace-hotter f laws _ _
                ∙ ap (to_extremum f) (
                    sym (
                      earliest-append _ _ (before_hot-IsOrder f laws) (reading f) none rs qs
                        (λ a. refl))));
        coldest =
            rw (h.coldest, k.coldest)
              (replace-colder f laws _ _
                ∙ ap (to_extremum f) (
                    sym (
                      earliest-append _ _ (before_cold-IsOrder f laws) (reading f) none rs qs
                        (λ a. refl))));
        stations = λ sid.
            count-merge (merged_station f) (station_count f) refl merged-count sid p.stations
              o.stations k.stations_once
            ∙ rw (h.stations sid, k.stations sid, tally-append) refl;
        intervals = λ b.
            count-merge (λ x v. or_zero x + v) or_zero refl (λ x v. refl) b p.intervals o.intervals
              k.intervals_once
            ∙ rw (h.intervals b, k.intervals b, tally-append) refl;
        stations_once = merge-Distinct (merged_station f) p.stations o.stations h.stations_once;
        intervals_once =
            merge-Distinct (λ x v. or_zero x + v) p.intervals o.intervals h.intervals_once;
        stations_seen =
            merge-All (merged_station f) (station_count f) refl merged-count p.stations o.stations
              h.stations_seen k.stations_seen;
        intervals_seen =
            merge-All (λ x v. or_zero x + v) or_zero refl (λ x v. refl) p.intervals o.intervals
              h.intervals_seen k.intervals_seen;
      }

  -- each state describes the records that stand beside it
  abbrev pub Each : List (Partial Float) → List (List (Row Float)) → Type 0
  Each [] [] = Unit
  Each [] (rs ∷ rss) = ⊥
  Each (p ∷ ps) [] = ⊥
  Each (p ∷ ps) (rs ∷ rss) = Summarises f p rs × Each ps rss

  foldl-merge-Summarises :
      (p : Partial Float) (rs : List (Row Float)) (ps : List (Partial Float))
      (rss : List (List (Row Float)))
      → Summarises f p rs
      → Each ps rss
      → Summarises f (foldl (merge f) p ps) (rs ++ flatten rss)
  unfolding flatten
  foldl-merge-Summarises p rs [] [] h k = rw append-nil h
  foldl-merge-Summarises p rs [] (qs ∷ rss) h k = elim k [ ]
  foldl-merge-Summarises p rs (o ∷ ps) [] h k = elim k [ ]
  foldl-merge-Summarises p rs (o ∷ ps) (qs ∷ rss) h k = rw (← append_assoc) (
      foldl-merge-Summarises (merge f p o) (rs ++ qs) ps rss (merge-Summarises p o rs qs h k.0) k.1)

  -- The states of any number of workers, each describing the records that it has seen, merge into a
  -- state that describes all of these records: the same counts, extremes, hottest and coldest
  -- reading and tables as one state that saw them all.
  pub merge_all-Summarises :
      (ps : List (Partial Float)) (rss : List (List (Row Float)))
      → Each ps rss
      → Summarises f (merge_all f ps) (flatten rss)
  unfolding merge_all
  merge_all-Summarises ps rss h =
      foldl-merge-Summarises (empty f) [] ps rss (empty-Summarises f laws) h
