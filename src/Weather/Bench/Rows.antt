-- ===== src/Weather/Bench/Rows.antt =====
-- The rows that section2/q2_grpc/bench/bench.py writes fit the header row.
use mathlib.Core.Option
use mathlib.Core.Option.{some_inj}
use dist_compute.Base.{
  ℕ, ◌≡◌, refl, ap, sym, ◌∙◌, length-append, Option, none, some, List, [], ◌∷◌, ltb, inl, inr,
  Bool-cases, length, arith,
}
use dist_compute.Base.Dict.{Dict, lookup}
use dist_compute.Base.Text.{Text, text_eq}
use dist_compute.Weather.Floats.{Floats, Measures}
use dist_compute.Weather.Bench.{Options, Config, addresses, coordinator_address}
use dist_compute.Weather.Bench.Outputs.{
  query_stats, stats_of, line_stats, values_of, stat_keys, Answers, all_open,
}
use dist_compute.Weather.Bench.Trial.{header_row, stats_for, csv_row, measured, trial}

bind-some :
    {A B : Type 0} (o : Option A) (k : A → Option B) (y : B)
    → Option.bind o k ≡ some y
    → (x : A) × (o ≡ some x) × (k x ≡ some y)
unfolding Option.bind
bind-some none k y h = absurd cc
bind-some (some x) k y h = (x, refl, h)

map-some :
    {A B : Type 0} (g : A → B) (o : Option A) (y : B)
    → Option.map g o ≡ some y
    → (x : A) × (o ≡ some x) × (g x ≡ y)
map-some g none y h = absurd cc
map-some g (some x) y h = (x, refl, some_inj.0 h)

length-values_of :
    (d : Dict Text Text) (ks vs : List Text) → values_of d ks ≡ some vs → length vs ≡ length ks
unfolding values_of
length-values_of d [] vs h = ap length (some_inj.0 (sym h))
length-values_of d (k ∷ ks) vs h =
    let (v, at, h₁) = bind-some (lookup k d) _ vs h in
    let (ws, rest, e) = map-some (λ ws. v ∷ ws) (values_of d ks) vs h₁ in
    ap length (sym e) ∙ omega (arith, length-values_of d ks ws rest)

length-line_stats : (line : Text) (vs : List Text) → line_stats line ≡ some vs → length vs ≡ 6
unfolding line_stats
length-line_stats line vs h =
    let (kv, at, h₁) = bind-some _ _ vs h in length-values_of kv stat_keys vs h₁

length-stats_of : (ls vs : List Text) → stats_of ls ≡ some vs → length vs ≡ 6
length-stats_of [] vs h = ap length (some_inj.0 (sym h))
length-stats_of (l ∷ ls) vs h = length-line_stats l vs h

length-stats_for :
    (clients : ℕ) (log : Text) (vs : List Text) → stats_for clients log ≡ some vs → length vs ≡ 6
unfolding stats_for query_stats
length-stats_for clients log vs h = elim (Bool-cases (ltb 0 clients)) [
  | inl some_clients ↦ length-stats_of _ vs (rw some_clients at h)
  | inr no_clients ↦ length-stats_of [] vs (rw no_clients at h)
]

module _ (f : Floats) (m : Measures f.Float) (mib : f.Float → f.Float) where
  length-measured :
      (o : Options) (c : Config) (a : Answers f.Float) (r : List Text)
      → measured f m mib o c a ≡ some r
      → length r ≡ length header_row
  unfolding measured csv_row header_row
  length-measured o c a r h =
      let (line, _, h₁) = bind-some _ _ r h in
      let (s, _, h₂) = bind-some _ _ r h₁ in
      let (qstats, at, h₃) = bind-some (stats_for _ a.query_log) _ r h₂ in
      let (costs, _, e) = map-some (csv_row f m mib o c a s qstats) _ r h₃ in
      ap length (sym e)
      ∙ omega (arith, length-append qstats _, length-stats_for _ a.query_log qstats at)

  -- Each row that a configuration writes has one value for each column of the header row, whatever the
  -- processes answer.
  pub length-trial :
      (o : Options) (c : Config) (a : Answers f.Float) (r : List Text)
      → (trial f m mib o c a).row ≡ some r
      → length r ≡ length header_row
  unfolding trial
  length-trial o c a r h = elim (Bool-cases (all_open a.opens (addresses o c))) [
    | inr shut ↦ absurd (let h' : none ≡ some r = rw shut at h in cc)
    | inl open_ports ↦ elim (Bool-cases (a.opens (coordinator_address o))) [
      | inr shut ↦ absurd (let h' : none ≡ some r = rw (open_ports, shut) at h in cc)
      | inl there ↦ length-measured o c a r (rw (open_ports, there) at h)
    ]
  ]
