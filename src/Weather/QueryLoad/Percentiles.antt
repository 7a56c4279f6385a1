-- ===== src/Weather/QueryLoad/Percentiles.antt =====
-- The percentiles of section2/q2_grpc/bench/query_load.py.
use Prim.Native.Nat.{min}
use mathlib.Core.Option
use dist_compute.Base.{
  ℕ, zero, suc, ◌-◌, ◌≤◌, ◌<◌, ◌≡◌, ◌≢◌, refl, ap, ◌∙◌, sym, false, some, List, [], ◌∷◌, map, arith,
  length, get_elem?, All,
}
use dist_compute.Base.Order.Sort.{
  sort_by, sort_by-perm, sort_by-Ascending, Ascending-at, Ascending, Ascending-last,
}
use dist_compute.Base.Perm.{length-perm, All-perm, perm_symm}
use dist_compute.Weather.Floats.{Floats, FloatLaws, Measures, MeasuresLaws}
use dist_compute.Weather.QueryLoad.{Sample, latencies, figures, Figures, pct}

get_elem?-below {ℓ} :
    {A : Type ℓ} (xs : List A) (i : ℕ) → i < length xs → (a : A) × (get_elem? xs i ≡ some a)
get_elem?-below [] i h = absurd (omega arith)
get_elem?-below (x ∷ xs) zero h = (x, refl)
get_elem?-below (x ∷ xs) (suc i) h = get_elem?-below xs i (omega arith)

length-map {ℓ κ} :
    {A : Type ℓ} {B : Type κ} (g : A → B) (xs : List A) → length (map g xs) ≡ length xs
length-map g [] = refl
length-map g (x ∷ xs) = ap suc (length-map g xs)

module _ (f : Floats) (m : Measures f.Float) (laws : FloatLaws f)
    (rounding : MeasuresLaws f m) where
  open f use {Float, lt}
  open m use {milli, portion, half, p95, p99}

  abbrev place : ℕ → Float → ℕ
  place n p = min (n - 1) (portion p n)

  -- the place of a percentile is within the list
  pct-there :
      (s : List Float) (p : Float)
      → 0 < length s
      → (a : Float) × (get_elem? s (place (length s) p) ≡ some a) × (pct f m s p ≡ some (milli a))
  unfolding pct
  pct-there s p h =
      let (a, at) = get_elem?-below s (place (length s) p) (omega arith) in
      (a, at, ap (Option.map milli) at)

  pct-le :
      (s : List Float) (i j : ℕ) (a b : Float)
      → Ascending lt s
      → i ≤ j
      → get_elem? s i ≡ some a
      → get_elem? s j ≡ some b
      → lt (milli b) (milli a) ≡ false
  pct-le s i j a b h le e g =
      rounding.milli_le a b (Ascending-at lt f.eq laws.order s i j a b h le e g)

  -- the samples of which figures are printed are none greater than the last figure
  abbrev Most : Float → List (Sample Float) → Type 0
  Most a = All (λ x. lt a (milli x.latency) ≡ false)

  Most-samples :
      (b : Float) (samples : List (Sample Float))
      → All (λ a. lt b a ≡ false) (map (λ (x : Sample Float). x.latency) samples)
      → Most (milli b) samples
  Most-samples b [] h = tt
  Most-samples b (x ∷ xs) h = (rounding.milli_le x.latency b h.0, Most-samples b xs h.1)

  -- Of samples that are not none, `report` reads no place outside the sorted latencies, for whatever
  -- `int(p * n)` gives, and the figures are in order: the median is at most the 95th percentile,
  -- this one at most the 99th, this one at most the maximum, and no latency is above the maximum.
  pub figures_ordered :
      (samples : List (Sample Float))
      → samples ≢ []
      → (g : Figures f m) × (figures f m (latencies f m samples) ≡ some g)
        × (lt g.p95_ms g.p50_ms ≡ false)
        × (lt g.p99_ms g.p95_ms ≡ false)
        × (lt g.max_ms g.p99_ms ≡ false)
        × All (λ (x : Sample Float). lt g.max_ms (milli x.latency) ≡ false) samples
  unfolding latencies
  figures_ordered [] ne = absurd (ne refl)
  figures_ordered (x ∷ xs) ne =
      let raw = map (λ (y : Sample Float). y.latency) (x ∷ xs) in
      let s = sort_by lt raw in
      let perm = sort_by-perm lt f.eq laws.order raw in
      let n = length s in
      let n_eq : n ≡ suc (length xs) =
        sym (length-perm perm) ∙ length-map (λ (y : Sample Float). y.latency) (x ∷ xs) in
      let sorted = sort_by-Ascending lt f.eq laws.order raw in
      let (a, at_a, pa) = pct-there s half (omega (arith, n_eq)) in
      let (b, at_b, pb) = pct-there s p95 (omega (arith, n_eq)) in
      let (c, at_c, pc) = pct-there s p99 (omega (arith, n_eq)) in
      let (d, at_d) = get_elem?-below s (n - 1) (omega (arith, n_eq)) in
      let pd : Option.map milli (get_elem? s (n - 1)) ≡ some (milli d) =
        ap (Option.map milli) at_d in
      let last : n - 1 ≡ length xs = omega (arith, n_eq) in
      (
        record {
          average = milli (m.mean s);
          p50_ms = milli a;
          p95_ms = milli b;
          p99_ms = milli c;
          max_ms = milli d;
        },
        (unfold figures in rw (pa, pb, pc, pd) refl),
        pct-le s _ _ a b sorted (omega (arith, rounding.portion_le half p95 n rounding.half_p95))
            at_a at_b,
        pct-le s _ _ b c sorted (omega (arith, rounding.portion_le p95 p99 n rounding.p95_p99)) at_b
            at_c,
        pct-le s _ _ c d sorted (omega arith) at_c at_d,
        Most-samples d (x ∷ xs) (
            All-perm (λ y. lt d y ≡ false) (perm_symm perm)
              (Ascending-last lt f.eq laws.order s (length xs) d sorted n_eq (rw last at at_d))),
      )
