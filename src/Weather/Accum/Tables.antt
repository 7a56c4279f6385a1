-- ===== src/Weather/Accum/Tables.antt =====
-- Tables that are merged key by key, as `merge` of section2/q2_grpc/common.py merges its stations
-- and intervals: what a count of a key becomes, and that no key is listed twice.
use mathlib.Core.Path.{subst}
use dist_compute.Base.{
  ℕ, ◌+◌, ◌<◌, ◌≡◌, refl, ◌∙◌, Option, none, some, [], ◌∷◌, foldl, arith, All, inl, inr, Bool-cases,
}
use dist_compute.Base.Int.{ℤ, beq_ℤ, beq_ℤ_iff, int_eq}
use dist_compute.Base.Dict.{
  Dict, lookup, insert, Distinct, lookup-insert, insert-Distinct, insert-All,
}

module _ {V : Type 0} (combine : Option V → V → V) where
  abbrev pub merge_entry : Dict ℤ V → ℤ × V → Dict ℤ V
  merge_entry tab (k, v) = insert k (combine (lookup k tab) v) tab

  pub merge-Distinct : (tab d : Dict ℤ V) → Distinct tab → Distinct (foldl merge_entry tab d)
  merge-Distinct tab [] h = h
  merge-Distinct tab ((k, v) ∷ d) h =
      merge-Distinct (merge_entry tab (k, v)) d (insert-Distinct k (combine (lookup k tab) v) tab h)

  module _ (m : Option V → ℕ) (m-none : m none ≡ 0)
      (m-combine : (o : Option V) (v : V) → m (some (combine o v)) ≡ m o + m (some v)) where
    pub count-merge :
        (j : ℤ) (tab d : Dict ℤ V)
        → Distinct d
        → m (lookup j (foldl merge_entry tab d)) ≡ m (lookup j tab) + m (lookup j d)
    count-merge j tab [] h = omega (arith, m-none)
    count-merge j tab ((k, v) ∷ d) h =
        count-merge j (merge_entry tab (k, v)) d h.1 ∙ elim (Bool-cases (beq_ℤ k j)) [
          | inl same ↦
              let e : k ≡ j = (beq_ℤ_iff k j).0 same in
              let gone : lookup j d ≡ none = subst (λ i. lookup i d ≡ none) e h.0 in
              rw (lookup-insert, same, gone, m-combine, e) (omega (arith, m-none))
          | inr other ↦ rw (lookup-insert, other) refl
        ]

    pub merge-All :
        (tab d : Dict ℤ V)
        → All (λ (e : ℤ × V). 0 < m (some e.1)) tab
        → All (λ (e : ℤ × V). 0 < m (some e.1)) d
        → All (λ (e : ℤ × V). 0 < m (some e.1)) (foldl merge_entry tab d)
    merge-All tab [] h k = h
    merge-All tab ((j, v) ∷ d) h k =
        merge-All (merge_entry tab (j, v)) d
          (insert-All (λ (w : V). 0 < m (some w)) j (combine (lookup j tab) v) tab
            (omega (arith, m-combine (lookup j tab) v, k.0)) h)
          k.1
