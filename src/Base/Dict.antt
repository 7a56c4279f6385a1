-- ===== src/Base/Dict.antt =====
-- Python's `dict`: an association list in the order of insertion, over any key with a test.
use mathlib.Core.Path.{◌≡◌, refl, sym, ◌∙◌}
use mathlib.Core.Bool.{Bool, true, false}
use mathlib.Core.Option
use mathlib.Core.Option.{Option, none, some}
use mathlib.Core.List.{List, [], ◌∷◌, ◌++◌, map, foldl, append-nil, append_assoc}
use native.Mathlib.Omega.{arith}
use dist_compute.Base.Tests.{Key, ◌==◌, if◌then◌else◌, Bool-cases}
use dist_compute.Base.Lists.{All}
use mathlib.Core.Logic.{inl, inr}

abbrev pub Dict {ℓ κ} : Type ℓ → Type κ → Type (ℓ ⊔ κ)
Dict K V = List (K × V)

module _ {ℓ κ} {K : Type ℓ} {V : Type κ} ⦃e : Key K⦄ where
  -- `d.get(k)`
  abbrev pub lookup : K → Dict K V → Option V
  lookup k [] = none
  lookup k ((j, v) ∷ d) = if j == k then some v else lookup k d

  -- `k in d`
  abbrev pub contains : K → Dict K V → Bool
  contains k d = elim (lookup k d) [ none ↦ false | some _ ↦ true ]

  -- `d[k] = v`: a known key keeps its place, a new one goes to the end
  abbrev pub insert : K → V → Dict K V → Dict K V
  insert k v [] = (k, v) ∷ []
  insert k v ((j, w) ∷ d) = if j == k then (j, v) ∷ d else (j, w) ∷ insert k v d

  -- `d.pop(k, None)`
  abbrev pub erase : K → Dict K V → Dict K V
  erase k [] = []
  erase k ((j, w) ∷ d) = if j == k then d else (j, w) ∷ erase k d

  pub lookup-insert :
      (k j : K) (v : V) (d : Dict K V)
      → lookup j (insert k v d) ≡ (if k == j then some v else lookup j d)
  lookup-insert k j v [] = refl
  lookup-insert k j v ((i, w) ∷ d) =
      ground (arith, e.same_iff k j, e.same_iff i k, e.same_iff i j, lookup-insert k j v d)

-- no key is listed twice
abbrev pub Distinct {ℓ κ} : {K : Type ℓ} {V : Type κ} ⦃e : Key K⦄ → Dict K V → Type κ
Distinct [] = Unit
Distinct ((k, v) ∷ d) = (lookup k d ≡ none) × Distinct d

module _ {ℓ κ} {K : Type ℓ} {V : Type κ} ⦃e : Key K⦄ where
  pub insert-Distinct : (k : K) (v : V) (d : Dict K V) → Distinct d → Distinct (insert k v d)
  insert-Distinct k v [] h = (refl, tt)
  insert-Distinct k v ((j, w) ∷ d) h =
      ground
        (arith, insert-Distinct k v d h.1, lookup-insert k j v d, e.same_iff j k, e.same_iff k j)

  -- a property of values is kept by storing a value that has it
  pub insert-All {μ} :
      (P : V → Type μ) (k : K) (v : V) (d : Dict K V)
      → P v
      → All (λ (x : K × V). P x.1) d
      → All (λ (x : K × V). P x.1) (insert k v d)
  insert-All P k v [] p h = (p, tt)
  insert-All P k v ((j, w) ∷ d) p h = elim (Bool-cases (j == k)) [
    | inl same ↦ rw same (p, h.1)
    | inr other ↦ rw other (h.0, insert-All P k v d p h.1)
  ]

  -- a new key goes to the end
  pub insert-new :
      (k : K) (v : V) (d : Dict K V) → lookup k d ≡ none → insert k v d ≡ d ++ (k, v) ∷ []
  insert-new k v [] h = refl
  insert-new k v ((j, w) ∷ d) h = ground (arith, insert-new k v d)

  pub lookup-append_one :
      (k j : K) (v : V) (d : Dict K V)
      → lookup j d ≡ none
      → (k == j) ≡ false
      → lookup j (d ++ (k, v) ∷ []) ≡ none
  lookup-append_one k j v [] h ne = rw ne
  lookup-append_one k j v ((i, w) ∷ d) h ne = ground (arith, lookup-append_one k j v d)

module _ {ℓ κ μ} {K : Type ℓ} {V : Type κ} {W : Type μ} ⦃e : Key K⦄ (g : W → V) where
  -- `{k: g(w) for k, w in d}`
  abbrev pub load : Dict K V → K × W → Dict K V
  load tab (k, w) = insert k (g w) tab

  abbrev pub loaded : Dict K W → Dict K V
  loaded = map (λ (x : K × W). (x.0, g x.1))

  fresh_step :
      (k : K) (w : W) (acc : Dict K V) (d : Dict K W)
      → lookup k d ≡ none
      → All (λ (x : K × W). lookup x.0 acc ≡ none) d
      → All (λ (x : K × W). lookup x.0 (acc ++ (k, g w) ∷ []) ≡ none) d
  fresh_step k w acc [] h a = tt
  fresh_step k w acc ((j, u) ∷ d) h a = (
    lookup-append_one k j (g w) acc a.0 (ground (arith, e.same_iff j k, e.same_iff k j)),
    fresh_step k w acc d (ground arith) a.1,
  )

  load-append :
      (acc : Dict K V) (d : Dict K W)
      → Distinct d
      → All (λ (x : K × W). lookup x.0 acc ≡ none) d
      → foldl load acc d ≡ acc ++ loaded d
  load-append acc [] h a = sym (append-nil acc)
  load-append acc ((k, w) ∷ d) h a = rw (insert-new k (g w) acc a.0) (
      load-append (acc ++ (k, g w) ∷ []) d h.1 (fresh_step k w acc d h.0 a.1)
      ∙ append_assoc acc _ _)

  nothing_loaded : (d : Dict K W) → All (λ (x : K × W). lookup {V = V} x.0 [] ≡ none) d
  nothing_loaded [] = tt
  nothing_loaded (x ∷ d) = (refl, nothing_loaded d)

  -- a comprehension over distinct keys keeps the entries and their order
  pub foldl-load : (d : Dict K W) → Distinct d → foldl load [] d ≡ loaded d
  foldl-load d h = load-append [] d h (nothing_loaded d)

  pub lookup-loaded : (k : K) (d : Dict K W) → lookup k (loaded d) ≡ Option.map g (lookup k d)
  lookup-loaded k [] = refl
  lookup-loaded k ((j, w) ∷ d) = ground (arith, lookup-loaded k d)

  pub loaded-Distinct : (d : Dict K W) → Distinct d → Distinct (loaded d)
  loaded-Distinct [] h = tt
  loaded-Distinct ((j, w) ∷ d) h = (rw (lookup-loaded, h.0), loaded-Distinct d h.1)
