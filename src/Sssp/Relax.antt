-- ===== src/Sssp/Relax.antt =====
-- section1/q2_sssp/oracle.py: what the loop over the edges of a vertex does to distances and queue.
use dist_compute.Base.{
  ℕ, zero, suc, ◌+◌, ◌<◌, ◌≤◌, ◌≡◌, refl, ap, sym, ◌∙◌, true, false, none, some, List, [], ◌∷◌,
  arith, ltb, nat_beq, ◌&&◌, ◌||◌, length, get_elem?, set, All, inl, inr, ◌⊎◌, Bool-cases,
  length-set,
}
use dist_compute.Sssp.{Edges, Distance, below, heappush, relax}

-- vertex `v` has a distance of at most `e`
abbrev pub AtMost : List Distance → ℕ → ℕ → Type 0
AtMost dist v e = (d : ℕ) × (get_elem? dist v ≡ some (some d)) × (d ≤ e)

abbrev pub Reaches : List Distance → ℕ → Edges → Type 0
Reaches dist d = All (λ e. AtMost dist e.0 (d + e.1))

abbrev pub Queued : ℕ × ℕ → List (ℕ × ℕ) → Type 0
Queued x [] = ⊥
Queued x (y ∷ pq) = (x ≡ y) ⊎ Queued x pq

abbrev pub Lower : List Distance → List Distance → Type 0
Lower dist dist' = (v e : ℕ) → AtMost dist v e → AtMost dist' v e

get_elem?-set_self :
    (ds : List Distance) (v : ℕ) (x old : Distance)
    → get_elem? ds v ≡ some old
    → get_elem? (set ds v x) v ≡ some x
get_elem?-set_self [] v x old h = absurd (ground arith)
get_elem?-set_self (d ∷ ds) zero x old h = refl
get_elem?-set_self (d ∷ ds) (suc v) x old h = get_elem?-set_self ds v x old h

get_elem?-set_ne :
    (ds : List Distance) (v u : ℕ) (x : Distance)
    → nat_beq v u ≡ false
    → get_elem? (set ds v x) u ≡ get_elem? ds u
get_elem?-set_ne [] v u x h = refl
get_elem?-set_ne (d ∷ ds) zero zero x h = absurd (ground arith)
get_elem?-set_ne (d ∷ ds) zero (suc u) x h = refl
get_elem?-set_ne (d ∷ ds) (suc v) zero x h = refl
get_elem?-set_ne (d ∷ ds) (suc v) (suc u) x h = get_elem?-set_ne ds v u x (ground arith)

Queued-push : (x : ℕ × ℕ) (pq : List (ℕ × ℕ)) → Queued x (heappush x pq)
unfolding heappush
Queued-push x [] = inl refl
Queued-push x (y ∷ pq) = elim (Bool-cases (ltb y.0 x.0 || (nat_beq y.0 x.0 && ltb y.1 x.1))) [
  | inl after ↦ rw after (inr (Queued-push x pq))
  | inr here ↦ rw here (inl refl)
]

Queued-kept : (x y : ℕ × ℕ) (pq : List (ℕ × ℕ)) → Queued y pq → Queued y (heappush x pq)
unfolding heappush
Queued-kept x y [] h = absurd h
Queued-kept x y (z ∷ pq) h = elim (Bool-cases (ltb z.0 x.0 || (nat_beq z.0 x.0 && ltb z.1 x.1))) [
  | inl after ↦
      rw after (elim h [ inl same ↦ inl same | inr in_rest ↦ inr (Queued-kept x y pq in_rest) ])
  | inr here ↦ rw here (inr h)
]

All-push :
    (P : ℕ × ℕ → Type 0) (x : ℕ × ℕ) (pq : List (ℕ × ℕ)) → P x → All P pq → All P (heappush x pq)
unfolding heappush
All-push P x [] p h = (p, tt)
All-push P x (y ∷ pq) p h = elim (Bool-cases (ltb y.0 x.0 || (nat_beq y.0 x.0 && ltb y.1 x.1))) [
  | inl after ↦ rw after (h.0, All-push P x pq p h.1)
  | inr here ↦ rw here (p, h)
]

pub All-map :
    (P Q : ℕ × ℕ → Type 0) (xs : List (ℕ × ℕ)) → ((x : ℕ × ℕ) → P x → Q x) → All P xs → All Q xs
All-map P Q [] f h = tt
All-map P Q (x ∷ xs) f h = (f x h.0, All-map P Q xs f h.1)

set-Lower :
    (dist : List Distance) (v x : ℕ) (old : Distance)
    → get_elem? dist v ≡ some old
    → below x old ≡ true
    → Lower dist (set dist v (some x))
set-Lower dist v x old there less u e h = elim (Bool-cases (nat_beq v u)) [
  | inl same ↦
      let eq : v ≡ u = ground arith in
      (
        x,
        rw (← eq) (get_elem?-set_self dist v (some x) old there),
        (let both = sym (rw eq at there) ∙ h.1 in ground (arith, both, h.2)),
      )
  | inr other ↦ (h.0, get_elem?-set_ne dist v u (some x) other ∙ h.1, h.2)
]

pub get_elem?-in_range :
    (ds : List Distance) (v : ℕ) → v < length ds → (d : Distance) × (get_elem? ds v ≡ some d)
get_elem?-in_range [] v h = absurd (omega arith)
get_elem?-in_range (d ∷ ds) zero h = (d, refl)
get_elem?-in_range (d ∷ ds) (suc v) h = get_elem?-in_range ds v (omega arith)

-- what the loop over the edges `es` of a vertex at distance `d` has done
pub record Relaxation (d : ℕ) (es : Edges) (dist dist' : List Distance) (pq pq' : List (ℕ × ℕ))
    : Type 0 where
  pub lower : Lower dist dist'
  pub reaches : Reaches dist' d es
  pub new :
      (v x : ℕ)
      → get_elem? dist' v ≡ some (some x)
      → (get_elem? dist v ≡ some (some x)) ⊎ Queued (x, v) pq'
  pub kept : (e : ℕ × ℕ) → Queued e pq → Queued e pq'
  pub bounded : All (λ e. AtMost dist e.1 e.0) pq → All (λ e. AtMost dist' e.1 e.0) pq'
  pub same_length : length dist' ≡ length dist

abbrev pub Targets : ℕ → Edges → Type 0
Targets n = All (λ e. e.0 < n)

abbrev pub Relaxes : ℕ → Edges → List Distance → List (ℕ × ℕ) → Type 0
Relaxes d es dist pq =
    (dist' : List Distance) × (pq' : List (ℕ × ℕ)) × (relax d es (dist, pq) ≡ some (dist', pq'))
    × Relaxation d es dist dist' pq pq'

relax_lower :
    (d v w : ℕ) (es : Edges) (dist : List Distance) (pq : List (ℕ × ℕ)) (old : Distance)
    → get_elem? dist v ≡ some old
    → below (d + w) old ≡ true
    → Relaxes d es (set dist v (some (d + w))) (heappush (d + w, v) pq)
    → Relaxes d ((v, w) ∷ es) dist pq
unfolding relax
relax_lower d v w es dist pq old there less (dist', pq', made, r) = (
  dist',
  pq',
  rw (relax, there, less) made,
  record {
    lower = λ u e h. r.lower u e (set-Lower dist v (d + w) old there less u e h);
    reaches =
        (r.lower v (d + w) (d + w, get_elem?-set_self dist v _ old there, omega arith), r.reaches);
    new = λ u x h. elim (r.new u x h) [
      | inl at ↦ elim (Bool-cases (nat_beq v u)) [
        | inl same ↦
            (let eq : u ≡ v = ground arith in
              let both : some (some x) ≡ some (some (d + w)) =
                sym at
                ∙ ap (λ j. get_elem? (set dist v (some (d + w))) j) eq
                ∙ get_elem?-set_self dist v _ old there in
              let number : x ≡ d + w = ground (arith, both) in
              inr (r.kept (x, u) (rw (eq, number) (Queued-push (d + w, v) pq))))
        | inr other ↦ inl (sym (get_elem?-set_ne dist v u _ other) ∙ at)
      ]
      | inr queued ↦ inr queued
    ];
    kept = λ e q. r.kept e (Queued-kept (d + w, v) e pq q);
    bounded = λ b. r.bounded (
        All-push _ (d + w, v) pq (d + w, get_elem?-set_self dist v _ old there, omega arith)
          (All-map _ _ pq (λ e. set-Lower dist v (d + w) old there less e.1 e.0) b));
    same_length = r.same_length ∙ length-set dist v _;
  },
)

relax_same :
    (d v w : ℕ) (es : Edges) (dist : List Distance) (pq : List (ℕ × ℕ)) (old : Distance)
    → get_elem? dist v ≡ some old
    → below (d + w) old ≡ false
    → Relaxes d es dist pq
    → Relaxes d ((v, w) ∷ es) dist pq
unfolding relax
relax_same d v w es dist pq none there more r = absurd (ground arith)
relax_same d v w es dist pq (some o) there more (dist', pq', made, r) = (
  dist',
  pq',
  rw (relax, there, more) made,
  record {
    lower = r.lower;
    reaches = (r.lower v (d + w) (o, there, ground arith), r.reaches);
    new = r.new;
    kept = r.kept;
    bounded = r.bounded;
    same_length = r.same_length;
  },
)

pub relax-Relaxes :
    (d : ℕ) (es : Edges) (dist : List Distance) (pq : List (ℕ × ℕ))
    → Targets (length dist) es
    → Relaxes d es dist pq
relax-Relaxes d [] dist pq h = (
  dist,
  pq,
  unfold relax in refl,
  record {
    lower = λ u e l. l;
    reaches = tt;
    new = λ v x at. inl at;
    kept = λ e q. q;
    bounded = λ b. b;
    same_length = refl;
  },
)
relax-Relaxes d ((v, w) ∷ es) dist pq h =
    let (old, there) = get_elem?-in_range dist v h.0 in
    elim (Bool-cases (below (d + w) old)) [
      | inl less ↦ relax_lower d v w es dist pq old there less (
          relax-Relaxes d es (set dist v (some (d + w))) (heappush (d + w, v) pq)
            (rw length-set h.1))
      | inr more ↦ relax_same d v w es dist pq old there more (relax-Relaxes d es dist pq h.1)
    ]
