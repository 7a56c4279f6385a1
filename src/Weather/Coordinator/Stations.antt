-- ===== src/Weather/Coordinator/Stations.antt =====
-- `_dispatch_station` of section2/q2_grpc/coordinator.py sends every record of a batch once.
use mathlib.Core.List.{append-nil, append_assoc, Permᴰ}
use native.Mathlib.Numerals.{add-one}
use dist_compute.Base.{
  ℕ, zero, suc, ◌+◌, ◌<◌, ◌≤◌, ◌≡◌, refl, sym, ap, ◌∙◌, true, Option, none, some, List, [], ◌∷◌,
  ◌++◌, map, arith, length, All, All-append, get_elem?, set, get_or, replicate, length-replicate,
  length-set, nat_beq, inl, inr, Bool-cases, Option-cases, drop,
}
use dist_compute.Base.Int.{ℤ, pos, negsuc, floor_mod}
use dist_compute.Base.Perm.{perm_of_eq, perm_append_left, perm_append_right, perm_swap_end}
use dist_compute.Weather.Floats.{Floats, FloatLaws}
use dist_compute.Weather.Data.{Row, rows, zip_columns}
use dist_compute.Weather.Dataset.{columns}
use dist_compute.Weather.Coordinator.{
  WorkerLink, collect, select, part, send_parts, send_to, dispatch_station,
}
use dist_compute.Weather.Coordinator.Accounts.{Accounts, Accounts-send, length-send_to, IsColumnar}

-- the records at the positions, with no error for a position out of range
gathered : {R : Type 0} → Option R → List R → List R
gathered none rest = rest
gathered (some r) rest = r ∷ rest

pub gather : {R : Type 0} → List R → List ℕ → List R
unfolding gathered
gather rs [] = []
gather rs (j ∷ js) = gathered (get_elem? rs j) (gather rs js)

pub gather_all : {R : Type 0} → List R → List (List ℕ) → List R
gather_all rs [] = []
gather_all rs (js ∷ idx) = gather rs js ++ gather_all rs idx

gather-append :
    {R : Type 0} (rs : List R) (js ks : List ℕ)
    → gather rs (js ++ ks) ≡ gather rs js ++ gather rs ks
unfolding gather
gather-append rs [] ks = refl
gather-append rs (j ∷ js) ks = elim (Option-cases (get_elem? rs j)) [
  | inl e ↦ rw (e, gathered) (gather-append rs js ks)
  | inr (r, e) ↦ rw (e, gathered) (ap (◌∷◌ r) (gather-append rs js ks))
]

-- one more position in one of the lists is one more record
gather_all-set :
    {R : Type 0} (rs : List R) (idx : List (List ℕ)) (w j : ℕ) (r : R)
    → w < length idx
    → get_elem? rs j ≡ some r
    → Permᴰ (gather_all rs (set idx w (get_or idx w [] ++ j ∷ []))) (gather_all rs idx ++ r ∷ [])
unfolding gather_all
gather_all-set rs [] w j r lt e = absurd (omega arith)
gather_all-set rs (js ∷ idx) zero j r lt e =
    rw gather-append (
      unfold gather in rw (e, gathered) (perm_swap_end (gather rs js) (r ∷ []) (gather_all rs idx)))
gather_all-set rs (js ∷ idx) (suc w) j r lt e =
    Permᴰ.trans (perm_append_left (gather rs js) (gather_all-set rs idx w j r (omega arith) e))
      (perm_of_eq (sym (append_assoc (gather rs js) (gather_all rs idx) (r ∷ []))))

pub floor_mod-lt : (a : ℤ) (n : ℕ) → 0 < n → floor_mod a n < n
unfolding floor_mod
floor_mod-lt (pos a) n h = omega arith
floor_mod-lt (negsuc a) n h = omega arith

drop-cons :
    {R : Type 0} (all : List R) (j : ℕ) (r : R) (qs : List R)
    → drop j all ≡ r ∷ qs
    → (get_elem? all j ≡ some r) × (drop (j + 1) all ≡ qs)
drop-cons [] zero r qs h = absurd (ground arith)
drop-cons [] (suc j) r qs h = absurd (ground arith)
drop-cons (x ∷ all) zero r qs h = ground arith
drop-cons (x ∷ all) (suc j) r qs h =
    let (there, rest) = drop-cons all j r qs h in (there, rw add-one (rw add-one at rest))

module _ {R : Type 0} (sid : R → ℤ) (n : ℕ) (some_worker : 0 < n) (all : List R) where
  -- The loop that collects positions: after it the lists hold each record of the batch once.
  collect-perm :
      (idx : List (List ℕ)) (j : ℕ) (qs : List R)
      → length idx ≡ n
      → drop j all ≡ qs
      → Permᴰ (gather_all all (collect n idx j (map sid qs))) (gather_all all idx ++ qs)
  collect-perm idx j [] h e = perm_of_eq (sym (append-nil _))
  collect-perm idx j (r ∷ qs) h e =
      let w = floor_mod (sid r) n in
      let lt : w < length idx = omega (arith, floor_mod-lt (sid r) n some_worker, h) in
      let (there, rest) = drop-cons all j r qs e in
      let next = set idx w (get_or idx w [] ++ j ∷ []) in
      Permᴰ.trans (collect-perm next (j + 1) qs (length-set idx w _ ∙ h) rest) (
        Permᴰ.trans (perm_append_right qs (gather_all-set all idx w j r lt there))
          (perm_of_eq (append_assoc (gather_all all idx) (r ∷ []) qs)))

  abbrev InRange : List (List ℕ) → Type 0
  InRange = All (All (λ j. j < length all))

  InRange-set :
      (idx : List (List ℕ)) (w j : ℕ)
      → j < length all
      → InRange idx
      → InRange (set idx w (get_or idx w [] ++ j ∷ []))
  InRange-set [] w j lt h = h
  InRange-set (js ∷ idx) zero j lt h =
      (All-append (λ j. j < length all) js (j ∷ []) h.0 (lt, tt), h.1)
  InRange-set (js ∷ idx) (suc w) j lt h = (h.0, InRange-set idx w j lt h.1)

  drop-lt : (all : List R) (j : ℕ) (r : R) (qs : List R) → drop j all ≡ r ∷ qs → j < length all
  drop-lt [] zero r qs h = absurd (ground arith)
  drop-lt [] (suc j) r qs h = absurd (ground arith)
  drop-lt (x ∷ all) zero r qs h = omega arith
  drop-lt (x ∷ all) (suc j) r qs h = omega (arith, drop-lt all j r qs h)

  collect-InRange :
      (idx : List (List ℕ)) (j : ℕ) (qs : List R)
      → drop j all ≡ qs
      → InRange idx
      → InRange (collect n idx j (map sid qs))
        × (length (collect n idx j (map sid qs)) ≡ length idx)
  collect-InRange idx j [] e h = (h, refl)
  collect-InRange idx j (r ∷ qs) e h =
      let w = floor_mod (sid r) n in
      let next = set idx w (get_or idx w [] ++ j ∷ []) in
      let (range, len) =
        collect-InRange next (j + 1) qs (drop-cons all j r qs e).1
          (InRange-set idx w j (drop-lt all j r qs e) h) in
      (range, len ∙ length-set idx w _)

gather_all-replicate : {R : Type 0} (all : List R) (n : ℕ) → gather_all all (replicate n []) ≡ []
unfolding gather_all gather
gather_all-replicate all zero = refl
gather_all-replicate all (suc n) = gather_all-replicate all n

All-replicate : (all : ℕ) (n : ℕ) → All (All (λ j. j < all)) (replicate n [])
All-replicate all zero = tt
All-replicate all (suc n) = (tt, All-replicate all n)

get_elem?-map :
    {R A : Type 0} (g : R → A) (rs : List R) (j : ℕ) (r : R)
    → get_elem? rs j ≡ some r
    → get_elem? (map g rs) j ≡ some (g r)
get_elem?-map g [] j r h = absurd (ground arith)
get_elem?-map g (x ∷ rs) zero r h = ground arith
get_elem?-map g (x ∷ rs) (suc j) r h = get_elem?-map g rs j r h

get_elem?-lt :
    {R : Type 0} (rs : List R) (j : ℕ) → j < length rs → (r : R) × (get_elem? rs j ≡ some r)
get_elem?-lt [] j h = absurd (omega arith)
get_elem?-lt (x ∷ rs) zero h = (x, refl)
get_elem?-lt (x ∷ rs) (suc j) h = get_elem?-lt rs j (omega arith)

-- a column of the part is the column of the gathered records
select-map :
    {R A : Type 0} (g : R → A) (rs : List R) (js : List ℕ)
    → All (λ j. j < length rs) js
    → select (map g rs) js ≡ some (map g (gather rs js))
unfolding gather
select-map g rs [] h = refl
select-map g rs (j ∷ js) h =
    let (r, e) = get_elem?-lt rs j h.0 in
    rw (select-map g rs js h.1, get_elem?-map g rs j r e, e, gathered)

part-columns :
    {F : Type 0} (seq : ℕ) (rs : List (Row F)) (js : List ℕ)
    → All (λ j. j < length rs) js
    → part (columns seq rs) js ≡ some (columns seq (gather rs js))
unfolding part columns
part-columns seq rs js h = rw (
  select-map (λ r. r.ts) rs js h,
  select-map (λ r. r.sid) rs js h,
  select-map (λ r. r.temp) rs js h,
  select-map (λ r. r.hum) rs js h,
  select-map (λ r. r.pres) rs js h,
  select-map (λ r. r.rain) rs js h,
  select-map (λ r. r.wind) rs js h,
)

pub zip-columns : {F : Type 0} (seq : ℕ) (rs : List (Row F)) → rows (columns seq rs) ≡ rs
unfolding rows columns zip_columns
zip-columns seq [] = refl
zip-columns seq (r ∷ rs) = ap (◌∷◌ r) (zip-columns seq rs)

pub length-column : {R A : Type 0} (g : R → A) (rs : List R) → length (map g rs) ≡ length rs
length-column g [] = refl
length-column g (r ∷ rs) = ap suc (length-column g rs)

pub columns-IsColumnar : {F : Type 0} (seq : ℕ) (rs : List (Row F)) → IsColumnar (columns seq rs)
columns-IsColumnar seq rs = rw zip-columns (unfold columns in sym (length-column (λ r. r.ts) rs))

module _ (f : Floats) (laws : FloatLaws f) where
  open f use {Float}

  Accounts-parts :
      (seq : ℕ) (rs : List (Row Float)) (w : ℕ) (idx : List (List ℕ))
      (links : List (WorkerLink Float)) (seen : List (List (Row Float))) (all : List (Row Float))
      → All (All (λ j. j < length rs)) idx
      → w + length idx ≤ length links
      → Accounts f laws links seen all
      → (links' : List (WorkerLink Float)) × (send_parts (columns seq rs) w idx links
          ≡ (links', true))
        × (length links' ≡ length links)
        × Accounts f laws links' seen (all ++ gather_all rs idx)
  unfolding send_parts gather_all gather
  Accounts-parts seq rs w [] links seen all h fits a = (links, refl, refl, rw append-nil a)
  Accounts-parts seq rs w ([] ∷ idx) links seen all h fits a =
      Accounts-parts seq rs (w + 1) idx links seen all h.1 (omega arith) a
  Accounts-parts seq rs w ((j ∷ js) ∷ idx) links seen all h fits a =
      let p = columns seq (gather rs (j ∷ js)) in
      let next = send_to links w p in
      let same = length-send_to f laws links w p in
      let sent : Accounts f laws next seen (all ++ gather rs (j ∷ js)) =
        rw (zip-columns seq (gather rs (j ∷ js))) at (
          Accounts-send f laws links seen all w p (columns-IsColumnar seq (gather rs (j ∷ js)))
            (omega arith) a) in
      let (links', done, len, acc) =
        Accounts-parts seq rs (w + 1) idx next seen (all ++ gather rs (j ∷ js)) h.1
          (omega (arith, same)) sent in
      (
        links',
        rw (part-columns seq rs (j ∷ js) h.0, send_parts) done,
        len ∙ same,
        rw (← append_assoc) acc,
      )

  -- `_dispatch_station` raises nothing on a batch whose columns have one length, and sends each of
  -- its records to one worker.
  pub Accounts-station :
      (seq : ℕ) (rs : List (Row Float)) (links : List (WorkerLink Float))
      (seen : List (List (Row Float))) (all : List (Row Float))
      → 0 < length links
      → Accounts f laws links seen all
      → (links' : List (WorkerLink Float)) × (dispatch_station links (columns seq rs)
          ≡ (links', true))
        × (length links' ≡ length links)
        × Accounts f laws links' seen (all ++ rs)
  unfolding dispatch_station
  Accounts-station seq rs links seen all some_worker a =
      elim (Bool-cases (nat_beq (length links) 1)) [
        | inl one ↦ (
          send_to links 0 (columns seq rs),
          rw one refl,
          length-send_to f laws links 0 (columns seq rs),
          rw (zip-columns seq rs) at (
              Accounts-send f laws links seen all 0 (columns seq rs) (columns-IsColumnar seq rs)
                some_worker a),
        )
        | inr more ↦
            let n = length links in
            let idx = collect n (replicate n []) 0 (map (λ (r : Row Float). r.sid) rs) in
            let (range, len) =
              collect-InRange (λ (r : Row Float). r.sid) n some_worker rs (replicate n []) 0 rs refl
                (All-replicate (length rs) n) in
            let each_once =
              collect-perm (λ (r : Row Float). r.sid) n some_worker rs (replicate n []) 0 rs
                (length-replicate n []) refl in
            let (links', done, same, acc) =
              Accounts-parts seq rs 0 idx links seen all range
                (omega (arith, len, length-replicate {0} n [])) a in
            (
              links',
              rw more (unfold columns in done),
              same,
              record {
                hold = acc.hold;
                total =
                    Permᴰ.trans acc.total
                      (perm_append_left all (rw (gather_all-replicate rs n) at each_once));
              },
            )
      ]
