-- ===== src/Weather/Dataset/Batches.antt =====
-- `iter_batches` of section2/q2_grpc/common.py cuts a well-formed data set into batches.
use mathlib.Core.List.{flatten}
use dist_compute.Base.{
  ℕ, zero, suc, ◌+◌, ◌-◌, ◌<◌, ◌≤◌, ◌≡◌, refl, sym, ap, ◌∙◌, true, false, not, ◌&&◌, List, [], ◌∷◌,
  ◌++◌, arith, leb, nat_beq, if◌then◌else◌, length, take, drop, All, length-take, length-drop,
  take-append-drop, inl, inr, Bool-cases,
}
use Prim.Native.Nat.{min}
use dist_compute.Base.Text.{Text}
use dist_compute.Weather.Floats.{Floats}
use dist_compute.Weather.Data.{Row, RecordBatch}
use dist_compute.Weather.Dataset.{
  Ending, returned, columns, line_of, row, fill, at_limit, iter_from, iter_batches, Filled,
  next_batch,
}

-- the records that a limit leaves, when `sent` of them are behind
abbrev pub up_to : {F : Type 0} → ℕ → ℕ → List (Row F) → List (Row F)
up_to limit sent rs = if nat_beq limit 0 then rs else take (limit - sent) rs

-- how many records a batch takes at most
room : ℕ → ℕ → ℕ → ℕ
room limit n sent = if nat_beq limit 0 then n else min n (limit - sent)

room-zero : (limit sent : ℕ) → room limit 0 sent ≡ 0
unfolding room
room-zero limit sent = ground arith

room-last :
    (limit n sent : ℕ)
    → (not (nat_beq limit 0) && leb limit sent) ≡ false
    → (not (nat_beq limit 0) && leb limit (sent + 1)) ≡ true
    → room limit (suc n) sent ≡ 1
unfolding room
room-last limit n sent h k = ground arith

room-next :
    (limit n sent : ℕ)
    → (not (nat_beq limit 0) && leb limit (sent + 1)) ≡ false
    → room limit (suc n) sent ≡ suc (room limit n (sent + 1))
unfolding room
room-next limit n sent k = ground arith

room-suc :
    (limit n sent : ℕ)
    → (not (nat_beq limit 0) && leb limit sent) ≡ false
    → (k : ℕ) × (room limit (suc n) sent ≡ suc k)
room-suc limit n sent h = elim (Bool-cases (not (nat_beq limit 0) && leb limit (sent + 1))) [
  | inl full ↦ (0, room-last limit n sent h full)
  | inr more ↦ (room limit n (sent + 1), room-next limit n sent more)
]

full_tests :
    (limit sent : ℕ) → (not (nat_beq limit 0) && leb limit sent) ≡ true → nat_beq limit 0 ≡ false
full_tests limit sent h = ground arith

full_room : (limit sent : ℕ) → (not (nat_beq limit 0) && leb limit sent) ≡ true → limit - sent ≡ 0
full_room limit sent h = ground arith

-- the batches of the chunks, numbered from `seq`
abbrev pub numbered : {F : Type 0} → ℕ → List (List (Row F)) → List (RecordBatch F)
numbered seq [] = []
numbered seq (c ∷ cs) = columns seq c ∷ numbered (seq + 1) cs

plus_zero : (a : ℕ) → a + 0 ≡ a
plus_zero a = omega arith

plus_suc : (a b : ℕ) → a + suc b ≡ a + 1 + b
plus_suc a b = omega arith

minus_plus : (a b c : ℕ) → a - (b + c) ≡ a - b - c
minus_plus a b c = omega arith

minus_zero : (a : ℕ) → a - 0 ≡ a
minus_zero a = omega arith

minus_suc : (a b : ℕ) → suc a - suc b ≡ a - b
minus_suc a b = omega arith

take-nothing {ℓ} : {A : Type ℓ} (n : ℕ) → take {A = A} n [] ≡ []
take-nothing zero = refl
take-nothing (suc n) = refl

take-split {ℓ} :
    {A : Type ℓ} (k m : ℕ) (xs : List A)
    → k ≤ m
    → take k xs ++ take (m - length (take k xs)) (drop k xs) ≡ take m xs
take-split zero m xs h = rw (minus_zero m) refl
take-split (suc k) zero xs h = absurd (omega arith)
take-split (suc k) (suc m) [] h = rw (minus_zero (suc m)) refl
take-split (suc k) (suc m) (x ∷ xs) h =
    rw (minus_suc m (length (take k xs))) (ap (◌∷◌ x) (take-split k m xs (omega arith)))

module _ (f : Floats) where
  open f use {Float}

  -- each line holds the record beside it
  abbrev pub Reads : List Text → List (Row Float) → Type 0
  Reads [] [] = Unit
  Reads [] (r ∷ rs) = ⊥
  Reads (l ∷ ls) [] = ⊥
  Reads (l ∷ ls) (r ∷ rs) = (line_of f l ≡ row r) × Reads ls rs

  Reads-drop :
      (k : ℕ) (ls : List Text) (rs : List (Row Float)) → Reads ls rs → Reads (drop k ls) (drop k rs)
  Reads-drop zero ls rs h = h
  Reads-drop (suc k) [] [] h = tt
  Reads-drop (suc k) [] (r ∷ rs) h = elim h [ ]
  Reads-drop (suc k) (l ∷ ls) [] h = elim h [ ]
  Reads-drop (suc k) (l ∷ ls) (r ∷ rs) h = Reads-drop k ls rs h.1

  fill-lem :
      (limit n : ℕ) (ls : List Text) (rs : List (Row Float)) (sent : ℕ)
      → at_limit f limit sent ≡ false
      → Reads ls rs
      → let k = room limit n sent in
        fill f limit n ls sent ≡ record {
          got = take k rs;
          rest = drop k ls;
          sent = sent + length (take k rs);
          ending = returned;
        }
  unfolding fill
  fill-lem limit zero ls rs sent open_yet h = rw (room-zero limit sent, plus_zero sent) refl
  fill-lem limit (suc n) [] [] sent open_yet h = elim (Bool-cases (at_limit f limit (sent + 1))) [
    | inl full ↦ rw (room-last limit n sent open_yet full, plus_zero sent) refl
    | inr more ↦ rw (room-next limit n sent more, plus_zero sent) refl
  ]
  fill-lem limit (suc n) [] (r ∷ rs) sent open_yet h = elim h [ ]
  fill-lem limit (suc n) (l ∷ ls) [] sent open_yet h = elim h [ ]
  fill-lem limit (suc n) (l ∷ ls) (r ∷ rs) sent open_yet h =
      elim (Bool-cases (at_limit f limit (sent + 1))) [
        | inl full ↦ rw (room-last limit n sent open_yet full, fill, h.0, full) refl
        | inr more ↦
            rw
              (
                room-next limit n sent more,
                fill,
                h.0,
                more,
                fill-lem limit n ls rs (sent + 1) more h.1,
                plus_suc sent (length (take (room limit n (sent + 1)) rs)),
              )
              refl
      ]

  chunk-length :
      (limit n sent : ℕ) (rs : List (Row Float)) → length (take (room limit n sent) rs) ≤ n
  unfolding room
  chunk-length limit n sent rs = ground (arith, length-take (room limit n sent) rs)

  -- with room for `k` of the records now, the rest comes later
  up_to-split :
      (limit n sent : ℕ) (rs : List (Row Float))
      → let k = room limit n sent in
        take k rs ++ up_to limit (sent + length (take k rs)) (drop k rs) ≡ up_to limit sent rs
  unfolding room
  up_to-split limit n sent rs = elim (Bool-cases (nat_beq limit 0)) [
    | inl none_set ↦ rw none_set (take-append-drop n rs)
    | inr set ↦
        rw (set, minus_plus limit sent)
          (take-split (min n (limit - sent)) (limit - sent) rs (omega arith))
  ]

  up_to-nothing : (limit sent : ℕ) → up_to {F = Float} limit sent [] ≡ []
  up_to-nothing limit sent = elim (Bool-cases (nat_beq limit 0)) [
    | inl none_set ↦ rw none_set refl
    | inr set ↦ rw set (take-nothing (limit - sent))
  ]

  -- a batch that reaches the limit is the last
  up_to-full :
      (limit sent : ℕ) (rs : List (Row Float))
      → at_limit f limit sent ≡ true
      → up_to limit sent rs ≡ []
  up_to-full limit sent rs h = rw (full_tests limit sent h, full_room limit sent h) refl

  -- a chunk is neither empty nor longer than a batch
  abbrev pub Fits : ℕ → List (Row Float) → Type 0
  Fits batch_size c = (0 < length c) × (length c ≤ batch_size)

  Batched : ℕ → ℕ → ℕ → ℕ → List (Row Float) → List (RecordBatch Float) × Ending → Type 0
  Batched limit batch_size seq sent rs out =
      (chunks : List (List (Row Float))) × (out ≡ (numbered seq chunks, returned))
      × (flatten chunks ≡ up_to limit sent rs)
      × All (Fits batch_size) chunks

  round-lem :
      (limit n fuel seq : ℕ) (ls : List Text) (sent : ℕ) (x : Filled f)
      → fill f limit n ls sent ≡ x
      → iter_from f n limit (suc fuel) seq ls sent
        ≡ next_batch f limit seq x (iter_from f n limit fuel (seq + 1) x.rest x.sent)
  unfolding iter_from
  round-lem limit n fuel seq ls sent x e = rw e refl

  -- the filled round of a well-formed rest
  abbrev whole_round : ℕ → ℕ → List Text → List (Row Float) → Filled f
  whole_round k sent ls rs = record {
    got = take k rs;
    rest = drop k ls;
    sent = sent + length (take k rs);
    ending = returned;
  }

  filled-lem :
      (limit n : ℕ) (ls : List Text) (rs : List (Row Float)) (sent k : ℕ)
      → room limit n sent ≡ k
      → at_limit f limit sent ≡ false
      → Reads ls rs
      → fill f limit n ls sent ≡ whole_round k sent ls rs
  filled-lem limit n ls rs sent k is_k open_yet h =
      rw is_k at (fill-lem limit n ls rs sent open_yet h)

  round-more :
      (limit seq sent k : ℕ) (ls : List Text) (r : Row Float) (rs : List (Row Float))
      (rest : List (RecordBatch Float) × Ending) (chunks : List (List (Row Float)))
      → at_limit f limit (sent + length (take (suc k) (r ∷ rs))) ≡ false
      → rest ≡ (numbered (seq + 1) chunks, returned)
      → next_batch f limit seq (whole_round (suc k) sent ls (r ∷ rs)) rest
        ≡ (numbered seq (take (suc k) (r ∷ rs) ∷ chunks), returned)
  unfolding next_batch
  round-more limit seq sent k ls r rs rest chunks more out = rw (more, out) refl

  iter_from-lem :
      (limit n fuel seq : ℕ) (ls : List Text) (rs : List (Row Float)) (sent : ℕ)
      → at_limit f limit sent ≡ false
      → length ls < fuel
      → Reads ls rs
      → Batched limit (suc n) seq sent rs (iter_from f (suc n) limit fuel seq ls sent)
  unfolding iter_from flatten Batched
  iter_from-lem limit n zero seq ls rs sent open_yet enough h = absurd (omega arith)
  iter_from-lem limit n (suc fuel) seq [] (r ∷ rs) sent open_yet enough h = elim h [ ]
  iter_from-lem limit n (suc fuel) seq (l ∷ ls) [] sent open_yet enough h = elim h [ ]
  iter_from-lem limit n (suc fuel) seq [] [] sent open_yet enough h =
      let (k, is_k) = room-suc limit n sent open_yet in
      ([], unfold fill in refl, sym (up_to-nothing limit sent), tt)
  iter_from-lem limit n (suc fuel) seq (l ∷ ls) (r ∷ rs) sent open_yet enough h =
      let (k, is_k) = room-suc limit n sent open_yet in
      let filled = filled-lem limit (suc n) (l ∷ ls) (r ∷ rs) sent (suc k) is_k open_yet h in
      let round =
        round-lem limit (suc n) fuel seq (l ∷ ls) sent (whole_round (suc k) sent (l ∷ ls) (r ∷ rs))
          filled in
      let got = take (suc k) (r ∷ rs) in
      let split = rw is_k at (up_to-split limit (suc n) sent (r ∷ rs)) in
      let short = rw is_k at (chunk-length limit (suc n) sent (r ∷ rs)) in
      elim (Bool-cases (at_limit f limit (sent + length got))) [
        | inl full ↦ (
          got ∷ [],
          round ∙ unfold next_batch in rw full refl,
          ap (◌++◌ got) (sym (up_to-full limit (sent + length got) (drop (suc k) (r ∷ rs)) full))
              ∙ split,
          ((omega arith, short), tt),
        )
        | inr more ↦
            let (chunks, out, flat, fits) =
              iter_from-lem limit n fuel (seq + 1) (drop k ls) (drop k rs) (sent + length got) more
                (omega (arith, length-drop k ls, enough)) (Reads-drop k ls rs h.1) in
            (
              got ∷ chunks,
              round ∙ round-more limit seq sent k (l ∷ ls) r rs _ chunks more out,
              ap (◌++◌ got) flat ∙ split,
              ((omega arith, short), fits),
            )
      ]

  -- `iter_batches` on a data set whose lines all hold a record, with any limit (0 sets none) and
  -- batches of at least one record: it returns, and its batches, numbered from 0, hold all records
  -- in order up to the limit, each batch at least one and at most `batch_size` of them.
  pub iter_batches_lem :
      (ls : List Text) (rs : List (Row Float)) (batch_size limit : ℕ)
      → 0 < batch_size
      → Reads ls rs
      → (chunks : List (List (Row Float))) × (iter_batches f ls batch_size limit
          ≡ (numbered 0 chunks, returned))
        × (flatten chunks ≡ (if nat_beq limit 0 then rs else take limit rs))
        × All (Fits batch_size) chunks
  unfolding iter_batches Batched
  iter_batches_lem ls rs zero limit h reads = absurd (omega arith)
  iter_batches_lem ls rs (suc n) limit h reads =
      rw (minus_zero limit) at
        (iter_from-lem limit n (suc (length ls)) 0 ls rs 0 (ground arith) (omega arith) reads)
