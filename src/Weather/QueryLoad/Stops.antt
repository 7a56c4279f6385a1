-- ===== src/Weather/QueryLoad/Stops.antt =====
-- The clients of section2/q2_grpc/bench/query_load.py end once they are to stop.
use mathlib.Core.List.{foldl-append}
use dist_compute.Base.{
  ℕ, zero, suc, ◌+◌, ◌≤◌, ◌≡◌, ◌≢◌, refl, ap, ◌∙◌, sym, Bool, true, false, ◌||◌, ◌&&◌, List, [],
  ◌∷◌, ◌++◌, arith, nat_beq, if◌then◌else◌, length, get_or, set, inl, inr, ◌⊎◌, Bool-cases,
  length-append, get_or-set_ne,
}
use dist_compute.Weather.Floats.{Floats}
use dist_compute.Weather.QueryLoad.{
  Sample, Phase, testing, asking, ended, Load, Options, Turn, tests, answers, wakes, phase_of,
  test_loop, take_answer, wake, turn, turns,
}

Phase-cases : (p : Phase) → (p ≡ testing) ⊎ (p ≡ asking) ⊎ (p ≡ ended)
Phase-cases testing = inl refl
Phase-cases asking = inr (inl refl)
Phase-cases ended = inr (inr refl)

testing-ended : testing ≡ ended → ⊥
testing-ended e = cc

asking-ended : asking ≡ ended → ⊥
asking-ended e = cc

beq-ne : (j i : ℕ) → nat_beq j i ≡ false → j ≢ i
beq-ne j i h e = ground (arith, h, e)

-- how many queries the thread is in
abbrev open_query : Phase → ℕ
open_query testing = 0
open_query asking = 1
open_query ended = 0

open_query_le : (p : Phase) → open_query p ≤ 1
open_query_le testing = omega arith
open_query_le asking = omega arith
open_query_le ended = omega arith

phase-set :
    (ps : List Phase) (i : ℕ) (p : Phase) → phase_of ps i ≢ ended → phase_of (set ps i p) i ≡ p
phase-set [] i p h = absurd (h refl)
phase-set (q ∷ ps) zero p h = refl
phase-set (q ∷ ps) (suc i) p h = phase-set ps i p h

length-set_le :
    {A : Type 0} (xss : List (List A)) (i : ℕ) (xs : List A)
    → length (get_or (set xss i xs) i []) ≤ length xs
length-set_le [] i xs = omega arith
length-set_le (ys ∷ xss) zero xs = omega arith
length-set_le (ys ∷ xss) (suc i) xs = length-set_le xss i xs

module _ (f : Floats) (o : Options f.Float) (i : ℕ) where
  open f use {Float}

  abbrev samples : Load Float → ℕ
  samples l = length (get_or l.lat i [])

  abbrev phase : Load Float → Phase
  phase l = phase_of l.phases i

  -- what a turn does to a client that is to stop
  record Winds (l l' : Load Float) : Type 0 where
    stop : l'.stop ≡ true
    budget : samples l' + open_query (phase l') ≤ samples l + open_query (phase l)
    settles : open_query (phase l) ≡ 0 → open_query (phase l') ≡ 0
    stays : phase l ≡ ended → phase l' ≡ ended

  -- nothing changes for the client
  Winds-same :
      (l l' : Load Float)
      → l'.stop ≡ true
      → get_or l'.lat i [] ≡ get_or l.lat i []
      → phase l' ≡ phase l
      → Winds l l'
  Winds-same l l' s lat same = record {
    stop = s;
    budget = rw (lat, same) (omega arith);
    settles = λ h. rw same h;
    stays = λ h. rw same h;
  }

  test_loop-Winds : (j : ℕ) (l : Load Float) → l.stop ≡ true → Winds l (test_loop f j l)
  unfolding test_loop
  test_loop-Winds j l s = elim (Phase-cases (phase_of l.phases j)) [
    | inl at_test ↦
        rw (test_loop, at_test)
          (elim (Bool-cases (nat_beq j i)) [
            | inl same ↦
                let here : j ≡ i = ground arith in
                let before : phase l ≡ testing = rw here at at_test in
                let after : phase_of (set l.phases j (if l.stop then ended else asking)) i ≡ ended =
                  rw here (
                    phase-set l.phases i _ (λ e. testing-ended (sym before ∙ e))
                    ∙ ap (λ b. if b then ended else asking) s) in
                record {
                  stop = s;
                  budget = rw (before, after) (omega arith);
                  settles = λ h. rw after refl;
                  stays = λ h. after;
                }
            | inr other ↦
                Winds-same l _ s refl (get_or-set_ne l.phases j i _ ended (beq-ne j i other))
          ])
    | inr (inl at_query) ↦ rw (test_loop, at_query) (Winds-same l l s refl refl)
    | inr (inr at_end) ↦ rw (test_loop, at_end) (Winds-same l l s refl refl)
  ]

  take_answer-Winds :
      (j : ℕ) (x : Sample Float) (c : Bool) (l : Load Float)
      → l.stop ≡ true
      → Winds l (take_answer f o j x c l)
  unfolding take_answer
  take_answer-Winds j x c l s = elim (Phase-cases (phase_of l.phases j)) [
    | inl at_test ↦ rw (take_answer, at_test) (Winds-same l l s refl refl)
    | inr (inl at_query) ↦
        rw (take_answer, at_query)
          (elim (Bool-cases (nat_beq j i)) [
            | inl same ↦
                let here : j ≡ i = ground arith in
                let before : phase l ≡ asking = rw here at at_query in
                let after : phase_of (set l.phases j testing) i ≡ testing =
                  rw here (phase-set l.phases i testing (λ e. asking-ended (sym before ∙ e))) in
                let grown : length (get_or (set l.lat j (get_or l.lat j [] ++ x ∷ [])) i [])
                    ≤ samples l + 1 =
                  rw here (
                    omega (
                      arith,
                      length-set_le l.lat i (get_or l.lat i [] ++ x ∷ []),
                      length-append (get_or l.lat i []) (x ∷ []),
                    )) in
                record {
                  stop = ap (λ b. b || (o.until_complete && c && (l.seen_active || x.active))) s;
                  budget = rw (before, after) (omega (arith, grown));
                  settles = λ h. rw after refl;
                  stays = λ h. absurd (asking-ended (sym before ∙ h));
                }
            | inr other ↦
                Winds-same l _
                  (ap (λ b. b || (o.until_complete && c && (l.seen_active || x.active))) s)
                  (get_or-set_ne l.lat j i _ [] (beq-ne j i other))
                  (get_or-set_ne l.phases j i testing ended (beq-ne j i other))
          ])
    | inr (inr at_end) ↦ rw (take_answer, at_end) (Winds-same l l s refl refl)
  ]

  turn-Winds : (t : Turn Float) (l : Load Float) → l.stop ≡ true → Winds l (turn f o l t)
  unfolding turn
  turn-Winds (tests j) l s = test_loop-Winds j l s
  turn-Winds (answers j t₀ t₁ a c) l s = take_answer-Winds j _ c l s
  turn-Winds (wakes now after) l s =
      Winds-same l _ (unfold wake in rw s refl) (unfold wake in refl) (unfold wake in refl)

  Winds-trans : (l₀ l₁ l₂ : Load Float) → Winds l₀ l₁ → Winds l₁ l₂ → Winds l₀ l₂
  Winds-trans l₀ l₁ l₂ w v = record {
    stop = v.stop;
    budget = omega (arith, w.budget, v.budget);
    settles = λ h. v.settles (w.settles h);
    stays = λ h. v.stays (w.stays h);
  }

  turns-Winds : (ts : List (Turn Float)) (l : Load Float) → l.stop ≡ true → Winds l (turns f o ts l)
  unfolding turns
  turns-Winds [] l s = Winds-same l l s refl refl
  turns-Winds (t ∷ ts) l s =
      let w = turn-Winds t l s in
      Winds-trans l (turn f o l t) (turns f o ts (turn f o l t)) w
        (turns-Winds ts (turn f o l t) w.stop)

  answered_rests :
      (x : Sample Float) (c : Bool) (l : Load Float)
      → open_query (phase (take_answer f o i x c l)) ≡ 0
  unfolding take_answer
  answered_rests x c l = elim (Phase-cases (phase l)) [
    | inl at_test ↦ rw (take_answer, at_test, at_test) refl
    | inr (inl at_query) ↦
        rw (take_answer, at_query)
          (ap open_query (phase-set l.phases i testing (λ e. asking-ended (sym at_query ∙ e))))
    | inr (inr at_end) ↦ rw (take_answer, at_end, at_end) refl
  ]

  tested_ends :
      (l : Load Float) → l.stop ≡ true → open_query (phase l) ≡ 0 → phase (test_loop f i l) ≡ ended
  unfolding test_loop
  tested_ends l s h = elim (Phase-cases (phase l)) [
    | inl at_test ↦
        rw (test_loop, at_test)
          (phase-set l.phases i _ (λ e. testing-ended (sym at_test ∙ e))
            ∙ ap (λ b. if b then ended else asking) s)
    | inr (inl at_query) ↦ absurd (omega (arith, rw at_query at h))
    | inr (inr at_end) ↦ rw (test_loop, at_end) at_end
  ]

  -- Once `stop` is set, whatever turns the threads have: when client `i` has had the answer of the
  -- query that it may be in, and then comes to the test of its loop, its thread has ended and stays
  -- so, and it has taken at most one more sample.
  pub once_stopped :
      (before between after : List (Turn Float)) (t₀ t₁ : Float) (active complete : Bool)
      (l : Load Float)
      → l.stop ≡ true
      → let l' =
          turns f o (before ++ answers i t₀ t₁ active complete ∷ between ++ tests i ∷ after) l in
        (phase_of l'.phases i ≡ ended)
        × (length (get_or l'.lat i []) ≤ length (get_or l.lat i []) + 1)
  once_stopped before between after t₀ t₁ active complete l s =
      let x : Sample Float = record {
        latency = f.sub t₁ t₀;
        active = active;
        asked = t₀;
        answered = t₁;
      } in
      let w₀ = turns-Winds before l s in
      let l₁ = turns f o before l in
      let w₁ = take_answer-Winds i x complete l₁ w₀.stop in
      let l₂ = take_answer f o i x complete l₁ in
      let w₂ = turns-Winds between l₂ w₁.stop in
      let l₃ = turns f o between l₂ in
      let w₃ = test_loop-Winds i l₃ w₂.stop in
      let w₄ = turns-Winds after (test_loop f i l₃) w₃.stop in
      let rests = w₂.settles (answered_rests x complete l₁) in
      let all =
        Winds-trans l _ _ (Winds-trans l _ _ (Winds-trans l _ _ (Winds-trans l _ _ w₀ w₁) w₂) w₃)
          w₄ in
      unfold turns turn in
      rw (foldl-append, foldl-append)
        (
          w₄.stays (tested_ends l₃ w₂.stop rests),
          omega (arith, all.budget, open_query_le (phase l)),
        )
