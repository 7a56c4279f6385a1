-- ===== src/Doc/Demo/Passes.antt =====
-- The checks of section3/problem1/concurrent_demo.py after any order of its moves.
use mathlib.Core.Option
use mathlib.Core.List.{Permᴰ, append-nil, append_assoc}
use dist_compute.Base.{
  ℕ, zero, suc, ◌+◌, ◌-◌, ◌<◌, ◌≡◌, ◌≢◌, refl, ap, ◌∙◌, sym, Bool, true, false, ◌&&◌, some, List,
  [], ◌∷◌, ◌++◌, arith, nat_beq, number_key, length, length-append, All, map, foldl, get_last?,
  get_last?-append, length-take,
}
use dist_compute.Base.Dict.{contains}
use dist_compute.Base.Fold.{tally-perm}
use dist_compute.Base.Perm.{All-perm, length-perm}
use dist_compute.Base.Text.{Text, text_eq, text_beq_iff, strip, codes, decimal}
use dist_compute.Doc.{DocumentService, update_of}
use dist_compute.Doc.Creation.{get_document-found}
use dist_compute.Base.Text.Find.Pieces.{occurs-append}
use dist_compute.Base.Text.Find.{occurs}
use dist_compute.Doc.Demo.{
  play, ends_with_content, Demo, Move, checks, demo, verdict, inserts, enumerate, range_from,
  total_length, all_occur,
}
use dist_compute.Doc.Demo.Schedule.{
  editors, after, after-Stage, after-drained, waiting-log, begin-Stage,
}
use dist_compute.Doc.Demo.Facts.{
  versions-log, versions-results, sorted-range_from, numbers_beq_refl, total_length-body,
  map-enumerate, times-enumerate,
}
use dist_compute.Doc.Demo.Moves.{content_after, body, log, results_after, length-log}

all_occur-past :
    (past : List (ℕ × Text)) (a b c : Text)
    → c ≡ a ++ body past ++ b
    → All (λ (x : ℕ × Text). occurs x.1 c ≡ true) past
all_occur-past [] a b c e = tt
all_occur-past (x ∷ past) a b c e =
    let e' = e ∙ ap (λ u. u ++ b) (sym (append_assoc a x.1 (body past))) in
    (
      rw (e', append_assoc (a ++ x.1) (body past) b) (occurs-append a x.1 (body past ++ b)),
      all_occur-past past (a ++ x.1) b c e',
    )

all_occur-enumerate :
    (i : ℕ) (ts : List Text) (c : Text)
    → All (λ (x : ℕ × Text). occurs x.1 c ≡ true) (enumerate i ts)
    → all_occur ts c ≡ true
all_occur-enumerate i [] c h = refl
all_occur-enumerate i (t ∷ ts) c h = rw (h.0, all_occur-enumerate (i + 1) ts c h.1) refl

total_length-perm :
    {xs ys : List (ℕ × Text)}
    → Permᴰ xs ys
    → total_length (map (λ x. x.1) xs) ≡ total_length (map (λ x. x.1) ys)
total_length-perm Permᴰ.nil = refl
total_length-perm (Permᴰ.cons e p) = rw (e, total_length-perm p) refl
total_length-perm (Permᴰ.swap e g) = rw (e, g) (omega arith)
total_length-perm (Permᴰ.trans p q) = total_length-perm p ∙ total_length-perm q

log-ends :
    (name peer : Text) (past : List (ℕ × Text))
    → 0 < length past
    → ends_with_content (content_after past) (get_last? (log name peer past)) ≡ true
unfolding update_of
log-ends name peer [] h = absurd (omega arith)
log-ends name peer (x ∷ past) h =
    rw get_last?-append
      (ground (arith, text_beq_iff (content_after (x ∷ past)) (content_after (x ∷ past))))

length-enumerate : (i : ℕ) (ts : List Text) → length (enumerate i ts) ≡ length ts
length-enumerate i [] = refl
length-enumerate i (t ∷ ts) = ap suc (length-enumerate (i + 1) ts)

foldl-true :
    (cs : List (Bool × Text))
    → All (λ c. c.0 ≡ true) cs
    → foldl (λ (b : Bool) (c : Bool × Text). b && c.0) true cs ≡ true
foldl-true [] h = refl
foldl-true (c ∷ cs) h = rw h.0 (foldl-true cs h.1)

verdict-pass : (cs : List (Bool × Text)) → All (λ c. c.0 ≡ true) cs → (verdict cs).1 ≡ true
unfolding verdict
verdict-pass cs h = foldl-true cs h

checks-pass :
    (ts : List Text) (name peer : Text) (past : List (ℕ × Text)) (d : Demo)
    → 0 < length ts
    → Permᴰ past (enumerate 0 ts)
    → d.updates ≡ log name peer past
    → d.results ≡ results_after past
    → (verdict (
        checks ts
          (record { name = name; content = content_after past; version = length past })
          d)).1
      ≡ true
unfolding checks
checks-pass ts name peer past d some_ts p updates results =
    let full : length past ≡ length ts = length-perm p ∙ length-enumerate 0 ts in
    let total : length (body past) ≡ total_length ts =
      total_length-body past ∙ total_length-perm p ∙ ap total_length (map-enumerate 0 ts) in
    rw (updates, results)
      (verdict-pass _ (
        ground (arith, total, length-append (codes "Hello " ++ body past) (codes "World")),
        (
          rw full (ground arith),
          (
            all_occur-enumerate 0 ts (content_after past) (
                All-perm _ p
                  (all_occur-past past (codes "Hello ") (codes "World") (content_after past) refl)),
            (
              rw (versions-results, full, sorted-range_from)
                  (numbers_beq_refl (range_from 1 (length ts))),
              (
                ground (arith, full, length-log name peer 0 0 past),
                (
                  rw (versions-log, full) (numbers_beq_refl (range_from 1 (length ts))),
                  (log-ends name peer past (omega (arith, full)), tt),
                ),
              ),
            ),
          ),
        ),
      ))

length-named :
    (i n : ℕ) → length (map (λ i. codes "Client" ++ decimal i ++ codes " ") (range_from i n)) ≡ n
length-named i zero = refl
length-named i (suc n) = ap suc (length-named (i + 1) n)

length-inserts : (clients : ℕ) → length (inserts clients) ≡ clients
unfolding inserts
length-inserts clients = ground (
  arith,
  length-take clients (
      codes "Distributed "
      ∷ codes "Systems "
      ∷ map (λ i. codes "Client" ++ decimal i ++ codes " ") (range_from 2 (clients - 2))),
  length-named 2 (clients - 2),
)

-- Start the demo on any server that does not have its document yet, with a name that has no blanks
-- around it. Let the editors' edits take the document's lock in any order, each once, with turns of
-- the subscriber's stream anywhere between them, and let the stream have as many turns as there are
-- clients while the demo sleeps. Then with at least one client the demo ends and every check holds:
-- the length, the version, each insert in one piece, the versions that the editors got, and the
-- updates that the subscriber got, in order and up to the final content.
pub demo-passes :
    (clients : ℕ) (name peer : Text) (moves : List Move) (s : DocumentService)
    → 0 < clients
    → strip name ≡ name
    → name ≢ []
    → contains name s.docs ≡ false
    → Permᴰ (editors moves) (enumerate 0 (inserts clients))
    → Option.map (λ (r : List Text × Bool). r.1) (demo clients name peer moves clients s)
      ≡ some true
demo-passes clients name peer moves s more stripped named new p =
    let ts = inserts clients in
    let n = length ts in
    let long : n ≡ clients = length-inserts clients in
    let (d₀, started, ready) =
      begin-Stage name peer (length s.queues) n s (rw long more) stripped named new in
    let count_edits : length (editors moves) ≡ n = length-perm p ∙ length-enumerate 0 ts in
    let (past, moved, q) =
      after-Stage name peer (length s.queues) n moves [] d₀ (ready refl)
        (λ i. rw append-nil (rw (tally-perm (λ x. nat_beq i x.0) p) (times-enumerate i 0 ts).0))
        (omega (arith, count_edits)) in
    let full : length past ≡ n =
      length-perm q ∙ ap length (append-nil (editors moves)) ∙ count_edits in
    let (st, updates) =
      after-drained name peer (length s.queues) n clients past
        (after name peer (length s.queues) n moves d₀) moved full
        (omega (arith, waiting-log name peer (length s.queues) n past _ moved)) in
    unfold demo play in
    rw
      (
        started,
        get_document-found name (after name peer (length s.queues) n moves d₀).server _ moved.found,
      )
      (ap some (
        checks-pass ts name peer past _ (rw long more) (Permᴰ.trans q (rw append-nil p)) updates
          st.results))
