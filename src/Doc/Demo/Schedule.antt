-- ===== src/Doc/Demo/Schedule.antt =====
-- What section3/problem1/concurrent_demo.py has done after its start and after any of its moves.
use mathlib.Core.List.{Permᴰ}
use dist_compute.Base.{
  ℕ, zero, suc, ◌+◌, ◌-◌, ◌≤◌, ◌<◌, ◌≡◌, ◌≢◌, refl, ap, true, false, none, some, List, [], ◌∷◌,
  ◌++◌, arith, nat_beq, number_key, length, get_or, inl, inr, length-append, length-set,
  get_or-set_self, foldl, replicate,
}
use dist_compute.Base.Dict.{lookup, contains, lookup-append_one, insert, lookup-insert}
use dist_compute.Base.Fold.{tally-append, tally-perm}
use dist_compute.Base.Perm.{perm_refl, perm_symm, perm_move}
use dist_compute.Base.Text.{Text, text_eq, text_beq_iff, strip, codes}
use dist_compute.Doc.{
  Document, DocumentService, ok, no_update, next_update, document, snapshot_of, create_document,
  subscribe_to_updates,
}
use dist_compute.Doc.Runs.{get_or-append_last}
use dist_compute.Doc.Demo.{initial, Demo, Move, edits, observes, listen, editor, move, begin}
use dist_compute.Doc.Demo.Facts.{times}
use dist_compute.Doc.Demo.Moves.{
  List-cases, unsubscribe_found, observe-server, Stage, log, results_after, editor-Stage,
  listen-Stage, length-log,
}

subscribe-found :
    (n : Text) (s : DocumentService) (doc : Document)
    → lookup n s.docs ≡ some doc
    → subscribe_to_updates n s ≡ (
      ok (length s.queues),
      record s {
        docs =
            insert n (record doc { subscribers = doc.subscribers ++ length s.queues ∷ [] }) s.docs;
        queues = s.queues ++ (snapshot_of doc ∷ []) ∷ [];
      },
    )
subscribe-found n s doc h = unfold subscribe_to_updates in ground arith

-- the edits among the moves
abbrev pub editors : List Move → List (ℕ × Text)
editors [] = []
editors (edits i t ∷ ms) = (i, t) ∷ editors ms
editors (observes ∷ ms) = editors ms

lookup-results_after :
    (i : ℕ) (past : List (ℕ × Text)) → times i past ≡ 0 → lookup i (results_after past) ≡ none
lookup-results_after i [] h = refl
lookup-results_after i (x ∷ past) h =
    lookup-append_one x.0 i _ (results_after past) (lookup-results_after i past (ground arith))
      (ground arith)

module _ (name peer : Text) (q n : ℕ) where
  abbrev pub after : List Move → Demo → Demo
  after ms d = foldl (move name peer q n) d ms

  pub after-Stage :
      (ms : List Move) (past : List (ℕ × Text)) (d : Demo)
      → Stage name peer q n past d
      → ((i : ℕ) → times i (editors ms ++ past) ≤ 1)
      → length (editors ms) + length past ≡ n
      → (past' : List (ℕ × Text)) × Stage name peer q n past' (after ms d)
        × Permᴰ past' (editors ms ++ past)
  unfolding move
  after-Stage [] past d s once total = (past, s, perm_refl past)
  after-Stage (edits i t ∷ ms) past d s once total =
      let moved = perm_move (i, t) (editors ms) past in
      let (past', s', p) =
        after-Stage ms ((i, t) ∷ past) (editor name peer i t d)
          (editor-Stage name peer q n i t past d
            (lookup-results_after i past
              (ground (arith, once i, tally-append (λ x. nat_beq i x.0) (editors ms) past)))
            (omega arith) s)
          (λ j. rw (← tally-perm (λ x. nat_beq j x.0) moved) (once j)) (omega arith) in
      (past', s', Permᴰ.trans p (perm_symm moved))
  after-Stage (observes ∷ ms) past d s once total =
      let (past', s', p) =
        after-Stage ms past (listen name q n d) (listen-Stage name peer q n past d (omega arith) s)
          once total in
      (past', s', p)

  abbrev waiting : Demo → ℕ
  waiting d = length (get_or d.server.queues q no_update)

  waiting-listen :
      (past : List (ℕ × Text)) (d : Demo)
      → Stage name peer q n past d
      → waiting (listen name q n d) ≤ waiting d - 1
  waiting-listen past d s = elim s.phase [
    | inl (on, subs, few, logged) ↦ elim (List-cases (get_or d.server.queues q no_update)) [
      | inl none_left ↦
          unfold listen next_update in
          rw (on, none_left)
            (rw (get_or-set_self d.server.queues q [] no_update s.issued) (omega arith))
      | inr (u, us, next) ↦
          unfold listen next_update in
          rw (on, next, observe-server)
            (rw (get_or-set_self d.server.queues q us no_update s.issued) (omega arith))
    ]
    | inr (off, full, logged, empty) ↦
        unfold listen next_update in
        rw (off, unsubscribe_found name q d.server _ s.found, empty) (omega arith)
  ]

  pub after-drained :
      (k : ℕ) (past : List (ℕ × Text)) (d : Demo)
      → Stage name peer q n past d
      → length past ≡ n
      → waiting d ≤ k
      → Stage name peer q n past (after (replicate k observes) d)
        × ((after (replicate k observes) d).updates ≡ log name peer past)
  unfolding move
  after-drained zero past d s full few = (
    s,
    elim s.phase [
      | inl (on, subs, less, logged) ↦ absurd (
          omega (
            arith,
            length-append d.updates (get_or d.server.queues q no_update),
            ap length logged,
            length-log name peer q n past,
          ))
      | inr (off, _, logged, empty) ↦ logged
    ],
  )
  after-drained (suc k) past d s full few =
      unfold move in
      after-drained k past (listen name q n d) (listen-Stage name peer q n past d (omega arith) s)
        full (omega (arith, waiting-listen past d s))

  pub waiting-log :
      (past : List (ℕ × Text)) (d : Demo) → Stage name peer q n past d → waiting d ≤ length past
  waiting-log past d s = elim s.phase [
    | inl (on, subs, few, logged) ↦ omega (
      arith,
      length-append d.updates (get_or d.server.queues q no_update),
      ap length logged,
      length-log name peer q n past,
    )
    | inr (off, full, logged, empty) ↦ rw empty (omega arith)
  ]

  pub begin-Stage :
      (s : DocumentService)
      → 0 < n
      → strip name ≡ name
      → name ≢ []
      → contains name s.docs ≡ false
      → (d : Demo) × (begin name n s ≡ some (length s.queues, d))
        × ((length s.queues ≡ q) → Stage name peer q n [] d)
  unfolding document snapshot_of
  begin-Stage s more stripped named new =
      let doc = document name initial in
      let s₁ : DocumentService = record s { docs = insert name doc s.docs } in
      let s₂ : DocumentService = record s₁ {
        docs = insert name (record doc { subscribers = length s.queues ∷ [] }) s₁.docs;
        queues = s.queues ++ (snapshot_of doc ∷ []) ∷ [];
      } in
      let d : Demo = record { server = s₂; updates = []; listening = true; results = [] } in
      let created : create_document name initial s ≡ (
        ok (record { name = name; message = codes "Document " ++ name ++ codes " created." }),
        s₁,
      ) =
        unfold create_document in ground (arith, text_beq_iff name []) in
      let subscribed : subscribe_to_updates name s₁ ≡ (ok (length s.queues), s₂) =
        subscribe-found name s₁ doc (rw lookup-insert (ground (arith, text_beq_iff name name))) in
      (
        listen name (length s.queues) n d,
        unfold begin in rw (created, subscribed) refl,
        λ e. rw (← e) (
            unfold listen next_update in
            rw (get_or-append_last s.queues) (record {
              subscribers = length s.queues ∷ [];
              found = rw lookup-insert (ground (arith, text_beq_iff name name));
              issued = ground (
                arith,
                length-set (s.queues ++ (snapshot_of doc ∷ []) ∷ []) (length s.queues) [],
                length-append s.queues ((snapshot_of doc ∷ []) ∷ []),
              );
              phase = inl (
                refl,
                refl,
                more,
                get_or-set_self (s.queues ++ (snapshot_of doc ∷ []) ∷ []) (length s.queues) []
                    no_update (omega (arith, length-append s.queues ((snapshot_of doc ∷ []) ∷ []))),
              );
              results = refl;
            })),
      )
