-- ===== src/Doc/Demo/Moves.antt =====
-- The invariant of section3/problem1/concurrent_demo.py that each of its moves keeps.
use mathlib.Core.List.{append_assoc}
use dist_compute.Base.{
  ℕ, suc, ◌+◌, ◌≤◌, ◌<◌, ◌≡◌, refl, ap, ◌∙◌, sym, true, false, not, none, some, List, [], ◌∷◌, ◌++◌,
  arith, nat_beq, number_key, if◌then◌else◌, length, get_or, set, inl, inr, ◌⊎◌, Bool-cases,
  length-append, length-set, get_or-set_self, All, All-append,
}
use dist_compute.Base.Dict.{lookup, insert, lookup-insert, insert-new, Dict}
use dist_compute.Base.Text.{Text, text_eq, text_beq_iff, codes}
use dist_compute.Doc.{
  Update, Document, DocumentService, ok, EditDocumentRequest, no_update, broadcast, edited,
  insert_at, update_of, edit_document, next_update, remove, unsubscribe,
}
use dist_compute.Doc.Queues.{length-broadcast}
use dist_compute.Doc.Edits.{response}
use dist_compute.Doc.Demo.{Demo, observe, listen, editor, edit_request}

edit_document_eq :
    (r : EditDocumentRequest) (peer : Text) (s : DocumentService) (doc : Document)
    → lookup r.name s.docs ≡ some doc
    → r.position ≤ length doc.content
    → edit_document r peer s ≡ (
      ok (response (edited r doc)),
      record s {
        docs = insert r.name (edited r doc) s.docs;
        queues = broadcast doc.subscribers (update_of r peer (edited r doc)) s.queues;
      },
    )
edit_document_eq r peer s doc found near = unfold edit_document in ground arith

-- what the edits `past`, the latest first, have put between the two words
abbrev pub body : List (ℕ × Text) → Text
body [] = []
body (x ∷ past) = x.1 ++ body past

abbrev pub content_after : List (ℕ × Text) → Text
content_after past = codes "Hello " ++ body past ++ codes "World"

get_or-broadcast_one :
    (q : ℕ) (u : Update) (queues : List (List Update))
    → q < length queues
    → get_or (broadcast (q ∷ []) u queues) q no_update ≡ get_or queues q no_update ++ u ∷ []
unfolding broadcast
get_or-broadcast_one q u queues h = get_or-set_self queues q _ no_update h

pub List-cases {ℓ} :
    {A : Type ℓ} (xs : List A) → (xs ≡ []) ⊎ ((y : A) × (ys : List A) × (xs ≡ y ∷ ys))
List-cases [] = inl refl
List-cases (y ∷ ys) = inr (y, ys, refl)

All-middle {ℓ κ} :
    {A : Type ℓ} (P : A → Type κ) (xs : List A) (y : A) (ys : List A) → All P (xs ++ y ∷ ys) → P y
All-middle P [] y ys h = h.0
All-middle P (x ∷ xs) y ys h = All-middle P xs y ys h.1

pub unsubscribe_found :
    (name : Text) (q : ℕ) (s : DocumentService) (doc : Document)
    → lookup name s.docs ≡ some doc
    → unsubscribe name q s ≡ record s {
      docs = insert name (record doc { subscribers = remove q doc.subscribers }) s.docs;
    }
unsubscribe_found name q s doc h = unfold unsubscribe in ground arith

observe_new :
    (n : ℕ) (d : Demo) (u : Update)
    → u.snapshot ≡ false
    → observe n d u ≡ record d {
      updates = d.updates ++ u ∷ [];
      listening = not (nat_beq (length (d.updates ++ u ∷ [])) n);
    }
unfolding observe
observe_new n d u h =
    ap
      (λ b. if b then d else record d {
        updates = d.updates ++ u ∷ [];
        listening = not (nat_beq (length (d.updates ++ u ∷ [])) n);
      })
      h

abbrev pub doc_after : Text → List (ℕ × Text) → List ℕ → Document
doc_after name past subscribers = record {
  name = name;
  content = content_after past;
  version = length past;
  subscribers = subscribers;
}

-- the updates that the edits sent, and the results that their editors stored
abbrev pub log : Text → Text → List (ℕ × Text) → List Update
log name peer [] = []
log name peer (x ∷ past) =
    log name peer past
    ++ update_of (edit_request name x.0 x.1) peer (doc_after name (x ∷ past) []) ∷ []

abbrev pub results_after : List (ℕ × Text) → Dict ℕ (ℕ × Text)
results_after [] = []
results_after (x ∷ past) =
    results_after past ++ (x.0, (suc (length past), content_after (x ∷ past))) ∷ []

pub observe-server : (n : ℕ) (d : Demo) (u : Update) → (observe n d u).server ≡ d.server
unfolding observe
observe-server n d u = ground arith

module _ (name peer : Text) (q n : ℕ) where
  -- the stream is read, or all updates have been
  abbrev pub Phase : List (ℕ × Text) → Demo → List ℕ → Type 0
  Phase past d subscribers =
      ((d.listening ≡ true)
        × (subscribers ≡ q ∷ [])
        × (length d.updates < n)
        × (d.updates ++ get_or d.server.queues q no_update ≡ log name peer past))
      ⊎ ((d.listening ≡ false)
          × (length past ≡ n)
          × (d.updates ≡ log name peer past)
          × (get_or d.server.queues q no_update ≡ []))

  pub record Stage (past : List (ℕ × Text)) (d : Demo) : Type 0 where
    pub subscribers : List ℕ
    pub found : lookup name d.server.docs ≡ some (doc_after name past subscribers)
    pub issued : q < length d.server.queues
    pub phase : Phase past d subscribers
    pub results : d.results ≡ results_after past

  edited_after :
      (i : ℕ) (t : Text) (past : List (ℕ × Text)) (subscribers : List ℕ)
      → edited (edit_request name i t) (doc_after name past subscribers)
        ≡ doc_after name ((i, t) ∷ past) subscribers
  unfolding edited edit_request insert_at
  edited_after i t past subscribers =
      ap
        (λ c. record {
          name = name;
          content = codes "Hello " ++ c;
          version = length past + 1;
          subscribers = subscribers;
        })
        (sym (append_assoc t (body past) (codes "World")))
      ∙ ap
          (λ v. record {
            name = name;
            content = content_after ((i, t) ∷ past);
            version = v;
            subscribers = subscribers;
          })
          (omega arith)

  pub editor-Stage :
      (i : ℕ) (t : Text) (past : List (ℕ × Text)) (d : Demo)
      → lookup i (results_after past) ≡ none
      → length past < n
      → Stage past d
      → Stage ((i, t) ∷ past) (editor name peer i t d)
  editor-Stage i t past d new more s =
      let r = edit_request name i t in
      let done =
        edit_document_eq r peer d.server (doc_after name past s.subscribers)
          (unfold edit_request in s.found)
          (unfold edit_request in
            omega (arith, length-append (codes "Hello ") (body past ++ codes "World"))) in
      unfold editor in
      rw (done, edited_after)
        (record {
          subscribers = s.subscribers;
          found = rw lookup-insert (ground (arith, text_beq_iff name name));
          issued = omega (
            arith,
            s.issued,
            length-broadcast s.subscribers
                (update_of r peer (doc_after name ((i, t) ∷ past) s.subscribers)) d.server.queues,
          );
          phase = elim s.phase [
            | inl (on, subs, few, logged) ↦ inl (
              on,
              subs,
              few,
              rw subs (
                  rw (get_or-broadcast_one q _ d.server.queues s.issued) (
                    rw (← append_assoc) (
                      rw logged
                        (ap (λ u. log name peer past ++ u ∷ []) (unfold update_of in refl))))),
            )
            | inr (off, full, logged, empty) ↦ absurd (omega (arith, full, more))
          ];
          results = rw s.results (insert-new i _ (results_after past) new);
        })

  pub length-log : (past : List (ℕ × Text)) → length (log name peer past) ≡ length past
  length-log [] = refl
  length-log (x ∷ past) = ground (
    arith,
    length-append (log name peer past)
        (update_of (edit_request name x.0 x.1) peer (doc_after name (x ∷ past) []) ∷ []),
    length-log past,
  )

  log-snapshot : (past : List (ℕ × Text)) → All (λ u. u.snapshot ≡ false) (log name peer past)
  log-snapshot [] = tt
  log-snapshot (x ∷ past) =
      All-append _ (log name peer past) _ (log-snapshot past) (unfold update_of in (refl, tt))

  -- the subscriber takes an update from its queue
  observe-Stage :
      (past : List (ℕ × Text)) (d : Demo) (u : Update) (us : List Update)
      → length past ≤ n
      → (s : Stage past d) → s.subscribers ≡ q ∷ []
      → d.updates ++ u ∷ us ≡ log name peer past
      → length d.updates < n
      → Stage past (
          observe n
            (record d {
              server = record d.server { queues = set d.server.queues q us };
              listening = true;
            })
            u)
  observe-Stage past d u us most s subs logged few =
      let sent =
        All-middle (λ u. u.snapshot ≡ false) d.updates u us (rw logged (log-snapshot past)) in
      let counted : length d.updates + suc (length us) ≡ length past =
        sym (length-append d.updates (u ∷ us)) ∙ ap length logged ∙ length-log past in
      let longer = length-append d.updates (u ∷ []) in
      rw (observe_new n _ u sent) (record {
        subscribers = s.subscribers;
        found = s.found;
        issued = rw length-set s.issued;
        phase = elim (Bool-cases (nat_beq (length (d.updates ++ u ∷ [])) n)) [
          | inl last ↦ elim (List-cases us) [
            | inl end ↦ inr (
              rw last refl,
              ground (arith, longer, counted, ap length end),
              rw end at logged,
              rw (get_or-set_self d.server.queues q us no_update s.issued) end,
            )
            | inr (v, vs, further) ↦ absurd (ground (arith, longer, counted, ap length further))
          ]
          | inr going ↦ inl (
            rw going refl,
            subs,
            ground (arith, longer),
            rw (get_or-set_self d.server.queues q us no_update s.issued) (rw append_assoc logged),
          )
        ];
        results = s.results;
      })

  pub listen-Stage :
      (past : List (ℕ × Text)) (d : Demo)
      → length past ≤ n
      → Stage past d
      → Stage past (listen name q n d)
  listen-Stage past d most s = elim s.phase [
    | inl (on, subs, few, logged) ↦ elim (List-cases (get_or d.server.queues q no_update)) [
      | inl none_left ↦
          unfold listen next_update in
          rw (on, none_left)
            (record {
              subscribers = s.subscribers;
              found = s.found;
              issued = rw length-set s.issued;
              phase = inl (
                refl,
                subs,
                few,
                rw (get_or-set_self d.server.queues q [] no_update s.issued)
                    (rw none_left at logged),
              );
              results = s.results;
            })
      | inr (u, us, next) ↦
          unfold listen next_update in
          rw (on, next) (observe-Stage past d u us most s subs (rw next at logged) few)
    ]
    | inr (off, full, logged, empty) ↦
        unfold listen next_update in
        rw (off, unsubscribe_found name q d.server _ s.found)
          (record {
            subscribers = remove q s.subscribers;
            found = rw lookup-insert (ground (arith, text_beq_iff name name));
            issued = s.issued;
            phase = inr (refl, full, logged, empty);
            results = s.results;
          })
  ]
