-- ===== src/Doc/Streams.antt =====
-- What a subscriber of section3/problem1/server.py receives, over any run of the service: the
-- events are the handlers, in the order in which they took the locks.
use mathlib.Core.List.{append-nil, append_assoc}
use dist_compute.Base.{
  ℕ, zero, suc, ◌+◌, ◌≤◌, ◌<◌, ◌≡◌, ◌≢◌, refl, ◌∙◌, true, false, some, List, [], ◌∷◌, ◌++◌, arith,
  nat_beq, if◌then◌else◌, length, get_or, inl, inr, Bool-cases, length-append, length-set,
  get_or-set_self, get_or-set_ne,
}
use dist_compute.Base.Dict.{lookup, lookup-insert}
use dist_compute.Base.Text.{Text, text_eq, text_beq, text_beq_iff, strip}
use dist_compute.Doc.{
  Update, Document, DocumentService, EditDocumentRequest, no_update, broadcast, document, insert_at,
  edited, update_of, snapshot_of, remove, pop, create_document, edit_document, subscribe_to_updates,
  unsubscribe, next_update,
}
use dist_compute.Doc.Writes.{
  write, create_document-cases, edit_document-cases, subscribe_to_updates-cases, unsubscribe-cases,
}
use dist_compute.Doc.Queues.{
  count, count-append, count-remove_ne, length-broadcast, get_or-broadcast,
}

-- the edits lead from one content and version to another, one version at a time
abbrev pub Chain : Text → ℕ → List Update → Text → ℕ → Type 0
Chain c v [] c' v' = (c ≡ c') × (v ≡ v')
Chain c v (u ∷ us) c' v' =
    (u.version ≡ v + 1)
    × (u.snapshot ≡ false)
    × (u.position ≤ length c)
    × (u.content ≡ insert_at c u.position u.inserted_text)
    × Chain u.content u.version us c' v'

-- The log of a subscriber: a snapshot, and each later edit of the document up to its present state.
abbrev pub Tracks : List Update → Document → Type 0
Tracks [] doc = ⊥
Tracks (u ∷ us) doc = (u.snapshot ≡ true) × Chain u.content u.version us doc.content doc.version

Chain-snoc :
    (c : Text) (v : ℕ) (us : List Update) (u : Update) (c' : Text) (v' : ℕ) (d : Text) (n : ℕ)
    → Chain c v us c' v'
    → Chain c' v' (u ∷ []) d n
    → Chain c v (us ++ u ∷ []) d n
Chain-snoc c v [] u c' v' d n h k = rw (h.0, h.1) k
Chain-snoc c v (w ∷ us) u c' v' d n h k =
    (h.0, h.1, h.2, h.3, Chain-snoc w.content w.version us u c' v' d n h.4 k)

-- A live subscription of queue `q` to the document `name`, with what it has yielded so far.
pub record Follows (name : Text) (q : ℕ) (received : List Update) (s : DocumentService)
    : Type 0 where
  pub doc : Document
  pub found : lookup name s.docs ≡ some doc
  pub once : count q doc.subscribers ≡ 1
  pub alone :
      (k : Text) (d : Document) → lookup k s.docs ≡ some d → k ≢ name → count q d.subscribers ≡ 0
  pub issued : q < length s.queues
  pub tracks : Tracks (received ++ get_or s.queues q no_update) doc

Tracks-snoc :
    (log : List Update) (u : Update) (doc doc' : Document)
    → Tracks log doc
    → Chain doc.content doc.version (u ∷ []) doc'.content doc'.version
    → Tracks (log ++ u ∷ []) doc'
Tracks-snoc [] u doc doc' h k = elim h [ ]
Tracks-snoc (w ∷ us) u doc doc' h k = (
  h.0,
  Chain-snoc w.content w.version us u doc.content doc.version doc'.content doc'.version h.1 k,
)

-- who else subscribes does not matter
Tracks-subscribers :
    (log : List Update) (doc : Document) (rs : List ℕ)
    → Tracks log doc
    → Tracks log (record doc { subscribers = rs })
Tracks-subscribers [] doc rs t = t
Tracks-subscribers (u ∷ us) doc rs t = t

module _ (name : Text) (q : ℕ) (received : List Update) (s : DocumentService) where
  -- a write to another document that leaves the queue alone
  Follows-write_ne :
      (k : Text) (w : Document) (queues : List (List Update))
      → k ≢ name
      → count q w.subscribers ≡ 0
      → q < length queues
      → get_or queues q no_update ≡ get_or s.queues q no_update
      → Follows name q received s
      → Follows name q received (write k w queues s)
  Follows-write_ne k w queues ne zero_times lt same f = record {
    doc = f.doc;
    found = rw lookup-insert (ground (arith, text_beq_iff k name));
    once = f.once;
    alone =
        λ j d e other. ground (arith, lookup-insert k j w s.docs, text_beq_iff k j, f.alone j d);
    issued = lt;
    tracks = rw same f.tracks;
  }

  -- a write to the document itself
  Follows-write_self :
      (k : Text) (w : Document) (queues : List (List Update))
      → k ≡ name
      → count q w.subscribers ≡ 1
      → q < length queues
      → ((doc : Document)
          → lookup name s.docs ≡ some doc
          → Tracks (received ++ get_or s.queues q no_update) doc
          → Tracks (received ++ get_or queues q no_update) w)
      → Follows name q received s
      → Follows name q received (write k w queues s)
  Follows-write_self k w queues same one lt keep f = rw same (record {
    doc = w;
    found = rw lookup-insert (ground (arith, text_beq_iff name name));
    once = one;
    alone = λ j d e other.
        ground (arith, lookup-insert name j w s.docs, text_beq_iff name j, f.alone j d);
    issued = lt;
    tracks = keep f.doc f.found f.tracks;
  })

pub get_or-append_left {ℓ} :
    {A : Type ℓ} (xs ys : List A) (i : ℕ) (d : A)
    → i < length xs
    → get_or (xs ++ ys) i d ≡ get_or xs i d
get_or-append_left [] ys i d h = elim h [ ]
get_or-append_left (x ∷ xs) ys zero d h = refl
get_or-append_left (x ∷ xs) ys (suc i) d h = get_or-append_left xs ys i d (omega arith)

Tracks-edit :
    (log : List Update) (r : EditDocumentRequest) (peer : Text) (doc : Document)
    → r.position ≤ length doc.content
    → Tracks log doc
    → Tracks (log ++ update_of r peer (edited r doc) ∷ []) (edited r doc)
unfolding edited update_of
Tracks-edit log r peer doc h t =
    Tracks-snoc log (update_of r peer (edited r doc)) doc (edited r doc) t
      (refl, refl, h, refl, (refl, refl))

count-edited :
    (q : ℕ) (r : EditDocumentRequest) (doc : Document)
    → count q (edited r doc).subscribers ≡ count q doc.subscribers
unfolding edited
count-edited q r doc = refl

module _ (name : Text) (q : ℕ) (received : List Update) (s : DocumentService) where
  pub Follows-create :
      (n c : Text) → Follows name q received s → Follows name q received (create_document n c s).1
  Follows-create n c f = elim (create_document-cases n c s) [
    | inl same ↦ rw same f
    | inr (free, new) ↦ rw new (
        Follows-write_ne name q received s (strip n) (document (strip n) c) s.queues
          (λ e. ground (arith, f.found, rw e at free)) (unfold document in refl) f.issued refl f)
  ]

  pub Follows-edit :
      (r : EditDocumentRequest) (peer : Text)
      → Follows name q received s
      → Follows name q received (edit_document r peer s).1
  Follows-edit r peer f = elim (edit_document-cases r peer s) [
    | inl same ↦ rw same f
    | inr (doc, found, near, new) ↦
        let u = update_of r peer (edited r doc) in
        let queues = broadcast doc.subscribers u s.queues in
        let lt : q < length queues = rw length-broadcast f.issued in
        let sent = get_or-broadcast q doc.subscribers u s.queues f.issued in
        rw new (elim (Bool-cases (text_beq r.name name)) [
          | inl same ↦
              let e : r.name ≡ name = (text_beq_iff r.name name).0 same in
              let here : lookup name s.docs ≡ some doc = rw e at found in
              let doc_is : doc ≡ f.doc = cc (here, f.found) in
              let one : count q doc.subscribers ≡ 1 = rw doc_is f.once in
              Follows-write_self name q received s r.name (edited r doc) queues e
                (rw count-edited one) lt
                (λ d there t.
                  rw (sent, one, ← append_assoc)
                    (Tracks-edit (received ++ get_or s.queues q no_update) r peer doc near
                      (let d_is : doc ≡ d = cc (here, there) in rw d_is t)))
                f
          | inr other ↦
              let ne : r.name ≢ name = ground (arith, text_beq_iff r.name name) in
              let silent = f.alone r.name doc found ne in
              Follows-write_ne name q received s r.name (edited r doc) queues ne
                (rw count-edited silent) lt (rw (sent, silent) (append-nil _)) f
        ])
  ]

  pub Follows-subscribe :
      (n : Text) → Follows name q received s → Follows name q received (subscribe_to_updates n s).1
  Follows-subscribe n f = elim (subscribe_to_updates-cases n s) [
    | inl same ↦ rw same f
    | inr (doc, found, new) ↦
        let fresh = length s.queues in
        let queues = s.queues ++ (snapshot_of doc ∷ []) ∷ [] in
        let w : Document = record doc { subscribers = doc.subscribers ++ fresh ∷ [] } in
        let lt : q < length queues = rw length-append (omega (arith, f.issued)) in
        let same_queue =
          get_or-append_left s.queues ((snapshot_of doc ∷ []) ∷ []) q no_update f.issued in
        let same_count : count q w.subscribers ≡ count q doc.subscribers =
          ground (arith, count-append q doc.subscribers (fresh ∷ []), f.issued) in
        rw new (elim (Bool-cases (text_beq n name)) [
          | inl same ↦
              let e : n ≡ name = (text_beq_iff n name).0 same in
              let here : lookup name s.docs ≡ some doc = rw e at found in
              let doc_is : doc ≡ f.doc = cc (here, f.found) in
              Follows-write_self name q received s n w queues e (same_count ∙ rw doc_is f.once) lt
                (λ d there t.
                  rw same_queue (
                    Tracks-subscribers _ doc _
                      (let d_is : doc ≡ d = cc (here, there) in rw d_is t)))
                f
          | inr other ↦
              let ne : n ≢ name = ground (arith, text_beq_iff n name) in
              Follows-write_ne name q received s n w queues ne (same_count ∙ f.alone n doc found ne)
                lt same_queue f
        ])
  ]

  pub Follows-unsubscribe :
      (n : Text) (r : ℕ)
      → q ≢ r
      → Follows name q received s
      → Follows name q received (unsubscribe n r s)
  Follows-unsubscribe n r differ f = elim (unsubscribe-cases n r s) [
    | inl same ↦ rw same f
    | inr (doc, found, new) ↦
        let w : Document = record doc { subscribers = remove r doc.subscribers } in
        let same_count = count-remove_ne q r doc.subscribers differ in
        rw new (elim (Bool-cases (text_beq n name)) [
          | inl same ↦
              let e : n ≡ name = (text_beq_iff n name).0 same in
              let here : lookup name s.docs ≡ some doc = rw e at found in
              let doc_is : doc ≡ f.doc = cc (here, f.found) in
              Follows-write_self name q received s n w s.queues e (same_count ∙ rw doc_is f.once)
                f.issued
                (λ d there t.
                  Tracks-subscribers _ doc _ (let d_is : doc ≡ d = cc (here, there) in rw d_is t))
                f
          | inr other ↦
              let ne : n ≢ name = ground (arith, text_beq_iff n name) in
              Follows-write_ne name q received s n w s.queues ne
                (same_count ∙ f.alone n doc found ne) f.issued refl f
        ])
  ]

-- what a round of the loop yields from queue `q`
abbrev pub yielded : ℕ → ℕ → DocumentService → List Update
yielded q r s = if nat_beq r q then (pop (get_or s.queues r no_update)).0 else []

pub pop-append : (us : List Update) → (pop us).0 ++ (pop us).1 ≡ us
pop-append [] = refl
pop-append (u ∷ us) = refl

module _ (name : Text) (q : ℕ) (received : List Update) (s : DocumentService) where
  pub Follows-poll :
      (n : Text) (r : ℕ)
      → Follows name q received s
      → Follows name q (received ++ yielded q r s) (next_update n r true s).1
  unfolding next_update
  Follows-poll n r f = record {
    doc = f.doc;
    found = f.found;
    once = f.once;
    alone = f.alone;
    issued = rw length-set f.issued;
    tracks = elim (Bool-cases (nat_beq r q)) [
      | inl same ↦
          let e : r ≡ q = ground arith in
          rw (same, e, get_or-set_self, f.issued, append_assoc, pop-append) f.tracks
      | inr other ↦
          let ne : r ≢ q = ground arith in rw (other, append-nil, get_or-set_ne, ne) f.tracks
    ];
  }
