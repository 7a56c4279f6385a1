-- ===== src/Doc/Runs.antt =====
-- Runs of the service of section3/problem1/server.py: any sequence of handler calls and stream
-- events, in the order in which they took the locks.
use mathlib.Core.List.{append-nil, append_assoc}
use dist_compute.Base.{
  ℕ, ◌≤◌, ◌≡◌, ◌≢◌, refl, true, false, some, List, [], ◌∷◌, ◌++◌, arith, nat_beq, if◌then◌else◌,
  length, get_or, inl, inr, length-append, length-set, All,
}
use dist_compute.Base.Dict.{lookup, lookup-insert}
use dist_compute.Base.Text.{Text, text_eq, text_beq_iff}
use dist_compute.Doc.{
  Update, Document, DocumentService, ok, EditDocumentRequest, no_update, document, edited,
  update_of, snapshot_of, create_document, get_document, edit_document, subscribe_to_updates,
  next_update,
}
use dist_compute.Doc.Queues.{count, count-append, count-remove-le, length-broadcast}
use dist_compute.Doc.Writes.{
  write, create_document-cases, edit_document-cases, subscribe_to_updates-cases, unsubscribe-cases,
  get_document-same, subscribe_to_updates-ok,
}
use dist_compute.Doc.Streams.{
  Tracks, Follows, Follows-create, Follows-edit, Follows-subscribe, Follows-unsubscribe,
  Follows-poll,
}

-- The calls of clients, and for a stream of document `name` from queue `q`: a round of its loop
-- while it is active (`poll`), its end, and the callback of the connection (both `cancel`).
pub data Event : Type 0 where
  create : Text → Text → Event
  read : Text → Event
  edit : EditDocumentRequest → Text → Event
  subscribe : Text → Event
  poll cancel : Text → ℕ → Event

unfoldable pub handle : Event → DocumentService → DocumentService
handle (create n c) s = (create_document n c s).1
handle (read n) s = (get_document n s).1
handle (edit r peer) s = (edit_document r peer s).1
handle (subscribe n) s = (subscribe_to_updates n s).1
handle (poll n q) s = (next_update n q true s).1
handle (cancel n q) s = (next_update n q false s).1

unfoldable pub run : List Event → DocumentService → DocumentService
run [] s = s
run (e ∷ es) s = run es (handle e s)

-- what the stream of queue `q` sends to its client in one event, and in a run
unfoldable pub sent : ℕ → Event → DocumentService → List Update
sent q (poll n r) s = if nat_beq r q then (next_update n r true s).0 else []
sent q e s = []

unfoldable pub received : ℕ → List Event → DocumentService → List Update
unfolding sent
received q [] s = []
received q (e ∷ es) s = sent q e s ++ received q es (handle e s)

abbrev pub init : DocumentService
init = record { docs = []; queues = [] }

-- the event does not end the stream of queue `q`
abbrev pub IsOpen : ℕ → Event → Type 0
IsOpen q (cancel n r) = q ≢ r
IsOpen q _ = Unit {0}

Follows-handle :
    (name : Text) (q : ℕ) (log : List Update) (s : DocumentService) (e : Event)
    → IsOpen q e
    → Follows name q log s
    → Follows name q (log ++ sent q e s) (handle e s)
unfolding handle sent
Follows-handle name q log s (create n c) o f = rw append-nil (Follows-create name q log s n c f)
Follows-handle name q log s (read n) o f = rw (append-nil, get_document-same) f
Follows-handle name q log s (edit r peer) o f = rw append-nil (Follows-edit name q log s r peer f)
Follows-handle name q log s (subscribe n) o f = rw append-nil (Follows-subscribe name q log s n f)
Follows-handle name q log s (poll n r) o f = unfold next_update in Follows-poll name q log s n r f
Follows-handle name q log s (cancel n r) o f =
    rw append-nil (unfold next_update in Follows-unsubscribe name q log s n r o f)

pub Follows-run :
    (name : Text) (q : ℕ) (log : List Update) (s : DocumentService) (es : List Event)
    → All (IsOpen q) es
    → Follows name q log s
    → Follows name q (log ++ received q es s) (run es s)
unfolding run received
Follows-run name q log s [] o f = rw append-nil f
Follows-run name q log s (e ∷ es) o f = rw (← append_assoc) (
    Follows-run name q (log ++ sent q e s) (handle e s) es o.1
      (Follows-handle name q log s e o.0 f))

-- No document lists a queue that was not made yet.
pub record NoneDangle (s : DocumentService) : Type 0 where
  pub at_key :
      (k : Text) (d : Document) (r : ℕ)
      → lookup k s.docs ≡ some d
      → length s.queues ≤ r
      → count r d.subscribers ≡ 0

NoneDangle-write :
    (k : Text) (w : Document) (queues : List (List Update)) (s : DocumentService)
    → length s.queues ≤ length queues
    → ((r : ℕ) → length queues ≤ r → count r w.subscribers ≡ 0)
    → NoneDangle s
    → NoneDangle (write k w queues s)
NoneDangle-write k w queues s more fresh h = record {
  at_key = λ j d r e le.
      ground (arith, lookup-insert k j w s.docs, text_beq_iff k j, h.at_key j d r, fresh r);
}

handle-NoneDangle : (e : Event) (s : DocumentService) → NoneDangle s → NoneDangle (handle e s)
unfolding handle
handle-NoneDangle (create n c) s h = elim (create_document-cases n c s) [
  | inl same ↦ rw same h
  | inr (free, new) ↦
      rw new (NoneDangle-write _ _ s.queues s (omega arith) (λ r le. unfold document in refl) h)
]
handle-NoneDangle (read n) s h = rw get_document-same h
handle-NoneDangle (edit q peer) s h = elim (edit_document-cases q peer s) [
  | inl same ↦ rw same h
  | inr (doc, found, near, new) ↦
      let longer = length-broadcast doc.subscribers (update_of q peer (edited q doc)) s.queues in
      rw new (
        NoneDangle-write _ _ _ s (omega (arith, longer))
          (λ r le. unfold edited in h.at_key q.name doc r found (omega (arith, longer, le))) h)
]
handle-NoneDangle (subscribe n) s h = elim (subscribe_to_updates-cases n s) [
  | inl same ↦ rw same h
  | inr (doc, found, new) ↦
      let q = length s.queues in
      let longer = length-append s.queues ((snapshot_of doc ∷ []) ∷ []) in
      rw new (
        NoneDangle-write _ _ _ s (omega (arith, longer))
          (λ r le.
            ground (arith, longer, count-append r doc.subscribers (q ∷ []), h.at_key n doc r found))
          h)
]
handle-NoneDangle (poll n q) s h = record {
  at_key = λ k d r e le. unfold next_update in h.at_key k d r e (rw length-set at le);
}
handle-NoneDangle (cancel n q) s h = elim (unsubscribe-cases n q s) [
  | inl same ↦ unfold next_update in rw same h
  | inr (doc, found, new) ↦
      unfold next_update in
      rw new (
        NoneDangle-write _ _ s.queues s (omega arith)
          (λ r le. omega (arith, count-remove-le r q doc.subscribers, h.at_key n doc r found le)) h)
]

pub run-NoneDangle : (es : List Event) (s : DocumentService) → NoneDangle s → NoneDangle (run es s)
unfolding run
run-NoneDangle [] s h = h
run-NoneDangle (e ∷ es) s h = run-NoneDangle es (handle e s) (handle-NoneDangle e s h)

pub init-NoneDangle : NoneDangle init
init-NoneDangle = record { at_key = λ k d r e le. cc }

pub get_or-append_last :
    (xs : List (List Update)) (x : List Update) → get_or (xs ++ x ∷ []) (length xs) no_update ≡ x
get_or-append_last [] x = refl
get_or-append_last (y ∷ xs) x = get_or-append_last xs x

pub Follows-start :
    (name : Text) (q : ℕ) (s s' : DocumentService)
    → NoneDangle s
    → subscribe_to_updates name s ≡ (ok q, s')
    → Follows name q [] s'
Follows-start name q s s' h e =
    let (doc, found, number, made) = subscribe_to_updates-ok name q s s' e in
    let w : Document = record doc { subscribers = doc.subscribers ++ length s.queues ∷ [] } in
    let none_yet : count (length s.queues) doc.subscribers ≡ 0 =
      h.at_key name doc (length s.queues) found (omega arith) in
    rw (made, number)
      (record {
        doc = w;
        found = rw lookup-insert (ground (arith, text_beq_iff name name));
        once =
            ground (arith, count-append (length s.queues) doc.subscribers (length s.queues ∷ []));
        alone = λ k d there ne. ground (
          arith,
          lookup-insert name k w s.docs,
          text_beq_iff name k,
          h.at_key k d (length s.queues),
        );
        issued = omega (arith, length-append s.queues ((snapshot_of doc ∷ []) ∷ []));
        tracks = rw get_or-append_last (unfold snapshot_of in (refl, (refl, refl)));
      })

-- A subscriber never misses, repeats or reorders an edit. Take any run of the service, a
-- subscription that succeeds after it, and any run after that in which the stream is not ended:
-- what the stream has sent, followed by what waits in its queue, is a snapshot and then one update
-- for each edit since, with consecutive versions, each content the one before with the text
-- inserted at a position within it, and the last content and version those of the document.
pub received-Tracks :
    (before after : List Event) (name : Text) (q : ℕ) (s : DocumentService)
    → subscribe_to_updates name (run before init) ≡ (ok q, s)
    → All (IsOpen q) after
    → (doc : Document) × (lookup name (run after s).docs ≡ some doc)
      × Tracks (received q after s ++ get_or (run after s).queues q no_update) doc
received-Tracks before after name q s e open_all =
    let valid = run-NoneDangle before init init-NoneDangle in
    let f =
      Follows-run name q [] s after open_all (Follows-start name q (run before init) s valid e) in
    (f.doc, f.found, f.tracks)
