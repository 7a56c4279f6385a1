-- ===== src/Doc/Persist.antt =====
-- What a run of section3/problem1/server.py never undoes: documents stay, versions do not go back,
-- and a stream that was ended gets nothing more.
use mathlib.Core.List.{append-nil, append_assoc}
use dist_compute.Base.{
  ℕ, ◌≤◌, ◌<◌, ◌≡◌, ◌≢◌, refl, ◌∙◌, some, List, [], ◌∷◌, ◌++◌, arith, nat_beq, length, get_or, inl,
  inr, Bool-cases, length-append, length-set, All, get_or-set_self, get_or-set_ne,
}
use dist_compute.Base.Dict.{lookup, lookup-insert}
use dist_compute.Base.Text.{Text, text_eq, text_beq, text_beq_iff, strip}
use dist_compute.Doc.{
  Update, Document, DocumentService, ok, no_update, broadcast, document, edited, update_of,
  snapshot_of, remove, subscribe_to_updates, unsubscribe, next_update,
}
use dist_compute.Doc.Queues.{
  count, count-append, count-remove-le, length-broadcast, get_or-broadcast, count-remove_self,
}
use dist_compute.Doc.Writes.{
  write, create_document-cases, edit_document-cases, subscribe_to_updates-cases, unsubscribe-cases,
  get_document-same,
}
use dist_compute.Doc.Streams.{Follows, pop-append, get_or-append_left}
use dist_compute.Doc.Runs.{
  Event, create, read, edit, subscribe, poll, cancel, handle, run, sent, received, init, IsOpen,
  run-NoneDangle, init-NoneDangle, Follows-run, Follows-start,
}

-- the document under the key is still there, under its name, at the same or a later version
abbrev pub Kept : Text → Document → DocumentService → Type 0
Kept k d s =
    (d' : Document) × (lookup k s.docs ≡ some d') × (d'.name ≡ d.name) × (d.version ≤ d'.version)

Kept-write :
    (k j : Text) (d w old : Document) (queues : List (List Update)) (s : DocumentService)
    → lookup k s.docs ≡ some d
    → lookup j s.docs ≡ some old
    → w.name ≡ old.name
    → old.version ≤ w.version
    → Kept k d (write j w queues s)
Kept-write k j d w old queues s found there same_name later = elim (Bool-cases (text_beq j k)) [
  | inl same ↦
      let e : j ≡ k = (text_beq_iff j k).0 same in
      let is_old : d ≡ old = cc (found, there, e) in
      (w, rw (lookup-insert, same), rw is_old same_name, rw is_old later)
  | inr other ↦ (d, rw (lookup-insert, other) found, refl, omega arith)
]

Kept-handle :
    (e : Event) (s : DocumentService) (k : Text) (d : Document)
    → lookup k s.docs ≡ some d
    → Kept k d (handle e s)
unfolding handle
Kept-handle (create n c) s k d found = elim (create_document-cases n c s) [
  | inl same ↦ rw same (d, found, refl, omega arith)
  | inr (free, new) ↦
      rw new (d, rw lookup-insert (ground (arith, text_beq_iff (strip n) k)), refl, omega arith)
]
Kept-handle (read n) s k d found = rw get_document-same (d, found, refl, omega arith)
Kept-handle (edit r peer) s k d found = elim (edit_document-cases r peer s) [
  | inl same ↦ rw same (d, found, refl, omega arith)
  | inr (doc, there, near, new) ↦ rw new (
      Kept-write k r.name d (edited r doc) doc
        (broadcast doc.subscribers (update_of r peer (edited r doc)) s.queues) s found there
        (unfold edited in refl) (unfold edited in omega arith))
]
Kept-handle (subscribe n) s k d found = elim (subscribe_to_updates-cases n s) [
  | inl same ↦ rw same (d, found, refl, omega arith)
  | inr (doc, there, new) ↦ rw new (
      Kept-write k n d _ doc (s.queues ++ (snapshot_of doc ∷ []) ∷ []) s found there refl
        (omega arith))
]
Kept-handle (poll n q) s k d found = (d, unfold next_update in found, refl, omega arith)
Kept-handle (cancel n q) s k d found = elim (unsubscribe-cases n q s) [
  | inl same ↦ unfold next_update in rw same (d, found, refl, omega arith)
  | inr (doc, there, new) ↦
      unfold next_update in
      rw new (Kept-write k n d _ doc s.queues s found there refl (omega arith))
]

-- Whatever the clients do, a document that was created stays under its key and its name, and its
-- version never goes back.
pub documents_persist :
    (es : List Event) (s : DocumentService) (k : Text) (d : Document)
    → lookup k s.docs ≡ some d
    → Kept k d (run es s)
unfolding run
documents_persist [] s k d found = (d, found, refl, omega arith)
documents_persist (e ∷ es) s k d found =
    let (d₁, found₁, name₁, later₁) = Kept-handle e s k d found in
    let (d₂, found₂, name₂, later₂) = documents_persist es (handle e s) k d₁ found₁ in
    (d₂, found₂, name₂ ∙ name₁, omega arith)

-- no document lists queue `q`
pub record Silent (q : ℕ) (s : DocumentService) : Type 0 where
  pub issued : q < length s.queues
  pub unlisted : (k : Text) (d : Document) → lookup k s.docs ≡ some d → count q d.subscribers ≡ 0

Silent-write :
    (q : ℕ) (k : Text) (w : Document) (queues : List (List Update)) (s : DocumentService)
    → q < length queues
    → count q w.subscribers ≡ 0
    → Silent q s
    → Silent q (write k w queues s)
Silent-write q k w queues s lt nought h = record {
  issued = lt;
  unlisted = λ j d e. ground (arith, lookup-insert k j w s.docs, text_beq_iff k j, h.unlisted j d);
}

-- what a stream will still send, after what it sent in the event
abbrev Quiet : ℕ → Event → DocumentService → Type 0
Quiet q e s =
    Silent q (handle e s)
    × (sent q e s ++ get_or (handle e s).queues q no_update ≡ get_or s.queues q no_update)

Quiet-handle : (q : ℕ) (e : Event) (s : DocumentService) → Silent q s → Quiet q e s
unfolding handle sent
Quiet-handle q (create n c) s h = elim (create_document-cases n c s) [
  | inl same ↦ rw same (h, refl)
  | inr (free, new) ↦
      rw new (Silent-write q _ _ s.queues s h.issued (unfold document in refl) h, refl)
]
Quiet-handle q (read n) s h = rw get_document-same (h, refl)
Quiet-handle q (edit r peer) s h = elim (edit_document-cases r peer s) [
  | inl same ↦ rw same (h, refl)
  | inr (doc, there, near, new) ↦
      let u = update_of r peer (edited r doc) in
      let nought = h.unlisted r.name doc there in
      let same_length = length-broadcast doc.subscribers u s.queues in
      rw new (
        Silent-write q r.name (edited r doc) _ s (rw same_length h.issued) (unfold edited in nought)
            h,
        get_or-broadcast q doc.subscribers u s.queues h.issued ∙ rw nought (append-nil _),
      )
]
Quiet-handle q (subscribe n) s h = elim (subscribe_to_updates-cases n s) [
  | inl same ↦ rw same (h, refl)
  | inr (doc, there, new) ↦
      let fresh = length s.queues in
      let more = (snapshot_of doc ∷ []) ∷ [] in
      rw new (
        Silent-write q n _ _ s (rw length-append (omega (arith, h.issued)))
            (ground (
              arith,
              count-append q doc.subscribers (fresh ∷ []),
              h.unlisted n doc there,
              h.issued,
            ))
            h,
        get_or-append_left s.queues more q no_update h.issued,
      )
]
Quiet-handle q (poll n r) s h =
    unfold next_update in
    (
      record { issued = rw length-set h.issued; unlisted = h.unlisted },
      elim (Bool-cases (nat_beq r q)) [
        | inl same ↦
            let e : r ≡ q = ground arith in
            rw (same, e, get_or-set_self, h.issued) (pop-append (get_or s.queues q no_update))
        | inr other ↦ let ne : r ≢ q = ground arith in rw (other, get_or-set_ne, ne) refl
      ],
    )
Quiet-handle q (cancel n r) s h = elim (unsubscribe-cases n r s) [
  | inl same ↦ unfold next_update in rw same (h, refl)
  | inr (doc, there, new) ↦
      unfold next_update in
      rw new (
        Silent-write q n _ s.queues s h.issued
            (omega (arith, count-remove-le q r doc.subscribers, h.unlisted n doc there)) h,
        refl,
      )
]

Quiet-run :
    (q : ℕ) (es : List Event) (s : DocumentService)
    → Silent q s
    → received q es s ++ get_or (run es s).queues q no_update ≡ get_or s.queues q no_update
unfolding run received
Quiet-run q [] s h = refl
Quiet-run q (e ∷ es) s h =
    let (silent, same) = Quiet-handle q e s h in
    rw (append_assoc, Quiet-run q es (handle e s) silent) same

cancel-write :
    (name : Text) (q : ℕ) (s : DocumentService) (doc : Document)
    → lookup name s.docs ≡ some doc
    → handle (cancel name q) s
      ≡ write name (record doc { subscribers = remove q doc.subscribers }) s.queues s
unfolding handle next_update unsubscribe
cancel-write name q s doc found = ground (arith, found)

Silent-cancel :
    (name : Text) (q : ℕ) (log : List Update) (s : DocumentService)
    → Follows name q log s
    → Silent q (handle (cancel name q) s)
Silent-cancel name q log s f = rw (cancel-write name q s f.doc f.found) (record {
  issued = f.issued;
  unlisted = λ k d e. ground (
    arith,
    lookup-insert name k (record f.doc { subscribers = remove q f.doc.subscribers }) s.docs,
    text_beq_iff name k,
    f.alone k d,
    count-remove_self q f.doc.subscribers f.once,
  );
})

-- After a stream has ended no edit reaches its queue. Take any run, a subscription, any further
-- run in which the stream is not ended, and its end: in every run after that, all that the queue
-- hands out, with what is left in it, is what it held at the end of the stream.
pub unsubscribed_gets_nothing :
    (before during after : List Event) (name : Text) (q : ℕ) (s : DocumentService)
    → subscribe_to_updates name (run before init) ≡ (ok q, s)
    → All (IsOpen q) during
    → let ended = handle (cancel name q) (run during s) in
      received q after ended ++ get_or (run after ended).queues q no_update
      ≡ get_or (run during s).queues q no_update
unsubscribed_gets_nothing before during after name q s e open_all =
    let valid = run-NoneDangle before init init-NoneDangle in
    let started = Follows-start name q (run before init) s valid e in
    let f = Follows-run name q [] s during open_all started in
    Quiet-run q after (handle (cancel name q) (run during s))
      (Silent-cancel name q _ (run during s) f)
    ∙ rw (cancel-write name q (run during s) f.doc f.found)
