-- ===== src/Doc/Writes.antt =====
-- Each handler of section3/problem1/server.py writes one document and the queues, or nothing.
use dist_compute.Base.{
  ℕ, ◌≤◌, ◌≡◌, none, some, List, [], ◌∷◌, ◌++◌, arith, ltb, length, inl, inr, ◌⊎◌, Bool-cases,
  Option-cases,
}
use dist_compute.Base.Dict.{lookup, insert}
use dist_compute.Base.Text.{Text, text_eq, strip}
use dist_compute.Doc.{
  Update, Document, DocumentService, ok, EditDocumentRequest, broadcast, document, edited,
  update_of, snapshot_of, remove, create_document, get_document, edit_document,
  subscribe_to_updates, unsubscribe,
}

-- what every handler writes: one document, and the queues
abbrev pub write : Text → Document → List (List Update) → DocumentService → DocumentService
write k doc queues s = record { docs = insert k doc s.docs; queues = queues }

pub create_document-cases :
    (n c : Text) (s : DocumentService)
    → ((create_document n c s).1 ≡ s)
      ⊎ ((lookup (strip n) s.docs ≡ none)
          × ((create_document n c s).1 ≡ write (strip n) (document (strip n) c) s.queues s))
unfolding create_document
create_document-cases n c s = ground arith

pub edit_document-cases :
    (r : EditDocumentRequest) (peer : Text) (s : DocumentService)
    → ((edit_document r peer s).1 ≡ s)
      ⊎ ((doc : Document) × (lookup r.name s.docs ≡ some doc)
          × (r.position ≤ length doc.content)
          × ((edit_document r peer s).1
              ≡ write r.name
                  (edited r doc)
                  (broadcast doc.subscribers (update_of r peer (edited r doc)) s.queues)
                  s))
edit_document-cases r peer s = elim (Option-cases (lookup r.name s.docs)) [
  | inl absent ↦ inl (unfold edit_document in ground arith)
  | inr (doc, found) ↦ elim (Bool-cases (ltb (length doc.content) r.position)) [
    | inl far ↦ inl (unfold edit_document in ground arith)
    | inr near ↦ inr (doc, found, ground arith, unfold edit_document in ground arith)
  ]
]

pub subscribe_to_updates-cases :
    (n : Text) (s : DocumentService)
    → ((subscribe_to_updates n s).1 ≡ s)
      ⊎ ((doc : Document) × (lookup n s.docs ≡ some doc)
          × ((subscribe_to_updates n s).1
              ≡ write n
                  (record doc { subscribers = doc.subscribers ++ length s.queues ∷ [] })
                  (s.queues ++ (snapshot_of doc ∷ []) ∷ [])
                  s))
subscribe_to_updates-cases n s = elim (Option-cases (lookup n s.docs)) [
  | inl absent ↦ inl (unfold subscribe_to_updates in ground arith)
  | inr (doc, found) ↦ inr (doc, found, unfold subscribe_to_updates in ground arith)
]

pub unsubscribe-cases :
    (n : Text) (r : ℕ) (s : DocumentService)
    → (unsubscribe n r s ≡ s)
      ⊎ ((doc : Document) × (lookup n s.docs ≡ some doc)
          × (unsubscribe n r s
              ≡ write n (record doc { subscribers = remove r doc.subscribers }) s.queues s))
unsubscribe-cases n r s = elim (Option-cases (lookup n s.docs)) [
  | inl absent ↦ inl (unfold unsubscribe in ground arith)
  | inr (doc, found) ↦ inr (doc, found, unfold unsubscribe in ground arith)
]

-- a read changes nothing
pub get_document-same : (n : Text) (s : DocumentService) → (get_document n s).1 ≡ s
unfolding get_document
get_document-same n s = ground arith

pub subscribe_to_updates-ok :
    (n : Text) (q : ℕ) (s s' : DocumentService)
    → subscribe_to_updates n s ≡ (ok q, s')
    → (doc : Document) × (lookup n s.docs ≡ some doc)
      × (q ≡ length s.queues)
      × (s'
          ≡ write n
              (record doc { subscribers = doc.subscribers ++ length s.queues ∷ [] })
              (s.queues ++ (snapshot_of doc ∷ []) ∷ [])
              s)
subscribe_to_updates-ok n q s s' e = elim (Option-cases (lookup n s.docs)) [
  | inl absent ↦ absurd (unfold subscribe_to_updates in ground arith)
  | inr (doc, found) ↦ (
    doc,
    found,
    unfold subscribe_to_updates in ground arith,
    unfold subscribe_to_updates in ground arith,
  )
]
