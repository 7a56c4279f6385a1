-- ===== src/Doc/Edits.antt =====
-- EditDocument of section3/problem1/server.py, on every branch, and two edits in either order.
use mathlib.Core.List.{append_assoc}
use dist_compute.Base.{
  ℕ, zero, suc, ◌+◌, ◌≤◌, ◌<◌, ◌≡◌, refl, ap, ◌∙◌, none, some, List, [], ◌∷◌, ◌++◌, arith, ltb,
  if◌then◌else◌, length, take, drop, inl, inr, ◌⊎◌, Bool-cases, Option-cases, length-append,
  length-take, length-drop,
}
use dist_compute.Base.Dict.{lookup, insert, lookup-insert}
use dist_compute.Base.Text.{Text, text_eq, text_beq, text_beq_iff}
use dist_compute.Doc.{
  Document, DocumentService, DocumentResponse, Result, ok, abort, not_found, out_of_range,
  EditDocumentRequest, insert_at, edited, update_of, missing, beyond, edit_document, broadcast,
}

pub length-insert_at :
    (c : Text) (p : ℕ) (t : Text) → p ≤ length c → length (insert_at c p t) ≡ length c + length t
unfolding insert_at
length-insert_at c p t h = omega (
  arith,
  length-append (take p c ++ t) (drop p c),
  length-append (take p c) t,
  length-take p c,
  length-drop p c,
)

take-append {ℓ} : {A : Type ℓ} (xs ys : List A) → take (length xs) (xs ++ ys) ≡ xs
take-append [] ys = refl
take-append (x ∷ xs) ys = ap (◌∷◌ x) (take-append xs ys)

drop-take-append {ℓ} :
    {A : Type ℓ} (p : ℕ) (xs ys : List A) → p ≤ length xs → drop p (take p xs ++ ys) ≡ ys
drop-take-append zero xs ys h = refl
drop-take-append (suc p) [] ys h = absurd (omega arith)
drop-take-append (suc p) (x ∷ xs) ys h = drop-take-append p xs ys (omega arith)

-- the text stands at its position
insert_at-there :
    (c : Text) (p : ℕ) (t : Text) → p ≤ length c → take (length t) (drop p (insert_at c p t)) ≡ t
unfolding insert_at
insert_at-there c p t h = rw (append_assoc, drop-take-append, h) (take-append t (drop p c))

-- the response to an edit that led to `doc`
abbrev pub response : Document → DocumentResponse
response doc = record { name = doc.name; content = doc.content; version = doc.version }

-- What an edit that was accepted has done: the document got the text at its position and a new
-- version, and no other document changed.
pub record Applied (r : EditDocumentRequest) (s s' : DocumentService) (doc doc' : Document)
    : Type 0 where
  pub content : doc'.content ≡ insert_at doc.content r.position r.text
  pub text_there : take (length r.text) (drop r.position doc'.content) ≡ r.text
  pub grown : length doc'.content ≡ length doc.content + length r.text
  pub version : doc'.version ≡ doc.version + 1
  pub same_name : doc'.name ≡ doc.name
  pub same_subscribers : doc'.subscribers ≡ doc.subscribers
  pub stored :
      (k : Text) → lookup k s'.docs ≡ (if text_beq r.name k then some doc' else lookup k s.docs)

edit-Applied :
    (r : EditDocumentRequest) (peer : Text) (s : DocumentService) (doc : Document)
    → lookup r.name s.docs ≡ some doc
    → r.position ≤ length doc.content
    → (s' : DocumentService) × (edit_document r peer s ≡ (ok (response (edited r doc)), s'))
      × Applied r s s' doc (edited r doc)
edit-Applied r peer s doc found near = (
  record s {
    docs = insert r.name (edited r doc) s.docs;
    queues = broadcast doc.subscribers (update_of r peer (edited r doc)) s.queues;
  },
  unfold edit_document in ground arith,
  record {
    stored = λ k. lookup-insert r.name k (edited r doc) s.docs;
    content = unfold edited in refl;
    text_there = unfold edited in insert_at-there doc.content r.position r.text near;
    grown = unfold edited in length-insert_at doc.content r.position r.text near;
    version = unfold edited in refl;
    same_name = unfold edited in refl;
    same_subscribers = unfold edited in refl;
  },
)

stored_self :
    (r : EditDocumentRequest) (s s' : DocumentService) (doc doc' : Document)
    → Applied r s s' doc doc'
    → lookup r.name s'.docs ≡ some doc'
stored_self r s s' doc doc' a = a.stored r.name ∙ ground (arith, text_beq_iff r.name r.name)

-- an edit's outcome: no document, a position beyond its end, or the edit done
abbrev pub EditOutcome : EditDocumentRequest → Text → DocumentService → Type 0
EditOutcome r peer s =
    ((lookup r.name s.docs ≡ none)
      × (edit_document r peer s ≡ (abort not_found (missing r.name), s)))
    ⊎ ((doc : Document) × (lookup r.name s.docs ≡ some doc)
        × (length doc.content < r.position)
        × (edit_document r peer s ≡ (abort out_of_range (beyond r doc), s)))
    ⊎ ((doc : Document) × (lookup r.name s.docs ≡ some doc)
        × (r.position ≤ length doc.content)
        × (s' : DocumentService) × (edit_document r peer s ≡ (ok (response (edited r doc)), s'))
        × Applied r s s' doc (edited r doc))

-- EditDocument on every branch. On a document that does not exist it aborts with NOT_FOUND, and at
-- a position beyond the end with OUT_OF_RANGE; both leave the service as it was. At any other
-- position it succeeds: it answers with the document's name, new content and new version, the text
-- stands at the position, the length grows by that of the text, the version by one, and every
-- other document is untouched.
pub edit_document_lem :
    (r : EditDocumentRequest) (peer : Text) (s : DocumentService) → EditOutcome r peer s
edit_document_lem r peer s = elim (Option-cases (lookup r.name s.docs)) [
  | inl absent ↦ inl (absent, unfold edit_document in ground arith)
  | inr (doc, found) ↦ inr (elim (Bool-cases (ltb (length doc.content) r.position)) [
    | inl far ↦ inl (doc, found, ground arith, unfold edit_document in ground arith)
    | inr near ↦
        let within : r.position ≤ length doc.content = ground arith in
        let (s', done, applied) = edit-Applied r peer s doc found within in
        inr (doc, found, within, s', done, applied)
  ])
]

-- Two clients edit one document at positions within it, and the server takes them in either order:
-- both edits are accepted, the second is applied to the content that the first one left, and the
-- version has grown by two and the length by both texts.
pub edit_document_twice :
    (r₁ r₂ : EditDocumentRequest) (peer₁ peer₂ : Text) (s : DocumentService) (doc : Document)
    → r₁.name ≡ r₂.name
    → lookup r₁.name s.docs ≡ some doc
    → r₁.position ≤ length doc.content
    → r₂.position ≤ length doc.content
    → let s₁ = (edit_document r₁ peer₁ s).1 in
      let doc₂ = edited r₂ (edited r₁ doc) in
      ((edit_document r₁ peer₁ s).0 ≡ ok (response (edited r₁ doc)))
      × ((edit_document r₂ peer₂ s₁).0 ≡ ok (response doc₂))
      × (lookup r₂.name (edit_document r₂ peer₂ s₁).1.docs ≡ some doc₂)
      × (doc₂.content ≡ insert_at (insert_at doc.content r₁.position r₁.text) r₂.position r₂.text)
      × (doc₂.version ≡ doc.version + 2)
      × (length doc₂.content ≡ length doc.content + length r₁.text + length r₂.text)
edit_document_twice r₁ r₂ peer₁ peer₂ s doc same found near₁ near₂ =
    let (s₁, first, a₁) = edit-Applied r₁ peer₁ s doc found near₁ in
    let (s₂, second, a₂) =
      edit-Applied r₂ peer₂ s₁ (edited r₁ doc)
        (rw (← same) (stored_self r₁ s s₁ doc (edited r₁ doc) a₁))
        (omega (arith, a₁.grown, near₂)) in
    let there : (edit_document r₁ peer₁ s).1 ≡ s₁ =
      ap (λ (x : Result DocumentResponse × DocumentService). x.1) first in
    (
      ap (λ (x : Result DocumentResponse × DocumentService). x.0) first,
      rw there (ap (λ (x : Result DocumentResponse × DocumentService). x.0) second),
      rw (there, second) (stored_self r₂ s₁ s₂ (edited r₁ doc) (edited r₂ (edited r₁ doc)) a₂),
      a₂.content ∙ ap (λ (c : Text). insert_at c r₂.position r₂.text) a₁.content,
      omega (arith, a₁.version, a₂.version),
      omega (arith, a₁.grown, a₂.grown),
    )
