-- ===== src/Doc/Creation.antt =====
-- CreateDocument of section3/problem1/server.py, on every branch, and what GetDocument answers then.
use dist_compute.Base.{
  ◌≡◌, refl, ◌∙◌, none, some, [], ◌++◌, arith, if◌then◌else◌, ◌⊎◌, inl, inr, Bool-cases,
  Option-cases,
}
use dist_compute.Base.Dict.{lookup, insert, lookup-insert}
use dist_compute.Base.Text.{Text, codes, text_eq, text_beq, text_beq_iff, strip}
use dist_compute.Doc.{
  Document, DocumentService, ok, abort, invalid_argument, already_exists, document, create_document,
  get_document,
}

-- the outcome of a creation: a name of blanks, a name that is taken, or the document made
abbrev pub Creation : Text → Text → DocumentService → Type 0
Creation requested content s =
    ((strip requested ≡ [])
      × (create_document requested content s
          ≡ (abort invalid_argument (codes "document name must not be empty"), s)))
    ⊎ ((doc : Document) × (lookup (strip requested) s.docs ≡ some doc)
        × (create_document requested content s ≡ (
          abort already_exists (codes "document '" ++ strip requested ++ codes "' already exists"),
          s,
        )))
    ⊎ ((lookup (strip requested) s.docs ≡ none)
        × (s' : DocumentService) × (create_document requested content s ≡ (
          ok (record {
            name = strip requested;
            message = codes "Document " ++ strip requested ++ codes " created.";
          }),
          s',
        ))
        × ((get_document (strip requested) s').0
            ≡ ok (record { name = strip requested; content = content; version = 0 }))
        × ((k : Text)
            → lookup k s'.docs ≡ (
                if text_beq (strip requested) k
                then some (document (strip requested) content)
                else lookup k s.docs)))

pub get_document-found :
    (n : Text) (s : DocumentService) (doc : Document)
    → lookup n s.docs ≡ some doc
    → (get_document n s).0
      ≡ ok (record { name = doc.name; content = doc.content; version = doc.version })
get_document-found n s doc found = unfold get_document in ground arith

stored :
    (requested content : Text) (s : DocumentService)
    → lookup
        (strip requested)
        (insert (strip requested) (document (strip requested) content) s.docs)
      ≡ some (document (strip requested) content)
stored requested content s =
    rw lookup-insert (ground (arith, text_beq_iff (strip requested) (strip requested)))

-- CreateDocument on every branch: a name of blanks only is refused with INVALID_ARGUMENT and a name
-- that is taken with ALREADY_EXISTS, both leaving the service as it was. Any other name, without the
-- blanks around it, gets the document: GetDocument answers with its content and version 0, and
-- every other document is untouched.
pub create_document_lem :
    (requested content : Text) (s : DocumentService) → Creation requested content s
create_document_lem requested content s = elim (Bool-cases (text_beq (strip requested) [])) [
  | inl blank ↦
      inl ((text_beq_iff (strip requested) []).0 blank, unfold create_document in ground arith)
  | inr named ↦ inr (elim (Option-cases (lookup (strip requested) s.docs)) [
    | inr (doc, taken) ↦ inl (doc, taken, unfold create_document in ground arith)
    | inl free ↦
        let s' : DocumentService = record s {
          docs = insert (strip requested) (document (strip requested) content) s.docs;
        } in
        inr (
          free,
          s',
          unfold create_document in ground arith,
          get_document-found (strip requested) s' (document (strip requested) content)
                (stored requested content s)
              ∙ unfold document in refl,
          λ k. lookup-insert (strip requested) k (document (strip requested) content) s.docs,
        )
  ])
]
