-- ===== src/Doc/Tests.antt =====
-- Runs of the service of section3/problem1/server.py on concrete documents.
use mathlib.Core.Option
use dist_compute.Base.{ℕ, ◌+◌, ◌≡◌, refl, some, List, [], ◌∷◌, ◌++◌, length, get_or, arith}
use dist_compute.Base.Dict.{lookup}
use dist_compute.Base.Text.{Text, codes, text_eq, strip, is_space}
use dist_compute.Doc.{
  Document, DocumentService, ok, EditDocumentRequest, no_update, insert_at, edited, create_document,
  edit_document, subscribe_to_updates, next_update,
}
use dist_compute.Doc.Creation.{Creation, create_document_lem}
use dist_compute.Doc.Edits.{EditOutcome, response, edit_document_lem, edit_document_twice}
use dist_compute.Doc.Streams.{Tracks}
use dist_compute.Doc.Runs.{
  Event, create, edit, subscribe, poll, cancel, handle, run, received, init, received-Tracks,
}
use dist_compute.Doc.Persist.{Kept, documents_persist, unsubscribed_gets_nothing}

abbrev notes : Text
notes = codes "notes"

abbrev request : ℕ → Text → EditDocumentRequest
request position text = record {
  name = notes;
  position = position;
  text = text;
  client_id = codes "ann";
}

-- a document, and a stream that was there before
abbrev opening : List Event
opening = create (codes " notes ") (codes "abc") ∷ subscribe notes ∷ []

abbrev edits : List Event
edits =
    edit (request 1 (codes "XY")) (codes "ipv4:1")
    ∷ poll notes 1
    ∷ edit (request 9 (codes "!")) (codes "ipv4:1")
    ∷ poll notes 1
    ∷ cancel notes 0
    ∷ edit (request 5 (codes "!")) (codes "ipv4:2")
    ∷ []

abbrev opened : DocumentService
opened = run opening init

abbrev joined : DocumentService
joined = (subscribe_to_updates notes opened).1

joined_lem : subscribe_to_updates notes (run opening init) ≡ (ok 1, joined)
unfolding run handle create_document subscribe_to_updates strip is_space
joined_lem = refl

received-Tracks_example :
    (doc : Document) × (lookup notes (run edits joined).docs ≡ some doc)
    × Tracks (received 1 edits joined ++ get_or (run edits joined).queues 1 no_update) doc
received-Tracks_example =
    received-Tracks opening edits notes 1 joined joined_lem
      (tt, (tt, (tt, (tt, ((λ e. absurd (omega arith)), (tt, tt))))))

content_at_end :
    Option.map (λ (d : Document). d.content) (lookup notes (run edits joined).docs)
    ≡ some (codes "aXYbc!")
unfolding run handle create_document subscribe_to_updates strip is_space edit_document edited
    insert_at next_update
content_at_end = refl

unsubscribed_gets_nothing_example :
    let ended = handle (cancel notes 1) (run (edit (request 1 (codes "XY")) [] ∷ []) joined) in
    received 1 edits ended ++ get_or (run edits ended).queues 1 no_update
    ≡ get_or (run (edit (request 1 (codes "XY")) [] ∷ []) joined).queues 1 no_update
unsubscribed_gets_nothing_example =
    unsubscribed_gets_nothing opening (edit (request 1 (codes "XY")) [] ∷ []) edits notes 1 joined
      joined_lem (tt, tt)

abbrev page : Document
page = record { name = notes; content = codes "abc"; version = 0; subscribers = 0 ∷ [] }

page_there : lookup notes opened.docs ≡ some page
unfolding run handle create_document subscribe_to_updates strip is_space
page_there = refl

documents_persist_example : Kept notes page (run edits opened)
documents_persist_example = documents_persist edits opened notes page page_there

edit_document_twice_example :
    let s₁ = (edit_document (request 1 (codes "XY")) [] opened).1 in
    let doc₂ = edited (request 3 (codes "!")) (edited (request 1 (codes "XY")) page) in
    ((edit_document (request 1 (codes "XY")) [] opened).0
      ≡ ok (response (edited (request 1 (codes "XY")) page)))
    × ((edit_document (request 3 (codes "!")) [] s₁).0 ≡ ok (response doc₂))
    × (lookup notes (edit_document (request 3 (codes "!")) [] s₁).1.docs ≡ some doc₂)
    × (doc₂.content ≡ insert_at (insert_at page.content 1 (codes "XY")) 3 (codes "!"))
    × (doc₂.version ≡ page.version + 2)
    × (length doc₂.content ≡ length page.content + length (codes "XY") + length (codes "!"))
edit_document_twice_example =
    edit_document_twice (request 1 (codes "XY")) (request 3 (codes "!")) [] [] opened page refl
      page_there (omega arith) (omega arith)

-- the position is beyond the end
edit_document_lem_example : EditOutcome (request 9 (codes "!")) [] opened
edit_document_lem_example = edit_document_lem (request 9 (codes "!")) [] opened

create_document_lem_example : Creation (codes " todo ") (codes "x") opened
create_document_lem_example = create_document_lem (codes " todo ") (codes "x") opened
