-- ===== src/Doc.antt =====
-- The collaborative document server, section3/problem1/server.py: the documents, the queues of the
-- subscribers, and each RPC handler as a call that runs under the locks it takes. A handler's
-- critical section is one step; `SubscribeToUpdates` is its start, its loop and its callback.
pub mod Edits
pub mod Queues
pub mod Writes
pub mod Streams
pub mod Runs
pub mod Persist
pub mod Creation
pub mod Demo
mod Tests
use dist_compute.Base.{
  ℕ, suc, ◌+◌, Bool, true, false, Option, none, some, List, [], ◌∷◌, ◌++◌, foldl, ltb, nat_beq,
  if◌then◌else◌, length, get_or, set, take, drop,
}
use dist_compute.Base.Dict.{Dict, lookup, contains, insert}
use dist_compute.Base.Text.{Text, codes, text_beq, text_eq, strip, decimal}

-- `pb.DocumentUpdate`
pub record Update : Type 0 where
  pub name : Text
  pub content : Text
  pub version : ℕ
  pub edited_by : Text
  pub position : ℕ
  pub inserted_text : Text
  pub snapshot : Bool

-- A `Document` holds references to queues: `subscribers` has their numbers.
pub record Document : Type 0 where
  pub name : Text
  pub content : Text
  pub version : ℕ
  pub subscribers : List ℕ

-- `docs`, and the queues made so far: number `q` is at place `q`.
pub record DocumentService : Type 0 where
  pub docs : Dict Text Document
  pub queues : List (List Update)

pub data StatusCode : Type 0 where
  not_found invalid_argument already_exists out_of_range : StatusCode

-- What an RPC ends with: a response, or `context.abort`, which raises.
pub data Result (A : Type 0) : Type 0 where
  ok : A → Result A
  abort : StatusCode → Text → Result A

-- A handler: what was written before an abort stays written.
abbrev pub Call : Type 0 → Type 0
Call A = DocumentService → Result A × DocumentService

infixl 5 ◌>>=◌ ◌>>◌
abbrev pub ◌>>=◌ : {A B : Type 0} → Call A → (A → Call B) → Call B
◌>>=◌ m f s = let (r, s') = m s in elim r [ ok a ↦ f a s' | abort c t ↦ (abort c t, s') ]

abbrev pub ◌>>◌ : {A B : Type 0} → Call A → Call B → Call B
m >> k = m >>= λ _. k

abbrev pub pure : {A : Type 0} → A → Call A
pure a s = (ok a, s)

abbrev pub abort_if : Bool → StatusCode → Text → Call (Unit {0})
abort_if b c t s = (if b then abort c t else ok tt, s)

abbrev pub no_update : List Update
no_update = []

-- `q.put(update)` on the queue with number `q`
pub put : List (List Update) → ℕ → Update → List (List Update)
put queues q u = set queues q (get_or queues q no_update ++ u ∷ [])

-- `Document._broadcast`
pub broadcast : List ℕ → Update → List (List Update) → List (List Update)
unfolding put
broadcast subscribers u queues = foldl (λ qs q. put qs q u) queues subscribers

pub record CreateDocumentResponse : Type 0 where
  pub name : Text
  pub message : Text

-- `GetDocumentResponse` and `EditDocumentResponse` have the same fields
pub record DocumentResponse : Type 0 where
  pub name : Text
  pub content : Text
  pub version : ℕ

pub document : Text → Text → Document
document name content = record { name = name; content = content; version = 0; subscribers = [] }

pub missing : Text → Text
missing name = codes "document '" ++ name ++ codes "' does not exist"

-- `_get`
pub get : Text → Call Document
unfolding missing
get name s = elim (lookup name s.docs) [
  | none ↦ (abort not_found (missing name), s)
  | some doc ↦ (ok doc, s)
]

add : Text → Document → Call (Unit {0})
add name doc s = (ok tt, record s { docs = insert name doc s.docs })

known : Text → Call Bool
known name s = (ok (contains name s.docs), s)

pub create_document : Text → Text → Call CreateDocumentResponse
unfolding add known document
create_document requested initial_content = do
  let name = strip requested
  abort_if (text_beq name []) invalid_argument (codes "document name must not be empty")
  taken ← known name
  abort_if taken already_exists (codes "document '" ++ name ++ codes "' already exists")
  add name (document name initial_content)
  pure (record { name = name; message = codes "Document " ++ name ++ codes " created." })

pub get_document : Text → Call DocumentResponse
unfolding get
get_document name = do
  doc ← get name
  pure (record { name = doc.name; content = doc.content; version = doc.version })

-- `content[:pos] + text + content[pos:]`
pub insert_at : Text → ℕ → Text → Text
insert_at content pos text = take pos content ++ text ++ drop pos content

pub record EditDocumentRequest : Type 0 where
  pub name : Text
  pub position : ℕ
  pub text : Text
  pub client_id : Text

-- `a or b` on texts
abbrev pub or_else : Text → Text → Text
or_else [] b = b
or_else (c ∷ a) b = c ∷ a

pub beyond : EditDocumentRequest → Document → Text
beyond r doc =
    codes "position "
    ++ decimal r.position
    ++ codes " is beyond the end of the document (length "
    ++ decimal (length doc.content)
    ++ codes ")"

-- the document after the edit
pub edited : EditDocumentRequest → Document → Document
unfolding insert_at
edited r doc = record doc {
  content = insert_at doc.content r.position r.text;
  version = doc.version + 1;
}

-- the update that the edit broadcasts; `peer` is `context.peer()`
pub update_of : EditDocumentRequest → Text → Document → Update
update_of r peer doc = record {
  name = doc.name;
  content = doc.content;
  version = doc.version;
  edited_by = or_else r.client_id peer;
  position = r.position;
  inserted_text = r.text;
  snapshot = false;
}

-- the writes of `EditDocument`: the fields of the document, then the queues
store_edit : Text → Document → Update → Call (Unit {0})
unfolding broadcast
store_edit name doc u s = (
  ok tt,
  record s { docs = insert name doc s.docs; queues = broadcast doc.subscribers u s.queues },
)

pub edit_document : EditDocumentRequest → Text → Call DocumentResponse
unfolding get beyond edited update_of store_edit
edit_document r peer = do
  doc ← get r.name
  abort_if (ltb (length doc.content) r.position) out_of_range (beyond r doc)
  let doc' = edited r doc
  store_edit r.name doc' (update_of r peer doc')
  pure (record { name = doc'.name; content = doc'.content; version = doc'.version })

-- the snapshot that a subscription starts with; unset fields have protobuf's defaults
pub snapshot_of : Document → Update
snapshot_of doc = record {
  name = doc.name;
  content = doc.content;
  version = doc.version;
  edited_by = [];
  position = 0;
  inserted_text = [];
  snapshot = true;
}

-- a new queue joins the subscribers and gets the snapshot; its number comes back
join : Text → Document → Call ℕ
unfolding snapshot_of
join name doc s =
    let q = length s.queues in
    (
      ok q,
      record s {
        docs = insert name (record doc { subscribers = doc.subscribers ++ q ∷ [] }) s.docs;
        queues = s.queues ++ (snapshot_of doc ∷ []) ∷ [];
      },
    )

-- `SubscribeToUpdates` up to its loop
pub subscribe_to_updates : Text → Call ℕ
unfolding get join
subscribe_to_updates name = do doc ← get name; join name doc

-- `if q in subscribers: subscribers.remove(q)`
pub remove : ℕ → List ℕ → List ℕ
remove q [] = []
remove q (r ∷ rs) = if nat_beq r q then rs else r ∷ remove q rs

-- The callback of the stream that feeds queue `q` of the document. The document is still there,
-- since nothing removes one.
pub unsubscribe : Text → ℕ → DocumentService → DocumentService
unfolding remove
unsubscribe name q s = elim (lookup name s.docs) [
  | none ↦ s
  | some doc ↦ record s {
    docs = insert name (record doc { subscribers = remove q doc.subscribers }) s.docs;
  }
]

-- the oldest update of a queue, and the queue without it
abbrev pub pop : List Update → List Update × List Update
pop [] = ([], [])
pop (u ∷ us) = (u ∷ [], us)

-- One round of the loop of `SubscribeToUpdates`: `yield q.get(timeout=1.0)` while the stream is
-- active (nothing on a timeout), and `unsubscribe` when it is not.
pub next_update : Text → ℕ → Bool → DocumentService → List Update × DocumentService
unfolding unsubscribe
next_update name q true s =
    let (sent, rest) = pop (get_or s.queues q no_update) in
    (sent, record s { queues = set s.queues q rest })
next_update name q false s = ([], unsubscribe name q s)
