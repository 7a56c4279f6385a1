-- ===== src/Doc/Demo.antt =====
-- section3/problem1/concurrent_demo.py: editors that insert at one position of one document, a
-- subscriber beside them, and the checks at the end. What the scheduler does is a list of moves.
pub mod Facts
pub mod Moves
pub mod Schedule
pub mod Passes
mod Tests
use dist_compute.Base.{
  ℕ, zero, suc, ◌+◌, ◌-◌, Bool, true, false, not, ◌&&◌, ◌||◌, Option, none, some, List, [], ◌∷◌,
  ◌++◌, map, foldl, foldr, leb, nat_beq, number_key, if◌then◌else◌, length, take, replicate,
  get_last?,
}
use dist_compute.Base.Dict.{Dict, insert}
use dist_compute.Base.Text.{Text, codes, text_beq, decimal}
use dist_compute.Base.Text.Find.{occurs}
use dist_compute.Doc.{
  Update, DocumentService, CreateDocumentResponse, DocumentResponse, Result, ok, abort,
  EditDocumentRequest, create_document, get_document, edit_document, subscribe_to_updates,
  next_update,
}

abbrev pub initial : Text
initial = codes "Hello World"

-- `range(start, start + n)`
abbrev pub range_from : ℕ → ℕ → List ℕ
range_from start zero = []
range_from start (suc n) = start ∷ range_from (start + 1) n

-- the texts that the editors insert; the number of clients is not negative
unfoldable pub inserts : ℕ → List Text
inserts clients = take clients (
    codes "Distributed "
    ∷ codes "Systems "
    ∷ map (λ i. codes "Client" ++ decimal i ++ codes " ") (range_from 2 (clients - 2)))

abbrev pub enumerate : ℕ → List Text → List (ℕ × Text)
enumerate i [] = []
enumerate i (t ∷ ts) = (i, t) ∷ enumerate (i + 1) ts

-- The server, what the subscriber has kept and whether it still reads its stream, and `results`
-- without the durations.
pub record Demo : Type 0 where
  pub server : DocumentService
  pub updates : List Update
  pub listening : Bool
  pub results : Dict ℕ (ℕ × Text)

-- Editor `i` sends its edit and stores the answer; or the stream of the subscriber has a turn.
pub data Move : Type 0 where
  edits : ℕ → Text → Move
  observes : Move

-- the body of the loop of `subscriber`, which ends with the update number `n`
unfoldable pub observe : ℕ → Demo → Update → Demo
observe n d u =
    let updates = d.updates ++ u ∷ [] in
    if u.snapshot
    then d
    else record d { updates = updates; listening = not (nat_beq (length updates) n) }

-- the stream of queue `q` sends what it has, and `subscriber` takes it
unfoldable pub listen : Text → ℕ → ℕ → Demo → Demo
unfolding observe
listen name q n d =
    let (us, server) = next_update name q d.listening d.server in
    foldl (observe n) (record d { server = server }) us

unfoldable pub edit_request : Text → ℕ → Text → EditDocumentRequest
edit_request name i text = record {
  name = name;
  position = 6;
  text = text;
  client_id = codes "client" ++ decimal (i + 1);
}

-- what an editor does with the answer; an edit that is refused ends the thread without a result
abbrev pub store_result : ℕ → Demo → Result DocumentResponse × DocumentService → Demo
store_result i d (ok r, server) = record d {
  server = server;
  results = insert i (r.version, r.content) d.results;
}
store_result i d (abort c t, server) = record d { server = server }

unfoldable pub editor : Text → Text → ℕ → Text → Demo → Demo
unfolding edit_request
editor name peer i text d =
    store_result i d (edit_document (edit_request name i text) peer d.server)

unfoldable pub move : Text → Text → ℕ → ℕ → Demo → Move → Demo
move name peer q n d (edits i text) = editor name peer i text d
move name peer q n d observes = listen name q n d

-- the state at the first message of the stream, which is the snapshot; `none` if the server refuses
-- the document or the subscription
abbrev pub ready :
    Text → ℕ → Result CreateDocumentResponse → Result ℕ × DocumentService → Option (ℕ × Demo)
ready name n (ok _) (ok q, server) =
    some (
      q,
      listen name q n (record { server = server; updates = []; listening = true; results = [] }),
    )
ready name n _ _ = none

unfoldable pub begin : Text → ℕ → DocumentService → Option (ℕ × Demo)
begin name n s =
    let (created, s₁) = create_document name initial s in
    ready name n created (subscribe_to_updates name s₁)

unfoldable pub insert_sorted : ℕ → List ℕ → List ℕ
insert_sorted x [] = x ∷ []
insert_sorted x (y ∷ ys) = if leb x y then x ∷ y ∷ ys else y ∷ insert_sorted x ys

-- `sorted` on numbers
unfoldable pub sorted : List ℕ → List ℕ
unfolding insert_sorted
sorted [] = []
sorted (x ∷ xs) = insert_sorted x (sorted xs)

abbrev pub numbers_beq : List ℕ → List ℕ → Bool
numbers_beq = text_beq

abbrev pub total_length : List Text → ℕ
total_length = foldr (λ t n. length t + n) 0

-- `updates and updates[-1].content == final.content`
abbrev pub ends_with_content : Text → Option Update → Bool
ends_with_content content none = false
ends_with_content content (some u) = text_beq u.content content

-- `all(t in content for t in ts)`
abbrev pub all_occur : List Text → Text → Bool
all_occur ts content = foldr (λ t b. occurs t content && b) true ts

-- the conditions that are checked, each with its message
unfoldable pub checks : List Text → DocumentResponse → Demo → List (Bool × Text)
checks ts final d =
    let n = length ts in
    let expected = length initial + total_length ts in
    (
      nat_beq (length final.content) expected,
      codes "length " ++ decimal (length final.content) ++ codes " == " ++ decimal expected,
    )
    ∷ (
      nat_beq final.version n,
      codes "version " ++ decimal final.version ++ codes " == " ++ decimal n,
    )
    ∷ (all_occur ts final.content, codes "every insert present and untorn")
    ∷ (
      numbers_beq (sorted (map (λ x. x.1.0) d.results)) (range_from 1 n),
      codes "each edit got a distinct consecutive version",
    )
    ∷ (
      nat_beq (length d.updates) n,
      codes "subscriber received " ++ decimal (length d.updates) ++ codes " updates",
    )
    ∷ (
      numbers_beq (map (λ u. u.version) d.updates) (range_from 1 n),
      codes "updates arrived in version order",
    )
    ∷ (
      ends_with_content final.content (get_last? d.updates),
      codes "last update equals final document",
    )
    ∷ []

-- `_check`, the line that it prints
unfoldable pub check_line : Bool × Text → Text
check_line (cond, msg) =
    codes "  [" ++ (if cond then codes "ok" else codes "FAIL") ++ codes "] " ++ msg

-- what the checks print, and whether `ok` is still true at the end
unfoldable pub verdict : List (Bool × Text) → List Text × Bool
unfolding check_line
verdict cs =
    let good = foldl (λ ok c. ok && c.0) true cs in
    (
      map check_line cs
          ++ (codes "[demo] RESULT: " ++ (if good then codes "PASS" else codes "FAIL")) ∷ [],
      good,
    )

-- the checks, on the answer of GetDocument
abbrev pub judge : List Text → Demo → Result DocumentResponse → Option (List Text × Bool)
judge ts d (ok final) = some (verdict (checks ts final d))
judge ts d (abort c t) = none

-- The rest of `main`, from the first message of the stream: the moves until all editors have ended,
-- then GetDocument, and the sleep, in which the stream has `late` turns.
unfoldable pub play :
    List Text → Text → Text → List Move → ℕ → Option (ℕ × Demo) → Option (List Text × Bool)
unfolding move
play ts name peer moves late none = none
play ts name peer moves late (some (q, d₀)) =
    let d = foldl (move name peer q (length ts)) d₀ moves in
    let d' = foldl (move name peer q (length ts)) d (replicate late observes) in
    judge ts d' (get_document name d.server).0

-- `main` from the document's creation to the exit, `none` if a call of its own fails
unfoldable pub demo : ℕ → Text → Text → List Move → ℕ → DocumentService → Option (List Text × Bool)
unfolding begin play
demo clients name peer moves late s =
    let ts = inserts clients in play ts name peer moves late (begin name (length ts) s)
