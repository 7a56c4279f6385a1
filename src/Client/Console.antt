-- ===== src/Client/Console.antt =====
-- section3/problem1/client.py: the state of a client, what an operation may raise, its operations.
use dist_compute.Base.{
  ℕ, ◌^◌, false, true, none, some, List, [], ◌∷◌, ◌++◌, foldl, ltb, if◌then◌else◌,
}
use dist_compute.Base.Dict.{Dict, lookup, insert, erase}
use dist_compute.Base.Int.{ℤ, pos, negsuc}
use dist_compute.Base.Text.{Text, codes, text_eq, decimal}
use dist_compute.Doc.{
  Update, DocumentService, StatusCode, not_found, invalid_argument, already_exists, out_of_range,
  Result, ok, abort, Call, create_document, get_document, edit_document, subscribe_to_updates,
  next_update,
}

-- `Client`: its name and its subscriptions, by the number of their queue at the server; the lines
-- still to come on its input and those printed; and the server, which sees it as `peer`.
pub record Client : Type 0 where
  pub name : Text
  pub subscriptions : Dict Text ℕ
  pub inputs : List Text
  pub screen : List Text
  pub peer : Text
  pub server : DocumentService

-- what an operation ends with: it returns, or raises `grpc.RpcError` or `ValueError`
pub data Reply (A : Type 0) : Type 0 where
  done : A → Reply A
  rpc_error : StatusCode → Text → Reply A
  value_error : Text → Reply A

abbrev pub Act : Type 0 → Type 0
Act A = Client → Reply A × Client

infixl 5 ◌>>=◌ ◌>>◌
abbrev pub ◌>>=◌ : {A B : Type 0} → Act A → (A → Act B) → Act B
m >>= k = λ c.
    let (r, c') = m c in
    elim r [
      | done a ↦ k a c'
      | rpc_error s t ↦ (rpc_error s t, c')
      | value_error t ↦ (value_error t, c')
    ]

abbrev pub ◌>>◌ : {A B : Type 0} → Act A → Act B → Act B
m >> k = m >>= λ _. k

abbrev pub give : {A : Type 0} → Reply A → Act A
give r c = (r, c)

-- `self.out(*lines)`
unfoldable pub out : List Text → Act (Unit {0})
out lines c = (done tt, record c { screen = c.screen ++ lines })

abbrev pub reply_of : {A : Type 0} → Result A → Reply A
reply_of (ok a) = done a
reply_of (abort s t) = rpc_error s t

-- a call of the stub
unfoldable pub call : {A : Type 0} → Call A → Act A
call h c = let (r, s) = h c.server in (reply_of r, record c { server = s })

unfoldable pub says : Text → Text
says t = codes "[Client] " ++ t

unfoldable pub create : Text → Text → Act (Unit {0})
unfolding out call says
create name content = do r ← call (create_document name content); out (says r.message ∷ [])

unfoldable pub open_document : Text → Act (Unit {0})
unfolding out call says
open_document name = do r ← call (get_document name); out (says r.content ∷ [])

-- the `uint32` field of the request; `range_error` is protobuf's message
unfoldable pub to_uint32 : (ℤ → Text) → ℤ → Reply ℕ
to_uint32 range_error (pos n) = if ltb n (2 ^ 32) then done n else value_error (range_error (pos n))
to_uint32 range_error (negsuc n) = value_error (range_error (negsuc n))

unfoldable pub edit : (ℤ → Text) → Text → ℤ → Text → Act (Unit {0})
unfolding out call says to_uint32
edit range_error name position text c =
    (do
      p ← give (to_uint32 range_error position)
      r ← call (
          edit_document (record { name = name; position = p; text = text; client_id = c.name })
            c.peer)
      out (
          says (codes "Edit applied (version " ++ decimal r.version ++ codes ").")
          ∷ says r.content
          ∷ []))
      c

-- what `subscribe` does when the name is not known
unfoldable pub subscribe_new : Text → Act (Unit {0})
unfolding call
subscribe_new name = do
  call (get_document name)
  q ← call (subscribe_to_updates name)
  λ c. (done tt, record c { subscriptions = insert name q c.subscriptions })

unfoldable pub subscribe : Text → Act (Unit {0})
unfolding out says subscribe_new
subscribe name c = elim (lookup name c.subscriptions) [
  | some q ↦ out (says (codes "Already subscribed to " ++ name ++ codes ".") ∷ []) c
  | none ↦ subscribe_new name c
]

-- `stream.cancel()`: the server's callback runs. The client's own thread ends its entry later, in
-- `pump_end`.
unfoldable pub cancel : Text → ℕ → Client → Client
cancel name q c = record c { server = (next_update name q false c.server).1 }

unfoldable pub unsubscribe : Text → Act (Unit {0})
unfolding out says cancel
unsubscribe name c = elim (lookup name c.subscriptions) [
  | none ↦ out (says (codes "Not subscribed to " ++ name ++ codes ".") ∷ []) c
  | some q ↦ out (says (codes "Unsubscribed from " ++ name ++ codes ".") ∷ []) (cancel name q c)
]

-- what the thread of a subscription prints for an update; `repr` is Python's
pub pump_lines : (Text → Text) → Update → List Text
unfolding says
pump_lines repr u =
    if u.snapshot
    then says (codes "Subscribed to updates (current version " ++ decimal u.version ++ codes ").")
      ∷ []
    else (codes "\n[Update] Document "
        ++ u.name
        ++ codes " modified (v"
        ++ decimal u.version
        ++ codes ", by "
        ++ u.edited_by
        ++ codes ": inserted "
        ++ repr u.inserted_text
        ++ codes " at "
        ++ decimal u.position
        ++ codes ").")
      ∷ u.content
      ∷ []

-- The thread takes what the stream of queue `q` yields in one round, and prints it.
unfoldable pub pump : (Text → Text) → Text → ℕ → Client → Client
unfolding pump_lines
pump repr name q c =
    let (sent, s) = next_update name q true c.server in
    record c { server = s; screen = foldl (λ lines u. lines ++ pump_lines repr u) c.screen sent }

-- the `finally` of the thread
unfoldable pub pump_end : Text → Client → Client
pump_end name c = record c { subscriptions = erase name c.subscriptions }

-- `close`
unfoldable pub close : Client → Client
unfolding cancel
close c = foldl (λ d (x : Text × ℕ). cancel x.0 x.1 d) c c.subscriptions

-- the next line of the input, `exit` at its end
abbrev pub next_line : List Text → Text × List Text
next_line [] = (codes "exit", [])
next_line (l ∷ ls) = (l, ls)

-- `prompt`, without the text that it shows
unfoldable pub prompt : Client → Text × Client
prompt c = let (l, ls) = next_line c.inputs in (l, record c { inputs = ls })

unfoldable pub code_name : StatusCode → Text
code_name not_found = codes "NOT_FOUND"
code_name invalid_argument = codes "INVALID_ARGUMENT"
code_name already_exists = codes "ALREADY_EXISTS"
code_name out_of_range = codes "OUT_OF_RANGE"
