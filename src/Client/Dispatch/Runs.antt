-- ===== src/Client/Dispatch/Runs.antt =====
-- section3/problem1/client.py: the loop of `run` ends, and what a line for a command does.
use dist_compute.Base.{
  ℕ, zero, suc, ◌<◌, ◌≤◌, ◌≡◌, refl, Bool, true, false, some, List, [], ◌∷◌, ◌++◌, arith, length,
  inl, inr, ◌⊎◌, All, get_last?, get_last?-append, Bool-cases, ◌^◌, ap, ◌∙◌,
}
use dist_compute.Base.Int.{ℤ, pos}
use dist_compute.Base.Text.{decimal, Text, codes, text_eq}
use dist_compute.Base.Text.Numeral.{int_of_text-decimal, Digit, decimal-Digit}
use dist_compute.Doc.{
  DocumentService, DocumentResponse, edit_document, Result, ok, abort, CreateDocumentResponse,
  create_document,
}
use dist_compute.Client.Dispatch.{
  run_edit, edit_at, int_arg, then_on, dispatch, dispatch_words, perform, caught, choice, ask, join,
  lower, is, unknown, run_create, run_open, run_subscribe, run_unsubscribe, usage, loop, run,
  welcome, farewell,
}
use dist_compute.Client.Console.{
  to_uint32, Client, Reply, done, rpc_error, value_error, out, says, call, create, open_document,
  edit, subscribe, subscribe_new, unsubscribe, prompt, code_name, close, cancel, next_line,
}
use dist_compute.Base.Text.Shlex.Quoted.{Plain, quoted, shlex_split-quoted}
use dist_compute.Base.Text.Shlex.{Split, words, parse_error, shlex_split}

create-inputs : (name content : Text) (c : Client) → (create name content c).1.inputs ≡ c.inputs
unfolding create call out
create-inputs name content c = ground arith

open_document-inputs : (name : Text) (c : Client) → (open_document name c).1.inputs ≡ c.inputs
unfolding open_document call out
open_document-inputs name c = ground arith

edit-inputs :
    (e : ℤ → Text) (name : Text) (n : ℤ) (t : Text) (c : Client)
    → (edit e name n t c).1.inputs ≡ c.inputs
unfolding edit call out
edit-inputs e name n t c = ground arith

subscribe-inputs : (name : Text) (c : Client) → (subscribe name c).1.inputs ≡ c.inputs
unfolding subscribe subscribe_new call out
subscribe-inputs name c = ground arith

unsubscribe-inputs : (name : Text) (c : Client) → (unsubscribe name c).1.inputs ≡ c.inputs
unfolding unsubscribe cancel out
unsubscribe-inputs name c = ground arith

next_line-cases : (ls : List Text) → (ls ≡ []) ⊎ (length (next_line ls).1 < length ls)
next_line-cases [] = inl refl
next_line-cases (l ∷ ls) = inr (omega arith)

create_Plain : Plain (codes "create")
create_Plain = (
  (refl, refl),
  ((refl, refl), ((refl, refl), ((refl, refl), ((refl, refl), ((refl, refl), tt))))),
)

edit_Plain : Plain (codes "edit")
edit_Plain = ((refl, refl), ((refl, refl), ((refl, refl), ((refl, refl), tt))))

Digit-Plain : (s : Text) → All Digit s → Plain s
Digit-Plain [] h = tt
Digit-Plain (c ∷ s) h = ((ground (arith, h.0), ground (arith, h.0)), Digit-Plain s h.1)

true_or_false : {b : Bool} → b ≡ true → b ≡ false → ⊥
true_or_false h k = cc

module _ (repr : Text → Text) (range_error : ℤ → Text) where
  edit_at-inputs :
      (name position t : Text) (c : Client)
      → (edit_at repr range_error name position t c).1.inputs ≡ c.inputs
  unfolding edit_at int_arg
  edit_at-inputs name position t c = ground (arith, λ (n : ℤ). edit-inputs range_error name n t c)

  perform-inputs :
      (cmd : Text) (args : List Text) (c : Client)
      → (perform repr range_error cmd args c).1.inputs ≡ c.inputs
  unfolding perform unknown run_create run_open run_edit run_subscribe run_unsubscribe usage out
  perform-inputs cmd [] c = ground arith
  perform-inputs cmd (a ∷ []) c = ground (
    arith,
    create-inputs a [] c,
    open_document-inputs a c,
    subscribe-inputs a c,
    unsubscribe-inputs a c,
  )
  perform-inputs cmd (a ∷ b ∷ args) c =
      ground (arith, create-inputs a (join (b ∷ args)) c, edit_at-inputs a b (join args) c)

  prompt-inputs : (c : Client) → length (prompt c).1.inputs ≤ length c.inputs
  unfolding prompt
  prompt-inputs c = ground arith

  ask-inputs : (n : ℕ) (c : Client) → length (ask repr range_error n c).1.inputs ≤ length c.inputs
  unfolding ask
  ask-inputs zero c = omega arith
  ask-inputs (suc n) c = omega (arith, prompt-inputs c, ask-inputs n (prompt c).1)

  choice-inputs :
      (cmd : Text) (args : List Text) (c : Client)
      → length (choice repr range_error cmd args c).1.inputs ≤ length c.inputs
  unfolding choice
  choice-inputs cmd args c = ground (arith, ask-inputs 1 c, ask-inputs 2 c, ask-inputs 3 c)

  caught-inputs : (p : Reply Bool × Client) → (caught repr range_error p).1.inputs ≡ p.1.inputs
  unfolding caught out
  caught-inputs (done b, c) = refl
  caught-inputs (rpc_error s t, c) = refl
  caught-inputs (value_error t, c) = refl

  dispatch_words-inputs :
      (w : Split) (c : Client)
      → length (dispatch_words repr range_error w c).1.inputs ≤ length c.inputs
  unfolding dispatch_words out
  dispatch_words-inputs (parse_error t) c = omega arith
  dispatch_words-inputs (words []) c = omega arith
  dispatch_words-inputs (words (w ∷ args)) c =
      let ((cmd, args'), c') = choice repr range_error (lower w) args c in
      rw (caught-inputs (perform repr range_error cmd args' c'), perform-inputs cmd args' c')
        (choice-inputs (lower w) args c)

  -- an exhausted input gives `exit`, which ends the loop
  dispatch-exit : (c : Client) → (dispatch repr range_error (codes "exit") c).0 ≡ false
  unfolding dispatch dispatch_words shlex_split lower choice perform caught is
  dispatch-exit c = refl

  dispatch-inputs :
      (line : Text) (c : Client)
      → length (dispatch repr range_error line c).1.inputs ≤ length c.inputs
  unfolding dispatch
  dispatch-inputs line c = dispatch_words-inputs (shlex_split line) c

  loop-ends :
      (fuel : ℕ) (c : Client) → length c.inputs < fuel → (loop repr range_error fuel c).0 ≡ true
  unfolding loop
  loop-ends zero c enough = absurd (omega arith)
  loop-ends (suc fuel) c enough =
      let line = (next_line c.inputs).0 in
      let c₁ : Client = record c { inputs = (next_line c.inputs).1 } in
      elim (Bool-cases (dispatch repr range_error line c₁).0) [
        | inl more ↦ elim (next_line-cases c.inputs) [
          | inl at_end ↦
              absurd (true_or_false (rw at_end at more) (dispatch-exit (record c { inputs = [] })))
          | inr shorter ↦ rw more (
              loop-ends fuel (dispatch repr range_error line c₁).1
                (omega (arith, enough, shorter, dispatch-inputs line c₁)))
        ]
        | inr over ↦ rw over refl
      ]

  -- `run` ends, whatever stands on the input: its fuel is enough. The last line that it prints is
  -- the farewell.
  pub run-ends :
      (c : Client)
      → ((run repr range_error c).0 ≡ true)
        × (get_last? (run repr range_error c).1.screen ≡ some (says (codes "Bye.")))
  unfolding run welcome farewell out
  run-ends c =
      let c₁ = welcome repr range_error c in
      rw (run, loop-ends (suc (length c₁.inputs)) c₁ (omega arith))
        (
          refl,
          get_last?-append (close (loop repr range_error (suc (length c₁.inputs)) c₁).1).screen
              (says (codes "Bye.")),
        )

  -- the line that the client prints for the outcome of `CreateDocument`
  pub created_line : Result CreateDocumentResponse → Text
  created_line (ok r) = says r.message
  created_line (abort s t) = codes "[Error] " ++ code_name s ++ codes ": " ++ t

  create-words :
      (name content : Text) (c : Client)
      → dispatch_words repr range_error (words (codes "create" ∷ name ∷ content ∷ [])) c ≡ (
        true,
        record c {
          screen = c.screen ++ created_line (create_document name content c.server).0 ∷ [];
          server = (create_document name content c.server).1;
        },
      )
  unfolding dispatch_words lower choice perform run_create create call out caught is join
      created_line
  create-words name content c = ground arith

  -- A `create` line with its words in double quotes, the name and the content without double quotes
  -- and backslashes: the client sends exactly this name and content to the server, prints one line
  -- for the outcome, keeps its input and subscriptions, and goes on.
  pub dispatch-create :
      (name content : Text) (c : Client)
      → Plain name
      → Plain content
      → dispatch repr range_error (quoted (codes "create" ∷ name ∷ content ∷ [])) c ≡ (
        true,
        record c {
          screen = c.screen ++ created_line (create_document name content c.server).0 ∷ [];
          server = (create_document name content c.server).1;
        },
      )
  unfolding dispatch
  dispatch-create name content c plain_name plain_content =
      let plain : All Plain (codes "create" ∷ name ∷ content ∷ []) =
        (create_Plain, (plain_name, (plain_content, tt))) in
      rw (dispatch, shlex_split-quoted (codes "create" ∷ name ∷ content ∷ []) plain)
        (create-words name content c)

  -- the lines that the client prints for the outcome of `EditDocument`
  pub edited_lines : Result DocumentResponse → List Text
  edited_lines (ok r) =
      says (codes "Edit applied (version " ++ decimal r.version ++ codes ").") ∷ says r.content ∷ []
  edited_lines (abort s t) = (codes "[Error] " ++ code_name s ++ codes ": " ++ t) ∷ []

  -- the client after it has sent the edit to the server
  pub edit_sent : Text → ℕ → Text → Client → Client
  edit_sent name position text c =
      let (outcome, server) =
        edit_document (record { name = name; position = position; text = text; client_id = c.name })
          c.peer c.server in
      record c { screen = c.screen ++ edited_lines outcome; server = server }

  -- what the client has after the answer, or the error that it raises
  edited : Result DocumentResponse × DocumentService → Client → Reply (Unit {0}) × Client
  edited (ok r, server) c =
      (done tt, record c { screen = c.screen ++ edited_lines (ok r); server = server })
  edited (abort s t, server) c = (rpc_error s t, record c { server = server })

  edit-edited :
      (name text : Text) (position : ℕ) (c : Client)
      → position < 2 ^ 32
      → edit range_error name (pos position) text c
        ≡ edited
            (edit_document
              (record { name = name; position = position; text = text; client_id = c.name })
              c.peer
              c.server)
            c
  unfolding edit to_uint32 call out edited edited_lines
  edit-edited name text position c h = ground (arith, h)

  edit_at-edited :
      (name text : Text) (position : ℕ) (c : Client)
      → position < 2 ^ 32
      → edit_at repr range_error name (decimal position) text c
        ≡ edited
            (edit_document
              (record { name = name; position = position; text = text; client_id = c.name })
              c.peer
              c.server)
            c
  unfolding edit_at int_arg
  edit_at-edited name text position c h =
      rw int_of_text-decimal (edit-edited name text position c h)

  caught-edited :
      (x : Result DocumentResponse × DocumentService) (c : Client)
      → caught repr range_error (then_on (λ c'. edited x c) c)
        ≡ (true, record c { screen = c.screen ++ edited_lines x.0; server = x.1 })
  unfolding caught edited edited_lines out
  caught-edited (ok r, server) c = refl
  caught-edited (abort s t, server) c = refl

  edit-words :
      (name text : Text) (position : ℕ) (c : Client)
      → position < 2 ^ 32
      → dispatch_words repr range_error
          (words (codes "edit" ∷ name ∷ decimal position ∷ text ∷ []))
          c
        ≡ (true, edit_sent name position text c)
  unfolding dispatch_words lower choice perform run_edit is join edit_sent
  edit-words name text position c h =
      ap (λ x. caught repr range_error (then_on (λ c'. x) c))
        (edit_at-edited name text position c h)
      ∙ caught-edited
          (edit_document
            (record { name = name; position = position; text = text; client_id = c.name }) c.peer
            c.server)
          c

  -- An `edit` line with its words in double quotes, the name and the text without double quotes and
  -- backslashes, the position below 2^32 in decimal: the client sends exactly this edit to the
  -- server under its own name, prints the new version and content or one line for the error, keeps
  -- its input and subscriptions, and goes on.
  pub dispatch-edit :
      (name text : Text) (position : ℕ) (c : Client)
      → position < 2 ^ 32
      → Plain name
      → Plain text
      → dispatch repr range_error (quoted (codes "edit" ∷ name ∷ decimal position ∷ text ∷ [])) c
        ≡ (true, edit_sent name position text c)
  unfolding dispatch
  dispatch-edit name text position c h plain_name plain_text =
      let plain : All Plain (codes "edit" ∷ name ∷ decimal position ∷ text ∷ []) =
        (edit_Plain, (plain_name, (Digit-Plain _ (decimal-Digit position), (plain_text, tt)))) in
      rw (dispatch, shlex_split-quoted (codes "edit" ∷ name ∷ decimal position ∷ text ∷ []) plain)
        (edit-words name text position c h)
