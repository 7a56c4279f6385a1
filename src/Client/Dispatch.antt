-- ===== src/Client/Dispatch.antt =====
-- section3/problem1/client.py: the command line, `dispatch` and the loop `run`. The texts of Python's
-- `repr` and of protobuf's range error are parameters.
pub mod Runs
use Prim.Native.String.{String}
use dist_compute.Base.{
  ℕ, zero, suc, ◌+◌, Bool, true, false, ◌&&◌, ◌||◌, Option, none, some, List, [], ◌∷◌, ◌++◌, map,
  leb, if◌then◌else◌, length,
}
use dist_compute.Base.Int.{ℤ}
use dist_compute.Base.Text.{Text, codes, text_beq}
use dist_compute.Base.Text.Parse.{int_of_text}
use dist_compute.Base.Text.Shlex.{Split, words, parse_error, shlex_split}
use dist_compute.Client.Console.{
  Client, Reply, done, rpc_error, value_error, Act, ◌>>=◌, ◌>>◌, give, out, says, create,
  open_document, edit, subscribe, unsubscribe, prompt, code_name, close,
}

abbrev newline : Text
newline = codes "\n"

-- `MENU`
pub menu : Text
menu =
    newline
    ++ codes "==== Collaborative Document Client ===="
    ++ newline
    ++ codes "  1. Create Document      create <name> \"<content>\""
    ++ newline
    ++ codes "  2. Open Document        open <name>"
    ++ newline
    ++ codes "  3. Edit Document        edit <name> <pos> \"<text>\""
    ++ newline
    ++ codes "  4. Subscribe to Updates subscribe <name>"
    ++ newline
    ++ codes "  5. Exit                 exit"
    ++ newline

-- `" ".join(words)`
pub join : List Text → Text
join [] = []
join (w ∷ []) = w
join (w ∷ v ∷ ws) = w ++ 32 ∷ join (v ∷ ws)

-- `text.lower()`, which matters here for ASCII letters: no other letter lowers to one of a command
pub lower : Text → Text
lower = map (λ c. if leb 65 c && leb c 90 then c + 32 else c)

pub is : String → Text → Bool
is s cmd = text_beq cmd (codes s)

pub usage : {A : Type 0} → String → Act A
usage s = give (value_error (codes s))

-- the operation ran to its end, and the client goes on
abbrev pub then_on : Act (Unit {0}) → Act Bool
then_on m = m >>= λ _. give (done true)

module _ (repr : Text → Text) (range_error : ℤ → Text) where
  -- `int(text)`, and its error
  pub int_arg : Text → Option ℤ → Reply ℤ
  int_arg t (some n) = done n
  int_arg t none = value_error (codes "invalid literal for int() with base 10: " ++ repr t)

  pub edit_at : Text → Text → Text → Act (Unit {0})
  unfolding int_arg edit
  edit_at name position text =
      give (int_arg position (int_of_text position)) >>= λ n. edit range_error name n text

  -- each command with its arguments
  pub run_create : List Text → Act Bool
  unfolding usage join
  run_create [] = usage "usage: create <name> \"<content>\""
  run_create (name ∷ args) = then_on (create name (join args))

  pub run_open : List Text → Act Bool
  unfolding usage
  run_open (name ∷ []) = then_on (open_document name)
  run_open _ = usage "usage: open <name>"

  pub run_edit : List Text → Act Bool
  unfolding usage join edit_at
  run_edit (name ∷ position ∷ args) = then_on (edit_at name position (join args))
  run_edit _ = usage "usage: edit <name> <position> \"<text>\""

  pub run_subscribe : List Text → Act Bool
  unfolding usage
  run_subscribe (name ∷ []) = then_on (subscribe name)
  run_subscribe _ = usage "usage: subscribe <name>"

  pub run_unsubscribe : List Text → Act Bool
  unfolding usage
  run_unsubscribe (name ∷ []) = then_on (unsubscribe name)
  run_unsubscribe _ = usage "usage: unsubscribe <name>"

  pub unknown : Text → Act Bool
  unfolding out says
  unknown cmd =
      then_on
        (out (says (codes "Unknown command '" ++ cmd ++ codes "'. Type 'help' for the menu.") ∷ []))

  -- the chain of `elif` inside the second `try`
  pub perform : Text → List Text → Act Bool
  unfolding is run_create run_open run_edit run_subscribe run_unsubscribe out menu unknown
  perform cmd args =
      if is "create" cmd
      then run_create args
      else if is "open" cmd
      then run_open args
      else if is "edit" cmd
      then run_edit args
      else if is "subscribe" cmd
      then run_subscribe args
      else if is "unsubscribe" cmd
      then run_unsubscribe args
      else if is "exit" cmd || is "quit" cmd || is "q" cmd
      then give (done false)
      else if is "help" cmd || is "?" cmd || is "menu" cmd
      then then_on (out (menu ∷ []))
      else unknown cmd

  -- the two `except` clauses
  pub caught : Reply Bool × Client → Bool × Client
  unfolding out code_name says
  caught (done go_on, c) = (go_on, c)
  caught (rpc_error s t, c) =
      (true, (out ((codes "[Error] " ++ code_name s ++ codes ": " ++ t) ∷ []) c).1)
  caught (value_error t, c) = (true, (out (says t ∷ []) c).1)

  -- that many prompts, one after the other
  pub ask : ℕ → Client → List Text × Client
  unfolding prompt
  ask zero c = ([], c)
  ask (suc n) c = let (line, c₁) = prompt c in let (lines, c₂) = ask n c₁ in (line ∷ lines, c₂)

  abbrev pub asked : Text → ℕ → Client → (Text × List Text) × Client
  asked cmd n c = let (args, c') = ask n c in ((cmd, args), c')

  -- a menu number stands for a command, whose arguments are asked for
  pub choice : Text → List Text → Client → (Text × List Text) × Client
  unfolding is ask
  choice cmd args c =
      if is "1" cmd
      then asked (codes "create") 2 c
      else if is "2" cmd
      then asked (codes "open") 1 c
      else if is "3" cmd
      then asked (codes "edit") 3 c
      else if is "4" cmd
      then asked (codes "subscribe") 1 c
      else ((if is "5" cmd then codes "exit" else cmd, args), c)

  pub dispatch_words : Split → Client → Bool × Client
  unfolding out says lower choice perform caught
  dispatch_words (parse_error t) c = (true, (out (says (codes "Parse error: " ++ t) ∷ []) c).1)
  dispatch_words (words []) c = (true, c)
  dispatch_words (words (w ∷ args)) c =
      let ((cmd, args'), c') = choice (lower w) args c in caught (perform cmd args' c')

  -- `dispatch`
  pub dispatch : Text → Client → Bool × Client
  unfolding dispatch_words shlex_split
  dispatch line c = dispatch_words (shlex_split line) c

  -- The loop of `run`; the flag says that it ended.
  pub loop : ℕ → Client → Bool × Client
  unfolding prompt dispatch
  loop zero c = (false, c)
  loop (suc fuel) c =
      let (line, c₁) = prompt c in
      let (go_on, c₂) = dispatch line c₁ in
      let rest = loop fuel c₂ in if go_on then rest else (true, c₂)

  pub welcome : Client → Client
  unfolding out menu
  welcome c = (out ((codes "Connected to server as '" ++ c.name ++ codes "'.") ∷ menu ∷ []) c).1

  pub farewell : Client → Client
  unfolding close out says
  farewell c = (out (says (codes "Bye.") ∷ []) (close c)).1

  -- `run`: a round reads a line or ends, so the lines and one round more are enough
  pub run : Client → Bool × Client
  unfolding welcome loop farewell
  run c =
      let c₁ = welcome c in
      let (ended, c₂) = loop (suc (length c₁.inputs)) c₁ in
      if ended then (true, farewell c₂) else (false, c₂)
