-- ===== src/Client/Tests.antt =====
-- A client of section3/problem1/client.py at a console with a few lines.
use dist_compute.Base.{◌≡◌, refl, true, some, [], ◌∷◌, ◌++◌, get_last?, arith}
use dist_compute.Base.Int.{ℤ}
use dist_compute.Base.Text.{Text, codes, decimal, text_eq}
use dist_compute.Base.Text.Shlex.Quoted.{quoted}
use dist_compute.Doc.{create_document}
use dist_compute.Doc.Runs.{init}
use dist_compute.Client.Console.{Client, says}
use dist_compute.Client.Dispatch.{dispatch, run}
use dist_compute.Client.Dispatch.Runs.{
  run-ends, dispatch-create, created_line, dispatch-edit, edit_sent,
}

abbrev at_console : Client
at_console = record {
  name = codes "ann";
  subscriptions = [];
  inputs = codes "create notes abc" ∷ codes "edit notes 9 x" ∷ codes "nonsense" ∷ [];
  screen = [];
  peer = codes "ipv4:1";
  server = init;
}

abbrev no_range : ℤ → Text
no_range n = codes "Value out of range"

abbrev plain_repr : Text → Text
plain_repr t = t

run-ends_example :
    ((run plain_repr no_range at_console).0 ≡ true)
    × (get_last? (run plain_repr no_range at_console).1.screen ≡ some (says (codes "Bye.")))
run-ends_example = run-ends plain_repr no_range at_console

dispatch-create_example :
    dispatch plain_repr no_range
      (quoted (codes "create" ∷ codes "to do" ∷ codes "a" ∷ []))
      at_console
    ≡ (
      true,
      record at_console {
        screen =
            at_console.screen
            ++ created_line plain_repr no_range (create_document (codes "to do") (codes "a") init).0
              ∷ [];
        server = (create_document (codes "to do") (codes "a") init).1;
      },
    )
dispatch-create_example =
    dispatch-create plain_repr no_range (codes "to do") (codes "a") at_console
      ((refl, refl), ((refl, refl), ((refl, refl), ((refl, refl), ((refl, refl), tt)))))
      ((refl, refl), tt)

dispatch-edit_example :
    dispatch plain_repr no_range
      (quoted (codes "edit" ∷ codes "to do" ∷ decimal 3 ∷ codes "x" ∷ []))
      at_console
    ≡ (true, edit_sent plain_repr no_range (codes "to do") 3 (codes "x") at_console)
dispatch-edit_example =
    dispatch-edit plain_repr no_range (codes "to do") (codes "x") 3 at_console (omega arith)
      ((refl, refl), ((refl, refl), ((refl, refl), ((refl, refl), ((refl, refl), tt)))))
      ((refl, refl), tt)
