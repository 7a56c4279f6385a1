-- ===== src/Doc/Demo/Tests.antt =====
-- section3/problem1/concurrent_demo.py with three clients on an empty server.
use dist_compute.Base.{◌≡◌, refl, true, some, List, [], ◌∷◌, arith}
use mathlib.Core.Option
use dist_compute.Base.Text.{codes, decimal, strip, is_space}
use dist_compute.Doc.{
  create_document, get_document, edit_document, edited, insert_at, subscribe_to_updates,
  next_update,
}
use mathlib.Core.List.{Permᴰ}
use dist_compute.Base.Text.Find.{occurs}
use dist_compute.Doc.Demo.{
  enumerate, Move, edits, observes, demo, inserts, begin, move, listen, observe, editor,
  edit_request, checks, sorted, insert_sorted, verdict,
}
use dist_compute.Doc.Demo.Schedule.{editors}
use dist_compute.Doc.Demo.Passes.{demo-passes}
use dist_compute.Doc.Runs.{init}

abbrev moves : List Move
moves =
    edits 2 (codes "Client2 ")
    ∷ observes
    ∷ edits 0 (codes "Distributed ")
    ∷ edits 1 (codes "Systems ")
    ∷ []

checks_hold : Option.map (λ x. x.1) (demo 3 (codes "a") (codes "p") moves 3 init) ≡ some true
unfolding decimal demo inserts begin move listen observe editor edit_request checks occurs sorted
    insert_sorted verdict create_document get_document edit_document edited insert_at
    subscribe_to_updates next_update strip is_space
checks_hold = refl

stripped : strip (codes "a") ≡ codes "a"
unfolding strip is_space
stripped = refl

-- the order 2, 0, 1
any_order : Permᴰ (editors moves) (enumerate 0 (inserts 3))
unfolding inserts decimal
any_order = Permᴰ.trans (Permᴰ.swap refl refl) (Permᴰ.cons refl (Permᴰ.swap refl refl))

demo-passes_example :
    Option.map (λ x. x.1) (demo 3 (codes "a") (codes "p") moves 3 init) ≡ some true
demo-passes_example =
    demo-passes 3 (codes "a") (codes "p") moves init (omega arith) stripped (λ e. cc) refl any_order
