-- ===== src/Weather/Coordinator/Accounts.antt =====
-- Every record that section2/q2_grpc/coordinator.py has sent is described by a worker's state or
-- waits in the queue of a link: an invariant of the links, kept by each step.
use mathlib.Core.List.{flatten, append-nil, append_assoc, Permᴰ}
use dist_compute.Base.{
  ℕ, zero, suc, ◌<◌, ◌≡◌, refl, sym, ap, ◌∙◌, List, [], ◌∷◌, ◌++◌, map, foldl, arith, length, All,
  All-append,
}
use dist_compute.Base.Text.{Text}
use dist_compute.Base.Perm.{perm_of_eq, perm_append_left, perm_append_right, perm_swap_end}
use dist_compute.Weather.Floats.{Floats, FloatLaws}
use dist_compute.Weather.Data.{Row, RecordBatch, rows}
use dist_compute.Weather.Accum.Spec.{Summarises}
use dist_compute.Weather.Accum.Rows.{empty-Summarises, add_batch-Summarises}
use dist_compute.Weather.Accum.Merge.{Each, merge_all-Summarises}
use dist_compute.Weather.Wire.{from_pb}
use dist_compute.Weather.Wire.Roundtrip.{from_pb-to_pb, settled-Summarises}
use dist_compute.Weather.Worker.{Worker, WorkerAck, process_batch, process_end, get_partial, reset}
use dist_compute.Weather.Coordinator.{
  WorkerLink, Coordinator, send_to, deliver, close, open_link, merged, merged_parts,
}

module _ {F : Type 0} where
  -- the columns of the batch have one length
  abbrev pub IsColumnar : RecordBatch F → Type 0
  IsColumnar b = length (rows b) ≡ length b.timestamp

  abbrev pub batch_rows : List (RecordBatch F) → List (Row F)
  batch_rows [] = []
  batch_rows (b ∷ bs) = rows b ++ batch_rows bs

  batch_rows-append :
      (bs cs : List (RecordBatch F)) → batch_rows (bs ++ cs) ≡ batch_rows bs ++ batch_rows cs
  batch_rows-append [] cs = refl
  batch_rows-append (b ∷ bs) cs =
      ap (◌++◌ (rows b)) (batch_rows-append bs cs)
      ∙ sym (append_assoc (rows b) (batch_rows bs) (batch_rows cs))

  -- all records of the links: for each link those that its worker has seen, then those that wait
  abbrev pub all_rows : List (WorkerLink F) → List (List (Row F)) → List (Row F)
  all_rows [] seen = []
  all_rows (l ∷ ls) [] = []
  all_rows (l ∷ ls) (rs ∷ seen) = (rs ++ batch_rows l.q) ++ all_rows ls seen

module _ (f : Floats) (laws : FloatLaws f) where
  open f use {Float}

  -- the worker's state describes the records that it has seen
  pub record LinkHolds (l : WorkerLink Float) (rs : List (Row Float)) : Type 0 where
    pub exact : Summarises f l.remote.0.state rs
    pub waiting : All IsColumnar l.q

  abbrev pub LinksHold : List (WorkerLink Float) → List (List (Row Float)) → Type 0
  LinksHold [] [] = Unit
  LinksHold [] (rs ∷ seen) = ⊥
  LinksHold (l ∷ ls) [] = ⊥
  LinksHold (l ∷ ls) (rs ∷ seen) = LinkHolds l rs × LinksHold ls seen

  -- `seen` has the records that each worker has seen, and all of them with the waiting ones are `all`
  pub record Accounts (links : List (WorkerLink Float)) (seen : List (List (Row Float)))
      (all : List (Row Float)) : Type 0 where
    pub hold : LinksHold links seen
    pub total : Permᴰ (all_rows links seen) all

  LinksHold-send :
      (links : List (WorkerLink Float)) (seen : List (List (Row Float))) (w : ℕ)
      (b : RecordBatch Float)
      → IsColumnar b
      → LinksHold links seen
      → LinksHold (send_to links w b) seen
  unfolding send_to
  LinksHold-send [] [] w b c h = h
  LinksHold-send [] (rs ∷ seen) w b c h = h
  LinksHold-send (l ∷ ls) [] zero b c h = h
  LinksHold-send (l ∷ ls) [] (suc w) b c h = h
  LinksHold-send (l ∷ ls) (rs ∷ seen) zero b c h = (
    record { exact = h.0.exact; waiting = All-append IsColumnar l.q (b ∷ []) h.0.waiting (c, tt) },
    h.1,
  )
  LinksHold-send (l ∷ ls) (rs ∷ seen) (suc w) b c h = (h.0, LinksHold-send ls seen w b c h.1)

  all_rows-send :
      (links : List (WorkerLink Float)) (seen : List (List (Row Float))) (w : ℕ)
      (b : RecordBatch Float)
      → LinksHold links seen
      → w < length links
      → Permᴰ (all_rows (send_to links w b) seen) (all_rows links seen ++ rows b)
  unfolding send_to
  all_rows-send [] seen w b h lt = absurd (omega arith)
  all_rows-send (l ∷ ls) [] w b h lt = elim h [ ]
  all_rows-send (l ∷ ls) (rs ∷ seen) zero b h lt =
      rw (batch_rows-append, append-nil, ← append_assoc)
        (perm_swap_end (rs ++ batch_rows l.q) (rows b) (all_rows ls seen))
  all_rows-send (l ∷ ls) (rs ∷ seen) (suc w) b h lt =
      Permᴰ.trans
        (perm_append_left (rs ++ batch_rows l.q) (all_rows-send ls seen w b h.1 (omega arith)))
        (perm_of_eq (sym (append_assoc (rs ++ batch_rows l.q) (all_rows ls seen) (rows b))))

  -- a batch that is sent is accounted for
  pub Accounts-send :
      (links : List (WorkerLink Float)) (seen : List (List (Row Float))) (all : List (Row Float))
      (w : ℕ) (b : RecordBatch Float)
      → IsColumnar b
      → w < length links
      → Accounts links seen all
      → Accounts (send_to links w b) seen (all ++ rows b)
  Accounts-send links seen all w b c lt a = record {
    hold = LinksHold-send links seen w b c a.hold;
    total =
        Permᴰ.trans (all_rows-send links seen w b a.hold lt) (perm_append_right (rows b) a.total);
  }

  pub length-send_to :
      (links : List (WorkerLink Float)) (w : ℕ) (b : RecordBatch Float)
      → length (send_to links w b) ≡ length links
  unfolding send_to
  length-send_to [] w b = refl
  length-send_to (l ∷ ls) zero b = refl
  length-send_to (l ∷ ls) (suc w) b = ap suc (length-send_to ls w b)

  -- the sender of link `w` delivers its oldest batch
  unfoldable pub deliver_at : List (WorkerLink Float) → ℕ → List (WorkerLink Float)
  unfolding deliver
  deliver_at [] w = []
  deliver_at (l ∷ ls) zero = deliver f l ∷ ls
  deliver_at (l ∷ ls) (suc w) = l ∷ deliver_at ls w

  -- the records that the delivery moves
  oldest : List (RecordBatch Float) → List (Row Float)
  oldest [] = []
  oldest (b ∷ q) = rows b

  unfoldable pub seen_after :
      List (WorkerLink Float) → List (List (Row Float)) → ℕ → List (List (Row Float))
  unfolding oldest
  seen_after (l ∷ ls) (rs ∷ seen) zero = (rs ++ oldest l.q) ∷ seen
  seen_after (l ∷ ls) (rs ∷ seen) (suc w) = rs ∷ seen_after ls seen w
  seen_after _ seen w = seen

  deliver-queue :
      (addr : Text) (q : List (RecordBatch Float)) (sent : ℕ) (remote : Worker Float × WorkerAck)
      (rs : List (Row Float))
      → let l : WorkerLink Float = record { addr = addr; q = q; sent = sent; remote = remote } in
        LinkHolds l rs
        → LinkHolds (deliver f l) (rs ++ oldest q)
          × ((rs ++ oldest q) ++ batch_rows (deliver f l).q ≡ rs ++ batch_rows q)
  unfolding deliver oldest process_batch
  deliver-queue addr [] sent remote rs h = (rw append-nil h, append-nil (rs ++ []))
  deliver-queue addr (b ∷ q) sent remote rs h = (
    record {
      exact = add_batch-Summarises f laws remote.0.state rs b h.waiting.0 h.exact;
      waiting = h.waiting.1;
    },
    append_assoc rs (rows b) (batch_rows q),
  )

  Accounts-deliver_at :
      (links : List (WorkerLink Float)) (seen : List (List (Row Float))) (w : ℕ)
      → LinksHold links seen
      → LinksHold (deliver_at links w) (seen_after links seen w)
        × (all_rows (deliver_at links w) (seen_after links seen w) ≡ all_rows links seen)
  unfolding deliver_at seen_after
  Accounts-deliver_at [] seen w h = (h, refl)
  Accounts-deliver_at (l ∷ ls) [] w h = elim h [ ]
  Accounts-deliver_at (l ∷ ls) (rs ∷ seen) zero h =
      let (holds, same) = deliver-queue l.addr l.q l.sent l.remote rs h.0 in ((holds, h.1), rw same)
  Accounts-deliver_at (l ∷ ls) (rs ∷ seen) (suc w) h =
      let (holds, same) = Accounts-deliver_at ls seen w h.1 in ((h.0, holds), rw same)

  pub Accounts-deliver :
      (links : List (WorkerLink Float)) (seen : List (List (Row Float))) (all : List (Row Float))
      (w : ℕ)
      → Accounts links seen all
      → Accounts (deliver_at links w) (seen_after links seen w) all
  Accounts-deliver links seen all w a =
      let (holds, same) = Accounts-deliver_at links seen w a.hold in
      record { hold = holds; total = rw same a.total }

  -- opening the links resets the workers; no batch waits
  abbrev pub IsIdle : WorkerLink Float → Type 0
  IsIdle l = l.q ≡ []

  abbrev pub none_seen : List (WorkerLink Float) → List (List (Row Float))
  none_seen = map (λ l. [])

  open_link-q : (l : WorkerLink Float) → (open_link f l).q ≡ l.q
  unfolding open_link
  open_link-q l = refl

  open_link-holds : (l : WorkerLink Float) → IsIdle l → LinkHolds (open_link f l) []
  unfolding open_link reset
  open_link-holds l idle = record { exact = empty-Summarises f laws; waiting = rw idle tt }

  pub Accounts-open :
      (links : List (WorkerLink Float))
      → All IsIdle links
      → Accounts (map (open_link f) links) (none_seen links) []
  Accounts-open [] idle = record { hold = tt; total = Permᴰ.nil }
  Accounts-open (l ∷ ls) idle =
      let rest = Accounts-open ls idle.1 in
      record {
        hold = (open_link-holds l idle.0, rest.hold);
        total = rw (open_link-q l, idle.0) rest.total;
      }

  -- what each worker has seen when its queue is drained
  pub seen_at_end : List (WorkerLink Float) → List (List (Row Float)) → List (List (Row Float))
  seen_at_end (l ∷ ls) (rs ∷ seen) = (rs ++ batch_rows l.q) ∷ seen_at_end ls seen
  seen_at_end _ seen = []

  drain-Summarises :
      (q : List (RecordBatch Float)) (remote : Worker Float × WorkerAck) (rs : List (Row Float))
      → All IsColumnar q
      → Summarises f remote.0.state rs
      → Summarises f (foldl (process_batch f) remote q).0.state (rs ++ batch_rows q)
  drain-Summarises [] remote rs c h = rw append-nil h
  drain-Summarises (b ∷ q) remote rs c h = rw (← append_assoc) (
      drain-Summarises q (process_batch f remote b) (rs ++ rows b) c.1
        (unfold process_batch in add_batch-Summarises f laws remote.0.state rs b c.0 h))

  pub LinksHold-close :
      (links : List (WorkerLink Float)) (seen : List (List (Row Float)))
      → LinksHold links seen
      → LinksHold (map (close f) links) (seen_at_end links seen)
        × (flatten (seen_at_end links seen) ≡ all_rows links seen)
  unfolding seen_at_end flatten
  LinksHold-close [] [] h = (tt, refl)
  LinksHold-close [] (rs ∷ seen) h = elim h [ ]
  LinksHold-close (l ∷ ls) [] h = elim h [ ]
  LinksHold-close (l ∷ ls) (rs ∷ seen) h =
      let (holds, same) = LinksHold-close ls seen h.1 in
      (
        (
          record {
            exact =
                unfold close process_end in drain-Summarises l.q l.remote rs h.0.waiting h.0.exact;
            waiting = unfold close in tt;
          },
          holds,
        ),
        ap (◌++◌ (rs ++ batch_rows l.q)) same,
      )

  -- The merged answer of a query describes exactly the records that the workers have seen.
  Each-off_wire :
      (links : List (WorkerLink Float)) (seen : List (List (Row Float)))
      → LinksHold links seen
      → Each f laws
          (map (from_pb f) (map (λ (l : WorkerLink Float). get_partial f l.remote.0) links))
          seen
  Each-off_wire [] [] h = tt
  Each-off_wire [] (rs ∷ seen) h = elim h [ ]
  Each-off_wire (l ∷ ls) [] h = elim h [ ]
  Each-off_wire (l ∷ ls) (rs ∷ seen) h = (
    unfold get_partial in
        rw (from_pb-to_pb f l.remote.0.state rs l.remote.0.id h.0.exact)
          (settled-Summarises f l.remote.0.state rs h.0.exact),
    Each-off_wire ls seen h.1,
  )

  pub merged-Summarises :
      (c : Coordinator Float) (seen : List (List (Row Float)))
      → LinksHold c.links seen
      → Summarises f (merged f c) (flatten seen)
  unfolding merged merged_parts
  merged-Summarises c seen h = merge_all-Summarises f laws _ seen (Each-off_wire c.links seen h)
