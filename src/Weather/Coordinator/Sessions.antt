-- ===== src/Weather/Coordinator/Sessions.antt =====
-- An ingest session of section2/q2_grpc/coordinator.py, with the deliveries of the senders at any
-- points between its rounds: what a query answers during it and after it.
use mathlib.Core.List.{flatten, append-nil, append_assoc, Permᴰ}
use dist_compute.Base.{
  ℕ, zero, suc, ◌+◌, ◌%◌, ◌<◌, ◌≡◌, refl, ap, ◌∙◌, Bool, true, false, Option, none, some, List, [],
  ◌∷◌, ◌++◌, map, arith, length, All, length-append, inl, inr, Bool-cases, if◌then◌else◌,
}
use dist_compute.Base.Text.{Text, codes, text_beq}
use dist_compute.Base.Perm.{perm_append_left, perm_append_right, perm_swap_end}
use dist_compute.Weather.Floats.{Floats, FloatLaws}
use dist_compute.Weather.Data.{Row, RecordBatch}
use dist_compute.Weather.Accum.Spec.{Summarises}
use dist_compute.Weather.Accum.Rows.{Summarises-perm}
use dist_compute.Weather.Dataset.{Header, columns}
use dist_compute.Weather.Coordinator.{
  WorkerLink, Coordinator, IngestMessage, IngestSummary, Session, ingest, dispatch, dispatch_rr,
  distribute, count_batch, open_session, finish, close, merged, open_link,
}
use dist_compute.Weather.Coordinator.Accounts.{
  Accounts, Accounts-send, Accounts-open, Accounts-deliver, LinksHold, LinksHold-close, batch_rows,
  all_rows, length-send_to, deliver_at, seen_after, seen_at_end, none_seen, IsIdle,
  merged-Summarises,
}
use dist_compute.Weather.Coordinator.Stations.{
  Accounts-station, zip-columns, columns-IsColumnar, length-column,
}

-- A message that the streamer sends, or a delivery on a link. The batches are those of
-- `iter_batches`, each with its clock readings.
pub data Step (F : Type 0) : Type 0 where
  header : Header → Step F
  batch : ℕ → List (Row F) → F → F → Step F
  take : ℕ → Step F

module _ {F : Type 0} where
  -- the records that arrive
  abbrev pub arrived : List (Step F) → List (Row F)
  arrived [] = []
  arrived (header h ∷ es) = arrived es
  arrived (batch seq rs t now ∷ es) = rs ++ arrived es
  arrived (take w ∷ es) = arrived es

pub length-columns :
    {F : Type 0} (seq : ℕ) (rs : List (Row F)) → length (columns seq rs).timestamp ≡ length rs
unfolding columns
length-columns seq rs = length-column (λ r. r.ts) rs

module _ (f : Floats) (laws : FloatLaws f) where
  open f use {Float}

  -- the session after the steps, and whether no dispatch raised
  unfoldable pub play : List (Step Float) → Session f → Session f × Bool
  play [] s = (s, true)
  play (header h ∷ es) s = play es (ingest f s (IngestMessage.header h)).0
  play (batch seq rs t now ∷ es) s =
      let (s', done) = ingest f s (IngestMessage.batch (columns seq rs) t now) in
      let rest = play es s' in if done then rest else (s', false)
  play (take w ∷ es) s =
      play es (record s { coord = record s.coord { links = deliver_at f laws s.coord.links w } })

  -- the session accounts for all records that came, and the workers are still there
  pub record SessionHolds (s : Session f) (all : List (Row Float)) : Type 0 where
    pub seen : List (List (Row Float))
    pub accounts : Accounts f laws s.coord.links seen all
    pub workers : 0 < length s.coord.links
    pub counted : s.coord.records_ingested ≡ length all

  pub dispatch-Accounts :
      (dist : Text) (seq i : ℕ) (rs : List (Row Float)) (links : List (WorkerLink Float))
      (seen : List (List (Row Float))) (all : List (Row Float))
      → 0 < length links
      → Accounts f laws links seen all
      → (links' : List (WorkerLink Float)) × (dispatch dist links (columns seq rs) i
          ≡ (links', true))
        × (length links' ≡ length links)
        × Accounts f laws links' seen (all ++ rs)
  unfolding dispatch
  dispatch-Accounts dist seq i rs links seen all workers a =
      elim (Bool-cases (text_beq dist (codes "station"))) [
        | inl station ↦ rw station (Accounts-station f laws seq rs links seen all workers a)
        | inr rr ↦ (
          dispatch_rr links (columns seq rs) i,
          rw rr refl,
          unfold dispatch_rr in length-send_to f laws links _ (columns seq rs),
          unfold dispatch_rr in
              rw (zip-columns seq rs) at (
                Accounts-send f laws links seen all (i % length links) (columns seq rs)
                  (columns-IsColumnar seq rs) (omega arith) a),
        )
      ]

  pub length-deliver_at :
      (links : List (WorkerLink Float)) (w : ℕ) → length (deliver_at f laws links w) ≡ length links
  unfolding deliver_at
  length-deliver_at [] w = refl
  length-deliver_at (l ∷ ls) zero = refl
  length-deliver_at (l ∷ ls) (suc w) = ap suc (length-deliver_at ls w)

  -- a round of the loop whose dispatch does not raise
  ingest-batch :
      (s : Session f) (b : RecordBatch Float) (t now : Float) (links : List (WorkerLink Float))
      → dispatch s.coord.dist s.coord.links b s.i ≡ (links, true)
      → (s' : Session f) × (ingest f s (IngestMessage.batch b t now) ≡ (s', true))
        × (s'.coord.links ≡ links)
        × (s'.coord.records_ingested ≡ s.coord.records_ingested + length b.timestamp)
  unfolding ingest distribute count_batch
  ingest-batch s b t now links e = rw e (_, refl, refl, refl)

  SessionHolds-header :
      (s : Session f) (h : Header) (all : List (Row Float))
      → SessionHolds s all
      → SessionHolds (ingest f s (IngestMessage.header h)).0 all
  unfolding ingest
  SessionHolds-header s x all h = record {
    seen = h.seen;
    accounts = h.accounts;
    workers = h.workers;
    counted = h.counted;
  }

  SessionHolds-batch :
      (s : Session f) (seq : ℕ) (rs : List (Row Float)) (t now : Float) (all : List (Row Float))
      → SessionHolds s all
      → (s' : Session f) × (ingest f s (IngestMessage.batch (columns seq rs) t now) ≡ (s', true))
        × SessionHolds s' (all ++ rs)
  SessionHolds-batch s seq rs t now all h =
      let (links', done, same, acc) =
        dispatch-Accounts s.coord.dist seq s.i rs s.coord.links h.seen all h.workers h.accounts in
      let (s', run, links, count) = ingest-batch s (columns seq rs) t now links' done in
      (
        s',
        run,
        record {
          seen = h.seen;
          accounts = rw links acc;
          workers = rw (links, same) h.workers;
          counted = count ∙ rw (length-append all rs, h.counted, length-columns seq rs) refl;
        },
      )

  play-holds :
      (es : List (Step Float)) (s : Session f) (all : List (Row Float))
      → SessionHolds s all
      → (s' : Session f) × (play es s ≡ (s', true)) × SessionHolds s' (all ++ arrived es)
  unfolding play
  play-holds [] s all h = (s, refl, rw append-nil h)
  play-holds (header x ∷ es) s all h = play-holds es _ all (SessionHolds-header s x all h)
  play-holds (batch seq rs t now ∷ es) s all h =
      let (s', run, holds) = SessionHolds-batch s seq rs t now all h in
      let (s'', runs, ends) = play-holds es s' (all ++ rs) holds in
      (s'', rw run runs, rw (← append_assoc) ends)
  play-holds (take w ∷ es) s all h = play-holds es _ all (record {
    seen = seen_after f laws s.coord.links h.seen w;
    accounts = Accounts-deliver f laws s.coord.links h.seen all w h.accounts;
    workers = rw length-deliver_at h.workers;
    counted = h.counted;
  })

  -- The whole handler `StreamRecords` with the deliveries of the senders in it; `none` if it is
  -- refused or if `dispatch` raises.
  ended : Session f × Bool → Float → Option (Coordinator Float × IngestSummary Float)
  unfolding finish
  ended (s, done) t_end = if done then some (finish f s t_end) else none

  streamed :
      Option (Coordinator Float)
      → List (Step Float)
      → Float
      → Option (Coordinator Float × IngestSummary Float)
  unfolding play ended
  streamed none es t_end = none
  streamed (some c) es t_end = ended (play es (record { coord = c; i = 0; first = true })) t_end

  unfoldable pub stream_records :
      Coordinator Float
      → List (Step Float)
      → Float
      → Option (Coordinator Float × IngestSummary Float)
  unfolding streamed open_session
  stream_records c es t_end = streamed (open_session f c) es t_end

  -- a coordinator between two sessions: it has a worker, and no batch waits
  pub record Ready (c : Coordinator Float) : Type 0 where
    pub inactive : c.active ≡ false
    pub idle : All (IsIdle f laws) c.links
    pub workers : 0 < length c.links

  -- the records that wait in the queues
  abbrev pub queued : List (WorkerLink Float) → List (Row Float)
  queued [] = []
  queued (l ∷ ls) = batch_rows l.q ++ queued ls

  length-links :
      (g : WorkerLink Float → WorkerLink Float) (ls : List (WorkerLink Float))
      → length (map g ls) ≡ length ls
  length-links g [] = refl
  length-links g (l ∷ ls) = ap suc (length-links g ls)

  closed-IsIdle : (ls : List (WorkerLink Float)) → All (IsIdle f laws) (map (close f) ls)
  closed-IsIdle [] = tt
  closed-IsIdle (l ∷ ls) = (unfold close in refl, closed-IsIdle ls)

  pub open_session-holds :
      (c : Coordinator Float)
      → Ready c
      → (c' : Coordinator Float) × (open_session f c ≡ some c')
        × SessionHolds (record { coord = c'; i = 0; first = true }) []
  unfolding open_session
  open_session-holds c r =
      let c' : Coordinator Float = record c {
        active = true;
        complete = false;
        records_ingested = 0;
        batches = 0;
        rate_window = [];
        links = map (open_link f) c.links;
      } in
      (
        c',
        rw r.inactive refl,
        record {
          seen = none_seen f laws c.links;
          accounts = Accounts-open f laws c.links r.idle;
          workers = rw length-links r.workers;
          counted = refl;
        },
      )

  finish-lem :
      (s : Session f) (all : List (Row Float)) (t_end : Float)
      → SessionHolds s all
      → let done = (finish f s t_end).0 in
        Summarises f (merged f done) all
        × ((finish f s t_end).1.records_received ≡ length all)
        × (done.complete ≡ true)
        × Ready done
  unfolding finish
  finish-lem s all t_end h =
      let (holds, same) = LinksHold-close f laws s.coord.links h.seen h.accounts.hold in
      (
        Summarises-perm f laws _ (rw same h.accounts.total) (
            merged-Summarises f laws (finish f s t_end).0 (seen_at_end f laws s.coord.links h.seen)
              (unfold finish in holds)),
        h.counted,
        refl,
        record {
          inactive = refl;
          idle = closed-IsIdle s.coord.links;
          workers = rw length-links h.workers;
        },
      )

  -- `StreamRecords` on a coordinator that has a worker, no active session and no waiting batch, with
  -- messages and deliveries in any order: it is not refused and no `dispatch` raises. After it the
  -- merged state of the workers describes exactly the records that arrived, the summary counts
  -- them, the stream is complete, and the coordinator is ready for the next session.
  pub session_exact :
      (c : Coordinator Float) (es : List (Step Float)) (t_end : Float)
      → Ready c
      → (done : Coordinator Float) × (summary : IngestSummary Float) × (stream_records c es t_end
          ≡ some (done, summary))
        × Summarises f (merged f done) (arrived es)
        × (summary.records_received ≡ length (arrived es))
        × (done.complete ≡ true)
        × Ready done
  unfolding stream_records streamed ended
  session_exact c es t_end r =
      let (c', opened, start) = open_session-holds c r in
      let (s', played, ends) =
        play-holds es (record { coord = c'; i = 0; first = true }) [] start in
      let (exact, counted, complete, ready) = finish-lem s' (arrived es) t_end ends in
      (
        (finish f s' t_end).0,
        (finish f s' t_end).1,
        rw (opened, played) refl,
        exact,
        counted,
        complete,
        ready,
      )

  pub perm_inner :
      (xs ys zs ws : List (Row Float)) → Permᴰ ((xs ++ ys) ++ (zs ++ ws)) ((xs ++ zs) ++ (ys ++ ws))
  perm_inner xs ys zs ws =
      rw (← append_assoc (xs ++ ys) zs ws, ← append_assoc (xs ++ zs) ys ws)
        (perm_append_right ws (perm_swap_end xs ys zs))

  pub all_rows-queued :
      (links : List (WorkerLink Float)) (seen : List (List (Row Float)))
      → LinksHold f laws links seen
      → Permᴰ (all_rows links seen) (flatten seen ++ queued links)
  unfolding flatten
  all_rows-queued [] [] h = Permᴰ.nil
  all_rows-queued [] (rs ∷ seen) h = elim h [ ]
  all_rows-queued (l ∷ ls) [] h = elim h [ ]
  all_rows-queued (l ∷ ls) (rs ∷ seen) h =
      Permᴰ.trans (perm_append_left (rs ++ batch_rows l.q) (all_rows-queued ls seen h.1))
        (perm_inner rs (batch_rows l.q) (flatten seen) (queued ls))
