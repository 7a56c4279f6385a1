-- ===== src/Weather/Coordinator.antt =====
-- section2/q2_grpc/coordinator.py: the links to the workers, the two ways to distribute a batch, the
-- ingest session and the queries. A worker stands behind its link; what the sender thread and the
-- worker do between two steps of the coordinator is the step `deliver`.
pub mod Accounts
pub mod Stations
pub mod Sessions
pub mod Window
pub mod Queries
use mathlib.Core.Option
use mathlib.Core.List.{reverse}
use dist_compute.Base.{
  ℕ, zero, suc, ◌+◌, ◌-◌, ◌%◌, Bool, true, false, not, ◌||◌, Option, none, some, List, [], ◌∷◌,
  ◌++◌, map, foldl, ltb, leb, nat_beq, if◌then◌else◌, length, get_elem?, get_or, set, replicate,
  drop,
}
use dist_compute.Base.Int.{ℤ, pos, beq_ℤ, floor_mod}
use dist_compute.Base.Text.{Text, codes, text_beq}
use dist_compute.Weather.Floats.{Floats}
use dist_compute.Weather.Data.{Partial, PartialState, RecordBatch}
use dist_compute.Weather.Accum.{merge_all}
use dist_compute.Weather.Wire.{from_pb}
use dist_compute.Weather.Dataset.{Header}
use dist_compute.Weather.Report.{AnalyticsReport, fill_report}
use dist_compute.Weather.Worker.{
  Worker, WorkerAck, WorkerInfo, no_ack, worker, process_batch, process_end, get_partial, get_info,
  reset,
}

-- `WorkerLink`: the queue of the sender, the count of records sent, and at the other end of the
-- channel the worker with the state of its `Process` call.
pub record WorkerLink (F : Type 0) : Type 0 where
  pub addr : Text
  pub q : List (RecordBatch F)
  pub sent : ℕ
  pub remote : Worker F × WorkerAck

-- `Coordinator`, with the times as floats
pub record Coordinator (F : Type 0) : Type 0 where
  pub links : List (WorkerLink F)
  pub dist : Text
  pub header : Header
  pub records_ingested : ℕ
  pub batches : ℕ
  pub active : Bool
  pub complete : Bool
  pub t_first : F
  pub t_last : F
  pub rate_window : List (F × ℕ)
  pub query_count : ℕ

-- what `StreamRecords` takes from its iterator, with the clock read for `t_first` and for the window
pub data IngestMessage (F : Type 0) : Type 0 where
  header : Header → IngestMessage F
  batch : RecordBatch F → F → F → IngestMessage F

pub record IngestSummary (F : Type 0) : Type 0 where
  pub records_received : ℕ
  pub batches_received : ℕ
  pub elapsed_seconds : F
  pub records_per_second : F

module _ {F : Type 0} where
  -- `WorkerLink.send`: the batch waits in the queue
  unfoldable pub send : WorkerLink F → RecordBatch F → WorkerLink F
  send l b = record l { q = l.q ++ b ∷ []; sent = l.sent + length b.timestamp }

  -- `self.links[w].send(b)`
  unfoldable pub send_to : List (WorkerLink F) → ℕ → RecordBatch F → List (WorkerLink F)
  unfolding send
  send_to [] w b = []
  send_to (l ∷ ls) zero b = send l b ∷ ls
  send_to (l ∷ ls) (suc w) b = l ∷ send_to ls w b

  -- `_dispatch_rr`, for the batch with number `i`
  unfoldable pub dispatch_rr : List (WorkerLink F) → RecordBatch F → ℕ → List (WorkerLink F)
  unfolding send_to
  dispatch_rr links b i = send_to links (i % length links) b

-- the loop that collects the positions of each worker's records
abbrev pub collect : ℕ → List (List ℕ) → ℕ → List ℤ → List (List ℕ)
collect n idx j [] = idx
collect n idx j (s ∷ ss) =
    let w = floor_mod s n in collect n (set idx w (get_or idx w [] ++ j ∷ [])) (j + 1) ss

abbrev pub cons_option {ℓ} : {A : Type ℓ} → Option A → Option (List A) → Option (List A)
cons_option (some a) (some rest) = some (a ∷ rest)
cons_option _ _ = none

-- `[col[j] for j in sel]`; `none` stands for the IndexError of a column that is too short
abbrev pub select {ℓ} : {A : Type ℓ} → List A → List ℕ → Option (List A)
select col [] = some []
select col (j ∷ js) = cons_option (get_elem? col j) (select col js)

module _ {F : Type 0} where
  abbrev part_of :
      ℕ
      → Option (List ℤ)
      → Option (List ℤ)
      → Option (List F)
      → Option (List F)
      → Option (List F)
      → Option (List F)
      → Option (List F)
      → Option (RecordBatch F)
  part_of seq (some ts) (some sid) (some te) (some hu) (some pr) (some ra) (some wi) =
      some (record {
        seq = seq;
        timestamp = ts;
        station_id = sid;
        temperature = te;
        humidity = hu;
        pressure = pr;
        rainfall = ra;
        wind_speed = wi;
      })
  part_of seq _ _ _ _ _ _ _ = none

  -- the part of a batch that goes to one worker
  unfoldable pub part : RecordBatch F → List ℕ → Option (RecordBatch F)
  part b sel =
      part_of b.seq (select b.timestamp sel) (select b.station_id sel) (select b.temperature sel)
        (select b.humidity sel) (select b.pressure sel) (select b.rainfall sel)
        (select b.wind_speed sel)

  -- The loop `for w in range(W)`, over the positions of each worker: the links after it, and whether
  -- it ran to its end. A worker with no position gets nothing.
  unfoldable pub send_parts :
      RecordBatch F → ℕ → List (List ℕ) → List (WorkerLink F) → List (WorkerLink F) × Bool
  unfolding part send_to
  send_parts b w [] links = (links, true)
  send_parts b w ([] ∷ idx) links = send_parts b (w + 1) idx links
  send_parts b w ((j ∷ js) ∷ idx) links = elim (part b (j ∷ js)) [
    | none ↦ (links, false)
    | some p ↦ send_parts b (w + 1) idx (send_to links w p)
  ]

  -- `_dispatch_station`
  unfoldable pub dispatch_station : List (WorkerLink F) → RecordBatch F → List (WorkerLink F) × Bool
  unfolding send_parts send_to
  dispatch_station links b =
      let n = length links in
      if nat_beq n 1
      then (send_to links 0 b, true)
      else send_parts b 0 (collect n (replicate n []) 0 b.station_id) links

  -- the method that `--dist` chose, for the batch with number `i`
  unfoldable pub dispatch :
      Text → List (WorkerLink F) → RecordBatch F → ℕ → List (WorkerLink F) × Bool
  unfolding dispatch_station dispatch_rr
  dispatch dist links b i =
      if text_beq dist (codes "station")
      then dispatch_station links b
      else (dispatch_rr links b i, true)

-- `rate_window.append(…)`, and its first 2048 entries dropped when it is longer than 4096
unfoldable pub push_rate {ℓ} : {A : Type ℓ} → List A → A → List A
push_rate w x = let w' = w ++ x ∷ [] in if ltb 4096 (length w') then drop 2048 w' else w'

module _ (f : Floats) where
  open f use {Float, zero_float, one_float, sub, quotient, lt, le, eq}

  -- `Coordinator.__init__`, with fresh workers at the addresses
  unfoldable pub coordinator : List (Text × Text) → Text → Coordinator Float
  coordinator addrs dist = record {
    links =
        map (λ a. record { addr = a.0; q = []; sent = 0; remote = (worker f a.1, no_ack) }) addrs;
    dist = dist;
    header = record { n = pos 0; k = pos 0; s = pos 0 };
    records_ingested = 0;
    batches = 0;
    active = false;
    complete = false;
    t_first = zero_float;
    t_last = zero_float;
    rate_window = [];
    query_count = 0;
  }

  -- the worker is reset and a new `Process` call begins
  unfoldable pub open_link : WorkerLink Float → WorkerLink Float
  open_link l = record l { remote = (reset f l.remote.0, no_ack) }

  -- The start of `StreamRecords`; `none` is the abort with FAILED_PRECONDITION.
  unfoldable pub open_session : Coordinator Float → Option (Coordinator Float)
  unfolding open_link
  open_session c =
      if c.active
      then none
      else some (record c {
        active = true;
        complete = false;
        records_ingested = 0;
        batches = 0;
        rate_window = [];
        links = map open_link c.links;
      })

  -- The state of the loop of `StreamRecords`: the coordinator, the local `i`, and whether no batch
  -- has come yet (`t_first is None`).
  pub record Session : Type 0 where
    pub coord : Coordinator Float
    pub i : ℕ
    pub first : Bool

  -- The first half of a round: the batch is distributed, outside of the lock; the flag is false if
  -- `dispatch` raised.
  unfoldable pub distribute : Session → RecordBatch Float → Float → Session × Bool
  unfolding dispatch
  distribute s b t =
      let c = s.coord in
      let (links, done) = dispatch c.dist c.links b s.i in
      (
        record {
          coord = record c { t_first = if s.first then t else c.t_first; links = links };
          i = if done then s.i + 1 else s.i;
          first = false;
        },
        done,
      )

  -- the second half, under the lock: the `n` records are counted
  unfoldable pub count_batch : Session → ℕ → Float → Session
  unfolding push_rate
  count_batch s n now =
      let c = s.coord in
      let total = c.records_ingested + n in
      record s {
        coord = record c {
          records_ingested = total;
          batches = c.batches + 1;
          rate_window = push_rate c.rate_window (now, total);
        };
      }

  -- One round of the loop; the flag is false if `dispatch` raised.
  unfoldable pub ingest : Session → IngestMessage Float → Session × Bool
  unfolding distribute count_batch
  ingest s (IngestMessage.header h) = (record s { coord = record s.coord { header = h } }, true)
  ingest s (IngestMessage.batch b t now) =
      let (s', done) = distribute s b t in
      if done then (count_batch s' (length b.timestamp) now, true) else (s', false)

  -- The sender thread of a link takes the oldest batch from its queue (`_gen`) and the worker folds
  -- it in.
  unfoldable pub deliver : WorkerLink Float → WorkerLink Float
  deliver l = elim l.q [ [] ↦ l | b ∷ q ↦ record l { q = q; remote = process_batch f l.remote b } ]

  -- `WorkerLink.close`: the sender sends what is left and ends, and the worker's `Process` returns
  unfoldable pub close : WorkerLink Float → WorkerLink Float
  close l = record l { q = []; remote = process_end f (foldl (process_batch f) l.remote l.q) }

  -- the end of `StreamRecords`
  unfoldable pub finish : Session → Float → Coordinator Float × IngestSummary Float
  unfolding close
  finish s t_end =
      let c = s.coord in
      let unset = s.first || eq c.t_first zero_float in
      let elapsed = sub t_end (if unset then t_end else c.t_first) in
      (
        record c { links = map close c.links; t_last = t_end; active = false; complete = true },
        record {
          records_received = c.records_ingested;
          batches_received = s.i;
          elapsed_seconds = elapsed;
          records_per_second =
              if eq elapsed zero_float then zero_float else quotient c.records_ingested elapsed;
        },
      )

  -- the loop of `_rate` over the reversed window: the first entry that is a second old decides
  rate_since : Float × ℕ → List (Float × ℕ) → Option Float
  rate_since now [] = none
  rate_since (t_now, r_now) ((t, r) ∷ w) =
      let older = rate_since (t_now, r_now) w in
      if le one_float (sub t_now t) then some (quotient (r_now - r) (sub t_now t)) else older

  rate_between : Float × ℕ → Float × ℕ → Float
  rate_between (t₀, r₀) (t_now, r_now) =
      if lt t₀ t_now then quotient (r_now - r₀) (sub t_now t₀) else zero_float

  -- `_rate`, on the window and on its reverse; the counts in it never fall
  rate_of : List (Float × ℕ) → List (Float × ℕ) → Float
  unfolding rate_since rate_between
  rate_of (first ∷ x ∷ w) (last ∷ back) =
      Option.get_or (rate_since last (last ∷ back)) (rate_between first last)
  rate_of w back = zero_float

  pub rate : Coordinator Float → Float
  unfolding rate_of
  rate c = rate_of c.rate_window (reverse c.rate_window)

  -- the fields of `pb.AnalyticsReport` that `GetAnalytics` sets beside those of `fill_report`
  pub record Analytics : Type 0 where
    pub statistics : AnalyticsReport Float
    pub header : Header
    pub stream_active : Bool
    pub stream_complete : Bool
    pub records_ingested : ℕ
    pub ingest_rate : Float
    pub elapsed_seconds : Float
    pub query_count : ℕ
    pub records_processed : ℕ
    pub workers : List WorkerInfo

  -- the answers to `GetPartial` off the wire, merged
  unfoldable pub merged_parts : List (PartialState Float) → Partial Float
  merged_parts parts = merge_all f (map (from_pb f) parts)

  -- what the workers would answer to `GetPartial` now
  abbrev pub partials : Coordinator Float → List (PartialState Float)
  partials c = map (λ l. get_partial f l.remote.0) c.links

  -- the merged answers of workers that are all asked now
  unfoldable pub merged : Coordinator Float → Partial Float
  unfolding merged_parts
  merged c = merged_parts (partials c)

  -- `a or b` on integers
  abbrev pub or_int : ℤ → ℤ → ℤ
  or_int a b = if beq_ℤ a (pos 0) then b else a

  -- `GetAnalytics`, from the lock on, in the state at the time `now`. The workers have been asked
  -- for their parts before, each at a moment of its own, and are asked for their infos after it;
  -- the costs of the query itself are not modelled.
  unfoldable pub get_analytics :
      Coordinator Float
      → List (PartialState Float)
      → List WorkerInfo
      → ℤ
      → Bool
      → Float
      → Coordinator Float × Analytics
  unfolding merged_parts rate
  get_analytics c parts infos top_k include_workers now =
      let m = merged_parts parts in
      let count = c.query_count + 1 in
      let end = (if c.complete then c.t_last else now) in
      (
        record c { query_count = count },
        record {
          statistics = fill_report f m (or_int top_k c.header.k);
          header = c.header;
          stream_active = c.active;
          stream_complete = c.complete;
          records_ingested = c.records_ingested;
          ingest_rate = if c.active then rate c else zero_float;
          elapsed_seconds = if eq c.t_first zero_float then zero_float else sub end c.t_first;
          query_count = count;
          records_processed = m.count;
          workers = if include_workers then infos else [];
        },
      )
