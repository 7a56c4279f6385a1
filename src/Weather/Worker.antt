-- ===== src/Weather/Worker.antt =====
-- section2/q2_grpc/worker.py. Each piece of code that runs under the worker's lock is one step; the
-- loop of `Process` takes the lock anew for each batch, so other calls may come between.
use dist_compute.Base.{ℕ, ◌+◌}
use dist_compute.Base.Text.{Text}
use dist_compute.Weather.Floats.{Floats}
use dist_compute.Weather.Data.{Partial, PartialState, RecordBatch}
use dist_compute.Weather.Accum.{empty, add_batch}
use dist_compute.Weather.Wire.{to_pb}

-- `Worker`; the clock `t0` only dates the CPU seconds that `GetInfo` reports
pub record Worker (F : Type 0) : Type 0 where
  pub id : Text
  pub state : Partial F
  pub records : ℕ

-- `pb.WorkerAck`, and the two locals of `Process` that it is made of
pub record WorkerAck : Type 0 where
  pub records_processed : ℕ
  pub batches_processed : ℕ

-- `pb.WorkerInfo`, without the CPU time and the memory of the process
pub record WorkerInfo : Type 0 where
  pub worker_id : Text
  pub records_processed : ℕ

abbrev pub no_ack : WorkerAck
no_ack = record { records_processed = 0; batches_processed = 0 }

module _ (f : Floats) where
  open f use {Float}

  unfoldable pub worker : Text → Worker Float
  worker id = record { id = id; state = empty f; records = 0 }

  -- one round of the loop of `Process`
  unfoldable pub process_batch :
      Worker Float × WorkerAck → RecordBatch Float → Worker Float × WorkerAck
  process_batch (w, a) b =
      let (state, n) = add_batch f w.state b in
      (
        record w { state = state },
        record {
          records_processed = a.records_processed + n;
          batches_processed = a.batches_processed + 1;
        },
      )

  -- the end of `Process`
  unfoldable pub process_end : Worker Float × WorkerAck → Worker Float × WorkerAck
  process_end (w, a) = (record w { records = w.records + a.records_processed }, a)

  unfoldable pub get_partial : Worker Float → PartialState Float
  get_partial w = to_pb f w.id w.state

  pub get_info : Worker Float → WorkerInfo
  get_info w = record { worker_id = w.id; records_processed = w.state.count }

  unfoldable pub reset : Worker Float → Worker Float
  reset w = record w { state = empty f; records = 0 }
