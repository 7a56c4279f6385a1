-- ===== src/Weather/Streamer.antt =====
-- section2/q2_grpc/streamer.py: the messages that it sends for a data set, and its counts. The pace
-- that `--rate` sets, its clocks and the CSV file are not modelled; whether the batches are made
-- ahead (`--preload`) makes no difference to the messages.
pub mod EndToEnd
use mathlib.Core.Option
use dist_compute.Base.{ℕ, ◌+◌, Option, none, some, List, [], ◌∷◌, ◌++◌, foldl, length}
use dist_compute.Base.Int.{ℤ}
use dist_compute.Base.Text.{Text, codes, decimal}
use dist_compute.Weather.Floats.{Floats, Measures}
use dist_compute.Weather.Report.{int_text}
use dist_compute.Weather.Data.{RecordBatch}
use dist_compute.Weather.Dataset.{Header, Ending, read_header, iter_batches}

-- `pb.IngestMessage`
pub data Message (F : Type 0) : Type 0 where
  header : Header → Message F
  batch : RecordBatch F → Message F

-- the part of `stats` that counts
pub record Stats : Type 0 where
  pub records : ℕ
  pub batches : ℕ

-- what the generator yields for the batches, and its counts after each
pub gen_batches : {F : Type 0} → List (RecordBatch F) → Stats → List (Message F) × Stats
gen_batches [] s = ([], s)
gen_batches (b ∷ bs) s =
    let (ms, s') =
      gen_batches bs
        (record { records = s.records + length b.timestamp; batches = s.batches + 1 }) in
    (batch b ∷ ms, s')

-- `gen`
pub gen : {F : Type 0} → Header → List (RecordBatch F) → List (Message F) × Stats
unfolding gen_batches
gen h bs = let (ms, s) = gen_batches bs (record { records = 0; batches = 0 }) in (header h ∷ ms, s)

module _ (f : Floats) where
  open f use {Float}

  -- what `main` sends for the file, its counts, and how its reading ends; `none` stands for the
  -- ValueError of a header that is none
  unfoldable pub stream_file : List Text → ℕ → ℕ → Option ((List (Message Float) × Stats) × Ending)
  unfolding gen
  stream_file lines batch_size limit =
      Option.map
        (λ x. let (bs, ending) = iter_batches f x.1 batch_size limit in (gen x.0 bs, ending))
        (read_header lines)

module _ (f : Floats) (m : Measures f.Float) where
  -- the line that `main` prints at the end, for the batch size, the time between the first batch and
  -- the summary, the rate and the figures of the summary
  unfoldable pub streamed_line : Stats → ℤ → f.Float → f.Float → f.Float → f.Float → Text
  streamed_line s batch_size wall rate coord_rate elapsed =
      codes "streamed "
      ++ decimal s.records
      ++ codes " records in "
      ++ decimal s.batches
      ++ codes " batches of "
      ++ int_text batch_size
      ++ codes ": wall "
      ++ m.format (codes ".2f") wall
      ++ codes "s -> "
      ++ m.format (codes ",.0f") rate
      ++ codes " rec/s (streamer)  "
      ++ m.format (codes ",.0f") coord_rate
      ++ codes " rec/s (coordinator, "
      ++ m.format (codes ".2f") elapsed
      ++ codes "s)"
