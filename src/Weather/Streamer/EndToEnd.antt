-- ===== src/Weather/Streamer/EndToEnd.antt =====
-- From a file through section2/q2_grpc's streamer.py and coordinator.py to the merged answer.
use mathlib.Core.List.{flatten}
use dist_compute.Base.{
  ℕ, ◌+◌, ◌<◌, ◌≡◌, refl, sym, ap, ◌∙◌, some, List, [], ◌∷◌, ◌++◌, arith, if◌then◌else◌, nat_beq,
  take, length, length-append,
}
use dist_compute.Base.Text.{Text}
use dist_compute.Weather.Floats.{Floats, FloatLaws}
use dist_compute.Weather.Data.{Row, RecordBatch, rows}
use dist_compute.Weather.Accum.Spec.{Summarises}
use dist_compute.Weather.Dataset.{Header, Ending, returned, columns, read_header, iter_batches}
use dist_compute.Weather.Dataset.Batches.{Reads, numbered, iter_batches_lem}
use dist_compute.Weather.Coordinator.{Coordinator, IngestSummary, merged}
use dist_compute.Weather.Coordinator.Stations.{zip-columns}
use dist_compute.Weather.Coordinator.Sessions.{
  Step, arrived, Ready, stream_records, session_exact, length-columns,
}
use dist_compute.Weather.Streamer.{Message, header, batch, Stats, gen, gen_batches, stream_file}

module _ {F : Type 0} where
  -- the messages among the steps of a session
  abbrev pub messages : List (Step F) → List (Message F)
  messages [] = []
  messages (Step.header h ∷ es) = header h ∷ messages es
  messages (Step.batch seq rs t now ∷ es) = batch (columns seq rs) ∷ messages es
  messages (Step.take w ∷ es) = messages es

  message_rows : List (Message F) → List (Row F)
  message_rows [] = []
  message_rows (header h ∷ ms) = message_rows ms
  message_rows (batch b ∷ ms) = rows b ++ message_rows ms

  arrived-messages : (es : List (Step F)) → arrived es ≡ message_rows (messages es)
  unfolding message_rows
  arrived-messages [] = refl
  arrived-messages (Step.header h ∷ es) = arrived-messages es
  arrived-messages (Step.batch seq rs t now ∷ es) =
      rw zip-columns (ap (◌++◌ rs) (arrived-messages es))
  arrived-messages (Step.take w ∷ es) = arrived-messages es

  gen-rows :
      (seq : ℕ) (chunks : List (List (Row F))) (s : Stats)
      → message_rows (gen_batches (numbered seq chunks) s).0 ≡ flatten chunks
  unfolding message_rows gen_batches flatten
  gen-rows seq [] s = refl
  gen-rows seq (c ∷ cs) s = rw zip-columns (ap (◌++◌ c) (gen-rows (seq + 1) cs _))

module _ (f : Floats) (laws : FloatLaws f) where
  open f use {Float}

  stream_file-lem :
      (lines ls : List Text) (h : Header) (batch_size limit : ℕ) (bs : List (RecordBatch Float))
      (e : Ending)
      → read_header lines ≡ some (h, ls)
      → iter_batches f ls batch_size limit ≡ (bs, e)
      → stream_file f lines batch_size limit ≡ some (gen h bs, e)
  unfolding stream_file
  stream_file-lem lines ls h batch_size limit bs e head made = rw (head, made) refl

  gen-records :
      (seq : ℕ) (chunks : List (List (Row Float))) (s : Stats)
      → (gen_batches (numbered seq chunks) s).1.records ≡ s.records + length (flatten chunks)
  unfolding gen_batches flatten
  gen-records seq [] s = omega arith
  gen-records seq (c ∷ cs) s =
      omega (arith, gen-records (seq + 1) cs _, length-columns seq c, length-append c (flatten cs))

  gen-count :
      (h : Header) (chunks : List (List (Row Float)))
      → (gen h (numbered 0 chunks)).1.records ≡ length (flatten chunks)
  unfolding gen
  gen-count h chunks = omega (arith, gen-records 0 chunks (record { records = 0; batches = 0 }))

  -- A file with a header and lines that all hold a record is streamed, in batches of at least one
  -- record, to a coordinator that has a worker, no active session and no waiting batch, the
  -- deliveries to the workers coming at any points between the messages: the streamer's reading
  -- returns, the session succeeds, after it the merged state of the workers describes exactly the
  -- records of the file, up to the limit if one is set, and streamer and coordinator count the same
  -- number of records.
  pub streamed_exact :
      (lines ls : List Text) (h : Header) (rs : List (Row Float)) (batch_size limit : ℕ)
      (stats : Stats) (ending : Ending) (c : Coordinator Float) (es : List (Step Float))
      (t_end : Float)
      → read_header lines ≡ some (h, ls)
      → Reads f ls rs
      → 0 < batch_size
      → stream_file f lines batch_size limit ≡ some ((messages es, stats), ending)
      → Ready f laws c
      → (done : Coordinator Float) × (summary : IngestSummary Float) × (stream_records f laws c es
            t_end
          ≡ some (done, summary))
        × Summarises f (merged f done) (if nat_beq limit 0 then rs else take limit rs)
        × (stats.records ≡ summary.records_received)
        × (ending ≡ returned)
  streamed_exact lines ls h rs batch_size limit stats ending c es t_end head reads size sent ready =
      let (chunks, made, flat, fits) = iter_batches_lem f ls rs batch_size limit size reads in
      let (done, summary, ran, exact, counted, complete, again) =
        session_exact f laws c es t_end ready in
      let file =
        stream_file-lem lines ls h batch_size limit (numbered 0 chunks) returned head made in
      let same_ms : (gen h (numbered 0 chunks)).0 ≡ messages es = cc (file, sent) in
      let same_stats : (gen h (numbered 0 chunks)).1 ≡ stats = cc (file, sent) in
      let all_rows : arrived es ≡ flatten chunks =
        arrived-messages es ∙ rw (← same_ms) (unfold gen message_rows in gen-rows 0 chunks _) in
      (
        done,
        summary,
        ran,
        rw (all_rows, flat) at exact,
        ap (λ (x : Stats). x.records) (sym same_stats)
            ∙ gen-count h chunks
            ∙ ap length (sym all_rows)
            ∙ sym counted,
        cc (file, sent),
      )
