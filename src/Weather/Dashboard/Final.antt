-- ===== src/Weather/Dashboard/Final.antt =====
-- What section2/q2_grpc/dashboard.py prints with --final, together with the coordinator.
use dist_compute.Base.{◌≡◌, refl, true, false, some, List, [], ◌∷◌, ◌++◌, All}
use dist_compute.Base.Int.{ℤ}
use dist_compute.Weather.Floats.{Floats, FloatLaws}
use dist_compute.Weather.Data.{Partial}
use dist_compute.Weather.Accum.Spec.{Summarises}
use dist_compute.Weather.Report.{report_lines, fill_report}
use dist_compute.Weather.Coordinator.{
  Coordinator, IngestSummary, Analytics, get_analytics, merged, partials, or_int,
}
use dist_compute.Weather.Coordinator.Sessions.{Step, arrived, Ready, stream_records, session_exact}
use dist_compute.Weather.Dashboard.{Reply, final_report, await_final}

module _ (f : Floats) where
  open f use {Float}

  -- the answer that reaches the dashboard, without the figures of the costs
  abbrev pub reply : Analytics f → Reply f
  reply a = record { analytics = a; workers = []; merge_ms = f.zero_float }

  -- the first complete answer is printed
  await_final_complete :
      (early late : List (Reply f)) (r : Reply f)
      → All (λ (e : Reply f). e.analytics.stream_complete ≡ false) early
      → r.analytics.stream_complete ≡ true
      → await_final f true (early ++ r ∷ late)
        ≡ some (final_report (report_lines f r.analytics.statistics))
  unfolding await_final
  await_final_complete [] late r h complete = rw (await_final, complete) refl
  await_final_complete (e ∷ early) late r h complete =
      rw (await_final, h.0) (await_final_complete early late r h.1 complete)

  module _ (laws : FloatLaws f) where
    -- A file from the coordinator to the screen: for a session of `StreamRecords` on a coordinator with
    -- a worker, no active session and no waiting batch, whatever incomplete answers come before,
    -- `--final --wait` waits for the first complete one, and if its query asked the workers after the
    -- end of the session, it prints the report of a state that describes exactly the records that
    -- arrived, with the requested number of stations, or the one of the data set if none is
    -- requested.
    pub await_final-finish :
        (early late : List (Reply f)) (c : Coordinator Float) (es : List (Step Float))
        (t_end now : Float) (top_k : ℤ)
        → Ready f laws c
        → All (λ (r : Reply f). r.analytics.stream_complete ≡ false) early
        → (done : Coordinator Float) × (summary : IngestSummary Float) × (p : Partial Float)
          × (stream_records f laws c es t_end ≡ some (done, summary))
          × Summarises f p (arrived es)
          × (await_final f true (
                early ++ reply (get_analytics f done (partials f done) [] top_k false now).1 ∷ late)
              ≡ some
                  (final_report (report_lines f (fill_report f p (or_int f top_k done.header.k)))))
    unfolding get_analytics merged
    await_final-finish early late c es t_end now top_k r h =
        let (done, summary, ran, exact, _, complete, _) = session_exact f laws c es t_end r in
        (
          done,
          summary,
          merged f done,
          ran,
          exact,
          await_final_complete early late
              (reply (get_analytics f done (partials f done) [] top_k false now).1) h complete,
        )
