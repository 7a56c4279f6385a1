-- ===== src/Weather/Coordinator/Window.antt =====
-- The session flag and the rate window of section2/q2_grpc/coordinator.py, during a session and after.
use dist_compute.Base.{
  ℕ, zero, suc, ◌≤◌, ◌≡◌, refl, Bool, true, false, Option, none, some, List, [], ◌∷◌, ◌++◌, arith,
  ltb, if◌then◌else◌, length, drop, All, All-append, length-append, length-drop, inl, inr,
  Bool-cases,
}
use dist_compute.Weather.Floats.{Floats, FloatLaws}
use dist_compute.Weather.Dataset.{columns}
use dist_compute.Weather.Coordinator.{
  Coordinator, IngestMessage, Session, ingest, distribute, count_batch, dispatch, open_session,
  finish, push_rate,
}
use dist_compute.Weather.Coordinator.Sessions.{Step, header, batch, take, play}

-- the counts of a window do not fall, and none is above `n`
abbrev pub Rising : {F : Type 0} → List (F × ℕ) → ℕ → Type 0
Rising [] n = Unit
Rising (x ∷ w) n = (x.1 ≤ n) × All (λ y. x.1 ≤ y.1) w × Rising w n

module _ {F : Type 0} where
  Rising-push :
      (w : List (F × ℕ)) (t : F) (n m : ℕ) → n ≤ m → Rising w n → Rising (w ++ (t, m) ∷ []) m
  Rising-push [] t n m le h = (omega arith, tt, tt)
  Rising-push (x ∷ w) t n m le h = (
    omega (arith, h.0),
    All-append _ w _ h.1 (omega (arith, h.0), tt),
    Rising-push w t n m le h.2,
  )

  Rising-drop : (k : ℕ) (w : List (F × ℕ)) (n : ℕ) → Rising w n → Rising (drop k w) n
  Rising-drop zero w n h = h
  Rising-drop (suc k) [] n h = tt
  Rising-drop (suc k) (x ∷ w) n h = Rising-drop k w n h.2

  abbrev pub Windowed : List (F × ℕ) → ℕ → Type 0
  Windowed w n = (length w ≤ 4096) × Rising w n

  push_rate-Windowed :
      (w : List (F × ℕ)) (t : F) (n m : ℕ) → n ≤ m → Windowed w n → Windowed (push_rate w (t, m)) m
  unfolding push_rate
  push_rate-Windowed w t n m le h =
      let w' = w ++ (t, m) ∷ [] in
      let rising = Rising-push w t n m le h.1 in
      elim (Bool-cases (ltb 4096 (length w'))) [
        | inl long ↦ rw long (
          omega (arith, length-drop 2048 w', length-append w ((t, m) ∷ []), h.0),
          Rising-drop 2048 w' m rising,
        )
        | inr short ↦ rw short (ground (arith, short), rising)
      ]

module _ (f : Floats) (laws : FloatLaws f) where
  open f use {Float}

  -- a session that runs, with its window
  abbrev Runs : Session f → Type 0
  Runs s = (s.coord.active ≡ true) × Windowed s.coord.rate_window s.coord.records_ingested

  if-Runs : (b : Bool) (x y : Session f × Bool) → Runs x.0 → Runs y.0 → Runs (if b then x else y).0
  if-Runs true x y h k = h
  if-Runs false x y h k = k

  ingest-Runs : (s : Session f) (m : IngestMessage Float) → Runs s → Runs (ingest f s m).0
  unfolding ingest distribute count_batch
  ingest-Runs s (IngestMessage.header h) r = r
  ingest-Runs s (IngestMessage.batch b t now) r =
      if-Runs (dispatch s.coord.dist s.coord.links b s.i).1 _ _
        (
          r.0,
          push_rate-Windowed s.coord.rate_window now s.coord.records_ingested _ (omega arith) r.1,
        )
        r

  play-Runs : (es : List (Step Float)) (s : Session f) → Runs s → Runs (play f laws es s).0
  unfolding play
  play-Runs [] s r = r
  play-Runs (header h ∷ es) s r =
      play-Runs es (ingest f s (IngestMessage.header h)).0
        (ingest-Runs s (IngestMessage.header h) r)
  play-Runs (batch seq rs t now ∷ es) s r =
      let m = IngestMessage.batch (columns seq rs) t now in
      let (s', done) = ingest f s m in
      let r' = ingest-Runs s m r in
      if-Runs done (play f laws es s') (s', false) (play-Runs es s' r') r'
  play-Runs (take w ∷ es) s r = play-Runs es _ r

  -- a session that begins in the coordinator's state
  abbrev Begins : Option (Coordinator Float) → Type 0
  Begins none = Unit
  Begins (some c) = Runs (record { coord = c; i = 0; first = true })

  open_session-Begins : (c : Coordinator Float) → Begins (open_session f c)
  unfolding open_session
  open_session-Begins c = elim (Bool-cases c.active) [
    | inl busy ↦ rw (Begins, open_session, busy) tt
    | inr idle ↦ rw (Begins, open_session, idle) (refl, (omega arith, tt))
  ]

  open_session-Runs :
      (c c' : Coordinator Float)
      → open_session f c ≡ some c'
      → Runs (record { coord = c'; i = 0; first = true })
  open_session-Runs c c' e = let b : Begins (some c') = rw e at (open_session-Begins c) in b

  -- Sessions exclude each other: once StreamRecords has begun, whatever messages and deliveries come and
  -- even if a dispatch raises, another StreamRecords is refused; once the session has finished, the
  -- next one is accepted.
  pub sessions_exclude :
      (c c' : Coordinator Float) (es : List (Step Float)) (t_end : Float)
      → open_session f c ≡ some c'
      → let s = (play f laws es (record { coord = c'; i = 0; first = true })).0 in
        (open_session f s.coord ≡ none)
        × ((next : Coordinator Float) × (open_session f (finish f s t_end).0 ≡ some next))
  unfolding open_session finish
  sessions_exclude c c' es t_end e =
      let r =
        play-Runs es (record { coord = c'; i = 0; first = true }) (open_session-Runs c c' e) in
      (rw r.0 refl, (_, refl))

  -- The rate window of a session has at most 4096 entries after any messages and deliveries, the counts
  -- in it do not fall, and none is above the number of records that have come.
  pub rate_window-Windowed :
      (c c' : Coordinator Float) (es : List (Step Float))
      → open_session f c ≡ some c'
      → let s = (play f laws es (record { coord = c'; i = 0; first = true })).0 in
        Windowed s.coord.rate_window s.coord.records_ingested
  rate_window-Windowed c c' es e =
      (play-Runs es (record { coord = c'; i = 0; first = true }) (open_session-Runs c c' e)).1
