-- ===== src/Weather/Coordinator/Queries.antt =====
-- A query of section2/q2_grpc/coordinator.py during an ingest session: the workers are asked at
-- different moments, between which the session goes on; a batch is counted after it is distributed.
use dist_compute.Base.{
  ℕ, zero, suc, ◌+◌, ◌<◌, ◌≡◌, Bool, true, false, Option, none, some, List, [], ◌∷◌, ◌++◌, map,
  length,
}
use dist_compute.Weather.Floats.{Floats, FloatLaws}
use dist_compute.Weather.Data.{Row, PartialState}
use dist_compute.Weather.Accum.Spec.{Summarises}
use dist_compute.Weather.Dataset.{Header, columns}
use dist_compute.Weather.Wire.{from_pb}
use dist_compute.Weather.Worker.{get_partial}
use dist_compute.Weather.Coordinator.{
  WorkerLink, Coordinator, IngestMessage, Session, ingest, distribute, count_batch,
}
use dist_compute.Weather.Coordinator.Accounts.{Accounts, deliver_at}

-- The coordinator takes a header; it distributes a batch of `iter_batches`, read at a time; it
-- counts that batch, at a time; the sender of a link delivers a batch; the query asks a worker.
pub data Event (F : Type 0) : Type 0 where
  heads : Header → Event F
  sends : ℕ → List (Row F) → F → Event F
  counts : F → Event F
  takes : ℕ → Event F
  asks : ℕ → Event F

-- the records of the batches that were distributed
abbrev pub came : {F : Type 0} → List (Event F) → List (Row F)
came [] = []
came (sends seq rs t ∷ es) = rs ++ came es
came (heads h ∷ es) = came es
came (counts now ∷ es) = came es
came (takes w ∷ es) = came es
came (asks w ∷ es) = came es

-- the answers that the query has got
abbrev pub present {ℓ} : {A : Type ℓ} → List (Option A) → List A
present [] = []
present (none ∷ ps) = present ps
present (some p ∷ ps) = p ∷ present ps

-- whether all workers have answered
abbrev pub answered {ℓ} : {A : Type ℓ} → List (Option A) → Bool
answered [] = true
answered (none ∷ ps) = false
answered (some p ∷ ps) = answered ps

-- the records of a batch that is not counted yet
abbrev pub uncounted : Option ℕ → ℕ
uncounted none = 0
uncounted (some n) = n

module _ (f : Floats) (laws : FloatLaws f) where
  open f use {Float}

  -- The session; the local `n` between the distribution of a batch and its count; and what each
  -- worker has answered to the query.
  pub record Moment : Type 0 where
    pub session : Session f
    pub waits : Option ℕ
    pub parts : List (Option (PartialState Float))

  -- the answer of worker `w`
  unfoldable pub ask_at :
      List (WorkerLink Float)
      → List (Option (PartialState Float))
      → ℕ
      → List (Option (PartialState Float))
  ask_at (l ∷ ls) (p ∷ ps) zero = some (get_partial f l.remote.0) ∷ ps
  ask_at (l ∷ ls) (p ∷ ps) (suc w) = p ∷ ask_at ls ps w
  ask_at _ ps w = ps

  abbrev sent : Moment → Session f × Bool → ℕ → Option Moment
  sent m (s, true) n = some (record m { session = s; waits = some n })
  sent m (s, false) n = none

  -- The moment after an event; `none` if the loop of `StreamRecords` is elsewhere, or ended by a
  -- `dispatch` that raises.
  unfoldable pub event : Event Float → Moment → Option Moment
  unfolding ask_at
  event (heads h) m = elim m.waits [
    | none ↦ some (record m { session = (ingest f m.session (IngestMessage.header h)).0 })
    | some n ↦ none
  ]
  event (sends seq rs t) m = elim m.waits [
    | none ↦ let b = columns seq rs in sent m (distribute f m.session b t) (length b.timestamp)
    | some n ↦ none
  ]
  event (counts now) m = elim m.waits [
    | none ↦ none
    | some n ↦ some (record m { session = count_batch f m.session n now; waits = none })
  ]
  event (takes w) m =
      let s = m.session in
      some (record m {
        session = record s { coord = record s.coord { links = deliver_at f laws s.coord.links w } };
      })
  event (asks w) m = some (record m { parts = ask_at m.session.coord.links m.parts w })

  then_events : (Moment → Option Moment) → Option Moment → Option Moment
  then_events go none = none
  then_events go (some m) = go m

  unfoldable pub events : List (Event Float) → Moment → Option Moment
  unfolding then_events
  events [] m = some m
  events (e ∷ es) m = then_events (events es) (event e m)

  -- a session that has just begun, and a query that has asked nobody
  abbrev pub begun : Coordinator Float → Moment
  begun c = record {
    session = record { coord = c; i = 0; first = true };
    waits = none;
    parts = map (λ l. none) c.links;
  }

  -- a query begins, which has asked nobody
  abbrev pub query_begins : Moment → Moment
  query_begins m = record m { parts = map (λ l. none) m.session.coord.links }

  -- the answer describes some of the records that the worker has seen by now
  abbrev Told : Option (PartialState Float) → List (Row Float) → Type 0
  Told none t = t ≡ []
  Told (some q) t = Summarises f (from_pb f q) t

  -- the records told begin with those of the base
  abbrev Fresh : Option (PartialState Float) → List (Row Float) → List (Row Float) → Type 0
  Fresh none base t = Unit {0}
  Fresh (some q) base t = (extra : List (Row Float)) × (t ≡ base ++ extra)

  -- `base` is what the worker had seen when the query began, `rs` what it has seen by now
  record Asked (p : Option (PartialState Float)) (base rs : List (Row Float)) : Type 0 where
    grown : List (Row Float)
    grows : base ++ grown ≡ rs
    told : List (Row Float)
    since : List (Row Float)
    whole : told ++ since ≡ rs
    tells : Told p told
    fresh : Fresh p base told

  abbrev AllAsked :
      List (Option (PartialState Float))
      → List (List (Row Float))
      → List (List (Row Float))
      → Type 0
  AllAsked [] [] [] = Unit
  AllAsked [] [] (rs ∷ seen) = ⊥
  AllAsked [] (b ∷ bases) seen = ⊥
  AllAsked (p ∷ ps) [] seen = ⊥
  AllAsked (p ∷ ps) (b ∷ bases) [] = ⊥
  AllAsked (p ∷ ps) (b ∷ bases) (rs ∷ seen) = Asked p b rs × AllAsked ps bases seen

  -- an invariant of the moments: all records are accounted for, and the answers describe some
  record Holds (bases : List (List (Row Float))) (m : Moment) (all : List (Row Float))
      : Type 0 where
    seen : List (List (Row Float))
    accounts : Accounts f laws m.session.coord.links seen all
    workers : 0 < length m.session.coord.links
    counted : m.session.coord.records_ingested + uncounted m.waits ≡ length all
    asked : AllAsked m.parts bases seen

  -- what an event brings
  abbrev brought : Event Float → List (Row Float)
  brought (sends seq rs t) = rs
  brought (heads h) = []
  brought (counts now) = []
  brought (takes w) = []
  brought (asks w) = []
