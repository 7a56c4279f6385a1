-- ===== src/Weather/Data.antt =====
-- The data of section2/q2_grpc: the state that common.py keeps, and the messages of weather.proto
-- that carry it. `Extremum` is both a class of common.py and a message with the same fields.
use dist_compute.Base.{ℕ, Bool, List, [], ◌∷◌}
use dist_compute.Base.Int.{ℤ}
use dist_compute.Base.Dict.{Dict}
use dist_compute.Base.Text.{Text}

-- The records, over the type of floats.
module _ (F : Type 0) where
  -- `KSum`, Neumaier's compensated sum
  pub record KSum : Type 0 where
    pub s : F
    pub c : F

  -- `Extremum`, on the wire too
  pub record Extremum : Type 0 where
    pub valid : Bool
    pub temp : F
    pub station : ℤ
    pub ts : ℤ

  -- an entry `[count, KSum temp, KSum rain]` of the table of stations
  pub record Station : Type 0 where
    pub count : ℕ
    pub temp : KSum
    pub rain : KSum

  pub record Partial : Type 0 where
    pub count : ℕ
    pub extreme : ℕ
    pub sum_t : KSum
    pub sum_h : KSum
    pub sum_p : KSum
    pub sum_rain : KSum
    pub sum_wind : KSum
    pub min_t : F
    pub max_t : F
    pub min_h : F
    pub max_h : F
    pub min_p : F
    pub max_p : F
    pub max_rain : F
    pub max_wind : F
    pub hottest : Extremum
    pub coldest : Extremum
    pub stations : Dict ℤ Station
    pub intervals : Dict ℤ ℕ
    pub batches_applied : ℕ

  -- `pb.RecordBatch`: one list for each column
  pub record RecordBatch : Type 0 where
    pub seq : ℕ
    pub timestamp : List ℤ
    pub station_id : List ℤ
    pub temperature : List F
    pub humidity : List F
    pub pressure : List F
    pub rainfall : List F
    pub wind_speed : List F

  -- what the loop over a batch names, record by record
  pub record Row : Type 0 where
    pub ts : ℤ
    pub sid : ℤ
    pub temp : F
    pub hum : F
    pub pres : F
    pub rain : F
    pub wind : F

  -- `pb.StationPartial` and `pb.IntervalPartial`
  pub record StationPartial : Type 0 where
    pub station : ℤ
    pub count : ℕ
    pub temp_sum : F
    pub rain_sum : F

  pub record PartialState : Type 0 where
    pub count : ℕ
    pub extreme : ℕ
    pub sum_t : F
    pub sum_h : F
    pub sum_p : F
    pub sum_rain : F
    pub sum_wind : F
    pub min_t : F
    pub max_t : F
    pub min_h : F
    pub max_h : F
    pub min_p : F
    pub max_p : F
    pub max_rain : F
    pub max_wind : F
    pub hottest : Extremum
    pub coldest : Extremum
    pub stations : List StationPartial
    pub intervals : List (ℤ × ℕ)
    pub batches_applied : ℕ
    pub worker_id : Text

-- `zip` of the seven columns, which stops at the shortest
unfoldable pub zip_columns :
    {F : Type 0} → List ℤ → List ℤ → List F → List F → List F → List F → List F → List (Row F)
zip_columns (t ∷ ts) (s ∷ ss) (a ∷ te) (h ∷ hu) (p ∷ pr) (r ∷ ra) (w ∷ wi) =
    record { ts = t; sid = s; temp = a; hum = h; pres = p; rain = r; wind = w }
    ∷ zip_columns ts ss te hu pr ra wi
zip_columns _ _ _ _ _ _ _ = []

unfoldable pub rows : {F : Type 0} → RecordBatch F → List (Row F)
unfolding zip_columns
rows b =
    zip_columns b.timestamp b.station_id b.temperature b.humidity b.pressure b.rainfall b.wind_speed
