-- ===== src/Weather/Dataset.antt =====
-- section2/q2_grpc/common.py, the data set: its header and its records in columnar batches. A file
-- is the list of the lines that are left, each with its newline.
pub mod Batches
use mathlib.Core.Option
use dist_compute.Base.{
  ℕ, zero, suc, ◌+◌, Bool, true, false, not, ◌&&◌, Option, none, some, List, [], ◌∷◌, map, leb,
  nat_beq, if◌then◌else◌, length,
}
use dist_compute.Base.Int.{ℤ}
use dist_compute.Base.Text.{Text}
use dist_compute.Base.Text.Parse.{split_words, int_of_text}
use dist_compute.Weather.Floats.{Floats}
use dist_compute.Weather.Data.{RecordBatch, Row}

-- `pb.Header`
pub record Header : Type 0 where
  pub n : ℤ
  pub k : ℤ
  pub s : ℤ

-- the three integers of the first line; anything else raises ValueError
header_of : List Text → Option Header
header_of (a ∷ b ∷ c ∷ []) = Option.bind (int_of_text a) λ n.
    Option.bind (int_of_text b)
      λ k. Option.map (λ s. record { n = n; k = k; s = s }) (int_of_text c)
header_of _ = none

-- `fh.readline()`: an empty text at the end of the file
read_line : List Text → Text × List Text
read_line [] = ([], [])
read_line (l ∷ ls) = (l, ls)

-- `read_header`
unfoldable pub read_header : List Text → Option (Header × List Text)
unfolding header_of read_line
read_header lines =
    let (line, rest) = read_line lines in Option.map (λ h. (h, rest)) (header_of (split_words line))

-- how an iteration ends: it returns, or `int` or `float` raises
pub data Ending : Type 0 where
  returned value_error : Ending

-- the seven columns of a batch
unfoldable pub columns : {F : Type 0} → ℕ → List (Row F) → RecordBatch F
columns seq rs = record {
  seq = seq;
  timestamp = map (λ r. r.ts) rs;
  station_id = map (λ r. r.sid) rs;
  temperature = map (λ r. r.temp) rs;
  humidity = map (λ r. r.hum) rs;
  pressure = map (λ r. r.pres) rs;
  rainfall = map (λ r. r.rain) rs;
  wind_speed = map (λ r. r.wind) rs;
}

module _ (f : Floats) where
  open f use {Float, of_text}

  -- the fields of a line that has seven of them
  pub row_of : Text → Text → Text → Text → Text → Text → Text → Option (Row Float)
  row_of a b c d e g h = Option.bind (int_of_text a) λ ts. Option.bind (int_of_text b) λ sid.
      Option.bind (of_text c) λ temp. Option.bind (of_text d) λ hum. Option.bind (of_text e) λ pres.
        Option.bind (of_text g) λ rain.
          Option.map
            (λ wind. record {
              ts = ts;
              sid = sid;
              temp = temp;
              hum = hum;
              pres = pres;
              rain = rain;
              wind = wind;
            })
            (of_text h)

  -- what a line holds
  pub data Line : Type 0 where
    other bad : Line
    row : Row Float → Line

  pub line_of_row : Option (Row Float) → Line
  line_of_row none = bad
  line_of_row (some r) = row r

  line_of_words : List Text → Line
  unfolding row_of line_of_row
  line_of_words (a ∷ b ∷ c ∷ d ∷ e ∷ g ∷ h ∷ []) = line_of_row (row_of a b c d e g h)
  line_of_words _ = other

  -- a line without seven fields is skipped; one with a field that is no number raises
  unfoldable pub line_of : Text → Line
  unfolding line_of_words
  line_of line = line_of_words (split_words line)

  -- Where the inner loop stops: the records read, the lines left, the count of records, and how.
  pub record Filled : Type 0 where
    pub got : List (Row Float)
    pub rest : List Text
    pub sent : ℕ
    pub ending : Ending

  abbrev pub with_row : Row Float → Filled → Filled
  with_row r x = record x { got = r ∷ x.got }

  abbrev pub stop : List Text → ℕ → Ending → Filled
  stop rest sent ending = record { got = []; rest = rest; sent = sent; ending = ending }

  -- `limit and sent >= limit`
  abbrev pub at_limit : ℕ → ℕ → Bool
  at_limit limit sent = not (nat_beq limit 0) && leb limit sent

  -- the loop `for _ in range(batch_size)`
  pub fill : ℕ → ℕ → List Text → ℕ → Filled
  fill limit zero lines sent = stop lines sent returned
  fill limit (suc n) [] sent = stop [] sent returned
  fill limit (suc n) (line ∷ lines) sent = elim (line_of line) [
    | other ↦ fill limit n lines sent
    | bad ↦ stop lines sent value_error
    | row r ↦
        let more = fill limit n lines (sent + 1) in
        with_row r (if at_limit limit (sent + 1) then stop lines (sent + 1) returned else more)
  ]

  abbrev pub with_batch :
      RecordBatch Float → List (RecordBatch Float) × Ending → List (RecordBatch Float) × Ending
  with_batch b (bs, e) = (b ∷ bs, e)

  -- The end of a round of `while True`, with what the further rounds give: nothing is yielded when
  -- no record was read, and nothing more once the limit is reached.
  pub next_batch :
      ℕ → ℕ → Filled → List (RecordBatch Float) × Ending → List (RecordBatch Float) × Ending
  unfolding columns
  next_batch limit seq x more = elim x.ending [
    | value_error ↦ ([], value_error)
    | returned ↦ elim x.got [
      | [] ↦ ([], returned)
      | r ∷ rs ↦
          with_batch (columns seq x.got) (if at_limit limit x.sent then ([], returned) else more)
    ]
  ]

  -- The loop `while True`: the batches that it yields, and how it ends. Every further round has
  -- read at least one line, so as many rounds as lines, and one more, are enough.
  pub iter_from : ℕ → ℕ → ℕ → ℕ → List Text → ℕ → List (RecordBatch Float) × Ending
  unfolding fill next_batch
  iter_from batch_size limit zero seq lines sent = ([], returned)
  iter_from batch_size limit (suc fuel) seq lines sent =
      let x = fill limit batch_size lines sent in
      let more = iter_from batch_size limit fuel (seq + 1) x.rest x.sent in
      next_batch limit seq x more

  -- `iter_batches`
  unfoldable pub iter_batches : List Text → ℕ → ℕ → List (RecordBatch Float) × Ending
  unfolding iter_from
  iter_batches lines batch_size limit = iter_from batch_size limit (suc (length lines)) 0 lines 0
