-- ===== src/Ingest/Parser.antt =====
-- internal/ingest/csv_parser.go.
use trust_lot.Prelude.{ℕ, zero, suc, ◌≤◌, String, Option, none, some, List, [], ◌∷◌, ◌≢◌, concat}
use trust_lot.Platform.{Time, Env}
use trust_lot.Model.{RawRecord}
use trust_lot.Db.Exec.{message, wrap, Exec, pure, raise, time_now, ◌>>=◌}

-- What one call of `r.Read()` returns: a row, an error's text, or io.EOF.
pub data Read : Type 0 where
  a_row : List String → Read
  failed : String → Read
  eof : Read

-- encoding/csv: a reader over the data, one step of it, and a row as csv.Writer writes it.
pub record Csv (S : Type 0) : Type 0 where
  pub new_reader : String → S
  pub read : S → Read × S
  pub write_row : List String → String

-- What encoding/csv documents of a reader of bytes: where it does not return io.EOF, it has consumed
-- some of what is left.
pub record IsCsv {S : Type 0} (c : Csv S) : Type 0 where
  pub left : S → ℕ
  pub consumes : (s : S) → (c.read s).0 ≢ eof → suc (left (c.read s).1) ≤ left s

abbrev pub error_record : ⦃env : Env⦄ → ℕ → Time → String → RawRecord
error_record ⦃env⦄ seq now e = record {
  id = "";
  batch_id = "";
  seq_num = seq;
  raw_data = none;
  parsed_at = some now;
  error = concat ("csv: parse row " ∷ env.format_number seq ∷ ": " ∷ e ∷ []);
}

abbrev pub prepend : RawRecord → Option (List RawRecord) → Option (List RawRecord)
prepend r (some rs) = some (r ∷ rs)
prepend r none = none

module _ {S : Type 0} (c : Csv S) where
  abbrev pub row_record : ℕ → Time → List String → RawRecord
  row_record seq now row = record {
    id = "";
    batch_id = "";
    seq_num = seq;
    raw_data = some (c.write_row row);
    parsed_at = some now;
    error = "";
  }

module _ {S : Type 0} (c : Csv S) ⦃env : Env⦄ where
  -- One pass through the loop, from what is read and the records of the later passes.
  abbrev pub pass : ℕ → Time → Read → Option (List RawRecord) → Option (List RawRecord)
  pass seq now (a_row row) rest = prepend (row_record c seq now row) rest
  pass seq now (failed e) rest = prepend (error_record seq now e) rest
  pass seq now eof rest = some []

  -- The loop, which ends at io.EOF; `none` where the fuel does.
  unfoldable pub read_rows : ℕ → ℕ → Time → S → Option (List RawRecord)
  read_rows zero seq now s = none
  read_rows (suc fuel) seq now s =
      let rest = read_rows fuel (suc seq) now (c.read s).1 in pass seq now (c.read s).0 rest

  abbrev pub after_header : {N : Type 0} → ℕ → Read × S → Exec N (Option (List RawRecord))
  after_header fuel (a_row [], s) = raise (message "csv: empty header")
  after_header fuel (a_row (x ∷ xs), s) = time_now >>= (λ now. pure (read_rows fuel 0 now s))
  after_header fuel (failed e, s) = raise (wrap "csv: read header" (message e))
  after_header fuel (eof, s) = raise (wrap "csv: read header" (message "EOF"))

  unfoldable pub parse : {N : Type 0} → ℕ → String → Exec N (Option (List RawRecord))
  unfolding read_rows
  parse fuel content = after_header fuel (c.read (c.new_reader content))
