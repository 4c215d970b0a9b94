-- ===== src/Ingest/Rows.antt =====
-- What Parse of internal/ingest/csv_parser.go returns of the rows of a file.
use trust_lot.Prelude.{
  ℕ, zero, suc, ◌<◌, String, Option, none, some, List, [], ◌∷◌, ◌≡◌, ◌≢◌, refl, ap, arith,
}
use trust_lot.Platform.{Time, Env}
use trust_lot.Model.{RawRecord}
use trust_lot.Db.Exec.{ok, World, pure, time_now, ◌>>=◌}
use trust_lot.Ingest.Parser.{
  Read, a_row, failed, eof, Csv, IsCsv, prepend, pass, read_rows, after_header, parse,
}

module _ {S : Type 0} (c : Csv S) where
  -- What the calls of `Read` return from here to io.EOF, which is left out.
  abbrev pub Trace : S → List Read → Type 0
  Trace s [] = (c.read s).0 ≡ eof
  Trace s (x ∷ xs) = ((c.read s).0 ≡ x) × (x ≢ eof) × Trace (c.read s).1 xs

  -- The record that stands for what the call with this number returned.
  abbrev pub IsRecordOf : ℕ → Time → Read → RawRecord → Type 0
  IsRecordOf seq now (a_row row) r =
      (r.seq_num ≡ seq)
      × (r.parsed_at ≡ some now)
      × (r.raw_data ≡ some (c.write_row row))
      × (r.error ≡ "")
  IsRecordOf seq now (failed e) r =
      (r.seq_num ≡ seq) × (r.parsed_at ≡ some now) × (r.raw_data ≡ none)
  IsRecordOf seq now eof r = ⊥

  abbrev pub AllRecorded : ℕ → Time → List Read → List RawRecord → Type 0
  AllRecorded seq now [] [] = Unit
  AllRecorded seq now (x ∷ xs) (r ∷ rs) = IsRecordOf seq now x r × AllRecorded (suc seq) now xs rs
  AllRecorded seq now xs rs = ⊥

  -- The records, from this number on, of all rows that are left.
  abbrev pub IsRead : ℕ → Time → S → Option (List RawRecord) → Type 0
  IsRead seq now s out =
      (xs : List Read) × (rs : List RawRecord) × Trace s xs
      × AllRecorded seq now xs rs
      × (out ≡ some rs)

module _ {S : Type 0} (c : Csv S) ⦃env : Env⦄ where
  prepend-IsRead :
      (seq : ℕ) (now : Time) (s : S) (x : Read) (r : RawRecord) (rest : Option (List RawRecord))
      → (c.read s).0 ≡ x
      → x ≢ eof
      → IsRecordOf c seq now x r
      → IsRead c (suc seq) now (c.read s).1 rest
      → IsRead c seq now s (prepend r rest)
  prepend-IsRead seq now s x r rest e n h k =
      (x ∷ k.0, r ∷ k.1, (e, n, k.2), (h, k.3), ap (prepend r) k.4)

  pass-IsRead :
      (seq : ℕ) (now : Time) (s : S) (x : Read) (rest : Option (List RawRecord))
      → (c.read s).0 ≡ x
      → (x ≢ eof → IsRead c (suc seq) now (c.read s).1 rest)
      → IsRead c seq now s (pass c seq now x rest)
  pass-IsRead seq now s (a_row row) rest e k =
      prepend-IsRead seq now s (a_row row) _ rest e (λ d. absurd (ground arith))
        (refl, refl, refl, refl) (k (λ d. absurd (ground arith)))
  pass-IsRead seq now s (failed x) rest e k =
      prepend-IsRead seq now s (failed x) _ rest e (λ d. absurd (ground arith)) (refl, refl, refl)
        (k (λ d. absurd (ground arith)))
  pass-IsRead seq now s eof rest e k = ([], [], e, tt, refl)

  -- Fuel for what is left, and for io.EOF, is enough.
  read_rows-IsRead :
      (is_csv : IsCsv c) (fuel seq : ℕ) (now : Time) (s : S)
      → is_csv.left s < fuel
      → IsRead c seq now s (read_rows c fuel seq now s)
  unfolding read_rows
  read_rows-IsRead is_csv zero seq now s h = absurd (omega arith)
  read_rows-IsRead is_csv (suc fuel) seq now s h = pass-IsRead seq now s (c.read s).0 _ refl λ n.
      read_rows-IsRead is_csv fuel (suc seq) now (c.read s).1 (omega (arith, is_csv.consumes s n))

  -- With fuel for the bytes that the header leaves, Parse returns: for each row up to the end of the
  -- file, in order and numbered from 0, one record, which holds the row as it is written, or no data
  -- where the row does not parse, all at the one time that the clock is read, for any reader that
  -- consumes bytes until io.EOF.
  pub parse-IsRead :
      {N : Type 0} (is_csv : IsCsv c) (fuel : ℕ) (content x : String) (xs : List String) (s : S)
      (w : World N)
      → c.read (c.new_reader content) ≡ (a_row (x ∷ xs), s)
      → is_csv.left s < fuel
      → (out : Option (List RawRecord)) × ((parse c fuel content w).0 ≡ ok out)
        × IsRead c 0 (env.now w.ticks) s out
  unfolding parse pure time_now ◌>>=◌
  parse-IsRead is_csv fuel content x xs s w e h = (
    read_rows c fuel 0 _ s,
    ap (λ p. (after_header c fuel p w).0) e,
    read_rows-IsRead is_csv fuel 0 _ s h,
  )
