-- ===== src/Samples/Ingest.antt =====
-- The theorem on internal/ingest at a concrete input.
use trust_lot.Prelude.{suc, ◌≤◌, Option, List, [], ◌∷◌, length, ◌≡◌, ◌≢◌, refl, arith}
use trust_lot.Model.{RawRecord}
use trust_lot.Db.Exec.{ok}
use trust_lot.Ingest.Parser.{Read, a_row, failed, eof, Csv, IsCsv, parse}
use trust_lot.Ingest.Rows.{IsRead, parse-IsRead}
use trust_lot.Samples.Data.{quiet, database}

-- A reader whose state is what its later calls return.
abbrev next : List Read → Read × List Read
next [] = (eof, [])
next (x ∷ xs) = (x, xs)

abbrev two_rows : List Read
two_rows = a_row ("AAPL" ∷ "150" ∷ []) ∷ failed "bare quote" ∷ []

abbrev scripted : Csv (List Read)
scripted = record {
  new_reader = λ content. a_row ("security" ∷ "quantity" ∷ []) ∷ two_rows;
  read = next;
  write_row = λ row. "AAPL,150";
}

next-consumes : (s : List Read) → (next s).0 ≢ eof → suc (length (next s).1) ≤ length s
next-consumes [] h = absurd (h refl)
next-consumes (x ∷ xs) h = omega arith

abbrev scripted-IsCsv : IsCsv scripted
scripted-IsCsv = record { left = length; consumes = next-consumes }

parse-IsRead_example :
    (out : Option (List RawRecord)) × ((parse scripted 3 "security,quantity" database).0 ≡ ok out)
    × IsRead scripted 0 90_000_000_000_000 two_rows out
parse-IsRead_example =
    parse-IsRead scripted scripted-IsCsv 3 "security,quantity" "security" ("quantity" ∷ []) two_rows
      database refl (ground arith)
