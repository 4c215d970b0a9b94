-- ===== src/Db/Exec.antt =====
-- Actions of the program: they change the tables, draw ids, read the clock, and may fail. What was
-- written before a failure stays written: the program opens no database transaction.
use trust_lot.Prelude.{
  ℕ, zero, suc, ◌*◌, ◌/◌, String, Option, none, some, List, [], ◌∷◌, concat, take,
}
use trust_lot.Platform.{Time, Env}
use trust_lot.Db.Tables.{Tables}

-- An `error`: pgx.ErrNoRows, another failure of the driver, `fmt.Errorf` with a text, or with `%w`.
pub data Error : Type 0 where
  no_rows : Error
  driver : String → Error
  message : String → Error
  wrap : String → Error → Error

-- `err.Error()`
unfoldable pub error_text : Error → String
error_text no_rows = "no rows in result set"
error_text (driver s) = s
error_text (message s) = s
error_text (wrap s e) = concat (s ∷ ": " ∷ error_text e ∷ [])

pub data Result (A : Type 0) : Type 0 where
  ok : A → Result A
  err : Error → Result A

abbrev pub recover : {A : Type 0} → (Error → Error) → Result A → Result A
recover f (ok a) = ok a
recover f (err e) = err (f e)

-- What a call of the database answers: the driver's error where the call fails.
abbrev pub served : {A : Type 0} → Option String → Result A → Result A
served none r = r
served (some s) r = err (driver s)

-- The tables, and how many calls of the database, ids and clock readings there have been.
pub record World (N : Type 0) : Type 0 where
  pub tables : Tables N
  pub calls : ℕ
  pub ids : ℕ
  pub ticks : ℕ

abbrev pub Exec : Type 0 → Type 0 → Type 0
Exec N A = World N → Result A × World N

module _ {N A B : Type 0} where
  abbrev pub proceed : Result A × World N → (A → Exec N B) → Result B × World N
  proceed (ok a, w) f = f a w
  proceed (err e, w) f = (err e, w)

  infixl 10 ◌>>=◌ ◌>>◌
  unfoldable pub ◌>>=◌ : Exec N A → (A → Exec N B) → Exec N B
  ◌>>=◌ m f w = proceed (m w) f

  abbrev pub ◌>>◌ : Exec N A → Exec N B → Exec N B
  m >> k = m >>= λ _. k

module _ {N A : Type 0} where
  unfoldable pub pure : A → Exec N A
  pure a w = (ok a, w)

  unfoldable pub raise : Error → Exec N A
  raise e w = (err e, w)

  -- `if err != nil { return ..., f(err) }`
  unfoldable pub on_error : (Error → Error) → Exec N A → Exec N A
  on_error f m w = let (r, w') = m w in (recover f r, w')

  abbrev pub with_context : String → Exec N A → Exec N A
  with_context s = on_error (wrap s)

  -- `v, err := m` where the code goes on with both.
  unfoldable pub attempt : Exec N A → Exec N (Result A)
  attempt m w = let (r, w') = m w in (ok r, w')

-- The tables after a write.
abbrev pub written : {N : Type 0} → Option String → (Tables N → Tables N) → Tables N → Tables N
written none f t = f t
written (some s) f t = t

module _ {N : Type 0} ⦃env : Env⦄ where
  -- A SELECT: it changes no table.
  unfoldable pub query : {A : Type 0} → (Tables N → Result A) → Exec N A
  query f w = (served (env.fault w.calls) (f w.tables), record w { calls = suc w.calls })

  -- An INSERT or UPDATE: where the call fails no row is changed.
  unfoldable pub execute : (Tables N → Tables N) → Exec N (Unit {0})
  execute f w = (
    served (env.fault w.calls) (ok tt),
    record w { tables = written (env.fault w.calls) f w.tables; calls = suc w.calls },
  )

  unfoldable pub generate_id : Exec N String
  generate_id w = (ok (env.fresh_id w.ids), record w { ids = suc w.ids })

  unfoldable pub time_now : Exec N Time
  time_now w = (ok (env.now w.ticks), record w { ticks = suc w.ticks })

-- `QueryRow(...).Scan(...)`: the first row, or pgx.ErrNoRows.
abbrev pub row : {A : Type 0} → Option A → Result A
row none = err no_rows
row (some a) = ok a

-- What a TIMESTAMPTZ column keeps of an instant: its microseconds.
abbrev pub stored_time : Time → Time
stored_time t = t / 1_000 * 1_000

abbrev pub stored_option : Option Time → Option Time
stored_option none = none
stored_option (some t) = some (stored_time t)

-- `LIMIT $n`, which the code adds where the limit is positive.
abbrev pub limited {ℓ} : {A : Type ℓ} → ℕ → List A → List A
limited zero xs = xs
limited (suc n) xs = take (suc n) xs
