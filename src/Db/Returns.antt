-- ===== src/Db/Returns.antt =====
-- What holds of the values that actions return, whatever calls of the database fail: one rule for each
-- way to build an action.
use trust_lot.Prelude.{Bool, true, false, if◌then◌else◌}
use trust_lot.Db.Exec.{
  Error, Result, ok, err, World, Exec, proceed, pure, raise, on_error, recover, ◌>>=◌,
}

-- What holds of the value that an action returns.
abbrev pub Good : {A : Type 0} → (A → Type 0) → Result A → Type 0
Good Q (ok a) = Q a
Good Q (err e) = Unit

pub record Returns {N A : Type 0} (Q : A → Type 0) (m : Exec N A) : Type 0 where
  pub at : (w : World N) → Good Q (m w).0

module _ {N : Type 0} where
  pub Returns-pure : {A : Type 0} (Q : A → Type 0) (a : A) → Q a → Returns {N = N} Q (pure a)
  unfolding pure
  Returns-pure Q a h = record { at = λ w. h }

  Good-proceed :
      {A B : Type 0} (Q : B → Type 0) (r : Result A) (w : World N) (k : A → Exec N B)
      → ((a : A) → Returns Q (k a))
      → Good Q (proceed (r, w) k).0
  Good-proceed Q (ok a) w k h = (h a).at w
  Good-proceed Q (err e) w k h = tt

  pub Good-proceed_on :
      {A B : Type 0} (P : A → Type 0) (Q : B → Type 0) (r : Result A) (w : World N)
      (k : A → Exec N B)
      → Good P r
      → ((a : A) → P a → Returns Q (k a))
      → Good Q (proceed (r, w) k).0
  Good-proceed_on P Q (ok a) w k g h = (h a g).at w
  Good-proceed_on P Q (err e) w k g h = tt

  pub Returns-bind :
      {A B : Type 0} (Q : B → Type 0) (m : Exec N A) (k : A → Exec N B)
      → ((a : A) → Returns Q (k a))
      → Returns Q (m >>= k)
  unfolding ◌>>=◌
  Returns-bind Q m k h = record { at = λ w. Good-proceed Q (m w).0 (m w).1 k h }

  pub Returns-bind_on :
      {A B : Type 0} (P : A → Type 0) (Q : B → Type 0) (m : Exec N A) (k : A → Exec N B)
      → Returns P m
      → ((a : A) → P a → Returns Q (k a))
      → Returns Q (m >>= k)
  unfolding ◌>>=◌
  Returns-bind_on P Q m k g h = record {
    at = λ w. Good-proceed_on P Q (m w).0 (m w).1 k (g.at w) h;
  }

  pub Returns-raise : {A : Type 0} (Q : A → Type 0) (e : Error) → Returns {N = N} Q (raise e)
  unfolding raise
  Returns-raise Q e = record { at = λ w. tt }

pub Good-recover :
    {A : Type 0} (P : A → Type 0) (g : Error → Error) (r : Result A)
    → Good P r
    → Good P (recover g r)
Good-recover P g (ok a) h = h
Good-recover P g (err e) h = tt

Good-imp :
    {A : Type 0} (P Q : A → Type 0) (r : Result A) → ((a : A) → P a → Q a) → Good P r → Good Q r
Good-imp P Q (ok a) f h = f a h
Good-imp P Q (err e) f h = tt

module _ {N : Type 0} where
  pub Returns-on_error :
      {A : Type 0} (Q : A → Type 0) (g : Error → Error) (m : Exec N A)
      → Returns Q m
      → Returns Q (on_error g m)
  unfolding on_error
  Returns-on_error Q g m h = record { at = λ w. Good-recover Q g (m w).0 (h.at w) }

  pub Returns-if :
      {A : Type 0} (Q : A → Type 0) (b : Bool) (m n : Exec N A)
      → Returns Q m
      → Returns Q n
      → Returns Q (if b then m else n)
  Returns-if Q true m n h k = h
  Returns-if Q false m n h k = k

  pub Returns-imp :
      {A : Type 0} (P Q : A → Type 0) (m : Exec N A)
      → ((a : A) → P a → Q a)
      → Returns P m
      → Returns Q m
  Returns-imp P Q m f h = record { at = λ w. Good-imp P Q (m w).0 f (h.at w) }
