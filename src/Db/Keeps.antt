-- ===== src/Db/Keeps.antt =====
-- What an action keeps of the tables, whether it returns or fails: one rule for each way to build an
-- action.
use trust_lot.Prelude.{ℕ, Bool, true, false, Option, none, some, String, if◌then◌else◌}
use trust_lot.Platform.{Env}
use trust_lot.Db.Tables.{Tables}
use trust_lot.Db.Exec.{
  Error, Result, ok, err, World, Exec, proceed, pure, raise, on_error, attempt, served, recover,
  written, query, execute, generate_id, time_now, ◌>>=◌,
}

pub record Keeps {N A : Type 0} (P : Tables N → Type 0) (m : Exec N A) : Type 0 where
  pub at : (w : World N) → P w.tables → P (m w).1.tables

pub keeps_written :
    {N : Type 0} (P : Tables N → Type 0) (o : Option String) (f : Tables N → Tables N)
    (t : Tables N)
    → P t
    → (P t → P (f t))
    → P (written o f t)
keeps_written P none f t h kf = kf h
keeps_written P (some s) f t h kf = h

-- From `P`, a return leaves `Q` and a failure leaves `P`.
abbrev pub Post :
    {N A : Type 0} → (Tables N → Type 0) → (Tables N → Type 0) → Result A × World N → Type 0
Post P Q (ok a, w) = Q w.tables
Post P Q (err e, w) = P w.tables

pub record Leads {N A : Type 0} (P Q : Tables N → Type 0) (m : Exec N A) : Type 0 where
  pub to : (w : World N) → P w.tables → Post P Q (m w)

module _ {N : Type 0} {P : Tables N → Type 0} where
  pub Keeps-pure : {A : Type 0} (a : A) → Keeps P (pure a)
  unfolding pure
  Keeps-pure a = record { at = λ w h. h }

  pub Keeps-raise : {A : Type 0} (e : Error) → Keeps P (raise {A = A} e)
  unfolding raise
  Keeps-raise e = record { at = λ w h. h }

  Keeps-proceed :
      {A B : Type 0} (r : Result A) (w : World N) (f : A → Exec N B)
      → P w.tables
      → ((a : A) → Keeps P (f a))
      → P (proceed (r, w) f).1.tables
  Keeps-proceed (ok a) w f h kf = (kf a).at w h
  Keeps-proceed (err e) w f h kf = h

  pub Keeps-bind :
      {A B : Type 0} (m : Exec N A) (f : A → Exec N B)
      → Keeps P m
      → ((a : A) → Keeps P (f a))
      → Keeps P (m >>= f)
  unfolding ◌>>=◌
  Keeps-bind m f km kf = record { at = λ w h. Keeps-proceed (m w).0 (m w).1 f (km.at w h) kf }

  pub Keeps-on_error :
      {A : Type 0} (f : Error → Error) (m : Exec N A) → Keeps P m → Keeps P (on_error f m)
  unfolding on_error
  Keeps-on_error f m km = record { at = km.at }

  pub Keeps-attempt : {A : Type 0} (m : Exec N A) → Keeps P m → Keeps P (attempt m)
  unfolding attempt
  Keeps-attempt m km = record { at = km.at }

  pub Keeps-if :
      {A : Type 0} (b : Bool) (m n : Exec N A)
      → Keeps P m
      → Keeps P n
      → Keeps P (if b then m else n)
  Keeps-if true m n km kn = km
  Keeps-if false m n km kn = kn

  module _ ⦃env : Env⦄ where
    pub Keeps-query : {A : Type 0} (f : Tables N → Result A) → Keeps P (query f)
    unfolding query
    Keeps-query f = record { at = λ w h. h }

    pub Keeps-generate_id : Keeps P generate_id
    unfolding generate_id
    Keeps-generate_id = record { at = λ w h. h }

    pub Keeps-time_now : Keeps P time_now
    unfolding time_now
    Keeps-time_now = record { at = λ w h. h }

    -- A write keeps what its change of the tables keeps.
    pub Keeps-execute :
        (f : Tables N → Tables N) → ((t : Tables N) → P t → P (f t)) → Keeps P (execute f)
    unfolding execute
    Keeps-execute f kf = record {
      at = λ w h. keeps_written P (env.fault w.calls) f w.tables h (kf w.tables);
    }

Post-recover :
    {N A : Type 0} (P Q : Tables N → Type 0) (f : Error → Error) (r : Result A) (w : World N)
    → Post P Q (r, w)
    → Post P Q (recover f r, w)
Post-recover P Q f (ok a) w h = h
Post-recover P Q f (err e) w h = h

leads_written :
    {N : Type 0} (P Q : Tables N → Type 0) (o : Option String) (f : Tables N → Tables N)
    (w : World N) (n : ℕ)
    → P w.tables
    → (P w.tables → Q (f w.tables))
    → Post P Q (served o (ok tt), record w { tables = written o f w.tables; calls = n })
leads_written P Q none f w n h kf = kf h
leads_written P Q (some s) f w n h kf = h

module _ {N : Type 0} {P Q : Tables N → Type 0} where
  Leads-proceed :
      {A B : Type 0} (r : Result A) (w : World N) (f : A → Exec N B)
      → Post P Q (r, w)
      → ((a : A) → Keeps Q (f a))
      → ((t : Tables N) → Q t → P t)
      → P (proceed (r, w) f).1.tables
  Leads-proceed (ok a) w f h kf q = q _ ((kf a).at w h)
  Leads-proceed (err e) w f h kf q = h

  -- What follows a step that leads to `Q` may rest on `Q`.
  pub Leads-bind :
      {A B : Type 0} (m : Exec N A) (f : A → Exec N B)
      → Leads P Q m
      → ((a : A) → Keeps Q (f a))
      → ((t : Tables N) → Q t → P t)
      → Keeps P (m >>= f)
  unfolding ◌>>=◌
  Leads-bind m f lm kf q = record { at = λ w h. Leads-proceed (m w).0 (m w).1 f (lm.to w h) kf q }

  pub Leads-on_error :
      {A : Type 0} (f : Error → Error) (m : Exec N A) → Leads P Q m → Leads P Q (on_error f m)
  unfolding on_error
  Leads-on_error f m lm = record { to = λ w h. Post-recover P Q f (m w).0 (m w).1 (lm.to w h) }

  pub Leads-execute :
      ⦃env : Env⦄ (f : Tables N → Tables N)
      → ((t : Tables N) → P t → Q (f t))
      → Leads P Q (execute f)
  unfolding execute
  Leads-execute ⦃env⦄ f kf = record {
    to = λ w h. leads_written P Q (env.fault w.calls) f w _ h (kf w.tables);
  }

pub ruleset keeps_rules = (
  Keeps-pure, Keeps-raise, Keeps-bind, Keeps-on_error, Keeps-attempt, Keeps-if, Keeps-query,
  Keeps-generate_id, Keeps-time_now,
)
