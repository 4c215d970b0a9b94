-- ===== src/Platform.antt =====
-- What the program takes from outside its own files: float64 arithmetic, the clock, random ids and
-- the database's faults. They are parameters, given as instances.
use trust_lot.Prelude.{ℕ, String, Bool, true, false, Option, none, ◌≡◌}

-- `time.Time` as an instant: nanoseconds since Go's zero time, January 1 of year 1.
abbrev pub Time : Type 0
Time = ℕ

-- The operations of float64 that the program uses. `gt a b` is `a > b` and `eq a b` is `a == b`;
-- `fixed d a` is `a` printed with `%.df`, and `unsupported a` what encoding/json says of an `a` that is
-- not finite.
pub record Float64 (N : Type 0) : Type 0 where
  pub zero : N
  pub cent : N
  pub sub : N → N → N
  pub abs : N → N
  pub gt : N → N → Bool
  pub eq : N → N → Bool
  pub finite : N → Bool
  pub fixed : ℕ → N → String
  pub unsupported : N → String

-- What IEEE 754 says of these operations, as far as the proofs use it: differences in either order
-- have the same size, `==` is symmetric and holds of a finite number and itself, the difference of
-- equal finite numbers is zero, and zero exceeds neither zero nor 0.01.
pub record IsIeee {N : Type 0} (f : Float64 N) : Type 0 where
  pub abs-sub_comm : (a b : N) → f.abs (f.sub a b) ≡ f.abs (f.sub b a)
  pub eq_comm : (a b : N) → f.eq a b ≡ f.eq b a
  pub abs-sub_eq : (a b : N) → f.finite a ≡ true → f.eq a b ≡ true → f.abs (f.sub a b) ≡ f.zero
  pub eq_self : (a : N) → f.finite a ≡ true → f.eq a a ≡ true
  pub zero_not_gt : f.gt f.zero f.zero ≡ false
  pub zero_not_gt_cent : f.gt f.zero f.cent ≡ false

-- The surroundings of a run: what the n-th database call meets (`none`: it is served), the n-th id
-- that the program draws, the id that the database gives to a row inserted by the n-th call, the n-th
-- reading of the clock, the formats "2006-01-02", RFC 3339 and "2006-01-02T15:04:05Z" of a time, a
-- whole number printed with `%d`, and a score in hundredths of a point printed with `%.1f`.
pub record Env : Type 0 where
  pub fault : ℕ → Option String
  pub fresh_id : ℕ → String
  pub row_id : ℕ → String
  pub now : ℕ → Time
  pub format_date : Time → String
  pub format_time : Time → String
  pub format_stamp : Time → String
  pub format_number : ℕ → String
  pub format_score : ℕ → String

-- No call of the database fails.
abbrev pub IsHealthy : Env → Type 0
IsHealthy env = (n : ℕ) → env.fault n ≡ none
