-- ===== src/Prelude/Maps.antt =====
-- Go maps with string keys, as lists of their assignments, the newest first: an older assignment to a
-- key is there, but no lookup finds it.
use Prim.Native.String.{String}
use mathlib.Core.Path.{◌≡◌, refl}
use mathlib.Core.Bool.{Bool, false, ◌||◌}
use mathlib.Core.List.{List, [], ◌∷◌}
use mathlib.Core.Option.{Option, none, some}
use text.Mathlib.Text.{◌==◌}
use trust_lot.Prelude.Tests.{if◌then◌else◌}

-- `v, found := m[key]`
unfoldable pub lookup {ℓ} : {A : Type ℓ} → String → List (String × A) → Option A
lookup key [] = none
lookup key (entry ∷ older) = if entry.0 == key then some entry.1 else lookup key older

-- `m[key] = a`
unfoldable pub insert {ℓ} : {A : Type ℓ} → String → A → List (String × A) → List (String × A)
insert key a older = (key, a) ∷ older

-- The key just set has the new value, any other key the one that it had.
pub lookup-insert {ℓ} :
    {A : Type ℓ} (key other : String) (a : A) (older : List (String × A))
    → lookup other (insert key a older) ≡ (if key == other then some a else lookup other older)
unfolding lookup insert
lookup-insert key other a older = refl

-- `set[k]` of a `map[string]bool` that only ever holds `true`.
unfoldable pub contains : String → List String → Bool
contains k [] = false
contains k (j ∷ m) = j == k || contains k m
