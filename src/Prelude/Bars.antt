-- ===== src/Prelude/Bars.antt =====
-- Texts that are joined by bars.
use Prim.Native.Char.{Char, code}
use Prim.Native.Nat.{ℕ, suc, ◌+◌}
use Prim.Native.String.{String}
use Prim.Native.String.{◌++◌ as string_append}
use Prim.Native.String.{◌∷◌ as string_cons}
use mathlib.Core.Path.{◌≡◌, refl, ap}
use mathlib.Core.Bool.{Bool, true, not, ◌&&◌}
use native.Mathlib.Omega.{arith}
use mathlib.Core.Path.{sym, ◌∙◌}
use mathlib.Core.Logic.{◌≢◌}
use text.Mathlib.TextLemmas.{
  cons-append, nil-append, append_cancel_left, head-eq_of_cons-eq, tail-eq_of_cons-eq,
}
use trust_lot.Prelude.Tests.{eqb, if◌then◌else◌}

-- There is no bar in the text.
abbrev pub barless : String → Bool
barless String.[] = true
barless (String.◌∷◌ c s) = not (eqb (code c) 124) && barless s

-- A bar at the front of the first text is a bar in the second.
bar_in :
    (c : Char) (s t u : String)
    → barless (string_cons c s) ≡ true
    → string_append "|" t ≢ string_append (string_cons c s) u
bar_in c s t u h e =
    let starts = head-eq_of_cons-eq (sym (cons-append _ "" t) ∙ e ∙ cons-append c s u) in
    ground (arith, ap code starts)

-- What stands before the first bar, and what stands after it.
pub before_bar :
    (s t u v : String)
    → barless s ≡ true
    → barless t ≡ true
    → string_append s (string_append "|" u) ≡ string_append t (string_append "|" v)
    → (s ≡ t) × (u ≡ v)
before_bar String.[] String.[] u v hs ht h =
    (refl, append_cancel_left "|" u v (sym (nil-append _) ∙ h ∙ nil-append _))
before_bar String.[] (String.◌∷◌ c t) u v hs ht h =
    absurd (bar_in c t u _ ht (sym (nil-append _) ∙ h))
before_bar (String.◌∷◌ c s) String.[] u v hs ht h =
    absurd (bar_in c s v _ hs (sym (nil-append _) ∙ sym h))
before_bar (String.◌∷◌ c s) (String.◌∷◌ d t) u v hs ht h =
    let e = sym (cons-append c s _) ∙ h ∙ cons-append d t _ in
    let (x, y) = before_bar s t u v (ground arith) (ground arith) (tail-eq_of_cons-eq e) in
    (λ i. string_cons (head-eq_of_cons-eq e i) (x i), y)

abbrev bars : String → ℕ
bars String.[] = 0
bars (String.◌∷◌ c s) = if eqb (code c) 124 then suc (bars s) else bars s

bars-append : (s t : String) → bars (string_append s t) ≡ bars s + bars t
bars-append String.[] t = ap bars (nil-append t) ∙ omega arith
bars-append (String.◌∷◌ c s) t = ap bars (cons-append c s t) ∙ ground (arith, bars-append s t)

none_counted : (s : String) → barless s ≡ true → bars s ≡ 0
none_counted String.[] h = refl
none_counted (String.◌∷◌ c s) h = ground (arith, none_counted s)

counts_none : (s : String) → bars s ≡ 0 → barless s ≡ true
counts_none String.[] h = refl
counts_none (String.◌∷◌ c s) h = ground (arith, counts_none s)

abbrev joined : String → String → String → String
joined s t u = string_append s (string_append "|" (string_append t (string_append "|" u)))

bars-joined : (s t u : String) → bars (joined s t u) ≡ bars s + bars t + bars u + 2
bars-joined s t u = omega (
  arith,
  bars-append s (string_append "|" (string_append t (string_append "|" u))),
  bars-append "|" (string_append t (string_append "|" u)),
  bars-append t (string_append "|" u),
  bars-append "|" u,
)

-- Three texts with no bar, joined by bars, are joined from no other three.
pub joined-injective :
    (s t u x y z : String)
    → barless s ≡ true
    → barless t ≡ true
    → barless u ≡ true
    → joined s t u ≡ joined x y z
    → (s ≡ x) × (t ≡ y) × (u ≡ z)
joined-injective s t u x y z hs ht hu h =
    let all : bars x + bars y + bars z ≡ 0 = omega (
      arith,
      bars-joined s t u,
      bars-joined x y z,
      ap bars h,
      none_counted s hs,
      none_counted t ht,
      none_counted u hu,
    ) in
    let (first, rest) = before_bar s x _ _ hs (counts_none x (omega (arith, all))) h in
    let (second, third) = before_bar t y _ _ ht (counts_none y (omega (arith, all))) rest in
    (first, second, third)
