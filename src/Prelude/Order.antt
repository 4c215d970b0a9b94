-- ===== src/Prelude/Order.antt =====
-- The order of texts by their characters' numbers, which is the order of their bytes: Go's `<` on
-- strings.
use Prim.Native.Char.{code}
use Prim.Native.Nat.{Ordering}
use Prim.Native.Nat.{compare as compare_ℕ}
use Prim.Native.String.{String, [], ◌∷◌, compare, then}
use Prim.Native.String.compare
use text.Mathlib.Text.{is_lt}
use text.Mathlib.TextEquality.{path_by_compare}
use text.Mathlib.TextPositions.{compare_refl}
use trust_lot.Prelude.{ℕ, Bool, true, false, ◌≡◌, ◌≢◌, refl, sym, ap, ◌∙◌, arith}

abbrev pub before : String → String → Bool
before a b = is_lt (compare a b)

flip : Ordering → Ordering
flip Ordering.lt = Ordering.gt
flip Ordering.eq = Ordering.eq
flip Ordering.gt = Ordering.lt

flip-then : (o p : Ordering) → flip (then o p) ≡ then (flip o) (flip p)
unfolding flip
flip-then Ordering.lt p = refl
flip-then Ordering.eq p = refl
flip-then Ordering.gt p = refl

flip-compare_ℕ : (m n : ℕ) → compare_ℕ n m ≡ flip (compare_ℕ m n)
unfolding flip
flip-compare_ℕ m n = ground arith

flip-compare : (s t : String) → compare t s ≡ flip (compare s t)
unfolding flip
flip-compare [] [] = compare.nil-nil ∙ sym (ap flip compare.nil-nil)
flip-compare [] (d ∷ t) = compare.cons-nil d t ∙ sym (ap flip (compare.nil-cons d t))
flip-compare (c ∷ s) [] = compare.nil-cons c s ∙ sym (ap flip (compare.cons-nil c s))
flip-compare (c ∷ s) (d ∷ t) =
    compare.cons-cons d c t s
    ∙ rw (flip-compare_ℕ (code c) (code d), flip-compare s t)
        (sym (flip-then (compare_ℕ (code c) (code d)) (compare s t)))
    ∙ sym (ap flip (compare.cons-cons c d s t))

gt_is_not-lt : Ordering.gt ≢ Ordering.lt
gt_is_not-lt = λ e. absurd (ground arith)

-- How the first unlike characters decide, on three texts.
then_trans :
    (a b c : ℕ) (p q r : Ordering)
    → (p ≡ Ordering.lt → q ≡ Ordering.lt → r ≡ Ordering.lt)
    → then (compare_ℕ a b) p ≡ Ordering.lt
    → then (compare_ℕ b c) q ≡ Ordering.lt
    → then (compare_ℕ a c) r ≡ Ordering.lt
then_trans a b c p q r h k l = ground arith

compare_trans :
    (s t u : String)
    → compare s t ≡ Ordering.lt
    → compare t u ≡ Ordering.lt
    → compare s u ≡ Ordering.lt
compare_trans [] [] u h k = k
compare_trans [] (d ∷ t) [] h k = absurd (gt_is_not-lt (sym (compare.cons-nil d t) ∙ k))
compare_trans [] (d ∷ t) (e ∷ u) h k = compare.nil-cons e u
compare_trans (c ∷ s) [] u h k = absurd (gt_is_not-lt (sym (compare.cons-nil c s) ∙ h))
compare_trans (c ∷ s) (d ∷ t) [] h k = absurd (gt_is_not-lt (sym (compare.cons-nil d t) ∙ k))
compare_trans (c ∷ s) (d ∷ t) (e ∷ u) h k =
    compare.cons-cons c e s u
    ∙ then_trans (code c) (code d) (code e) (compare s t) (compare t u) (compare s u)
        (compare_trans s t u) (sym (compare.cons-cons c d s t) ∙ h)
        (sym (compare.cons-cons d e t u) ∙ k)

is_lt-true : (o : Ordering) → is_lt o ≡ true → o ≡ Ordering.lt
is_lt-true Ordering.lt h = refl
is_lt-true Ordering.eq h = absurd (ground arith)
is_lt-true Ordering.gt h = absurd (ground arith)

-- `before` is a strict order.
pub before_trans : (s t u : String) → before s t ≡ true → before t u ≡ true → before s u ≡ true
before_trans s t u h k = ap is_lt (compare_trans s t u (is_lt-true _ h) (is_lt-true _ k))

pub before_self : (s : String) → before s s ≡ false
before_self s = ap is_lt (compare_refl s)

pub before_asymm : (s t : String) → before s t ≡ true → before t s ≡ false
unfolding flip
before_asymm s t h = ap is_lt (flip-compare s t ∙ ap flip (is_lt-true _ h))

by_neither : (o : Ordering) → is_lt o ≡ false → is_lt (flip o) ≡ false → o ≡ Ordering.eq
unfolding flip
by_neither Ordering.lt h k = absurd (ground arith)
by_neither Ordering.eq h k = refl
by_neither Ordering.gt h k = absurd (ground arith)

pub before_total : (s t : String) → before s t ≡ false → before t s ≡ false → s ≡ t
before_total s t h k =
    path_by_compare s t (by_neither (compare s t) h (sym (ap is_lt (flip-compare s t)) ∙ k))
