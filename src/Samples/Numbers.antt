-- ===== src/Samples/Numbers.antt =====
-- Numbers for the samples: whole cents, all finite, with the laws of Platform.IsIeee.
use trust_lot.Prelude.{Bool, true, ◌≡◌, refl, arith, ◌+◌, eqb}
use trust_lot.Prelude.Int.{ℤ, pos, pos_part, neg_part, sub_ℕ, ltb_ℤ}
use trust_lot.Platform.{Float64, IsIeee}

abbrev abs_ℤ : ℤ → ℤ
abs_ℤ a = pos (pos_part a + neg_part a)

abbrev eq_ℤ : ℤ → ℤ → Bool
eq_ℤ a b = eqb (pos_part a + neg_part b) (pos_part b + neg_part a)

abbrev sub_ℤ : ℤ → ℤ → ℤ
sub_ℤ a b = sub_ℕ (pos_part a + neg_part b) (neg_part a + pos_part b)

instance abbrev pub cents : Float64 ℤ
cents = record {
  zero = pos 0;
  cent = pos 1;
  sub = sub_ℤ;
  abs = abs_ℤ;
  gt = λ a b. ltb_ℤ b a;
  eq = eq_ℤ;
  finite = λ a. true;
  fixed = λ d a. "";
  unsupported = λ a. "";
}

abs-sub_ℤ_comm : (a b : ℤ) → abs_ℤ (sub_ℤ a b) ≡ abs_ℤ (sub_ℤ b a)
abs-sub_ℤ_comm a b = ground arith

eq_ℤ_comm : (a b : ℤ) → eq_ℤ a b ≡ eq_ℤ b a
eq_ℤ_comm a b = ground arith

abs-sub_ℤ_eq : (a b : ℤ) → eq_ℤ a b ≡ true → abs_ℤ (sub_ℤ a b) ≡ pos 0
abs-sub_ℤ_eq a b h = ground arith

eq_ℤ_self : (a : ℤ) → eq_ℤ a a ≡ true
eq_ℤ_self a = ground arith

pub cents-IsIeee : IsIeee cents
cents-IsIeee = record {
  abs-sub_comm = abs-sub_ℤ_comm;
  eq_comm = eq_ℤ_comm;
  abs-sub_eq = λ a b fin h. abs-sub_ℤ_eq a b h;
  eq_self = λ a fin. eq_ℤ_self a;
  zero_not_gt = refl;
  zero_not_gt_cent = refl;
}
