-- ===== src/Prelude/Kept.antt =====
-- Filtered lists: permutations of them, and elements that a filter tells apart.
use mathlib.Core.List.{Permᴰ}
use mathlib.Core.List.Permᴰ
use trust_lot.Prelude.{
  Bool, true, false, List, [], ◌∷◌, keep, ◌≡◌, refl, sym, ap, ◌∙◌, All, Bool-cases, inl, inr,
}
use trust_lot.Prelude.Sorting.{AllApart, All-imp_on, apart}

module _ {A : Type 0} (p : A → Bool) where
  keep_cons :
      (x y : A) (xs ys : List A)
      → x ≡ y
      → Permᴰ (keep p xs) (keep p ys)
      → Permᴰ (keep p (x ∷ xs)) (keep p (y ∷ ys))
  keep_cons x y xs ys e d = elim (Bool-cases (p x)) [
    | inl h ↦ simp (h, sym (ap p e) ∙ h) (Permᴰ.cons e d)
    | inr h ↦ simp (h, sym (ap p e) ∙ h) d
  ]

  keep_swap :
      (x y u v : A) (xs : List A)
      → x ≡ v
      → y ≡ u
      → Permᴰ (keep p (x ∷ y ∷ xs)) (keep p (u ∷ v ∷ xs))
  keep_swap x y u v xs e g = elim (Bool-cases (p x)) [
    | inl h ↦ elim (Bool-cases (p y)) [
      | inl k ↦ simp (h, k, sym (ap p e) ∙ h, sym (ap p g) ∙ k) (Permᴰ.swap e g)
      | inr k ↦
          simp (h, k, sym (ap p e) ∙ h, sym (ap p g) ∙ k) (Permᴰ.cons e (Permᴰ.refl (keep p xs)))
    ]
    | inr h ↦ elim (Bool-cases (p y)) [
      | inl k ↦
          simp (h, k, sym (ap p e) ∙ h, sym (ap p g) ∙ k) (Permᴰ.cons g (Permᴰ.refl (keep p xs)))
      | inr k ↦ simp (h, k, sym (ap p e) ∙ h, sym (ap p g) ∙ k) (Permᴰ.refl (keep p xs))
    ]
  ]

  pub keep-perm : (xs ys : List A) → Permᴰ xs ys → Permᴰ (keep p xs) (keep p ys)
  keep-perm _ _ Permᴰ.nil = Permᴰ.nil
  keep-perm _ _ (Permᴰ.cons {a = a} {b = b} {l₁ = l} {l₂ = m} e d) =
      keep_cons a b l m e (keep-perm l m d)
  keep-perm _ _ (Permᴰ.swap {a = a} {b = b} {a' = c} {b' = d} {l = l} e g) = keep_swap a b c d l e g
  keep-perm _ _ (Permᴰ.trans {l₁ = l} {l₂ = m} {l₃ = n} d g) =
      Permᴰ.trans (keep-perm l m d) (keep-perm m n g)

-- No two elements are the same in this sense.
abbrev pub AllUnlike : {A : Type 0} → (A → A → Bool) → List A → Type 0
AllUnlike same [] = Unit
AllUnlike same (x ∷ xs) = All (λ y. same x y ≡ false) xs × AllUnlike same xs

module _ {A : Type 0} (p : A → Bool) where
  All-keep : (R : A → Type 0) (xs : List A) → All R xs → All (λ y. R y × (p y ≡ true)) (keep p xs)
  All-keep R [] h = tt
  All-keep R (x ∷ xs) h = elim (Bool-cases (p x)) [
    | inl e ↦ simp e ((h.0, refl), All-keep R xs h.1)
    | inr e ↦ simp e (All-keep R xs h.1)
  ]

  -- An order that tells unlike elements of the filter apart.
  pub keep-AllApart :
      (less same : A → A → Bool)
      → ((x y : A) → p x ≡ true → p y ≡ true → same x y ≡ false → apart less x y ≡ true)
      → (xs : List A) → AllUnlike same xs
      → AllApart less (keep p xs)
  keep-AllApart less same tell [] h = tt
  keep-AllApart less same tell (x ∷ xs) h = elim (Bool-cases (p x)) [
    | inl e ↦ simp e (
      All-imp_on _ _ (λ y k. tell x y e k.1 k.0) (keep p xs)
          (All-keep (λ y. same x y ≡ false) xs h.0),
      keep-AllApart less same tell xs h.1,
    )
    | inr e ↦ simp e (keep-AllApart less same tell xs h.1)
  ]
