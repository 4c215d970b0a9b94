-- ===== src/Prelude/Sorting.antt =====
-- Sorting where the order tells any two elements of the list apart: the result ascends, and it does
-- not depend on the order that the elements come in.
use mathlib.Core.List.{Permᴰ}
use trust_lot.Prelude.{
  Bool, true, not, ◌&&◌, ◌||◌, List, [], ◌∷◌, ◌≡◌, refl, ap, subst, ◌∙◌, arith, All, insert_sorted,
  sort_by, Bool-cases, inl, inr,
}

module _ {A : Type 0} (less : A → A → Bool) where
  -- Just one of the two is below the other.
  abbrev pub apart : A → A → Bool
  apart x y = less x y && not (less y x) || less y x && not (less x y)

  abbrev pub AllApart : List A → Type 0
  AllApart [] = Unit
  AllApart (x ∷ xs) = All (λ y. apart x y ≡ true) xs × AllApart xs

  -- Each element is below all later ones.
  abbrev pub IsAscending : List A → Type 0
  IsAscending [] = Unit
  IsAscending (x ∷ xs) = All (λ y. less x y ≡ true) xs × IsAscending xs

  apart_comm : (x y : A) → apart x y ≡ apart y x
  apart_comm x y = ground arith

module _ {A : Type 0} where
  pub All-perm : (P : A → Type 0) (xs ys : List A) → Permᴰ xs ys → All P xs → All P ys
  All-perm P _ _ Permᴰ.nil h = tt
  All-perm P _ _ (Permᴰ.cons e d) h = (subst P e h.0, All-perm P _ _ d h.1)
  All-perm P _ _ (Permᴰ.swap e g) h = (subst P g h.1.0, (subst P e h.0, h.1.1))
  All-perm P _ _ (Permᴰ.trans d g) h = All-perm P _ _ g (All-perm P _ _ d h)

  pub All-imp_on : (P Q : A → Type 0) → ((a : A) → P a → Q a) → (xs : List A) → All P xs → All Q xs
  All-imp_on P Q f [] h = tt
  All-imp_on P Q f (x ∷ xs) h = (f x h.0, All-imp_on P Q f xs h.1)

  pub All-both :
      (P Q R : A → Type 0)
      → ((a : A) → P a → Q a → R a)
      → (xs : List A) → All P xs
      → All Q xs
      → All R xs
  All-both P Q R f [] h k = tt
  All-both P Q R f (x ∷ xs) h k = (f x h.0 k.0, All-both P Q R f xs h.1 k.1)

  All-insert_sorted :
      (P : A → Type 0) (less : A → A → Bool) (x : A) (xs : List A)
      → P x
      → All P xs
      → All P (insert_sorted less x xs)
  unfolding insert_sorted
  All-insert_sorted P less x [] h k = (h, tt)
  All-insert_sorted P less x (y ∷ ys) h k = elim (Bool-cases (less y x)) [
    | inl e ↦ rw (e, insert_sorted) (k.0, All-insert_sorted P less x ys h k.1)
    | inr e ↦ rw (e, insert_sorted) (h, k)
  ]

  -- A sorted list has the elements of the list.
  pub All-sort_by :
      (P : A → Type 0) (less : A → A → Bool) (xs : List A) → All P xs → All P (sort_by less xs)
  unfolding sort_by
  All-sort_by P less [] h = tt
  All-sort_by P less (x ∷ xs) h =
      All-insert_sorted P less x (sort_by less xs) h.0 (All-sort_by P less xs h.1)

module _ {A : Type 0} (less : A → A → Bool)
    (less_trans : (x y z : A) → less x y ≡ true → less y z ≡ true → less x z ≡ true) where
  insert_sorted_comm :
      (a b : A) (xs : List A)
      → apart less a b ≡ true
      → insert_sorted less a (insert_sorted less b xs)
        ≡ insert_sorted less b (insert_sorted less a xs)
  unfolding insert_sorted
  insert_sorted_comm a b [] h = ground arith
  insert_sorted_comm a b (y ∷ ys) h =
      ground (arith, less_trans y a b, less_trans y b a, insert_sorted_comm a b ys h)

  pub AllApart-perm : (xs ys : List A) → Permᴰ xs ys → AllApart less xs → AllApart less ys
  AllApart-perm _ _ Permᴰ.nil h = tt
  AllApart-perm _ _ (Permᴰ.cons {a = a} {b = b} {l₁ = l} {l₂ = m} e d) h = (
    subst (λ x. All (λ y. apart less x y ≡ true) m) e
        (All-perm (λ y. apart less a y ≡ true) l m d h.0),
    AllApart-perm l m d h.1,
  )
  AllApart-perm _ _ (Permᴰ.swap {a = a} {b = b} {a' = c} {b' = d} {l = l} e g) h = (
    (
      subst (λ x. apart less x d ≡ true) g
          (subst (λ x. apart less b x ≡ true) e (apart_comm less b a ∙ h.0.0)),
      subst (λ x. All (λ y. apart less x y ≡ true) l) g h.1.0,
    ),
    (subst (λ x. All (λ y. apart less x y ≡ true) l) e h.0.1, h.1.1),
  )
  AllApart-perm _ _ (Permᴰ.trans {l₁ = l} {l₂ = m} {l₃ = n} d g) h =
      AllApart-perm m n g (AllApart-perm l m d h)

  -- The order that the elements come in does not matter.
  pub sort_by-perm :
      (xs ys : List A) → Permᴰ xs ys → AllApart less xs → sort_by less xs ≡ sort_by less ys
  unfolding sort_by
  sort_by-perm _ _ Permᴰ.nil h = refl
  sort_by-perm _ _ (Permᴰ.cons {a = a} {b = b} {l₁ = l} {l₂ = m} e d) h =
      ap (λ x. insert_sorted less x (sort_by less l)) e
      ∙ ap (insert_sorted less b) (sort_by-perm l m d h.1)
  sort_by-perm _ _ (Permᴰ.swap {a = a} {b = b} {a' = c} {b' = d} {l = l} e g) h =
      insert_sorted_comm a b (sort_by less l) h.0.0 ∙ λ i.
      insert_sorted less (g i) (insert_sorted less (e i) (sort_by less l))
  sort_by-perm _ _ (Permᴰ.trans {l₁ = l} {l₂ = m} {l₃ = n} d g) h =
      sort_by-perm l m d h ∙ sort_by-perm m n g (AllApart-perm l m d h)

  insert_sorted-IsAscending :
      (x : A) (xs : List A)
      → All (λ y. apart less x y ≡ true) xs
      → IsAscending less xs
      → IsAscending less (insert_sorted less x xs)
  unfolding insert_sorted
  insert_sorted-IsAscending x [] h k = (tt, tt)
  insert_sorted-IsAscending x (y ∷ ys) h k = elim (Bool-cases (less y x)) [
    | inl e ↦
        rw (e, insert_sorted)
          (
            All-insert_sorted (λ z. less y z ≡ true) less x ys e k.0,
            insert_sorted-IsAscending x ys h.1 k.1,
          )
    | inr e ↦
        let first : less x y ≡ true = ground (arith, h.0) in
        rw (e, insert_sorted)
          (
            (
              first,
              All-imp_on (λ z. less y z ≡ true) (λ z. less x z ≡ true)
                  (λ z l. less_trans x y z first l) ys k.0,
            ),
            k,
          )
  ]

  -- The sorted list ascends strictly.
  pub sort_by-IsAscending : (xs : List A) → AllApart less xs → IsAscending less (sort_by less xs)
  unfolding sort_by
  sort_by-IsAscending [] h = tt
  sort_by-IsAscending (x ∷ xs) h =
      insert_sorted-IsAscending x (sort_by less xs)
        (All-sort_by (λ y. apart less x y ≡ true) less xs h.0) (sort_by-IsAscending xs h.1)
