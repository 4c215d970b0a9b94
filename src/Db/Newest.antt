-- ===== src/Db/Newest.antt =====
-- `ORDER BY … DESC LIMIT`: the rows of a list with the largest keys.
use mathlib.Core.List.{Permᴰ}
use mathlib.Core.List.Permᴰ
use trust_lot.Prelude.{
  ℕ, zero, suc, ◌≤◌, Bool, List, [], ◌∷◌, ◌++◌, take, length, ltb, ◌≡◌, ◌⊎◌, inl, inr, refl, ap,
  arith, All, sort_by, insert_sorted, Bool-cases,
}
use trust_lot.Db.Exec.{limited}

module _ {A : Type 0} (key : A → ℕ) where
  -- The keys do not grow.
  abbrev pub IsDescending : List A → Type 0
  IsDescending [] = Unit
  IsDescending (x ∷ xs) = All (λ y. key y ≤ key x) xs × IsDescending xs

  -- Of the rows that are asked for, those taken are in order and none of the rest has a larger key than
  -- one of them. At limit 0 all are taken; else `limit` many, or all of them if there are fewer.
  pub record IsNewest (limit : ℕ) (asked taken : List A) : Type 0 where
    pub rest : List A
    pub all_there : Permᴰ (taken ++ rest) asked
    pub in_order : IsDescending taken
    pub older : All (λ e. All (λ x. key x ≤ key e) rest) taken
    pub full :
        ((limit ≡ 0) × (rest ≡ []))
        ⊎ ((1 ≤ limit) × (length taken ≡ limit))
        ⊎ ((1 ≤ limit) × (rest ≡ []) × (length taken ≤ limit))

  abbrev larger : A → A → Bool
  larger a b = ltb (key b) (key a)

  inserted-All :
      (P : A → Type 0) (x : A) (xs : List A) → P x → All P xs → All P (insert_sorted larger x xs)
  unfolding insert_sorted
  inserted-All P x [] h k = (h, tt)
  inserted-All P x (y ∷ ys) h k = elim (Bool-cases (larger y x)) [
    | inl e ↦ rw e (k.0, inserted-All P x ys h k.1)
    | inr e ↦ rw e (h, k)
  ]

  raise_bound : (m n : ℕ) (xs : List A) → m ≤ n → All (λ y. key y ≤ m) xs → All (λ y. key y ≤ n) xs
  raise_bound m n [] h k = tt
  raise_bound m n (x ∷ xs) h k = (omega (arith, k.0), raise_bound m n xs h k.1)

  inserted-IsDescending :
      (x : A) (xs : List A) → IsDescending xs → IsDescending (insert_sorted larger x xs)
  unfolding insert_sorted
  inserted-IsDescending x [] h = (tt, tt)
  inserted-IsDescending x (y ∷ ys) h = elim (Bool-cases (larger y x)) [
    | inl e ↦
        rw e (
          inserted-All (λ z. key z ≤ key y) x ys (ground arith) h.0,
          inserted-IsDescending x ys h.1,
        )
    | inr e ↦
        let below : key y ≤ key x = ground arith in
        rw e ((below, raise_bound (key y) (key x) ys below h.0), h)
  ]

  sorted-IsDescending : (xs : List A) → IsDescending (sort_by larger xs)
  unfolding sort_by
  sorted-IsDescending [] = tt
  sorted-IsDescending (x ∷ xs) = inserted-IsDescending x _ (sorted-IsDescending xs)

module _ {A : Type 0} where
  rest_after : ℕ → List A → List A
  rest_after zero xs = xs
  rest_after (suc n) [] = []
  rest_after (suc n) (x ∷ xs) = rest_after n xs

  take-rest_after : (n : ℕ) (xs : List A) → take n xs ++ rest_after n xs ≡ xs
  unfolding rest_after
  take-rest_after zero xs = refl
  take-rest_after (suc n) [] = refl
  take-rest_after (suc n) (x ∷ xs) = ap (◌∷◌ x) (take-rest_after n xs)

  take-full :
      (n : ℕ) (xs : List A)
      → (length (take n xs) ≡ n) ⊎ ((rest_after n xs ≡ []) × (length (take n xs) ≤ n))
  unfolding rest_after
  take-full zero xs = inl refl
  take-full (suc n) [] = inr (refl, omega arith)
  take-full (suc n) (x ∷ xs) = elim (take-full n xs) [
    | inl e ↦ inl (ap suc e)
    | inr (e, h) ↦ inr (e, omega (arith, h))
  ]

  All-append : (P : A → Type 0) (xs ys : List A) → All P (xs ++ ys) → All P xs × All P ys
  All-append P [] ys h = (tt, h)
  All-append P (x ∷ xs) ys h = let (k, l) = All-append P xs ys h.1 in ((h.0, k), l)

  append-none : (xs : List A) → xs ++ [] ≡ xs
  append-none [] = refl
  append-none (x ∷ xs) = ap (◌∷◌ x) (append-none xs)

  insert_sorted-perm :
      (less : A → A → Bool) (x : A) (xs : List A) → Permᴰ (insert_sorted less x xs) (x ∷ xs)
  unfolding insert_sorted
  insert_sorted-perm less x [] = Permᴰ.refl _
  insert_sorted-perm less x (y ∷ ys) = elim (Bool-cases (less y x)) [
    | inl e ↦
        rw e (Permᴰ.trans (Permᴰ.cons refl (insert_sorted-perm less x ys)) (Permᴰ.swap refl refl))
    | inr e ↦ rw e (Permᴰ.refl _)
  ]

  permuted : (less : A → A → Bool) (xs : List A) → Permᴰ (sort_by less xs) xs
  unfolding sort_by
  permuted less [] = Permᴰ.nil
  permuted less (x ∷ xs) =
      Permᴰ.trans (insert_sorted-perm less x _) (Permᴰ.cons refl (permuted less xs))

module _ {A : Type 0} (key : A → ℕ) where
  split-IsDescending :
      (xs ys : List A)
      → IsDescending key (xs ++ ys)
      → IsDescending key xs × All (λ e. All (λ x. key x ≤ key e) ys) xs
  split-IsDescending [] ys h = (tt, tt)
  split-IsDescending (x ∷ xs) ys h =
      let (below, after) = All-append (λ y. key y ≤ key x) xs ys h.0 in
      let (first, older) = split-IsDescending xs ys h.1 in ((below, first), (after, older))

  pub limited-IsNewest :
      (limit : ℕ) (xs : List A)
      → IsNewest key limit xs (limited limit (sort_by (λ a b. ltb (key b) (key a)) xs))
  limited-IsNewest zero xs = record {
    rest = [];
    all_there = rw (append-none (sort_by (λ a b. ltb (key b) (key a)) xs)) (permuted _ xs);
    in_order = sorted-IsDescending key xs;
    older =
        (split-IsDescending (sort_by (λ a b. ltb (key b) (key a)) xs) [] (
          rw (append-none (sort_by (λ a b. ltb (key b) (key a)) xs))
            (sorted-IsDescending key xs))).1;
    full = inl (refl, refl);
  }
  limited-IsNewest (suc n) xs =
      let s = sort_by (λ (a b : A). ltb (key b) (key a)) xs in
      let whole = take-rest_after (suc n) s in
      let parts =
        split-IsDescending (take (suc n) s) (rest_after (suc n) s)
          (rw whole (sorted-IsDescending key xs)) in
      record {
        rest = rest_after (suc n) s;
        all_there = rw whole (permuted _ xs);
        in_order = parts.0;
        older = parts.1;
        full = elim (take-full (suc n) s) [
          | inl e ↦ inr (inl (omega arith, e))
          | inr (e, h) ↦ inr (inr (omega arith, e, h))
        ];
      }
