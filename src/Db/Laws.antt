-- ===== src/Db/Laws.antt =====
-- The laws of actions.
use trust_lot.Prelude.{◌≡◌, refl, fun_ext}
use trust_lot.Db.Exec.{Result, ok, err, World, Exec, proceed, pure, ◌>>=◌}

module _ {N A B C : Type 0} where
  proceed_assoc :
      (r : Result A) (w : World N) (f : A → Exec N B) (g : B → Exec N C)
      → proceed (proceed (r, w) f) g ≡ proceed (r, w) (λ a. f a >>= g)
  unfolding ◌>>=◌
  proceed_assoc (ok a) w f g = refl
  proceed_assoc (err e) w f g = refl

  pub bind_assoc :
      (m : Exec N A) (f : A → Exec N B) (g : B → Exec N C)
      → (m >>= f >>= g) ≡ (m >>= λ a. f a >>= g)
  unfolding ◌>>=◌
  bind_assoc m f g = fun_ext λ w. proceed_assoc (m w).0 (m w).1 f g

module _ {N A B : Type 0} where
  pub pure-bind : (a : A) (f : A → Exec N B) → (pure a >>= f) ≡ f a
  unfolding ◌>>=◌ pure
  pure-bind a f = refl

module _ {N A : Type 0} where
  proceed-pure : (r : Result A) (w : World N) → proceed (r, w) pure ≡ (r, w)
  unfolding pure
  proceed-pure (ok a) w = refl
  proceed-pure (err e) w = refl

  pub bind-pure : (m : Exec N A) → (m >>= pure) ≡ m
  unfolding ◌>>=◌
  bind-pure m = fun_ext λ w. proceed-pure (m w).0 (m w).1
