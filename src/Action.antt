-- ===== src/Action.antt =====
-- Methods that change an object and may fail. What was changed before a throw stays changed, so the
-- state comes back beside the failure.
pub mod Ensures
pub mod Ends
pub mod Gives
pub mod Leaves
use smarty_appserver.Prelude.{◌≡◌, refl}
use smarty_appserver.Errors.{Result, ok, throw, exit, undefined, out_of_fuel, Exception}

abbrev pub Action {ℓ} : Type ℓ → Type ℓ → Type ℓ
Action S A = S → Result A × S

abbrev pub recover {ℓ} : {A : Type ℓ} → A → Result A → Result A
recover a (ok b) = ok b
recover a (throw e) = ok a
recover a exit = exit
recover a undefined = undefined
recover a out_of_fuel = out_of_fuel

module _ {ℓ} {S A : Type ℓ} where
  pub pure : A → Action S A
  pure a s = (ok a, s)

  -- A result that comes without a change of the state.
  pub lift : Result A → Action S A
  lift r s = (r, s)

  pub raise : Exception → Action S A
  raise e s = (throw e, s)

  -- `try { m } catch(...) { return a; }`. The end of the process is not caught.
  unfoldable pub catch_all : A → Action S A → Action S A
  catch_all a m s = let (r, s') = m s in (recover a r, s')

module _ {ℓ} {S A B : Type ℓ} where
  abbrev pub continue : Result A → (A → Action S B) → Action S B
  continue (ok a) f s = f a s
  continue (throw e) f s = (throw e, s)
  continue exit f s = (exit, s)
  continue undefined f s = (undefined, s)
  continue out_of_fuel f s = (out_of_fuel, s)

  infixl 5 ◌>>=◌ ◌>>◌
  -- Opening this opens `pure`, `lift` and `raise` too.
  unfoldable pub ◌>>=◌ : Action S A → (A → Action S B) → Action S B
  unfolding pure lift raise
  ◌>>=◌ m f s = let (r, s') = m s in continue r f s'

  abbrev pub ◌>>◌ : Action S A → Action S B → Action S B
  m >> n = m >>= λ _. n

module _ {ℓ} {S A B : Type ℓ} where
  -- What follows may be replaced by what does the same.
  pub bind-cong :
      (m : Action S A) (f g : A → Action S B) (s : S)
      → ((a : A) (t : S) → f a t ≡ g a t)
      → (m >>= f) s ≡ (m >>= g) s
  unfolding ◌>>=◌
  bind-cong m f g s h = go (m s).0 (m s).1
    where
      go : (r : Result A) (t : S) → continue r f t ≡ continue r g t
      go (ok a) t = h a t
      go (throw e) t = refl
      go exit t = refl
      go undefined t = refl
      go out_of_fuel t = refl

module _ {ℓ} {S A B C : Type ℓ} where
  pub bind_assoc :
      (m : Action S A) (f : A → Action S B) (g : B → Action S C) (s : S)
      → (m >>= f >>= g) s ≡ (m >>= λ a. f a >>= g) s
  unfolding ◌>>=◌
  bind_assoc m f g s = go (m s).0 (m s).1
    where
      go :
          (r : Result A) (t : S)
          → continue (continue r f t).0 g (continue r f t).1 ≡ continue r (λ a. f a >>= g) t
      go (ok a) t = refl
      go (throw e) t = refl
      go exit t = refl
      go undefined t = refl
      go out_of_fuel t = refl
