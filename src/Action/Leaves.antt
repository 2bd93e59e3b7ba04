-- ===== src/Action/Leaves.antt =====
-- Calls that leave a part of the state as it is, whether they give a value or not.
use smarty_appserver.Prelude.{
  ◌≡◌, ◌∙◌, refl, Bool, true, false, Option, none, some, maybe, maybe_pair, if◌then◌else◌,
}
use smarty_appserver.Errors.{Result, ok, throw, exit, undefined, out_of_fuel}
use smarty_appserver.Action.{Action, pure, lift, continue, ◌>>=◌}

-- A call leaves that part of the state as it is, whatever its result.
pub record Leaves {S A V : Type 0} (part : S → V) (m : Action S A) : Type 0 where
  pub same : (s : S) → part (m s).1 ≡ part s

module _ {S A V : Type 0} {part : S → V} where
  pub Leaves-pure : (a : A) → Leaves part (pure a)
  unfolding pure
  Leaves-pure a = record { same = λ s. refl }

  pub Leaves-lift : (r : Result A) → Leaves part (lift r)
  unfolding lift
  Leaves-lift r = record { same = λ s. refl }

  pub Leaves-if :
      (b : Bool) (m n : Action S A)
      → Leaves part m
      → Leaves part n
      → Leaves part (if b then m else n)
  Leaves-if true m n km kn = km
  Leaves-if false m n km kn = kn

module _ {S A B V : Type 0} {part : S → V} where
  pub Leaves-bind :
      (m : Action S A) (f : A → Action S B)
      → Leaves part m
      → ((a : A) → Leaves part (f a))
      → Leaves part (m >>= f)
  unfolding ◌>>=◌
  Leaves-bind m f km kf = record { same = λ s. on (m s).0 (m s).1 ∙ km.same s }
    where
      on : (r : Result A) (t : S) → part (continue r f t).1 ≡ part t
      on (ok a) t = (kf a).same t
      on (throw e) t = refl
      on exit t = refl
      on undefined t = refl
      on out_of_fuel t = refl

  pub Leaves-maybe :
      (m : Action S B) (f : A → Action S B)
      → Leaves part m
      → ((a : A) → Leaves part (f a))
      → (o : Option A) → Leaves part (maybe m f o)
  Leaves-maybe m f km kf none = km
  Leaves-maybe m f km kf (some a) = kf a

module _ {S A C B V : Type 0} {part : S → V} where
  pub Leaves-maybe_pair :
      (m : Action S B) (f : A → C → Action S B)
      → Leaves part m
      → ((a : A) (c : C) → Leaves part (f a c))
      → (o : Option (A × C)) → Leaves part (maybe_pair m f o)
  Leaves-maybe_pair m f km kf none = km
  Leaves-maybe_pair m f km kf (some (a, c)) = kf a c
