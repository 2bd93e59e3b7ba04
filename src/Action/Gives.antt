-- ===== src/Action/Gives.antt =====
-- What holds of the value of a call, where it returns one; it may fail in any way.
use smarty_appserver.Prelude.{Bool, true, false, if◌then◌else◌}
use smarty_appserver.Errors.{Result, ok, throw, exit, undefined, out_of_fuel}
use smarty_appserver.Action.{Action, pure, lift, continue, recover, catch_all, ◌>>=◌}

abbrev pub GivesAt : {A : Type 0} → (A → Type 0) → Result A → Type 0
GivesAt Q (ok a) = Q a
GivesAt Q (throw e) = Unit
GivesAt Q exit = Unit
GivesAt Q undefined = Unit
GivesAt Q out_of_fuel = Unit

pub record Gives {S A : Type 0} (Q : A → Type 0) (m : Action S A) : Type 0 where
  pub at : (w : S) → GivesAt Q (m w).0

module _ {S A : Type 0} {Q : A → Type 0} where
  pub Gives-pure : (a : A) → Q a → Gives {S = S} Q (pure a)
  unfolding pure
  Gives-pure a q = record { at = λ w. q }

  pub Gives-lift : (r : Result A) → GivesAt Q r → Gives {S = S} Q (lift r)
  unfolding lift
  Gives-lift r h = record { at = λ w. h }

  pub Gives-if :
      (b : Bool) (m n : Action S A) → Gives Q m → Gives Q n → Gives Q (if b then m else n)
  Gives-if true m n h k = h
  Gives-if false m n h k = k

  pub Gives-catch_all : (a : A) (m : Action S A) → Q a → Gives Q m → Gives Q (catch_all a m)
  unfolding catch_all
  Gives-catch_all a m q h = record { at = λ w. go (m w).0 (h.at w) }
    where
      go : (r : Result A) → GivesAt Q r → GivesAt Q (recover a r)
      go (ok b) h = h
      go (throw e) h = q
      go exit h = tt
      go undefined h = tt
      go out_of_fuel h = tt

module _ {S A B : Type 0} {P : A → Type 0} {Q : B → Type 0} where
  pub Gives-bind :
      (m : Action S A) (f : A → Action S B)
      → Gives P m
      → ((a : A) → P a → Gives Q (f a))
      → Gives Q (m >>= f)
  unfolding ◌>>=◌
  Gives-bind m f h k = record { at = λ w. go (m w).0 (m w).1 (h.at w) }
    where
      go : (r : Result A) (t : S) → GivesAt P r → GivesAt Q (continue r f t).0
      go (ok a) t p = (k a p).at t
      go (throw e) t p = tt
      go exit t p = tt
      go undefined t p = tt
      go out_of_fuel t p = tt

module _ {S A B : Type 0} {Q : B → Type 0} where
  -- Whatever the first part gives.
  pub Gives-then :
      (m : Action S A) (f : A → Action S B) → ((a : A) → Gives Q (f a)) → Gives Q (m >>= f)
  Gives-then m f k =
      Gives-bind {P = λ a. Unit {0}} m f (record { at = λ w. any (m w).0 }) (λ a _. k a)
    where
      any : (r : Result A) → GivesAt (λ a. Unit {0}) r
      any (ok a) = tt
      any (throw e) = tt
      any exit = tt
      any undefined = tt
      any out_of_fuel = tt

module _ {S A : Type 0} {P Q : A → Type 0} where
  pub Gives-mono : (m : Action S A) → ((a : A) → P a → Q a) → Gives P m → Gives Q m
  Gives-mono m f h = record { at = λ w. go (m w).0 (h.at w) }
    where
      go : (r : Result A) → GivesAt P r → GivesAt Q r
      go (ok a) p = f a p
      go (throw e) p = tt
      go exit p = tt
      go undefined p = tt
      go out_of_fuel p = tt
