-- ===== src/Action/Ensures.antt =====
-- Invariants and results of actions: a rule for each way to build one.
use smarty_appserver.Prelude.{
  ◌≡◌, refl, Bool, true, false, if◌then◌else◌, Option, none, some, maybe, maybe_pair,
}
use smarty_appserver.Errors.{Result, ok, throw, exit, undefined, out_of_fuel, Exception}
use smarty_appserver.Errors
use smarty_appserver.Action.{Action, pure, lift, raise, catch_all, recover, ◌>>=◌}

-- The call returns a value with `Q`, throws or ends the process: no undefined behaviour, and no
-- loop without end.
abbrev pub Returns : {A : Type 0} → (A → Type 0) → Result A → Type 0
Returns Q (ok a) = Q a
Returns Q (throw e) = Unit
Returns Q exit = Unit
Returns Q undefined = ⊥
Returns Q out_of_fuel = ⊥

-- From a state with `P` the action ends in a state with `P`, failing or not, and a value that it
-- returns has `Q`.
pub record Ensures {S A : Type 0} (P : S → Type 0) (Q : A → Type 0) (m : Action S A) : Type 0 where
  pub state : (s : S) → P s → P (m s).1
  pub result : (s : S) → P s → Returns Q (m s).0

abbrev pub Any : {A : Type 0} → A → Type 0
Any a = Unit

module _ {S A : Type 0} {P : S → Type 0} {Q : A → Type 0} where
  pub Ensures-pure : (a : A) → Q a → Ensures P Q (pure a)
  unfolding pure
  Ensures-pure a q = record { state = λ s h. h; result = λ s h. q }

  pub Ensures-raise : (e : Exception) → Ensures P Q (raise e)
  unfolding raise
  Ensures-raise e = record { state = λ s h. h; result = λ s h. tt }

  pub Ensures-lift : (r : Result A) → Returns Q r → Ensures P Q (lift r)
  unfolding lift
  Ensures-lift r d = record { state = λ s h. h; result = λ s h. d }

  pub Ensures-if :
      (b : Bool) (m n : Action S A)
      → (b ≡ true → Ensures P Q m)
      → (b ≡ false → Ensures P Q n)
      → Ensures P Q (if b then m else n)
  Ensures-if true m n km kn = km refl
  Ensures-if false m n km kn = kn refl

  pub Ensures-maybe :
      {B : Type 0} (R : Option B → Type 0) (m : Action S A) (f : B → Action S A)
      → (R none → Ensures P Q m)
      → ((b : B) → R (some b) → Ensures P Q (f b))
      → (o : Option B) → R o
      → Ensures P Q (maybe m f o)
  Ensures-maybe R m f km kf none r = km r
  Ensures-maybe R m f km kf (some b) r = kf b r

  pub Ensures-maybe_pair :
      {B C : Type 0} (R : Option (B × C) → Type 0) (m : Action S A) (f : B → C → Action S A)
      → (R none → Ensures P Q m)
      → ((b : B) (c : C) → R (some (b, c)) → Ensures P Q (f b c))
      → (o : Option (B × C)) → R o
      → Ensures P Q (maybe_pair m f o)
  Ensures-maybe_pair R m f km kf none r = km r
  Ensures-maybe_pair R m f km kf (some (b, c)) r = kf b c r

pub Returns-mono :
    {A : Type 0} {Q R : A → Type 0} (r : Result A)
    → ((a : A) → Q a → R a)
    → Returns Q r
    → Returns R r
Returns-mono (ok a) f q = f a q
Returns-mono (throw e) f q = tt
Returns-mono exit f q = tt
Returns-mono undefined f q = q
Returns-mono out_of_fuel f q = q

pub Returns-bind :
    {A B : Type 0} (Q : A → Type 0) (R : B → Type 0) (m : Result A) (f : A → Result B)
    → Returns Q m
    → ((a : A) → Q a → Returns R (f a))
    → Returns R (Errors.◌>>=◌ m f)
Returns-bind Q R (ok a) f q k = k a q
Returns-bind Q R (throw e) f q k = tt
Returns-bind Q R exit f q k = tt
Returns-bind Q R undefined f q k = q
Returns-bind Q R out_of_fuel f q k = q

recover-Returns :
    {A : Type 0} (Q : A → Type 0) (a : A) (r : Result A)
    → Q a
    → Returns Q r
    → Returns Q (recover a r)
recover-Returns Q a (ok b) q d = d
recover-Returns Q a (throw e) q d = q
recover-Returns Q a exit q d = tt
recover-Returns Q a undefined q d = d
recover-Returns Q a out_of_fuel q d = d

module _ {S A : Type 0} {P : S → Type 0} {Q : A → Type 0} where
  pub Ensures-catch_all :
      (a : A) (m : Action S A) → Q a → Ensures P Q m → Ensures P Q (catch_all a m)
  unfolding catch_all
  Ensures-catch_all a m q k = record {
    state = λ s h. k.state s h;
    result = λ s h. recover-Returns Q a (m s).0 q (k.result s h);
  }

  -- A consequence of the value's property.
  pub Ensures-mono :
      {R : A → Type 0} (m : Action S A) → ((a : A) → Q a → R a) → Ensures P Q m → Ensures P R m
  Ensures-mono {R} m f k = record {
    state = k.state;
    result = λ s h. Returns-mono (m s).0 f (k.result s h);
  }

module _ {S A B : Type 0} {P : S → Type 0} {Q : A → Type 0} {R : B → Type 0} where
  bind-lift :
      (r : Result A) (f : A → Action S B)
      → ((a : A) → Q a → Ensures P R (f a))
      → Returns Q r
      → Ensures P R (lift r >>= f)
  unfolding ◌>>=◌
  bind-lift (ok a) f kf d = kf a d
  bind-lift (throw e) f kf d = record { state = λ s h. h; result = λ s h. tt }
  bind-lift exit f kf d = record { state = λ s h. h; result = λ s h. tt }
  bind-lift undefined f kf d = absurd d
  bind-lift out_of_fuel f kf d = absurd d

  pub Ensures-bind :
      (m : Action S A) (f : A → Action S B)
      → Ensures P Q m
      → ((a : A) → Q a → Ensures P R (f a))
      → Ensures P R (m >>= f)
  unfolding ◌>>=◌
  Ensures-bind m f km kf = record {
    state = λ s h. (bind-lift (m s).0 f kf (km.result s h)).state (m s).1 (km.state s h);
    result = λ s h. (bind-lift (m s).0 f kf (km.result s h)).result (m s).1 (km.state s h);
  }
