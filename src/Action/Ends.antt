-- ===== src/Action/Ends.antt =====
-- Where a call ends: a value and a state, or the state that an exception or the end of the process
-- leaves behind.
use mathlib.Core.Path.{subst}
use smarty_appserver.Prelude.{Bool, true, false, ◌≡◌, refl, if◌then◌else◌}
use smarty_appserver.Errors.{Result, ok, throw, exit, undefined, out_of_fuel}
use smarty_appserver.Action.Ensures.{Returns}
use smarty_appserver.Action.{Action, pure, lift, continue, ◌>>=◌}

abbrev pub EndsAt : {S A : Type 0} → (A → S → Type 0) → (S → Type 0) → Result A → S → Type 0
EndsAt Q E (ok a) s = Q a s
EndsAt Q E (throw e) s = E s
EndsAt Q E exit s = E s
EndsAt Q E undefined s = ⊥
EndsAt Q E out_of_fuel s = ⊥

-- `Q` of the value and the state; `E` of the state, if there is no value. No undefined behaviour and
-- no loop without end.
pub record Ends {S A : Type 0} (Q : A → S → Type 0) (E : S → Type 0) (r : Result A × S)
    : Type 0 where
  pub at : EndsAt Q E r.0 r.1

-- `P` of the state, with or without a value.
abbrev pub Keeps : {S A : Type 0} → (S → Type 0) → Result A × S → Type 0
Keeps P r = Ends (λ a s. P s) P r

module _ {S A : Type 0} {Q : A → S → Type 0} {E : S → Type 0} where
  pub Ends-ok : (a : A) (s : S) → Q a s → Ends Q E (ok a, s)
  Ends-ok a s q = record { at = q }

  pub Ends-pure : (a : A) (s : S) → Q a s → Ends Q E (pure a s)
  unfolding pure
  Ends-pure a s q = record { at = q }

  pub Ends-lift : (r : Result A) (s : S) → EndsAt Q E r s → Ends Q E (lift r s)
  unfolding lift
  Ends-lift r s h = record { at = h }

  pub Ends-lift_ok : (r : Result A) (a : A) (s : S) → r ≡ ok a → Q a s → Ends Q E (lift r s)
  unfolding lift
  Ends-lift_ok r a s e q = rw e (record { at = q })

  pub Ends-exit : (s : S) → E s → Ends Q E (exit, s)
  Ends-exit s e = record { at = e }

  pub Ends-mono :
      {R : A → S → Type 0} {F : S → Type 0} (r : Result A × S)
      → ((a : A) (s : S) → Q a s → R a s)
      → ((s : S) → E s → F s)
      → Ends Q E r
      → Ends R F r
  Ends-mono (ok a, s) f g h = record { at = f a s h.at }
  Ends-mono (throw e, s) f g h = record { at = g s h.at }
  Ends-mono (exit, s) f g h = record { at = g s h.at }
  Ends-mono (undefined, s) f g h = record { at = h.at }
  Ends-mono (out_of_fuel, s) f g h = record { at = h.at }

  pub Ends-if :
      (b : Bool) (m n : Result A × S)
      → (b ≡ true → Ends Q E m)
      → (b ≡ false → Ends Q E n)
      → Ends Q E (if b then m else n)
  Ends-if true m n km kn = km refl
  Ends-if false m n km kn = kn refl

module _ {S A B : Type 0} {Q : A → S → Type 0} {R : B → S → Type 0} {E : S → Type 0} where
  pub Ends-bind :
      (m : Action S A) (f : A → Action S B) (s : S)
      → Ends Q E (m s)
      → ((a : A) (t : S) → Q a t → Ends R E (f a t))
      → Ends R E ((m >>= f) s)
  unfolding ◌>>=◌
  Ends-bind m f s h k = on (m s).0 (m s).1 h.at
    where
      on : (r : Result A) (t : S) → EndsAt Q E r t → Ends R E (continue r f t)
      on (ok a) t h = k a t h
      on (throw e) t h = record { at = h }
      on exit t h = record { at = h }
      on undefined t h = absurd h
      on out_of_fuel t h = absurd h

-- A composite whose first part is known.
pub bind-known :
    {S A B : Type 0} (m : Action S A) (f : A → Action S B) (s t : S) (r : Result A)
    → m s ≡ (r, t)
    → (m >>= f) s ≡ continue r f t
unfolding ◌>>=◌
bind-known m f s t r e = rw e refl

pub Ends-at :
    {S A : Type 0} {Q : A → S → Type 0} {E : S → Type 0} (r : Result A × S) (a : A) (s : S)
    → r ≡ (ok a, s)
    → Ends Q E r
    → Q a s
Ends-at {Q} {E} r a s e h = (subst (Ends Q E) e h).at

-- The rules of an invariant and a result say where a call ends.
pub Ends-of :
    {S A : Type 0} {Q : A → Type 0} {P : S → Type 0} (r : Result A × S)
    → P r.1
    → Returns Q r.0
    → Ends (λ a s. Q a × P s) P r
Ends-of (ok a, s) p q = record { at = (q, p) }
Ends-of (throw e, s) p q = record { at = p }
Ends-of (exit, s) p q = record { at = p }
Ends-of (undefined, s) p q = absurd q
Ends-of (out_of_fuel, s) p q = absurd q

-- A call that can only return.
pub Ends-returned :
    {S A : Type 0} {Q : A → S → Type 0} (r : Result A × S)
    → Ends Q (λ s. ⊥) r
    → (a : A) × (s : S) × (r ≡ (ok a, s)) × Q a s
Ends-returned (ok a, s) h = (a, s, refl, h.at)
Ends-returned (throw e, s) h = absurd h.at
Ends-returned (exit, s) h = absurd h.at
Ends-returned (undefined, s) h = absurd h.at
Ends-returned (out_of_fuel, s) h = absurd h.at

module _ {S A B : Type 0} {Q : B → S → Type 0} {E : S → Type 0} where
  pub Ends-pure_first :
      (a : A) (f : A → Action S B) (s : S) → Ends Q E (f a s) → Ends Q E ((pure a >>= f) s)
  unfolding pure ◌>>=◌
  Ends-pure_first a f s h = h

  pub Ends-lift_first :
      (r : Result A) (a : A) (f : A → Action S B) (s : S)
      → r ≡ ok a
      → Ends Q E (f a s)
      → Ends Q E ((lift r >>= f) s)
  unfolding lift ◌>>=◌
  Ends-lift_first r a f s e h = rw e h
