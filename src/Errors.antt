-- ===== src/Errors.antt =====
-- What a call does when it does not return: include/myexceptions.hpp, the exceptions of the
-- standard library and of boost, `log_error` of src/utils.cpp (which ends the process), and
-- undefined behaviour (a use of memory that is gone).
use mathlib.Core.Path.{subst}
use smarty_appserver.Prelude.{ℕ, ◌≡◌, refl, Text, Bool, true, false, Option, none, some, arith}

-- The messages of src/templates.cpp.in, and `regerror`'s.
pub data Message : Type 0 where
  nested_state syntax_error invalid_state duplicate_state unfinished_state : Message
  assmnt_error file_not_found regex_error : Message

pub data Exception : Type 0 where
  parser_error : Text → Message → ℕ → Exception
  undefined_value runtime_error invalid_argument out_of_range : Exception
  bad_lexical_cast ptree_error memcache_error sql_error : Exception
  unsupported_feature : Exception

pub data Result {ℓ} (A : Type ℓ) : Type ℓ where
  ok : A → Result A
  throw : Exception → Result A
  exit : Result A
  undefined : Result A
  out_of_fuel : Result A

infixl 5 ◌>>=◌ ◌>>◌
abbrev pub ◌>>=◌ {ℓ κ} : {A : Type ℓ} {B : Type κ} → Result A → (A → Result B) → Result B
ok a >>= f = f a
throw e >>= f = throw e
exit >>= f = exit
undefined >>= f = undefined
out_of_fuel >>= f = out_of_fuel

abbrev pub ◌>>◌ {ℓ} : {B : Type ℓ} → Result (Unit {0}) → Result B → Result B
m >> k = m >>= λ _. k

-- A composite that returns: what its first part has returned, and the rest from there.
pub bind-ok {ℓ κ} :
    {B : Type κ} {A : Type ℓ} (rest : A → Result B) {value : B} (first : Result A)
    → (first >>= rest) ≡ ok value
    → (got : A) × ((rest got ≡ ok value) × (first ≡ ok got))
bind-ok rest (ok got) returned = (got, (returned, refl))
bind-ok rest (throw t) returned = cc
bind-ok rest exit returned = cc
bind-ok rest undefined returned = cc
bind-ok rest out_of_fuel returned = cc

-- `if(!ok) throw e;`
abbrev pub require : Bool → Exception → Result (Unit {0})
require true e = ok tt
require false e = throw e

abbrev pub or_throw {ℓ} : {A : Type ℓ} → Option A → Exception → Result A
or_throw none e = throw e
or_throw (some a) e = ok a

-- A property of the value, if there is one.
pub record OnOk {A : Type 0} (Q : A → Type 0) (r : Result A) : Type 0 where
  pub at : (a : A) → r ≡ ok a → Q a

module _ {A : Type 0} {Q : A → Type 0} where
  pub OnOk-ok : (a : A) → Q a → OnOk Q (ok a)
  OnOk-ok a q = record { at = λ b e. let same : a ≡ b = cc in subst Q same q }

  pub OnOk-any : (r : Result A) → ((a : A) → Q a) → OnOk Q r
  OnOk-any r q = record { at = λ a e. q a }

  pub OnOk-exit : OnOk Q exit
  OnOk-exit = record { at = λ b e. absurd (ground arith) }

  pub OnOk-throw : (t : Exception) → OnOk Q (throw t)
  OnOk-throw t = record { at = λ b e. absurd (ground arith) }

module _ {A B : Type 0} {R : B → Type 0} where
  pub OnOk-bind :
      {Q : A → Type 0} (m : Result A) (f : A → Result B)
      → OnOk Q m
      → ((a : A) → Q a → OnOk R (f a))
      → OnOk R (m >>= f)
  OnOk-bind m f q k = record {
    at = λ b e. let (a, (r, p)) = bind-ok f m e in (k a (q.at a p)).at b r;
  }

  -- The same, where nothing is known of the first value.
  pub OnOk-bind_any :
      (m : Result A) (f : A → Result B) → ((a : A) → OnOk R (f a)) → OnOk R (m >>= f)
  OnOk-bind_any m f k = record { at = λ b e. let (a, (r, p)) = bind-ok f m e in (k a).at b r }
