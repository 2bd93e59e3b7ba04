-- ===== src/Assigner/Assign.antt =====
-- src/cassigner.cpp, assign: which value goes where.
use smarty_appserver.Prelude.{
  ◌≡◌, false, none, some, List, ◌∷◌, Text, lookup-insert, text_eq, ◌==◌, if◌then◌else◌, arith,
}
use smarty_appserver.CppString.{first_char}
use smarty_appserver.Errors.{ok, throw, memcache_error}
use smarty_appserver.Action.{◌>>=◌}
use smarty_appserver.Parser.{Externals}
use smarty_appserver.State.{State}
use smarty_appserver.World.{World, System, owned}
use smarty_appserver.Assigner.{strdup, get_local, get_global, assign_local}
use smarty_appserver.Assigner.Ownership.{IsSound, free-lookup-owned}
use smarty_appserver.Assigner.Evaluate.{candidate, first_value, assign}

module _ {S : Type 0} (x : Externals) (sys : System S) (st : State) where
  -- Terms without a value are passed over, and the first value is taken.
  pub first_value-skip :
      (term : Text) (rest : List Text) (w w' : World S)
      → candidate x sys st term w ≡ (ok none, w')
      → first_value x sys st (term ∷ rest) w ≡ first_value x sys st rest w'
  unfolding first_value ◌>>=◌
  first_value-skip term rest w w' e = rw e

  module _ (var : Text) (terms : List Text) (w w' : World S) where
    -- An assignment to a local variable whose terms give a value, leaving a table that owns its
    -- strings: the variable has that value and every other one is as the terms have left it.
    pub assign-some :
        (val : Text)
        → (first_char var == b'&') ≡ false
        → first_value x sys st terms w ≡ (ok (some val), w')
        → IsSound w'
        → (j : Text)
        → (get_local j (assign x sys st (var ∷ terms) w).1).0
          ≡ (if text_eq var j then ok (some val) else (get_local j w').0)
    unfolding assign ◌>>=◌ assign_local get_local strdup
    assign-some val k e sound j =
        rw (e, k, free-lookup-owned var w'.table sound)
          (ground (arith, lookup-insert var j (owned val) w'.table))

    -- An assignment none of whose terms has a value changes no variable.
    pub assign-none :
        first_value x sys st terms w ≡ (ok none, w') → assign x sys st (var ∷ terms) w ≡ (ok tt, w')
    unfolding assign ◌>>=◌
    assign-none e = rw e

  -- A global variable as the first term, which memcached does not return, ends the whole assignment with
  -- an exception: the terms after it are not tried, whatever they are.
  pub assign_global_missing :
      (var name : Text) (rest : List Text) (w : World S)
      → sys.memcached_get w.ext (b'&' ∷ name) ≡ none
      → assign x sys st (var ∷ (b'&' ∷ name) ∷ rest) w ≡ (throw memcache_error, w)
  unfolding assign first_value candidate first_char get_global ◌>>=◌
  assign_global_missing var name rest w e = rw (e, assign, first_value, candidate, get_global)
