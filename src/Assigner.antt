-- ===== src/Assigner.antt =====
-- src/cassigner.cpp: CAssigner, the variables of a request.
pub mod Evaluate
pub mod Ownership
pub mod Held
pub mod Frame
pub mod Assign
pub mod Refinement
use smarty_appserver.Prelude.{
  ℕ, Bool, true, false, Option, none, some, List, [], ◌∷◌, Text, lookup, insert, ◌==◌,
  if◌then◌else◌, c_str,
}
use smarty_appserver.CppString.{first_char}
use smarty_appserver.Errors.{Result, ok, throw, undefined, memcache_error, ◌>>=◌}
use smarty_appserver.Action.{Action}
use smarty_appserver.World.{World, System, Value, owned, held, dangling, Table}

-- free(p)
unfoldable pub free : Option Value → Result (Unit {0})
free none = ok tt
free (some (owned t)) = ok tt
free (some (held t)) = ok tt
free (some dangling) = undefined

-- strdup(p)
unfoldable pub strdup : Option Value → Result (Option Text)
strdup none = ok none
strdup (some (owned t)) = ok (some t)
strdup (some (held t)) = ok (some t)
strdup (some dangling) = undefined

-- `for(it : m_symTable) free(it.second);`
unfoldable pub free_all : Table → Result (Unit {0})
unfolding free
free_all [] = ok tt
free_all ((k, v) ∷ m) = free (some v) >>= λ _. free_all m

abbrev store_if : Result (Unit {0}) → Table → Table → Result (Unit {0}) × Table
store_if (ok u) new old = (ok tt, new)
store_if r new old = (r, old)

module _ {S : Type 0} where
  abbrev with_table : World S → Result (Unit {0}) × Table → Result (Unit {0}) × World S
  with_table w (r, t) = (r, record w { table = t })

  -- CAssigner::assignLocal
  unfoldable pub assign_local : Text → Option Value → Action (World S) (Unit {0})
  unfolding free
  assign_local var none w = (ok tt, w)
  assign_local var (some val) w =
      with_table w (store_if (free (lookup var w.table)) (insert var val w.table) w.table)

  -- CAssigner::getLocal
  unfoldable pub get_local : Text → Action (World S) (Option Text)
  unfolding strdup
  get_local var w = (strdup (lookup var w.table), w)

  -- CAssigner::resetTable
  unfoldable pub reset_table : Action (World S) (Unit {0})
  reset_table w = with_table w (store_if (free_all w.table) [] w.table)

module _ {S : Type 0} (sys : System S) where
  -- CAssigner::assignGlobal
  unfoldable pub assign_global : Text → Option Text → Action (World S) (Unit {0})
  assign_global var none w = (ok tt, w)
  assign_global var (some val) w = elim (sys.memcached_set w.ext var val) [
    | none ↦ (throw memcache_error, w)
    | some ext' ↦ (ok tt, record w { ext = ext' })
  ]

  -- CAssigner::getGlobal
  unfoldable pub get_global : Text → Action (World S) (Option Text)
  get_global var w = elim (sys.memcached_get w.ext var) [
    | none ↦ (throw memcache_error, w)
    | some out ↦ (ok (some out), w)
  ]

  -- CAssigner::getValue
  unfoldable pub get_value : Text → Action (World S) (Option Text)
  unfolding get_local get_global
  get_value var = if first_char var == b'&' then get_global var else get_local var
