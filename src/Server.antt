-- ===== src/Server.antt =====
-- src/preforked.cpp, processRequest: one request of a child, from its parameters to the end of its
-- script.
pub mod Request
pub mod Child
pub mod Held
pub mod Termination
pub mod Isolation
pub mod Senders
use smarty_appserver.Prelude.{
  ℕ, zero, suc, ℤ, true, false, Option, none, some, List, [], ◌∷◌, Text, int_eq, if◌then◌else◌,
  codes, lookup, insert,
}
use smarty_appserver.Errors.{Result, ok, undefined, out_of_fuel}
use smarty_appserver.Action.{Action, pure, lift, ◌>>=◌, ◌>>◌}
use smarty_appserver.Database.{DbMap}
use smarty_appserver.Http.{http_status}
use smarty_appserver.Parser.{Externals}
use smarty_appserver.Parser.Script.{StateMap, find_state}
use smarty_appserver.State.{State, end_state}
use smarty_appserver.State.Execute.{execute}
use smarty_appserver.World.{World, System, Value, owned, held, Table, put_out}

-- PARAMBUF_LENGTH
abbrev pub parambuf_length : ℕ
parambuf_length = 1024

-- The object that a state number is bound to has changed in place.
unfoldable pub update_state : ℤ → State → StateMap → StateMap
update_state n s [] = []
update_state n s ((k, old) ∷ m) =
    let rest = update_state n s m in if int_eq k n then (k, s) ∷ m else (k, old) ∷ rest

-- `scriptName` points to the value of this variable, too.
abbrev pub hold_value : Text → Option Value → Table → Table
hold_value var (some (owned t)) table = insert var (held t) table
hold_value var _ table = table

abbrev is_held : Option Value → Result (Unit {0})
is_held (some (held t)) = ok tt
is_held _ = undefined

module _ {S : Type 0} where
  unfoldable pub hold : Text → Action (World S) (Unit {0})
  hold var w = (ok tt, record w { table = hold_value var (lookup var w.table) w.table })

  -- A read through `scriptName`: an assignment to the variable has freed the string.
  unfoldable pub read_script_name : Text → Action (World S) (Unit {0})
  read_script_name var w = (is_held (lookup var w.table), w)

  -- FCGX_PutS(HTTPstatus(protocol, …), out): without a protocol, snprintf gets a null pointer.
  abbrev pub respond : Option Text → ℕ → Action (World S) (Unit {0})
  respond none c = lift undefined
  respond (some protocol) c = put_out (http_status protocol c parambuf_length)

abbrev or_default : Option Text → Text → Text
or_default none t = t
or_default (some s) t = s

-- scriptSelector
abbrev pub script_selector : Externals → Text
script_selector x = or_default (x.config_get (codes "common.scriptselector")) (codes "@0.function")

module _ {S : Type 0} (x : Externals) (sys : System S) (dbs : DbMap) (protocol : Option Text) where
  abbrev pub put_status : ℕ → Action (World S) (Unit {0})
  put_status c = respond protocol c

  -- One round of the loop: `none` is a state that is not there, whose warning reads `scriptName`.
  unfoldable pub run_state : StateMap → ℤ → Action (World S) (StateMap × Option ℤ)
  run_state script n = elim (find_state n script) [
    | none ↦
        (read_script_name (script_selector x) >>= λ _. put_status 500) >>= λ _. pure (script, none)
    | some st ↦ execute x sys dbs st >>= λ p. pure (update_state n p.0 script, some p.1)
  ]

  -- `while(nextState != ENDSTATE)`, or the jump to `r_finish`.
  abbrev pub after_round :
      (StateMap → ℤ → Action (World S) StateMap) → StateMap × Option ℤ → Action (World S) StateMap
  after_round again (script, none) = pure script
  after_round again (script, some next) = elim (int_eq next end_state) [
    | true ↦ pure script
    | false ↦ again script next
  ]

  -- The do-while loop. A script may go round for ever: on fuel.
  unfoldable pub run_script : ℕ → StateMap → ℤ → Action (World S) StateMap
  run_script zero script n = lift out_of_fuel
  run_script (suc fuel) script n = run_state script n >>= after_round (run_script fuel)
