-- ===== src/Server/Child.antt =====
-- src/preforked.cpp, processRequest: a child from its fork on, with its slot and the requests that it
-- accepts.
pub mod Safety
pub mod AtExit
use smarty_appserver.Prelude.{ℕ, Bool, Option, List, [], ◌∷◌, Text, if◌then◌else◌}
use smarty_appserver.Errors.{Result, ok, throw, exit, undefined, out_of_fuel}
use smarty_appserver.Errors
use smarty_appserver.Action.{Action, pure, lift, ◌>>=◌}
use smarty_appserver.Database.{DbMap}
use smarty_appserver.Database.Connect.{connect_dbs}
use smarty_appserver.Parser.{Externals}
use smarty_appserver.Pool.{Slot, st_idle, st_busy, occupy, set_slot_state}
use smarty_appserver.Server.Request.{Request, Scripts, handle_request}
use smarty_appserver.World.{World, System}

-- What FCGX_Accept_r gives: an error, or a request with SERVER_PROTOCOL, if that is set. `initial` is what the local
-- variable of urlDecode holds before the first escape.
pub data Arrival : Type 0 where
  accept_failed : Arrival
  arrived : Option Text → ℕ → Request → Arrival

module _ (x : Externals) (can_connect : Text → Bool) (num pid : ℕ) where
  -- The exceptions of connectDBs end the child.
  abbrev pub on_connected : List Slot → Result (Unit {0}) × DbMap → Result (DbMap × List Slot)
  on_connected slots (ok u, dbs) =
      Errors.◌>>=◌ (occupy num pid slots)
        (λ busy. Errors.◌>>=◌ (set_slot_state num st_idle busy) (λ idle. ok (dbs, idle)))
  on_connected slots (throw e, dbs) = exit
  on_connected slots (exit, dbs) = exit
  on_connected slots (undefined, dbs) = undefined
  on_connected slots (out_of_fuel, dbs) = out_of_fuel

  -- What comes before the loop; without memcached the child ends.
  unfoldable pub start_child : Bool → List Slot → DbMap → Result (DbMap × List Slot)
  start_child memcached slots dbs =
      if memcached then on_connected slots (connect_dbs x can_connect dbs) else exit

module _ {S : Type 0} (x : Externals) (sys : System S) (fuel num : ℕ) where
  abbrev pub on_arrival :
      DbMap → Scripts → List Slot → Arrival → Action (World S) (Scripts × List Slot)
  on_arrival dbs scripts slots accept_failed = lift exit
  on_arrival dbs scripts slots (arrived protocol initial r) =
      handle_request x sys dbs protocol fuel initial scripts r >>= λ scripts'.
      lift (set_slot_state num st_idle slots) >>= λ idle. pure (scripts', idle)

  -- One round of `while(1)`: the slot is busy from the accept to the end of the request.
  abbrev pub serve_one :
      DbMap → Scripts × List Slot → Arrival → Action (World S) (Scripts × List Slot)
  serve_one dbs (scripts, slots) a =
      lift (set_slot_state num st_busy slots) >>= λ busy. on_arrival dbs scripts busy a

  -- The loop, for as many requests as arrive. The output is that of all of them.
  unfoldable pub serve :
      DbMap → Scripts × List Slot → List Arrival → Action (World S) (Scripts × List Slot)
  serve dbs st [] = pure st
  serve dbs st (a ∷ rest) = serve_one dbs st a >>= λ st'. serve dbs st' rest

  -- processRequest
  unfoldable pub run_child :
      (Text → Bool)
      → ℕ
      → Bool
      → Scripts
      → List Slot
      → DbMap
      → List Arrival
      → Action (World S) (Scripts × List Slot)
  run_child can_connect pid memcached scripts slots dbs arrivals =
      lift (start_child x can_connect num pid memcached slots dbs) >>= λ p.
      serve p.0 (scripts, p.1) arrivals
