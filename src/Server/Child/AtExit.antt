-- ===== src/Server/Child/AtExit.antt =====
-- src/preforked.cpp, child_atexit_handler: what a child frees when it exits.
use smarty_appserver.Prelude.{◌↔◌, ◌≡◌, Bool, Option, List, Text, All}
use smarty_appserver.Errors.{Result, ok, ◌>>=◌, bind-ok}
use smarty_appserver.Database.{DbMap}
use smarty_appserver.Database.Connect.{connect_dbs, disconnect_dbs, disconnect_dbs-connected}
use smarty_appserver.Parser.{Externals}
use smarty_appserver.Parser.Script.{StateMap}
use smarty_appserver.Start.Free.{free_all_scripts, HasStates, HaveOwnFiles, free_all_scripts_ends}

-- The regexes, the configuration and the descriptors are closed without a condition.
unfoldable pub child_atexit_handler :
    List (Text × Text) → List (Text × Option StateMap) → DbMap → Result (Unit {0})
child_atexit_handler names maps dbs = free_all_scripts names maps >>= λ _. disconnect_dbs dbs

-- The exit of a child whose databases are connected is in order exactly where every name of a script
-- has a file of its own and every such file has states; where two names share a file, which the
-- configuration may say, every child ends with a double free.
pub child_atexit_handler_ends :
    (x : Externals) (can_connect : Text → Bool) (names : List (Text × Text))
    (maps : List (Text × Option StateMap)) (dbs : DbMap)
    → (connect_dbs x can_connect dbs).0 ≡ ok tt
    → (child_atexit_handler names maps (connect_dbs x can_connect dbs).1 ≡ ok tt)
      ↔ (All (HasStates maps) names × HaveOwnFiles names)
unfolding child_atexit_handler
child_atexit_handler_ends x can_connect names maps dbs up = (
  λ e. (free_all_scripts_ends names maps).0 (freed e),
  λ h. rw ((free_all_scripts_ends names maps).1 h) (disconnect_dbs-connected x can_connect dbs up),
)
  where
    freed :
        child_atexit_handler names maps (connect_dbs x can_connect dbs).1 ≡ ok tt
        → free_all_scripts names maps ≡ ok tt
    freed e = let (u, (rest, first)) = bind-ok _ (free_all_scripts names maps) e in first
