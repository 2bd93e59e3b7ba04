-- ===== src/State/Execute.antt =====
-- The virtual method `execute` of the state classes (src/*state.cpp): the action of a state and the
-- number of the next one. The state comes back with the members that the run has changed.
pub mod Columns
pub mod Transient
pub mod Kept
pub mod Output
pub mod Matching
pub mod Services
pub mod Payload
pub mod Reply
pub mod Exits
pub mod Ready
pub mod Safety
pub mod Buffers
pub mod Cases
pub mod Groups
use Output.{execute_end, execute_file}
use Matching.{execute_goto, execute_regex, execute_match, execute_query, execute_structure}
use Services.{execute_shell, execute_http, execute_mail}
use smarty_appserver.Prelude.{ℤ}
use smarty_appserver.Action.{Action, pure}
use smarty_appserver.Database.{DbMap}
use smarty_appserver.Parser.{Externals}
use smarty_appserver.State.{
  State, Body, end, file, regex, query, match, http, mail, sms, script, shell, structure, goto,
}
use smarty_appserver.World.{World, System}

module _ {S : Type 0} (x : Externals) (sys : System S) (dbs : DbMap) where
  execute_body : State → Body → Action (World S) (State × ℤ)
  execute_body st (end b) = execute_end x sys st b
  execute_body st (file b) = execute_file x sys st b
  execute_body st (regex b) = execute_regex x sys st b
  execute_body st (query b) = execute_query x sys st dbs b
  execute_body st (match b) = execute_match x sys st b
  execute_body st (http b) = execute_http x sys st b
  execute_body st (mail b) = execute_mail x sys st b
  execute_body st sms = pure (st, st.next_state)
  execute_body st script = pure (st, st.next_state)
  execute_body st (shell b) = execute_shell x sys st b
  execute_body st (structure b) = execute_structure x sys st b
  execute_body st (goto asgs) = execute_goto x sys st asgs

  unfoldable pub execute : State → Action (World S) (State × ℤ)
  unfolding execute_body
  execute st = execute_body st st.body
