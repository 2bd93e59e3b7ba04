-- ===== src/State/Execute/Transient.antt =====
-- The members of a state that its runs leave behind: no later run reads them.
use smarty_appserver.Prelude.{◌≡◌, refl, none, []}
use smarty_appserver.Database.{DbMap}
use smarty_appserver.Parser.{Externals}
use smarty_appserver.State.{
  State, Body, end, file, regex, query, match, http, mail, sms, script, shell, structure, goto,
}
use smarty_appserver.State.Execute.{execute, execute_body}
use smarty_appserver.State.Execute.Matching.{
  no_substrings, execute_regex, execute_query, execute_structure, assign_and_go,
}
use smarty_appserver.World.{System}

-- The groups of the last match, the row of the last query, the tree of the last document.
abbrev pub forget_body : Body → Body
forget_body (regex b) = regex (record b { substring = no_substrings })
forget_body (query b) = query (record b { result = none })
forget_body (structure b) = structure (record b { tree = λ path. [] })
forget_body b = b

abbrev pub forget : State → State
forget st = record st { body = forget_body st.body }

module _ {S : Type 0} (x : Externals) (sys : System S) (dbs : DbMap) where
  execute_body-forget :
      (st : State) (b : Body)
      → execute_body x sys dbs (record st { body = forget_body b }) (forget_body b)
        ≡ execute_body x sys dbs (record st { body = b }) b
  unfolding execute_body execute_regex execute_query execute_structure assign_and_go
  execute_body-forget st (end b) = refl
  execute_body-forget st (file b) = refl
  execute_body-forget st (regex b) = refl
  execute_body-forget st (query b) = refl
  execute_body-forget st (match b) = refl
  execute_body-forget st (http b) = refl
  execute_body-forget st (mail b) = refl
  execute_body-forget st sms = refl
  execute_body-forget st script = refl
  execute_body-forget st (shell b) = refl
  execute_body-forget st (structure b) = refl
  execute_body-forget st (goto asgs) = refl

  -- A run does not depend on what earlier runs of its state have left.
  pub execute-forget : (st : State) → execute x sys dbs (forget st) ≡ execute x sys dbs st
  unfolding execute
  execute-forget st = execute_body-forget st st.body
