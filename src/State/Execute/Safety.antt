-- ===== src/State/Execute/Safety.antt =====
-- A state whose members are as `parse` and `verify` leave them, run over a table that owns its
-- strings and holds the one of `scriptName`. The states "http" and "shell" are left out, as they store
-- the address of a local string, and "mail", whose lines may be longer than the buffer of curl.
pub mod Output
pub mod Matching
pub mod Query
use Output.{execute_end-Ensures, execute_file-Ensures}
use Matching.{
  execute_goto-Ensures, execute_regex-Ensures, execute_match-Ensures, execute_structure-Ensures,
}
use Query.{execute_query-Ensures}
use smarty_appserver.Prelude.{
  ℕ, zero, suc, ℤ, ◌≡◌, refl, ◌⊎◌, inl, inr, Bool, true, false, Option, none, some, List, [], ◌∷◌,
  Text, All, length, arith, if◌then◌else◌, ◌==◌, codes, ◌++◌, c_str, Option-cases,
}
use smarty_appserver.Errors.{Result, ok, throw, undefined}
use smarty_appserver.Action.{Action, pure, lift, catch_all, ◌>>=◌, ◌>>◌}
use smarty_appserver.Action.Ensures.{
  Returns, Ensures, Returns, Returns-mono, Any, Ensures-pure, Ensures-lift, Ensures-bind,
  Ensures-catch_all, Ensures-mono,
}
use smarty_appserver.Regex.{Regex, matched, no_match, failed, regexec, regmatch_count}
use smarty_appserver.Database.{
  Database, DbMap, get_database, query_row, QueryResult, sql_failed, no_rows, first_row,
}
use smarty_appserver.Parser.{Externals}
use smarty_appserver.State.{
  State, Body, end, file, regex, query, match, http, mail, sms, script, shell, structure, goto,
  Assignment, EndBody, FileBody, RegexBody, QueryBody, MatchBody, MailBody, StructBody, end_state,
}
use smarty_appserver.State.Execute.{execute, execute_body}
use smarty_appserver.State.Execute.Output.{
  emit_lines, execute_end, execute_file, write_file, open_file, print_line, write_line,
}
use smarty_appserver.State.Execute.Matching.{
  substrings, no_substrings, pick_case, assign_and_go, execute_goto, execute_regex, execute_match,
  execute_query, execute_structure, on_match_value, with_tree, on_regexec, on_regex, on_regex_value,
  on_structure_value, on_tree, parse_tree, use_database,
}
use smarty_appserver.State.Execute.Services.{
  execute_mail, mail_if, sender, send_mail, compose_mail, data_lines, from_domain, on_mail,
}
use smarty_appserver.World.{
  World, System, put_out, set_ext, MailRequest, CurlResult, setopt_failed, perform_failed,
  performed,
}
use smarty_appserver.Assigner.Held.{IsIntact, get_value-Intact, put_out-Intact, set_ext-Intact}
use smarty_appserver.Assigner.Evaluate.Laws.{IsLawful, IsPlain, IsPlainAssignment}
use smarty_appserver.Assigner.Evaluate.Safety.{evaluate-Ensures, assign_all-Ensures}
use smarty_appserver.State.Execute.Exits.{OneOf, exits, IsSafeBody, Leads}

module _ {S : Type 0} {sel : Text} (x : Externals) (lawful : IsLawful x) (sys : System S)
    (st : State) where
  execute_body-Ensures :
      (dbs : DbMap) (b : Body)
      → st.body ≡ b
      → IsSafeBody sel dbs b
      → Ensures (IsIntact {S = S} sel) (Leads sel dbs st) (execute_body x sys dbs st b)
  unfolding execute_body exits
  execute_body-Ensures dbs (end b) e p = execute_end-Ensures x lawful sys st dbs b e p
  execute_body-Ensures dbs (file b) e p = execute_file-Ensures x lawful sys st dbs b e p
  execute_body-Ensures dbs (regex b) e p = execute_regex-Ensures x lawful sys st dbs b e p
  execute_body-Ensures dbs (query b) e p = execute_query-Ensures x lawful sys st dbs b e p
  execute_body-Ensures dbs (match b) e p = execute_match-Ensures x lawful sys st dbs b e p
  execute_body-Ensures dbs (http b) e p = absurd p
  execute_body-Ensures dbs (mail b) e p = absurd p
  execute_body-Ensures dbs sms e p = Ensures-pure _ (rw e (inl refl, tt, refl))
  execute_body-Ensures dbs script e p = Ensures-pure _ (rw e (inl refl, tt, refl))
  execute_body-Ensures dbs (shell b) e p = absurd p
  execute_body-Ensures dbs (structure b) e p = execute_structure-Ensures x lawful sys st dbs b e p
  execute_body-Ensures dbs (goto asgs) e p = execute_goto-Ensures x lawful sys st dbs asgs e p

  pub execute-Ensures :
      (dbs : DbMap)
      → IsSafeBody sel dbs st.body
      → Ensures (IsIntact {S = S} sel) (Leads sel dbs st) (execute x sys dbs st)
  unfolding execute
  execute-Ensures dbs p = execute_body-Ensures dbs st.body refl p
