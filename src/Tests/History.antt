-- ===== src/Tests/History.antt =====
-- A script whose first state matches a variable of the environment: its groups stay in the state.
use smarty_appserver.Prelude.{
  pos, ◌≡◌, refl, Option, none, some, List, [], ◌∷◌, Text, codes, replicate, lookup, insert,
  text_eq, c_str,
}
use smarty_appserver.CppString.{find, first_char}
use smarty_appserver.Errors.{ok}
use smarty_appserver.Action.{◌>>=◌, catch_all}
use smarty_appserver.Http.{url_decode, url_decode_loop}
use smarty_appserver.Parser.Script.{find_state}
use smarty_appserver.Regex.{regexec}
use smarty_appserver.State.{State, regex, end, new_state}
use smarty_appserver.State.Execute.{execute}
use smarty_appserver.State.Execute.Matching.{
  execute_regex, substrings, no_substrings, assign_and_go,
}
use smarty_appserver.State.Execute.Output.{execute_end, emit_lines}
use smarty_appserver.State.Verify.{starts_with_nocase}
use smarty_appserver.World.{World, put_out}
use smarty_appserver.Assigner.{assign_local, get_local, get_value, reset_table, free_all, strdup}
use smarty_appserver.Assigner.Evaluate.{assign_all}
use smarty_appserver.Server.{hold, read_script_name, run_script, run_state, update_state}
use smarty_appserver.Server.Request.{
  Request, Scripts, query_text, split_pair, handle_request, dispatch, import_variables,
  assign_params, assign_env, assign_env_var, get_local_ptr,
}
use smarty_appserver.Server.Request.Isolated.{forget_files, isolated}
use smarty_appserver.Server.Request.History.{FilesHaveSenders, serve_all, handle_request-isolated}
use smarty_appserver.Tests.Sample.{sample, bare, fresh, letter, letter_exec, get_params}

abbrev matching : List (Option Text) → State
matching groups =
    record (new_state (pos 1) (codes "s.sl") (
      regex (record {
        match_var = codes "@0.A";
        regex = some (letter b'b');
        substring = groups;
        assignments = [];
      }))) { next_state = pos 2; error_state = pos 2 }

abbrev ending : State
ending = new_state (pos 2) (codes "s.sl") (end (record { out_list = []; interpret_flag = [] }))

abbrev with_groups : List (Option Text) → Scripts
with_groups groups = record {
  by_name = (codes "f", codes "s.sl") ∷ [];
  by_file = (codes "s.sl", some ((pos 1, matching groups) ∷ (pos 2, ending) ∷ [])) ∷ [];
  entries = (codes "f", pos 1) ∷ [];
}

-- GET ?function=f with A=bc
abbrev get_bc : Request
get_bc = record { get_param = get_params; get_str = λ n. []; envp = codes "A=bc" ∷ [] }

abbrev answered : World (Unit {0})
answered = record { table = []; out = codes "Content-type: text/html\r\n\r\n"; ext = tt }

abbrev found_groups : List (Option Text)
found_groups = some (codes "bc") ∷ some (codes "c") ∷ some [] ∷ replicate 17 none

served_bc :
    serve_all sample bare [] (some []) 5 0 (get_bc ∷ []) (with_groups no_substrings) fresh
    ≡ (ok (with_groups found_groups), answered)
unfolding serve_all handle_request query_text starts_with_nocase text_eq url_decode url_decode_loop
    import_variables assign_params assign_env assign_env_var split_pair find c_str assign_local
    get_local_ptr hold read_script_name strdup dispatch lookup insert put_out run_script run_state
    find_state execute execute_regex get_value get_local regexec letter_exec substrings
    assign_and_go update_state execute_end reset_table ◌>>=◌ new_state first_char catch_all
    assign_all emit_lines free_all
served_bc = refl

have_senders : FilesHaveSenders (forget_files (with_groups no_substrings).by_file)
unfolding new_state
have_senders = ((tt, (tt, tt)), tt)

-- The groups of the first request do not matter to the second.
handle_request-isolated_example :
    (answered.table ≡ [])
    × (isolated sample bare []
          (some [])
          5
          (handle_request sample bare [] (some []) 5 0 (with_groups found_groups) get_bc answered)
        ≡ isolated sample bare [] (some []) 5 (
            handle_request sample bare []
              (some [])
              5
              0
              (with_groups no_substrings)
              get_bc
              answered))
handle_request-isolated_example =
    handle_request-isolated sample bare [] (some []) 5 0 (get_bc ∷ []) (with_groups no_substrings)
      (with_groups found_groups) get_bc fresh answered refl have_senders served_bc
