-- ===== src/Tests/Requests.antt =====
-- "GET ?function=f" runs the script of one_script, and "GET ?function=g" none.
use smarty_appserver.Prelude.{
  pos, ◌≡◌, ◌==◌, refl, Option, none, some, [], ◌∷◌, Text, codes, lookup, text_eq, c_str,
  if◌then◌else◌,
}
use smarty_appserver.CppString.{find}
use smarty_appserver.Errors.{ok}
use smarty_appserver.Action.{pure, ◌>>=◌}
use smarty_appserver.World.{World}
use smarty_appserver.Http.{url_decode, url_decode_loop}
use smarty_appserver.Assigner.Refinement.{Represents}
use smarty_appserver.State.Verify.{starts_with_nocase}
use smarty_appserver.Assigner.Held.{IsHeld}
use smarty_appserver.Server.{run_script, script_selector, read_script_name}
use smarty_appserver.Server.Request.{
  Request, query_text, split_pair, after_run, finish, handle_request,
}
use smarty_appserver.Server.Request.Import.{variables_of}
use smarty_appserver.Server.Request.Outcome.{
  IsRefused, refusal, handle_request_refused, handle_request_runs,
}
use smarty_appserver.Tests.Sample.{sample, bare, fresh, one_script, two_states, get_f}
use smarty_appserver.Tests.Serving.{get_f-Fits}

abbrev get_params_g : Text → Option Text
get_params_g (c ∷ s) =
    if c == b'R' then some (codes "GET") else if c == b'Q' then some (codes "function=g") else none
get_params_g [] = none

abbrev get_g : Request
get_g = record { get_param = get_params_g; get_str = λ n. []; envp = codes "A=b" ∷ [] }

get_g-query : query_text sample get_g ≡ ok (pos 10, codes "function=g")
unfolding query_text starts_with_nocase text_eq
get_g-query = refl

get_f-query : query_text sample get_f ≡ ok (pos 10, codes "function=f")
unfolding query_text starts_with_nocase text_eq
get_f-query = refl

selects_g :
    variables_of sample bare [] (some []) 0 (codes "function=g") get_g.envp (codes "@0.function")
    ≡ some (codes "g")
unfolding url_decode split_pair find text_eq c_str url_decode_loop
selects_g = refl

selects_f :
    variables_of sample bare [] (some []) 0 (codes "function=f") get_f.envp (codes "@0.function")
    ≡ some (codes "f")
unfolding url_decode split_pair find text_eq c_str url_decode_loop
selects_f = refl

no_g : lookup (codes "g") one_script.entries ≡ none
unfolding lookup text_eq
no_g = refl

handle_request_refused_example :
    handle_request sample bare [] (some []) 5 0 one_script get_g fresh
    ≡ (ok one_script, refusal sample bare [] [] 5 0 fresh)
handle_request_refused_example =
    handle_request_refused sample bare [] [] 5 0 one_script get_g (pos 10) (codes "function=g")
      fresh refl get_f-Fits get_g-query (IsRefused.no_entry (codes "g") selects_g no_g)

f_entry : lookup (codes "f") one_script.entries ≡ some (pos 1)
unfolding lookup text_eq
f_entry = refl

f_name : lookup (codes "f") one_script.by_name ≡ some (codes "s.sl")
unfolding lookup text_eq
f_name = refl

f_file : lookup (codes "s.sl") one_script.by_file ≡ some (some two_states)
unfolding lookup text_eq
f_file = refl

handle_request_runs_example :
    (w' : World (Unit {0})) × Represents
      (variables_of sample bare [] (some []) 0 (codes "function=f") get_f.envp)
      w'
    × IsHeld (script_selector sample) w'.table
    × (w'.out ≡ codes "Content-type: text/html\r\n\r\n")
    × (w'.ext ≡ tt)
    × (handle_request sample bare [] (some []) 5 0 one_script get_f fresh
        ≡ finish sample bare []
            (some [])
            (run_script sample bare [] (some []) 5 two_states (pos 1) >>= λ script'.
              read_script_name (script_selector sample) >>= λ _.
              pure (after_run sample bare [] (some []) one_script (codes "s.sl") script'))
            w')
handle_request_runs_example =
    handle_request_runs sample bare [] [] 5 0 one_script get_f (pos 10) (codes "function=f")
      (codes "f") (codes "s.sl") (pos 1) two_states fresh refl get_f-Fits get_f-query refl selects_f
      f_entry f_name f_file
