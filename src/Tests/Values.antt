-- ===== src/Tests/Values.antt =====
-- Evaluation, assignment and the states that do it, over a table in which "@a" is "x".
use smarty_appserver.Prelude.{
  All, ◌-◌, take, drop, pos, ◌≡◌, refl, some, List, [], ◌∷◌, Text, codes, lookup, text_eq, c_str,
  arith,
}
use smarty_appserver.CppString.{first_char}
use smarty_appserver.Errors.{ok, undefined}
use smarty_appserver.Regex.{regmatch_count, index, regexec}
use smarty_appserver.Parser.{is_variable, spelling}
use smarty_appserver.State.{RegexBody, State, MatchBody, ShellBody, new_state, shell}
use smarty_appserver.State.Execute.Matching.{
  substrings, no_substrings, execute_regex, assign_and_go, execute_match,
}
use smarty_appserver.State.Execute.Services.{execute_shell}
use smarty_appserver.State.Execute.Buffers.{execute_shell_dangling}
use smarty_appserver.State.Execute.Cases.{execute_match_first}
use smarty_appserver.Assigner.{get_local, get_value, strdup, reset_table}
use smarty_appserver.Assigner.Evaluate.{get_propositional, evaluate, assign_all}
use smarty_appserver.Assigner.Evaluate.Laws.{IsPlain}
use smarty_appserver.Assigner.Evaluate.Substitution.{escape, evaluate-escape}
use smarty_appserver.Assigner.Evaluate.Segments.Meaning.{evaluate-meaning}
use smarty_appserver.Assigner.Evaluate.Segments.{
  Segment, plain, escaped, lone, variable, long_form, text_of, AllRead, meaning,
}
use smarty_appserver.Assigner.Frame.{Spares, assign_all_frame}
use smarty_appserver.State.Execute.Groups.{with_groups, execute_regex_group}
use smarty_appserver.Tests.Sample.{
  sample_int, sample, bare, one_variable, print, greet, name_exec, never, letter, letter_exec,
}

name-IsPlain : IsPlain (codes "@a")
unfolding first_char
name-IsPlain = (refl, (refl, tt))

hi-IsPlain : IsPlain (codes "'hi")
unfolding first_char
hi-IsPlain = (refl, (refl, (refl, tt)))

abbrev set_a : List Text
set_a = codes "@a" ∷ codes "'hi" ∷ []

evaluate-escape_example :
    evaluate sample bare print (escape (codes "a@b\\")) one_variable
    ≡ (ok (codes "a@b\\"), one_variable)
evaluate-escape_example = evaluate-escape sample bare print (codes "a@b\\") one_variable

-- "h", an escaped "@", the variable "@a", a lone "$" and "x".
abbrev mixed : List Segment
mixed =
    plain b'h' ∷ escaped b'@' ∷ variable long_form b'@' (codes "a") ∷ lone b'$' ∷ plain b'x' ∷ []

mixed-AllRead : AllRead sample mixed
unfolding is_variable spelling index regexec name_exec lookup text_eq c_str
mixed-AllRead =
    (refl, (tt, ((refl, omega arith, refl), ((refl, refl, refl, refl, refl), (refl, tt)))))

evaluate-meaning_example :
    evaluate sample bare print (text_of mixed) one_variable
    ≡ (meaning sample bare print mixed one_variable, one_variable)
evaluate-meaning_example = evaluate-meaning sample bare print mixed one_variable mixed-AllRead

mixed-meaning : meaning sample bare print mixed one_variable ≡ ok (codes "h@x$x")
unfolding get_value get_local strdup lookup text_eq c_str first_char
mixed-meaning = refl

abbrev uptime : ShellBody
uptime = record { command = codes "uptime"; outputvar = codes "@u" }

abbrev ask : State
ask = new_state (pos 3) (codes "s") (shell uptime)

execute_shell_dangling_example :
    ((execute_shell sample bare ask uptime one_variable).0 ≡ ok (ask, ask.next_state))
    × ((get_local (codes "@u") (execute_shell sample bare ask uptime one_variable).1).0 ≡ undefined)
    × ((reset_table (execute_shell sample bare ask uptime one_variable).1).0 ≡ undefined)
execute_shell_dangling_example =
    execute_shell_dangling sample bare ask uptime one_variable one_variable (codes "uptime")
      (codes "up") tt (evaluate-escape sample bare ask (codes "uptime") one_variable) (tt, tt) refl

abbrev two_cases : MatchBody
two_cases = record {
  match_var = codes "@a";
  rex_list = never ∷ letter b'x' ∷ [];
  state_list = pos 7 ∷ pos 8 ∷ [];
}

execute_match_first_example :
    execute_match sample bare print two_cases one_variable ≡ (ok (print, pos 8), one_variable)
unfolding get_value get_local strdup lookup text_eq first_char regexec c_str letter_exec
execute_match_first_example =
    execute_match_first sample bare print two_cases one_variable one_variable (codes "x") refl
      (never ∷ []) (pos 7 ∷ []) (letter b'x') (pos 8) [] []
      (some (0, 2) ∷ some (1, 2) ∷ some (2, 2) ∷ []) refl (refl, tt) refl refl refl

abbrev one_group : RegexBody
one_group = record {
  match_var = codes "@a";
  regex = some (letter b'x');
  substring = no_substrings;
  assignments = [];
}

execute_regex_group_example :
    (execute_regex sample bare print one_group one_variable
      ≡ assign_and_go sample bare print
          (with_groups print one_group
            (substrings regmatch_count (some (0, 2) ∷ some (1, 2) ∷ some (2, 2) ∷ []) (codes "x")))
          one_group.assignments
          one_variable)
    × (get_propositional sample
          (with_groups print one_group
            (substrings regmatch_count (some (0, 2) ∷ some (1, 2) ∷ some (2, 2) ∷ []) (codes "x")))
          (codes "$0")
        ≡ ok (some (take (2 - 0) (drop 0 (codes "x")))))
unfolding get_value get_local strdup lookup text_eq first_char regexec c_str letter_exec sample_int
execute_regex_group_example =
    execute_regex_group sample bare print one_group one_variable one_variable (codes "x")
      (letter b'x') refl refl b'$' 0 (codes "0") refl (some (0, 2) ∷ some (1, 2) ∷ some (2, 2) ∷ [])
      0 2 refl (omega arith) tt refl

abbrev no_group : RegexBody
no_group = record {
  match_var = codes "@a";
  regex = some never;
  substring = no_substrings;
  assignments = [];
}

abbrev two_assignments : List (List Text)
two_assignments = (codes "@b" ∷ codes "'hi" ∷ []) ∷ (codes "@c" ∷ codes "@a" ∷ []) ∷ []

others : All (Spares (codes "@a")) two_assignments
unfolding text_eq
others = (refl, (refl, tt))

assign_all_frame_example :
    lookup (codes "@a") (assign_all sample bare greet two_assignments one_variable).1.table
    ≡ lookup (codes "@a") one_variable.table
assign_all_frame_example =
    assign_all_frame sample bare greet (codes "@a") two_assignments one_variable others
