-- ===== src/Tests/Starting.antt =====
-- A configuration with one script of one state, its loading, and a mail of two lines.
use smarty_appserver.Prelude.{
  ◌≡◌, ◌⊎◌, ◌≢◌, ◌↔◌, inl, refl, pos, ℤ, true, false, none, some, List, [], ◌∷◌, Text, codes,
  lookup, text_eq, arith, All, ◌<◌,
}
use smarty_appserver.Errors.{ok}
use smarty_appserver.Action.Ends.{Ends}
use smarty_appserver.Parser.Script.{StateMap}
use smarty_appserver.State.Execute.Payload.{upload, concat, upload_message}
use smarty_appserver.Assigner.Refinement.{
  Call, assigning, getting, resetting, run_calls, Represents, run_calls_refines,
}
use smarty_appserver.Start.Free.{free_all_scripts, HasStates, HaveOwnFiles, free_all_scripts_ends}
use mathlib.Core.Path.{subst}
use smarty_appserver.Prelude.{insert, c_str}
use smarty_appserver.CppString.{find, rfind, substr}
use smarty_appserver.Regex.{index, regexec, capture}
use smarty_appserver.Regex.Collection.{fill, fill_lines}
use smarty_appserver.Parser.{is_matched, spelling, fetch_int, lexical_int}
use smarty_appserver.Parser.Comment.{strip_comment, comment_place}
use smarty_appserver.Parser.Script.{
  find_state, open_block, close_block, in_block, read_line, read_lines, parse_script,
}
use smarty_appserver.State.{new_state, new_end}
use smarty_appserver.State.Verify.{verify, verify_end}
use smarty_appserver.State.Execute.Exits.{exits}
use smarty_appserver.Assigner.{strdup}
use smarty_appserver.Start.{
  Installation, Loaded, nothing_loaded, load_script, load_scripts, open_regex_collection,
  find_config_file, find_in,
}
use smarty_appserver.Start.Main.{returned, start, put_options, put}
use smarty_appserver.Server.{script_selector}
use smarty_appserver.Start.Load.{IsLoaded, load_scripts-IsLoaded}
use smarty_appserver.Start.Ready.{IsSane}
use smarty_appserver.Start.Status.{AsksForText, IsOutcome, start-IsOutcome}
use smarty_appserver.Tests.Serving.{lookup_one}
use smarty_appserver.Tests.Sample.{fresh, sample, sample_rank, letter_exec, sample_int}

abbrev two_lines : List Text
two_lines = codes "a\r\n" ∷ codes "b\r\n" ∷ []

upload_message_example : upload two_lines (λ n. 16) 3 0 ≡ ok (concat two_lines)
upload_message_example =
    upload_message two_lines (λ n. 16) 3
      (
        (omega arith, λ n. (omega arith, omega arith)),
        ((omega arith, λ n. (omega arith, omega arith)), tt),
      )
      (omega arith)

abbrev calls : List Call
calls =
    assigning (codes "@a") (some (codes "x"))
    ∷ getting (codes "@a")
    ∷ resetting
    ∷ getting (codes "@a")
    ∷ []

fresh-Represents : Represents (λ k. none) fresh
unfolding lookup strdup
fresh-Represents = (tt, λ k. refl)

run_calls_refines_example :
    Ends
      (λ os w. (os ≡ some (codes "x") ∷ none ∷ []) × Represents (λ k. none) w)
      (λ _. ⊥)
      (run_calls calls fresh)
unfolding text_eq
run_calls_refines_example = run_calls_refines calls (λ k. none) fresh fresh-Represents

abbrev empty_map : StateMap
empty_map = []

-- "f" and "g" stand for one file.
free_all_scripts_ends_example :
    (free_all_scripts
        ((codes "f", codes "s") ∷ (codes "g", codes "s") ∷ [])
        ((codes "s", some empty_map) ∷ [])
      ≡ ok tt)
    ↔ (All
          (HasStates ((codes "s", some empty_map) ∷ []))
          ((codes "f", codes "s") ∷ (codes "g", codes "s") ∷ [])
        × HaveOwnFiles ((codes "f", codes "s") ∷ (codes "g", codes "s") ∷ []))
free_all_scripts_ends_example =
    free_all_scripts_ends ((codes "f", codes "s") ∷ (codes "g", codes "s") ∷ [])
      ((codes "s", some empty_map) ∷ [])

-- "f = s:1", where the file "d/s" has the lines of an end state.
abbrev end_state_file : Installation
end_state_file = record {
  options = some (record {
    help = false;
    version = false;
    config = some (codes "c");
    listen_port = pos 4800;
    daemon_mode = false;
    pidfile = none;
    debug_mode = false;
    regex_lib = none;
  });
  is_file = λ p. true;
  canonical = λ p. p;
  read_file = λ p. some [];
  read_text = λ p. some (codes "e1" ∷ codes "q" ∷ []);
  read_ini = λ p. some (record { values = []; sections = []; script_section = some [] });
  config_dirs = codes "/etc/" ∷ [];
  script_dir_default = codes "d";
}

abbrev end_map : StateMap
end_map = (pos 1, new_state (pos 1) (codes "d/s") new_end) ∷ []

abbrev pub loaded : Loaded
loaded = record {
  scripts = record {
    by_name = (codes "f", codes "s") ∷ [];
    by_file = (codes "s", some end_map) ∷ [];
    entries = (codes "f", pos 1) ∷ [];
  };
  dbs = [];
}

loads :
    load_scripts sample end_state_file ((codes "f", codes "s:1") ∷ []) nothing_loaded ≡ ok loaded
unfolding load_scripts load_script parse_script read_lines read_line open_block in_block close_block
    is_matched spelling index regexec capture fetch_int lexical_int strip_comment comment_place find
    rfind find_state verify verify_end lookup insert text_eq c_str substr letter_exec sample_int
    new_state
loads = refl

load_scripts-IsLoaded_example : IsLoaded loaded
load_scripts-IsLoaded_example =
    load_scripts-IsLoaded sample end_state_file ((codes "f", codes "s:1") ∷ []) loaded loads

pub loaded-IsLoaded_again : IsLoaded loaded
loaded-IsLoaded_again =
    load_scripts-IsLoaded sample end_state_file ((codes "f", codes "s:1") ∷ []) loaded loads

pub no_empty_file : (fname : Text) → lookup fname loaded.scripts.by_file ≢ some none
no_empty_file fname e =
    let (hit, same) = lookup_one (codes "s") fname (some end_map) none e in ground (arith, same)

pub end_map-IsSane :
    (fname : Text) (m : StateMap)
    → lookup fname loaded.scripts.by_file ≡ some (some m)
    → IsSane (script_selector sample) sample_rank m
unfolding exits new_state
end_map-IsSane fname m e =
    let (hit, same) = lookup_one (codes "s") fname (some end_map) (some m) e in
    subst (IsSane (script_selector sample) sample_rank) (some-injective same)
      ((tt, (inl refl, tt)), tt)
  where
    some-injective : {m m' : StateMap} → some m ≡ some m' → m ≡ m'
    some-injective e = cc

pub covered :
    (name : Text) (entry : ℤ)
    → lookup name loaded.scripts.entries ≡ some entry
    → sample_rank entry < 5
unfolding sample_rank
covered name entry e =
    let (hit, same) = lookup_one (codes "f") name (pos 1) entry e in
    subst (λ n. sample_rank n < 5) same (ground arith)

no_script : start sample end_state_file ≡ ok (returned 2)
unfolding start put_options put open_regex_collection find_config_file find_in fill fill_lines
    load_scripts insert lookup text_eq
no_script = refl

start-IsOutcome_example :
    (AsksForText end_state_file.options × (returned 2 ≡ returned 0)) ⊎ IsOutcome (returned 2)
start-IsOutcome_example = start-IsOutcome sample end_state_file (returned 2) no_script
