-- ===== src/Tests/Sample.antt =====
-- Concrete stand-ins for the libraries, and a script of two states.
use smarty_appserver.Prelude.{
  ap, ◌+◌, ◌*◌, ◌/◌, ◌%◌, ltb, ℕ, ◌-◌, ◌^◌, ◌<◌, ◌≡◌, ◌==◌, ℤ, pos, negsuc, true, false, Option,
  none, some, [], ◌∷◌, Text, codes, arith, c_str, lookup, text_eq, if◌then◌else◌,
}
use smarty_appserver.CppString.{first_char}
use smarty_appserver.Errors.{ok}
use smarty_appserver.Regex.{Regex, Matching, matched, no_match, index, regexec}
use smarty_appserver.Database.{no_rows}
use smarty_appserver.Http.Decode.{hex_digit, ScansHex}
use smarty_appserver.Parser.{Externals, RegName, is_variable, spelling, offsets}
use smarty_appserver.Parser.Script.{StateMap}
use smarty_appserver.State.{State, Body, end, goto, new_state}
use smarty_appserver.World.{World, System, setopt_failed, owned, held}
use smarty_appserver.Assigner.Evaluate.Laws.{IsLawful, IsVariableName}
use smarty_appserver.Server.Request.{Request, Scripts}

-- ".@" or "@.": a variable of one letter, with or without a character in front.
unfoldable pub name_exec : Text → Matching
name_exec [] = no_match
name_exec (c ∷ []) = no_match
name_exec (c ∷ d ∷ s) =
    if c == b'@'
    then matched (some (0, 2) ∷ some (0, 2) ∷ [])
    else if d == b'@'
    then matched (some (1, 2) ∷ some (1, 2) ∷ [])
    else no_match

abbrev pub name_regex : Regex
name_regex = record { pattern = codes "(.@|@.)"; exec = name_exec }

abbrev pub never : Regex
never = record { pattern = codes "$^"; exec = λ s. no_match }

-- `c.`: the letter `c` in front, then a group of one character.
unfoldable pub letter_exec : ℕ → Text → Matching
letter_exec c [] = no_match
letter_exec c (d ∷ s) =
    if c == d then matched (some (0, 2) ∷ some (1, 2) ∷ some (2, 2) ∷ []) else no_match

abbrev pub letter : ℕ → Regex
letter c = record { pattern = c ∷ codes "(.)"; exec = letter_exec c }

-- A sign or a digit.
unfoldable pub sample_int : Text → Option ℤ
sample_int [] = none
sample_int (c ∷ s) = if c == b'-' then some (negsuc 0) else some (pos (c - b'0'))

-- A digit's value, and two digits.
abbrev pub hex_value : ℕ → ℕ
hex_value d = if ltb d b'A' then d - b'0' else d - 55

unfoldable pub scan_two : Text → Option ℕ
scan_two (h ∷ l ∷ s) = some (hex_value h * 16 + hex_value l)
scan_two (h ∷ []) = some (hex_value h)
scan_two [] = none

hex_value-hex_digit : (n : ℕ) → n < 16 → hex_value (hex_digit n) ≡ n
hex_value-hex_digit n h = ground arith

pub scan_two-ScansHex : ScansHex scan_two
unfolding scan_two
scan_two-ScansHex c h =
    rw (hex_value-hex_digit (c / 16) (omega arith), hex_value-hex_digit (c % 16) (omega arith))
      (ap some (omega arith))

abbrev pub sample : Externals
sample = record {
  lexical_int = sample_int;
  lexical_size = λ s. none;
  lexical_text = λ n. codes "1";
  split = λ s. s ∷ [];
  scan_hex = scan_two;
  regcomp = λ s. some name_exec;
  config_has = λ s. false;
  config_get = λ s. none;
  collection =
      (codes "lvar", name_regex)
      ∷ (codes "slvar", never)
      ∷ (codes "gvar", never)
      ∷ (codes "pvar", never)
      ∷ (codes "empty", never)
      ∷ (codes "end_state", letter b'e')
      ∷ (codes "done", never)
      ∷ (codes "error", never)
      ∷ (codes "logpfx_double", never)
      ∷ (codes "logpfx_single", never)
      ∷ (codes "endstate", letter b'q')
      ∷ (codes "local_equal", letter b'a')
      ∷ (codes "def_local_var", letter b'@')
      ∷ (codes "def_global_var", never)
      ∷ (codes "def_prop", never)
      ∷ (codes "def_json", never)
      ∷ (codes "def_local_short", never)
      ∷ [];
}

-- An outside without memcached, files and mail, whose commands print "up".
abbrev pub bare : System (Unit {0})
bare = record {
  memcached_get = λ s k. none;
  memcached_set = λ s k v. none;
  file_open = λ s p. none;
  file_write = λ s p t. s;
  popen = λ s c. some (codes "up", s);
  curl_init = λ s. false;
  curl = λ s r. (setopt_failed, s);
  curl_mail = λ s r. (setopt_failed, s);
  mail_reads = λ s r. [];
  db_query = λ s d q. (no_rows, s);
  read_json = λ t. none;
  read_xml = λ t. none;
  date = λ s. [];
  uuid = λ s. [];
}

abbrev pub fresh : World (Unit {0})
fresh = record { table = []; out = []; ext = tt }

-- A table in which "@a" is "x".
abbrev pub one_variable : World (Unit {0})
one_variable = record { table = (codes "@a", owned (codes "x")) ∷ []; out = []; ext = tt }

-- The same with the name of the script.
abbrev pub with_script_name : World (Unit {0})
with_script_name = record {
  table = (codes "@a", owned (codes "x")) ∷ (codes "@0.function", held (codes "f")) ∷ [];
  out = [];
  ext = tt;
}

abbrev pub greet_body : Body
greet_body = goto ((codes "@a" ∷ codes "'hi" ∷ []) ∷ [])

-- state 1: goto 2 with @a = 'hi
abbrev pub greet : State
greet = record (new_state (pos 1) (codes "s.sl") greet_body) {
  next_state = pos 2;
  error_state = pos 2;
}

-- state 2: end, which prints @a
abbrev pub print : State
print =
    new_state (pos 2) (codes "s.sl")
      (end (record { out_list = codes "@a" ∷ []; interpret_flag = true ∷ [] }))

abbrev pub two_states : StateMap
two_states = (pos 1, greet) ∷ (pos 2, print) ∷ []

unfoldable pub sample_rank : ℤ → ℕ
sample_rank (pos n) = 5 - n
sample_rank (negsuc n) = 0

abbrev pub one_script : Scripts
one_script = record {
  by_name = (codes "f", codes "s.sl") ∷ [];
  by_file = (codes "s.sl", some two_states) ∷ [];
  entries = (codes "f", pos 1) ∷ [];
}

abbrev pub get_params : Text → Option Text
get_params (c ∷ s) =
    if c == b'R' then some (codes "GET") else if c == b'Q' then some (codes "function=f") else none
get_params [] = none

-- GET ?function=f
abbrev pub get_f : Request
get_f = record { get_param = get_params; get_str = λ n. []; envp = codes "A=b" ∷ [] }

name_offsets :
    (s : Text) (so eo : ℕ)
    → offsets sample (name_exec s) ≡ ok (some (so, eo))
    → (so < eo) × (eo < 2 ^ 64)
unfolding name_exec
name_offsets [] so eo e = absurd (ground arith)
name_offsets (c ∷ []) so eo e = absurd (ground arith)
name_offsets (c ∷ d ∷ s) so eo e = (ground arith, ground arith)

proper_names :
    (name : RegName) (rest : Text) (so eo : ℕ)
    → IsVariableName name
    → is_variable sample rest name ≡ ok (some (so, eo))
    → (so < eo) × (eo < 2 ^ 64)
unfolding is_variable spelling index regexec lookup c_str text_eq
proper_names RegName.lvar rest so eo v e = name_offsets (c_str rest) so eo e
proper_names RegName.slvar rest so eo v e = absurd (ground arith)
proper_names RegName.gvar rest so eo v e = absurd (ground arith)
proper_names RegName.pvar rest so eo v e = absurd (ground arith)
proper_names _ rest so eo v e = absurd v

sample_int-negative :
    (s : Text) (n : ℕ) → sample_int s ≡ some (negsuc n) → (first_char s == b'-') ≡ true
unfolding sample_int first_char
sample_int-negative [] n e = absurd (ground arith)
sample_int-negative (c ∷ s) n e = ground arith

pub sample-IsLawful : IsLawful sample
sample-IsLawful = record { proper = proper_names; negative = sample_int-negative }
