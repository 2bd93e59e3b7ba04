-- ===== src/Parser.antt =====
-- src/parser.cpp: the regex collection by name, `is_matched`, `is_variable`, and the small helpers
-- of the parser.
pub mod Assignment
pub mod Comment
pub mod Matched
pub mod Script
use smarty_appserver.Prelude.{
  ℕ, ℤ, Bool, Option, none, some, [], ◌∷◌, ◌++◌, ◌-◌, ◌^◌, Text, List, String, codes, get_elem?,
}
use smarty_appserver.CppString.{substr_from}
use smarty_appserver.Errors.{
  Result, ok, throw, ◌>>=◌, parser_error, regex_error, runtime_error, bad_lexical_cast, or_throw,
}
use smarty_appserver.Regex.{
  Groups, Matching, matched, no_match, failed, Regcomp, Collection, index, regexec, capture,
}

-- What the program takes from libraries and from its configuration (`cpt`).
pub record Externals : Type 0 where
  -- boost::lexical_cast<int>, <size_t> and <std::string>
  pub lexical_int : Text → Option ℤ
  pub lexical_size : Text → Option ℕ
  pub lexical_text : ℤ → Text
  -- boost::split(…, boost::is_any_of("&"))
  pub split : Text → List Text
  -- sscanf(…, "%x", …): none is no conversion.
  pub scan_hex : Text → Option ℕ
  pub regcomp : Regcomp
  -- cpt->find(key) != cpt->not_found(): a section of that very name
  pub config_has : Text → Bool
  -- cpt->get<std::string>(path)
  pub config_get : Text → Option Text
  -- rexCollection
  pub collection : Collection

-- The names of conf/regexlib.dat that the program asks for.
pub data RegName : Type 0 where
  empty end_state file_state regex_state query_state match_state http_state mail_state : RegName
  sms_state script_state shell_state struct_state goto_state : RegName
  done error logpfx_double logpfx_single endstate : RegName
  data_single data_double file regex_double match_var case_regex db query : RegName
  url usercert ucertenc cacert pkey pkeyenc outvar_long outvar_short http_params : RegName
  method_get method_post addheader mfrom mto mcc subject attach shell : RegName
  format_xml format_json : RegName
  local_equal global_equal short_equal local_streqs global_streqs short_streqs : RegName
  local_streqd global_streqd short_streqd : RegName
  def_local_var def_global_var def_prop def_json def_local_short : RegName
  lvar slvar gvar pvar : RegName

spelled : RegName → String
spelled RegName.empty = "empty"
spelled RegName.end_state = "end_state"
spelled RegName.file_state = "file_state"
spelled RegName.regex_state = "regex_state"
spelled RegName.query_state = "query_state"
spelled RegName.match_state = "match_state"
spelled RegName.http_state = "http_state"
spelled RegName.mail_state = "mail_state"
spelled RegName.sms_state = "sms_state"
spelled RegName.script_state = "script_state"
spelled RegName.shell_state = "shell_state"
spelled RegName.struct_state = "struct_state"
spelled RegName.goto_state = "goto_state"
spelled RegName.done = "done"
spelled RegName.error = "error"
spelled RegName.logpfx_double = "logpfx_double"
spelled RegName.logpfx_single = "logpfx_single"
spelled RegName.endstate = "endstate"
spelled RegName.data_single = "data_single"
spelled RegName.data_double = "data_double"
spelled RegName.file = "file"
spelled RegName.regex_double = "regex_double"
spelled RegName.match_var = "match_var"
spelled RegName.case_regex = "case_regex"
spelled RegName.db = "db"
spelled RegName.query = "query"
spelled RegName.url = "url"
spelled RegName.usercert = "usercert"
spelled RegName.ucertenc = "ucertenc"
spelled RegName.cacert = "cacert"
spelled RegName.pkey = "pkey"
spelled RegName.pkeyenc = "pkeyenc"
spelled RegName.outvar_long = "outvar_long"
spelled RegName.outvar_short = "outvar_short"
spelled RegName.http_params = "http_params"
spelled RegName.method_get = "method_get"
spelled RegName.method_post = "method_post"
spelled RegName.addheader = "addheader"
spelled RegName.mfrom = "mfrom"
spelled RegName.mto = "mto"
spelled RegName.mcc = "mcc"
spelled RegName.subject = "subject"
spelled RegName.attach = "attach"
spelled RegName.shell = "shell"
spelled RegName.format_xml = "format_xml"
spelled RegName.format_json = "format_json"
spelled RegName.local_equal = "local_equal"
spelled RegName.global_equal = "global_equal"
spelled RegName.short_equal = "short_equal"
spelled RegName.local_streqs = "local_streqs"
spelled RegName.global_streqs = "global_streqs"
spelled RegName.short_streqs = "short_streqs"
spelled RegName.local_streqd = "local_streqd"
spelled RegName.global_streqd = "global_streqd"
spelled RegName.short_streqd = "short_streqd"
spelled RegName.def_local_var = "def_local_var"
spelled RegName.def_global_var = "def_global_var"
spelled RegName.def_prop = "def_prop"
spelled RegName.def_json = "def_json"
spelled RegName.def_local_short = "def_local_short"
spelled RegName.lvar = "lvar"
spelled RegName.slvar = "slvar"
spelled RegName.gvar = "gvar"
spelled RegName.pvar = "pvar"

unfoldable pub spelling : RegName → Text
unfolding spelled
spelling name = codes (spelled name)

abbrev pub matching_result : Text → ℕ → Matching → Result (Option Groups)
matching_result fname counter (matched g) = ok (some g)
matching_result fname counter no_match = ok none
matching_result fname counter (failed rv) = throw (parser_error fname regex_error counter)

module _ (x : Externals) where
  -- boost::lexical_cast<int>
  unfoldable pub lexical_int : Text → Result ℤ
  lexical_int s = or_throw (x.lexical_int s) bad_lexical_cast

  -- The groups are the content of `regmatch` after a match.
  unfoldable pub is_matched : RegName → Text → Text → ℕ → Result (Option Groups)
  is_matched name line fname counter = do
    r ← index x.collection (spelling name)
    matching_result fname counter (regexec r line)

  -- An unused group has the offsets (size_t)-1.
  abbrev pub offsets : Matching → Result (Option (ℕ × ℕ))
  offsets (matched g) = elim (get_elem? g 1) [
    | some (some p) ↦ ok (some p)
    | _ ↦ ok (some (2 ^ 64 - 1, 2 ^ 64 - 1))
  ]
  offsets no_match = ok none
  offsets (failed rv) = throw runtime_error

  -- The offsets *so and *eo of the variable.
  unfoldable pub is_variable : Text → RegName → Result (Option (ℕ × ℕ))
  is_variable line vname = do r ← index x.collection (spelling vname); offsets (regexec r line)

  unfoldable pub fetch_int : Text → ℕ → Groups → Result ℤ
  unfolding lexical_int
  fetch_int line fnum g = do s ← capture g fnum line; lexical_int s

  -- "@name" becomes "@<state>.name"
  unfoldable pub prepend_state : Text → ℤ → Result Text
  prepend_state ref statenum = do
    rest ← substr_from ref 1
    ok ((b'@' ∷ x.lexical_text statenum) ++ (b'.' ∷ rest))

-- `if(is_matched(…)) … else …`
abbrev pub if_matched {ℓ} :
    {A : Type ℓ} → Result (Option Groups) → (Groups → Result A) → Result A → Result A
if_matched m found other = m >>= λ o. elim o [ some g ↦ found g | none ↦ other ]
