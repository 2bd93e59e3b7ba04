-- ===== src/Server/Request.antt =====
-- src/preforked.cpp, processRequest: the parameters, the CGI environment and the choice of a script.
pub mod Safety
pub mod Reset
pub mod Decoded
pub mod Import
pub mod Outcome
pub mod Isolated
pub mod History
use smarty_appserver.Prelude.{
  ℕ, suc, ◌+◌, ◌-◌, ℤ, pos, negsuc, Bool, true, false, Option, none, some, List, [], ◌∷◌, ◌++◌,
  Text, codes, length, take, drop, lookup, insert, ltb, ◌==◌, int_eq, if◌then◌else◌, c_str, text_eq,
}
use smarty_appserver.CppString.{find}
use smarty_appserver.Errors.{Result, ok, undefined, bad_lexical_cast, or_throw}
use smarty_appserver.Errors
use smarty_appserver.Action.{Action, pure, lift, ◌>>=◌, ◌>>◌}
use smarty_appserver.Database.{DbMap}
use smarty_appserver.Http.{url_decode}
use smarty_appserver.Parser.{Externals}
use smarty_appserver.Parser.Script.{StateMap}
use smarty_appserver.State.Verify.{starts_with_nocase}
use smarty_appserver.World.{World, System, Value, owned, put_out}
use smarty_appserver.Assigner.{assign_local, reset_table, strdup}
use smarty_appserver.Server.{
  parambuf_length, put_status, run_script, script_selector, hold, read_script_name,
}

-- FCGX_GetParam, FCGX_GetStr and the strings of envp.
pub record Request : Type 0 where
  pub get_param : Text → Option Text
  pub get_str : ℤ → Text
  pub envp : List Text

-- allScripts as the file that a name stands for, allScriptsByFile, and scriptEntries. Two names of
-- one file share its states.
pub record Scripts : Type 0 where
  pub by_name : List (Text × Text)
  pub by_file : List (Text × Option StateMap)
  pub entries : List (Text × ℤ)

abbrev query_or : Option Text → ℤ × Text
query_or none = (pos 0, [])
query_or (some q) = (pos (length q), q)

-- `if(paramlen > PARAMBUF_LENGTH-1) paramlen = PARAMBUF_LENGTH-1;`
abbrev pub clamp : ℤ → ℤ
clamp (pos n) = if ltb (parambuf_length - 1) n then pos (parambuf_length - 1) else pos n
clamp (negsuc n) = negsuc n

abbrev read_body : Request → ℤ → ℤ × Text
read_body r n = if int_eq n (pos 0) then (n, []) else (clamp n, c_str (r.get_str (clamp n)))

abbrev content_length : Externals → Option Text → Result ℤ
content_length x none = ok (pos 0)
content_length x (some []) = ok (pos 0)
content_length x (some (c ∷ s)) = or_throw (x.lexical_int (c ∷ s)) bad_lexical_cast

-- The length and the text of the parameters; without a method `strncasecmp` reads a null pointer.
unfoldable pub query_text : Externals → Request → Result (ℤ × Text)
query_text x r = elim (r.get_param (codes "REQUEST_METHOD")) [
  | none ↦ undefined
  | some method ↦
      if starts_with_nocase method (codes "get")
      then ok (query_or (r.get_param (codes "QUERY_STRING")))
      else if starts_with_nocase method (codes "post")
      then Errors.◌>>=◌ (content_length x (r.get_param (codes "CONTENT_LENGTH")))
          (λ n. ok (read_body r n))
      else ok (pos 0, [])
]

-- "name=value" is cut at the first '='.
unfoldable pub split_pair : Text → Option (Text × Text)
split_pair s = elim (find b'=' s) [ none ↦ none | some n ↦ some (take n s, drop (suc n) s) ]

-- Variables of state 0.
abbrev pub state_zero : Text → Text
state_zero name = codes "@0." ++ name

module _ {S : Type 0} where
  abbrev pub assign_pair : Option (Text × Text) → Action (World S) (Unit {0})
  assign_pair none = pure tt
  assign_pair (some (name, val)) = assign_local (state_zero name) (some (owned (c_str val)))

  -- The loop over the split parameters.
  unfoldable pub assign_params : List Text → Action (World S) (Unit {0})
  assign_params [] = pure tt
  assign_params (p ∷ ps) = assign_pair (split_pair p) >> assign_params ps

  -- The copy of a variable of the environment in `params`: with 1024 bytes or more it has no NUL, and
  -- what reads it goes past the buffer.
  unfoldable pub assign_env_var : Text → Action (World S) (Unit {0})
  assign_env_var e =
      if ltb (length (c_str e)) parambuf_length
      then assign_pair (split_pair (c_str e))
      else lift undefined

  unfoldable pub assign_env : List Text → Action (World S) (Unit {0})
  assign_env [] = pure tt
  assign_env (e ∷ es) = assign_env_var e >> assign_env es

  -- CAssigner::getLocalPtr, and the read of what it points to.
  unfoldable pub get_local_ptr : Text → Action (World S) (Option Text)
  unfolding strdup
  get_local_ptr var w = (strdup (lookup var w.table), w)

module _ {S : Type 0} (x : Externals) (sys : System S) (dbs : DbMap) (protocol : Option Text) where
  abbrev pub after_run : Scripts → Text → StateMap → Scripts
  after_run scripts fname script = record scripts {
    by_file = insert fname (some script) scripts.by_file;
  }

  -- The states of the file; a file without states has a null map. No assignment comes between
  -- getLocalPtr and the first state. After the last one, log_message reads `scriptName`.
  abbrev pub run_file : ℕ → Scripts → Text → ℤ → Option (Option StateMap) → Action (World S) Scripts
  run_file fuel scripts fname entry none = lift undefined
  run_file fuel scripts fname entry (some none) = lift undefined
  run_file fuel scripts fname entry (some (some script)) =
      put_out (codes "Content-type: text/html\r\n\r\n") >>= λ _. hold (script_selector x) >>= λ _.
      run_script x sys dbs protocol fuel script entry >>= λ script'.
      read_script_name (script_selector x) >>= λ _. pure (after_run scripts fname script')

  abbrev pub on_script : ℕ → Scripts → Text → ℤ → Option Text → Action (World S) Scripts
  on_script fuel scripts name entry none = put_status x sys dbs protocol 404 >>= λ _. pure scripts
  on_script fuel scripts name entry (some fname) =
      run_file fuel scripts fname entry (lookup fname scripts.by_file)

  abbrev pub on_entry : ℕ → Scripts → Text → Option ℤ → Action (World S) Scripts
  on_entry fuel scripts name none = put_status x sys dbs protocol 404 >>= λ _. pure scripts
  on_entry fuel scripts name (some entry) =
      on_script fuel scripts name entry (lookup name scripts.by_name)

  -- From `getLocalPtr(scriptSelector)` to `r_finish`.
  unfoldable pub dispatch : ℕ → Scripts → Option Text → Action (World S) Scripts
  dispatch fuel scripts none = put_status x sys dbs protocol 404 >>= λ _. pure scripts
  dispatch fuel scripts (some name) = on_entry fuel scripts name (lookup name scripts.entries)

  -- The parameters, then the environment: the latter wins on a common name.
  unfoldable pub import_variables : ℕ → Text → List Text → Action (World S) (Unit {0})
  import_variables ii query envp =
      assign_params (x.split (url_decode x.scan_hex ii query)) >> assign_env envp

  -- `r_finish`
  abbrev pub finish : Action (World S) Scripts → Action (World S) Scripts
  finish m = m >>= λ scripts. reset_table >>= λ _. pure scripts

  abbrev pub on_query : ℕ → ℕ → Scripts → Request → ℤ × Text → Action (World S) Scripts
  on_query fuel ii scripts r (len, query) =
      if int_eq len (pos 0)
      then (put_status x sys dbs protocol 404 >>= λ _. pure scripts)
      else finish (
          import_variables ii query r.envp >>= λ _.
          get_local_ptr (script_selector x) >>= dispatch fuel scripts)

  -- The body of `while(1)`, between the accept and the next one.
  unfoldable pub handle_request : ℕ → ℕ → Scripts → Request → Action (World S) Scripts
  handle_request fuel ii scripts r = lift (query_text x r) >>= on_query fuel ii scripts r
