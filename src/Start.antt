-- ===== src/Start.antt =====
-- src/appserver.cpp, and findConfigFile and openRegexCollection of src/parser.cpp: what the program
-- does before it forks, and freeAllScripts.
pub mod Main
pub mod Load
pub mod Free
pub mod Ready
pub mod Status
use smarty_appserver.Prelude.{
  ℕ, suc, ℤ, Bool, true, false, Option, none, some, List, [], ◌∷◌, ◌++◌, ◌⊎◌, inl, inr, Text, codes,
  c_str, take, drop, lookup, insert, ◌&&◌, not, if◌then◌else◌,
}
use smarty_appserver.CppString.{rfind}
use smarty_appserver.Errors.{
  Result, Exception, ok, throw, exit, undefined, out_of_fuel, ◌>>=◌, or_throw, ptree_error,
  runtime_error, parser_error,
}
use smarty_appserver.Regex.{Collection}
use smarty_appserver.Regex.Collection.{fill}
use smarty_appserver.Database.{DbMap}
use smarty_appserver.Parser.{Externals, lexical_int}
use smarty_appserver.Parser.Script.{StateMap, parse_script}
use smarty_appserver.Server.Request.{Scripts}

-- ENOENT, EINVAL
abbrev pub enoent : ℕ
enoent = 2

abbrev pub einval : ℕ
einval = 22

-- The property tree of the configuration: the values by path, the sections, and the children of
-- [script] in their order, if there is that section.
pub record Config : Type 0 where
  pub values : List (Text × Text)
  pub sections : List (Text × Unit {0})
  pub script_section : Option (List (Text × Text))

-- The options of the command line. The listen port has a default.
pub record Options : Type 0 where
  pub help : Bool
  pub version : Bool
  pub config : Option Text
  pub listen_port : ℤ
  pub daemon_mode : Bool
  pub pidfile : Option Text
  pub debug_mode : Bool
  pub regex_lib : Option Text

-- What the program finds: files, and the directories that the build sets in src/templates.cpp.in.
pub record Installation : Type 0 where
  -- po::parse_command_line: `none` is a po::error.
  pub options : Option Options
  -- fs::exists(p) && fs::is_regular_file(p)
  pub is_file : Text → Bool
  -- fs::canonical(p).string()
  pub canonical : Text → Text
  -- The bytes of a file, and its lines: `none` if it cannot be opened.
  pub read_file : Text → Option Text
  pub read_text : Text → Option (List Text)
  -- read_ini: `none` if it throws.
  pub read_ini : Text → Option Config
  -- configDirs, scriptDirDefault
  pub config_dirs : List Text
  pub script_dir_default : Text

abbrev pub config_file_name : Text
config_file_name = codes "appserver.conf"

abbrev pub rexfile_name : Text
rexfile_name = codes "regexlib.dat"

-- The loop of findConfigFile.
unfoldable pub find_in : Installation → Text → List Text → Option Text
find_in i what [] = none
find_in i what (dir ∷ dirs) =
    let rest = find_in i what dirs in
    if i.is_file (dir ++ what) then some (i.canonical (dir ++ what)) else rest

unfoldable pub find_config_file : Installation → Text → Option Text
find_config_file i what = find_in i what i.config_dirs

-- try { … } catch(...) { return EINVAL; }: a code, or the collection.
abbrev pub or_einval : Result Collection → Result (ℕ ⊎ Collection)
or_einval (ok c) = ok (inr c)
or_einval (throw e) = ok (inl einval)
or_einval exit = exit
or_einval undefined = undefined
or_einval out_of_fuel = out_of_fuel

abbrev pub read_collection : Externals → Installation → Option Text → Result (ℕ ⊎ Collection)
read_collection x i none = ok (inl enoent)
read_collection x i (some path) = or_einval (fill x.regcomp (i.read_file path))

abbrev or_else : Option Text → Option Text → Option Text
or_else none other = other
or_else (some path) other = some path

unfoldable pub open_regex_collection :
    Externals → Installation → Option Text → Result (ℕ ⊎ Collection)
open_regex_collection x i path =
    read_collection x i (or_else path (find_config_file i rexfile_name))

-- allScripts, allScriptsByFile and scriptEntries, and the sections that the scripts have named.
pub record Loaded : Type 0 where
  pub scripts : Scripts
  pub dbs : DbMap

abbrev pub nothing_loaded : Loaded
nothing_loaded = record { scripts = record { by_name = []; by_file = []; entries = [] }; dbs = [] }

-- A name for a file that has been parsed.
abbrev pub bind_name : Text → Text → ℤ → Loaded → Loaded
bind_name name fname entry l = record l {
  scripts = record l.scripts {
    by_name = insert name fname l.scripts.by_name;
    entries = insert name entry l.scripts.entries;
  };
}

abbrev pub store_file : Text → Option StateMap × DbMap → Loaded → Loaded
store_file fname (m, dbs') l = record {
  scripts = record l.scripts { by_file = insert fname m l.scripts.by_file };
  dbs = dbs';
}

module _ (x : Externals) (i : Installation) where
  -- common.scriptdir, with a slash.
  abbrev pub script_path : Text → Text
  script_path fname = elim (x.config_get (codes "common.scriptdir")) [
    | some dir ↦ dir ++ (codes "/" ++ fname)
    | none ↦ i.script_dir_default ++ (codes "/" ++ fname)
  ]

  -- The file is parsed unless it has been.
  abbrev pub load_file : Text → Loaded → Option (Option StateMap) → Result Loaded
  load_file fname l (some m) = ok l
  load_file fname l none =
      parse_script x (script_path fname) (i.read_text (script_path fname)) l.dbs >>= λ p.
      ok (store_file fname p l)

  abbrev pub on_colon : Text → Text → Loaded → Option ℕ → Result Loaded
  on_colon name value l none = throw runtime_error
  on_colon name value l (some n) = lexical_int x (drop (suc n) value) >>= λ entry.
      load_file (take n value) l (lookup (take n value) l.scripts.by_file) >>= λ l'.
      ok (bind_name name (take n value) entry l')

  -- One line "name = file:entry" of the section.
  unfoldable pub load_script : Text × Text → Loaded → Result Loaded
  load_script (name, value) l = elim (lookup (c_str name) l.scripts.by_name) [
    | some fname ↦ throw ptree_error
    | none ↦ on_colon (c_str name) value l (rfind b':' value)
  ]

  unfoldable pub load_scripts : List (Text × Text) → Loaded → Result Loaded
  load_scripts [] l = ok l
  load_scripts (v ∷ vs) l = load_script v l >>= load_scripts vs
