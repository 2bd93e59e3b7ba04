-- ===== src/Start/Main.antt =====
-- src/appserver.cpp, main: from the command line to the loaded scripts, with the statuses that it
-- returns before it serves.
use smarty_appserver.Prelude.{
  ℕ, Bool, true, false, Option, none, some, List, [], ◌∷◌, ◌++◌, ◌⊎◌, inl, inr, Text, codes, lookup,
  insert, if◌then◌else◌,
}
use smarty_appserver.Errors.{
  Result, Exception, ok, throw, exit, undefined, out_of_fuel, ◌>>=◌, or_throw, ptree_error,
  parser_error,
}
use smarty_appserver.Regex.{Collection}
use smarty_appserver.Parser.{Externals}
use smarty_appserver.Start.{
  Config, Options, Installation, Loaded, enoent, einval, config_file_name, find_config_file,
  open_regex_collection, nothing_loaded, load_scripts,
}

-- cpt->put("<section>.<key>", value)
unfoldable pub put : Text → Text → Text → Config → Config
put section key value c = record c {
  values = insert (section ++ (codes "." ++ key)) value c.values;
  sections = insert section tt c.sections;
}

-- main ends with a status, or goes on to daemonize, syslog and runPreforked.
pub data Started : Type 0 where
  returned : ℕ → Started
  serving : Externals → Loaded → Started

-- The handlers of main, in their order.
abbrev pub status_of : Exception → ℕ
status_of (parser_error file message line) = enoent
status_of _ = einval

abbrev pub on_loaded : Externals → Loaded → List (Text × Text) → Started
on_loaded x l [] = returned enoent
on_loaded x l (e ∷ es) = serving x l

abbrev pub after_load : Externals → Result Loaded → Result Started
after_load x (ok l) = ok (on_loaded x l l.scripts.by_name)
after_load x (throw e) = ok (returned (status_of e))
after_load x exit = exit
after_load x undefined = undefined
after_load x out_of_fuel = out_of_fuel

-- What the rest of the program sees of the configuration and of the collection.
abbrev pub with_config : Externals → Config → Collection → Externals
with_config x c rexes = record x {
  config_has = λ section. elim (lookup section c.sections) [ some u ↦ true | none ↦ false ];
  config_get = λ path. lookup path c.values;
  collection = rexes;
}

abbrev put_pidfile : Option Text → Config → Config
put_pidfile none c = c
put_pidfile (some path) c = put (codes "common") (codes "pidfile") path c

abbrev bool_text : Bool → Text
bool_text true = codes "1"
bool_text false = codes "0"

-- `vm.count("listen-port")` counts the default too.
unfoldable pub put_options : Externals → Options → Config → Config
put_options x o c = put (codes "runtime") (codes "daemon_mode") (bool_text o.daemon_mode) (
    put (codes "runtime") (codes "debug_mode") (bool_text o.debug_mode) (
      put_pidfile o.pidfile
        (put (codes "common") (codes "listen_port") (x.lexical_text o.listen_port) c)))

module _ (x : Externals) (i : Installation) where
  abbrev pub load_section : Externals → Option (List (Text × Text)) → Result Loaded
  load_section x' none = throw ptree_error
  load_section x' (some vs) = load_scripts x' i vs nothing_loaded

  abbrev pub on_collection : Config → ℕ ⊎ Collection → Result Started
  on_collection c (inl code) = ok (returned code)
  on_collection c (inr rexes) =
      let x' = with_config x c rexes in after_load x' (load_section x' c.script_section)

  -- read_ini stands outside of the try block: what it throws ends the program.
  abbrev pub on_config : Options → Option Text → Result Started
  on_config o none = ok (returned enoent)
  on_config o (some path) = or_throw (i.read_ini path) ptree_error >>= λ c.
      open_regex_collection x i o.regex_lib >>= on_collection (put_options x o c)

  abbrev pub config_path : Option Text → Option Text
  config_path none = find_config_file i config_file_name
  config_path (some path) = if i.is_file path then some path else none

  abbrev pub on_options : Option Options → Result Started
  on_options none = ok (returned einval)
  on_options (some o) =
      if o.help
      then ok (returned 0)
      else if o.version
      then ok (returned 0)
      else on_config o (config_path o.config)

  -- main, up to the call of daemonize.
  unfoldable pub start : Result Started
  start = on_options i.options
