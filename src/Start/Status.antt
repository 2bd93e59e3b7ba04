-- ===== src/Start/Status.antt =====
-- The status that main returns before it serves, and what it has when it serves.
use smarty_appserver.Prelude.{
  ℕ, ◌≡◌, ◌∙◌, sym, if-false, ◌⊎◌, inl, inr, refl, true, Option, none, some, List, [], ◌∷◌, Text,
  arith, length, ◌<◌, Bool-cases,
}
use smarty_appserver.Errors.{
  Result, Exception, ok, throw, exit, OnOk, OnOk-ok, OnOk-throw, OnOk-exit, OnOk-bind,
  OnOk-bind_any, ptree_error, parser_error,
}
use smarty_appserver.Regex.{Collection}
use smarty_appserver.Regex.Collection.{fill}
use smarty_appserver.Parser.{Externals}
use smarty_appserver.Start.{
  Config, Options, Installation, Loaded, enoent, einval, open_regex_collection, read_collection,
  or_einval,
}
use smarty_appserver.Start.Main.{
  Started, returned, serving, status_of, after_load, on_loaded, load_section, on_collection,
  on_config, on_options, config_path, start, with_config, put_options,
}
use smarty_appserver.Start.Load.{IsLoaded, load_scripts-IsLoaded}

-- ENOENT or EINVAL, or what it serves has been loaded and is not empty.
abbrev pub IsOutcome : Started → Type 0
IsOutcome (returned n) = (n ≡ enoent) ⊎ (n ≡ einval)
IsOutcome (serving x l) = IsLoaded l × (0 < length l.scripts.by_name)

abbrev IsCode : ℕ ⊎ Collection → Type 0
IsCode (inl n) = (n ≡ enoent) ⊎ (n ≡ einval)
IsCode (inr rexes) = Unit

abbrev pub AsksForText : Option Options → Type 0
AsksForText none = ⊥
AsksForText (some o) = (o.help ≡ true) ⊎ (o.version ≡ true)

status_of-code : (e : Exception) → (status_of e ≡ enoent) ⊎ (status_of e ≡ einval)
status_of-code (parser_error file message line) = inl refl
status_of-code _ = inr refl

module _ (x : Externals) (i : Installation) where
  loaded-IsOutcome :
      (x' : Externals) (l : Loaded) (es : List (Text × Text))
      → l.scripts.by_name ≡ es
      → IsLoaded l
      → IsOutcome (on_loaded x' l es)
  loaded-IsOutcome x' l [] e h = inl refl
  loaded-IsOutcome x' l (v ∷ vs) e h = (h, ground (arith, e))

  after_load-IsOutcome :
      (x' : Externals) (r : Result Loaded) → OnOk IsLoaded r → OnOk IsOutcome (after_load x' r)
  after_load-IsOutcome x' (ok l) h =
      OnOk-ok _ (loaded-IsOutcome x' l l.scripts.by_name refl (h.at l refl))
  after_load-IsOutcome x' (throw e) h = OnOk-ok _ (status_of-code e)
  after_load-IsOutcome x' exit h = OnOk-exit
  after_load-IsOutcome x' _ h = record { at = λ b e. absurd (ground arith) }

  load_section-IsLoaded :
      (x' : Externals) (o : Option (List (Text × Text))) → OnOk IsLoaded (load_section x i x' o)
  load_section-IsLoaded x' none = OnOk-throw ptree_error
  load_section-IsLoaded x' (some vs) = record { at = λ l e. load_scripts-IsLoaded x' i vs l e }

  on_collection-IsOutcome :
      (c : Config) (o : ℕ ⊎ Collection) → IsCode o → OnOk IsOutcome (on_collection x i c o)
  on_collection-IsOutcome c (inl code) h = OnOk-ok _ h
  on_collection-IsOutcome c (inr rexes) h =
      let x' = with_config x c rexes in
      after_load-IsOutcome x' _ (load_section-IsLoaded x' c.script_section)

  or_einval-IsCode : (r : Result Collection) → OnOk IsCode (or_einval r)
  or_einval-IsCode (ok c) = OnOk-ok _ tt
  or_einval-IsCode (throw e) = OnOk-ok _ (inr refl)
  or_einval-IsCode exit = OnOk-exit
  or_einval-IsCode _ = record { at = λ b e. absurd (ground arith) }

  read_collection-IsCode : (o : Option Text) → OnOk IsCode (read_collection x i o)
  read_collection-IsCode none = OnOk-ok _ (inl refl)
  read_collection-IsCode (some path) = or_einval-IsCode (fill x.regcomp (i.read_file path))

  open_regex_collection-IsCode : (o : Option Text) → OnOk IsCode (open_regex_collection x i o)
  unfolding open_regex_collection
  open_regex_collection-IsCode o = read_collection-IsCode _

  on_config-IsOutcome : (o : Options) (path : Option Text) → OnOk IsOutcome (on_config x i o path)
  on_config-IsOutcome o none = OnOk-ok _ (inl refl)
  on_config-IsOutcome o (some path) = OnOk-bind_any _ _ (λ c.
      OnOk-bind _ _ (open_regex_collection-IsCode o.regex_lib)
        (on_collection-IsOutcome (put_options x o c)))

  -- If main comes as far as a status or the service: it returns 0 at once where the command line asks
  -- for the help or the version; if not, the status is ENOENT or EINVAL, or there is at least one
  -- script and the scripts are loaded as they should be.
  pub start-IsOutcome :
      (s : Started) → start x i ≡ ok s → (AsksForText i.options × (s ≡ returned 0)) ⊎ IsOutcome s
  unfolding start
  start-IsOutcome s e = on i.options e
    where
      on :
          (o : Option Options)
          → on_options x i o ≡ ok s
          → (AsksForText o × (s ≡ returned 0)) ⊎ IsOutcome s
      on none e = inr ((OnOk-ok {Q = IsOutcome} (returned einval) (inr refl)).at s e)
      on (some o) e = elim (Bool-cases o.help) [
        | inl help ↦ inl (inl help, ground (arith, e))
        | inr no_help ↦ elim (Bool-cases o.version) [
          | inl version ↦ inl (inr version, ground (arith, e))
          | inr no_version ↦ inr (
              (on_config-IsOutcome o (config_path x i o.config)).at s
                (sym (if-false o.version _ _ no_version) ∙ (sym (if-false o.help _ _ no_help) ∙ e)))
        ]
      ]
