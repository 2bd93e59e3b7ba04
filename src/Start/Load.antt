-- ===== src/Start/Load.antt =====
-- What the loading of the scripts leaves: each name with a file and an entry, and each file with what
-- parseScript has made of it.
use mathlib.Core.Path.{subst}
use smarty_appserver.Prelude.{
  ℕ, ℤ, ◌≡◌, refl, Option, none, some, List, [], ◌∷◌, Text, take, lookup, insert, lookup-insert,
  lookup-insert_self, text_eq, c_str, arith, Option-cases, Bool-cases, inl, inr,
}
use smarty_appserver.CppString.{rfind}
use smarty_appserver.Errors.{
  ok, OnOk, OnOk-ok, OnOk-throw, OnOk-bind, OnOk-bind_any, ptree_error, runtime_error,
}
use smarty_appserver.Database.{DbMap}
use smarty_appserver.Parser.{Externals}
use smarty_appserver.Parser.Script.{StateMap, parse_script}
use smarty_appserver.Parser.Script.WellFormed.{IsWellFormed, parse_script-IsWellFormed}
use smarty_appserver.Parser.Script.Sections.{
  AreRegistered, AreRegistered-Grows, states_of, parse_script-AreRegistered,
}
use smarty_appserver.Start.{
  Installation, Loaded, nothing_loaded, bind_name, store_file, script_path, load_file, on_colon,
  load_script, load_scripts,
}

pub record IsLoaded (l : Loaded) : Type 0 where
  pub named :
      (name fname : Text)
      → lookup name l.scripts.by_name ≡ some fname
      → ((o : Option StateMap) × (lookup fname l.scripts.by_file ≡ some o))
        × ((entry : ℤ) × (lookup name l.scripts.entries ≡ some entry))
  pub parsed :
      (fname : Text) (m : StateMap)
      → lookup fname l.scripts.by_file ≡ some (some m)
      → IsWellFormed m × AreRegistered l.dbs m

nothing_loaded-IsLoaded : IsLoaded nothing_loaded
unfolding lookup
nothing_loaded-IsLoaded = record {
  named = λ name fname e. absurd (ground arith);
  parsed = λ fname m e. absurd (ground arith);
}

-- After an insertion there is more to find.
lookup-insert_more :
    {V : Type 0} (k j : Text) (v w : V) (m : List (Text × V))
    → lookup j m ≡ some w
    → (u : V) × (lookup j (insert k v m) ≡ some u)
lookup-insert_more k j v w m e = elim (Bool-cases (text_eq k j)) [
  | inl hit ↦ (v, ground (arith, hit, lookup-insert k j v m))
  | inr miss ↦ (w, ground (arith, miss, lookup-insert k j v m))
]

bind_name-IsLoaded :
    (name fname : Text) (entry : ℤ) (l : Loaded) (o : Option StateMap)
    → lookup fname l.scripts.by_file ≡ some o
    → IsLoaded l
    → IsLoaded (bind_name name fname entry l)
bind_name-IsLoaded name fname entry l o there h = record {
  named = λ j f e. elim (Bool-cases (text_eq name j)) [
    | inl hit ↦
        let same : fname ≡ f = ground (arith, hit, lookup-insert name j fname l.scripts.by_name) in
        (
          (o, subst (λ g. lookup g l.scripts.by_file ≡ some o) same there),
          (entry, ground (arith, hit, lookup-insert name j entry l.scripts.entries)),
        )
    | inr miss ↦
        let (file, (old, found)) =
          h.named j f (ground (arith, miss, lookup-insert name j fname l.scripts.by_name)) in
        (file, lookup-insert_more name j entry old l.scripts.entries found)
  ];
  parsed = h.parsed;
}

-- The file is there, and what was loaded is loaded.
abbrev HasFile : Text → Loaded → Type 0
HasFile fname l = IsLoaded l × ((o : Option StateMap) × (lookup fname l.scripts.by_file ≡ some o))

module _ (x : Externals) (i : Installation) where
  store_file-HasFile :
      (fname : Text) (l : Loaded) (o : Option StateMap) (dbs' : DbMap)
      → parse_script x (script_path x i fname) (i.read_text (script_path x i fname)) l.dbs
        ≡ ok (o, dbs')
      → IsLoaded l
      → HasFile fname (store_file fname (o, dbs') l)
  store_file-HasFile fname l o dbs' e h =
      let path = script_path x i fname in
      let (grown, registered) =
        parse_script-AreRegistered x path (i.read_text path) l.dbs dbs' o e in
      (
        record {
          named = λ j f named.
              let ((old, found), entry) = h.named j f named in
              (lookup-insert_more fname f o old l.scripts.by_file found, entry);
          parsed = λ f m found. elim (Bool-cases (text_eq fname f)) [
            | inl hit ↦
                let same : o ≡ some m =
                  ground (arith, hit, lookup-insert fname f o l.scripts.by_file) in
                (
                  parse_script-IsWellFormed x path (i.read_text path) l.dbs dbs' m (
                      subst (λ q. parse_script x path (i.read_text path) l.dbs ≡ ok (q, dbs')) same
                        e),
                  subst (λ q. AreRegistered dbs' (states_of q)) same registered,
                )
            | inr miss ↦
                let (form, sections) =
                  h.parsed f m (ground (arith, miss, lookup-insert fname f o l.scripts.by_file)) in
                (form, AreRegistered-Grows l.dbs dbs' m grown sections)
          ];
        },
        (o, lookup-insert_self fname o l.scripts.by_file),
      )

  load_file-HasFile :
      (fname : Text) (l : Loaded) (o : Option (Option StateMap))
      → lookup fname l.scripts.by_file ≡ o
      → IsLoaded l
      → OnOk (HasFile fname) (load_file x i fname l o)
  load_file-HasFile fname l (some m) e h = OnOk-ok l (h, (m, e))
  load_file-HasFile fname l none e h =
      OnOk-bind
        {Q = λ p.
          parse_script x (script_path x i fname) (i.read_text (script_path x i fname)) l.dbs ≡ ok p}
        _ _ (record { at = λ p r. r })
        (λ p r. OnOk-ok (store_file fname p l) (store_file-HasFile fname l p.0 p.1 r h))

  on_colon-IsLoaded :
      (name value : Text) (l : Loaded) (o : Option ℕ)
      → IsLoaded l
      → OnOk IsLoaded (on_colon x i name value l o)
  on_colon-IsLoaded name value l none h = OnOk-throw runtime_error
  on_colon-IsLoaded name value l (some n) h = OnOk-bind_any _ _ (λ entry.
      OnOk-bind _ _ (load_file-HasFile (take n value) l _ refl h) (λ l' (h', (o, there)).
        OnOk-ok _ (bind_name-IsLoaded name (take n value) entry l' o there h')))

  load_script-IsLoaded :
      (v : Text × Text) (l : Loaded) → IsLoaded l → OnOk IsLoaded (load_script x i v l)
  unfolding load_script
  load_script-IsLoaded (name, value) l h =
      elim (Option-cases (lookup (c_str name) l.scripts.by_name)) [
        | inl new ↦
            rw (new, load_script) (on_colon-IsLoaded (c_str name) value l (rfind b':' value) h)
        | inr (fname, taken) ↦ rw (taken, load_script) (OnOk-throw ptree_error)
      ]

  pub load_scripts-IsLoaded_from :
      (vs : List (Text × Text)) (l : Loaded) → IsLoaded l → OnOk IsLoaded (load_scripts x i vs l)
  unfolding load_scripts
  load_scripts-IsLoaded_from [] l h = OnOk-ok l h
  load_scripts-IsLoaded_from (v ∷ vs) l h =
      OnOk-bind _ _ (load_script-IsLoaded v l h) (load_scripts-IsLoaded_from vs)

  -- When the lines of the section have been read, whatever the files hold: every name has an entry
  -- and a file that has been parsed; the map of a file, if it has states, has no number twice and
  -- each of its states under its own number and verified; and the section of each query state is in
  -- the table of databases.
  pub load_scripts-IsLoaded :
      (vs : List (Text × Text)) (l : Loaded)
      → load_scripts x i vs nothing_loaded ≡ ok l
      → IsLoaded l
  load_scripts-IsLoaded vs l e =
      (load_scripts-IsLoaded_from vs nothing_loaded nothing_loaded-IsLoaded).at l e
