-- ===== src/Database/Connect.antt =====
-- src/cdbmanager.cpp, connectDBs, and the constructor of CPgDatabase: a child connects its sections.
use smarty_appserver.Prelude.{
  ◌≡◌, refl, Bool, true, false, ℤ, pos, Option, none, some, [], ◌∷◌, ◌++◌, Text, codes, lookup,
  text_eq, c_str, if◌then◌else◌, arith, Bool-cases, inl, inr,
}
use smarty_appserver.Errors.{Result, ok, throw, ◌>>=◌, ptree_error, unsupported_feature, sql_error}
use smarty_appserver.Database.{Database, DbMap, get_database, IsConnected}
use smarty_appserver.Parser.{Externals}
use smarty_appserver.Action.Ensures.{Returns, Any}

-- CPgDatabase::CPgDatabase
unfoldable pub connect_string : Externals → Text → Text → Text → Text → ℤ → Text
connect_string x dbname user password host port =
    codes "user="
    ++ (user
        ++ (codes " password="
            ++ (password
                ++ (codes " dbname="
                    ++ (dbname
                        ++ (codes " host="
                            ++ (host ++ (codes " port=" ++ x.lexical_text port))))))))

abbrev or_value {ℓ} : {A : Type ℓ} → Option A → A → A
or_value none d = d
or_value (some a) d = a

abbrev on_text {ℓ κ} : {A : Type ℓ} {B : Type κ} → (A → Option B) → Option A → Option B
on_text f none = none
on_text f (some a) = f a

-- CPgDatabase::disconnect and ~CPgDatabase: they read through m_connection.
unfoldable pub disconnect : Database → Result Database
disconnect db =
    if db.connected then ok (record db { connected = false }) else smarty_appserver.Errors.undefined

-- disconnectDBs deletes the objects.
unfoldable pub disconnect_dbs : DbMap → Result (Unit {0})
disconnect_dbs [] = ok tt
disconnect_dbs ((section, none) ∷ rest) = disconnect_dbs rest
disconnect_dbs ((section, some db) ∷ rest) = disconnect db >>= λ _. disconnect_dbs rest

-- `can_connect` is whether `new pqxx::connection` succeeds on a connection string.
module _ (x : Externals) (can_connect : Text → Bool) where
  -- The object of a section, with the defaults of its keys.
  unfoldable pub section_database : Text → Bool → Database
  section_database section connected =
      let key = λ (name : Text). or_value (x.config_get (section ++ name)) (codes "smarty") in
      let host = or_value (x.config_get (section ++ codes ".dbhost")) (codes "localhost") in
      let port =
        or_value (on_text x.lexical_int (x.config_get (section ++ codes ".dbport"))) (pos 5432) in
      record {
        connect_string =
            connect_string x (key (codes ".dbname")) (key (codes ".dbuser")) (key (codes ".dbpswd"))
              host port;
        connected = connected;
      }

  -- What becomes of a section: the pointer and the result. The object is in the map before it connects.
  abbrev connect_typed : Text → Option Database → Option Text → Option Database × Result (Unit {0})
  connect_typed section old none = (old, throw ptree_error)
  connect_typed section old (some dbtype) =
      if text_eq dbtype (codes "postgresql")
      then (let db = section_database section true in
          if can_connect (c_str db.connect_string)
          then (some db, ok tt)
          else (some (section_database section false), throw sql_error))
      else (old, throw unsupported_feature)

  abbrev and_rest :
      Text
      → Option Database × Result (Unit {0})
      → Result (Unit {0}) × DbMap
      → DbMap
      → Result (Unit {0}) × DbMap
  and_rest section (o, ok u) (r, rest') rest = (r, (section, o) ∷ rest')
  and_rest section (o, r) later rest = (r, (section, o) ∷ rest)

  -- connectDBs: an exception leaves the sections after it without an object.
  unfoldable pub connect_dbs : DbMap → Result (Unit {0}) × DbMap
  connect_dbs [] = (ok tt, [])
  connect_dbs ((section, o) ∷ rest) =
      and_rest section (connect_typed section o (x.config_get (section ++ codes ".dbtype")))
        (connect_dbs rest) rest

  abbrev IsConnectedEntry : Text × Option Database → Type 0
  IsConnectedEntry (section, o) = (db : Database) × ((o ≡ some db) × (db.connected ≡ true))

  and_rest-ok :
      (section : Text) (p : Option Database × Result (Unit {0})) (later : Result (Unit {0}) × DbMap)
      (rest : DbMap)
      → (and_rest section p later rest).0 ≡ ok tt
      → (p.1 ≡ ok tt)
        × ((later.0 ≡ ok tt) × ((and_rest section p later rest).1 ≡ (section, p.0) ∷ later.1))
  and_rest-ok section (o, ok u) (r, rest') rest h = (refl, (h, refl))
  and_rest-ok section (o, throw e) later rest h = absurd (ground arith)
  and_rest-ok section (o, smarty_appserver.Errors.exit) later rest h = absurd (ground arith)
  and_rest-ok section (o, smarty_appserver.Errors.undefined) later rest h = absurd (ground arith)
  and_rest-ok section (o, smarty_appserver.Errors.out_of_fuel) later rest h = absurd (ground arith)

  connect_typed-ok :
      (section : Text) (old : Option Database) (dbtype : Option Text)
      → (connect_typed section old dbtype).1 ≡ ok tt
      → IsConnectedEntry (section, (connect_typed section old dbtype).0)
  unfolding section_database
  connect_typed-ok section old none h = absurd (ground arith)
  connect_typed-ok section old (some dbtype) h =
      elim (Bool-cases (text_eq dbtype (codes "postgresql"))) [
        | inl hit ↦
            elim (Bool-cases (can_connect (c_str (section_database section true).connect_string))) [
              | inl up ↦ rw (hit, up) (section_database section true, (refl, refl))
              | inr down ↦ absurd (ground arith)
            ]
        | inr miss ↦ absurd (ground arith)
      ]

  connect_typed-Returns :
      (section : Text) (old : Option Database) (dbtype : Option Text)
      → Returns Any (connect_typed section old dbtype).1
  connect_typed-Returns section old none = tt
  connect_typed-Returns section old (some dbtype) =
      elim (Bool-cases (text_eq dbtype (codes "postgresql"))) [
        | inl hit ↦
            elim (Bool-cases (can_connect (c_str (section_database section true).connect_string))) [
              | inl up ↦ rw (hit, up) tt
              | inr down ↦ rw (hit, down) tt
            ]
        | inr miss ↦ rw miss tt
      ]

  and_rest-Returns :
      (section : Text) (p : Option Database × Result (Unit {0})) (later : Result (Unit {0}) × DbMap)
      (rest : DbMap)
      → Returns Any p.1
      → Returns Any later.0
      → Returns Any (and_rest section p later rest).0
  and_rest-Returns section (o, ok u) (r, rest') rest h k = k
  and_rest-Returns section (o, throw e) later rest h k = tt
  and_rest-Returns section (o, smarty_appserver.Errors.exit) later rest h k = tt
  and_rest-Returns section (o, smarty_appserver.Errors.undefined) later rest h k = absurd h
  and_rest-Returns section (o, smarty_appserver.Errors.out_of_fuel) later rest h k = absurd h

  -- connectDBs returns or throws.
  pub connect_dbs-Returns : (m : DbMap) → Returns Any (connect_dbs m).0
  unfolding connect_dbs
  connect_dbs-Returns [] = tt
  connect_dbs-Returns ((section, o) ∷ rest) =
      and_rest-Returns section _ (connect_dbs rest) rest (connect_typed-Returns section o _)
        (connect_dbs-Returns rest)

  connect_dbs-entry :
      (m : DbMap) (section : Text) (o : Option Database)
      → (connect_dbs m).0 ≡ ok tt
      → lookup section m ≡ some o
      → (p : Option Database) × ((lookup section (connect_dbs m).1 ≡ some p)
          × IsConnectedEntry (section, p))
  unfolding connect_dbs lookup
  connect_dbs-entry [] section o h e = absurd (ground arith)
  connect_dbs-entry ((k, old) ∷ rest) section o h e =
      let typed = connect_typed k old (x.config_get (k ++ codes ".dbtype")) in
      let (one, (others, same)) = and_rest-ok k typed (connect_dbs rest) rest h in
      elim (Bool-cases (text_eq k section)) [
        | inl hit ↦ (typed.0, (rw (same, hit) refl, connect_typed-ok k old _ one))
        | inr miss ↦
            let (p, (found, up)) = connect_dbs-entry rest section o others (ground arith) in
            (p, (rw (same, miss) found, up))
      ]

  -- When connectDBs returns, every section that the table had, that is every one that a script has
  -- named, has an object with a connection.
  pub connect_dbs_all :
      (m : DbMap) (section : Text) (o : Option Database)
      → (connect_dbs m).0 ≡ ok tt
      → lookup section m ≡ some o
      → IsConnected (connect_dbs m).1 section
  unfolding get_database
  connect_dbs_all m section o h e =
      let (p, (found, (db, (same, up)))) = connect_dbs-entry m section o h e in
      (db, (rw (found, same) refl, up))

  -- The objects that connectDBs leaves when it returns can be deleted.
  pub disconnect_dbs-connected :
      (m : DbMap) → (connect_dbs m).0 ≡ ok tt → disconnect_dbs (connect_dbs m).1 ≡ ok tt
  unfolding connect_dbs disconnect_dbs disconnect
  disconnect_dbs-connected [] h = refl
  disconnect_dbs-connected ((k, old) ∷ rest) h =
      let typed = connect_typed k old (x.config_get (k ++ codes ".dbtype")) in
      let (one, (others, same)) = and_rest-ok k typed (connect_dbs rest) rest h in
      let (db, (object, up)) = connect_typed-ok k old _ one in
      rw (same, object, up) (disconnect_dbs-connected rest others)
