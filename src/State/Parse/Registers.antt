-- ===== src/State/Parse/Registers.antt =====
-- What `parse` keeps of a state: a file state has a flag for each line, and the section of a query
-- state is in the table of databases.
use smarty_appserver.Prelude.{
  ℕ, ℤ, ◌≡◌, Bool, true, false, Option, none, some, [], ◌∷◌, ◌++◌, Text, length, lookup,
  lookup-insert, lookup-insert_self, text_eq, if◌then◌else◌, arith, Bool-cases, inl, inr,
  length-append,
}
use smarty_appserver.Errors.{
  Result, ok, exit, OnOk, OnOk-ok, OnOk-throw, OnOk-exit, OnOk-bind, OnOk-bind_any, ◌>>=◌,
}
use smarty_appserver.Regex.{capture}
use smarty_appserver.Database.{Database, DbMap, add_db_section}
use smarty_appserver.Parser.{Externals, RegName, is_matched}
use smarty_appserver.Parser.Matched.{if_matched-OnOk}
use smarty_appserver.State.{
  State, Body, end, file, regex, query, match, http, mail, sms, script, shell, structure, goto,
  FileBody, QueryBody,
}
use smarty_appserver.State.Verify.{non_empty}
use smarty_appserver.State.Parse.{
  on_group, push_assignment, parse_end, parse_file, parse_regex, parse_query, parse_match,
  parse_http, parse_mail, parse_shell, parse_structure, parse_body, parse,
}

abbrev pub IsRegistered : DbMap → Body → Type 0
IsRegistered dbs (file b) = length b.out_list ≡ length b.interpret_flag
IsRegistered dbs (query b) =
    non_empty b.dbsection ≡ true → (o : Option Database) × (lookup b.dbsection dbs ≡ some o)
IsRegistered dbs _ = Unit

-- No section goes.
abbrev pub Grows : DbMap → DbMap → Type 0
Grows dbs dbs' =
    (k : Text) (o : Option Database)
    → lookup k dbs ≡ some o
    → (o' : Option Database) × (lookup k dbs' ≡ some o')

pub Grows-refl : (dbs : DbMap) → Grows dbs dbs
Grows-refl dbs k o e = (o, e)

pub IsRegistered-Grows :
    (dbs dbs' : DbMap) (b : Body) → Grows dbs dbs' → IsRegistered dbs b → IsRegistered dbs' b
IsRegistered-Grows dbs dbs' (file b) g h = h
IsRegistered-Grows dbs dbs' (query b) g h = λ e. let (o, found) = h e in g b.dbsection o found
IsRegistered-Grows dbs dbs' _ g h = tt

add_db_section-Grows : (section : Text) (dbs : DbMap) → Grows dbs (add_db_section section dbs)
unfolding add_db_section
add_db_section-Grows section dbs k o e = elim (Bool-cases (text_eq section k)) [
  | inl hit ↦ (none, ground (arith, lookup-insert section k none dbs))
  | inr miss ↦ (o, ground (arith, lookup-insert section k none dbs))
]

module _ (x : Externals) (number : ℤ) (line fname : Text) (counter : ℕ) where
  on_group-OnOk :
      {A : Type 0} {Q : A → Type 0} (name : RegName) (found : Text → Result A) (other : Result A)
      → ((v : Text) → OnOk Q (found v))
      → OnOk Q other
      → OnOk Q (on_group x number line fname counter name found other)
  on_group-OnOk name found other kf ko =
      if_matched-OnOk (is_matched x name line fname counter) _ _
        (λ g. OnOk-bind_any (capture g 1 line) _ kf) ko

  parse_file-IsRegistered :
      (dbs : DbMap) (b : FileBody)
      → IsRegistered dbs (file b)
      → OnOk (λ b'. IsRegistered dbs (file b')) (parse_file x number line fname counter b)
  unfolding parse_file
  parse_file-IsRegistered dbs b h =
      on_group-OnOk RegName.file _ _ (λ v. OnOk-ok _ h)
        (on_group-OnOk RegName.data_single _ _ (λ v. OnOk-ok _ (more v false))
          (on_group-OnOk RegName.data_double _ _ (λ v. OnOk-ok _ (more v true)) (OnOk-throw _)))
    where
      more :
          (v : Text) (f : Bool)
          → length (b.out_list ++ v ∷ []) ≡ length (b.interpret_flag ++ f ∷ [])
      more v f =
          omega
            (arith, h, length-append b.out_list (v ∷ []), length-append b.interpret_flag (f ∷ []))

  abbrev Registers : DbMap → Body × DbMap → Type 0
  Registers dbs (b, dbs') = Grows dbs dbs' × IsRegistered dbs' b

  parse_query-Registers :
      (dbs : DbMap) (b : QueryBody)
      → IsRegistered dbs (query b)
      → OnOk {A = QueryBody × DbMap}
          (λ p. Registers dbs (query p.0, p.1))
          (parse_query x number line fname counter b dbs)
  unfolding parse_query add_db_section
  parse_query-Registers dbs b h =
      on_group-OnOk RegName.db _ _ (λ v. on_section v (x.config_has v))
        (on_group-OnOk RegName.query _ _ (λ v. OnOk-ok _ (Grows-refl dbs, h))
          (OnOk-bind_any (push_assignment x number line fname counter b.assignments) _
            (λ asgs. OnOk-ok _ (Grows-refl dbs, h))))
    where
      on_section :
          (v : Text) (known : Bool)
          → OnOk {A = QueryBody × DbMap}
              (λ p. Registers dbs (query p.0, p.1))
              (if known then ok (record b { dbsection = v }, add_db_section v dbs) else exit)
      on_section v true =
          OnOk-ok _ (add_db_section-Grows v dbs, λ e. (none, lookup-insert_self v none dbs))
      on_section v false = OnOk-exit

  plain :
      {A : Type 0} (dbs : DbMap) (f : A → Body) (m : Result A)
      → ((a : A) → IsRegistered dbs (f a))
      → OnOk (Registers dbs) (m >>= λ a. ok (f a, dbs))
  plain dbs f m k = OnOk-bind_any m _ (λ a. OnOk-ok _ (Grows-refl dbs, k a))

  parse_body-Registers :
      (dbs : DbMap) (b : Body)
      → IsRegistered dbs b
      → OnOk (Registers dbs) (parse_body x number line fname counter b dbs)
  unfolding parse_body
  parse_body-Registers dbs (end b) h =
      plain dbs _ (parse_end x number line fname counter b) (λ b'. tt)
  parse_body-Registers dbs (regex b) h =
      plain dbs _ (parse_regex x number line fname counter b) (λ b'. tt)
  parse_body-Registers dbs (match b) h =
      plain dbs _ (parse_match x number line fname counter b) (λ b'. tt)
  parse_body-Registers dbs (http b) h =
      plain dbs _ (parse_http x number line fname counter b) (λ b'. tt)
  parse_body-Registers dbs (mail b) h =
      plain dbs _ (parse_mail x number line fname counter b) (λ b'. tt)
  parse_body-Registers dbs (shell b) h =
      plain dbs _ (parse_shell x number line fname counter b) (λ b'. tt)
  parse_body-Registers dbs (structure b) h =
      plain dbs _ (parse_structure x number line fname counter b) (λ b'. tt)
  parse_body-Registers dbs (goto asgs) h =
      plain dbs _ (push_assignment x number line fname counter asgs) (λ b'. tt)
  parse_body-Registers dbs sms h = OnOk-ok _ (Grows-refl dbs, tt)
  parse_body-Registers dbs script h = OnOk-ok _ (Grows-refl dbs, tt)
  parse_body-Registers dbs (file b) h =
      OnOk-bind (parse_file x number line fname counter b) _ (parse_file-IsRegistered dbs b h)
        (λ b' h'. OnOk-ok _ (Grows-refl dbs, h'))
  parse_body-Registers dbs (query b) h =
      OnOk-bind (parse_query x number line fname counter b dbs) _ (parse_query-Registers dbs b h)
        (λ p q. OnOk-ok _ q)

-- Parsing one more line registers the section that it names, and leaves the other sections.
pub parse-Registers :
    (x : Externals) (s : State) (line fname : Text) (counter : ℕ) (dbs : DbMap)
    → IsRegistered dbs s.body
    → OnOk (λ p. Grows dbs p.1 × IsRegistered p.1 p.0.body) (parse x s line fname counter dbs)
unfolding parse
parse-Registers x s line fname counter dbs h =
    OnOk-bind (parse_body x s.number line fname counter s.body dbs) _
      (parse_body-Registers x s.number line fname counter dbs s.body h) (λ p q. OnOk-ok _ q)
