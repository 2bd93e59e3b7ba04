-- ===== src/State/Execute/Columns.antt =====
-- src/querystate.cpp: what `$n` is in the assignments of a query state.
use smarty_appserver.Prelude.{
  ℤ, ℕ, zero, suc, true, ◌≡◌, ◌∙◌, refl, ap, Option, none, some, List, [], ◌∷◌, Text, get_elem?,
  map, c_str, arith, if-true,
}
use smarty_appserver.CppString.{substr_from}
use smarty_appserver.Errors.{Result, ok, throw, exit, undefined, out_of_fuel}
use smarty_appserver.Action.{Action, pure, recover, catch_all, ◌>>=◌}
use smarty_appserver.Database.{Database, DbMap, get_database, first_row, column, query_row}
use smarty_appserver.Parser.{Externals}
use smarty_appserver.State.{State, Assignment, QueryBody, query}
use smarty_appserver.World.{World, System, set_ext}
use smarty_appserver.Assigner.Evaluate.{evaluate, assign_all, get_propositional, query_column}
use smarty_appserver.State.Execute.Matching.{execute_query, use_database, assign_and_go}

-- The state with the row of a run.
abbrev pub with_row : State → QueryBody → Option (List (Option Text)) → State
with_row st b row = record st { body = query (record b { result = row }) }

-- The text of a column, up to its NUL; that of a NULL is empty.
abbrev pub shown : Option Text → Text
shown none = []
shown (some t) = c_str t

query_column-shown :
    (cols : List (Option Text)) (k : ℕ) (col : Option Text)
    → get_elem? cols k ≡ some col
    → query_column (some (map column cols)) (some k) ≡ some (shown col)
unfolding c_str
query_column-shown [] k col e = absurd (ground arith)
query_column-shown (none ∷ cols) zero col e = ground arith
query_column-shown (some [] ∷ cols) zero col e = ground arith
query_column-shown (some (c ∷ s) ∷ cols) zero col e = ground arith
query_column-shown (t ∷ cols) (suc k) col e = query_column-shown cols k col e

module _ {S : Type 0} (x : Externals) (sys : System S) (st : State) (dbs : DbMap)
    (b : QueryBody) where
  -- What assign_and_go catches is not caught again.
  recovered :
      (a : State × ℤ) (st' : State) (asgs : List Assignment) (w : World S)
      → catch_all a (assign_and_go x sys st st' asgs) w ≡ assign_and_go x sys st st' asgs w
  unfolding catch_all assign_and_go
  recovered a st' asgs w =
      let run = (assign_all x sys st' asgs >>= λ _. pure (st', st'.next_state)) w in
      ap (λ r. (r, run.1)) (twice _ run.0)
    where
      twice : (a' : State × ℤ) (r : Result (State × ℤ)) → recover a (recover a' r) ≡ recover a' r
      twice a' (ok v) = refl
      twice a' (throw e) = refl
      twice a' exit = refl
      twice a' undefined = refl
      twice a' out_of_fuel = refl

  asked :
      (w : World S) (outq : Text) (db : Database) (f : Option Text) (fs : List (Option Text))
      (ext' : S)
      → db.connected ≡ true
      → sys.db_query w.ext db outq ≡ (first_row (f ∷ fs), ext')
      → use_database x sys st outq (some db) w
        ≡ (ok (some (map column (f ∷ fs))), record w { ext = ext' })
  unfolding ◌>>=◌ set_ext query_row
  asked w outq db f fs ext' connected answer =
      ap (λ (m : Action (World S) (Option (List (Option Text)))). m w) (if-true _ _ _ connected)
      ∙ rw answer refl

  column_of :
      (row : List (Option Text)) (c k : ℕ) (path : Text)
      → x.lexical_size path ≡ some k
      → get_propositional x (with_row st b (some row)) (c ∷ path)
        ≡ ok (query_column (some row) (some k))
  unfolding get_propositional substr_from
  column_of row c k path number = ground (arith, number)

  -- Where the database of the section is connected and answers the evaluated query with a row, a query
  -- state runs its assignments on that row: `$k` is then the text of the column k, and the empty text
  -- for a NULL. The query itself is evaluated without the row of an earlier run.
  pub execute_query-column :
      (w w' : World S) (outq : Text) (db : Database) (f : Option Text) (fs : List (Option Text))
      (ext' : S) (c k : ℕ) (path : Text) (col : Option Text)
      → evaluate x sys (with_row st b none) b.query w ≡ (ok outq, w')
      → get_database b.dbsection dbs ≡ some db
      → db.connected ≡ true
      → sys.db_query w'.ext db outq ≡ (first_row (f ∷ fs), ext')
      → x.lexical_size path ≡ some k
      → get_elem? (f ∷ fs) k ≡ some col
      → (execute_query x sys st dbs b w
          ≡ assign_and_go x sys st
              (with_row st b (some (map column (f ∷ fs))))
              b.assignments
              (record w' { ext = ext' }))
        × (get_propositional x (with_row st b (some (map column (f ∷ fs)))) (c ∷ path)
            ≡ ok (some (shown col)))
  unfolding execute_query ◌>>=◌ catch_all
  execute_query-column w w' outq db f fs ext' c k path col ev found connected answer number at = (
    rw (ev, found, asked w' outq db f fs ext' connected answer) (recovered _ _ _ _),
    column_of _ c k path number ∙ ap (λ o. ok o) (query_column-shown (f ∷ fs) k col at),
  )
