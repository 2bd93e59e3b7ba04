-- ===== src/Tests/Columns.antt =====
-- A query state whose database answers with the row ("7", NULL).
use smarty_appserver.Prelude.{
  ◌≡◌, refl, pos, none, some, [], ◌∷◌, codes, lookup, text_eq, true, map,
}
use smarty_appserver.Errors.{ok}
use smarty_appserver.Database.{Database, DbMap, get_database, first_row, column}
use smarty_appserver.Parser.{Externals}
use smarty_appserver.World.{System}
use smarty_appserver.State.{State, QueryBody, query, new_state}
use smarty_appserver.Assigner.Evaluate.{get_propositional}
use smarty_appserver.Assigner.Evaluate.Segments.Meaning.{evaluate-meaning}
use smarty_appserver.Assigner.Evaluate.Segments.{plain}
use smarty_appserver.State.Execute.Matching.{execute_query, assign_and_go}
use smarty_appserver.State.Execute.Columns.{with_row, shown, execute_query-column}
use smarty_appserver.Tests.Sample.{sample, bare, fresh}

abbrev counted : Externals
counted = record sample { lexical_size = λ s. some 0 }

abbrev answering : System (Unit {0})
answering = record bare { db_query = λ s d q. (first_row (some (codes "7") ∷ none ∷ []), s) }

abbrev main_db : Database
main_db = record { connect_string = []; connected = true }

abbrev one_db : DbMap
one_db = (codes "db", some main_db) ∷ []

abbrev ask : QueryBody
ask = record { dbsection = codes "db"; query = codes "q"; assignments = []; result = none }

abbrev asking : State
asking = new_state (pos 1) (codes "s.sl") (query ask)

main_db-found : get_database (codes "db") one_db ≡ some main_db
unfolding get_database lookup text_eq
main_db-found = refl

execute_query-column_example :
    (execute_query counted answering asking one_db ask fresh
      ≡ assign_and_go counted answering asking
          (with_row asking ask (some (map column (some (codes "7") ∷ none ∷ []))))
          []
          fresh)
    × (get_propositional counted
          (with_row asking ask (some (map column (some (codes "7") ∷ none ∷ []))))
          (codes "$0")
        ≡ ok (some (shown (some (codes "7")))))
execute_query-column_example =
    execute_query-column counted answering asking one_db ask fresh fresh (codes "q") main_db
      (some (codes "7")) (none ∷ []) tt b'$' 0 (codes "0") (some (codes "7"))
      (evaluate-meaning counted answering (with_row asking ask none) (plain b'q' ∷ []) fresh
        (refl, tt))
      main_db-found refl refl refl refl
