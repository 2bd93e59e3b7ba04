-- ===== src/State/Execute/Safety/Query.antt =====
-- The state "query".
use smarty_appserver.Prelude.{true, ◌≡◌, refl, inl, inr, Option, none, some, [], ◌∷◌, Text, arith}
use smarty_appserver.Action.{lift, ◌>>=◌}
use smarty_appserver.Action.Ensures.{
  Ensures-if, Ensures, Returns, Any, Ensures-lift, Ensures-bind, Ensures-catch_all,
}
use smarty_appserver.Database.{
  Database, DbMap, get_database, query_row, QueryResult, sql_failed, no_rows, first_row,
}
use smarty_appserver.Parser.{Externals}
use smarty_appserver.State.{State, query, QueryBody}
use smarty_appserver.State.Execute.Matching.{execute_query, use_database}
use smarty_appserver.World.{World, System, set_ext}
use smarty_appserver.Assigner.Held.{IsIntact, set_ext-Intact}
use smarty_appserver.Assigner.Evaluate.Laws.{IsLawful}
use smarty_appserver.Assigner.Evaluate.Safety.{evaluate-Ensures}
use smarty_appserver.State.Execute.Exits.{exits, IsSafeBody, Leads}
use smarty_appserver.State.Execute.Safety.Matching.{assign_and_go-Ensures}

query_row-Returns : (q : QueryResult) → Returns Any (query_row q)
unfolding query_row
query_row-Returns sql_failed = tt
query_row-Returns no_rows = tt
query_row-Returns (first_row []) = tt
query_row-Returns (first_row (f ∷ fs)) = tt

module _ {S : Type 0} {sel : Text} (x : Externals) (lawful : IsLawful x) (sys : System S)
    (st : State) where
  use_database-Ensures :
      (outq : Text) (o : Option Database)
      → (db : Database) × ((o ≡ some db) × (db.connected ≡ true))
      → Ensures (IsIntact {S = S} sel) Any (use_database x sys st outq o)
  use_database-Ensures outq none q = absurd (ground (arith, q.1.0))
  use_database-Ensures outq (some db) q =
      let open_connection : db.connected ≡ true = ground (arith, q.1.0, q.1.1) in
      Ensures-if db.connected _ _
        (λ _. record { state = λ w h. (ask w).state w h; result = λ w h. (ask w).result w h })
        (λ closed. absurd (ground arith))
    where
      ask :
          (w : World S)
          → Ensures (IsIntact {S = S} sel) Any (
              set_ext (sys.db_query w.ext db outq).1 >>= λ _.
              lift (query_row (sys.db_query w.ext db outq).0))
      ask w =
          Ensures-bind _ _ (set_ext-Intact _)
            (λ _ _. Ensures-lift _ (query_row-Returns (sys.db_query w.ext db outq).0))

  pub execute_query-Ensures :
      (dbs : DbMap) (b : QueryBody)
      → st.body ≡ query b
      → IsSafeBody sel dbs (query b)
      → Ensures (IsIntact {S = S} sel) (Leads sel dbs st) (execute_query x sys st dbs b)
  unfolding execute_query exits
  execute_query-Ensures dbs b e p = Ensures-catch_all _ _ (rw e (inr (inl refl), p, refl)) (
      Ensures-bind _ _ (evaluate-Ensures x lawful sys _ b.query p.1) (λ outq _.
        Ensures-bind _ _ (use_database-Ensures outq (get_database b.dbsection dbs) p.0) (λ row _.
          assign_and_go-Ensures x lawful sys st _ _ b.assignments p.2
            (rw e (inr (inl refl), p, refl)) (rw e (inl refl, p, refl)))))
