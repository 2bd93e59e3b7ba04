-- ===== src/Server/Request/Reset.antt =====
-- No variable of a request is left for the next one.
use smarty_appserver.Prelude.{
  Option, none, some, ℕ, ℤ, pos, ◌≡◌, refl, [], Text, int_eq, Bool-cases, inl, inr,
}
use smarty_appserver.Errors.{Result, ok, throw, exit, undefined, out_of_fuel}
use smarty_appserver.Action.{Action, pure, ◌>>=◌, continue}
use smarty_appserver.Database.{DbMap}
use smarty_appserver.Parser.{Externals}
use smarty_appserver.World.{World, System, put_out}
use smarty_appserver.Assigner.{free_all, reset_table}
use smarty_appserver.Server.{put_status, script_selector}
use smarty_appserver.Server.Request.{
  Request, Scripts, query_text, import_variables, get_local_ptr, dispatch, finish, on_query,
  handle_request,
}

-- What a call left, if it returned.
abbrev pub LeavesEmpty : {S A : Type 0} → Result A × World S → Type 0
LeavesEmpty (ok a, w) = w.table ≡ []
LeavesEmpty (throw e, w) = Unit
LeavesEmpty (exit, w) = Unit
LeavesEmpty (undefined, w) = Unit
LeavesEmpty (out_of_fuel, w) = Unit

module _ {S : Type 0} (x : Externals) (sys : System S) (dbs : DbMap) (protocol : Option Text) where
  finish-LeavesEmpty :
      (m : Action (World S) Scripts) (w : World S) → LeavesEmpty (finish x sys dbs protocol m w)
  unfolding ◌>>=◌ reset_table
  finish-LeavesEmpty m w = go (m w).0 (m w).1
    where
      freed :
          (r : Result (Unit {0})) (scripts : Scripts) (w' : World S)
          → free_all w'.table ≡ r
          → LeavesEmpty ((reset_table >>= λ _. pure scripts) w')
      freed (ok u) scripts w' e = rw e refl
      freed (throw t) scripts w' e = rw e tt
      freed exit scripts w' e = rw e tt
      freed undefined scripts w' e = rw e tt
      freed out_of_fuel scripts w' e = rw e tt

      go :
          (r : Result Scripts) (w' : World S)
          → LeavesEmpty (continue r (λ scripts. reset_table >>= λ _. pure scripts) w')
      go (ok scripts) w' = freed (free_all w'.table) scripts w' refl
      go (throw t) w' = tt
      go exit w' = tt
      go undefined w' = tt
      go out_of_fuel w' = tt

  -- A child with an empty table, after a request that it comes back from, has an empty table: on every
  -- branch, the errors 404 and 500 included.
  pub handle_request-LeavesEmpty :
      (fuel ii : ℕ) (scripts : Scripts) (r : Request) (w : World S)
      → w.table ≡ []
      → LeavesEmpty (handle_request x sys dbs protocol fuel ii scripts r w)
  unfolding handle_request ◌>>=◌ put_out
  handle_request-LeavesEmpty fuel ii scripts r w h = go (query_text x r)
    where
      refused :
          (p : Option Text) → LeavesEmpty ((put_status x sys dbs p 404 >>= λ _. pure scripts) w)
      refused none = tt
      refused (some t) = h

      on :
          (len : ℤ) (query : Text)
          → LeavesEmpty (on_query x sys dbs protocol fuel ii scripts r (len, query) w)
      on len query = elim (Bool-cases (int_eq len (pos 0))) [
        | inl zero_length ↦ rw zero_length (refused protocol)
        | inr some_length ↦ rw some_length (
            finish-LeavesEmpty
              (import_variables x sys dbs protocol ii query r.envp >>= λ _.
                get_local_ptr (script_selector x) >>= dispatch x sys dbs protocol fuel scripts)
              w)
      ]

      go :
          (q : Result (ℤ × Text))
          → LeavesEmpty (continue q (on_query x sys dbs protocol fuel ii scripts r) w)
      go (ok (len, query)) = on len query
      go (throw t) = tt
      go exit = tt
      go undefined = tt
      go out_of_fuel = tt
