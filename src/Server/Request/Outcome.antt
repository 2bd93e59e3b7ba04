-- ===== src/Server/Request/Outcome.antt =====
-- Which script a request runs, and which requests are answered with "404 Not Found".
use smarty_appserver.Prelude.{
  ℕ, ℤ, pos, ◌≡◌, ◌∙◌, refl, ap, true, false, Bool-cases, inl, inr, Option, none, some, List, [],
  ◌++◌, Text, lookup, int_eq, codes, arith,
}
use smarty_appserver.Errors.{ok}
use smarty_appserver.Action.{pure, ◌>>=◌}
use smarty_appserver.Action.Ends.{Ends-returned}
use smarty_appserver.Database.{DbMap}
use smarty_appserver.Http.{http_status}
use smarty_appserver.Parser.{Externals}
use smarty_appserver.Parser.Script.{StateMap}
use smarty_appserver.World.{World, System, put_out}
use smarty_appserver.Assigner.{reset_table}
use smarty_appserver.Assigner.Ownership.{free_all-owned}
use smarty_appserver.Assigner.Refinement.{Represents}
use smarty_appserver.Assigner.Held.{IsHeld}
use smarty_appserver.Server.Held.{hold_value-Represents}
use smarty_appserver.Server.{
  hold, hold_value, read_script_name, script_selector, parambuf_length, put_status, run_script,
}
use smarty_appserver.Server.Request.{
  Request, Scripts, query_text, get_local_ptr, dispatch, handle_request, finish, after_run,
}
use smarty_appserver.Server.Request.Safety.{Fits}
use smarty_appserver.Server.Request.Import.{Holds, variables_of, import_variables-Holds}

module _ {S : Type 0} (x : Externals) (sys : System S) (dbs : DbMap) (protocol : Text)
    (fuel ii : ℕ) where
  -- No parameters, no selector, or a selector that names no script.
  pub data IsRefused (scripts : Scripts) (envp : List Text) (len : ℤ) (query : Text) : Type 0 where
    no_query : int_eq len (pos 0) ≡ true → IsRefused scripts envp len query
    no_selector :
        variables_of x sys dbs (some protocol) ii query envp (script_selector x) ≡ none
        → IsRefused scripts envp len query
    no_entry :
        (name : Text)
        → variables_of x sys dbs (some protocol) ii query envp (script_selector x) ≡ some name
        → lookup name scripts.entries ≡ none
        → IsRefused scripts envp len query
    no_file :
        (name : Text) (entry : ℤ)
        → variables_of x sys dbs (some protocol) ii query envp (script_selector x) ≡ some name
        → lookup name scripts.entries ≡ some entry
        → lookup name scripts.by_name ≡ none
        → IsRefused scripts envp len query

  abbrev pub refusal : World S → World S
  refusal w = record w { table = []; out = w.out ++ http_status protocol 404 parambuf_length }

  -- After the variables: the selector chooses.
  imported :
      (scripts : Scripts) (r : Request) (len : ℤ) (query : Text) (w : World S)
      → w.table ≡ []
      → Fits r.envp
      → query_text x r ≡ ok (len, query)
      → int_eq len (pos 0) ≡ false
      → (w' : World S) × Holds (variables_of x sys dbs (some protocol) ii query r.envp) w w'
        × (handle_request x sys dbs (some protocol) fuel ii scripts r w
            ≡ finish x sys dbs
                (some protocol)
                (dispatch x sys dbs
                  (some protocol)
                  fuel
                  scripts
                  (variables_of x sys dbs (some protocol) ii query r.envp (script_selector x)))
                w')
  unfolding handle_request ◌>>=◌ get_local_ptr
  imported scripts r len query w e f q n =
      let (u, w', returned, holds) =
        Ends-returned _ (import_variables-Holds x sys dbs (some protocol) ii query r.envp w e f) in
      let selector = script_selector x in (w', holds, rw (q, n, returned, holds.0.1 selector) refl)

  -- A "404" ends the request with an empty table.
  refused :
      (scripts : Scripts) (m : Text → Option Text) (w w' : World S)
      → Holds m w w'
      → finish x sys dbs
          (some protocol)
          (put_status x sys dbs (some protocol) 404 >>= λ _. pure scripts)
          w'
        ≡ (ok scripts, refusal w)
  unfolding ◌>>=◌ reset_table put_out
  refused scripts m w w' (represents, out, ext) =
      rw (free_all-owned w'.table represents.0) (rw (out, ext) refl)

  selected :
      (scripts : Scripts) (envp : List Text) (len : ℤ) (query : Text) (m : Text → Option Text)
      (w w' : World S)
      → m ≡ variables_of x sys dbs (some protocol) ii query envp
      → Holds m w w'
      → int_eq len (pos 0) ≡ false
      → IsRefused scripts envp len query
      → finish x sys dbs
          (some protocol)
          (dispatch x sys dbs (some protocol) fuel scripts (m (script_selector x)))
          w'
        ≡ (ok scripts, refusal w)
  unfolding dispatch
  selected scripts envp len query m w w' e holds n (no_query z) = absurd (ground (arith, z, n))
  selected scripts envp len query m w w' e holds n (no_selector h) =
      rw (e, h) (refused scripts m w w' holds)
  selected scripts envp len query m w w' e holds n (no_entry name h h1) =
      rw (e, h, h1) (refused scripts m w w' holds)
  selected scripts envp len query m w w' e holds n (no_file name entry h h1 h2) =
      rw (e, h, h1, h2) (refused scripts m w w' holds)

  -- A request without parameters, without a selector, or whose selector names no script, that a child
  -- with an empty table gets with an environment that fits the buffer: the whole answer is the status
  -- line of 404, no state runs, the scripts stay as they are and the table is empty. A parameter or a
  -- variable of the environment that names the selector counts in the order of the request, and the
  -- environment comes last.
  pub handle_request_refused :
      (scripts : Scripts) (r : Request) (len : ℤ) (query : Text) (w : World S)
      → w.table ≡ []
      → Fits r.envp
      → query_text x r ≡ ok (len, query)
      → IsRefused scripts r.envp len query
      → handle_request x sys dbs (some protocol) fuel ii scripts r w ≡ (ok scripts, refusal w)
  unfolding handle_request ◌>>=◌ put_out
  handle_request_refused scripts r len query w e f q h = elim (Bool-cases (int_eq len (pos 0))) [
    | inl z ↦ rw (q, z, e) refl
    | inr n ↦
        let (w', holds, run) = imported scripts r len query w e f q n in
        run ∙ selected scripts r.envp len query _ w w' refl holds n h
  ]

  -- A child with an empty table gets a request with parameters, whose environment fits the buffer and
  -- whose selector names a loaded script: it puts out the header of the answer and runs that script
  -- from its entry, over a table that holds the parameters and the variables of the environment (of
  -- two values of a name the last one, of the environment where both name it), then stores what the
  -- states have become and empties the table.
  pub handle_request_runs :
      (scripts : Scripts) (r : Request) (len : ℤ) (query name fname : Text) (entry : ℤ)
      (script : StateMap) (w : World S)
      → w.table ≡ []
      → Fits r.envp
      → query_text x r ≡ ok (len, query)
      → int_eq len (pos 0) ≡ false
      → variables_of x sys dbs (some protocol) ii query r.envp (script_selector x) ≡ some name
      → lookup name scripts.entries ≡ some entry
      → lookup name scripts.by_name ≡ some fname
      → lookup fname scripts.by_file ≡ some (some script)
      → (w' : World S) × Represents (variables_of x sys dbs (some protocol) ii query r.envp) w'
        × IsHeld (script_selector x) w'.table
        × (w'.out ≡ w.out ++ codes "Content-type: text/html\r\n\r\n")
        × (w'.ext ≡ w.ext)
        × (handle_request x sys dbs (some protocol) fuel ii scripts r w
            ≡ finish x sys dbs
                (some protocol)
                (run_script x sys dbs (some protocol) fuel script entry >>= λ script'.
                  read_script_name (script_selector x) >>= λ _.
                  pure (after_run x sys dbs (some protocol) scripts fname script'))
                w')
  unfolding dispatch ◌>>=◌ put_out hold
  handle_request_runs scripts r len query name fname entry script w e f q n h h1 h2 h3 =
      let (w', holds, run) = imported scripts r len query w e f q n in
      let (same, keeps) = hold_value-Represents (script_selector x) name _ w' holds.0 h in
      (
        record w' {
          table = hold_value (script_selector x) (lookup (script_selector x) w'.table) w'.table;
          out = w'.out ++ codes "Content-type: text/html\r\n\r\n";
        },
        same,
        keeps,
        ap (λ t. t ++ codes "Content-type: text/html\r\n\r\n") holds.1,
        holds.2,
        run ∙ rw (h, h1, h2, h3) refl,
      )
