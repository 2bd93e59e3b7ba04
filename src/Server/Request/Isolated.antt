-- ===== src/Server/Request/Isolated.antt =====
-- Requests over scripts that agree but for what earlier runs have left.
use smarty_appserver.Prelude.{
  ℕ, ℤ, pos, ◌≡◌, ◌∙◌, refl, sym, ap, Bool-cases, inl, inr, Option, none, some, List, [], ◌∷◌, ◌++◌,
  Text, lookup, insert, text_eq, int_eq, arith, codes,
}
use smarty_appserver.Errors.{Result, ok, throw, exit, undefined, out_of_fuel}
use smarty_appserver.Action.{Action, pure, lift, continue, ◌>>=◌}
use smarty_appserver.Database.{DbMap}
use smarty_appserver.Parser.{Externals}
use smarty_appserver.Parser.Script.{StateMap}
use smarty_appserver.World.{World, System, put_out}
use smarty_appserver.Assigner.{reset_table}
use smarty_appserver.Server.{
  hold, hold_value, read_script_name, script_selector, run_script, put_status,
}
use smarty_appserver.Server.Isolation.{forget_map, forgotten, run_script-forget}
use smarty_appserver.Server.Request.{
  Request, Scripts, query_text, import_variables, get_local_ptr, dispatch, finish, run_file,
  on_script, on_entry, after_run, on_query, handle_request,
}

abbrev pub forget_file : Option StateMap → Option StateMap
forget_file none = none
forget_file (some m) = some (forget_map m)

abbrev pub forget_files : List (Text × Option StateMap) → List (Text × Option StateMap)
forget_files [] = []
forget_files ((fname, m) ∷ fs) = (fname, forget_file m) ∷ forget_files fs

-- The same names and entries, and files that agree but for what runs leave in their states.
abbrev pub forget_scripts : Scripts → Scripts
forget_scripts s = record s { by_file = forget_files s.by_file }

abbrev forget_lookup : Option (Option StateMap) → Option (Option StateMap)
forget_lookup none = none
forget_lookup (some m) = some (forget_file m)

lookup-forget_files :
    (fname : Text) (fs : List (Text × Option StateMap))
    → lookup fname (forget_files fs) ≡ forget_lookup (lookup fname fs)
unfolding lookup
lookup-forget_files fname [] = refl
lookup-forget_files fname ((k, m) ∷ fs) = elim (Bool-cases (text_eq k fname)) [
  | inl hit ↦ rw hit refl
  | inr miss ↦ rw miss (lookup-forget_files fname fs)
]

forget_files-insert :
    (fname : Text) (m : StateMap) (fs : List (Text × Option StateMap))
    → forget_files (insert fname (some m) fs) ≡ insert fname (some (forget_map m)) (forget_files fs)
unfolding insert
forget_files-insert fname m [] = refl
forget_files-insert fname m ((k, old) ∷ fs) = elim (Bool-cases (text_eq k fname)) [
  | inl hit ↦ rw hit refl
  | inr miss ↦ rw miss (ap (λ l. (k, forget_file old) ∷ l) (forget_files-insert fname m fs))
]

abbrev pub forget_scripts_result : Result Scripts → Result Scripts
forget_scripts_result (ok s) = ok (forget_scripts s)
forget_scripts_result (throw e) = throw e
forget_scripts_result exit = exit
forget_scripts_result undefined = undefined
forget_scripts_result out_of_fuel = out_of_fuel

module _ {S : Type 0} (x : Externals) (sys : System S) (dbs : DbMap) (protocol : Option Text)
    (fuel : ℕ) where
  -- What a request leaves, but for what runs leave in the states.
  abbrev pub isolated : Result Scripts × World S → Result Scripts × World S
  isolated (r, w) = (forget_scripts_result r, w)

  -- A call that is only there for the world.
  last_is :
      (a : Action (World S) (Unit {0})) (s t : Scripts) (w : World S)
      → forget_scripts s ≡ t
      → isolated ((a >>= λ _. pure s) w) ≡ (a >>= λ _. pure t) w
  unfolding ◌>>=◌
  last_is a s t w e = on (a w).0 (a w).1
    where
      on :
          (r : Result (Unit {0})) (v : World S)
          → isolated (continue r (λ _. pure s) v) ≡ continue r (λ _. pure t) v
      on (ok u) v = ap (λ s. (ok s, v)) e
      on (throw t) v = refl
      on exit v = refl
      on undefined v = refl
      on out_of_fuel v = refl

  -- `scriptName` is read, and the states of the file are stored among files whose states have been
  -- reset.
  abbrev stored : Scripts → Text → Result StateMap × World S → Result Scripts × World S
  stored t fname (ok m, w) =
      (read_script_name (script_selector x) >>= λ _.
      pure (record t { by_file = insert fname (some m) t.by_file }))
        w
  stored t fname (throw e, w) = (throw e, w)
  stored t fname (exit, w) = (exit, w)
  stored t fname (undefined, w) = (undefined, w)
  stored t fname (out_of_fuel, w) = (out_of_fuel, w)

  after_script :
      (s : Scripts) (fname : Text) (r : Result StateMap) (w : World S)
      → isolated (
          continue r
            (λ m. read_script_name (script_selector x) >>= λ _.
              pure (after_run x sys dbs protocol s fname m))
            w)
        ≡ stored (forget_scripts s) fname (forgotten x sys dbs protocol (r, w))
  unfolding ◌>>=◌
  after_script s fname (ok m) w =
      last_is (read_script_name (script_selector x)) _ _ w
        (ap (λ fs. record s { by_file = fs }) (forget_files-insert fname m s.by_file))
  after_script s fname (throw e) w = refl
  after_script s fname exit w = refl
  after_script s fname undefined w = refl
  after_script s fname out_of_fuel w = refl

  run_file-forget :
      (s s' : Scripts) (fname : Text) (entry : ℤ) (o o' : Option (Option StateMap)) (w : World S)
      → forget_scripts s ≡ forget_scripts s'
      → forget_lookup o ≡ forget_lookup o'
      → isolated (run_file x sys dbs protocol fuel s fname entry o w)
        ≡ isolated (run_file x sys dbs protocol fuel s' fname entry o' w)
  unfolding ◌>>=◌ put_out hold
  run_file-forget s s' fname entry none none w e f = refl
  run_file-forget s s' fname entry none (some none) w e f = absurd (ground arith)
  run_file-forget s s' fname entry none (some (some m')) w e f = absurd (ground arith)
  run_file-forget s s' fname entry (some none) none w e f = absurd (ground arith)
  run_file-forget s s' fname entry (some (some m)) none w e f = absurd (ground arith)
  run_file-forget s s' fname entry (some none) (some none) w e f = refl
  run_file-forget s s' fname entry (some none) (some (some m')) w e f = absurd (ground arith)
  run_file-forget s s' fname entry (some (some m)) (some none) w e f = absurd (ground arith)
  run_file-forget s s' fname entry (some (some m)) (some (some m')) w e f =
      let w1 = record w {
        table = hold_value (script_selector x) (lookup (script_selector x) w.table) w.table;
        out = w.out ++ codes "Content-type: text/html\r\n\r\n";
      } in
      let run = run_script x sys dbs protocol fuel m entry w1 in
      let run' = run_script x sys dbs protocol fuel m' entry w1 in
      let same : forget_map m ≡ forget_map m' = ground arith in
      after_script s fname run.0 run.1
      ∙ (ap (λ t. stored t fname (forgotten x sys dbs protocol run)) e
          ∙ (ap (stored (forget_scripts s') fname)
                (run_script-forget x sys dbs protocol fuel m m' entry w1 same)
              ∙ sym (after_script s' fname run'.0 run'.1)))

  -- The answer 404.
  refused-forget :
      (s s' : Scripts) (w : World S)
      → forget_scripts s ≡ forget_scripts s'
      → isolated ((put_status x sys dbs protocol 404 >>= λ _. pure s) w)
        ≡ isolated ((put_status x sys dbs protocol 404 >>= λ _. pure s') w)
  refused-forget s s' w e =
      last_is (put_status x sys dbs protocol 404) s (forget_scripts s') w e
      ∙ sym (last_is (put_status x sys dbs protocol 404) s' (forget_scripts s') w refl)

  on_script-forget :
      (s s' : Scripts) (name : Text) (entry : ℤ) (o : Option Text) (w : World S)
      → forget_scripts s ≡ forget_scripts s'
      → isolated (on_script x sys dbs protocol fuel s name entry o w)
        ≡ isolated (on_script x sys dbs protocol fuel s' name entry o w)
  on_script-forget s s' name entry none w e = refused-forget s s' w e
  on_script-forget s s' name entry (some fname) w e =
      run_file-forget s s' fname entry (lookup fname s.by_file) (lookup fname s'.by_file) w e (
        sym (lookup-forget_files fname s.by_file)
        ∙ (ap (λ (t : Scripts). lookup fname t.by_file) e ∙ lookup-forget_files fname s'.by_file))

  on_entry-forget :
      (s s' : Scripts) (name : Text) (o : Option ℤ) (w : World S)
      → forget_scripts s ≡ forget_scripts s'
      → isolated (on_entry x sys dbs protocol fuel s name o w)
        ≡ isolated (on_entry x sys dbs protocol fuel s' name o w)
  on_entry-forget s s' name none w e = refused-forget s s' w e
  on_entry-forget s s' name (some entry) w e =
      on_script-forget s s' name entry (lookup name s.by_name) w e
      ∙ ap
          (λ (t : Scripts).
            isolated (on_script x sys dbs protocol fuel s' name entry (lookup name t.by_name) w))
          e

  dispatch-forget :
      (s s' : Scripts) (o : Option Text) (w : World S)
      → forget_scripts s ≡ forget_scripts s'
      → isolated (dispatch x sys dbs protocol fuel s o w)
        ≡ isolated (dispatch x sys dbs protocol fuel s' o w)
  unfolding dispatch
  dispatch-forget s s' none w e = refused-forget s s' w e
  dispatch-forget s s' (some name) w e =
      on_entry-forget s s' name (lookup name s.entries) w e
      ∙ ap
          (λ (t : Scripts).
            isolated (on_entry x sys dbs protocol fuel s' name (lookup name t.entries) w))
          e

  same_after :
      {A : Type 0} (m : Action (World S) A) (f f' : A → Action (World S) Scripts) (w : World S)
      → ((a : A) (t : World S) → isolated (f a t) ≡ isolated (f' a t))
      → isolated ((m >>= f) w) ≡ isolated ((m >>= f') w)
  unfolding ◌>>=◌
  same_after {A} m f f' w h = go (m w).0 (m w).1
    where
      go : (r : Result A) (t : World S) → isolated (continue r f t) ≡ isolated (continue r f' t)
      go (ok a) t = h a t
      go (throw e) t = refl
      go exit t = refl
      go undefined t = refl
      go out_of_fuel t = refl

  -- The reset of the table, and then scripts whose states have been reset.
  abbrev finished : Result Scripts × World S → Result Scripts × World S
  finished (ok t, w) = (reset_table >>= λ _. pure t) w
  finished (throw e, w) = (throw e, w)
  finished (exit, w) = (exit, w)
  finished (undefined, w) = (undefined, w)
  finished (out_of_fuel, w) = (out_of_fuel, w)

  finish-forget :
      (m : Action (World S) Scripts) (w : World S)
      → isolated (finish x sys dbs protocol m w) ≡ finished (isolated (m w))
  unfolding ◌>>=◌
  finish-forget m w = go (m w).0 (m w).1
    where
      kept :
          (s : Scripts) (r : Result (Unit {0})) (t : World S)
          → isolated (continue r (λ _. pure s) t) ≡ continue r (λ _. pure (forget_scripts s)) t
      kept s (ok u) t = refl
      kept s (throw e) t = refl
      kept s exit t = refl
      kept s undefined t = refl
      kept s out_of_fuel t = refl

      go :
          (r : Result Scripts) (t : World S)
          → isolated (continue r (λ scripts. reset_table >>= λ _. pure scripts) t)
            ≡ finished (isolated (r, t))
      go (ok s) t = kept s (reset_table t).0 (reset_table t).1
      go (throw e) t = refl
      go exit t = refl
      go undefined t = refl
      go out_of_fuel t = refl

  -- A request over two loads of the same scripts that differ in what earlier runs have left in their
  -- states: the groups of a match, the row of a query, the tree of a document. It ends in the same way,
  -- puts out the same, and leaves the same table and outside; the scripts agree again.
  pub handle_request-forget :
      (ii : ℕ) (s s' : Scripts) (r : Request) (w : World S)
      → forget_scripts s ≡ forget_scripts s'
      → isolated (handle_request x sys dbs protocol fuel ii s r w)
        ≡ isolated (handle_request x sys dbs protocol fuel ii s' r w)
  unfolding handle_request
  handle_request-forget ii s s' r w e =
      same_after (lift (query_text x r)) _ _ w (λ p t. on p.0 p.1 t)
    where
      on :
          (len : ℤ) (query : Text) (t : World S)
          → isolated (on_query x sys dbs protocol fuel ii s r (len, query) t)
            ≡ isolated (on_query x sys dbs protocol fuel ii s' r (len, query) t)
      on len query t = elim (Bool-cases (int_eq len (pos 0))) [
        | inl none_given ↦ rw none_given (refused-forget s s' t e)
        | inr given ↦ rw given (
            finish-forget _ t
            ∙ (ap finished (
                  same_after (import_variables x sys dbs protocol ii query r.envp) _ _ t (λ _ t'.
                    same_after (get_local_ptr (script_selector x)) _ _ t'
                      (λ o t''. dispatch-forget s s' o t'' e)))
                ∙ sym (finish-forget _ t)))
      ]
