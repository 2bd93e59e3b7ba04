-- ===== src/Server/Request/Safety.antt =====
-- A child whose scripts are safe serves any request, and is ready for the next one.
use smarty_appserver.Prelude.{
  ℕ, ◌<◌, ℤ, pos, ◌≡◌, refl, inl, inr, Option, none, some, List, [], ◌∷◌, Text, All, length, lookup,
  lookup-insert, text_eq, int_eq, lt→ltb, arith, c_str, Bool-cases,
}
use mathlib.Core.Path.{subst}
use smarty_appserver.Action.{pure, ◌>>=◌}
use smarty_appserver.Action.Ends.{Ends, Ends-ok, Ends-pure, Ends-bind, Ends-of, Ends-mono}
use smarty_appserver.Action.Ensures.{
  Ensures, Returns, Any, Ensures-pure, Ensures-lift, Ensures-bind,
}
use smarty_appserver.Database.{DbMap}
use smarty_appserver.Parser.{Externals}
use smarty_appserver.Parser.Script.{StateMap}
use smarty_appserver.World.{World, System, Value, owned, held, dangling, put_out}
use smarty_appserver.Assigner.{strdup}
use smarty_appserver.Assigner.Held.{IsIntact}
use smarty_appserver.Assigner.Ownership.{
  IsSound, lookup-IsOwned, assign_local-Ensures, reset_table-Ensures,
}
use smarty_appserver.Assigner.Evaluate.Laws.{IsLawful}
use smarty_appserver.Server.{
  parambuf_length, put_status, run_script, script_selector, read_script_name,
}
use smarty_appserver.Server.Held.{HasValue, hold-Ends, read_script_name-Intact}
use smarty_appserver.Server.Termination.{IsSafeScript, run_script-Ensures}
use smarty_appserver.Server.Request.{
  Request, Scripts, query_text, split_pair, assign_pair, assign_params, assign_env_var, assign_env,
  get_local_ptr, after_run, run_file, on_script, on_entry, dispatch, import_variables, on_query,
  handle_request,
}

-- Every name of a script leads to states that are safe, and its entry to a run that the fuel covers.
pub record IsReady (sel : Text) (dbs : DbMap) (rank : ℤ → ℕ) (fuel : ℕ) (scripts : Scripts)
    : Type 0 where
  pub loaded :
      (name fname : Text)
      → lookup name scripts.by_name ≡ some fname
      → (script : StateMap) × (lookup fname scripts.by_file ≡ some (some script))
  pub safe :
      (fname : Text) (script : StateMap)
      → lookup fname scripts.by_file ≡ some (some script)
      → IsSafeScript sel dbs rank script
  pub covered :
      (name : Text) (entry : ℤ) → lookup name scripts.entries ≡ some entry → rank entry < fuel

-- The environment fits the buffer.
abbrev pub Fits : List Text → Type 0
Fits es = All (λ e. length (c_str e) < parambuf_length) es

module _ {S : Type 0} where
  assign_pair-Ensures : (o : Option (Text × Text)) → Ensures (IsSound {S = S}) Any (assign_pair o)
  assign_pair-Ensures none = Ensures-pure _ tt
  assign_pair-Ensures (some (name, val)) = assign_local-Ensures _ (owned (c_str val)) tt

  assign_params-Ensures : (ps : List Text) → Ensures (IsSound {S = S}) Any (assign_params ps)
  unfolding assign_params
  assign_params-Ensures [] = Ensures-pure _ tt
  assign_params-Ensures (p ∷ ps) =
      Ensures-bind _ _ (assign_pair-Ensures (split_pair p)) (λ _ _. assign_params-Ensures ps)

  assign_env-Ensures : (es : List Text) → Fits es → Ensures (IsSound {S = S}) Any (assign_env es)
  unfolding assign_env assign_env_var
  assign_env-Ensures [] h = Ensures-pure _ tt
  assign_env-Ensures (e ∷ es) h =
      Ensures-bind {Q = Any} _ _
        (rw (lt→ltb (length (c_str e)) parambuf_length h.0)
          (assign_pair-Ensures (split_pair (c_str e))))
        (λ _ _. assign_env-Ensures es h.1)

  -- The variable of a name that getLocalPtr has found.
  abbrev Names : Text → Option Text → World S → Type 0
  Names var none w = Unit
  Names var (some name) w = HasValue var w.table

  get_local_ptr-Ends :
      (var : Text) (w : World S)
      → IsSound w
      → Ends (λ o w'. IsSound w' × Names var o w') IsSound (get_local_ptr var w)
  unfolding get_local_ptr strdup
  get_local_ptr-Ends var w h = on (lookup var w.table) refl
    where
      on :
          (o : Option Value)
          → lookup var w.table ≡ o
          → Ends (λ o w'. IsSound w' × Names var o w') IsSound (strdup o, w)
      on none e = Ends-ok none w (h, tt)
      on (some (owned s)) e = Ends-ok (some s) w (h, (owned s, e))
      on (some (held s)) e = Ends-ok (some s) w (h, (held s, e))
      on (some dangling) e = absurd (lookup-IsOwned var w.table dangling h e)

module _ {S : Type 0} (x : Externals) (lawful : IsLawful x) (sys : System S) (dbs : DbMap)
    (protocol : Text) (rank : ℤ → ℕ) (fuel : ℕ) where
  after_run-IsReady :
      (scripts : Scripts) (fname : Text) (script' : StateMap)
      → IsReady (script_selector x) dbs rank fuel scripts
      → IsSafeScript (script_selector x) dbs rank script'
      → IsReady
          (script_selector x)
          dbs
          rank
          fuel
          (after_run x sys dbs (some protocol) scripts fname script')
  after_run-IsReady scripts fname script' r p = record {
    loaded = λ name f e. rw lookup-insert (elim (Bool-cases (text_eq fname f)) [
      | inl hit ↦ (script', rw hit)
      | inr miss ↦ rw miss (r.loaded name f e)
    ]);
    safe = λ f script e. elim (Bool-cases (text_eq fname f)) [
      | inl hit ↦
          let same : script' ≡ script =
            ground (arith, lookup-insert fname f (some script') scripts.by_file) in
          subst (IsSafeScript (script_selector x) dbs rank) same p
      | inr miss ↦
          r.safe f script (ground (arith, lookup-insert fname f (some script') scripts.by_file))
    ];
    covered = r.covered;
  }

  -- The outcome of a request.
  abbrev pub Ready : Scripts → World S → Type 0
  Ready s w = IsReady (script_selector x) dbs rank fuel s × IsSound w

  -- A status line ends a branch.
  answered :
      (scripts : Scripts) (c : ℕ) (w : World S)
      → IsReady (script_selector x) dbs rank fuel scripts
      → IsSound w
      → Ends Ready IsSound ((put_status x sys dbs (some protocol) c >>= λ _. pure scripts) w)
  unfolding ◌>>=◌ put_out
  answered scripts c w r s = Ends-ok scripts _ (r, s)

  run_file-Ends :
      (scripts : Scripts) (fname : Text) (entry : ℤ) (o : Option (Option StateMap)) (w : World S)
      → IsReady (script_selector x) dbs rank fuel scripts
      → rank entry < fuel
      → (script : StateMap) × (o ≡ some (some script))
        × IsSafeScript (script_selector x) dbs rank script
      → IsSound w
      → HasValue (script_selector x) w.table
      → Ends Ready IsSound (run_file x sys dbs (some protocol) fuel scripts fname entry o w)
  unfolding put_out
  run_file-Ends scripts fname entry none w r f q s v = absurd (ground (arith, q.1))
  run_file-Ends scripts fname entry (some none) w r f q s v = absurd (ground (arith, q.1))
  run_file-Ends scripts fname entry (some (some script)) w r f q s v =
      let same : q.0 ≡ script = ground (arith, q.1) in
      let safe = subst (IsSafeScript (script_selector x) dbs rank) same q.2 in
      Ends-bind {Q = λ _ w'. IsSound w' × HasValue (script_selector x) w'.table} _ _ w
        (Ends-ok tt _ (s, v))
        (λ _ w1 (s1, v1). Ends-bind _ _ w1 (hold-Ends (script_selector x) w1 s1 v1) (λ _ w2 h.
          let rest = run safe in
          Ends-mono {E = IsIntact (script_selector x)} _ (λ a w3 (r3, h3). (r3, h3.sound))
            (λ w3 h3. h3.sound) (Ends-of _ (rest.state w2 h) (rest.result w2 h))))
    where
      run :
          IsSafeScript (script_selector x) dbs rank script
          → Ensures
              (IsIntact {S = S} (script_selector x))
              (IsReady (script_selector x) dbs rank fuel)
              (run_script x sys dbs (some protocol) fuel script entry >>= λ script'.
                read_script_name (script_selector x) >>= λ _.
                pure (after_run x sys dbs (some protocol) scripts fname script'))
      run safe =
          Ensures-bind _ _
            (run_script-Ensures dbs rank x lawful sys protocol fuel script entry safe f)
            (λ script' p.
              Ensures-bind _ _ (read_script_name-Intact (script_selector x))
                (λ _ _. Ensures-pure _ (after_run-IsReady scripts fname script' r p)))

  dispatch-Ends :
      (scripts : Scripts) (o : Option Text) (w : World S)
      → IsReady (script_selector x) dbs rank fuel scripts
      → IsSound w
      → Names (script_selector x) o w
      → Ends Ready IsSound (dispatch x sys dbs (some protocol) fuel scripts o w)
  unfolding dispatch
  dispatch-Ends scripts none w r s v = answered scripts 404 w r s
  dispatch-Ends scripts (some name) w r s v = entered (lookup name scripts.entries) refl
    where
      found :
          (entry : ℤ) (o : Option Text)
          → lookup name scripts.by_name ≡ o
          → rank entry < fuel
          → Ends Ready IsSound (on_script x sys dbs (some protocol) fuel scripts name entry o w)
      found entry none e f = answered scripts 404 w r s
      found entry (some fname) e f =
          let (script, there) = r.loaded name fname e in
          run_file-Ends scripts fname entry (lookup fname scripts.by_file) w r f
            (script, there, r.safe fname script there) s v

      entered :
          (o : Option ℤ)
          → lookup name scripts.entries ≡ o
          → Ends Ready IsSound (on_entry x sys dbs (some protocol) fuel scripts name o w)
      entered none e = answered scripts 404 w r s
      entered (some entry) e =
          found entry (lookup name scripts.by_name) refl (r.covered name entry e)

  import_variables-Ensures :
      (ii : ℕ) (query : Text) (envp : List Text)
      → Fits envp
      → Ensures (IsSound {S = S}) Any (import_variables x sys dbs (some protocol) ii query envp)
  unfolding import_variables
  import_variables-Ensures ii query envp h =
      Ensures-bind _ _ (assign_params-Ensures _) (λ _ _. assign_env-Ensures envp h)

  pub handle_request_safe :
      (ii : ℕ) (scripts : Scripts) (r : Request) (w : World S)
      → IsReady (script_selector x) dbs rank fuel scripts
      → Fits r.envp
      → Returns Any (query_text x r)
      → IsSound w
      → Ends Ready IsSound (handle_request x sys dbs (some protocol) fuel ii scripts r w)
  unfolding handle_request
  handle_request_safe ii scripts r w ready h q s =
      let asked = Ensures-lift {P = IsSound {S = S}} _ q in
      Ends-bind _ _ w (Ends-of _ (asked.state w s) (asked.result w s)) (λ p w1 (_, s1). on p w1 s1)
    where
      imported :
          (query : Text) (w1 : World S)
          → IsSound w1
          → Ends Ready IsSound (
              (import_variables x sys dbs (some protocol) ii query r.envp >>= λ _.
              get_local_ptr (script_selector x) >>= dispatch x sys dbs (some protocol) fuel scripts)
                w1)
      imported query w1 s1 =
          let vars = import_variables-Ensures ii query r.envp h in
          Ends-bind _ _ w1 (Ends-of _ (vars.state w1 s1) (vars.result w1 s1)) (λ _ w2 (_, s2).
            Ends-bind _ _ w2 (get_local_ptr-Ends (script_selector x) w2 s2)
              (λ name w3 (s3, v). dispatch-Ends scripts name w3 ready s3 v))

      on :
          (p : ℤ × Text) (w1 : World S)
          → IsSound w1
          → Ends Ready IsSound (on_query x sys dbs (some protocol) fuel ii scripts r p w1)
      on (len, query) w1 s1 = elim (Bool-cases (int_eq len (pos 0))) [
        | inl z ↦ rw (z, on_query) (answered scripts 404 w1 ready s1)
        | inr n ↦
            rw (n, on_query)
              (Ends-bind _ _ w1 (imported query w1 s1) (λ scripts' w2 (ready', s2).
                let reset = reset_table-Ensures {S = S} in
                Ends-bind _ _ w2 (Ends-of _ (reset.state w2 s2) (reset.result w2 s2))
                  (λ _ w3 (_, s3). Ends-pure scripts' w3 (ready', s3))))
      ]
