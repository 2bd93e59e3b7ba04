-- ===== src/Server/Termination.antt =====
-- src/preforked.cpp, the loop over the states: scripts whose numbers fall along a rank end, and a
-- script of safe states stays one.
use smarty_appserver.Prelude.{
  ℕ, zero, suc, ◌<◌, ℤ, ◌≡◌, refl, ◌⊎◌, inl, inr, Bool, true, false, Option, none, some, List, [],
  ◌∷◌, Text, All, arith, int_eq, int_eq_iff, Bool-cases,
}
use mathlib.Core.Path.{sym, subst}
use smarty_appserver.Action.{Action, pure, ◌>>=◌}
use smarty_appserver.Action.Ensures.{Ensures, Ensures-pure, Ensures-bind}
use smarty_appserver.Database.{DbMap}
use smarty_appserver.Parser.{Externals}
use smarty_appserver.Parser.Script.{StateMap, find_state}
use smarty_appserver.State.{State, end_state}
use smarty_appserver.State.Execute.{execute}
use smarty_appserver.State.Execute.Exits.{OneOf, exits, IsSafeBody, Leads}
use smarty_appserver.State.Execute.Safety.{execute-Ensures}
use smarty_appserver.World.{World, System}
use smarty_appserver.Assigner.Held.{IsIntact, put_out-Intact}
use smarty_appserver.Server.Held.{read_script_name-Intact}
use smarty_appserver.Assigner.Evaluate.Laws.{IsLawful}
use smarty_appserver.Server.{
  update_state, put_status, after_round, run_state, run_script, script_selector, read_script_name,
}

-- Every exit of the state `k` but ENDSTATE has a smaller rank.
abbrev pub Falls : (ℤ → ℕ) → ℤ → List ℤ → Type 0
Falls rank k ns = All (λ n. (n ≡ end_state) ⊎ (rank n < rank k)) ns

abbrev pub IsSafeState : Text → DbMap → (ℤ → ℕ) → ℤ × State → Type 0
IsSafeState sel dbs rank (k, s) = IsSafeBody sel dbs s.body × Falls rank k (exits s)

abbrev pub IsSafeScript : Text → DbMap → (ℤ → ℕ) → StateMap → Type 0
IsSafeScript sel dbs rank script = All (IsSafeState sel dbs rank) script

module _ (sel : Text) (dbs : DbMap) (rank : ℤ → ℕ) where
  find_state-IsSafe :
      (n : ℤ) (script : StateMap) (st : State)
      → IsSafeScript sel dbs rank script
      → find_state n script ≡ some st
      → IsSafeState sel dbs rank (n, st)
  unfolding find_state
  find_state-IsSafe n [] st h e = absurd (ground arith)
  find_state-IsSafe n ((k, s) ∷ m) st h e = elim (Bool-cases (int_eq k n)) [
    | inl hit ↦
        let same : s ≡ st = ground arith in
        subst (λ j. IsSafeState sel dbs rank (j, st)) ((int_eq_iff k n).0 hit)
          (subst (λ t. IsSafeState sel dbs rank (k, t)) same h.0)
    | inr miss ↦ find_state-IsSafe n m st h.1 (ground arith)
  ]

  update_state-IsSafe :
      (n : ℤ) (st : State) (script : StateMap)
      → IsSafeScript sel dbs rank script
      → IsSafeState sel dbs rank (n, st)
      → IsSafeScript sel dbs rank (update_state n st script)
  unfolding update_state
  update_state-IsSafe n st [] h p = tt
  update_state-IsSafe n st ((k, s) ∷ m) h p = elim (Bool-cases (int_eq k n)) [
    | inl hit ↦
        rw hit (subst (λ j. IsSafeState sel dbs rank (j, st)) (sym ((int_eq_iff k n).0 hit)) p, h.1)
    | inr miss ↦ rw miss (h.0, update_state-IsSafe n st m h.1 p)
  ]

  OneOf-Falls :
      (k n : ℤ) (ns : List ℤ) → Falls rank k ns → OneOf n ns → (n ≡ end_state) ⊎ (rank n < rank k)
  OneOf-Falls k n [] f o = absurd o
  OneOf-Falls k n (m ∷ ns) f (inl e) = rw e f.0
  OneOf-Falls k n (m ∷ ns) f (inr o) = OneOf-Falls k n ns f.1 o

  -- The outcome of a round: the script is safe, and the next state has a smaller rank.
  abbrev Advances : ℤ → StateMap × Option ℤ → Type 0
  Advances n (script, none) = IsSafeScript sel dbs rank script
  Advances n (script, some next) =
      IsSafeScript sel dbs rank script × ((next ≡ end_state) ⊎ (rank next < rank n))

module _ (dbs : DbMap) (rank : ℤ → ℕ) {S : Type 0} (x : Externals) (lawful : IsLawful x)
    (sys : System S) (protocol : Text) where
  run_state-Ensures :
      (script : StateMap) (n : ℤ)
      → IsSafeScript (script_selector x) dbs rank script
      → Ensures
          (IsIntact {S = S} (script_selector x))
          (Advances (script_selector x) dbs rank n)
          (run_state x sys dbs (some protocol) script n)
  unfolding run_state
  run_state-Ensures script n h =
      on (find_state n script) (λ st. find_state-IsSafe (script_selector x) dbs rank n script st h)
    where
      advance :
          (st : State)
          → IsSafeState (script_selector x) dbs rank (n, st)
          → (q : State × ℤ) → Leads (script_selector x) dbs st q
          → Advances (script_selector x) dbs rank n (update_state n q.0 script, some q.1)
      advance st p (st', next) (o, safe, same) = (
        update_state-IsSafe (script_selector x) dbs rank n st' script h (safe, rw same (p.1)),
        OneOf-Falls (script_selector x) dbs rank n next (exits st) p.1 o,
      )

      on :
          (o : Option State)
          → ((st : State) → o ≡ some st → IsSafeState (script_selector x) dbs rank (n, st))
          → Ensures
              (IsIntact {S = S} (script_selector x))
              (Advances (script_selector x) dbs rank n)
              (elim o [
                | none ↦
                    (read_script_name (script_selector x) >>= λ _.
                    put_status x sys dbs (some protocol) 500)
                    >>= λ _. pure (script, none)
                | some st ↦ execute x sys dbs st >>= λ p. pure (update_state n p.0 script, some p.1)
              ])
      on none f =
          Ensures-bind _ _
            (Ensures-bind _ _ (read_script_name-Intact (script_selector x))
              (λ _ _. put_out-Intact _))
            (λ _ _. Ensures-pure _ h)
      on (some st) f =
          Ensures-bind _ _ (execute-Ensures x lawful sys st dbs (f st refl).0)
            (λ q l. Ensures-pure _ (advance st (f st refl) q l))

  -- After a round the loop is over, or what is left of it is safe.
  after_round-Ensures :
      (n : ℤ) (again : StateMap → ℤ → Action (World S) StateMap)
      → ((script : StateMap) (next : ℤ)
          → IsSafeScript (script_selector x) dbs rank script
          → rank next < rank n
          → Ensures
              (IsIntact {S = S} (script_selector x))
              (IsSafeScript (script_selector x) dbs rank)
              (again script next))
      → (p : StateMap × Option ℤ) → Advances (script_selector x) dbs rank n p
      → Ensures
          (IsIntact {S = S} (script_selector x))
          (IsSafeScript (script_selector x) dbs rank)
          (after_round x sys dbs (some protocol) again p)
  after_round-Ensures n again k (script, none) a = Ensures-pure _ a
  after_round-Ensures n again k (script, some next) (h, a) = on (int_eq next end_state) refl
    where
      on :
          (b : Bool)
          → int_eq next end_state ≡ b
          → Ensures
              (IsIntact {S = S} (script_selector x))
              (IsSafeScript (script_selector x) dbs rank)
              (elim b [ true ↦ pure script | false ↦ again script next ])
      on true e = Ensures-pure _ h
      on false e = k script next h (ground (arith, a, int_eq_iff next end_state))

  pub run_script-Ensures :
      (fuel : ℕ) (script : StateMap) (n : ℤ)
      → IsSafeScript (script_selector x) dbs rank script
      → rank n < fuel
      → Ensures
          (IsIntact {S = S} (script_selector x))
          (IsSafeScript (script_selector x) dbs rank)
          (run_script x sys dbs (some protocol) fuel script n)
  unfolding run_script
  run_script-Ensures zero script n h f = absurd (omega arith)
  run_script-Ensures (suc fuel) script n h f = Ensures-bind _ _ (run_state-Ensures script n h) (
      after_round-Ensures n _
        (λ script' next h' l. run_script-Ensures fuel script' next h' (omega arith)))
