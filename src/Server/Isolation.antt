-- ===== src/Server/Isolation.antt =====
-- A request does not see what the runs of earlier requests have left in the states of the scripts.
use smarty_appserver.Prelude.{
  ℕ, zero, suc, ℤ, ◌≡◌, ◌∙◌, refl, sym, ap, Bool-cases, inl, inr, Option, none, some, [], ◌∷◌, Text,
  int_eq, arith,
}
use smarty_appserver.Errors.{Result, ok, throw, exit, undefined, out_of_fuel}
use smarty_appserver.Action.{Action, pure, continue, ◌>>=◌, bind_assoc}
use smarty_appserver.Database.{DbMap}
use smarty_appserver.Parser.{Externals}
use smarty_appserver.Parser.Script.{StateMap, find_state}
use smarty_appserver.State.{State, Body, regex, query, structure, end_state}
use smarty_appserver.State.Execute.{execute}
use smarty_appserver.State.Execute.Transient.{forget, forget_body, execute-forget}
use smarty_appserver.World.{World, System}
use smarty_appserver.Server.{
  script_selector, read_script_name, put_status, update_state, run_state, after_round, run_script,
}

abbrev pub forget_map : StateMap → StateMap
forget_map [] = []
forget_map ((n, st) ∷ m) = (n, forget st) ∷ forget_map m

forget-forget : (st : State) → forget (forget st) ≡ forget st
forget-forget st = ap (λ b. record st { body = b }) (twice st.body)
  where
    twice : (b : Body) → forget_body (forget_body b) ≡ forget_body b
    twice (regex b) = refl
    twice (query b) = refl
    twice (structure b) = refl
    twice _ = refl

forget_map-forget_map : (m : StateMap) → forget_map (forget_map m) ≡ forget_map m
forget_map-forget_map [] = refl
forget_map-forget_map ((n, st) ∷ m) =
    ap (λ s. (n, s) ∷ forget_map (forget_map m)) (forget-forget st)
    ∙ ap (λ l. (n, forget st) ∷ l) (forget_map-forget_map m)

some-injective : {a b : State} → some a ≡ some b → a ≡ b
some-injective e = cc

abbrev forget_found : Option State → Option State
forget_found none = none
forget_found (some st) = some (forget st)

find_state-forget_map :
    (n : ℤ) (m : StateMap) → find_state n (forget_map m) ≡ forget_found (find_state n m)
unfolding find_state
find_state-forget_map n [] = refl
find_state-forget_map n ((k, st) ∷ m) = elim (Bool-cases (int_eq k n)) [
  | inl hit ↦ rw hit refl
  | inr miss ↦ rw miss (find_state-forget_map n m)
]

forget_map-update_state :
    (n : ℤ) (st : State) (m : StateMap)
    → forget_map (update_state n st m) ≡ update_state n (forget st) (forget_map m)
unfolding update_state
forget_map-update_state n st [] = refl
forget_map-update_state n st ((k, old) ∷ m) = elim (Bool-cases (int_eq k n)) [
  | inl hit ↦ rw hit refl
  | inr miss ↦ rw miss (ap (λ l. (k, forget old) ∷ l) (forget_map-update_state n st m))
]

abbrev pub forget_result : Result StateMap → Result StateMap
forget_result (ok m) = ok (forget_map m)
forget_result (throw e) = throw e
forget_result exit = exit
forget_result undefined = undefined
forget_result out_of_fuel = out_of_fuel

module _ {S : Type 0} (x : Externals) (sys : System S) (dbs : DbMap) (protocol : Option Text) where
  -- The scripts and all else agree, but for what runs leave in the states.
  abbrev pub forgotten : Result StateMap × World S → Result StateMap × World S
  forgotten (r, w) = (forget_result r, w)

  -- Maps that agree but for what runs leave: their scripts do the same.
  abbrev pub Agree : ℕ → Type 0
  Agree fuel =
      (m m' : StateMap) (n : ℤ) (w : World S)
      → forget_map m ≡ forget_map m'
      → forgotten (run_script x sys dbs protocol fuel m n w)
        ≡ forgotten (run_script x sys dbs protocol fuel m' n w)

  after_round-forget :
      (fuel : ℕ) (again : Agree fuel) (m m' : StateMap) (o : Option ℤ) (w : World S)
      → forget_map m ≡ forget_map m'
      → forgotten (after_round x sys dbs protocol (run_script x sys dbs protocol fuel) (m, o) w)
        ≡ forgotten (after_round x sys dbs protocol (run_script x sys dbs protocol fuel) (m', o) w)
  unfolding ◌>>=◌
  after_round-forget fuel again m m' none w e = ap (λ l. (ok l, w)) e
  after_round-forget fuel again m m' (some next) w e = elim (Bool-cases (int_eq next end_state)) [
    | inl stop ↦ rw (stop, after_round) (ap (λ l. (ok l, w)) e)
    | inr more ↦ rw (more, after_round) (again m m' next w e)
  ]

  -- The state that a round runs has been replaced by what its run has made of it.
  after_execute-forget :
      (fuel : ℕ) (again : Agree fuel) (m m' : StateMap) (n : ℤ) (r : Result (State × ℤ))
      (w : World S)
      → forget_map m ≡ forget_map m'
      → forgotten (
          continue r
            (λ p.
              pure (update_state n p.0 m, some p.1)
              >>= after_round x sys dbs protocol (run_script x sys dbs protocol fuel))
            w)
        ≡ forgotten (
            continue r
              (λ p.
                pure (update_state n p.0 m', some p.1)
                >>= after_round x sys dbs protocol (run_script x sys dbs protocol fuel))
              w)
  unfolding ◌>>=◌
  after_execute-forget fuel again m m' n (ok (st, next)) w e =
      after_round-forget fuel again (update_state n st m) (update_state n st m') (some next) w (
        forget_map-update_state n st m
        ∙ (ap (update_state n (forget st)) e ∙ sym (forget_map-update_state n st m')))
  after_execute-forget fuel again m m' n (throw t) w e = refl
  after_execute-forget fuel again m m' n exit w e = refl
  after_execute-forget fuel again m m' n undefined w e = refl
  after_execute-forget fuel again m m' n out_of_fuel w e = refl

  same_execute :
      (st st' : State) → forget st ≡ forget st' → execute x sys dbs st ≡ execute x sys dbs st'
  same_execute st st' e =
      sym (execute-forget x sys dbs st) ∙ (ap (execute x sys dbs) e ∙ execute-forget x sys dbs st')

  found_same :
      (m m' : StateMap) (n : ℤ)
      → forget_map m ≡ forget_map m'
      → forget_found (find_state n m) ≡ forget_found (find_state n m')
  found_same m m' n e =
      sym (find_state-forget_map n m) ∙ (ap (find_state n) e ∙ find_state-forget_map n m')

  -- The warning and the status line of a state that is not there.
  abbrev warn : Action (World S) (Unit {0})
  warn = read_script_name (script_selector x) >>= λ _. put_status x sys dbs protocol 500

  run_state_missing :
      (m : StateMap) (n : ℤ)
      → find_state n m ≡ none
      → run_state x sys dbs protocol m n ≡ (warn >>= λ _. pure (m, none))
  unfolding run_state
  run_state_missing m n e = rw (e, run_state) refl

  run_state_found :
      (m : StateMap) (n : ℤ) (st : State)
      → find_state n m ≡ some st
      → run_state x sys dbs protocol m n
        ≡ (execute x sys dbs st >>= λ p. pure (update_state n p.0 m, some p.1))
  unfolding run_state
  run_state_found m n st e = rw (e, run_state) refl

  -- A round with what follows it.
  abbrev round : ℕ → Action (World S) (StateMap × Option ℤ) → Action (World S) StateMap
  round fuel first = first >>= after_round x sys dbs protocol (run_script x sys dbs protocol fuel)

  missing-forget :
      (fuel : ℕ) (a : Action (World S) (Unit {0})) (m m' : StateMap) (w : World S)
      → forget_map m ≡ forget_map m'
      → forgotten (round fuel (a >>= λ _. pure (m, none)) w)
        ≡ forgotten (round fuel (a >>= λ _. pure (m', none)) w)
  unfolding ◌>>=◌
  missing-forget fuel a m m' w e = on (a w).0 (a w).1
    where
      on :
          (r : Result (Unit {0})) (v : World S)
          → forgotten (
              continue
                (continue r (λ _. pure {A = StateMap × Option ℤ} (m, none)) v).0
                (after_round x sys dbs protocol (run_script x sys dbs protocol fuel))
                (continue r (λ _. pure {A = StateMap × Option ℤ} (m, none)) v).1)
            ≡ forgotten (
                continue
                  (continue r (λ _. pure {A = StateMap × Option ℤ} (m', none)) v).0
                  (after_round x sys dbs protocol (run_script x sys dbs protocol fuel))
                  (continue r (λ _. pure {A = StateMap × Option ℤ} (m', none)) v).1)
      on (ok u) v = ap (λ l. (ok l, v)) e
      on (throw t) v = refl
      on exit v = refl
      on undefined v = refl
      on out_of_fuel v = refl

  there-forget :
      (fuel : ℕ) (again : Agree fuel) (m m' : StateMap) (n : ℤ) (st st' : State) (w : World S)
      → forget_map m ≡ forget_map m'
      → forget st ≡ forget st'
      → forgotten
          (round fuel (execute x sys dbs st >>= λ p. pure (update_state n p.0 m, some p.1)) w)
        ≡ forgotten
            (round fuel (execute x sys dbs st' >>= λ p. pure (update_state n p.0 m', some p.1)) w)
  unfolding ◌>>=◌
  there-forget fuel again m m' n st st' w e f =
      let rest = after_round x sys dbs protocol (run_script x sys dbs protocol fuel) in
      ap forgotten
        (bind_assoc (execute x sys dbs st) (λ p. pure (update_state n p.0 m, some p.1)) rest w)
      ∙ (ap
            (λ (ex : Action (World S) (State × ℤ)).
              forgotten ((ex >>= λ p. pure (update_state n p.0 m, some p.1) >>= rest) w))
            (same_execute st st' f)
          ∙ (after_execute-forget fuel again m m' n (execute x sys dbs st' w).0
                (execute x sys dbs st' w).1 e
              ∙ ap forgotten (
                  sym (
                    bind_assoc (execute x sys dbs st') (λ p. pure (update_state n p.0 m', some p.1))
                      rest w))))

  -- Two maps that agree but for what runs leave: the script does the same over both, and leaves maps
  -- that agree in the same way.
  pub run_script-forget : (fuel : ℕ) → Agree fuel
  unfolding run_script
  run_script-forget zero m m' n w e = refl
  run_script-forget (suc fuel) m m' n w e =
      on (find_state n m) (find_state n m') refl refl (run_script-forget fuel) (found_same m m' n e)
    where
      on :
          (o o' : Option State)
          → find_state n m ≡ o
          → find_state n m' ≡ o'
          → Agree fuel
          → forget_found o ≡ forget_found o'
          → forgotten (run_script x sys dbs protocol (suc fuel) m n w)
            ≡ forgotten (run_script x sys dbs protocol (suc fuel) m' n w)
      on none none a b again f =
          ap (λ first. forgotten (round fuel first w)) (run_state_missing m n a)
          ∙ (missing-forget fuel warn m m' w e
              ∙ ap (λ first. forgotten (round fuel first w)) (sym (run_state_missing m' n b)))
      on none (some st') a b again f = absurd (ground arith)
      on (some st) none a b again f = absurd (ground arith)
      on (some st) (some st') a b again f =
          ap (λ first. forgotten (round fuel first w)) (run_state_found m n st a)
          ∙ (there-forget fuel again m m' n st st' w e (some-injective f)
              ∙ ap (λ first. forgotten (round fuel first w)) (sym (run_state_found m' n st' b)))
