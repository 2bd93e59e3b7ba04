-- ===== src/Server/Senders.antt =====
-- Scripts stay as they are but for what the runs of their states leave.
use smarty_appserver.Prelude.{
  ℕ, zero, suc, ℤ, ◌≡◌, ◌∙◌, refl, sym, ap, Bool-cases, Option-cases, inl, inr, Option, none, some,
  [], ◌∷◌, All, Text, int_eq, arith,
}
use mathlib.Core.Path.{subst}
use smarty_appserver.Action.Gives.{
  Gives, Gives-pure, Gives-lift, Gives-bind, Gives-then, Gives-mono,
}
use smarty_appserver.Database.{DbMap}
use smarty_appserver.Parser.{Externals}
use smarty_appserver.Parser.Script.{StateMap, find_state}
use smarty_appserver.State.{
  State, Body, mail, end, file, regex, query, match, http, sms, script, shell, structure, goto,
  end_state,
}
use smarty_appserver.State.Execute.Transient.{forget, forget_body}
use smarty_appserver.State.Execute.Kept.{HasSender, execute-IsKept}
use smarty_appserver.World.{World, System}
use smarty_appserver.Server.{update_state, run_state, after_round, run_script}
use smarty_appserver.Server.Isolation.{forget_map}

-- Every mail state has a sender.
abbrev pub HaveSenders : StateMap → Type 0
HaveSenders m = All (λ e. HasSender e.1.body) m

HasSender-forget_body : (b : Body) → HasSender (forget_body b) → HasSender b
HasSender-forget_body (mail b) h = h
HasSender-forget_body (end b) h = tt
HasSender-forget_body (file b) h = tt
HasSender-forget_body (regex b) h = tt
HasSender-forget_body (query b) h = tt
HasSender-forget_body (match b) h = tt
HasSender-forget_body (http b) h = tt
HasSender-forget_body sms h = tt
HasSender-forget_body script h = tt
HasSender-forget_body (shell b) h = tt
HasSender-forget_body (structure b) h = tt
HasSender-forget_body (goto asgs) h = tt

find_state-HasSender :
    (n : ℤ) (m : StateMap) (st : State)
    → HaveSenders (forget_map m)
    → find_state n m ≡ some st
    → HasSender st.body
unfolding find_state
find_state-HasSender n [] st h e = absurd (ground arith)
find_state-HasSender n ((k, old) ∷ m) st h e = elim (Bool-cases (int_eq k n)) [
  | inl hit ↦
      let same : old ≡ st = ground arith in
      subst (λ s. HasSender s.body) same (HasSender-forget_body old.body h.0)
  | inr miss ↦ find_state-HasSender n m st h.1 (ground arith)
]

-- What is there already.
update_state-found :
    (n : ℤ) (st st' : State) (m : StateMap)
    → find_state n m ≡ some st
    → forget st' ≡ forget st
    → forget_map (update_state n st' m) ≡ forget_map m
unfolding find_state update_state
update_state-found n st st' [] e f = absurd (ground arith)
update_state-found n st st' ((k, old) ∷ m) e f = elim (Bool-cases (int_eq k n)) [
  | inl hit ↦
      let same : old ≡ st = ground arith in
      rw hit (ap (λ s. (k, s) ∷ forget_map m) (f ∙ ap forget (sym same)))
  | inr miss ↦
      rw miss (ap (λ l. (k, forget old) ∷ l) (update_state-found n st st' m (ground arith) f))
]

module _ {S : Type 0} (x : Externals) (sys : System S) (dbs : DbMap) (protocol : Option Text) where
  -- The same states but for what runs leave.
  abbrev pub SameMap : StateMap → StateMap → Type 0
  SameMap m m' = forget_map m' ≡ forget_map m

  run_state-SameMap :
      (m : StateMap) (n : ℤ)
      → HaveSenders (forget_map m)
      → Gives {S = World S} (λ p. SameMap m p.0) (run_state x sys dbs protocol m n)
  unfolding run_state
  run_state-SameMap m n h = elim (Option-cases (find_state n m)) [
    | inl e ↦ rw (e, run_state) (Gives-then _ _ (λ _. Gives-pure _ refl))
    | inr (st, e) ↦
        rw (e, run_state)
          (Gives-bind _ _ (execute-IsKept x sys dbs st (find_state-HasSender n m st h e))
            (λ p kept. Gives-pure _ (update_state-found n st p.0 m e kept)))
  ]

  -- A script leaves its states as they were, but for what runs leave.
  pub run_script-SameMap :
      (fuel : ℕ) (m : StateMap) (n : ℤ)
      → HaveSenders (forget_map m)
      → Gives {S = World S} (SameMap m) (run_script x sys dbs protocol fuel m n)
  unfolding run_script
  run_script-SameMap zero m n h = Gives-lift _ tt
  run_script-SameMap (suc fuel) m n h =
      Gives-bind _ _ (run_state-SameMap m n h)
        (λ p same. on p.0 p.1 same (λ m' k h'. run_script-SameMap fuel m' k h'))
    where
      on :
          (m' : StateMap) (o : Option ℤ)
          → SameMap m m'
          → ((m' : StateMap) (k : ℤ)
              → HaveSenders (forget_map m')
              → Gives {S = World S} (SameMap m') (run_script x sys dbs protocol fuel m' k))
          → Gives {S = World S}
              (SameMap m)
              (after_round x sys dbs protocol (run_script x sys dbs protocol fuel) (m', o))
      on m' none same again = Gives-pure _ same
      on m' (some next) same again = elim (Bool-cases (int_eq next end_state)) [
        | inl stop ↦ rw (stop, after_round) (Gives-pure _ same)
        | inr more ↦
            rw (more, after_round)
              (Gives-mono _ (λ m'' e. e ∙ same) (again m' next (subst HaveSenders (sym same) h)))
      ]
