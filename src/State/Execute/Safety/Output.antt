-- ===== src/State/Execute/Safety/Output.antt =====
-- The states "end" and "file".
use smarty_appserver.Prelude.{
  ◌≡◌, refl, inl, inr, Bool, true, false, List, [], ◌∷◌, Text, All, length, arith,
}
use smarty_appserver.Action.{Action, ◌>>=◌}
use smarty_appserver.Action.Ensures.{Ensures, Any, Ensures-pure, Ensures-bind}
use smarty_appserver.Database.{DbMap}
use smarty_appserver.Parser.{Externals}
use smarty_appserver.State.{State, end, file, EndBody, FileBody}
use smarty_appserver.State.Execute.Output.{
  emit_lines, execute_end, execute_file, write_file, open_file, write_line,
}
use smarty_appserver.World.{World, System, set_ext}
use smarty_appserver.Assigner.Held.{IsIntact, put_out-Intact}
use smarty_appserver.Assigner.Evaluate.Laws.{IsLawful, IsPlain}
use smarty_appserver.Assigner.Evaluate.Safety.{evaluate-Ensures}
use smarty_appserver.State.Execute.Exits.{exits, IsSafeBody, Leads}

module _ {S : Type 0} {sel : Text} (x : Externals) (lawful : IsLawful x) (sys : System S)
    (st : State) where
  emit_lines-Ensures :
      (emit : Text → Action (World S) (Unit {0})) (ts : List Text) (flags : List Bool)
      → ((t : Text) → Ensures (IsIntact sel) Any (emit t))
      → All IsPlain ts
      → length ts ≡ length flags
      → Ensures (IsIntact {S = S} sel) Any (emit_lines x sys st emit ts flags)
  unfolding emit_lines
  emit_lines-Ensures emit [] flags k p h = Ensures-pure _ tt
  emit_lines-Ensures emit (t ∷ ts) [] k p h = absurd (omega arith)
  emit_lines-Ensures emit (t ∷ ts) (true ∷ flags) k p h =
      Ensures-bind _ _ (evaluate-Ensures x lawful sys st t p.0) (λ s _.
        Ensures-bind _ _ (k s) (λ _ _. emit_lines-Ensures emit ts flags k p.1 (omega arith)))
  emit_lines-Ensures emit (t ∷ ts) (false ∷ flags) k p h =
      Ensures-bind {Q = Any} _ _ (Ensures-pure t tt) (λ s _.
        Ensures-bind _ _ (k s) (λ _ _. emit_lines-Ensures emit ts flags k p.1 (omega arith)))

  pub execute_end-Ensures :
      (dbs : DbMap) (b : EndBody)
      → st.body ≡ end b
      → IsSafeBody sel dbs (end b)
      → Ensures (IsIntact {S = S} sel) (Leads sel dbs st) (execute_end x sys st b)
  unfolding execute_end exits
  execute_end-Ensures dbs b e p =
      Ensures-bind _ _
        (emit_lines-Ensures _ b.out_list b.interpret_flag (λ t. put_out-Intact _) p.0 p.1)
        (λ _ _. Ensures-pure _ (rw e (inl refl, p, refl)))

  open_file-Ensures : (path : Text) → Ensures (IsIntact {S = S} sel) Any (open_file x sys st path)
  unfolding open_file set_ext ◌>>=◌
  open_file-Ensures path = record { state = λ w h. ground arith; result = λ w h. ground arith }

  write_line-Ensures :
      (path t : Text) → Ensures (IsIntact {S = S} sel) Any (write_line x sys st path t)
  unfolding set_ext
  write_line-Ensures path t = record {
    state = λ w h. record { sound = h.sound; holds = h.holds };
    result = λ w h. tt;
  }

  pub execute_file-Ensures :
      (dbs : DbMap) (b : FileBody)
      → st.body ≡ file b
      → IsSafeBody sel dbs (file b)
      → Ensures (IsIntact {S = S} sel) (Leads sel dbs st) (execute_file x sys st b)
  unfolding execute_file exits
  execute_file-Ensures dbs b e p =
      Ensures-bind _ _ (open_file-Ensures b.file_name) (λ opened _. write opened)
    where
      write :
          (opened : Bool)
          → Ensures (IsIntact {S = S} sel) (Leads sel dbs st) (write_file x sys st b opened)
      write false = Ensures-pure _ (rw e (inr (inl refl), p, refl))
      write true =
          Ensures-bind _ _
            (emit_lines-Ensures _ b.out_list b.interpret_flag (write_line-Ensures _) p.0 p.1)
            (λ _ _. Ensures-pure _ (rw e (inl refl, p, refl)))
