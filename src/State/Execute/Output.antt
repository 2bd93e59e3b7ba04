-- ===== src/State/Execute/Output.antt =====
-- src/endstate.cpp, src/filestate.cpp: the states that write lines.
use smarty_appserver.Prelude.{ℤ, Bool, true, false, none, some, List, [], ◌∷◌, ◌++◌, Text, c_str}
use smarty_appserver.Errors.{undefined}
use smarty_appserver.Action.{Action, pure, lift, ◌>>=◌, ◌>>◌}
use smarty_appserver.Parser.{Externals}
use smarty_appserver.State.{State, EndBody, FileBody, end_state}
use smarty_appserver.World.{World, System, put_out, set_ext}
use smarty_appserver.Assigner.Evaluate.{evaluate}

module _ {S : Type 0} (x : Externals) (sys : System S) (st : State) where
  -- A line, evaluated or as it is.
  abbrev pub line_text : Text → Bool → Action (World S) Text
  line_text t true = evaluate x sys st t
  line_text t false = pure t

  -- The loop over m_outList and m_interpretFlag; a flag past the end is undefined.
  unfoldable pub emit_lines :
      (Text → Action (World S) (Unit {0})) → List Text → List Bool → Action (World S) (Unit {0})
  emit_lines emit [] flags = pure tt
  emit_lines emit (t ∷ ts) [] = lift undefined
  emit_lines emit (t ∷ ts) (flag ∷ flags) =
      line_text t flag >>= λ s. emit s >> emit_lines emit ts flags

  -- FCGX_FPrintF(request->out, "%s\r\n", …)
  abbrev pub print_line : Text → Action (World S) (Unit {0})
  print_line s = put_out (c_str s ++ 0x0d ∷ 0x0a ∷ [])

  -- CEndState::execute
  unfoldable pub execute_end : EndBody → Action (World S) (State × ℤ)
  execute_end b = emit_lines print_line b.out_list b.interpret_flag >>= λ _. pure (st, end_state)

  -- thefile << s << std::endl
  abbrev pub write_line : Text → Text → Action (World S) (Unit {0})
  write_line path s w = set_ext (sys.file_write w.ext path (s ++ 0x0a ∷ [])) w

  -- `std::ofstream thefile(path)`, and whether it is open.
  unfoldable pub open_file : Text → Action (World S) Bool
  open_file path w = elim (sys.file_open w.ext (c_str path)) [
    | none ↦ pure false w
    | some ext' ↦ (set_ext ext' >>= λ _. pure true) w
  ]

  abbrev pub write_file : FileBody → Bool → Action (World S) (State × ℤ)
  write_file b false = pure (st, st.error_state)
  write_file b true =
      emit_lines (write_line (c_str b.file_name)) b.out_list b.interpret_flag >>= λ _.
      pure (st, st.next_state)

  -- CFileState::execute
  unfoldable pub execute_file : FileBody → Action (World S) (State × ℤ)
  execute_file b = open_file b.file_name >>= write_file b
