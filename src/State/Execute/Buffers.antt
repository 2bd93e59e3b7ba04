-- ===== src/State/Execute/Buffers.antt =====
-- The variable that a shell state and an http state set: the table keeps the address of the buffer of
-- a local string.
use smarty_appserver.Prelude.{
  ◌≡◌, refl, some, [], ◌∷◌, Text, lookup, insert, lookup-insert_self, text_eq, c_str, arith,
  Bool-cases, inl, inr,
}
use smarty_appserver.Errors.{ok, undefined}
use smarty_appserver.Action.{◌>>=◌}
use smarty_appserver.Parser.{Externals}
use smarty_appserver.State.{State, ShellBody}
use smarty_appserver.State.Execute.Services.{execute_shell}
use smarty_appserver.World.{World, System, owned, held, dangling, Table, set_ext}
use smarty_appserver.Assigner.{free_all, assign_local, get_local, reset_table}
use smarty_appserver.Assigner.Ownership.{IsSound, free-lookup-owned}
use smarty_appserver.Assigner.Evaluate.{evaluate}

free_all-dangling : (k : Text) (t : Table) → lookup k t ≡ some dangling → free_all t ≡ undefined
unfolding lookup free_all
free_all-dangling k [] h = absurd (ground arith)
free_all-dangling k ((j, dangling) ∷ t) h = refl
free_all-dangling k ((j, owned s) ∷ t) h = elim (Bool-cases (text_eq j k)) [
  | inl hit ↦ absurd (ground arith)
  | inr miss ↦ free_all-dangling k t (ground arith)
]
free_all-dangling k ((j, held s) ∷ t) h = elim (Bool-cases (text_eq j k)) [
  | inl hit ↦ absurd (ground arith)
  | inr miss ↦ free_all-dangling k t (ground arith)
]

module _ {S : Type 0} (x : Externals) (sys : System S) (st : State) (b : ShellBody) (w w' : World S)
    (command output : Text) (ext' : S)
    (evaluated : evaluate x sys st b.command w ≡ (ok command, w')) (sound : IsSound w')
    (run : sys.popen w'.ext (c_str command) ≡ some (output, ext')) where
  execute_shell_lem : execute_shell x sys st b w ≡ (
    ok (st, st.next_state),
    record w' { table = insert b.outputvar dangling w'.table; ext = ext' },
  )
  unfolding execute_shell ◌>>=◌ assign_local set_ext
  execute_shell_lem = rw (evaluated, run, free-lookup-owned b.outputvar w'.table sound)

  -- A shell state whose command text evaluates, over a table that owns its strings, and whose
  -- command runs goes to its next state, and leaves a table in which the output variable points to a
  -- buffer that is gone: to read it is undefined, and so is the reset of the table at the end of the
  -- request.
  pub execute_shell_dangling :
      ((execute_shell x sys st b w).0 ≡ ok (st, st.next_state))
      × ((get_local b.outputvar (execute_shell x sys st b w).1).0 ≡ undefined)
      × ((reset_table (execute_shell x sys st b w).1).0 ≡ undefined)
  unfolding get_local reset_table
  execute_shell_dangling = rw execute_shell_lem (
    refl,
    rw lookup-insert_self refl,
    rw
        (free_all-dangling b.outputvar (insert b.outputvar dangling w'.table)
          (lookup-insert_self b.outputvar dangling w'.table))
        refl,
  )
