-- ===== src/Service/Main.antt =====
-- src/appserver.cpp, the end of main: what it frees and removes after runPreforked.
use smarty_appserver.Prelude.{
  ℕ, ◌<◌, ◌≡◌, ◌∙◌, refl, ap, false, Option, List, [], ◌∷◌, ◌++◌, Text, All,
}
use smarty_appserver.Action.Ends.{
  Ends, Ends-pure, Ends-bind, Ends-mono, Ends-pure_first, Ends-lift_first,
}
use smarty_appserver.Parser.Script.{StateMap}
use smarty_appserver.Pool.{Parent}
use smarty_appserver.Start.Free.{free_all_scripts, HasStates, HaveOwnFiles, free_all_scripts_ends}
use smarty_appserver.Service.{Kernel, Session, closing, unlink_pid_file, serve_and_exit}
use smarty_appserver.Service.Calls.{IsKernel, Continues-IsWellFormed, may-Continues}
use smarty_appserver.Service.Sleeps.{EndsBy, IsAlone}
use smarty_appserver.Service.Lifecycle.{IsNew, HasFailed, served, run_preforked_lifecycle}

module _ {S : Type 0} (k : Kernel S) (children : S → ℕ) (lawful : IsKernel k children) where
  -- The calls that close all have been tried, and then the removal of the pid file.
  abbrev pub HasExited : Session S → ℕ → Session S → Type 0
  HasExited s rv t =
      (rv ≡ 0)
      × IsAlone k children lawful t
      × ((n : ℕ) × (t.calls ≡ (served k children lawful s n ++ closing) ++ unlink_pid_file ∷ []))

  -- A server that is not told to be a daemon, where every name of a script has a file of its own, every
  -- file has states, and the parent comes to serve and to an end as above: main comes
  -- through freeAllScripts and returns 0, and its last call is to remove the pid file, which it has not
  -- written; or the parent has ended before.
  pub serve_and_exit_lifecycle :
      (pidfile pid : Text) (names : List (Text × Text)) (maps : List (Text × Option StateMap))
      (during : ℕ → Parent S → Parent S) (last fuel : ℕ) (s : Session S)
      → EndsBy k children lawful during last
      → last < fuel
      → IsNew k children lawful s
      → All (HasStates maps) names
      → HaveOwnFiles names
      → Ends
          (HasExited s)
          (HasFailed k children lawful s)
          (serve_and_exit k false pidfile pid names maps during fuel s)
  unfolding serve_and_exit
  serve_and_exit_lifecycle pidfile pid names maps during last fuel s d h w states own =
      Ends-pure_first tt _ s (
        Ends-pure_first tt _ s (
          Ends-bind _ _ s (run_preforked_lifecycle k children lawful during last fuel s d h w)
            (λ rv t (done, alone, calls).
              Ends-lift_first (free_all_scripts names maps) tt _ t
                ((free_all_scripts_ends names maps).1 (states, own))
                (Ends-bind _ _ t
                  (Ends-mono _ (λ _ u c. c) (λ u no. absurd no)
                    (may-Continues k children lawful unlink_pid_file t))
                  (λ _ u c. Ends-pure 0 u (
                    refl,
                    (
                      Continues-IsWellFormed k children lawful (unlink_pid_file ∷ []) c alone.0,
                      c.same ∙ alone.1,
                    ),
                    (calls.0, c.calls ∙ ap (λ l. l ++ unlink_pid_file ∷ []) calls.1),
                  ))))))
