-- ===== src/Start/Ready.antt =====
-- From the loading of the scripts to a child that serves: what is loaded, connected and sane is ready.
use smarty_appserver.Prelude.{
  ℕ, ◌<◌, ℤ, ◌≡◌, ◌≢◌, Option, none, some, [], ◌∷◌, Text, All, lookup, Bool,
}
use smarty_appserver.Errors.{ok}
use smarty_appserver.Database.{DbMap}
use smarty_appserver.Database.Connect.{connect_dbs, connect_dbs_all}
use smarty_appserver.Parser.{Externals}
use smarty_appserver.Parser.Script.{StateMap}
use smarty_appserver.Parser.Script.WellFormed.{IsVerified}
use smarty_appserver.Parser.Script.Sections.{AreRegistered}
use smarty_appserver.State.Verify.Accepted.{verify-IsAccepted}
use smarty_appserver.State.Execute.Exits.{exits}
use smarty_appserver.State.Execute.Ready.{IsPlainBody, AreConnected, accepted-IsSafe}
use smarty_appserver.Server.{script_selector}
use smarty_appserver.Server.Termination.{Falls, IsSafeScript}
use smarty_appserver.Server.Request.Safety.{IsReady}
use smarty_appserver.Start.{Loaded}
use smarty_appserver.Start.Load.{IsLoaded}

-- What is asked of the texts of a script: no sign of a variable before a '-', no http, mail or shell
-- state, no assignment to `sel`, and exits that fall along a rank.
abbrev pub IsSane : Text → (ℤ → ℕ) → StateMap → Type 0
IsSane sel rank m = All (λ e. IsPlainBody sel e.1.body × Falls rank e.0 (exits e.1)) m

module _ (sel : Text) (dbs dbs' : DbMap) (rank : ℤ → ℕ) (connected : AreConnected dbs dbs') where
  sane-IsSafeScript :
      (m : StateMap)
      → All IsVerified m
      → AreRegistered dbs m
      → IsSane sel rank m
      → IsSafeScript sel dbs' rank m
  sane-IsSafeScript [] v r s = tt
  sane-IsSafeScript ((k, st) ∷ m) v r s = (
    (
      accepted-IsSafe sel dbs dbs' st.body connected (verify-IsAccepted st st v.0.1) r.0 s.0.0,
      s.0.1,
    ),
    sane-IsSafeScript m v.1 r.1 s.1,
  )

-- The scripts have been loaded and a child has connected its databases: if every file has states, the
-- scripts' texts are plain, without http, mail and shell states and without an assignment to the selector, their exits fall along a rank, and the
-- fuel covers the rank of every entry, then the child is ready for requests.
pub loaded-IsReady :
    (x : Externals) (can_connect : Text → Bool) (rank : ℤ → ℕ) (fuel : ℕ) (l : Loaded)
    → IsLoaded l
    → (connect_dbs x can_connect l.dbs).0 ≡ ok tt
    → ((fname : Text) → lookup fname l.scripts.by_file ≢ some none)
    → ((fname : Text) (m : StateMap)
        → lookup fname l.scripts.by_file ≡ some (some m)
        → IsSane (script_selector x) rank m)
    → ((name : Text) (entry : ℤ) → lookup name l.scripts.entries ≡ some entry → rank entry < fuel)
    → IsReady (script_selector x) (connect_dbs x can_connect l.dbs).1 rank fuel l.scripts
loaded-IsReady x can_connect rank fuel l h up states sane covered = record {
  loaded =
      λ name fname e. let ((o, found), entry) = h.named name fname e in with_states fname o found;
  safe = λ fname m e.
      let ((verified, distinct), registered) = h.parsed fname m e in
      sane-IsSafeScript (script_selector x) l.dbs (connect_dbs x can_connect l.dbs).1 rank
        (λ section o there. connect_dbs_all x can_connect l.dbs section o up there) m verified
        registered (sane fname m e);
  covered = covered;
}
  where
    with_states :
        (fname : Text) (o : Option StateMap)
        → lookup fname l.scripts.by_file ≡ some o
        → (m : StateMap) × (lookup fname l.scripts.by_file ≡ some (some m))
    with_states fname none e = absurd (states fname e)
    with_states fname (some m) e = (m, e)
