-- ===== src/Tests/Service.antt =====
-- A server whose calls all succeed, and that is told to stop in its third sleep.
use smarty_appserver.Prelude.{
  ℕ, ◌≡◌, refl, inl, inr, pos, Option, none, some, List, [], ◌∷◌, Text, codes, true, false, All,
  Bool-cases, ◌==◌, arith, lookup, text_eq,
}
use smarty_appserver.Logging.PidFile.{Files, missing}
use smarty_appserver.Parser.Script.{StateMap}
use smarty_appserver.Pool.{Parent, need_fork, new_parent, children_hardlimit}
use smarty_appserver.Start.Free.{HasStates}
use smarty_appserver.Service.{Kernel, Session}
use smarty_appserver.Service.Calls.{IsKernel}
use smarty_appserver.Service.Sleeps.{EndsBy}
use smarty_appserver.Service.Lifecycle.{IsNew}
use smarty_appserver.Tests.Sample.{two_states}
use smarty_appserver.Tests.Pool.{counter, itself, counter-IsPosix}

abbrev one_file : Files ℕ
one_file = record {
  lstat = λ s path. missing;
  create = λ s path. inr (3, s);
  open_file = λ s path. some (3, s);
  fstat = λ s fd. none;
  is_regular = λ mode. true;
  ftruncate = λ s fd. inr s;
  write = λ s fd text. inr s;
  close = λ s fd. (0, s);
}

abbrev willing : Kernel ℕ
willing = record { os = counter; files = one_file; call = λ s c. some s }

willing-IsKernel : IsKernel willing itself
willing-IsKernel = record { posix = counter-IsPosix; called = λ s t c e. ground arith }

-- SIGTERM, and the children end.
abbrev stopped : ℕ → Parent ℕ → Parent ℕ
stopped n p = record p { children_running = pos 0; do_restart = false; ext = 0 }

stopped-idle : (p : Parent ℕ) → need_fork counter (stopped 0 p) ≡ false
unfolding need_fork
stopped-idle p = elim (Bool-cases (p.children_count == children_hardlimit)) [
  | inl full ↦ rw full refl
  | inr room ↦ rw room refl
]

stopped-EndsBy : EndsBy willing itself willing-IsKernel stopped 0
stopped-EndsBy = record {
  keeps = λ n p w. record { table = w.table; bounded = w.bounded; counted = refl };
  gone = λ p w. (refl, stopped-idle p);
}

abbrev new_session : Session ℕ
new_session = record { parent = new_parent 0; calls = [] }

new_session-IsNew : IsNew willing itself willing-IsKernel new_session
new_session-IsNew = record { count = refl; running = refl; childless = refl }

abbrev one_map : List (Text × Option StateMap)
one_map = (codes "s.sl", some two_states) ∷ []

f_states : All (HasStates one_map) ((codes "f", codes "s.sl") ∷ [])
unfolding lookup text_eq
f_states = ((two_states, refl), tt)
