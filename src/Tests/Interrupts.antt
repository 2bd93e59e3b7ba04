-- ===== src/Tests/Interrupts.antt =====
-- A parent of 16 slots that has lost a child, and loses the others while it fills the hole.
use smarty_appserver.Prelude.{ℕ, pos, ◌≡◌, refl, arith}
use smarty_appserver.Errors.{ok, exit}
use smarty_appserver.Action.{◌>>=◌}
use smarty_appserver.Pool.{Parent, zero_slot, sigchld_handler}
use smarty_appserver.Pool.Invariant.{IsWellFormed}
use smarty_appserver.Pool.Interrupts.{
  entering, comparing, filling, checking, advance, run_from, Runs, start, statement, interrupt,
  child_ended,
}
use smarty_appserver.Pool.Interrupts.Counted.{IsCounted, Runs-IsCounted, Advances}
use smarty_appserver.Pool.Interrupts.Failing.{sigchld_among_holes}
use smarty_appserver.Tests.Pool.{
  counter, itself, counter-IsPosix, wait_one, busy_slot, sixteen, table_of,
}

abbrev fifteen : Parent ℕ
fifteen = record sixteen { children_running = pos 15; ext = 15 }

abbrev deserted : Parent ℕ
deserted = record sixteen { children_running = pos 0; ext = 0 }

fifteen-IsWellFormed : IsWellFormed itself fifteen
fifteen-IsWellFormed = record {
  table = table_of 16 1008 busy_slot zero_slot;
  bounded = omega arith;
  counted = refl;
}

reaped : sigchld_handler counter 16 fifteen ≡ (ok tt, deserted)
unfolding sigchld_handler wait_one
reaped = refl

-- The first slot is in use; then all children end.
first_slot : Runs counter itself fifteen (filling 15 1) fifteen
unfolding advance
first_slot =
    statement {pc = checking 15 0}
      (statement {pc = filling 16 0}
        (statement {pc = comparing} (statement {pc = entering} start refl) refl) refl)
      refl

all_gone : Runs counter itself fifteen (filling 15 1) deserted
all_gone = interrupt first_slot (child_ended 16 (omega arith) reaped)

Runs-IsCounted_example :
    IsCounted itself (filling 15 1) deserted
    × Advances counter itself counter-IsPosix (filling 15 1) deserted
Runs-IsCounted_example = Runs-IsCounted counter itself counter-IsPosix all_gone fifteen-IsWellFormed

fifteen-IsCounted : IsCounted itself (filling 15 1) fifteen
fifteen-IsCounted = record {
  table = table_of 16 1008 busy_slot zero_slot;
  bounded = omega arith;
  counted = refl;
  placed = tt;
}

sigchld_among_holes_example :
    ((sigchld_handler counter 16 >>= λ _. run_from counter 63 (filling 15 1)) fifteen).0 ≡ exit
sigchld_among_holes_example =
    sigchld_among_holes counter itself counter-IsPosix 16 63 15 0 fifteen fifteen-IsCounted
      (omega arith) (omega arith) (omega arith)
