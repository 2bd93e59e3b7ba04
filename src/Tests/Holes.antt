-- ===== src/Tests/Holes.antt =====
-- A pool with a child that is gone: that of slot 16, or that of slot 0.
use smarty_appserver.Prelude.{
  ℕ, zero, suc, ◌≤◌, ◌<◌, pos, ◌≡◌, refl, true, some, List, ◌∷◌, ◌++◌, replicate, get_elem?, ltb,
  arith,
}
use smarty_appserver.Errors.{ok, exit}
use smarty_appserver.Pool.{Slot, Parent, zero_slot, fork_children}
use smarty_appserver.Pool.Holes.{refilled, fork_children_hole_missed, fork_children_hole_filled}
use smarty_appserver.Tests.Pool.{counter, busy_slot, sixteen, table_of}

-- What stands among the first slots of a table.
replicated :
    (n j : ℕ) (s t : Slot) (rest : List Slot)
    → j < n
    → get_elem? (replicate n s ++ rest) j ≡ some t
    → s ≡ t
replicated zero j s t rest h e = absurd (omega arith)
replicated (suc n) zero s t rest h e = ground arith
replicated (suc n) (suc j) s t rest h e = replicated n j s t rest (omega arith) e

abbrev last_gone : Parent ℕ
last_gone = record sixteen { children_count = 17 }

abbrev first_gone : Parent ℕ
first_gone = record {
  slots = zero_slot ∷ (replicate 15 busy_slot ++ replicate 1008 zero_slot);
  children_count = 16;
  children_running = pos 15;
  do_restart = true;
  ext = 15;
}

busy_runs : (s : Slot) → busy_slot ≡ s → ltb 0 s.childpid ≡ true
busy_runs s e = ground (arith, e)

fork_children_hole_missed_example : fork_children counter last_gone ≡ (exit, last_gone)
fork_children_hole_missed_example =
    fork_children_hole_missed counter last_gone (table_of 16 1008 busy_slot zero_slot) (omega arith)
      (omega arith) refl (λ e. ground arith)
      (λ j s low high e.
        busy_runs s (replicated 16 j busy_slot s (replicate 1008 zero_slot) high e))

rest_runs :
    (j : ℕ) (s : Slot)
    → 1 ≤ j
    → j < 16
    → get_elem? first_gone.slots j ≡ some s
    → ltb 0 s.childpid ≡ true
rest_runs zero s low high e = absurd (omega arith)
rest_runs (suc j) s low high e =
    busy_runs s (replicated 15 j busy_slot s (replicate 1008 zero_slot) (omega arith) e)

fork_children_hole_filled_example :
    fork_children counter first_gone ≡ (ok tt, refilled counter 0 16 first_gone)
unfolding refilled
fork_children_hole_filled_example =
    fork_children_hole_filled counter 0 16 zero_slot first_gone
      (omega (arith, table_of 15 1008 busy_slot zero_slot)) (omega arith) (omega arith) refl refl
      (omega arith) (λ j s low high e. absurd (omega arith)) refl refl refl rest_runs
