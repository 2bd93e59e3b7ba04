-- ===== src/Tests/Pool.antt =====
-- A parent of 16 or 17 children, whose processes are counted.
use smarty_appserver.Prelude.{
  ℕ, zero, suc, ◌+◌, ◌==◌, Bool-cases, ◌≤◌, ◌<◌, pos, ◌≡◌, inl, inr, refl, true, false, Option,
  none, some, ◌++◌, length, replicate, ltb, arith, length-append, length-replicate, is_positive,
  set, length,
}
use smarty_appserver.Errors.{ok}
use smarty_appserver.Action.{◌>>=◌}
use smarty_appserver.Action.Ends.{Ends, Keeps}
use smarty_appserver.Pool.{
  Slot, st_busy, Parent, Os, zero_slot, new_parent, children_hardlimit, fork_children, need_fork,
  busy_children, exceeds, turn, sigchld_handler, occupy, sighup_handler_parent,
}
use smarty_appserver.Pool.Invariant.{IsPosix, IsWellFormed, HasAtMost, fork_children-Keeps}
use smarty_appserver.Pool.Growth.{IsWhole, IsDemanding, GrowsTo, turns, pool_grows}
use smarty_appserver.Pool.Signals.{IsOver, sigchld_handler_reaps_all}
use smarty_appserver.Pool.Steps.{
  Reach, here, next, round, child_started, hang_up, Reach-IsWellFormed,
}

unfoldable pub wait_one : ℕ → Option ℕ
wait_one zero = none
wait_one (suc n) = some n

-- A process runs if its number is not 0.
abbrev pub counter : Os ℕ
counter = record {
  fork = λ s i. some (suc s);
  proc_running = λ s pid. ltb 0 pid;
  waitpid = wait_one;
  kill = λ s pid. s;
}

abbrev pub itself : ℕ → ℕ
itself s = s

wait_one-some : (s t : ℕ) → wait_one s ≡ some t → s ≡ suc t
unfolding wait_one
wait_one-some zero t e = absurd (ground arith)
wait_one-some (suc n) t e = ground arith

wait_one-none : (s : ℕ) → wait_one s ≡ none → s ≡ 0
unfolding wait_one
wait_one-none zero e = refl
wait_one-none (suc n) e = absurd (ground arith)

pub counter-IsPosix : IsPosix counter itself
counter-IsPosix = record {
  forked = λ s t i e. ground arith;
  waited = wait_one-some;
  childless = wait_one-none;
  killed = λ s pid. refl;
}

abbrev pub busy_slot : Slot
busy_slot = record { slotbusy = 1; childsts = st_busy; childpid = 5 }

-- 16 children at work.
abbrev pub sixteen : Parent ℕ
sixteen = record {
  slots = replicate 16 busy_slot ++ replicate 1008 zero_slot;
  children_count = 16;
  children_running = pos 16;
  do_restart = true;
  ext = 16;
}

pub table_of : (n m : ℕ) (s t : Slot) → length (replicate n s ++ replicate m t) ≡ n + m
table_of n m s t = omega (
  arith,
  length-append (replicate n s) (replicate m t),
  length-replicate n s,
  length-replicate m t,
)

sixteen-IsWellFormed : IsWellFormed itself sixteen
sixteen-IsWellFormed = record {
  table = table_of 16 1008 busy_slot zero_slot;
  bounded = omega arith;
  counted = refl;
}

fork_children-Keeps_example : Keeps (HasAtMost itself 32) (fork_children counter sixteen)
fork_children-Keeps_example =
    fork_children-Keeps counter itself counter-IsPosix sixteen sixteen-IsWellFormed

-- All of the first slots are busy.
busy_all : (s n m : ℕ) → n ≤ m → busy_children counter s n (replicate m busy_slot) ≡ n
unfolding busy_children
busy_all s zero m h = refl
busy_all s (suc n) zero h = absurd (omega arith)
busy_all s (suc n) (suc m) h = ground (arith, busy_all s n m (omega arith))

abbrev at_work : ℕ → Parent ℕ → Parent ℕ
at_work n p = record p { slots = replicate 1024 busy_slot }

exceeds_all : (n : ℕ) → 0 < n → exceeds n n ≡ true
unfolding exceeds
exceeds_all n l = ground arith

need_fork-at_work :
    (n i : ℕ) (p : Parent ℕ)
    → 0 < n
    → n ≤ children_hardlimit
    → IsWhole n p
    → (n == children_hardlimit) ≡ false
    → need_fork counter (at_work i p) ≡ true
unfolding need_fork
need_fork-at_work n i p l h w room =
    rw (w.count, w.restarts, room, busy_all p.ext n 1024 h) (exceeds_all n l)

at_work-IsDemanding : IsDemanding counter at_work
at_work-IsDemanding = record {
  whole = λ i n p w. record { count = w.count; running = w.running; restarts = w.restarts };
  busy = λ i n p l h w. elim (Bool-cases (n == children_hardlimit)) [
    | inl full ↦ inl (ground arith)
    | inr room ↦ inr (need_fork-at_work n i p l h w room)
  ];
}

pool_grows_example :
    GrowsTo 48 ((fork_children counter >>= λ _. turns counter at_work 2) (new_parent 0))
pool_grows_example = pool_grows counter (λ s i. (suc s, refl)) at_work at_work-IsDemanding 2 0

sigchld_handler_reaps_all_example :
    Ends
      (λ _ s.
        IsOver itself s
        × ((is_positive s.children_running ≡ false)
            × ((s.slots ≡ sixteen.slots) × (s.do_restart ≡ true))))
      (λ _. ⊥)
      (sigchld_handler counter 17 sixteen)
sigchld_handler_reaps_all_example =
    sigchld_handler_reaps_all counter itself counter-IsPosix 17 sixteen sixteen-IsWellFormed
      (omega arith)

-- Sixteen idle children: a turn, the write of a child, SIGHUP, and the end of all children.
abbrev idle : Parent ℕ
idle = record (new_parent 16) { children_count = 16; children_running = pos 16 }

idle-IsWellFormed : IsWellFormed itself idle
idle-IsWellFormed = record {
  table = length-replicate 1024 zero_slot;
  bounded = omega arith;
  counted = refl;
}

abbrev occupied : Parent ℕ
occupied = record idle { slots = set idle.slots 0 busy_slot }

abbrev told : Parent ℕ
told = record occupied { do_restart = false }

abbrev over : Parent ℕ
over = record told { children_running = pos 0; ext = 0 }

turn-idle : turn counter idle ≡ (ok tt, idle)
unfolding turn need_fork busy_children exceeds
turn-idle = refl

idle_started : occupy 0 5 idle.slots ≡ ok occupied.slots
unfolding occupy
idle_started = refl

told_hung_up : told ≡ sighup_handler_parent occupied
unfolding sighup_handler_parent
told_hung_up = refl

to_told : Reach counter itself idle told
to_told =
    next
      (next (next here (round refl turn-idle)) (child_started 0 5 occupied.slots idle_started refl))
      (hang_up told_hung_up)

Reach-IsWellFormed_example : IsWellFormed itself told
Reach-IsWellFormed_example =
    Reach-IsWellFormed counter itself counter-IsPosix to_told idle-IsWellFormed
