-- ===== src/Pool/Interrupts.antt =====
-- src/preforked.cpp: forkChildren one statement after the other, since the handlers of the parent may
-- run between any two.
pub mod Replay
pub mod Counted
pub mod Failing
use smarty_appserver.Prelude.{
  ℕ, zero, suc, pos, none, some, get_elem?, set, ltb, int_eq, int_suc, if◌then◌else◌, ◌≡◌, length,
  List, ◌<◌,
}
use smarty_appserver.Errors.{ok, exit, undefined, out_of_fuel}
use smarty_appserver.Action.{Action, ◌>>=◌}
use smarty_appserver.Pool.{
  Slot, Parent, Os, children_hardlimit, children_quantum, zero_slot, sigchld_handler,
  sigterm_handler_parent, sighup_handler_parent,
}

-- The loop that forkChild is called from, and the quantum that is left then.
pub data Caller : Type 0 where
  hole : ℕ → ℕ → Caller
  growth : ℕ → Caller

-- What comes next: the tests of the function, the test of the loop over the holes and its body, the
-- fork and `children_running++` of forkChild, the assertion, the second loop, and the end.
pub data Point : Type 0 where
  entering comparing : Point
  filling checking : ℕ → ℕ → Point
  forking : ℕ → Caller → Point
  counting : Caller → Point
  asserting growing : ℕ → Point
  done : Point

abbrev pub resume : Caller → Point
resume (hole quantum i) = filling quantum (suc i)
resume (growth quantum) = growing quantum

module _ {S : Type 0} (os : Os S) where
  -- The parent's side of forkChild up to `rv > 0`.
  abbrev pub fork_first : ℕ → Caller → Action (Parent S) Point
  fork_first num k p = elim (os.fork p.ext num) [
    | none ↦ (exit, p)
    | some s ↦ (ok (counting k), record p { ext = s })
  ]

  abbrev pub check_slot : ℕ → ℕ → Action (Parent S) Point
  check_slot quantum i p = elim (get_elem? p.slots i) [
    | none ↦ (undefined, p)
    | some slot ↦
        if os.proc_running p.ext slot.childpid
        then (ok (filling quantum (suc i)), p)
        else (ok (forking i (hole quantum i)), record p { slots = set p.slots i zero_slot })
  ]

  -- One statement of forkChildren.
  unfoldable pub advance : Point → Action (Parent S) Point
  advance entering p = (ok (if p.do_restart then comparing else done), p)
  advance comparing p = (
    ok (
        if int_eq (pos p.children_count) p.children_running
        then growing children_quantum
        else filling children_quantum 0),
    p,
  )
  advance (filling zero i) p = (ok (asserting 0), p)
  advance (filling (suc quantum) i) p =
      (ok (if ltb i p.children_count then checking quantum i else asserting (suc quantum)), p)
  advance (checking quantum i) p = check_slot quantum i p
  advance (forking num k) p = fork_first num k p
  advance (counting k) p =
      (ok (resume k), record p { children_running = int_suc p.children_running })
  advance (asserting quantum) p =
      if int_eq (pos p.children_count) p.children_running
      then (ok (growing quantum), p)
      else (exit, p)
  advance (growing zero) p = (ok done, p)
  advance (growing (suc quantum)) p =
      if ltb p.children_count children_hardlimit
      then (
        ok (forking p.children_count (growth quantum)),
        record p { children_count = suc p.children_count },
      )
      else (ok done, p)
  advance done p = (ok done, p)

  abbrev ended : Point → Action (Parent S) (Unit {0})
  ended done p = (ok tt, p)
  ended _ p = (out_of_fuel, p)

  -- The statements that are left, on fuel.
  unfoldable pub run_from : ℕ → Point → Action (Parent S) (Unit {0})
  run_from zero pc = ended pc
  run_from (suc fuel) pc = advance pc >>= run_from fuel

  module _ (children : S → ℕ) where
    -- A handler, writes of the children to the table, or time that passes.
    pub data Interrupt (p q : Parent S) : Type 0 where
      child_ended :
          (fuel : ℕ)
          → children p.ext < fuel
          → sigchld_handler os fuel p ≡ (ok tt, q)
          → Interrupt p q
      hang_up : q ≡ sighup_handler_parent p → Interrupt p q
      terminate : q ≡ sigterm_handler_parent os p → Interrupt p q
      elsewhere :
          (slots : List Slot) (s : S)
          → length slots ≡ length p.slots
          → children s ≡ children p.ext
          → q ≡ record p { slots = slots; ext = s }
          → Interrupt p q

    -- Statements of forkChildren from its start, with interrupts between them.
    pub data Runs (p : Parent S) : Point → Parent S → Type 0 where
      start : Runs p entering p
      statement :
          {pc pc' : Point} {q r : Parent S}
          → Runs p pc q
          → advance pc q ≡ (ok pc', r)
          → Runs p pc' r
      interrupt : {pc : Point} {q r : Parent S} → Runs p pc q → Interrupt q r → Runs p pc r
