-- ===== src/Pool.antt =====
-- src/preforked.cpp, include/preforked.hpp: the parent process, its table of slots in shared memory,
-- and what the children write there.
use smarty_appserver.Prelude.{
  ℕ, zero, suc, ◌*◌, ℤ, pos, Bool, true, false, Option, none, some, List, [], ◌∷◌, length,
  get_elem?, set, replicate, ltb, leb, ◌==◌, ◌&&◌, int_eq, int_suc, int_pred, is_positive,
  if◌then◌else◌,
}
use smarty_appserver.Errors.{Result, ok, exit, undefined, out_of_fuel}
use smarty_appserver.Action.{Action, pure, lift, ◌>>=◌, ◌>>◌}
pub mod Invariant
pub mod Growth
pub mod Holes
pub mod Signals
pub mod Steps
pub mod Interrupts

-- slotstate_t
pub data SlotState : Type 0 where
  st_free st_idle st_busy st_shutdown : SlotState

abbrev pub is_busy : SlotState → Bool
is_busy st_busy = true
is_busy _ = false

-- pslot_t
pub record Slot : Type 0 where
  pub slotbusy : ℕ
  pub childsts : SlotState
  pub childpid : ℕ

-- bzero
abbrev pub zero_slot : Slot
zero_slot = record { slotbusy = 0; childsts = st_free; childpid = 0 }

-- CHILDREN_HARDLIMIT, CHILDREN_QUANTUM
abbrev pub children_hardlimit : ℕ
children_hardlimit = 1024

abbrev pub children_quantum : ℕ
children_quantum = 16

-- The statics of the file. The lock of the table is held around each access and left out.
pub record Parent (S : Type 0) : Type 0 where
  pub slots : List Slot
  pub children_count : ℕ
  pub children_running : ℤ
  pub do_restart : Bool
  pub ext : S

-- The table after bzero, before the first fork.
abbrev pub new_parent : {S : Type 0} → S → Parent S
new_parent s = record {
  slots = replicate children_hardlimit zero_slot;
  children_count = 0;
  children_running = pos 0;
  do_restart = true;
  ext = s;
}

pub record Os (S : Type 0) : Type 0 where
  -- fork(), whose child serves the slot: `none` if it fails.
  pub fork : S → ℕ → Option S
  -- Whether /proc/<pid> exists.
  pub proc_running : S → ℕ → Bool
  -- waitpid(-1, &rv, 0), which waits until a child ends: `none` if there is no child.
  pub waitpid : S → Option S
  -- kill(pid, SIGTERM)
  pub kill : S → ℕ → S

-- running / count > 0.79 on floats, for counts up to the limit. At 79 of 100 the float is above the
-- double 0.79; 0 / 0 is above nothing.
unfoldable pub exceeds : ℕ → ℕ → Bool
exceeds running count = ltb 0 count && leb (79 * count) (100 * running)

module _ {S : Type 0} (os : Os S) where
  -- The parent's side of forkChild.
  unfoldable pub fork_child : ℕ → Action (Parent S) (Unit {0})
  fork_child num p = elim (os.fork p.ext num) [
    | none ↦ (exit, p)
    | some s ↦ (ok tt, record p { children_running = int_suc p.children_running; ext = s })
  ]

  -- One round of the loop over the holes.
  unfoldable pub fill_hole : ℕ → Action (Parent S) (Unit {0})
  fill_hole i p = elim (get_elem? p.slots i) [
    | none ↦ (undefined, p)
    | some slot ↦
        if os.proc_running p.ext slot.childpid
        then (ok tt, p)
        else fork_child i (record p { slots = set p.slots i zero_slot })
  ]

  -- `for(i = 0; i < children_count && quantum > 0; i++, quantum--)`: what is left of the quantum.
  unfoldable pub fill_holes : ℕ → ℕ → Action (Parent S) ℕ
  fill_holes zero i p = (ok 0, p)
  fill_holes (suc quantum) i p =
      if ltb i p.children_count
      then (fill_hole i >>= λ _. fill_holes quantum (suc i)) p
      else (ok (suc quantum), p)

  -- assert(children_count == children_running), which the build keeps.
  unfoldable pub assert_counts : Action (Parent S) (Unit {0})
  assert_counts p =
      if int_eq (pos p.children_count) p.children_running then (ok tt, p) else (exit, p)

  -- `while(quantum && children_count < CHILDREN_HARDLIMIT)`
  unfoldable pub grow : ℕ → Action (Parent S) (Unit {0})
  grow zero p = (ok tt, p)
  grow (suc quantum) p =
      if ltb p.children_count children_hardlimit
      then (fork_child p.children_count >>= λ _. grow quantum)
          (record p { children_count = suc p.children_count })
      else (ok tt, p)

  unfoldable pub refill : Action (Parent S) (Unit {0})
  refill = fill_holes children_quantum 0 >>= λ quantum. assert_counts >>= λ _. grow quantum

  unfoldable pub fork_children : Action (Parent S) (Unit {0})
  fork_children p =
      if p.do_restart
      then (if int_eq (pos p.children_count) p.children_running
          then grow children_quantum p
          else refill p)
      else (ok tt, p)

  -- The slots among the first `n` whose child is there and busy.
  unfoldable pub busy_children : S → ℕ → List Slot → ℕ
  busy_children s zero slots = 0
  busy_children s (suc n) [] = 0
  busy_children s (suc n) (slot ∷ slots) =
      let rest = busy_children s n slots in
      if os.proc_running s slot.childpid && (slot.slotbusy == 1 && is_busy slot.childsts)
      then suc rest
      else rest

  unfoldable pub need_fork : Parent S → Bool
  need_fork p =
      if p.children_count == children_hardlimit
      then false
      else if p.do_restart
      then exceeds (busy_children p.ext p.children_count p.slots) p.children_count
      else false

  -- A round of the main loop after its sleep.
  unfoldable pub turn : Action (Parent S) (Unit {0})
  turn p = if need_fork p then fork_children p else (ok tt, p)

  -- sigchld_handler: it waits for children until there is none. On fuel.
  unfoldable pub sigchld_handler : ℕ → Action (Parent S) (Unit {0})
  sigchld_handler zero p = (out_of_fuel, p)
  sigchld_handler (suc fuel) p = elim (os.waitpid p.ext) [
    | none ↦ (ok tt, p)
    | some s ↦
        sigchld_handler fuel (record p { children_running = int_pred p.children_running; ext = s })
  ]

  -- The loop of sigterm_handler_parent.
  unfoldable pub kill_busy : List Slot → S → S
  kill_busy [] s = s
  kill_busy (slot ∷ slots) s =
      kill_busy slots (if slot.slotbusy == 1 then os.kill s slot.childpid else s)

  unfoldable pub sigterm_handler_parent : Parent S → Parent S
  sigterm_handler_parent p = record p { do_restart = false; ext = kill_busy p.slots p.ext }

module _ {S : Type 0} where
  unfoldable pub sighup_handler_parent : Parent S → Parent S
  sighup_handler_parent p = record p { do_restart = false }

-- What a child writes when it starts.
unfoldable pub occupy : ℕ → ℕ → List Slot → Result (List Slot)
occupy num pid slots = elim (get_elem? slots num) [
  | none ↦ undefined
  | some slot ↦ ok (set slots num (record { slotbusy = 1; childsts = st_busy; childpid = pid }))
]

-- setSlotState
unfoldable pub set_slot_state : ℕ → SlotState → List Slot → Result (List Slot)
set_slot_state num state slots = elim (get_elem? slots num) [
  | none ↦ undefined
  | some slot ↦ ok (set slots num (record slot { childsts = state }))
]
