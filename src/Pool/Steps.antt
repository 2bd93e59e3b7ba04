-- ===== src/Pool/Steps.antt =====
-- The parent and its children together: what may happen between two looks at the state.
use mathlib.Core.Path.{subst}
use smarty_appserver.Prelude.{
  ℕ, ◌+◌, ◌≤◌, ◌<◌, pos, ◌≡◌, ◌∙◌, sym, ap, true, false, List, length, get_elem?, is_positive,
  arith, Option-cases, inl, inr,
}
use smarty_appserver.Errors.{ok}
use smarty_appserver.Action.Ends.{Keeps, Ends-if, Ends-ok, Ends-at}
use smarty_appserver.Pool.{
  Slot, SlotState, Parent, Os, children_quantum, need_fork, turn, sigchld_handler,
  sigterm_handler_parent, sighup_handler_parent, occupy, set_slot_state,
}
use smarty_appserver.Pool.Invariant.{
  IsPosix, IsWellFormed, HasAtMost, length-set, fork_children-Keeps,
}
use smarty_appserver.Pool.Signals.{sigchld_handler_reaps_all, sigterm_handler_parent-IsWellFormed}

module _ {S : Type 0} (os : Os S) (children : S → ℕ) where
  -- A round of the main loop, a signal, a write of a child to a slot, or time that passes: processes
  -- end, but fork and waitpid are the parent's. The signals come while the parent sleeps.
  pub data Step (p q : Parent S) : Type 0 where
    round : is_positive p.children_running ≡ true → turn os p ≡ (ok tt, q) → Step p q
    child_ended :
        (fuel : ℕ) → children p.ext < fuel → sigchld_handler os fuel p ≡ (ok tt, q) → Step p q
    hang_up : q ≡ sighup_handler_parent p → Step p q
    terminate : q ≡ sigterm_handler_parent os p → Step p q
    child_started :
        (num pid : ℕ) (slots : List Slot)
        → occupy num pid p.slots ≡ ok slots
        → q ≡ record p { slots = slots }
        → Step p q
    child_state :
        (num : ℕ) (state : SlotState) (slots : List Slot)
        → set_slot_state num state p.slots ≡ ok slots
        → q ≡ record p { slots = slots }
        → Step p q
    time_passes : (s : S) → children s ≡ children p.ext → q ≡ record p { ext = s } → Step p q

  pub data Reach (p : Parent S) : Parent S → Type 0 where
    here : Reach p p
    next : {q r : Parent S} → Reach p q → Step q r → Reach p r

  occupy-length :
      (num pid : ℕ) (slots slots' : List Slot)
      → occupy num pid slots ≡ ok slots'
      → length slots' ≡ length slots
  unfolding occupy
  occupy-length num pid slots slots' e = elim (Option-cases (get_elem? slots num)) [
    | inl missing ↦ absurd (ground (arith, missing))
    | inr (slot, found) ↦ ground (
      arith,
      length-set slots num (record { slotbusy = 1; childsts = SlotState.st_busy; childpid = pid }),
    )
  ]

  set_slot_state-length :
      (num : ℕ) (state : SlotState) (slots slots' : List Slot)
      → set_slot_state num state slots ≡ ok slots'
      → length slots' ≡ length slots
  unfolding set_slot_state
  set_slot_state-length num state slots slots' e = elim (Option-cases (get_elem? slots num)) [
    | inl missing ↦ absurd (ground (arith, missing))
    | inr (slot, found) ↦ ground (arith, length-set slots num (record slot { childsts = state }))
  ]

  -- The size of the table does not change with its slots, nor the counts with the time.
  with_slots :
      (p : Parent S) (slots : List Slot)
      → length slots ≡ length p.slots
      → IsWellFormed children p
      → IsWellFormed children (record p { slots = slots })
  with_slots p slots e w = record { table = e ∙ w.table; bounded = w.bounded; counted = w.counted }

  module _ (posix : IsPosix os children) where
    pub turn-Keeps :
        (p : Parent S)
        → IsWellFormed children p
        → Keeps (HasAtMost children (children p.ext + children_quantum)) (turn os p)
    unfolding turn
    turn-Keeps p w =
        Ends-if (need_fork os p) _ _ (λ _. fork_children-Keeps os children posix p w)
          (λ _. Ends-ok tt p (w, omega arith))

    Step-IsWellFormed :
        {p q : Parent S} → Step p q → IsWellFormed children p → IsWellFormed children q
    unfolding sighup_handler_parent
    Step-IsWellFormed {p} {q} (round up e) w = (Ends-at (turn os p) tt q e (turn-Keeps p w)).0
    Step-IsWellFormed {p} {q} (child_ended fuel h e) w =
        (Ends-at (sigchld_handler os fuel p) tt q e
          (sigchld_handler_reaps_all os children posix fuel p w h)).0.0
    Step-IsWellFormed {p} (hang_up e) w =
        subst (IsWellFormed children) (sym e)
          (record { table = w.table; bounded = w.bounded; counted = w.counted })
    Step-IsWellFormed {p} (terminate e) w =
        subst (IsWellFormed children) (sym e)
          (sigterm_handler_parent-IsWellFormed os children posix p w)
    Step-IsWellFormed {p} (child_started num pid slots done e) w =
        subst (IsWellFormed children) (sym e)
          (with_slots p slots (occupy-length num pid p.slots slots done) w)
    Step-IsWellFormed {p} (child_state num state slots done e) w =
        subst (IsWellFormed children) (sym e)
          (with_slots p slots (set_slot_state-length num state p.slots slots done) w)
    Step-IsWellFormed {p} (time_passes s same e) w =
        subst (IsWellFormed children) (sym e)
          (record { table = w.table; bounded = w.bounded; counted = w.counted ∙ ap pos (sym same) })

    -- From a state in which the table of slots has its size, children_count keeps to the limit and
    -- children_running is the number of children that are not waited for, whatever happens and in
    -- whatever order, the same holds.
    pub Reach-IsWellFormed :
        {p q : Parent S} → Reach p q → IsWellFormed children p → IsWellFormed children q
    Reach-IsWellFormed here w = w
    Reach-IsWellFormed (next r st) w = Step-IsWellFormed st (Reach-IsWellFormed r w)

    -- The parent has been told to stop, and has at most `n` children.
    abbrev pub IsStopping : ℕ → Parent S → Type 0
    IsStopping n p = IsWellFormed children p × (p.do_restart ≡ false) × (children p.ext ≤ n)
