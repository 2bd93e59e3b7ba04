-- ===== src/Pool/Holes.antt =====
-- A child that is gone leaves a hole: forkChildren fills it if it lies among the first 16 slots, and
-- ends the parent if not.
use mathlib.Core.Path.{subst}
use smarty_appserver.Prelude.{
  ℕ, zero, suc, ◌+◌, ◌≤◌, ◌<◌, ℤ, pos, negsuc, ap, ◌≡◌, ◌≢◌, ◌∙◌, sym, refl, true, false, some,
  length, get_elem?, set, int_eq, int_suc, int_eq_iff, if-true, if-false, ltb, lt→ltb, arith,
  Bool-cases, inl, inr,
}
use smarty_appserver.Errors.{ok, exit}
use smarty_appserver.Action.Ends.{bind-known}
use smarty_appserver.Pool.{
  Slot, Parent, Os, children_hardlimit, children_quantum, zero_slot, fork_child, fill_hole,
  fill_holes, assert_counts, grow, refill, fork_children,
}
use smarty_appserver.Pool.Invariant.{get_elem?-bound, length-set}

one_less :
    (running : ℤ) (count : ℕ) → int_suc running ≡ pos count → int_eq (pos count) running ≡ false
one_less (pos n) count e = ground arith
one_less (negsuc n) count e = ground arith

module _ {S : Type 0} (os : Os S) where
  -- The children of the slots from `low` to before `high` are there.
  abbrev pub AreRunning : ℕ → ℕ → Parent S → Type 0
  AreRunning low high p =
      (j : ℕ) (slot : Slot)
      → low ≤ j
      → j < high
      → get_elem? p.slots j ≡ some slot
      → os.proc_running p.ext slot.childpid ≡ true

  fill_hole_running :
      (i : ℕ) (p : Parent S) (slot : Slot)
      → get_elem? p.slots i ≡ some slot
      → os.proc_running p.ext slot.childpid ≡ true
      → fill_hole os i p ≡ (ok tt, p)
  unfolding fill_hole
  fill_hole_running i p slot found up =
      rw (found, fill_hole) (if-true (os.proc_running p.ext slot.childpid) _ _ up)

  skip_slot :
      (quantum i : ℕ) (p : Parent S) (slot : Slot)
      → i < p.children_count
      → get_elem? p.slots i ≡ some slot
      → os.proc_running p.ext slot.childpid ≡ true
      → fill_holes os (suc quantum) i p ≡ fill_holes os quantum (suc i) p
  unfolding fill_holes
  skip_slot quantum i p slot l found up =
      if-true (ltb i p.children_count) _ _ (lt→ltb i p.children_count l)
      ∙ bind-known (fill_hole os i) _ p p (ok tt) (fill_hole_running i p slot found up)

  fill_holes_running :
      (quantum i : ℕ) (p : Parent S)
      → length p.slots ≡ children_hardlimit
      → p.children_count ≤ children_hardlimit
      → i + quantum ≤ p.children_count
      → AreRunning i (i + quantum) p
      → fill_holes os quantum i p ≡ (ok 0, p)
  unfolding fill_holes
  fill_holes_running zero i p t b h up = refl
  fill_holes_running (suc quantum) i p t b h up =
      let (slot, found) = get_elem?-bound p.slots i (omega arith) in
      skip_slot quantum i p slot (omega arith) found (up i slot (omega arith) (omega arith) found)
      ∙ fill_holes_running quantum (suc i) p t b (omega arith)
          (λ j s l u e. up j s (omega arith) (omega arith) e)

  assert_counts_failed :
      (p : Parent S)
      → int_eq (pos p.children_count) p.children_running ≡ false
      → assert_counts os p ≡ (exit, p)
  unfolding assert_counts
  assert_counts_failed p e = simp e

  assert_counts_passed :
      (p : Parent S)
      → int_eq (pos p.children_count) p.children_running ≡ true
      → assert_counts os p ≡ (ok tt, p)
  unfolding assert_counts
  assert_counts_passed p e = simp e

  -- A pool of 16 slots or more in which a child is missing, but none of the first 16: the loop over
  -- the holes uses its quantum up on slots that are not holes, the assertion fails, and the parent
  -- ends.
  pub fork_children_hole_missed :
      (p : Parent S)
      → length p.slots ≡ children_hardlimit
      → p.children_count ≤ children_hardlimit
      → children_quantum ≤ p.children_count
      → p.do_restart ≡ true
      → p.children_running ≢ pos p.children_count
      → AreRunning 0 children_quantum p
      → fork_children os p ≡ (exit, p)
  unfolding fork_children refill
  fork_children_hole_missed p t b q d missing up =
      let differ : int_eq (pos p.children_count) p.children_running ≡ false =
        elim (Bool-cases (int_eq (pos p.children_count) p.children_running)) [
          | inl same ↦
              absurd (missing (sym ((int_eq_iff (pos p.children_count) p.children_running).0 same)))
          | inr differ ↦ differ
        ] in
      if-true p.do_restart _ _ d
      ∙ (if-false (int_eq (pos p.children_count) p.children_running) _ _ differ
          ∙ (bind-known (fill_holes os children_quantum 0) _ p p (ok 0)
                (fill_holes_running children_quantum 0 p t b q up)
              ∙ bind-known (assert_counts os) _ p p exit (assert_counts_failed p differ)))

  -- fork fills the slot, and ends no process.
  unfoldable pub refilled : ℕ → S → Parent S → Parent S
  refilled h t p = record p {
    slots = set p.slots h zero_slot;
    children_running = int_suc p.children_running;
    ext = t;
  }

  fill_hole_gone :
      (i : ℕ) (p : Parent S) (slot : Slot) (t : S)
      → get_elem? p.slots i ≡ some slot
      → os.proc_running p.ext slot.childpid ≡ false
      → os.fork p.ext i ≡ some t
      → fill_hole os i p ≡ (ok tt, refilled i t p)
  unfolding fill_hole fork_child refilled
  fill_hole_gone i p slot t found down forked =
      rw (found, fill_hole)
        (if-false (os.proc_running p.ext slot.childpid) _ _ down ∙ rw (forked, fork_child) refl)

  module _ (h : ℕ) (t : S) (slot : Slot) where
    -- The loop reaches the hole at `h` over slots that are in use, and goes on over such slots.
    fill_one_hole :
        (quantum before i : ℕ) (p : Parent S)
        → length p.slots ≡ children_hardlimit
        → p.children_count ≤ children_hardlimit
        → i + before ≡ h
        → before < quantum
        → i + quantum ≤ p.children_count
        → AreRunning i h p
        → get_elem? p.slots h ≡ some slot
        → os.proc_running p.ext slot.childpid ≡ false
        → os.fork p.ext h ≡ some t
        → AreRunning (suc h) (i + quantum) (refilled h t p)
        → fill_holes os quantum i p ≡ (ok 0, refilled h t p)
    unfolding fill_holes refilled
    fill_one_hole zero before i p size b place l fits up found down forked up' =
        absurd (omega arith)
    fill_one_hole (suc quantum) zero i p size b place l fits up found down forked up' =
        let here : h ≡ i = omega (arith, place) in
        let hit =
          fill_hole_gone i p slot t (subst (λ k. get_elem? p.slots k ≡ some slot) here found) down
            (subst (λ k. os.fork p.ext k ≡ some t) here forked) in
        let again : refilled i t p ≡ refilled h t p = ap (λ k. refilled k t p) (sym here) in
        if-true (ltb i p.children_count) _ _ (lt→ltb i p.children_count (omega (arith, fits)))
        ∙ (bind-known (fill_hole os i) _ p (refilled i t p) (ok tt) hit
            ∙ (ap (fill_holes os quantum (suc i)) again
                ∙ fill_holes_running quantum (suc i) (refilled h t p)
                    (length-set p.slots h zero_slot ∙ size) b (omega (arith, fits))
                    (λ j s low high e. up' j s (omega (arith, place)) (omega arith) e)))
    fill_one_hole (suc quantum) (suc before) i p size b place l fits up found down forked up' =
        let (other, there) = get_elem?-bound p.slots i (omega (arith, fits, size, b)) in
        skip_slot quantum i p other (omega (arith, fits)) there
          (up i other (omega arith) (omega (arith, place)) there)
        ∙ fill_one_hole quantum before (suc i) p size b (omega (arith, place)) (omega arith)
            (omega (arith, fits)) (λ j s low high e. up j s (omega arith) (omega arith) e) found
            down forked (λ j s low high e. up' j s low (omega arith) e)

  -- A pool of 16 slots or more that has lost one child, of one of the first 16 slots: forkChildren
  -- clears that slot, forks a child for it and comes back with a child for every slot.
  pub fork_children_hole_filled :
      (h : ℕ) (t : S) (slot : Slot) (p : Parent S)
      → length p.slots ≡ children_hardlimit
      → p.children_count ≤ children_hardlimit
      → children_quantum ≤ p.children_count
      → p.do_restart ≡ true
      → int_suc p.children_running ≡ pos p.children_count
      → h < children_quantum
      → AreRunning 0 h p
      → get_elem? p.slots h ≡ some slot
      → os.proc_running p.ext slot.childpid ≡ false
      → os.fork p.ext h ≡ some t
      → AreRunning (suc h) children_quantum (refilled h t p)
      → fork_children os p ≡ (ok tt, refilled h t p)
  unfolding fork_children refill refilled assert_counts grow
  fork_children_hole_filled h t slot p size b q d missing l up found down forked up' =
      if-true p.do_restart _ _ d
      ∙ (if-false (int_eq (pos p.children_count) p.children_running) _ _
            (one_less p.children_running p.children_count missing)
          ∙ (bind-known (fill_holes os children_quantum 0) _ p (refilled h t p) (ok 0) (
                fill_one_hole h t slot children_quantum h 0 p size b (omega arith) l q up found down
                  forked up')
              ∙ bind-known (assert_counts os) _ (refilled h t p) (refilled h t p) (ok tt) (
                  assert_counts_passed (refilled h t p) (
                    (int_eq_iff (pos p.children_count) (int_suc p.children_running)).1
                      (sym missing)))))
