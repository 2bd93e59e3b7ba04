-- ===== src/Pool/Interrupts/Replay.antt =====
-- Without an interrupt the statements do what forkChildren does.
use smarty_appserver.Prelude.{
  ℕ, zero, suc, ◌+◌, ◌*◌, ◌≤◌, ◌<◌, pos, ◌≡◌, ◌∙◌, refl, sym, ap, if◌then◌else◌, Bool-cases,
  Option-cases, inl, inr, get_elem?, set, ltb, int_eq, if-true, if-false, arith,
}
use smarty_appserver.Errors.{ok}
use smarty_appserver.Action.{Action, ◌>>=◌, bind-cong, bind_assoc}
use smarty_appserver.Pool.{
  Parent, Os, children_hardlimit, children_quantum, zero_slot, fork_child, fill_hole, fill_holes,
  assert_counts, grow, refill, fork_children,
}
use smarty_appserver.Pool.Interrupts.{
  Caller, hole, growth, entering, comparing, filling, checking, forking, asserting, growing, done,
  resume, fork_first, check_slot, advance, run_from,
}

module _ {S : Type 0} (os : Os S) where
  forked :
      (fuel num : ℕ) (k : Caller) (p : Parent S)
      → run_from os (suc (suc fuel)) (forking num k) p
        ≡ (fork_child os num >>= λ _. run_from os fuel (resume k)) p
  unfolding run_from advance ◌>>=◌ fork_child
  forked fuel num k p = elim (Option-cases (os.fork p.ext num)) [
    | inl e ↦ rw (e, fork_first, fork_child) refl
    | inr (s, e) ↦ rw (e, fork_first, fork_child) refl
  ]

  run_from-done : (fuel : ℕ) (p : Parent S) → run_from os fuel done p ≡ (ok tt, p)
  unfolding run_from advance ◌>>=◌
  run_from-done zero p = refl
  run_from-done (suc fuel) p = run_from-done fuel p

  run_from-growing :
      (quantum fuel : ℕ) (p : Parent S)
      → 3 * quantum < fuel
      → run_from os fuel (growing quantum) p ≡ grow os quantum p
  unfolding run_from advance ◌>>=◌ grow
  run_from-growing quantum zero p h = absurd (omega arith)
  run_from-growing zero (suc fuel) p h = run_from-done fuel p
  run_from-growing (suc quantum) (suc zero) p h = absurd (omega arith)
  run_from-growing (suc quantum) (suc (suc zero)) p h = absurd (omega arith)
  run_from-growing (suc quantum) (suc (suc (suc fuel))) p h =
      elim (Bool-cases (ltb p.children_count children_hardlimit)) [
        | inl l ↦ rw l (
            forked fuel p.children_count (growth quantum)
              (record p { children_count = suc p.children_count })
            ∙ bind-cong (fork_child os p.children_count) _ _ _
                (λ u t. run_from-growing quantum fuel t (omega arith)))
        | inr l ↦ rw l (run_from-done (suc (suc fuel)) p)
      ]

  run_from-asserting :
      (quantum fuel : ℕ) (p : Parent S)
      → 3 * quantum + 1 < fuel
      → run_from os fuel (asserting quantum) p ≡ (assert_counts os >>= λ _. grow os quantum) p
  unfolding run_from advance ◌>>=◌ assert_counts
  run_from-asserting quantum zero p h = absurd (omega arith)
  run_from-asserting quantum (suc fuel) p h =
      elim (Bool-cases (int_eq (pos p.children_count) p.children_running)) [
        | inl l ↦ rw l (run_from-growing quantum fuel p (omega arith))
        | inr l ↦ rw l refl
      ]

  -- The rest of forkChildren after the loop over the holes.
  abbrev pub after_holes : ℕ → Action (Parent S) (Unit {0})
  after_holes quantum = assert_counts os >>= λ _. grow os quantum

  run_from-checking :
      (quantum i fuel : ℕ) (p : Parent S)
      → 4 * quantum + 6 ≤ fuel
      → ((fuel : ℕ) (p : Parent S)
          → 4 * quantum + 3 ≤ fuel
          → run_from os fuel (filling quantum (suc i)) p
            ≡ (fill_holes os quantum (suc i) >>= after_holes) p)
      → run_from os fuel (checking quantum i) p
        ≡ (fill_hole os i >>= λ _. fill_holes os quantum (suc i) >>= after_holes) p
  unfolding run_from advance ◌>>=◌ fill_hole
  run_from-checking quantum i zero p h again = absurd (omega arith)
  run_from-checking quantum i (suc zero) p h again = absurd (omega arith)
  run_from-checking quantum i (suc (suc zero)) p h again = absurd (omega arith)
  run_from-checking quantum i (suc (suc (suc fuel))) p h again =
      elim (Option-cases (get_elem? p.slots i)) [
        | inl e ↦ rw (e, check_slot, fill_hole) refl
        | inr (slot, e) ↦ elim (Bool-cases (os.proc_running p.ext slot.childpid)) [
          | inl up ↦ rw (e, check_slot, fill_hole, up) (again (suc (suc fuel)) p (omega arith))
          | inr down ↦
              rw (e, check_slot, fill_hole, down)
                (forked fuel i (hole quantum i) (record p { slots = set p.slots i zero_slot })
                  ∙ bind-cong (fork_child os i) _ _ _ (λ u t. again fuel t (omega arith)))
        ]
      ]

  pub run_from-filling :
      (quantum i fuel : ℕ) (p : Parent S)
      → 4 * quantum + 3 ≤ fuel
      → run_from os fuel (filling quantum i) p ≡ (fill_holes os quantum i >>= after_holes) p
  unfolding run_from advance ◌>>=◌ fill_holes
  run_from-filling quantum i zero p h = absurd (omega arith)
  run_from-filling zero i (suc fuel) p h = run_from-asserting 0 fuel p (omega arith)
  run_from-filling (suc quantum) i (suc fuel) p h = elim (Bool-cases (ltb i p.children_count)) [
    | inl l ↦ rw l (
        run_from-checking quantum i fuel p (omega arith)
          (λ f q l'. run_from-filling quantum (suc i) f q l')
        ∙ sym (bind_assoc (fill_hole os i) (λ _. fill_holes os quantum (suc i)) after_holes p))
    | inr l ↦ rw l (run_from-asserting (suc quantum) fuel p (omega arith))
  ]

  -- What forkChildren does after its first test.
  abbrev from_compare : Action (Parent S) (Unit {0})
  from_compare p =
      if int_eq (pos p.children_count) p.children_running
      then grow os children_quantum p
      else refill os p

  run_from-comparing :
      (fuel : ℕ) (p : Parent S) → 68 ≤ fuel → run_from os fuel comparing p ≡ from_compare p
  unfolding run_from advance ◌>>=◌ refill
  run_from-comparing zero p h = absurd (omega arith)
  run_from-comparing (suc fuel) p h =
      elim (Bool-cases (int_eq (pos p.children_count) p.children_running)) [
        | inl same ↦ rw same (run_from-growing children_quantum fuel p (omega arith))
        | inr differ ↦ rw differ (run_from-filling children_quantum 0 fuel p (omega arith))
      ]

  -- 69 statements are enough for forkChildren without an interrupt, and they do what it does as a
  -- whole: the same result, an end of the process included, and the same state.
  pub run_from-entering :
      (fuel : ℕ) (p : Parent S) → 69 ≤ fuel → run_from os fuel entering p ≡ fork_children os p
  unfolding run_from advance ◌>>=◌ fork_children
  run_from-entering zero p h = absurd (omega arith)
  run_from-entering (suc fuel) p h = elim (Bool-cases p.do_restart) [
    | inl on ↦
        ap (λ pc. run_from os fuel pc p) (if-true p.do_restart _ _ on)
        ∙ (run_from-comparing fuel p (omega arith) ∙ sym (if-true p.do_restart _ _ on))
    | inr off ↦
        ap (λ pc. run_from os fuel pc p) (if-false p.do_restart _ _ off)
        ∙ (run_from-done fuel p ∙ sym (if-false p.do_restart _ _ off))
  ]
