-- ===== src/Pool/Interrupts/Counted.antt =====
-- The counts at every statement of forkChildren, with interrupts.
use mathlib.Core.Path.{subst}
use smarty_appserver.Prelude.{
  ℕ, zero, suc, ◌≤◌, ◌<◌, ℤ, pos, negsuc, ◌≡◌, ◌∙◌, refl, sym, ap, int_suc, int_pred, Bool, true,
  false, if◌then◌else◌, Bool-cases, Option-cases, inl, inr, length, ltb, ltb→lt, int_eq, arith,
}
use smarty_appserver.Action.Ends.{Ends, Ends-ok, Ends-exit, Ends-if, Ends-at}
use smarty_appserver.Pool.{
  Parent, Os, children_hardlimit, zero_slot, sigchld_handler, sigterm_handler_parent,
  sighup_handler_parent,
}
use smarty_appserver.Pool.Invariant.{IsPosix, IsWellFormed, length-set, get_elem?-bound}
use smarty_appserver.Pool.Signals.{kill_busy-children}
use smarty_appserver.Pool.Interrupts.{
  Point, Caller, hole, growth, entering, comparing, filling, checking, forking, counting, asserting,
  growing, done, advance, fork_first, check_slot, Interrupt, child_ended, hang_up, terminate,
  elsewhere, Runs, start, statement, interrupt,
}

-- children_running, with the child that has been forked and not counted yet.
abbrev pub with_pending : Point → ℤ → ℤ
with_pending (counting k) running = int_suc running
with_pending _ running = running

-- The slot at hand lies below children_count.
abbrev pub IsPlaced : Point → ℕ → Type 0
IsPlaced (checking quantum i) count = i < count
IsPlaced (forking i k) count = i < count
IsPlaced _ count = Unit

pub record IsCounted {S : Type 0} (children : S → ℕ) (pc : Point) (p : Parent S) : Type 0 where
  pub table : length p.slots ≡ children_hardlimit
  pub bounded : p.children_count ≤ children_hardlimit
  pub counted : with_pending pc p.children_running ≡ pos (children p.ext)
  pub placed : IsPlaced pc p.children_count

with_pending-int_pred :
    (pc : Point) (running : ℤ) (n : ℕ)
    → with_pending pc running ≡ pos (suc n)
    → with_pending pc (int_pred running) ≡ pos n
with_pending-int_pred (counting k) running n e = suc_pred running n e
  where
    suc_pred :
        (running : ℤ) (n : ℕ) → int_suc running ≡ pos (suc n) → int_suc (int_pred running) ≡ pos n
    suc_pred (pos zero) n e = ground arith
    suc_pred (pos (suc a)) n e = ground arith
    suc_pred (negsuc zero) n e = absurd (ground arith)
    suc_pred (negsuc (suc a)) n e = absurd (ground arith)
with_pending-int_pred _ running n e = rw e refl

module _ {S : Type 0} (os : Os S) (children : S → ℕ) (posix : IsPosix os children) where
  -- The handler, at any statement.
  pub sigchld_handler-IsCounted :
      (pc : Point) (fuel : ℕ) (p : Parent S)
      → IsCounted children pc p
      → children p.ext < fuel
      → Ends
          (λ _ s.
            IsCounted children pc s × (children s.ext ≡ 0) × (s.children_count ≡ p.children_count))
          (λ _. ⊥)
          (sigchld_handler os fuel p)
  unfolding sigchld_handler
  sigchld_handler-IsCounted pc zero p w h = absurd (omega arith)
  sigchld_handler-IsCounted pc (suc fuel) p w h = elim (Option-cases (os.waitpid p.ext)) [
    | inl e ↦ rw (e, sigchld_handler) (Ends-ok tt p (w, posix.childless p.ext e, refl))
    | inr (s, e) ↦
        let one = posix.waited p.ext s e in
        rw (e, sigchld_handler)
          (sigchld_handler-IsCounted pc fuel _
            (record {
              table = w.table;
              bounded = w.bounded;
              counted =
                  with_pending-int_pred pc p.children_running (children s) (w.counted ∙ ap pos one);
              placed = w.placed;
            })
            (omega (arith, one)))
  ]

  Interrupt-IsCounted :
      (pc : Point) {p q : Parent S}
      → Interrupt os children p q
      → IsCounted children pc p
      → IsCounted children pc q
  unfolding sighup_handler_parent sigterm_handler_parent
  Interrupt-IsCounted pc {p} {q} (child_ended fuel h e) w =
      (Ends-at (sigchld_handler os fuel p) tt q e (sigchld_handler-IsCounted pc fuel p w h)).0
  Interrupt-IsCounted pc (hang_up e) w =
      subst (IsCounted children pc) (sym e)
        (record { table = w.table; bounded = w.bounded; counted = w.counted; placed = w.placed })
  Interrupt-IsCounted pc {p} (terminate e) w = subst (IsCounted children pc) (sym e) (record {
    table = w.table;
    bounded = w.bounded;
    counted = w.counted ∙ ap pos (sym (kill_busy-children os children posix p.slots p.ext));
    placed = w.placed;
  })
  Interrupt-IsCounted pc (elsewhere slots s size same e) w =
      subst (IsCounted children pc) (sym e) (record {
        table = size ∙ w.table;
        bounded = w.bounded;
        counted = w.counted ∙ ap pos (sym same);
        placed = w.placed;
      })

  -- The state does not change.
  moved :
      (pc pc' : Point) (p : Parent S)
      → (with_pending pc' p.children_running ≡ with_pending pc p.children_running)
      → IsPlaced pc' p.children_count
      → IsCounted children pc p
      → IsCounted children pc' p
  moved pc pc' p same placed w = record {
    table = w.table;
    bounded = w.bounded;
    counted = same ∙ w.counted;
    placed = placed;
  }

  either :
      {pc pc' : Point} {p : Parent S} (b : Bool)
      → IsCounted children pc p
      → IsCounted children pc' p
      → IsCounted children (if b then pc else pc') p
  either true w w' = w
  either false w w' = w'

  -- What a statement leaves, if it comes back and if it ends the process.
  abbrev pub Advances : Point → Parent S → Type 0
  Advances pc p = Ends (λ pc' q. IsCounted children pc' q) (IsCounted children pc) (advance os pc p)

  advance-forking :
      (i : ℕ) (k : Caller) (p : Parent S)
      → IsCounted children (forking i k) p
      → Advances (forking i k) p
  unfolding advance
  advance-forking i k p w = elim (Option-cases (os.fork p.ext i)) [
    | inl e ↦ rw (e, fork_first) (Ends-exit p w)
    | inr (s, e) ↦
        let one = posix.forked p.ext s i e in
        rw (e, fork_first)
          (Ends-ok (counting k) _ (record {
            table = w.table;
            bounded = w.bounded;
            counted = ground (arith, one, w.counted);
            placed = tt;
          }))
  ]

  advance-checking :
      (quantum i : ℕ) (p : Parent S)
      → IsCounted children (checking quantum i) p
      → Advances (checking quantum i) p
  unfolding advance
  advance-checking quantum i p w =
      let (slot, found) = get_elem?-bound p.slots i (omega (arith, w.table, w.bounded, w.placed)) in
      rw (found, check_slot)
        (Ends-if (os.proc_running p.ext slot.childpid) _ _
          (λ _. Ends-ok _ p (moved _ _ p refl tt w))
          (λ _. Ends-ok _ _ (record {
            table = length-set p.slots i zero_slot ∙ w.table;
            bounded = w.bounded;
            counted = w.counted;
            placed = w.placed;
          })))

  advance-IsCounted : (pc : Point) (p : Parent S) → IsCounted children pc p → Advances pc p
  unfolding advance
  advance-IsCounted entering p w =
      Ends-ok _ p (either p.do_restart (moved _ _ p refl tt w) (moved _ _ p refl tt w))
  advance-IsCounted comparing p w = Ends-ok _ p (
      either (int_eq (pos p.children_count) p.children_running) (moved _ _ p refl tt w)
        (moved _ _ p refl tt w))
  advance-IsCounted (filling zero i) p w = Ends-ok _ p (moved _ _ p refl tt w)
  advance-IsCounted (filling (suc quantum) i) p w = elim (Bool-cases (ltb i p.children_count)) [
    | inl l ↦ rw l (Ends-ok _ p (moved _ _ p refl (ltb→lt i p.children_count l) w))
    | inr l ↦ rw l (Ends-ok _ p (moved _ _ p refl tt w))
  ]
  advance-IsCounted (checking quantum i) p w = advance-checking quantum i p w
  advance-IsCounted (forking i k) p w = advance-forking i k p w
  advance-IsCounted (counting (hole quantum i)) p w =
      Ends-ok _ _
        (record { table = w.table; bounded = w.bounded; counted = w.counted; placed = tt })
  advance-IsCounted (counting (growth quantum)) p w =
      Ends-ok _ _
        (record { table = w.table; bounded = w.bounded; counted = w.counted; placed = tt })
  advance-IsCounted (asserting quantum) p w =
      Ends-if (int_eq (pos p.children_count) p.children_running) _ _
        (λ _. Ends-ok _ p (moved _ _ p refl tt w)) (λ _. Ends-exit p w)
  advance-IsCounted (growing zero) p w = Ends-ok _ p (moved _ _ p refl tt w)
  advance-IsCounted (growing (suc quantum)) p w =
      Ends-if (ltb p.children_count children_hardlimit) _ _
        (λ l. Ends-ok _ _ (record {
          table = w.table;
          bounded = omega (arith, ltb→lt p.children_count children_hardlimit l);
          counted = w.counted;
          placed = omega arith;
        }))
        (λ _. Ends-ok _ p (moved _ _ p refl tt w))
  advance-IsCounted done p w = Ends-ok done p w

  -- From a parent whose table has its size, whose children_count keeps to the limit and whose
  -- children_running is the number of its children: wherever handlers of the parent run between the
  -- statements of one forkChildren, and whatever children write there, children_running stays the
  -- number of children at every statement (with the one that has just been forked), the count keeps to
  -- the limit, and the next statement is in order or ends the process: no slot outside the table.
  pub Runs-IsCounted :
      {p q : Parent S} {pc : Point}
      → Runs os children p pc q
      → IsWellFormed children p
      → IsCounted children pc q × Advances pc q
  Runs-IsCounted {p} {q} {pc} r w = let c = counted_at r in (c, advance-IsCounted pc q c)
    where
      counted_at : {q : Parent S} {pc : Point} → Runs os children p pc q → IsCounted children pc q
      counted_at start = record {
        table = w.table;
        bounded = w.bounded;
        counted = w.counted;
        placed = tt;
      }
      counted_at (statement {pc} {pc'} {q} {r} before e) =
          Ends-at (advance os pc q) pc' r e (advance-IsCounted pc q (counted_at before))
      counted_at (interrupt {pc} before i) = Interrupt-IsCounted pc i (counted_at before)
