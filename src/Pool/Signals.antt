-- ===== src/Pool/Signals.antt =====
-- The signal handlers of the parent.
use smarty_appserver.Prelude.{
  ℕ, zero, suc, ◌<◌, ◌≡◌, ◌∙◌, refl, true, false, Bool, List, [], ◌∷◌, ◌==◌, if◌then◌else◌,
  is_positive, arith, Option-cases, inl, inr,
}
use smarty_appserver.Action.Ends.{Ends, Ends-ok}
use smarty_appserver.Pool.{Slot, Parent, Os, sigchld_handler, kill_busy, sigterm_handler_parent}
use smarty_appserver.Pool.Invariant.{IsPosix, IsWellFormed}

-- No child is left, which is what the main loop waits for to end.
abbrev pub IsOver : {S : Type 0} → (S → ℕ) → Parent S → Type 0
IsOver children p = IsWellFormed children p × (children p.ext ≡ 0)

module _ {S : Type 0} (os : Os S) (children : S → ℕ) (posix : IsPosix os children) where
  -- The handler that the end of one child starts comes back only after all children have ended: with
  -- fuel for the children, it returns with none left and children_running at 0, so that the main
  -- loop is over. No child is replaced.
  pub sigchld_handler_reaps_all :
      (fuel : ℕ) (p : Parent S)
      → IsWellFormed children p
      → children p.ext < fuel
      → Ends
          (λ _ s.
            IsOver children s
            × ((is_positive s.children_running ≡ false)
                × ((s.slots ≡ p.slots) × (s.do_restart ≡ p.do_restart))))
          (λ _. ⊥)
          (sigchld_handler os fuel p)
  unfolding sigchld_handler
  sigchld_handler_reaps_all zero p w h = absurd (omega arith)
  sigchld_handler_reaps_all (suc fuel) p w h = elim (Option-cases (os.waitpid p.ext)) [
    | inl e ↦
        let over : children p.ext ≡ 0 = posix.childless p.ext e in
        rw (e, sigchld_handler)
          (Ends-ok tt p ((w, over), (ground (arith, over, w.counted), (refl, refl))))
    | inr (s, e) ↦
        let one = posix.waited p.ext s e in
        rw (e, sigchld_handler)
          (sigchld_handler_reaps_all fuel _
            (record {
              table = w.table;
              bounded = w.bounded;
              counted = ground (arith, one, w.counted);
            })
            (omega (arith, one)))
  ]

  pub kill_busy-children :
      (slots : List Slot) (s : S) → children (kill_busy os slots s) ≡ children s
  unfolding kill_busy
  kill_busy-children [] s = refl
  kill_busy-children (slot ∷ slots) s = kill_busy-children slots _ ∙ on (slot.slotbusy == 1)
    where
      on : (b : Bool) → children (if b then os.kill s slot.childpid else s) ≡ children s
      on true = posix.killed s slot.childpid
      on false = refl

  pub sigterm_handler_parent-IsWellFormed :
      (p : Parent S) → IsWellFormed children p → IsWellFormed children (sigterm_handler_parent os p)
  unfolding sigterm_handler_parent
  sigterm_handler_parent-IsWellFormed p w = record {
    table = w.table;
    bounded = w.bounded;
    counted = ground (arith, w.counted, kill_busy-children p.slots p.ext);
  }
