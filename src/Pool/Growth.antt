-- ===== src/Pool/Growth.antt =====
-- How the pool of children grows, and where a child that is gone is not replaced.
use mathlib.Core.Path.{subst}
use smarty_appserver.Prelude.{
  ℕ, zero, suc, ◌+◌, ◌*◌, ◌≤◌, ◌<◌, ℤ, pos, ◌≡◌, ◌⊎◌, inl, inr, refl, true, false, some, int_eq,
  if◌then◌else◌, leb, ltb, arith, int_eq_iff,
}
use smarty_appserver.Errors.{ok, exit}
use smarty_appserver.Action.{Action, ◌>>=◌}
use smarty_appserver.Action.Ends.{Ends, Ends-ok, Ends-bind, Ends-if}
use smarty_appserver.Pool.{
  Parent, Os, children_hardlimit, children_quantum, new_parent, fork_child, grow, fork_children,
  need_fork, turn,
}

-- At most the limit.
abbrev pub capped : ℕ → ℕ
capped n = if leb n children_hardlimit then n else children_hardlimit

-- There are `n` children and a slot for each, and the parent has not been told to stop.
pub record IsWhole {S : Type 0} (n : ℕ) (p : Parent S) : Type 0 where
  pub count : p.children_count ≡ n
  pub running : p.children_running ≡ pos n
  pub restarts : p.do_restart ≡ true

-- The state is whole, and there is no other end.
abbrev pub GrowsTo :
    {S : Type 0} → ℕ → smarty_appserver.Errors.Result (Unit {0}) × Parent S → Type 0
GrowsTo n r = Ends (λ _. IsWhole n) (λ _. ⊥) r

-- fork does not fail.
abbrev pub AlwaysForks : {S : Type 0} → Os S → Type 0
AlwaysForks {S} os = (s : S) (i : ℕ) → (t : S) × (os.fork s i ≡ some t)

capped_self : (n : ℕ) → n ≤ children_hardlimit → capped (n + 0) ≡ n
capped_self n h = ground arith

capped_limit :
    (n quantum : ℕ)
    → ltb n children_hardlimit ≡ false
    → n ≤ children_hardlimit
    → capped (n + suc quantum) ≡ n
capped_limit n quantum l h = ground arith

capped_again :
    (n rounds : ℕ)
    → capped (n + children_quantum * suc rounds)
      ≡ capped (capped (n + children_quantum) + children_quantum * rounds)
capped_again n rounds = ground arith

capped_start :
    (rounds : ℕ) → capped (children_quantum * suc rounds) ≡ capped (16 + children_quantum * rounds)
capped_start rounds = ground arith

int_eq_refl : (a : ℤ) → int_eq a a ≡ true
int_eq_refl a = (int_eq_iff a a).1 refl

add_suc : (n m : ℕ) → n + suc m ≡ suc n + m
add_suc n m = omega arith

module _ {S : Type 0} (os : Os S) where
  -- The count has been raised before the fork.
  fork_child-GrowsTo :
      (forks : AlwaysForks os) (i n : ℕ) (p : Parent S)
      → p.children_count ≡ suc n
      → p.children_running ≡ pos n
      → p.do_restart ≡ true
      → GrowsTo (suc n) (fork_child os i p)
  unfolding fork_child
  fork_child-GrowsTo forks i n p c r d =
      let (t, e) = forks p.ext i in
      rw (e, fork_child)
        (Ends-ok tt _ (record { count = c; running = ground (arith, r); restarts = d }))

  grow-GrowsTo :
      (forks : AlwaysForks os) (quantum n : ℕ) (p : Parent S)
      → n ≤ children_hardlimit
      → IsWhole n p
      → GrowsTo (capped (n + quantum)) (grow os quantum p)
  unfolding grow
  grow-GrowsTo forks zero n p h w = rw (capped_self n h) (Ends-ok tt p w)
  grow-GrowsTo forks (suc quantum) n p h w =
      Ends-if (ltb p.children_count children_hardlimit) _ _
        (λ l.
          Ends-bind _ _ _
            (fork_child-GrowsTo forks p.children_count n _ (ground (arith, w.count)) w.running
              w.restarts)
            (λ u s k.
              rw (add_suc n quantum)
                (grow-GrowsTo forks quantum (suc n) s (ground (arith, w.count)) k)))
        (λ l. rw (capped_limit n quantum (ground (arith, w.count)) h) (Ends-ok tt p w))

  -- What happens between two turns: `between n` before turn `n`.
  unfoldable pub turns : (ℕ → Parent S → Parent S) → ℕ → Action (Parent S) (Unit {0})
  turns between zero p = (ok tt, p)
  turns between (suc n) p = (turn os >>= λ _. turns between n) (between n p)

  fork_children-GrowsTo :
      (forks : AlwaysForks os) (n : ℕ) (p : Parent S)
      → n ≤ children_hardlimit
      → IsWhole n p
      → GrowsTo (capped (n + children_quantum)) (fork_children os p)
  unfolding fork_children
  fork_children-GrowsTo forks n p h w =
      Ends-if p.do_restart _ _
        (λ _.
          Ends-if (int_eq (pos p.children_count) p.children_running) _ _
            (λ _. grow-GrowsTo forks children_quantum n p h w)
            (λ e. absurd (ground (arith, e, w.count, w.running, int_eq_refl (pos n)))))
        (λ e. absurd (ground (arith, w.restarts)))

  -- A turn that finds the children busy, or the pool at its limit.
  turn-GrowsTo :
      (forks : AlwaysForks os) (n : ℕ) (p : Parent S)
      → n ≤ children_hardlimit
      → IsWhole n p
      → (n ≡ children_hardlimit) ⊎ (need_fork os p ≡ true)
      → GrowsTo (capped (n + children_quantum)) (turn os p)
  unfolding turn
  turn-GrowsTo forks n p h w d =
      Ends-if (need_fork os p) _ _ (λ _. fork_children-GrowsTo forks n p h w)
        (λ e. Ends-ok tt p (subst (λ m. IsWhole m p) (full d e) w))
    where
      full :
          (n ≡ children_hardlimit) ⊎ (need_fork os p ≡ true)
          → need_fork os p ≡ false
          → n ≡ capped (n + children_quantum)
      full (inl at_limit) e = ground arith
      full (inr demand) e = absurd (ground arith)

  -- What happens between the turns leaves the pool whole and finds the children busy, or the pool at
  -- its limit.
  pub record IsDemanding (between : ℕ → Parent S → Parent S) : Type 0 where
    pub whole : (i n : ℕ) (p : Parent S) → IsWhole n p → IsWhole n (between i p)
    pub busy :
        (i n : ℕ) (p : Parent S)
        → 0 < n
        → n ≤ children_hardlimit
        → IsWhole n p
        → (n ≡ children_hardlimit) ⊎ (need_fork os (between i p) ≡ true)

  turns-GrowsTo :
      (forks : AlwaysForks os) (between : ℕ → Parent S → Parent S) (demand : IsDemanding between)
      (rounds n : ℕ) (p : Parent S)
      → 0 < n
      → n ≤ children_hardlimit
      → IsWhole n p
      → GrowsTo (capped (n + children_quantum * rounds)) (turns between rounds p)
  unfolding turns
  turns-GrowsTo forks between demand zero n p l h w = rw (capped_self n h) (Ends-ok tt p w)
  turns-GrowsTo forks between demand (suc rounds) n p l h w =
      Ends-bind _ _ _
        (turn-GrowsTo forks n (between rounds p) h (demand.whole rounds n p w)
          (demand.busy rounds n p l h w))
        (λ u s k. rw (capped_again n rounds) (
          turns-GrowsTo forks between demand rounds (capped (n + children_quantum)) s (ground arith)
            (ground arith) k))

  -- Where fork does not fail, no child is lost and every turn of the main loop finds the children
  -- busy: the parent starts with 16 children and has 16 more after each turn, up to the limit of
  -- 1024, without an end in between.
  pub pool_grows :
      (forks : AlwaysForks os) (between : ℕ → Parent S → Parent S)
      → IsDemanding between
      → (rounds : ℕ) (s : S)
      → GrowsTo
          (capped (children_quantum * suc rounds))
          ((fork_children os >>= λ _. turns between rounds) (new_parent s))
  pool_grows forks between demand rounds s =
      Ends-bind _ _ _
        (fork_children-GrowsTo forks 0 (new_parent s) (omega arith)
          (record { count = refl; running = refl; restarts = refl }))
        (λ u p w.
          rw (capped_start rounds)
            (turns-GrowsTo forks between demand rounds 16 p (omega arith) (omega arith) w))
