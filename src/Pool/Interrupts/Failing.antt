-- ===== src/Pool/Interrupts/Failing.antt =====
-- A child that ends while forkChildren fills holes.
use smarty_appserver.Prelude.{
  ℕ, zero, suc, ◌+◌, ◌*◌, ◌≤◌, ◌<◌, pos, ◌≡◌, ◌∙◌, refl, ap, Bool-cases, Option-cases, inl, inr,
  false, ltb, ltb→lt, int_eq, arith,
}
use smarty_appserver.Errors.{Result, ok, throw, exit, undefined, out_of_fuel}
use smarty_appserver.Action.{Action, ◌>>=◌, continue}
use smarty_appserver.Action.Ends.{Ends-returned, bind-known}
use smarty_appserver.Pool.{
  Parent, Os, zero_slot, fork_child, fill_hole, fill_holes, assert_counts, sigchld_handler,
}
use smarty_appserver.Pool.Invariant.{IsPosix, IsWellFormed, length-set, get_elem?-bound}
use smarty_appserver.Pool.Interrupts.{filling, run_from}
use smarty_appserver.Pool.Interrupts.Replay.{run_from-filling}
use smarty_appserver.Pool.Interrupts.Counted.{IsCounted, sigchld_handler-IsCounted}

abbrev ExitsAt : {S A : Type 0} → (A → S → Type 0) → Result A → S → Type 0
ExitsAt Q (ok a) s = Q a s
ExitsAt Q exit s = Unit
ExitsAt Q _ s = ⊥

-- The end of the process, or `Q` of the value and the state.
record ExitsOr {S A : Type 0} (Q : A → S → Type 0) (r : Result A × S) : Type 0 where
  at : ExitsAt Q r.0 r.1

ExitsOr-bind :
    {S A B : Type 0} {Q : A → S → Type 0} {R : B → S → Type 0} (m : Action S A) (f : A → Action S B)
    (s : S)
    → ExitsOr Q (m s)
    → ((a : A) (t : S) → Q a t → ExitsOr R (f a t))
    → ExitsOr R ((m >>= f) s)
unfolding ◌>>=◌
ExitsOr-bind {S} {A} {B} {Q} {R} m f s h k = go (m s).0 (m s).1 h.at
  where
    go : (r : Result A) (t : S) → ExitsAt Q r t → ExitsOr R (continue r f t)
    go (ok a) t q = k a t q
    go (throw e) t q = absurd q
    go exit t q = record { at = tt }
    go undefined t q = absurd q
    go out_of_fuel t q = absurd q

only_exits : {S A : Type 0} (r : Result A × S) → ExitsOr (λ a s. ⊥) r → r.0 ≡ exit
only_exits (ok a, s) h = absurd h.at
only_exits (throw e, s) h = absurd h.at
only_exits (exit, s) h = refl
only_exits (undefined, s) h = absurd h.at
only_exits (out_of_fuel, s) h = absurd h.at

module _ {S : Type 0} (os : Os S) (children : S → ℕ) (posix : IsPosix os children) where
  -- There are fewer children than slots that the loop has passed.
  record Lags (i count : ℕ) (p : Parent S) : Type 0 where
    form : IsWellFormed children p
    kept : p.children_count ≡ count
    behind : children p.ext < i

  fork_child-Lags :
      (num i count : ℕ) (p : Parent S)
      → Lags i count p
      → ExitsOr (λ _. Lags (suc i) count) (fork_child os num p)
  unfolding fork_child
  fork_child-Lags num i count p l = elim (Option-cases (os.fork p.ext num)) [
    | inl e ↦ rw (e, fork_child) (record { at = tt })
    | inr (s, e) ↦
        let one = posix.forked p.ext s num e in
        rw (e, fork_child)
          (record {
            at = record {
              form = record {
                table = l.form.table;
                bounded = l.form.bounded;
                counted = ground (arith, l.form.counted, one);
              };
              kept = l.kept;
              behind = omega (arith, one, l.behind);
            };
          })
  ]

  fill_hole-Lags :
      (i count : ℕ) (p : Parent S)
      → i < count
      → Lags i count p
      → ExitsOr (λ _. Lags (suc i) count) (fill_hole os i p)
  unfolding fill_hole
  fill_hole-Lags i count p h l =
      let (slot, found) =
        get_elem?-bound p.slots i (omega (arith, l.form.table, l.form.bounded, l.kept)) in
      rw (found, fill_hole)
        (elim (Bool-cases (os.proc_running p.ext slot.childpid)) [
          | inl up ↦ rw up (record {
            at = record { form = l.form; kept = l.kept; behind = omega (arith, l.behind) };
          })
          | inr down ↦ rw down (
              fork_child-Lags i i count _ (record {
                form = record {
                  table = length-set p.slots i zero_slot ∙ l.form.table;
                  bounded = l.form.bounded;
                  counted = l.form.counted;
                };
                kept = l.kept;
                behind = l.behind;
              }))
        ])

  fill_holes-Lags :
      (quantum i count : ℕ) (p : Parent S)
      → i ≤ count
      → Lags i count p
      → ExitsOr (λ _. Lags count count) (fill_holes os quantum i p)
  unfolding fill_holes
  fill_holes-Lags zero i count p h l = record {
    at = record { form = l.form; kept = l.kept; behind = omega (arith, l.behind) };
  }
  fill_holes-Lags (suc quantum) i count p h l = elim (Bool-cases (ltb i p.children_count)) [
    | inl inside ↦
        let below : i < count = omega (arith, ltb→lt i p.children_count inside, l.kept) in
        rw inside (
          ExitsOr-bind (fill_hole os i) _ p (fill_hole-Lags i count p below l)
            (λ _ s l'. fill_holes-Lags quantum (suc i) count s (omega arith) l'))
    | inr past ↦
        rw past (record {
          at = record { form = l.form; kept = l.kept; behind = omega (arith, l.behind) };
        })
  ]

  assert_counts-Lags :
      (count : ℕ) (p : Parent S) → Lags count count p → ExitsOr (λ _ _. ⊥) (assert_counts os p)
  unfolding assert_counts
  assert_counts-Lags count p l =
      let differ : int_eq (pos p.children_count) p.children_running ≡ false =
        ground (arith, l.form.counted, l.behind, l.kept) in
      rw differ (record { at = tt })

  -- SIGCHLD while the loop of forkChildren over the holes has passed a slot: its handler waits for all
  -- children, which the loop does not see, since it does not come back to the slots before. So there
  -- are fewer children than slots at the assertion, whatever else fork does, and the parent ends.
  pub sigchld_among_holes :
      (fuel fuel' quantum i : ℕ) (p : Parent S)
      → IsCounted children (filling quantum (suc i)) p
      → suc i ≤ p.children_count
      → children p.ext < fuel
      → 4 * quantum + 3 ≤ fuel'
      → ((sigchld_handler os fuel >>= λ _. run_from os fuel' (filling quantum (suc i))) p).0 ≡ exit
  sigchld_among_holes fuel fuel' quantum i p w h f f' =
      let (u, s, returned, (counted, none_left, kept)) =
        Ends-returned _
          (sigchld_handler-IsCounted os children posix (filling quantum (suc i)) fuel p w f) in
      let lags : Lags (suc i) s.children_count s = record {
        form = record {
          table = counted.table;
          bounded = counted.bounded;
          counted = counted.counted;
        };
        kept = refl;
        behind = omega (arith, none_left);
      } in
      ap (λ r. r.0)
        (bind-known (sigchld_handler os fuel) _ p s (ok tt) returned
          ∙ run_from-filling os quantum (suc i) fuel' s f')
      ∙ only_exits _ (
          ExitsOr-bind (fill_holes os quantum (suc i)) _ s
            (fill_holes-Lags quantum (suc i) s.children_count s (omega (arith, kept)) lags)
            (λ q t l.
              ExitsOr-bind (assert_counts os) _ t (assert_counts-Lags s.children_count t l)
                (λ _ _ no. absurd no)))
