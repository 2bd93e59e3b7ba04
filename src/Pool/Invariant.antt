-- ===== src/Pool/Invariant.antt =====
-- What holds of the parent between two steps.
use smarty_appserver.Prelude.{
  ℕ, zero, suc, ◌+◌, ◌≤◌, ◌<◌, pos, ◌≡◌, ◌∙◌, refl, none, some, List, [], ◌∷◌, length, get_elem?,
  set, ltb, ltb→lt, int_eq, arith, Option-cases, inl, inr,
}
use smarty_appserver.Action.{Action, ◌>>=◌}
use smarty_appserver.Action.Ends.{Ends, Keeps, Ends-ok, Ends-exit, Ends-mono, Ends-bind, Ends-if}
use smarty_appserver.Pool.{
  Parent, Os, children_hardlimit, children_quantum, zero_slot, fork_child, fill_hole, fill_holes,
  assert_counts, grow, refill, fork_children,
}

-- `children` counts the processes that fork has made and waitpid has not reported.
pub record IsPosix {S : Type 0} (os : Os S) (children : S → ℕ) : Type 0 where
  pub forked : (s t : S) (i : ℕ) → os.fork s i ≡ some t → children t ≡ suc (children s)
  pub waited : (s t : S) → os.waitpid s ≡ some t → children s ≡ suc (children t)
  pub childless : (s : S) → os.waitpid s ≡ none → children s ≡ 0
  pub killed : (s : S) (pid : ℕ) → children (os.kill s pid) ≡ children s

-- The table has its size, the count keeps to the limit, and children_running is the number of
-- children.
pub record IsWellFormed {S : Type 0} (children : S → ℕ) (p : Parent S) : Type 0 where
  pub table : length p.slots ≡ children_hardlimit
  pub bounded : p.children_count ≤ children_hardlimit
  pub counted : p.children_running ≡ pos (children p.ext)

pub length-set {ℓ} : {A : Type ℓ} (xs : List A) (i : ℕ) (v : A) → length (set xs i v) ≡ length xs
length-set [] i v = refl
length-set (x ∷ xs) zero v = refl
length-set (x ∷ xs) (suc i) v = ground (arith, length-set xs i v)

pub get_elem?-bound {ℓ} :
    {A : Type ℓ} (xs : List A) (i : ℕ) → i < length xs → (a : A) × (get_elem? xs i ≡ some a)
get_elem?-bound [] i h = absurd (omega arith)
get_elem?-bound (x ∷ xs) zero h = (x, refl)
get_elem?-bound (x ∷ xs) (suc i) h = get_elem?-bound xs i (omega arith)

-- The parent has at most `n` children.
abbrev pub HasAtMost : {S : Type 0} → (S → ℕ) → ℕ → Parent S → Type 0
HasAtMost children n p = IsWellFormed children p × (children p.ext ≤ n)

module _ {S : Type 0} (os : Os S) (children : S → ℕ) (posix : IsPosix os children) where
  fork_child-Keeps :
      (num n : ℕ) (p : Parent S)
      → IsWellFormed children p
      → children p.ext < n
      → Keeps (HasAtMost children n) (fork_child os num p)
  unfolding fork_child
  fork_child-Keeps num n p w h = elim (Option-cases (os.fork p.ext num)) [
    | inl e ↦ rw (e, fork_child) (Ends-exit p (w, omega arith))
    | inr (s, e) ↦
        rw (e, fork_child)
          (Ends-ok tt _ (
            record {
              table = w.table;
              bounded = w.bounded;
              counted = ground (arith, w.counted, posix.forked p.ext s num e);
            },
            omega (arith, posix.forked p.ext s num e),
          ))
  ]

  fill_hole-Keeps :
      (i n : ℕ) (p : Parent S)
      → IsWellFormed children p
      → i < p.children_count
      → children p.ext < n
      → Keeps (HasAtMost children n) (fill_hole os i p)
  unfolding fill_hole
  fill_hole-Keeps i n p w l h =
      let (slot, found) = get_elem?-bound p.slots i (omega (arith, w.table, w.bounded)) in
      rw (found, fill_hole)
        (Ends-if (os.proc_running p.ext slot.childpid) _ _ (λ _. Ends-ok tt p (w, omega arith))
          (λ _.
            fork_child-Keeps i n _
              (record {
                table = length-set p.slots i zero_slot ∙ w.table;
                bounded = w.bounded;
                counted = w.counted;
              })
              h))

  -- The quantum that is left pays for the forks that are still to come.
  abbrev PaysFor : ℕ → ℕ → Parent S → Type 0
  PaysFor n quantum p = IsWellFormed children p × (children p.ext + quantum ≤ n)

  -- One fork or none, then the rest.
  then_rest :
      {A : Type 0} (quantum n : ℕ) (p : Parent S) (m : Action (Parent S) (Unit {0}))
      (f : Unit {0} → Action (Parent S) A) (Q : A → Parent S → Type 0)
      → children p.ext + suc quantum ≤ n
      → Keeps (HasAtMost children (suc (children p.ext))) (m p)
      → ((s : Parent S) → PaysFor n quantum s → Ends Q (HasAtMost children n) (f tt s))
      → Ends Q (HasAtMost children n) ((m >>= f) p)
  then_rest {A} quantum n p m f Q h k r =
      Ends-bind m f p
        (Ends-mono {R = λ a s. PaysFor n quantum s} (m p) (λ a s q. (q.0, omega (arith, q.1)))
          (λ s q. (q.0, omega (arith, q.1))) k)
        (λ u s q. r s q)

  fill_holes-Ends :
      (quantum i n : ℕ) (p : Parent S)
      → PaysFor n quantum p
      → Ends (PaysFor n) (HasAtMost children n) (fill_holes os quantum i p)
  unfolding fill_holes
  fill_holes-Ends zero i n p (w, h) = Ends-ok 0 p (w, h)
  fill_holes-Ends (suc quantum) i n p (w, h) =
      Ends-if (ltb i p.children_count) _ _
        (λ l.
          then_rest quantum n p _ _ (PaysFor n) h
            (fill_hole-Keeps i (suc (children p.ext)) p w (ltb→lt i p.children_count l)
              (omega arith))
            (λ s k. fill_holes-Ends quantum (suc i) n s k))
        (λ _. Ends-ok (suc quantum) p (w, h))

  pub grow-Keeps :
      (quantum n : ℕ) (p : Parent S)
      → PaysFor n quantum p
      → Keeps (HasAtMost children n) (grow os quantum p)
  unfolding grow
  grow-Keeps zero n p (w, h) = Ends-ok tt p (w, omega arith)
  grow-Keeps (suc quantum) n p (w, h) =
      Ends-if (ltb p.children_count children_hardlimit) _ _
        (λ l.
          then_rest quantum n (record p { children_count = suc p.children_count }) _ _ _ h
            (fork_child-Keeps p.children_count (suc (children p.ext)) _
              (record {
                table = w.table;
                bounded = omega (arith, ltb→lt p.children_count children_hardlimit l);
                counted = w.counted;
              })
              (omega arith))
            (λ s k. grow-Keeps quantum n s k))
        (λ _. Ends-ok tt p (w, omega arith))

  refill-Keeps :
      (n : ℕ) (p : Parent S)
      → PaysFor n children_quantum p
      → Keeps (HasAtMost children n) (refill os p)
  unfolding refill assert_counts
  refill-Keeps n p h = Ends-bind _ _ p (fill_holes-Ends children_quantum 0 n p h) (λ quantum s k.
      Ends-bind {Q = λ u. PaysFor n quantum} (assert_counts os) _ s
        (Ends-if (int_eq (pos s.children_count) s.children_running) _ _ (λ _. Ends-ok tt s k)
          (λ _. Ends-exit s (k.0, omega (arith, k.1))))
        (λ u t l. grow-Keeps quantum n t l))

  -- Whatever the processes do: forkChildren stays inside the table, keeps the count to the limit
  -- and children_running to the number of children, and forks at most a quantum of them, also where
  -- it ends the process.
  pub fork_children-Keeps :
      (p : Parent S)
      → IsWellFormed children p
      → Keeps (HasAtMost children (children p.ext + children_quantum)) (fork_children os p)
  unfolding fork_children
  fork_children-Keeps p w =
      Ends-if p.do_restart _ _
        (λ _.
          Ends-if (int_eq (pos p.children_count) p.children_running) _ _
            (λ _. grow-Keeps children_quantum _ p (w, omega arith))
            (λ _. refill-Keeps _ p (w, omega arith)))
        (λ _. Ends-ok tt p (w, omega arith))
