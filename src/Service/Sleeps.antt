-- ===== src/Service/Sleeps.antt =====
-- The main loop of the parent and its sleeps.
use mathlib.Core.Path.{subst}
use smarty_appserver.Prelude.{
  ℕ, zero, suc, ◌<◌, ◌≡◌, ◌∙◌, inl, inr, refl, sym, ap, false, Bool-cases, [], ◌∷◌, ◌++◌,
  append_assoc, append-nil, replicate, is_positive, ◌==◌, if-false, arith,
}
use smarty_appserver.Errors.{Result, ok}
use smarty_appserver.Action.{◌>>=◌}
use smarty_appserver.Action.Ends.{Ends, Ends-ok, Ends-mono, Ends-bind}
use smarty_appserver.Pool.{Parent, need_fork, turn}
use smarty_appserver.Pool.Invariant.{IsWellFormed}
use smarty_appserver.Pool.Steps.{turn-Keeps}
use smarty_appserver.Service.{sleep, Kernel, Session, may, on_parent, asleep, main_loop}
use smarty_appserver.Service.Calls.{
  IsKernel, Continues, may-Continues, Continues-IsWellFormed, on_parent-Ends,
}

module _ {S : Type 0} (k : Kernel S) (children : S → ℕ) (lawful : IsKernel k children) where
  abbrev pub Slept : Session S → Session S → Type 0
  Slept s t = (n : ℕ) × (t.calls ≡ s.calls ++ replicate n sleep)

  Slept-next :
      (s t u v : Session S)
      → Continues k children s (sleep ∷ []) t
      → u.calls ≡ t.calls
      → Slept u v
      → Slept s v
  Slept-next s t u v c e (n, h) = (
    suc n,
    h
        ∙ (ap (λ l. l ++ replicate n sleep) (e ∙ c.calls)
            ∙ append_assoc s.calls (sleep ∷ []) (replicate n sleep)),
  )

  pub Slept-none : (s : Session S) → Slept s s
  Slept-none s = (0, sym (append-nil s.calls))

  -- The parent has no child any more.
  abbrev pub IsAlone : Session S → Type 0
  IsAlone s = IsWellFormed children s.parent × (children s.parent.ext ≡ 0)

  -- What happens in the sleeps keeps the counts; by the end of one of them all children are gone,
  -- and the slots do not look busy.
  pub record EndsBy (during : ℕ → Parent S → Parent S) (last : ℕ) : Type 0 where
    pub keeps :
        (n : ℕ) (p : Parent S) → IsWellFormed children p → IsWellFormed children (during n p)
    pub gone :
        (p : Parent S)
        → IsWellFormed children p
        → (children (during last p).ext ≡ 0) × (need_fork k.os (during last p) ≡ false)

  main_loop_over :
      (during : ℕ → Parent S → Parent S) (fuel : ℕ) (s : Session S)
      → IsAlone s
      → main_loop k during fuel s ≡ (ok tt, s)
  unfolding main_loop
  main_loop_over during zero s (w, none_left) =
      if-false (is_positive s.parent.children_running) _ _ (ground (arith, none_left, w.counted))
  main_loop_over during (suc fuel) s (w, none_left) =
      if-false (is_positive s.parent.children_running) _ _ (ground (arith, none_left, w.counted))

  -- A round in which all children go is the last one.
  last_round :
      (during : ℕ → Parent S → Parent S) (fuel : ℕ) (s : Session S)
      → children s.parent.ext ≡ 0
      → IsWellFormed children s.parent
      → need_fork k.os s.parent ≡ false
      → Ends
          (λ _ t. Slept s t × IsAlone t)
          (Slept s)
          ((on_parent k (turn k.os) >>= λ _. main_loop k during fuel) s)
  unfolding turn on_parent ◌>>=◌
  last_round during fuel s none_left w idle =
      rw (idle, main_loop_over during fuel s (w, none_left))
        (Ends-ok tt s (Slept-none s, (w, none_left)))

  -- Same calls so far.
  Slept-same : (s t u : Session S) → t.calls ≡ s.calls → Slept t u → Slept s u
  Slept-same s t u e (n, h) = (n, h ∙ ap (λ l. l ++ replicate n sleep) e)

  asleep-known :
      {B : Type 0} {Q : B → Session S → Type 0} {E : Session S → Type 0} (d : Parent S → Parent S)
      (t : Session S) (f : Session S → Result B × Session S)
      → Ends Q E (f (record t { parent = d t.parent }))
      → Ends Q E ((on_parent k (asleep k d) >>= λ _. f) t)
  unfolding on_parent ◌>>=◌
  asleep-known d t f h = h

  another_round :
      (during : ℕ → Parent S → Parent S) (fuel : ℕ) (s : Session S)
      → IsWellFormed children s.parent
      → ((t : Session S)
          → IsWellFormed children t.parent
          → Ends (λ _ u. Slept t u × IsAlone u) (Slept t) (main_loop k during fuel t))
      → Ends
          (λ _ t. Slept s t × IsAlone t)
          (Slept s)
          ((on_parent k (turn k.os) >>= λ _. main_loop k during fuel) s)
  another_round during fuel s w again =
      Ends-bind _ _ s
        (Ends-mono _ (λ _ t h. h) (λ t (h, e). Slept-same s t t e (Slept-none t))
          (on_parent-Ends k children lawful (turn k.os) s
            (turn-Keeps k.os children lawful.posix s.parent w)))
        (λ _ t (h, e).
          Ends-mono _ (λ _ u (slept, alone). (Slept-same s t u e slept, alone))
            (λ u slept. Slept-same s t u e slept) (again t h.0))

  pub main_loop-Slept :
      (during : ℕ → Parent S → Parent S) (last : ℕ)
      → EndsBy during last
      → (fuel : ℕ) (s : Session S) → last < fuel
      → IsWellFormed children s.parent
      → Ends (λ _ t. Slept s t × IsAlone t) (Slept s) (main_loop k during fuel s)
  unfolding main_loop
  main_loop-Slept during last d zero s h w = absurd (omega arith)
  main_loop-Slept during last d (suc fuel) s h w =
      elim (Bool-cases (is_positive s.parent.children_running)) [
        | inr over ↦ rw over (Ends-ok tt s (Slept-none s, (w, ground (arith, w.counted))))
        | inl up ↦ rw up (
            Ends-bind _ _ s (may_slept s) (λ _ t c.
              let p = during fuel t.parent in
              let u : Session S = record t { parent = p } in
              let form =
                d.keeps fuel t.parent (Continues-IsWellFormed k children lawful (sleep ∷ []) c w) in
              asleep-known (during fuel) t _ (
                Ends-mono _ (λ _ v (slept, alone). (Slept-next s t u v c refl slept, alone))
                  (λ v slept. Slept-next s t u v c refl slept)
                  (elim (Bool-cases (last == fuel)) [
                    | inl now ↦
                        let here : last ≡ fuel = ground arith in
                        let (none_left, idle) =
                          subst
                            (λ n.
                              (children (during n t.parent).ext ≡ 0)
                              × (need_fork k.os (during n t.parent) ≡ false))
                            here
                            (d.gone t.parent
                              (Continues-IsWellFormed k children lawful (sleep ∷ []) c w)) in
                        last_round during fuel u none_left form idle
                    | inr later ↦
                        another_round during fuel u form
                          (λ v w'. main_loop-Slept during last d fuel v (ground arith) w')
                  ]))))
      ]
    where
      may_slept :
          (s : Session S)
          → Ends (λ _. Continues k children s (sleep ∷ [])) (Slept s) (may k sleep s)
      may_slept s =
          Ends-mono _ (λ _ t c. c) (λ t no. absurd no) (may-Continues k children lawful sleep s)
