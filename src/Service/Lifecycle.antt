-- ===== src/Service/Lifecycle.antt =====
-- What the parent has opened when it ends, and what it has closed.
use smarty_appserver.Prelude.{
  ℕ, ◌<◌, pos, ◌≡◌, ◌∙◌, ◌⊎◌, inl, inr, refl, sym, ap, List, ◌++◌, append_assoc, take, replicate,
  length-replicate, arith,
}
use smarty_appserver.Errors.{Result}
use smarty_appserver.Action.{◌>>=◌, pure}
use smarty_appserver.Action.Ends.{Ends, Ends-pure, Ends-mono, Ends-bind}
use smarty_appserver.Pool.{Parent, children_hardlimit, zero_slot, fork_children}
use smarty_appserver.Pool.Invariant.{IsWellFormed, fork_children-Keeps}
use smarty_appserver.Service.{
  Call, sleep, Kernel, Session, opening, fcgi_opening, closing, may_all, on_parent, clear_table,
  main_loop, run_preforked,
}
use smarty_appserver.Service.Calls.{
  IsKernel, Continues, must_all-Continues, may_all-Continues, Continues-IsWellFormed,
  on_parent-Ends,
}
use smarty_appserver.Service.Sleeps.{Slept, Slept-none, IsAlone, EndsBy, main_loop-Slept}

module _ {S : Type 0} (k : Kernel S) (children : S → ℕ) (lawful : IsKernel k children) where
  clear_table-known :
      {B : Type 0} {Q : B → Session S → Type 0} {E : Session S → Type 0} (t : Session S)
      (f : Session S → Result B × Session S)
      → Ends Q E (
          f (record t {
            parent = record t.parent { slots = replicate children_hardlimit zero_slot };
          }))
      → Ends Q E ((on_parent k (clear_table k) >>= λ _. f) t)
  unfolding on_parent ◌>>=◌
  clear_table-known t f h = h

  -- Before the first fork.
  pub record IsNew (s : Session S) : Type 0 where
    pub count : s.parent.children_count ≡ 0
    pub running : s.parent.children_running ≡ pos 0
    pub childless : children s.parent.ext ≡ 0

  -- A call of the start has failed, and there is no child.
  abbrev pub StartFailed : Session S → Session S → Type 0
  StartFailed s t =
      (((n : ℕ) × (t.calls ≡ s.calls ++ take n opening))
        ⊎ ((n : ℕ) × (t.calls ≡ s.calls ++ (opening ++ take n fcgi_opening))))
      × (children t.parent.ext ≡ 0)

  -- The start, then `n` sleeps.
  abbrev pub served : Session S → ℕ → List Call
  served s n = s.calls ++ (opening ++ (fcgi_opening ++ replicate n sleep))

  -- All is closed.
  abbrev pub HasClosed : Session S → ℕ → Session S → Type 0
  HasClosed s rv t =
      (rv ≡ 0) × IsAlone k children lawful t × ((n : ℕ) × (t.calls ≡ served s n ++ closing))

  -- The parent ends on its own, and nothing is closed.
  abbrev pub HasFailed : Session S → Session S → Type 0
  HasFailed s t = StartFailed s t ⊎ ((n : ℕ) × (t.calls ≡ served s n))

  -- From the first fork to the end.
  serve_on :
      (during : ℕ → Parent S → Parent S) (last fuel : ℕ)
      → EndsBy k children lawful during last
      → last < fuel
      → (s t : Session S) → IsWellFormed children t.parent
      → t.calls ≡ s.calls ++ (opening ++ fcgi_opening)
      → Ends (HasClosed s) (HasFailed s) (
          (on_parent k (fork_children k.os) >>= λ _.
          main_loop k during fuel >>= λ _. may_all k closing >>= λ _. pure 0)
            t)
  serve_on during last fuel d h s t w e =
      Ends-bind _ _ t
        (Ends-mono _ (λ _ u q. q)
          (λ u (q, same).
            inr (
              (Slept-none k children lawful u).0,
              called u u same (Slept-none k children lawful u),
            ))
          (on_parent-Ends k children lawful (fork_children k.os) t
            (fork_children-Keeps k.os children lawful.posix t.parent w)))
        (λ _ u (q, same).
          Ends-bind _ _ u
            (Ends-mono _ (λ _ v q'. q') (λ v slept. inr (slept.0, called u v same slept))
              (main_loop-Slept k children lawful during last d fuel u h q.0))
            (λ _ v (slept, alone).
              Ends-bind _ _ v
                (Ends-mono _ (λ _ x c. c) (λ x no. absurd no)
                  (may_all-Continues k children lawful closing v))
                (λ _ x c. Ends-pure 0 x (
                  refl,
                  (Continues-IsWellFormed k children lawful closing c alone.0, c.same ∙ alone.1),
                  (slept.0, c.calls ∙ ap (λ l. l ++ closing) (called u v same slept)),
                ))))
    where
      called :
          (u v : Session S)
          → u.calls ≡ t.calls
          → (slept : Slept k children lawful u v) → v.calls ≡ served s slept.0
      called u v same (n, h) =
          h
          ∙ (ap (λ l. l ++ replicate n sleep) (same ∙ e)
              ∙ append_assoc s.calls (opening ++ fcgi_opening) (replicate n sleep))

  -- A parent without children that starts to serve, where what happens in its sleeps keeps the counts
  -- and by the end of one of them no child is left and no slot looks busy: it does not loop for ever,
  -- and the fuel is enough. Either it comes back with 0 and without children, after it has set its
  -- handlers, made its lock files, its table and its socket, slept a number of times, and closed and
  -- removed all of them once, in that order; or it ends on its own, in the start, before there is a
  -- child, or later, and then it has closed nothing and left the lock files behind.
  pub run_preforked_lifecycle :
      (during : ℕ → Parent S → Parent S) (last fuel : ℕ) (s : Session S)
      → EndsBy k children lawful during last
      → last < fuel
      → IsNew s
      → Ends (HasClosed s) (HasFailed s) (run_preforked k during fuel s)
  unfolding run_preforked
  run_preforked_lifecycle during last fuel s d h w =
      Ends-bind _ _ s
        (Ends-mono _ (λ _ t c. c) (λ t (n, c). inl (inl (n, c.calls), c.same ∙ w.childless))
          (must_all-Continues k children lawful opening s))
        (λ _ t c. clear_table-known t _ (
          Ends-bind _ _ _
            (Ends-mono _ (λ _ u c'. c')
              (λ u (n, c'). inl (inr (n, second s t u n c c'), c'.same ∙ (c.same ∙ w.childless)))
              (must_all-Continues k children lawful fcgi_opening _))
            (λ _ u c'. serve_on during last fuel d h s u (formed t u c c') (
              c'.calls
              ∙ (ap (λ l. l ++ fcgi_opening) c.calls
                  ∙ append_assoc s.calls opening fcgi_opening)))))
    where
      cleared : Session S → Session S
      cleared t = record t {
        parent = record t.parent { slots = replicate children_hardlimit zero_slot };
      }

      second :
          (s t u : Session S) (n : ℕ)
          → Continues k children s opening t
          → Continues k children (cleared t) (take n fcgi_opening) u
          → u.calls ≡ s.calls ++ (opening ++ take n fcgi_opening)
      second s t u n c c' =
          c'.calls
          ∙ (ap (λ l. l ++ take n fcgi_opening) c.calls
              ∙ append_assoc s.calls opening (take n fcgi_opening))

      formed :
          (t u : Session S)
          → Continues k children s opening t
          → Continues k children (cleared t) fcgi_opening u
          → IsWellFormed children u.parent
      formed t u c c' = Continues-IsWellFormed k children lawful fcgi_opening c' (record {
        table = length-replicate children_hardlimit zero_slot;
        bounded = omega (arith, ap (λ (p : Parent S). p.children_count) c.statics ∙ w.count);
        counted =
            ap (λ (p : Parent S). p.children_running) c.statics
            ∙ (w.running ∙ ap pos (sym (c.same ∙ w.childless)));
      })
