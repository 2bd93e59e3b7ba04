-- ===== src/Service/Calls.antt =====
-- What the calls of the parent leave: the record of them, and the same statics.
use mathlib.Core.Path.{subst}
use smarty_appserver.Prelude.{
  ℕ, suc, pos, ◌≡◌, ◌∙◌, inl, inr, refl, sym, ap, Option-cases, some, List, [], ◌∷◌, ◌++◌,
  append_assoc, append-nil, take,
}
use smarty_appserver.Errors.{Result, ok, throw, exit, undefined, out_of_fuel}
use smarty_appserver.Action.Ends.{Ends, EndsAt, Ends-ok, Ends-pure, Ends-exit, Ends-mono, Ends-bind}
use smarty_appserver.Pool.{Parent}
use smarty_appserver.Pool.Invariant.{IsPosix, IsWellFormed}
use smarty_appserver.Service.{Call, Kernel, Session, must, may, must_all, may_all, on_parent}

module _ {S : Type 0} (k : Kernel S) (children : S → ℕ) where
  -- The calls neither make nor reap children of the parent.
  pub record IsKernel : Type 0 where
    pub posix : IsPosix k.os children
    pub called : (s t : S) (c : Call) → k.call s c ≡ some t → children t ≡ children s

  -- From `s` to `s'` there have been these calls, and nothing else.
  pub record Continues (s : Session S) (cs : List Call) (s' : Session S) : Type 0 where
    pub calls : s'.calls ≡ s.calls ++ cs
    pub statics : s'.parent ≡ record s.parent { ext = s'.parent.ext }
    pub same : children s'.parent.ext ≡ children s.parent.ext

  pub Continues-nil : (s : Session S) → Continues s [] s
  Continues-nil s = record { calls = sym (append-nil s.calls); statics = refl; same = refl }

  pub Continues-trans :
      {s t u : Session S} (cs ds : List Call)
      → Continues s cs t
      → Continues t ds u
      → Continues s (cs ++ ds) u
  Continues-trans {s} {t} {u} cs ds a b = record {
    calls = b.calls ∙ (ap (λ l. l ++ ds) a.calls ∙ append_assoc s.calls cs ds);
    statics = b.statics ∙ ap (λ (p : Parent S). record p { ext = u.parent.ext }) a.statics;
    same = b.same ∙ a.same;
  }

  -- The first calls of a list.
  abbrev pub StopsIn : Session S → List Call → Session S → Type 0
  StopsIn s cs s' = (n : ℕ) × Continues s (take n cs) s'

  module _ (lawful : IsKernel) where
    pub must-Continues :
        (c : Call) (s : Session S)
        → Ends (λ _. Continues s (c ∷ [])) (Continues s (c ∷ [])) (must k c s)
    unfolding must
    must-Continues c s = elim (Option-cases (k.call s.parent.ext c)) [
      | inl e ↦ rw (e, must) (Ends-exit _ (record { calls = refl; statics = refl; same = refl }))
      | inr (t, e) ↦
          rw (e, must)
            (Ends-ok tt _
              (record { calls = refl; statics = refl; same = lawful.called s.parent.ext t c e }))
    ]

    pub may-Continues :
        (c : Call) (s : Session S) → Ends (λ _. Continues s (c ∷ [])) (λ _. ⊥) (may k c s)
    unfolding may
    may-Continues c s = elim (Option-cases (k.call s.parent.ext c)) [
      | inl e ↦ rw (e, may) (Ends-ok tt _ (record { calls = refl; statics = refl; same = refl }))
      | inr (t, e) ↦
          rw (e, may)
            (Ends-ok tt _
              (record { calls = refl; statics = refl; same = lawful.called s.parent.ext t c e }))
    ]

    pub must_all-Continues :
        (cs : List Call) (s : Session S)
        → Ends (λ _. Continues s cs) (StopsIn s cs) (must_all k cs s)
    unfolding must_all
    must_all-Continues [] s = Ends-pure tt s (Continues-nil s)
    must_all-Continues (c ∷ cs) s =
        Ends-bind _ _ s (Ends-mono _ (λ _ t h. h) (λ t h. (1, h)) (must-Continues c s)) (λ _ t h.
          Ends-mono _ (λ _ u h'. Continues-trans (c ∷ []) cs h h')
            (λ u (n, h'). (suc n, Continues-trans (c ∷ []) (take n cs) h h'))
            (must_all-Continues cs t))

    pub may_all-Continues :
        (cs : List Call) (s : Session S) → Ends (λ _. Continues s cs) (λ _. ⊥) (may_all k cs s)
    unfolding may_all
    may_all-Continues [] s = Ends-pure tt s (Continues-nil s)
    may_all-Continues (c ∷ cs) s = Ends-bind _ _ s (may-Continues c s) (λ _ t h.
        Ends-mono _ (λ _ u h'. Continues-trans (c ∷ []) cs h h') (λ u no. no)
          (may_all-Continues cs t))

    -- What holds of the statics stays so.
    pub Continues-IsWellFormed :
        {s t : Session S} (cs : List Call)
        → Continues s cs t
        → IsWellFormed children s.parent
        → IsWellFormed children t.parent
    Continues-IsWellFormed {s} {t} cs c w =
        subst (IsWellFormed children) (sym c.statics) (record {
          table = w.table;
          bounded = w.bounded;
          counted = w.counted ∙ ap pos (sym c.same);
        })

    module _ {A : Type 0} {Q : A → Parent S → Type 0} {E : Parent S → Type 0} where
      pub on_parent-Ends :
          (m : Parent S → Result A × Parent S) (s : Session S)
          → Ends Q E (m s.parent)
          → Ends
              (λ a t. Q a t.parent × (t.calls ≡ s.calls))
              (λ t. E t.parent × (t.calls ≡ s.calls))
              (on_parent k m s)
      unfolding on_parent
      on_parent-Ends m s h = go (m s.parent).0 (m s.parent).1 h.at
        where
          go :
              (r : Result A) (p : Parent S)
              → EndsAt Q E r p
              → Ends
                  (λ a t. Q a t.parent × (t.calls ≡ s.calls))
                  (λ t. E t.parent × (t.calls ≡ s.calls))
                  (r, record s { parent = p })
          go (ok a) p h = record { at = (h, refl) }
          go (throw e) p h = record { at = (h, refl) }
          go exit p h = record { at = (h, refl) }
          go undefined p h = absurd h
          go out_of_fuel p h = absurd h
