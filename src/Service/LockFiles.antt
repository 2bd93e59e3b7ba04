-- ===== src/Service/LockFiles.antt =====
-- The lock files that are there after the calls of the parent, if each of them succeeds.
use smarty_appserver.Prelude.{
  ℕ, zero, suc, ◌<◌, ◌≡◌, ◌∙◌, ◌⊎◌, inl, inr, refl, sym, ap, append-nil, List, [], ◌∷◌, ◌++◌,
  replicate,
}
use smarty_appserver.Action.Ends.{Ends, Ends-mono}
use smarty_appserver.Pool.{Parent}
use smarty_appserver.Service.{
  Call, LockFile, tmp_lock, shr_lock, sleep, make_lock, unlink_lock, Kernel, Session, opening,
  fcgi_opening, closing, run_preforked,
}
use smarty_appserver.Service.Calls.{IsKernel}
use smarty_appserver.Service.Sleeps.{EndsBy}
use smarty_appserver.Service.Lifecycle.{IsNew, HasFailed, run_preforked_lifecycle}

abbrev without : LockFile → List LockFile → List LockFile
without f [] = []
without tmp_lock (tmp_lock ∷ fs) = fs
without shr_lock (shr_lock ∷ fs) = fs
without f (g ∷ fs) = g ∷ without f fs

-- mkstemp makes a file, and unlink removes it.
abbrev pub remaining : List Call → List LockFile → List LockFile
remaining [] left = left
remaining (make_lock f ∷ cs) left = remaining cs (f ∷ left)
remaining (unlink_lock f ∷ cs) left = remaining cs (without f left)
remaining (_ ∷ cs) left = remaining cs left

remaining-sleep :
    (n : ℕ) (cs : List Call) (left : List LockFile)
    → remaining (replicate n sleep ++ cs) left ≡ remaining cs left
remaining-sleep zero cs left = refl
remaining-sleep (suc n) cs left = remaining-sleep n cs left

module _ {S : Type 0} (k : Kernel S) (children : S → ℕ) (lawful : IsKernel k children) where
  -- A parent that serves and comes to an end as above, from its first call: if runPreforked comes
  -- back, no lock file is left; if the parent ends on its own, as where fork fails or the assertion of
  -- forkChildren does, then there is no child, or both lock files are left. An unlink or a mkstemp that
  -- was tried counts as one that succeeded.
  pub run_preforked-remaining :
      (during : ℕ → Parent S → Parent S) (last fuel : ℕ) (s : Session S)
      → EndsBy k children lawful during last
      → last < fuel
      → IsNew k children lawful s
      → s.calls ≡ []
      → Ends
          (λ rv t. remaining t.calls [] ≡ [])
          (λ t. (children t.parent.ext ≡ 0) ⊎ (remaining t.calls [] ≡ shr_lock ∷ tmp_lock ∷ []))
          (run_preforked k during fuel s)
  run_preforked-remaining during last fuel s d h w e =
      Ends-mono _ (λ rv t (zero_status, alone, calls). all_removed t calls.0 calls.1)
        (λ t failed. on_failure t failed)
        (run_preforked_lifecycle k children lawful during last fuel s d h w)
    where
      all_removed :
          (t : Session S) (n : ℕ)
          → t.calls ≡ (s.calls ++ (opening ++ (fcgi_opening ++ replicate n sleep))) ++ closing
          → remaining t.calls [] ≡ []
      all_removed t n calls =
          ap (λ l. remaining l [])
            (calls
              ∙ ap
                  (λ (b : List Call).
                    (b ++ (opening ++ (fcgi_opening ++ replicate n sleep))) ++ closing)
                  e)
          ∙ remaining-sleep n closing (shr_lock ∷ tmp_lock ∷ [])

      on_failure :
          (t : Session S)
          → HasFailed k children lawful s t
          → (children t.parent.ext ≡ 0) ⊎ (remaining t.calls [] ≡ shr_lock ∷ tmp_lock ∷ [])
      on_failure t (inl (in_start, none_left)) = inl none_left
      on_failure t (inr (n, calls)) = inr (
          ap (λ l. remaining l [])
            (calls
              ∙ ap (λ (b : List Call). b ++ (opening ++ (fcgi_opening ++ replicate n sleep))) e)
          ∙ (ap (λ l. remaining l (shr_lock ∷ tmp_lock ∷ [])) (sym (append-nil (replicate n sleep)))
              ∙ remaining-sleep n [] (shr_lock ∷ tmp_lock ∷ [])))
