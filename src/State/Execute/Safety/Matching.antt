-- ===== src/State/Execute/Safety/Matching.antt =====
-- The states "regex", "match", "structure" and "goto".
use smarty_appserver.Prelude.{
  ℤ, ◌≡◌, refl, inl, inr, Option, none, some, List, [], ◌∷◌, Text, All, length, arith,
}
use smarty_appserver.Errors.{ok}
use smarty_appserver.Action.Ensures.{
  Ensures, Returns, Returns-mono, Ensures-pure, Ensures-lift, Ensures-bind, Ensures-catch_all,
}
use smarty_appserver.Regex.{Regex, Matching, matched, no_match, failed, regexec}
use smarty_appserver.Database.{DbMap}
use smarty_appserver.Parser.{Externals}
use smarty_appserver.State.{
  State, regex, match, structure, goto, Assignment, RegexBody, MatchBody, StructBody,
}
use smarty_appserver.State.Execute.Matching.{
  no_substrings, pick_case, assign_and_go, execute_goto, execute_regex, execute_match,
  execute_structure, on_match_value, on_regexec, on_regex, on_regex_value, on_structure_value,
  on_tree, parse_tree,
}
use smarty_appserver.World.{System}
use smarty_appserver.Assigner.Held.{IsIntact, get_value-Intact}
use smarty_appserver.Assigner.Evaluate.Laws.{IsLawful, IsPlainAssignment}
use smarty_appserver.Assigner.Evaluate.Safety.{assign_all-Ensures}
use smarty_appserver.State.Execute.Exits.{OneOf, exits, IsSafeBody, Leads}

pick_case-Returns :
    (rs : List Regex) (ns : List ℤ) (val : Text) (error default : ℤ)
    → length rs ≡ length ns
    → Returns (λ n. OneOf n (default ∷ error ∷ ns)) (pick_case rs ns val error default)
unfolding pick_case
pick_case-Returns [] ns val error default h = inl refl
pick_case-Returns (r ∷ rs) [] val error default h = absurd (omega arith)
pick_case-Returns (r ∷ rs) (n ∷ ns) val error default h =
    go (regexec r val) (pick_case-Returns rs ns val error default (omega arith))
  where
    later : (k : ℤ) → OneOf k (default ∷ error ∷ ns) → OneOf k (default ∷ error ∷ n ∷ ns)
    later k (inl e) = inl e
    later k (inr (inl e)) = inr (inl e)
    later k (inr (inr o)) = inr (inr (inr o))

    go :
        (m : Matching)
        → Returns (λ k. OneOf k (default ∷ error ∷ ns)) (pick_case rs ns val error default)
        → Returns
            (λ k. OneOf k (default ∷ error ∷ n ∷ ns))
            (elim m [
              | matched g ↦ ok n
              | no_match ↦ pick_case rs ns val error default
              | failed rv ↦ ok error
            ])
    go (matched g) ih = inr (inr (inl refl))
    go no_match ih = Returns-mono _ later ih
    go (failed rv) ih = inr (inl refl)

module _ {S : Type 0} {sel : Text} (x : Externals) (lawful : IsLawful x) (sys : System S)
    (st : State) where
  -- The assignments of a state that has been changed to `st'`.
  pub assign_and_go-Ensures :
      (Q : State × ℤ → Type 0) (st' : State) (asgs : List Assignment)
      → All (IsPlainAssignment sel) asgs
      → Q (st', st'.error_state)
      → Q (st', st'.next_state)
      → Ensures (IsIntact {S = S} sel) Q (assign_and_go x sys st st' asgs)
  unfolding assign_and_go
  assign_and_go-Ensures Q st' asgs p qe qn =
      Ensures-catch_all _ _ qe
        (Ensures-bind _ _ (assign_all-Ensures x lawful sys st' asgs p) (λ _ _. Ensures-pure _ qn))

  pub execute_goto-Ensures :
      (dbs : DbMap) (asgs : List Assignment)
      → st.body ≡ goto asgs
      → IsSafeBody sel dbs (goto asgs)
      → Ensures (IsIntact {S = S} sel) (Leads sel dbs st) (execute_goto x sys st asgs)
  unfolding execute_goto exits
  execute_goto-Ensures dbs asgs e p =
      assign_and_go-Ensures _ st asgs p (rw e (inr (inl refl), p, refl)) (rw e (inl refl, p, refl))

  pub execute_regex-Ensures :
      (dbs : DbMap) (b : RegexBody)
      → st.body ≡ regex b
      → IsSafeBody sel dbs (regex b)
      → Ensures (IsIntact {S = S} sel) (Leads sel dbs st) (execute_regex x sys st b)
  unfolding execute_regex exits
  execute_regex-Ensures dbs b e p = Ensures-bind _ _ (get_value-Intact sys _) (λ v _. on v)
    where
      b' : RegexBody
      b' = record b { substring = no_substrings }

      on_match :
          (val : Text) (m : Matching)
          → Ensures (IsIntact {S = S} sel) (Leads sel dbs st) (on_regexec x sys st b' val m)
      on_match val (matched g) =
          assign_and_go-Ensures _ _ b.assignments p.1 (rw e (inr (inl refl), p, refl))
            (rw e (inl refl, p, refl))
      on_match val no_match = Ensures-pure _ (rw e (inr (inl refl), p, refl))
      on_match val (failed rv) = Ensures-pure _ (rw e (inr (inl refl), p, refl))

      on_set :
          (val : Text) (o : Option Regex)
          → (r : Regex) × (o ≡ some r)
          → Ensures (IsIntact {S = S} sel) (Leads sel dbs st) (on_regex x sys st b' val o)
      on_set val none q = absurd (ground (arith, q.1))
      on_set val (some r) q = on_match val (regexec r val)

      on :
          (v : Option Text)
          → Ensures (IsIntact {S = S} sel) (Leads sel dbs st) (on_regex_value x sys st b' v)
      on none = Ensures-pure _ (rw e (inr (inl refl), p, refl))
      on (some val) = on_set val b.regex p.0

  pub execute_match-Ensures :
      (dbs : DbMap) (b : MatchBody)
      → st.body ≡ match b
      → IsSafeBody sel dbs (match b)
      → Ensures (IsIntact {S = S} sel) (Leads sel dbs st) (execute_match x sys st b)
  unfolding execute_match exits
  execute_match-Ensures dbs b e p = Ensures-bind _ _ (get_value-Intact sys _) (λ v _. on v)
    where
      on :
          (v : Option Text)
          → Ensures (IsIntact {S = S} sel) (Leads sel dbs st) (on_match_value x sys st b v)
      on none = Ensures-pure _ (rw e (inr (inl refl), p, refl))
      on (some val) =
          Ensures-bind _ _
            (Ensures-lift _
              (pick_case-Returns b.rex_list b.state_list val st.error_state st.next_state p))
            (λ n o. Ensures-pure _ (rw e (o, p, refl)))

  pub execute_structure-Ensures :
      (dbs : DbMap) (b : StructBody)
      → st.body ≡ structure b
      → IsSafeBody sel dbs (structure b)
      → Ensures (IsIntact {S = S} sel) (Leads sel dbs st) (execute_structure x sys st b)
  unfolding execute_structure exits
  execute_structure-Ensures dbs b e p = Ensures-bind _ _ (get_value-Intact sys _) (λ v _. on v)
    where
      on_parsed :
          (o : Option (Text → Text))
          → Ensures (IsIntact {S = S} sel) (Leads sel dbs st) (on_tree x sys st b o)
      on_parsed none = Ensures-pure _ (rw e (inr (inl refl), p, refl))
      on_parsed (some tree) =
          Ensures-bind _ _ (assign_all-Ensures x lawful sys _ b.assignments p)
            (λ _ _. Ensures-pure _ (rw e (inl refl, p, refl)))

      on :
          (v : Option Text)
          → Ensures (IsIntact {S = S} sel) (Leads sel dbs st) (on_structure_value x sys st b v)
      on none = Ensures-pure _ (rw e (inr (inl refl), p, refl))
      on (some val) = on_parsed (parse_tree x sys st b.format val)
