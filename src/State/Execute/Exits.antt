-- ===== src/State/Execute/Exits.antt =====
-- The numbers that the `execute` of a state can return, and what its members have to be for a safe run.
use smarty_appserver.Prelude.{ℤ, ◌≡◌, ◌⊎◌, some, List, [], ◌∷◌, All, Text, length}
use smarty_appserver.Regex.{Regex}
use smarty_appserver.Database.{IsConnected, DbMap}
use smarty_appserver.State.{
  State, Body, end, file, regex, query, match, http, mail, sms, script, shell, structure, goto,
  end_state,
}
use smarty_appserver.Assigner.Evaluate.Laws.{IsPlain, IsPlainAssignment}

-- One of a list.
abbrev pub OneOf : ℤ → List ℤ → Type 0
OneOf n [] = ⊥
OneOf n (k ∷ ks) = (n ≡ k) ⊎ OneOf n ks

-- The numbers that `execute` can return.
exits_of : State → Body → List ℤ
exits_of s (end b) = end_state ∷ []
exits_of s (match b) = s.next_state ∷ s.error_state ∷ b.state_list
exits_of s _ = s.next_state ∷ s.error_state ∷ []

unfoldable pub exits : State → List ℤ
unfolding exits_of
exits s = exits_of s s.body

-- `sel` is the variable that `scriptName` points into.
abbrev pub IsSafeBody : Text → DbMap → Body → Type 0
IsSafeBody sel dbs (end b) = All IsPlain b.out_list × (length b.out_list ≡ length b.interpret_flag)
IsSafeBody sel dbs (file b) = All IsPlain b.out_list × (length b.out_list ≡ length b.interpret_flag)
IsSafeBody sel dbs (regex b) =
    ((r : Regex) × (b.regex ≡ some r)) × All (IsPlainAssignment sel) b.assignments
IsSafeBody sel dbs (query b) =
    IsConnected dbs b.dbsection × IsPlain b.query × All (IsPlainAssignment sel) b.assignments
IsSafeBody sel dbs (match b) = length b.rex_list ≡ length b.state_list
IsSafeBody sel dbs (http b) = ⊥
IsSafeBody sel dbs (mail b) = ⊥
IsSafeBody sel dbs sms = Unit
IsSafeBody sel dbs script = Unit
IsSafeBody sel dbs (shell b) = ⊥
IsSafeBody sel dbs (structure b) = All (IsPlainAssignment sel) b.assignments
IsSafeBody sel dbs (goto asgs) = All (IsPlainAssignment sel) asgs

-- What a state hands back: one of its exits, and itself, safe to run again.
abbrev pub Leads : Text → DbMap → State → State × ℤ → Type 0
Leads sel dbs st (st', n) =
    OneOf n (exits st) × IsSafeBody sel dbs st'.body × (exits st' ≡ exits st)
