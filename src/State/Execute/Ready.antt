-- ===== src/State/Execute/Ready.antt =====
-- A state that parseScript has accepted and that a connected child runs is safe, if its texts are.
use smarty_appserver.Prelude.{◌≡◌, Option, some, Text, All, lookup}
use smarty_appserver.Database.{Database, DbMap, IsConnected}
use smarty_appserver.State.{
  Body, end, file, regex, query, match, http, mail, sms, script, shell, structure, goto,
}
use smarty_appserver.State.Parse.Registers.{IsRegistered}
use smarty_appserver.State.Verify.Accepted.{IsAccepted}
use smarty_appserver.State.Execute.Exits.{IsSafeBody}
use smarty_appserver.Assigner.Evaluate.Laws.{IsPlain, IsPlainAssignment}

-- No sign of a variable before a '-' in what the state evaluates, and no assignment to `sel`; not an
-- http, mail or shell state.
abbrev pub IsPlainBody : Text → Body → Type 0
IsPlainBody sel (end b) = All IsPlain b.out_list
IsPlainBody sel (file b) = All IsPlain b.out_list
IsPlainBody sel (regex b) = All (IsPlainAssignment sel) b.assignments
IsPlainBody sel (query b) = IsPlain b.query × All (IsPlainAssignment sel) b.assignments
IsPlainBody sel (http b) = ⊥
IsPlainBody sel (mail b) = ⊥
IsPlainBody sel (shell b) = ⊥
IsPlainBody sel (structure b) = All (IsPlainAssignment sel) b.assignments
IsPlainBody sel (goto asgs) = All (IsPlainAssignment sel) asgs
IsPlainBody sel _ = Unit

-- Every section of the first table has a connection in the second.
abbrev pub AreConnected : DbMap → DbMap → Type 0
AreConnected dbs dbs' =
    (section : Text) (o : Option Database) → lookup section dbs ≡ some o → IsConnected dbs' section

pub accepted-IsSafe :
    (sel : Text) (dbs dbs' : DbMap) (b : Body)
    → AreConnected dbs dbs'
    → IsAccepted b
    → IsRegistered dbs b
    → IsPlainBody sel b
    → IsSafeBody sel dbs' b
accepted-IsSafe sel dbs dbs' (end b) c a r p = (p, a)
accepted-IsSafe sel dbs dbs' (file b) c a r p = (p, r)
accepted-IsSafe sel dbs dbs' (regex b) c a r p = (a, p)
accepted-IsSafe sel dbs dbs' (query b) c a r p =
    let (o, found) = r a in (c b.dbsection o found, p.0, p.1)
accepted-IsSafe sel dbs dbs' (match b) c a r p = a
accepted-IsSafe sel dbs dbs' (http b) c a r p = p
accepted-IsSafe sel dbs dbs' (mail b) c a r p = p
accepted-IsSafe sel dbs dbs' sms c a r p = tt
accepted-IsSafe sel dbs dbs' script c a r p = tt
accepted-IsSafe sel dbs dbs' (shell b) c a r p = p
accepted-IsSafe sel dbs dbs' (structure b) c a r p = p
accepted-IsSafe sel dbs dbs' (goto asgs) c a r p = p
