-- ===== src/State/Execute/Cases.antt =====
-- src/matchstate.cpp: which case of a match state is taken.
use smarty_appserver.Prelude.{ℤ, ◌≡◌, refl, some, List, [], ◌∷◌, ◌++◌, Text, All, length, arith}
use smarty_appserver.Errors.{ok}
use smarty_appserver.Action.{◌>>=◌}
use smarty_appserver.Regex.{Regex, Groups, matched, no_match, regexec}
use smarty_appserver.Parser.{Externals}
use smarty_appserver.State.{State, MatchBody}
use smarty_appserver.World.{World, System}
use smarty_appserver.Assigner.{get_value}
use smarty_appserver.State.Execute.Matching.{pick_case, execute_match}

-- Cases whose regex does not match are passed over.
pub pick_case-append :
    (rs rest : List Regex) (ns more : List ℤ) (val : Text) (error default : ℤ)
    → length rs ≡ length ns
    → All (λ r. regexec r val ≡ no_match) rs
    → pick_case (rs ++ rest) (ns ++ more) val error default ≡ pick_case rest more val error default
unfolding pick_case
pick_case-append [] rest [] more val error default h a = refl
pick_case-append [] rest (n ∷ ns) more val error default h a = absurd (omega arith)
pick_case-append (r ∷ rs) rest [] more val error default h a = absurd (omega arith)
pick_case-append (r ∷ rs) rest (n ∷ ns) more val error default h a =
    rw (a.0, pick_case) (pick_case-append rs rest ns more val error default (omega arith) a.1)

pick_case-default :
    (rs : List Regex) (ns : List ℤ) (val : Text) (error default : ℤ)
    → All (λ r. regexec r val ≡ no_match) rs
    → pick_case rs ns val error default ≡ ok default
unfolding pick_case
pick_case-default [] ns val error default a = refl
pick_case-default (r ∷ rs) [] val error default a =
    rw (a.0, pick_case) (pick_case-default rs [] val error default a.1)
pick_case-default (r ∷ rs) (n ∷ ns) val error default a =
    rw (a.0, pick_case) (pick_case-default rs ns val error default a.1)

pick_case-hit :
    (r : Regex) (rest : List Regex) (n : ℤ) (more : List ℤ) (val : Text) (error default : ℤ)
    (g : Groups)
    → regexec r val ≡ matched g
    → pick_case (r ∷ rest) (n ∷ more) val error default ≡ ok n
unfolding pick_case
pick_case-hit r rest n more val error default g m = rw (m, pick_case) refl

module _ {S : Type 0} (x : Externals) (sys : System S) (st : State) (b : MatchBody) (w w' : World S)
    (val : Text) (read : get_value sys b.match_var w ≡ (ok (some val), w')) where
  -- A match state whose variable has a value goes to the state of the first case whose regex matches
  -- it: the regexes of the cases before do not match, and those after are not looked at.
  pub execute_match_first :
      (rs : List Regex) (ns : List ℤ) (r : Regex) (n : ℤ) (rest : List Regex) (more : List ℤ)
      (g : Groups)
      → length rs ≡ length ns
      → All (λ q. regexec q val ≡ no_match) rs
      → b.rex_list ≡ rs ++ r ∷ rest
      → b.state_list ≡ ns ++ n ∷ more
      → regexec r val ≡ matched g
      → execute_match x sys st b w ≡ (ok (st, n), w')
  unfolding execute_match ◌>>=◌
  execute_match_first rs ns r n rest more g same missed er en m =
      let skip =
        pick_case-append rs (r ∷ rest) ns (n ∷ more) val st.error_state st.next_state same missed in
      rw (read, er, en, skip, pick_case-hit r rest n more val st.error_state st.next_state g m) refl

  -- A match state whose variable has a value goes to its next state if no regex of a case matches
  -- it.
  pub execute_match_default :
      All (λ q. regexec q val ≡ no_match) b.rex_list
      → execute_match x sys st b w ≡ (ok (st, st.next_state), w')
  unfolding execute_match ◌>>=◌
  execute_match_default missed =
      rw (read, pick_case-default b.rex_list b.state_list val st.error_state st.next_state missed)
        refl
