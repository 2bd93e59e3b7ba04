-- ===== src/State/Verify/Accepted.antt =====
-- What `verify` promises of the members of a state that it accepts.
use smarty_appserver.Prelude.{◌≡◌, refl, true, false, Option, none, some, length, ◌==◌, arith}
use smarty_appserver.Regex.{Regex}
use smarty_appserver.State.{State, Body, end, regex, query, match, mail}
use smarty_appserver.State.Verify.{
  non_empty, is_set, verify_end, verify_regex, verify_query, verify_match, verify_mail, verify_body,
  verify,
}

abbrev pub IsAccepted : Body → Type 0
IsAccepted (end b) = length b.out_list ≡ length b.interpret_flag
IsAccepted (regex b) = (r : Regex) × (b.regex ≡ some r)
IsAccepted (query b) = non_empty b.dbsection ≡ true
IsAccepted (match b) = length b.rex_list ≡ length b.state_list
IsAccepted (mail b) = (length b.from == 0) ≡ false
IsAccepted _ = Unit

set_regex_of : (o : Option Regex) → is_set o ≡ true → (r : Regex) × (o ≡ some r)
set_regex_of none h = absurd (ground arith)
set_regex_of (some r) h = (r, refl)

verify_body-IsAccepted : (s s' : State) (b : Body) → verify_body s b ≡ (s', true) → IsAccepted b
unfolding verify_body
verify_body-IsAccepted s s' (end b) h = let e : verify_end s b ≡ true = cc in ground arith
verify_body-IsAccepted s s' (regex b) h =
    let e : verify_regex s b ≡ true = cc in set_regex_of b.regex (ground arith)
verify_body-IsAccepted s s' (query b) h = let e : verify_query s b ≡ true = cc in ground arith
verify_body-IsAccepted s s' (match b) h = let e : verify_match s b ≡ true = cc in ground arith
verify_body-IsAccepted s s' (mail b) h = let e : verify_mail s b ≡ true = cc in ground arith
verify_body-IsAccepted s s' _ h = tt

pub verify-IsAccepted : (s s' : State) → verify s ≡ (s', true) → IsAccepted s.body
unfolding verify
verify-IsAccepted s s' h = verify_body-IsAccepted s s' s.body h
