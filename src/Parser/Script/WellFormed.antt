-- ===== src/Parser/Script/WellFormed.antt =====
-- What parseScript leaves in the map: states that `verify` accepts, each under its own number.
use mathlib.Core.Path.{subst}
use smarty_appserver.Prelude.{
  ℤ, ◌≡◌, refl, true, Option, none, some, List, [], ◌∷◌, Text, All, arith,
}
use smarty_appserver.Errors.{ok, bind-ok, OnOk-any}
use smarty_appserver.Database.{DbMap}
use smarty_appserver.Parser.{Externals}
use smarty_appserver.State.{State}
use smarty_appserver.Parser.Script.Induction.{IsKept, read_lines-Keeps}
use smarty_appserver.State.Verify.{verify, verify_again}
use smarty_appserver.Parser.Script.{
  StateMap, find_state, Reading, read_lines, parse_script, start, null_if_empty,
}

-- The map's keys are the numbers of its states, and no two are equal.
abbrev pub IsVerified : ℤ × State → Type 0
IsVerified (k, s) = (s.number ≡ k) × (verify s ≡ (s, true))

abbrev pub IsDistinct : StateMap → Type 0
IsDistinct [] = Unit
IsDistinct ((k, s) ∷ m) = (find_state k m ≡ none) × IsDistinct m

abbrev pub IsWellFormed : StateMap → Type 0
IsWellFormed m = All IsVerified m × IsDistinct m

abbrev KeepsForm : Reading → Type 0
KeepsForm r = IsWellFormed r.states

KeepsForm-IsKept : (x : Externals) (fname : Text) → IsKept x fname KeepsForm
KeepsForm-IsKept x fname = record {
  opened = search;
  updated = λ r st st' b e h. h;
  parsed = λ r st line counter b h. OnOk-any _ (λ p. h);
  closed = λ r st st' b e missing h. (((refl, (verify_again st st' e).0), h.0), (missing, h.1));
}

module _ (x : Externals) (fname : Text) where
  -- When parseScript returns a map, whatever the lines of the file and whatever the regular
  -- expressions match, no number stands in it twice, and each state stands under its own number
  -- and is one that `verify` accepts and leaves as it is: a state is stored only after it is
  -- verified, once its goto defaults are filled in.
  pub parse_script-IsWellFormed :
      (lines : Option (List Text)) (dbs dbs' : DbMap) (m : StateMap)
      → parse_script x fname lines dbs ≡ ok (some m, dbs')
      → IsWellFormed m
  unfolding parse_script
  parse_script-IsWellFormed none dbs dbs' m h = absurd (ground arith)
  parse_script-IsWellFormed (some lines) dbs dbs' m h =
      let (r, (p, e)) = bind-ok _ (read_lines x fname (start dbs) lines 0) h in
      let form : KeepsForm r =
        (read_lines-Keeps x fname KeepsForm (KeepsForm-IsKept x fname) (start dbs) lines 0
            (tt, tt)).at
          r e in
      let kept : null_if_empty r.states ≡ some m = cc in
      subst IsWellFormed (stored r.states m kept) form
    where
      stored : (ms m : StateMap) → null_if_empty ms ≡ some m → ms ≡ m
      stored [] m e = cc
      stored (a ∷ ms) m e = cc
