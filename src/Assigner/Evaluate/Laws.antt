-- ===== src/Assigner/Evaluate/Laws.antt =====
-- What evaluation relies on: of the regexes and conversions, and of the texts of a script.
use smarty_appserver.Prelude.{
  ℕ, zero, suc, ◌^◌, ◌<◌, ◌≡◌, negsuc, true, false, ◌&&◌, some, [], ◌∷◌, Text, All, take, drop,
  ◌==◌, arith,
}
use smarty_appserver.CppString.{first_char}
use smarty_appserver.Errors.{ok}
use smarty_appserver.Parser.{Externals, RegName, is_variable}
use smarty_appserver.State.{Assignment}
use smarty_appserver.Assigner.Held.{Avoids}
use smarty_appserver.Assigner.Evaluate.{is_sigil}

-- The four regexes of a variable.
abbrev pub IsVariableName : RegName → Type 0
IsVariableName RegName.lvar = Unit
IsVariableName RegName.slvar = Unit
IsVariableName RegName.gvar = Unit
IsVariableName RegName.pvar = Unit
IsVariableName _ = ⊥

-- What the program relies on: a variable's regex matches no empty text, and a number that the
-- conversion finds negative begins with '-'.
pub record IsLawful (x : Externals) : Type 0 where
  pub proper :
      (name : RegName) (rest : Text) (so eo : ℕ)
      → IsVariableName name
      → is_variable x rest name ≡ ok (some (so, eo))
      → (so < eo) × (eo < 2 ^ 64)
  pub negative :
      (s : Text) (n : ℕ) → x.lexical_int s ≡ some (negsuc n) → (first_char s == b'-') ≡ true

-- No sign of a variable stands directly before a '-'.
abbrev pub IsPlain : Text → Type 0
IsPlain [] = Unit
IsPlain (c ∷ s) = ((is_sigil c && first_char s == b'-') ≡ false) × IsPlain s

pub drop-IsPlain : (n : ℕ) (s : Text) → IsPlain s → IsPlain (drop n s)
drop-IsPlain zero s h = h
drop-IsPlain (suc n) [] h = tt
drop-IsPlain (suc n) (c ∷ s) h = drop-IsPlain n s h.1

-- The last variable of a name is not negative.
abbrev pub IsUnsigned : Text → Type 0
IsUnsigned name = (first_char (drop 1 name) == b'-') ≡ false

first_char-take :
    (n : ℕ) (s : Text) → (first_char s == b'-') ≡ false → (first_char (take n s) == b'-') ≡ false
unfolding first_char
first_char-take zero s h = ground arith
first_char-take (suc n) [] h = ground arith
first_char-take (suc n) (c ∷ s) h = h

pub take-IsUnsigned :
    (n c : ℕ) (s : Text) → is_sigil c ≡ true → IsPlain (c ∷ s) → IsUnsigned (take n (c ∷ s))
unfolding first_char
take-IsUnsigned zero c s k h = ground arith
take-IsUnsigned (suc n) c s k h = first_char-take n s (rw k at (h.0))

-- An assignment that the parser can have made, to another variable than `sel`.
abbrev pub IsPlainAssignment : Text → Assignment → Type 0
IsPlainAssignment sel [] = ⊥
IsPlainAssignment sel (var ∷ terms) = Avoids sel var × All IsPlain terms
