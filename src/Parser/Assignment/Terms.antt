-- ===== src/Parser/Assignment/Terms.antt =====
-- src/parser.cpp, parseAssignment: the loop over the terms ends.
use smarty_appserver.Prelude.{ℕ, ◌<◌, ◌≡◌, ℤ, Option, none, some, List, [], ◌∷◌, Text, get_elem?}
use smarty_appserver.Errors.{ok}
use smarty_appserver.Regex.{Groups}
use smarty_appserver.State.{Assignment}
use smarty_appserver.Parser.{Externals, RegName, is_matched}
use smarty_appserver.Parser.Assignment.{RightSide, terms, quoted_single, quoted_double, left_side}

-- The regexes of the loop.
abbrev pub IsTermName : RegName → Type 0
IsTermName RegName.def_local_var = Unit
IsTermName RegName.def_global_var = Unit
IsTermName RegName.def_prop = Unit
IsTermName RegName.def_json = Unit
IsTermName RegName.def_local_short = Unit
IsTermName _ = ⊥

-- The first group does not end at the start of the text.
abbrev pub IsTerm : Option Groups → Type 0
IsTerm none = Unit
IsTerm (some g) = (so eo : ℕ) → get_elem? g 1 ≡ some (some (so, eo)) → 0 < eo

-- The list that an assignment with this left side gives: the variable, and then the terms, or one
-- term with its quote.
abbrev pub Follows : Text × RightSide × Groups → Assignment → Type 0
Follows (varname, terms, g) a = (ts : List Text) × (a ≡ varname ∷ ts)
Follows (varname, quoted_single, g) a = (s : Text) × (a ≡ varname ∷ (b'\'' ∷ s) ∷ [])
Follows (varname, quoted_double, g) a = (s : Text) × (a ≡ varname ∷ (b'"' ∷ s) ∷ [])

module _ (x : Externals) (statenum : ℤ) (file : Text) (counter : ℕ) where
  -- What the loop relies on: a term's regex matches no empty text.
  abbrev pub TakesText : Type 0
  TakesText =
      (name : RegName) (s : Text) (o : Option Groups)
      → IsTermName name
      → is_matched x name s file counter ≡ ok o
      → IsTerm o

  -- What parseAssignment makes of a line: an assignment to the variable of the left side.
  abbrev pub IsAssignment : Text → Assignment → Type 0
  IsAssignment line a =
      (p : Text × RightSide × Groups) × (left_side x statenum file counter line ≡ ok p)
      × Follows p a
