-- ===== src/Parser/Assignment.antt =====
-- src/parser.cpp: parseAssignment. An assignment is the variable and the terms to try in turn.
pub mod Terms
use smarty_appserver.Prelude.{ℕ, zero, suc, ℤ, Option, none, some, List, [], ◌∷◌, Text, length}
use smarty_appserver.Errors.{
  Result, ok, throw, out_of_fuel, ◌>>=◌, parser_error, syntax_error, assmnt_error,
}
use smarty_appserver.Regex.{Groups, capture, capture_from, capture_after}
use smarty_appserver.State.{Assignment}
use smarty_appserver.Parser.{Externals, RegName, is_matched, prepend_state, if_matched}

-- The three forms of the right side; the groups are those of the match.
pub data RightSide : Type 0 where
  terms quoted_single quoted_double : RightSide

module _ (x : Externals) (statenum : ℤ) (file : Text) (counter : ℕ) where
  abbrev try_match : RegName → Text → Result (Option Groups)
  try_match name line = is_matched x name line file counter

  -- `is_matched(a, …) || is_matched(b, …)`
  abbrev or_else : Result (Option Groups) → Result (Option Groups) → Result (Option Groups)
  or_else m n = m >>= λ o. elim o [ some g ↦ ok (some g) | none ↦ n ]

  abbrev long_left : Text → RightSide → Groups → Result (Text × RightSide × Groups)
  long_left line side g = do varname ← capture g 1 line; ok (varname, side, g)

  abbrev short_left : Text → RightSide → Groups → Result (Text × RightSide × Groups)
  short_left line side g = do
    varname ← capture g 1 line
    varname' ← prepend_state x varname statenum
    ok (varname', side, g)

  -- The nine forms of an assignment, in the order of the tests.
  unfoldable pub left_side : Text → Result (Text × RightSide × Groups)
  left_side line =
      if_matched
        (or_else (try_match RegName.local_equal line) (try_match RegName.global_equal line))
        (long_left line terms)
        (if_matched (try_match RegName.short_equal line) (short_left line terms) (
          if_matched
            (or_else (try_match RegName.local_streqs line) (try_match RegName.global_streqs line))
            (long_left line quoted_single)
            (if_matched (try_match RegName.short_streqs line) (short_left line quoted_single) (
              if_matched
                (or_else (try_match RegName.local_streqd line)
                  (try_match RegName.global_streqd line))
                (long_left line quoted_double)
                (if_matched (try_match RegName.short_streqd line) (short_left line quoted_double)
                  (throw (parser_error file syntax_error counter)))))))

  -- One round of the loop: the next term and the rest of the string.
  unfoldable pub next_term : Text → Result (Text × Text)
  next_term subs =
      if_matched
        (or_else (try_match RegName.def_local_var subs) (
          or_else (try_match RegName.def_global_var subs)
            (or_else (try_match RegName.def_prop subs) (try_match RegName.def_json subs))))
        (λ g. do varname ← capture g 1 subs; rest ← capture_after g 1 subs; ok (varname, rest))
        (if_matched (try_match RegName.def_local_short subs)
          (λ g. do
            short ← capture g 1 subs
            varname ← prepend_state x short statenum
            rest ← capture_after g 1 subs
            ok (varname, rest))
          (throw (parser_error file assmnt_error counter)))

  -- `while(subsref.length())`, on fuel.
  unfoldable pub parse_terms : ℕ → Text → Result (List Text)
  parse_terms fuel [] = ok []
  parse_terms zero (c ∷ s) = out_of_fuel
  parse_terms (suc fuel) (c ∷ s) =
      next_term (c ∷ s) >>= λ p. parse_terms fuel p.1 >>= λ ts. ok (p.0 ∷ ts)

  abbrev right_side : Text → Text × RightSide × Groups → Result Assignment
  right_side line (varname, terms, g) = do
    subs ← capture_from g 2 line
    ts ← parse_terms (length subs) subs
    ok (varname ∷ ts)
  right_side line (varname, quoted_single, g) = do
    s ← capture g 2 line
    ok (varname ∷ (b'\'' ∷ s) ∷ [])
  right_side line (varname, quoted_double, g) = do
    s ← capture g 2 line
    ok (varname ∷ (b'"' ∷ s) ∷ [])

  unfoldable pub parse_assignment : Text → Result Assignment
  parse_assignment line = left_side line >>= right_side line
