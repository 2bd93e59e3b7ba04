-- ===== src/Assigner/Evaluate.antt =====
-- src/cassigner.cpp: evaluate and assign, and the virtual method getPropositional that they call.
pub mod Laws
pub mod Safety
pub mod Substitution
pub mod Segments
use smarty_appserver.Prelude.{
  ℕ, zero, suc, ◌+◌, ◌-◌, ◌^◌, ◌%◌, ℤ, pos, negsuc, Bool, true, false, ◌||◌, Option, none, some,
  List, [], ◌∷◌, ◌++◌, Text, length, get_elem?, take, drop, ltb, ◌==◌, if◌then◌else◌, c_str, maybe,
  maybe_pair,
}
use smarty_appserver.CppString.{substr, substr_from, first_char}
use smarty_appserver.Errors.{
  Result, ok, throw, exit, undefined, out_of_fuel, bad_lexical_cast, or_throw,
}
use smarty_appserver.Errors
use smarty_appserver.Action.{Action, pure, lift, ◌>>=◌, ◌>>◌}
use smarty_appserver.Regex.{regmatch_count}
use smarty_appserver.Parser.{Externals, RegName, is_variable, lexical_int}
use smarty_appserver.State.{
  State, Body, end, file, regex, query, match, http, mail, sms, script, shell, structure, goto,
  Assignment,
}
use smarty_appserver.World.{World, System, owned}
use smarty_appserver.Assigner.{get_local, get_global, get_value, assign_local, assign_global}

abbrev pub group_at : List (Option Text) → ℕ → Option Text
group_at l n = elim (get_elem? l n) [ some (some t) ↦ some t | _ ↦ none ]

-- CRegexState::getPropositional, after the cast: `num < REGMATCH_COUNT && m_substring[num]`.
abbrev pub regex_group : List (Option Text) → ℤ → Result (Option Text)
regex_group l (pos n) = if ltb n regmatch_count then ok (group_at l n) else ok none
regex_group l (negsuc n) = undefined

-- CQueryState::getPropositional: a NULL column is the empty string.
abbrev pub query_column : Option (List (Option Text)) → Option ℕ → Option Text
query_column none n = none
query_column (some row) none = none
query_column (some row) (some n) = elim (get_elem? row n) [
  | none ↦ none
  | some none ↦ some []
  | some (some t) ↦ some t
]

-- CStructureState::getPropositional: an empty value counts as none.
abbrev pub tree_value : Text → Option Text
tree_value [] = none
tree_value (c ∷ s) = some (c ∷ s)

module _ (x : Externals) where
  propositional_of : Body → Text → Result (Option Text)
  propositional_of (regex b) path = Errors.◌>>=◌ (lexical_int x path) (regex_group b.substring)
  propositional_of (query b) path = ok (query_column b.result (x.lexical_size path))
  propositional_of (structure b) path = ok (tree_value (b.tree path))
  propositional_of _ path = ok none

  abbrev named : Body → Bool
  named (regex b) = true
  named (query b) = true
  named (structure b) = true
  named _ = false

  -- `name.substr(1)` is inside the `try` of the query state.
  on_path : Body → Result Text → Result (Option Text)
  unfolding propositional_of
  on_path (query b) (throw e) = ok none
  on_path b r = Errors.◌>>=◌ r (propositional_of b)

  -- The other classes inherit CState::getPropositional, which returns nullptr.
  unfoldable pub get_propositional : State → Text → Result (Option Text)
  unfolding propositional_of on_path
  get_propositional st name =
      if named st.body then on_path st.body (substr_from name 1) else ok none

-- The first character of a variable.
abbrev pub is_sigil : ℕ → Bool
is_sigil c = c == b'@' || c == b'&' || c == b'$'

abbrev pub append_value : Text → Option Text → Text
append_value result none = result
append_value result (some val) = result ++ c_str val

-- A variable that is found in the text, with the number of characters that it takes.
abbrev pub Found : Type 0
Found = Option (Option Text × ℕ)

-- size_t arithmetic
abbrev pub sub64 : ℕ → ℕ → ℕ
sub64 a b = (a + 2 ^ 64 - b) % 2 ^ 64

module _ {S : Type 0} (x : Externals) (sys : System S) (st : State) where
  -- `else if(is_variable(src.substr(i), &so, &eo, name)) { val = …; matched = true; }`
  abbrev pub on_variable :
      Text
      → RegName
      → (ℕ → ℕ → Action (World S) (Option Text))
      → Action (World S) Found
      → Action (World S) Found
  on_variable rest name value other =
      lift (is_variable x rest name)
      >>= maybe_pair other (λ so eo. value so eo >>= λ val. pure (some (val, sub64 eo so)))

  -- The value of `src.substr(i, eo - so)`: the text from the current place, not from the match.
  abbrev pub value_here : Text → ℕ → ℕ → Action (World S) (Option Text)
  value_here rest so eo = get_value sys (take (sub64 eo so) rest)

  abbrev pub short_value : Text → ℕ → ℕ → Action (World S) (Option Text)
  short_value rest so eo = lift (substr rest 1 (sub64 (sub64 eo so) 1)) >>= λ name.
      get_value sys ((b'@' ∷ x.lexical_text st.number) ++ (b'.' ∷ name))

  -- The four tests, in order.
  unfoldable pub find_variable : Text → Action (World S) Found
  find_variable rest = on_variable rest RegName.lvar (value_here rest) (
      on_variable rest RegName.slvar (short_value rest) (
        on_variable rest RegName.gvar (value_here rest) (
          on_variable rest RegName.pvar
            (λ so eo. lift (get_propositional x st (take (sub64 eo so) rest))) (pure none))))

  -- The loop over `i`, on fuel; the text is what is left of `src`, and never empty after a sigil.
  unfoldable pub evaluate_loop : ℕ → Text → Text → Action (World S) Text
  evaluate_loop fuel [] result = pure result
  evaluate_loop zero (c ∷ rest) result = lift out_of_fuel
  evaluate_loop (suc fuel) (c ∷ rest) result =
      let escaped = evaluate_loop fuel (drop 1 rest) (result ++ first_char rest ∷ []) in
      let plain = evaluate_loop fuel rest (result ++ c ∷ []) in
      let variable =
        find_variable (c ∷ rest)
        >>= maybe_pair (evaluate_loop fuel rest (result ++ c ∷ []))
            (λ val len. evaluate_loop fuel (drop len (c ∷ rest)) (append_value result val)) in
      if c == b'\\' then escaped else if is_sigil c then variable else plain

  -- CAssigner::evaluate. Each round takes at least one character if no match is empty.
  unfoldable pub evaluate : Text → Action (World S) Text
  evaluate src = evaluate_loop (length src) src []

  candidate_by : ℕ → Text → Action (World S) (Option Text)
  candidate_by c term =
      if c == b'@'
      then get_local term
      else if c == b'&'
      then get_global sys term
      else if c == b'$'
      then lift (get_propositional x st term)
      else if c == b'"'
      then (evaluate (drop 1 term) >>= λ s. pure (some (c_str s)))
      else if c == b'\''
      then pure (some (c_str (drop 1 term)))
      else pure none

  -- The `switch` of `assign` on the first character of a term.
  unfoldable pub candidate : Text → Action (World S) (Option Text)
  unfolding candidate_by
  candidate term = candidate_by (first_char term) term

  -- The loop of `assign`: the first term that has a value.
  unfoldable pub first_value : List Text → Action (World S) (Option Text)
  first_value [] = pure none
  first_value (term ∷ rest) = candidate term >>= maybe (first_value rest) (λ val. pure (some val))

  abbrev pub assign_value : Text → Option Text → Action (World S) (Unit {0})
  assign_value var none = pure tt
  assign_value var (some val) =
      if first_char var == b'&'
      then assign_global sys var (some val)
      else assign_local var (some (owned val))

  -- CAssigner::assign. The list of `parseAssignment` is never empty.
  unfoldable pub assign : Assignment → Action (World S) (Unit {0})
  assign [] = lift undefined
  assign (var ∷ terms) = first_value terms >>= assign_value var

  -- The loop over m_assignments.
  unfoldable pub assign_all : List Assignment → Action (World S) (Unit {0})
  assign_all [] = pure tt
  assign_all (a ∷ rest) = assign a >> assign_all rest
