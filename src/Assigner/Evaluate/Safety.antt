-- ===== src/Assigner/Evaluate/Safety.antt =====
-- Evaluation and assignment over a table that owns its strings: they end, read no memory that is
-- gone, and leave such a table.
use smarty_appserver.Prelude.{
  ℕ, zero, suc, ◌^◌, ◌≤◌, ◌<◌, ◌≡◌, ◌≢◌, refl, ℤ, pos, negsuc, true, false, Option, none, some,
  List, [], ◌∷◌, ◌++◌, Text, All, length, drop, ◌==◌, arith, length-drop,
}
use smarty_appserver.CppString.{substr, substr_from, first_char}
use smarty_appserver.Errors.{Result, ok, throw, exit, undefined, out_of_fuel, or_throw}
use smarty_appserver.Errors
use smarty_appserver.Action.{Action}
use smarty_appserver.Action.Ensures.{
  Ensures, Returns, Any, Ensures-pure, Ensures-lift, Ensures-if, Ensures-bind, Ensures-maybe,
  Ensures-maybe_pair,
}
use smarty_appserver.Parser.{Externals, RegName, is_variable, lexical_int}
use smarty_appserver.Regex.{index}
use smarty_appserver.State.{State, Body, regex, query, structure, Assignment}
use smarty_appserver.World.{World, System, owned}
use smarty_appserver.Assigner.Held.{
  IsIntact, get_value-Intact, get_local-Intact, get_global-Intact, assign_local-Intact,
  assign_global-Intact,
}
use smarty_appserver.Assigner.Evaluate.{
  Found, sub64, on_variable, short_value, append_value, regex_group, propositional_of,
  get_propositional, find_variable, is_sigil, evaluate_loop, evaluate, candidate, assign_value,
  first_value, assign, assign_all,
}
use smarty_appserver.Assigner.Evaluate.Laws.{
  IsVariableName, IsLawful, IsPlain, drop-IsPlain, IsUnsigned, take-IsUnsigned, IsPlainAssignment,
}

abbrev Takes : Found → Type 0
Takes none = Unit
Takes (some (val, len)) = 0 < len

abbrev IsLocated : Option (ℕ × ℕ) → Type 0
IsLocated none = Unit
IsLocated (some (so, eo)) = (so < eo) × (eo < 2 ^ 64)

module _ (x : Externals) (lawful : IsLawful x) where
  regex_group-Returns :
      (l : List (Option Text)) (z : ℤ) → ((n : ℕ) → z ≢ negsuc n) → Returns Any (regex_group l z)
  regex_group-Returns l (pos n) h = ground arith
  regex_group-Returns l (negsuc n) h = absurd (h n refl)

  propositional_of-Returns :
      (b : Body) (path : Text)
      → (first_char path == b'-') ≡ false
      → Returns Any (propositional_of x b path)
  unfolding propositional_of lexical_int
  propositional_of-Returns (regex b) path h = go (x.lexical_int path) refl
    where
      go :
          (o : Option ℤ)
          → x.lexical_int path ≡ o
          → Returns Any
              (Errors.◌>>=◌ (or_throw o Errors.bad_lexical_cast) (regex_group b.substring))
      go none e = tt
      go (some (pos n)) e = ground arith
      go (some (negsuc n)) e = ground (arith, lawful.negative path n e)
  propositional_of-Returns (query b) path h = tt
  propositional_of-Returns (structure b) path h = tt
  propositional_of-Returns _ path h = tt

  get_propositional-Returns :
      (st : State) (name : Text) → IsUnsigned name → Returns Any (get_propositional x st name)
  unfolding get_propositional substr_from
  get_propositional-Returns st name h =
      ground (arith, propositional_of-Returns st.body (drop 1 name) h)

  is_variable-defined : (rest : Text) (name : RegName) → Returns Any (is_variable x rest name)
  unfolding is_variable index
  is_variable-defined rest name = ground arith

  is_variable-IsLocated :
      (rest : Text) (name : RegName)
      → IsVariableName name
      → Returns IsLocated (is_variable x rest name)
  is_variable-IsLocated rest name v =
      go (is_variable x rest name) refl (is_variable-defined rest name)
    where
      go :
          (r : Result (Option (ℕ × ℕ)))
          → is_variable x rest name ≡ r
          → Returns Any r
          → Returns IsLocated r
      go (ok none) e d = tt
      go (ok (some (so, eo))) e d = lawful.proper name rest so eo v e
      go (throw t) e d = tt
      go exit e d = tt
      go undefined e d = d
      go out_of_fuel e d = d

module _ {S : Type 0} {sel : Text} (x : Externals) (lawful : IsLawful x) (sys : System S)
    (st : State) where
  -- A test of the chain in `evaluate`.
  on_variable-Ensures :
      (rest : Text) (name : RegName) (value : ℕ → ℕ → Action (World S) (Option Text))
      (other : Action (World S) Found)
      → IsVariableName name
      → ((so eo : ℕ) → Ensures (IsIntact sel) Any (value so eo))
      → Ensures (IsIntact sel) Takes other
      → Ensures (IsIntact sel) Takes (on_variable x sys st rest name value other)
  on_variable-Ensures rest name value other v kv ko =
      Ensures-bind _ _ (Ensures-lift _ (is_variable-IsLocated x lawful rest name v)) (
        Ensures-maybe_pair IsLocated _ _ (λ _. ko)
          (λ so eo h. Ensures-bind _ _ (kv so eo) (λ val _. Ensures-pure _ (omega arith))))

  short_value-Ensures :
      (rest : Text) (so eo : ℕ)
      → Ensures (IsIntact {S = S} sel) Any (short_value x sys st rest so eo)
  unfolding substr
  short_value-Ensures rest so eo =
      Ensures-bind _ _ (Ensures-lift {Q = Any} _ (ground arith)) (λ name _. get_value-Intact sys _)

  find_variable-Ensures :
      (c : ℕ) (rest : Text)
      → is_sigil c ≡ true
      → IsPlain (c ∷ rest)
      → Ensures (IsIntact {S = S} sel) Takes (find_variable x sys st (c ∷ rest))
  unfolding find_variable
  find_variable-Ensures c rest k h =
      on_variable-Ensures _ RegName.lvar _ _ tt (λ so eo. get_value-Intact sys _)
        (on_variable-Ensures _ RegName.slvar _ _ tt (short_value-Ensures _) (
          on_variable-Ensures _ RegName.gvar _ _ tt (λ so eo. get_value-Intact sys _)
            (on_variable-Ensures _ RegName.pvar _ _ tt
              (λ so eo. Ensures-lift _ (
                get_propositional-Returns x lawful st _ (take-IsUnsigned (sub64 eo so) c rest k h)))
              (Ensures-pure _ tt))))

  -- Fuel for the characters that are left is enough.
  pub evaluate_loop-Ensures :
      (fuel : ℕ) (rest result : Text)
      → length rest ≤ fuel
      → IsPlain rest
      → Ensures (IsIntact {S = S} sel) Any (evaluate_loop x sys st fuel rest result)
  unfolding evaluate_loop
  evaluate_loop-Ensures fuel [] result h p = Ensures-pure _ tt
  evaluate_loop-Ensures zero (c ∷ rest) result h p = absurd (omega arith)
  evaluate_loop-Ensures (suc fuel) (c ∷ rest) result h p =
      let shorter : (n : ℕ) (r : Text)
          → Ensures (IsIntact {S = S} sel) Any (evaluate_loop x sys st fuel (drop n rest) r) =
        λ n r.
          evaluate_loop-Ensures fuel (drop n rest) r (omega (arith, length-drop n rest))
            (drop-IsPlain n rest p.1) in
      let sign = result ++ first_char rest ∷ [] in
      let kept = result ++ c ∷ [] in
      Ensures-if (c == b'\\') _ _ (λ _. shorter 1 sign)
        (λ _.
          Ensures-if (is_sigil c) _ _
            (λ k. Ensures-bind _ _ (find_variable-Ensures c rest k p) (
              Ensures-maybe_pair Takes _ _ (λ _. shorter 0 kept)
                (λ val len h. advance (λ n. shorter n (append_value result val)) len h)))
            (λ _. shorter 0 kept))
    where
      advance :
          {r : Text}
          → ((n : ℕ)
              → Ensures (IsIntact {S = S} sel) Any (evaluate_loop x sys st fuel (drop n rest) r))
          → (len : ℕ) → 0 < len
          → Ensures (IsIntact {S = S} sel) Any (evaluate_loop x sys st fuel (drop len (c ∷ rest)) r)
      advance f zero h = absurd (omega arith)
      advance f (suc n) h = f n

  pub evaluate-Ensures :
      (src : Text) → IsPlain src → Ensures (IsIntact {S = S} sel) Any (evaluate x sys st src)
  unfolding evaluate
  evaluate-Ensures src p = evaluate_loop-Ensures (length src) src [] (omega arith) p

  candidate-Ensures :
      (term : Text) → IsPlain term → Ensures (IsIntact {S = S} sel) Any (candidate x sys st term)
  unfolding candidate first_char
  candidate-Ensures [] p = Ensures-pure _ tt
  candidate-Ensures (c ∷ term) p =
      Ensures-if (c == b'@') _ _ (λ _. get_local-Intact _)
        (λ _.
          Ensures-if (c == b'&') _ _ (λ _. get_global-Intact sys _)
            (λ _.
              Ensures-if (c == b'$') _ _
                (λ k. Ensures-lift _ (get_propositional-Returns x lawful st _ (ground arith)))
                (λ _.
                  Ensures-if (c == b'"') _ _
                    (λ k. Ensures-bind _ _ (evaluate-Ensures term p.1) (λ s _. Ensures-pure _ tt))
                    (λ _.
                      Ensures-if (c == b'\'') _ _ (λ _. Ensures-pure _ tt)
                        (λ _. Ensures-pure _ tt)))))

  first_value-Ensures :
      (terms : List Text)
      → All IsPlain terms
      → Ensures (IsIntact {S = S} sel) Any (first_value x sys st terms)
  unfolding first_value
  first_value-Ensures [] p = Ensures-pure _ tt
  first_value-Ensures (term ∷ rest) p =
      Ensures-bind _ _ (candidate-Ensures term p.0)
        (Ensures-maybe Any _ _ (λ _. first_value-Ensures rest p.1) (λ val _. Ensures-pure _ tt))

  pub assign-Ensures :
      (a : Assignment)
      → IsPlainAssignment sel a
      → Ensures (IsIntact {S = S} sel) Any (assign x sys st a)
  unfolding assign
  assign-Ensures [] p = absurd p
  assign-Ensures (var ∷ terms) p = Ensures-bind _ _ (first_value-Ensures terms p.1) (λ v _. store v)
    where
      store : (v : Option Text) → Ensures (IsIntact {S = S} sel) Any (assign_value x sys st var v)
      store none = Ensures-pure _ tt
      store (some val) =
          Ensures-if (first_char var == b'&') _ _ (λ _. assign_global-Intact sys var val)
            (λ _. assign_local-Intact var (owned val) tt p.0)

  pub assign_all-Ensures :
      (asgs : List Assignment)
      → All (IsPlainAssignment sel) asgs
      → Ensures (IsIntact {S = S} sel) Any (assign_all x sys st asgs)
  unfolding assign_all
  assign_all-Ensures [] p = Ensures-pure _ tt
  assign_all-Ensures (a ∷ rest) p =
      Ensures-bind _ _ (assign-Ensures a p.0) (λ _ _. assign_all-Ensures rest p.1)

  -- Where the libraries are lawful: evaluation of a text in which no sign of a variable stands
  -- before a '-', over a table that owns its strings, ends (the text's length is enough fuel), reads
  -- no memory that is gone, and leaves such a table.
  pub evaluate_safe :
      (src : Text) (w : World S)
      → IsPlain src
      → IsIntact sel w
      → IsIntact sel (evaluate x sys st src w).1 × Returns Any (evaluate x sys st src w).0
  evaluate_safe src w p s = let run = evaluate-Ensures src p in (run.state w s, run.result w s)

  -- Where the libraries are lawful: a list of assignments, none of them empty, in whose terms no
  -- sign of a variable stands before a '-', over a table that owns its strings, ends, reads and
  -- frees no memory that is gone, and leaves such a table.
  pub assign_all_safe :
      (asgs : List Assignment) (w : World S)
      → All (IsPlainAssignment sel) asgs
      → IsIntact sel w
      → IsIntact sel (assign_all x sys st asgs w).1 × Returns Any (assign_all x sys st asgs w).0
  assign_all_safe asgs w p s =
      let run = assign_all-Ensures asgs p in (run.state w s, run.result w s)
