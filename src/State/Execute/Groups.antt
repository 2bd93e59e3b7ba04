-- ===== src/State/Execute/Groups.antt =====
-- src/regexstate.cpp: what `$n` is after a run of a regex state.
use smarty_appserver.Prelude.{
  ℕ, zero, suc, ◌-◌, ◌<◌, pos, ◌≡◌, refl, Option, none, some, List, [], ◌∷◌, Text, All, take, drop,
  get_elem?, replicate, arith,
}
use smarty_appserver.CppString.{substr_from}
use smarty_appserver.Errors.{ok}
use smarty_appserver.Action.{◌>>=◌}
use smarty_appserver.Regex.{Regex, Groups, matched, no_match, regexec, regmatch_count}
use smarty_appserver.Parser.{Externals, lexical_int}
use smarty_appserver.State.{State, RegexBody, regex}
use smarty_appserver.World.{World, System}
use smarty_appserver.Assigner.{get_value}
use smarty_appserver.Assigner.Evaluate.{get_propositional, group_at}
use smarty_appserver.State.Execute.Matching.{
  substrings, no_substrings, execute_regex, assign_and_go,
}

abbrev pub IsUsed : Option (ℕ × ℕ) → Type 0
IsUsed none = ⊥
IsUsed (some p) = Unit

-- The groups up to the first unused one are kept.
substrings_at :
    (n k : ℕ) (g : Groups) (val : Text) (so eo : ℕ)
    → k < n
    → All IsUsed (take k g)
    → get_elem? g k ≡ some (some (so, eo))
    → group_at (substrings n g val) k ≡ some (take (eo - so) (drop so val))
unfolding substrings
substrings_at zero k g val so eo h u e = absurd (omega arith)
substrings_at (suc n) k [] val so eo h u e = absurd (ground arith)
substrings_at (suc n) zero (none ∷ g) val so eo h u e = absurd (ground arith)
substrings_at (suc n) (suc k) (none ∷ g) val so eo h u e = absurd u.0
substrings_at (suc n) zero (some (a, b) ∷ g) val so eo h u e = ground arith
substrings_at (suc n) (suc k) (some (a, b) ∷ g) val so eo h u e =
    substrings_at n k g val so eo (omega arith) u.1 e

group_at-none : (n k : ℕ) → group_at (replicate n none) k ≡ none
group_at-none zero k = refl
group_at-none (suc n) zero = refl
group_at-none (suc n) (suc k) = group_at-none n k

-- The state with the groups of a run.
abbrev pub with_groups : State → RegexBody → List (Option Text) → State
with_groups st b l = record st { body = regex (record b { substring = l }) }

module _ {S : Type 0} (x : Externals) (sys : System S) (st : State) (b : RegexBody) (w w' : World S)
    (val : Text) (r : Regex) (read : get_value sys b.match_var w ≡ (ok (some val), w'))
    (compiled : b.regex ≡ some r) (c k : ℕ) (path : Text)
    (number : x.lexical_int path ≡ some (pos k)) where
  propositional_group :
      (l : List (Option Text))
      → k < regmatch_count
      → get_propositional x (with_groups st b l) (c ∷ path) ≡ ok (group_at l k)
  unfolding get_propositional substr_from lexical_int
  propositional_group l h = ground (arith, number)

  -- A regex state whose regex matches the value of its variable runs its assignments on the groups of
  -- that match, and whatever an earlier run has left: `$k` is then the text of the group k, if that group
  -- and those before it are used.
  pub execute_regex_group :
      (g : Groups) (so eo : ℕ)
      → regexec r val ≡ matched g
      → k < regmatch_count
      → All IsUsed (take k g)
      → get_elem? g k ≡ some (some (so, eo))
      → (execute_regex x sys st b w
          ≡ assign_and_go x sys st
              (with_groups st b (substrings regmatch_count g val))
              b.assignments
              w')
        × (get_propositional x (with_groups st b (substrings regmatch_count g val)) (c ∷ path)
            ≡ ok (some (take (eo - so) (drop so val))))
  unfolding execute_regex ◌>>=◌
  execute_regex_group g so eo m h used e =
      let step = propositional_group (substrings regmatch_count g val) h in
      (
        rw (read, compiled, m) refl,
        rw (step, substrings_at regmatch_count k g val so eo h used e) refl,
      )

  -- A regex state whose regex does not match goes to its error state, and no group of an earlier run
  -- is left: `$k` has no value.
  pub execute_regex_no_match :
      regexec r val ≡ no_match
      → k < regmatch_count
      → (execute_regex x sys st b w ≡ (ok (with_groups st b no_substrings, st.error_state), w'))
        × (get_propositional x (with_groups st b no_substrings) (c ∷ path) ≡ ok none)
  unfolding execute_regex ◌>>=◌
  execute_regex_no_match m h =
      let step = propositional_group no_substrings h in
      (rw (read, compiled, m) refl, rw (step, group_at-none regmatch_count k) refl)
