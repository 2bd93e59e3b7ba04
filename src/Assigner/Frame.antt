-- ===== src/Assigner/Frame.antt =====
-- src/cassigner.cpp, assign: the terms of an assignment change nothing, so that a list of assignments
-- changes no variable but its own.
use smarty_appserver.Prelude.{
  ℕ, zero, suc, ◌≡◌, refl, false, Option, none, some, List, [], ◌∷◌, Text, All, length, drop,
  lookup, lookup-insert, text_eq, ◌==◌, Option-cases, inl, inr,
}
use smarty_appserver.CppString.{first_char}
use smarty_appserver.Errors.{Result, ok, throw, exit, undefined, out_of_fuel}
use smarty_appserver.Action.{Action}
use smarty_appserver.Action.Leaves.{
  Leaves, Leaves-pure, Leaves-lift, Leaves-if, Leaves-bind, Leaves-maybe, Leaves-maybe_pair,
}
use smarty_appserver.Parser.{Externals, RegName}
use smarty_appserver.State.{State, Assignment}
use smarty_appserver.World.{World, System, Value, owned}
use smarty_appserver.Assigner.{free, get_value, get_local, get_global, assign_local, assign_global}
use smarty_appserver.Assigner.Evaluate.{
  Found, on_variable, short_value, find_variable, evaluate_loop, evaluate, candidate, first_value,
  assign, assign_value, assign_all, is_sigil,
}

-- The entry of a variable.
abbrev variable : {S : Type 0} → Text → World S → Option Value
variable k w = lookup k w.table

-- An assignment to another variable.
abbrev pub Spares : Text → Assignment → Type 0
Spares k [] = Unit
Spares k (var ∷ terms) = text_eq var k ≡ false

module _ {S : Type 0} (x : Externals) (sys : System S) (st : State) (k : Text) where
  get_local-Leaves : (var : Text) → Leaves (variable k) (get_local {S = S} var)
  unfolding get_local
  get_local-Leaves var = record { same = λ w. refl }

  get_global-Leaves : (var : Text) → Leaves (variable k) (get_global sys var)
  unfolding get_global
  get_global-Leaves var = record {
    same = λ w. elim (Option-cases (sys.memcached_get w.ext var)) [
      | inl e ↦ rw (e, get_global) refl
      | inr (val, e) ↦ rw (e, get_global) refl
    ];
  }

  get_value-Leaves : (var : Text) → Leaves (variable k) (get_value sys var)
  unfolding get_value
  get_value-Leaves var =
      Leaves-if (first_char var == b'&') _ _ (get_global-Leaves var) (get_local-Leaves var)

  on_variable-Leaves :
      (rest : Text) (name : RegName) (value : ℕ → ℕ → Action (World S) (Option Text))
      (other : Action (World S) Found)
      → ((so eo : ℕ) → Leaves (variable k) (value so eo))
      → Leaves (variable k) other
      → Leaves (variable k) (on_variable x sys st rest name value other)
  on_variable-Leaves rest name value other kv ko =
      Leaves-bind _ _ (Leaves-lift _)
        (Leaves-maybe_pair _ _ ko (λ so eo. Leaves-bind _ _ (kv so eo) (λ val. Leaves-pure _)))

  short_value-Leaves :
      (rest : Text) (so eo : ℕ) → Leaves (variable k) (short_value x sys st rest so eo)
  short_value-Leaves rest so eo = Leaves-bind _ _ (Leaves-lift _) (λ name. get_value-Leaves _)

  find_variable-Leaves : (rest : Text) → Leaves (variable k) (find_variable x sys st rest)
  unfolding find_variable
  find_variable-Leaves rest =
      on_variable-Leaves rest RegName.lvar _ _ (λ so eo. get_value-Leaves _)
        (on_variable-Leaves rest RegName.slvar _ _ (short_value-Leaves rest) (
          on_variable-Leaves rest RegName.gvar _ _ (λ so eo. get_value-Leaves _)
            (on_variable-Leaves rest RegName.pvar _ _ (λ so eo. Leaves-lift _) (Leaves-pure _))))

  evaluate_loop-Leaves :
      (fuel : ℕ) (rest result : Text)
      → Leaves (variable k) (evaluate_loop x sys st fuel rest result)
  unfolding evaluate_loop
  evaluate_loop-Leaves fuel [] result = Leaves-pure _
  evaluate_loop-Leaves zero (c ∷ rest) result = Leaves-lift _
  evaluate_loop-Leaves (suc fuel) (c ∷ rest) result =
      let again = evaluate_loop-Leaves fuel in
      Leaves-if (c == b'\\') _ _ (again _ _) (
        Leaves-if (is_sigil c) _ _
          (Leaves-bind _ _ (find_variable-Leaves (c ∷ rest))
            (Leaves-maybe_pair _ _ (again _ _) (λ val len. again _ _)))
          (again _ _))

  evaluate-Leaves : (src : Text) → Leaves (variable k) (evaluate x sys st src)
  unfolding evaluate
  evaluate-Leaves src = evaluate_loop-Leaves (length src) src []

  candidate-Leaves : (term : Text) → Leaves (variable k) (candidate x sys st term)
  unfolding candidate
  candidate-Leaves term =
      let c = first_char term in
      Leaves-if (c == b'@') _ _ (get_local-Leaves term) (
        Leaves-if (c == b'&') _ _ (get_global-Leaves term) (
          Leaves-if (c == b'$') _ _ (Leaves-lift _) (
            Leaves-if (c == b'"') _ _
              (Leaves-bind _ _ (evaluate-Leaves (drop 1 term)) (λ s. Leaves-pure _))
              (Leaves-if (c == b'\'') _ _ (Leaves-pure _) (Leaves-pure _)))))

  first_value-Leaves : (terms : List Text) → Leaves (variable k) (first_value x sys st terms)
  unfolding first_value
  first_value-Leaves [] = Leaves-pure _
  first_value-Leaves (term ∷ rest) =
      Leaves-bind _ _ (candidate-Leaves term)
        (Leaves-maybe _ _ (first_value-Leaves rest) (λ val. Leaves-pure _))

  assign_local-Leaves :
      (var : Text) (val : Value)
      → text_eq var k ≡ false
      → Leaves (variable k) (assign_local {S = S} var (some val))
  unfolding assign_local
  assign_local-Leaves var val other = record { same = λ w. on w (free (lookup var w.table)) refl }
    where
      on :
          (w : World S) (r : Result (Unit {0}))
          → free (lookup var w.table) ≡ r
          → variable k (assign_local var (some val) w).1 ≡ variable k w
      on w (ok u) e = rw (e, assign_local) (rw (lookup-insert var k val w.table, other) refl)
      on w (throw t) e = rw (e, assign_local) refl
      on w exit e = rw (e, assign_local) refl
      on w undefined e = rw (e, assign_local) refl
      on w out_of_fuel e = rw (e, assign_local) refl

  assign_global-Leaves : (var val : Text) → Leaves (variable k) (assign_global sys var (some val))
  unfolding assign_global
  assign_global-Leaves var val = record {
    same = λ w. elim (Option-cases (sys.memcached_set w.ext var val)) [
      | inl e ↦ rw (e, assign_global) refl
      | inr (ext', e) ↦ rw (e, assign_global) refl
    ];
  }

  assign-Leaves : (a : Assignment) → Spares k a → Leaves (variable k) (assign x sys st a)
  unfolding assign
  assign-Leaves [] h = Leaves-lift _
  assign-Leaves (var ∷ terms) h = Leaves-bind _ _ (first_value-Leaves terms) store
    where
      store : (o : Option Text) → Leaves (variable k) (assign_value x sys st var o)
      store none = Leaves-pure _
      store (some val) =
          Leaves-if (first_char var == b'&') _ _ (assign_global-Leaves var val)
            (assign_local-Leaves var (owned val) h)

  assign_all-Leaves :
      (asgs : List Assignment)
      → All (Spares k) asgs
      → Leaves (variable k) (assign_all x sys st asgs)
  unfolding assign_all
  assign_all-Leaves [] h = Leaves-pure _
  assign_all-Leaves (a ∷ rest) h =
      Leaves-bind _ _ (assign-Leaves a h.0) (λ _. assign_all-Leaves rest h.1)

  -- Whatever the terms of a list of assignments are and wherever it ends, also by an exception or in
  -- undefined behaviour: a variable that is on none of the left sides is as it was before.
  pub assign_all_frame :
      (asgs : List Assignment) (w : World S)
      → All (Spares k) asgs
      → lookup k (assign_all x sys st asgs w).1.table ≡ lookup k w.table
  assign_all_frame asgs w h = (assign_all-Leaves asgs h).same w
