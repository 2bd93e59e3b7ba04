-- ===== src/Assigner/Evaluate/Segments/Found.antt =====
-- What find_variable gives at a piece of a text.
use smarty_appserver.Prelude.{
  ℕ, suc, ◌^◌, ◌<◌, ◌≡◌, ◌∙◌, refl, ap, true, false, Option, none, some, ◌∷◌, ◌++◌, Text, length,
  take, ◌==◌, arith, take-append, ltb, if-false, Bool-cases, Option-cases, inl, inr,
}
use smarty_appserver.CppString.{substr, first_char}
use smarty_appserver.Errors.{Result, ok, throw, exit, undefined, out_of_fuel, ◌>>=◌}
use smarty_appserver.Action.{Action}
use smarty_appserver.Action
use smarty_appserver.Parser.{Externals, RegName, is_variable}
use smarty_appserver.State.{State}
use smarty_appserver.World.{World, System}
use smarty_appserver.Assigner.{get_value, get_local, get_global}
use smarty_appserver.Assigner.Evaluate.{
  is_sigil, on_variable, find_variable, value_here, short_value, sub64, get_propositional,
}
use smarty_appserver.Assigner.Evaluate.Segments.{
  Form, long_form, short_form, global_form, prop_form, lone, Misses, Recognizes, Reads,
  variable_value,
}

module _ {S : Type 0} (x : Externals) (sys : System S) (st : State) where
  -- What a variable gives, with the number of its characters.
  abbrev pub found : ℕ → Result (Option Text) → Result (Option (Option Text × ℕ))
  found n r = r >>= λ o. ok (some (o, n))

  get_global-keeps : (name : Text) (w : World S) → (get_global sys name w).1 ≡ w
  unfolding get_global
  get_global-keeps name w = elim (Option-cases (sys.memcached_get w.ext name)) [
    | inl missing ↦ rw (missing, get_global) refl
    | inr (val, there) ↦ rw (there, get_global) refl
  ]

  get_value-keeps : (name : Text) (w : World S) → (get_value sys name w).1 ≡ w
  unfolding get_value get_local
  get_value-keeps name w = elim (Bool-cases (first_char name == b'&')) [
    | inl global ↦ rw global (get_global-keeps name w)
    | inr local ↦ rw local refl
  ]

  get_value_of : (name : Text) (w : World S) → get_value sys name w ≡ ((get_value sys name w).0, w)
  get_value_of name w = ap (λ v. ((get_value sys name w).0, v)) (get_value-keeps name w)

  then_found :
      (n : ℕ) (r : Result (Option Text)) (w : World S)
      → Action.continue r (λ val. Action.pure (some (val, n))) w ≡ (found n r, w)
  unfolding Action.◌>>=◌
  then_found n (ok o) w = refl
  then_found n (throw e) w = refl
  then_found n exit w = refl
  then_found n undefined w = refl
  then_found n out_of_fuel w = refl

  hit :
      (t : Text) (name : RegName) (n : ℕ) (value : ℕ → ℕ → Action (World S) (Option Text))
      (other : Action (World S) (Option (Option Text × ℕ))) (r : Result (Option Text)) (w : World S)
      → n < 2 ^ 64
      → is_variable x t name ≡ ok (some (0, n))
      → value 0 n w ≡ (r, w)
      → on_variable x sys st t name value other w ≡ (found n r, w)
  unfolding Action.◌>>=◌
  hit t name n value other r w l e v = rw (e, v, width) (then_found n r w)
    where
      width : sub64 n 0 ≡ n
      width = omega arith

  miss :
      (t : Text) (name : RegName) (value : ℕ → ℕ → Action (World S) (Option Text))
      (other : Action (World S) (Option (Option Text × ℕ))) (w : World S)
      → Misses x t name
      → on_variable x sys st t name value other w ≡ other w
  unfolding Action.◌>>=◌
  miss t name value other w e = rw e refl

  module _ (c : ℕ) (name after : Text) (w : World S) (short : suc (length name) < 2 ^ 64) where
    taken : take (sub64 (suc (length name)) 0) (c ∷ (name ++ after)) ≡ c ∷ name
    taken =
        let width : sub64 (suc (length name)) 0 ≡ suc (length name) = omega arith in
        ap (λ n. take n (c ∷ (name ++ after))) width ∙ ap (λ t. c ∷ t) (take-append name after)

    value-taken :
        value_here x sys st (c ∷ (name ++ after)) 0 (suc (length name)) w
        ≡ ((get_value sys (c ∷ name) w).0, w)
    value-taken = ap (λ t. get_value sys t w) taken ∙ get_value_of (c ∷ name) w

    short_name : substr (c ∷ (name ++ after)) 1 (sub64 (sub64 (suc (length name)) 0) 1) ≡ ok name
    unfolding substr
    short_name =
        let width : sub64 (sub64 (suc (length name)) 0) 1 ≡ length name = omega arith in
        let inside : ltb (suc (length (name ++ after))) 1 ≡ false = ground arith in
        if-false _ _ _ inside
        ∙ (ap (λ n. ok (take n (name ++ after))) width ∙ ap (λ t. ok t) (take-append name after))

    short-taken :
        short_value x sys st (c ∷ (name ++ after)) 0 (suc (length name)) w
        ≡ (variable_value x sys st short_form c name w, w)
    unfolding Action.◌>>=◌
    short-taken = rw short_name (get_value_of _ w)

    prop-taken :
        Action.lift
          (get_propositional x st (take (sub64 (suc (length name)) 0) (c ∷ (name ++ after))))
          w
        ≡ (variable_value x sys st prop_form c name w, w)
    unfolding Action.◌>>=◌
    prop-taken = ap (λ t. (get_propositional x st t, w)) taken

  pub find_variable-found :
      (f : Form) (c : ℕ) (name after : Text) (w : World S)
      → is_sigil c ≡ true
      → suc (length name) < 2 ^ 64
      → Recognizes x f (c ∷ (name ++ after)) (suc (length name))
      → find_variable x sys st (c ∷ (name ++ after)) w
        ≡ (found (suc (length name)) (variable_value x sys st f c name w), w)
  unfolding find_variable
  find_variable-found long_form c name after w s l r =
      hit _ RegName.lvar _ _ _ _ w l r (value-taken c name after w l)
  find_variable-found short_form c name after w s l (m, r) =
      miss _ RegName.lvar _ _ w m ∙ hit _ RegName.slvar _ _ _ _ w l r (short-taken c name after w l)
  find_variable-found global_form c name after w s l (m, m', r) =
      miss _ RegName.lvar _ _ w m
      ∙ (miss _ RegName.slvar _ _ w m'
          ∙ hit _ RegName.gvar _ _ _ _ w l r (value-taken c name after w l))
  find_variable-found prop_form c name after w s l (m, m', m'', r) =
      miss _ RegName.lvar _ _ w m
      ∙ (miss _ RegName.slvar _ _ w m'
          ∙ (miss _ RegName.gvar _ _ w m''
              ∙ hit _ RegName.pvar _ _ _ _ w l r (prop-taken c name after w l)))

  pub find_variable-missed :
      (c : ℕ) (after : Text) (w : World S)
      → Reads x (lone c) after
      → find_variable x sys st (c ∷ after) w ≡ (ok none, w)
  unfolding find_variable Action.◌>>=◌
  find_variable-missed c after w (s, m0, m1, m2, m3) =
      miss _ RegName.lvar _ _ w m0
      ∙ (miss _ RegName.slvar _ _ w m1
          ∙ (miss _ RegName.gvar _ _ w m2 ∙ miss _ RegName.pvar _ _ w m3))
