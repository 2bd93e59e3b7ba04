-- ===== src/Assigner/Evaluate/Segments/Meaning.antt =====
-- Evaluation against the reference semantics.
use smarty_appserver.Prelude.{
  ℕ, zero, suc, ◌≤◌, ◌≡◌, ◌∙◌, refl, sym, ap, true, false, Option, none, some, List, [], ◌∷◌, ◌++◌,
  Text, length, drop, ◌==◌, c_str, arith, append_assoc, append-nil, drop-append, length-append,
  maybe_pair,
}
use smarty_appserver.CppString.{first_char}
use smarty_appserver.Errors.{Result, ok, throw, exit, undefined, out_of_fuel, ◌>>=◌}
use smarty_appserver.Action.{Action}
use smarty_appserver.Action
use smarty_appserver.Parser.{Externals}
use smarty_appserver.State.{State}
use smarty_appserver.World.{World, System}
use smarty_appserver.Assigner.Evaluate.{is_sigil, evaluate_loop, evaluate, append_value}
use smarty_appserver.Assigner.Evaluate.Segments.{
  Segment, plain, escaped, lone, variable, text_of, AllRead, variable_value, meaning,
}
use smarty_appserver.Assigner.Evaluate.Segments.Found.{
  found, find_variable-found, find_variable-missed,
}

module _ {S : Type 0} (x : Externals) (sys : System S) (st : State) where
  -- What is there before goes in front of the rest.
  abbrev after_text : Text → Result Text → Result Text
  after_text result r = r >>= λ t. ok (result ++ t)

  one_more :
      (result : Text) (c : ℕ) (r : Result Text)
      → after_text (result ++ c ∷ []) r ≡ after_text result (r >>= λ t. ok (c ∷ t))
  one_more result c (ok t) = ap (λ s. ok s) (append_assoc result (c ∷ []) t)
  one_more result c (throw e) = refl
  one_more result c exit = refl
  one_more result c undefined = refl
  one_more result c out_of_fuel = refl

  value_more :
      (result : Text) (o : Option Text) (r : Result Text)
      → after_text (append_value result o) r
        ≡ after_text result (r >>= λ t. ok (append_value [] o ++ t))
  value_more result none (ok t) = refl
  value_more result (some val) (ok t) = ap (λ s. ok s) (append_assoc result (c_str val) t)
  value_more result o (throw e) = refl
  value_more result o exit = refl
  value_more result o undefined = refl
  value_more result o out_of_fuel = refl

  -- Where the rest gives `r` after a value, the variable and the rest give the value and `r`.
  value_first :
      (n : ℕ) (v : Result (Option Text)) (again : Option Text → ℕ → Action (World S) Text)
      (other : Action (World S) Text) (result : Text) (r : Result Text) (w : World S)
      → ((o : Option Text) → again o n w ≡ (after_text (append_value result o) r, w))
      → Action.continue (found x sys st n v) (maybe_pair other again) w
        ≡ (after_text result (v >>= λ o. r >>= λ t. ok (append_value [] o ++ t)), w)
  value_first n (ok o) again other result r w k = k o ∙ ap (λ q. (q, w)) (value_more result o r)
  value_first n (throw e) again other result r w k = refl
  value_first n exit again other result r w k = refl
  value_first n undefined again other result r w k = refl
  value_first n out_of_fuel again other result r w k = refl

  no_backslash : (c : ℕ) → is_sigil c ≡ true → (c == b'\\') ≡ false
  no_backslash c s = ground arith

  loop-meaning :
      (fuel : ℕ) (ss : List Segment) (result : Text) (w : World S)
      → AllRead x ss
      → length (text_of ss) ≤ fuel
      → evaluate_loop x sys st fuel (text_of ss) result w
        ≡ (after_text result (meaning x sys st ss w), w)
  unfolding evaluate_loop Action.◌>>=◌ first_char
  loop-meaning fuel [] result w h l = ap (λ t. (ok t, w)) (sym (append-nil result))
  loop-meaning zero (plain c ∷ ss) result w h l = absurd (omega arith)
  loop-meaning zero (escaped c ∷ ss) result w h l = absurd (omega arith)
  loop-meaning zero (lone c ∷ ss) result w h l = absurd (omega arith)
  loop-meaning zero (variable f c name ∷ ss) result w h l = absurd (omega arith)
  loop-meaning (suc fuel) (plain c ∷ ss) result w h l =
      let no_escape : (c == b'\\') ≡ false = ground (arith, h.0) in
      let no_sigil : is_sigil c ≡ false = ground (arith, h.0) in
      rw (no_escape, no_sigil)
        (loop-meaning fuel ss (result ++ c ∷ []) w h.1 (omega arith)
          ∙ ap (λ r. (r, w)) (one_more result c (meaning x sys st ss w)))
  loop-meaning (suc fuel) (escaped c ∷ ss) result w h l =
      loop-meaning fuel ss (result ++ c ∷ []) w h.1 (omega arith)
      ∙ ap (λ r. (r, w)) (one_more result c (meaning x sys st ss w))
  loop-meaning (suc fuel) (lone c ∷ ss) result w h l =
      rw (no_backslash c h.0.0, h.0.0, find_variable-missed x sys st c (text_of ss) w h.0)
        ((loop-meaning fuel ss (result ++ c ∷ []) w h.1 (omega arith)
          ∙ ap (λ r. (r, w)) (one_more result c (meaning x sys st ss w))))
  loop-meaning (suc fuel) (variable f c name ∷ ss) result w ((s, short, seen), h) l =
      rw (no_backslash c s, s, find_variable-found x sys st f c name (text_of ss) w s short seen)
        (value_first (suc (length name)) (variable_value x sys st f c name w)
          (λ o n.
            evaluate_loop x sys st fuel (drop n (c ∷ (name ++ text_of ss))) (append_value result o))
          (evaluate_loop x sys st fuel (name ++ text_of ss) (result ++ c ∷ [])) result
          (meaning x sys st ss w) w
          (λ o.
            ap (λ t. evaluate_loop x sys st fuel t (append_value result o) w)
              (drop-append name (text_of ss))
            ∙ loop-meaning fuel ss (append_value result o) w h
                (omega (arith, length-append name (text_of ss)))))

  -- A text of plain and escaped characters, signs that begin no variable and variables of the four
  -- forms, each recognized at its place by the regex of its form and by none before it: evaluation
  -- gives what the pieces stand for, from left to right, with the value of a variable up to its NUL and
  -- nothing for one that has none; where a variable fails, as one that memcached does not return, it
  -- fails in the same way. It changes nothing.
  pub evaluate-meaning :
      (ss : List Segment) (w : World S)
      → AllRead x ss
      → evaluate x sys st (text_of ss) w ≡ (meaning x sys st ss w, w)
  unfolding evaluate
  evaluate-meaning ss w h =
      loop-meaning (length (text_of ss)) ss [] w h (omega arith)
      ∙ ap (λ r. (r, w)) (bind-same (meaning x sys st ss w))
    where
      bind-same : (r : Result Text) → after_text [] r ≡ r
      bind-same (ok t) = refl
      bind-same (throw e) = refl
      bind-same exit = refl
      bind-same undefined = refl
      bind-same out_of_fuel = refl
