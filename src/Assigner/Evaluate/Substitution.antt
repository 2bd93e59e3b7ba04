-- ===== src/Assigner/Evaluate/Substitution.antt =====
-- What evaluation makes of a text: literal characters, escapes, and the place of a variable.
use smarty_appserver.Prelude.{
  ℕ, zero, suc, ◌+◌, ◌-◌, ◌^◌, ◌≤◌, ◌<◌, ◌≡◌, ◌∙◌, refl, sym, ap, Bool, false, ◌||◌, Option, some,
  [], ◌∷◌, ◌++◌, Text, All, length, take, lookup, ◌==◌, if◌then◌else◌, c_str, arith, append_assoc,
  append-nil, Bool-cases, inl, inr, drop-append, take-append, length-append,
}
use smarty_appserver.CppString.{first_char}
use smarty_appserver.Errors.{ok}
use smarty_appserver.Action.{◌>>=◌}
use smarty_appserver.Parser.{Externals, RegName, is_variable}
use smarty_appserver.State.{State}
use smarty_appserver.World.{World, System, owned}
use smarty_appserver.Assigner.{get_value, strdup}
use smarty_appserver.Assigner.Evaluate.{is_sigil, find_variable, evaluate_loop, evaluate, sub64}

-- A character that evaluation does not copy as it is.
abbrev pub is_special : ℕ → Bool
is_special c = c == b'\\' || is_sigil c

-- How a script writes a text that is to be taken as it is.
abbrev pub escape : Text → Text
escape [] = []
escape (c ∷ s) = if is_special c then b'\\' ∷ c ∷ escape s else c ∷ escape s

abbrev pub IsLiteral : Text → Type 0
IsLiteral s = All (λ c. is_special c ≡ false) s

module _ {S : Type 0} (x : Externals) (sys : System S) (st : State) where
  escape_loop :
      (fuel : ℕ) (s result : Text) (w : World S)
      → length (escape s) ≤ fuel
      → evaluate_loop x sys st fuel (escape s) result w ≡ (ok (result ++ s), w)
  unfolding evaluate_loop ◌>>=◌ first_char
  escape_loop fuel [] result w h = rw append-nil
  escape_loop zero (c ∷ s) result w h = absurd (ground arith)
  escape_loop (suc fuel) (c ∷ s) result w h = elim (Bool-cases (is_special c)) [
    | inl special ↦ rw special (
        escape_loop fuel s (result ++ c ∷ []) w (ground arith)
        ∙ ap (λ (t : Text). (ok t, w)) (append_assoc result (c ∷ []) s))
    | inr plain ↦
        let no_escape : (c == b'\\') ≡ false = ground arith in
        let no_sigil : is_sigil c ≡ false = ground arith in
        rw (plain, no_escape, no_sigil)
          (escape_loop fuel s (result ++ c ∷ []) w (ground arith)
            ∙ ap (λ (t : Text). (ok t, w)) (append_assoc result (c ∷ []) s))
  ]

  -- Evaluation undoes the escapes of every text, whatever it holds, and changes nothing.
  pub evaluate-escape : (s : Text) (w : World S) → evaluate x sys st (escape s) w ≡ (ok s, w)
  unfolding evaluate
  evaluate-escape s w = escape_loop (length (escape s)) s [] w (omega arith)

  -- Literal characters in front are copied.
  literal_loop :
      (fuel : ℕ) (s rest result : Text) (w : World S)
      → IsLiteral s
      → evaluate_loop x sys st (length s + fuel) (s ++ rest) result w
        ≡ evaluate_loop x sys st fuel rest (result ++ s) w
  unfolding evaluate_loop
  literal_loop fuel [] rest result w h =
      let same : 0 + fuel ≡ fuel = omega arith in rw (same, append-nil)
  literal_loop fuel (c ∷ s) rest result w h =
      let no_escape : (c == b'\\') ≡ false = ground (arith, h.0) in
      let no_sigil : is_sigil c ≡ false = ground (arith, h.0) in
      let same : suc (length s) + fuel ≡ suc (length s + fuel) = omega arith in
      rw (same, no_escape, no_sigil)
        (literal_loop fuel s rest (result ++ c ∷ []) w h.1
          ∙ ap (λ (t : Text). evaluate_loop x sys st fuel rest t w)
              (append_assoc result (c ∷ []) s))

  find_variable_width :
      (c n : ℕ) (rest : Text) (so eo : ℕ) (o : Option Text) (w : World S)
      → (c == b'&') ≡ false
      → is_variable x (c ∷ rest) RegName.lvar ≡ ok (some (so, eo))
      → sub64 eo so ≡ suc n
      → strdup (lookup (c ∷ take n rest) w.table) ≡ ok o
      → find_variable x sys st (c ∷ rest) w ≡ (ok (some (o, suc n)), w)
  unfolding find_variable ◌>>=◌ get_value first_char
  find_variable_width c n rest so eo o w k m width e = rw (m, width, k) (rw e)

  -- From a '@' or a '$', where the regex of long variables matches at the offsets so and eo of the
  -- rest of the text: the name that is looked up in the table is not the text of the match but the
  -- eo - so characters from the current place, and as many are passed over.
  pub find_variable_long :
      (c : ℕ) (rest : Text) (so eo : ℕ) (o : Option Text) (w : World S)
      → (c == b'&') ≡ false
      → is_variable x (c ∷ rest) RegName.lvar ≡ ok (some (so, eo))
      → so < eo
      → eo < 2 ^ 64
      → strdup (lookup (take (eo - so) (c ∷ rest)) w.table) ≡ ok o
      → find_variable x sys st (c ∷ rest) w ≡ (ok (some (o, eo - so)), w)
  find_variable_long c rest so eo o w k m h l e = go (eo - so) refl
    where
      go : (d : ℕ) → eo - so ≡ d → find_variable x sys st (c ∷ rest) w ≡ (ok (some (o, eo - so)), w)
      go zero same = absurd (omega arith)
      go (suc n) same =
          rw same (find_variable_width c n rest so eo o w k m (omega arith) (rw same at e))

  literal_end :
      (fuel : ℕ) (s result : Text) (w : World S)
      → IsLiteral s
      → evaluate_loop x sys st (length s + fuel) s result w ≡ (ok (result ++ s), w)
  unfolding evaluate_loop ◌>>=◌
  literal_end fuel s result w h =
      ap (λ (t : Text). evaluate_loop x sys st (length s + fuel) t result w) (sym (append-nil s))
      ∙ literal_loop fuel s [] result w h

  module _ (name after : Text) (val : Text) (w : World S) (short : suc (length name) < 2 ^ 64)
      (found : is_variable x ((b'@' ∷ name) ++ after) RegName.lvar
        ≡ ok (some (0, suc (length name))))
      (set : lookup (b'@' ∷ name) w.table ≡ some (owned val)) where
    variable_step :
        (fuel : ℕ) (result : Text)
        → evaluate_loop x sys st (suc fuel) ((b'@' ∷ name) ++ after) result w
          ≡ evaluate_loop x sys st fuel after (result ++ c_str val) w
    unfolding evaluate_loop ◌>>=◌ strdup
    variable_step fuel result =
        rw
          (find_variable_width b'@' (length name) (name ++ after) 0 (suc (length name)) (some val) w
            refl found (omega arith) (rw (take-append, set)))
          (ap (λ (t : Text). evaluate_loop x sys st fuel t (result ++ c_str val) w)
            (drop-append name after))

    -- A variable of the table between literal texts, where the regex of long variables matches
    -- exactly it at its place, is replaced by its value (up to a NUL), and nothing else changes. Its
    -- name is shorter than 2 ^ 64.
    pub evaluate_variable :
        (before : Text)
        → IsLiteral before
        → IsLiteral after
        → evaluate x sys st (before ++ ((b'@' ∷ name) ++ after)) w
          ≡ (ok (before ++ (c_str val ++ after)), w)
    unfolding evaluate
    evaluate_variable before hb ha =
        let len : length (before ++ ((b'@' ∷ name) ++ after))
            ≡ length before + suc (length after + length name) =
          omega (arith, length-append before ((b'@' ∷ name) ++ after), length-append name after) in
        rw len (
          literal_loop (suc (length after + length name)) before ((b'@' ∷ name) ++ after) [] w hb
          ∙ variable_step (length after + length name) before
          ∙ literal_end (length name) after (before ++ c_str val) w ha
          ∙ ap (λ (t : Text). (ok t, w)) (append_assoc before (c_str val) after))
