-- ===== src/Assigner/Evaluate/Segments.antt =====
-- A reference semantics of texts with variables.
pub mod Found
pub mod Meaning
use smarty_appserver.Prelude.{
  ℕ, zero, suc, ◌^◌, ◌≤◌, ◌<◌, ◌≡◌, ◌∙◌, refl, sym, ap, true, false, Option, none, some, List, [],
  ◌∷◌, ◌++◌, Text, length, take, drop, ◌==◌, c_str, arith, append_assoc, append-nil, drop-append,
  take-append, length-append, ltb, maybe_pair, if-false, Bool-cases, Option-cases, inl, inr,
}
use smarty_appserver.CppString.{substr, first_char}
use smarty_appserver.Errors.{Result, ok, throw, exit, undefined, out_of_fuel, ◌>>=◌}
use smarty_appserver.Action.{Action}
use smarty_appserver.Action
use smarty_appserver.Parser.{Externals, RegName, is_variable}
use smarty_appserver.State.{State}
use smarty_appserver.World.{World, System}
use smarty_appserver.Assigner.{get_value, get_local, get_global}
use smarty_appserver.Assigner.Evaluate.{
  is_sigil, on_variable, find_variable, value_here, short_value, evaluate_loop, evaluate, sub64,
  append_value, get_propositional,
}
use smarty_appserver.Assigner.Evaluate.Substitution.{is_special}

-- The four ways to write a variable, in the order in which they are tried.
pub data Form : Type 0 where
  long_form short_form global_form prop_form : Form

-- A character, one after a backslash, a sign that begins no variable, or a variable: its sign and the
-- rest of what is written.
pub data Segment : Type 0 where
  plain escaped lone : ℕ → Segment
  variable : Form → ℕ → Text → Segment

abbrev pub written : Segment → Text
written (plain c) = c ∷ []
written (escaped c) = b'\\' ∷ c ∷ []
written (lone c) = c ∷ []
written (variable f c name) = c ∷ name

abbrev pub text_of : List Segment → Text
text_of [] = []
text_of (s ∷ ss) = written s ++ text_of ss

module _ (x : Externals) where
  abbrev pub Misses : Text → RegName → Type 0
  Misses t name = is_variable x t name ≡ ok none

  -- The regex of the form matches the first `n` characters, and those before it do not match.
  abbrev pub Recognizes : Form → Text → ℕ → Type 0
  Recognizes long_form t n = is_variable x t RegName.lvar ≡ ok (some (0, n))
  Recognizes short_form t n =
      Misses t RegName.lvar × (is_variable x t RegName.slvar ≡ ok (some (0, n)))
  Recognizes global_form t n =
      Misses t RegName.lvar
      × Misses t RegName.slvar
      × (is_variable x t RegName.gvar ≡ ok (some (0, n)))
  Recognizes prop_form t n =
      Misses t RegName.lvar
      × Misses t RegName.slvar
      × Misses t RegName.gvar
      × (is_variable x t RegName.pvar ≡ ok (some (0, n)))

  -- The segment is read as such before the text `after`.
  abbrev pub Reads : Segment → Text → Type 0
  Reads (plain c) after = is_special c ≡ false
  Reads (escaped c) after = Unit
  Reads (lone c) after =
      (is_sigil c ≡ true)
      × Misses (c ∷ after) RegName.lvar
      × Misses (c ∷ after) RegName.slvar
      × Misses (c ∷ after) RegName.gvar
      × Misses (c ∷ after) RegName.pvar
  Reads (variable f c name) after =
      (is_sigil c ≡ true)
      × (suc (length name) < 2 ^ 64)
      × Recognizes f (c ∷ (name ++ after)) (suc (length name))

  abbrev pub AllRead : List Segment → Type 0
  AllRead [] = Unit
  AllRead (s ∷ ss) = Reads s (text_of ss) × AllRead ss

module _ {S : Type 0} (x : Externals) (sys : System S) (st : State) where
  -- The value of a variable: of the table, of memcached, or of the state.
  abbrev pub variable_value : Form → ℕ → Text → World S → Result (Option Text)
  variable_value long_form c name w = (get_value sys (c ∷ name) w).0
  variable_value short_form c name w =
      (get_value sys ((b'@' ∷ x.lexical_text st.number) ++ (b'.' ∷ name)) w).0
  variable_value global_form c name w = (get_value sys (c ∷ name) w).0
  variable_value prop_form c name w = get_propositional x st (c ∷ name)

  -- What the segments stand for, from left to right: the first failure is that of the whole.
  abbrev pub meaning : List Segment → World S → Result Text
  meaning [] w = ok []
  meaning (plain c ∷ ss) w = meaning ss w >>= λ t. ok (c ∷ t)
  meaning (escaped c ∷ ss) w = meaning ss w >>= λ t. ok (c ∷ t)
  meaning (lone c ∷ ss) w = meaning ss w >>= λ t. ok (c ∷ t)
  meaning (variable f c name ∷ ss) w =
      variable_value f c name w >>= λ o. meaning ss w >>= λ t. ok (append_value [] o ++ t)
