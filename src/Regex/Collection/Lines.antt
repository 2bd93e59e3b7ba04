-- ===== src/Regex/Collection/Lines.antt =====
-- What `fill` makes of a file of "name=regex" lines.
use smarty_appserver.Prelude.{
  ℕ, zero, suc, ◌≤◌, ◌<◌, ◌≡◌, ◌∙◌, refl, ap, false, some, List, [], ◌∷◌, ◌++◌, Text, All, length,
  drop, ◌==◌, c_str, arith, take-append, length-append,
}
use smarty_appserver.CppString.{find, rfind, first_char}
use smarty_appserver.Errors.{Result, ok, throw, exit, undefined, out_of_fuel, ◌>>=◌}
use smarty_appserver.Regex.{Regcomp, Collection}
use smarty_appserver.Regex.Collection.{fgets, line_length, set_regex, fill_line, fill_lines, fill}

-- A byte other than a NUL and an end of line.
abbrev pub IsLineByte : ℕ → Type 0
IsLineByte c = ((c == 0) ≡ false) × ((c == b'\n') ≡ false)

fgets_line :
    (n : ℕ) (l rest : Text)
    → All IsLineByte l
    → length l < n
    → fgets n (l ++ b'\n' ∷ rest) ≡ (l ++ b'\n' ∷ [], rest)
unfolding fgets
fgets_line zero l rest h k = absurd (omega arith)
fgets_line (suc n) [] rest h k = refl
fgets_line (suc n) (c ∷ l) rest h k = rw (h.0.1, fgets_line n l rest h.1 (omega arith)) refl

c_str_line : (l : Text) → All IsLineByte l → c_str (l ++ b'\n' ∷ []) ≡ l ++ b'\n' ∷ []
unfolding c_str
c_str_line [] h = refl
c_str_line (c ∷ l) h = rw (h.0.0, c_str_line l h.1) refl

rfind_end : (l : Text) → rfind b'\n' (l ++ b'\n' ∷ []) ≡ some (length l)
unfolding rfind
rfind_end [] = refl
rfind_end (c ∷ l) = rw (rfind_end l, rfind) refl

-- A name has no '='.
abbrev pub IsNameByte : ℕ → Type 0
IsNameByte c = (c == b'=') ≡ false

find_sign :
    (name reg : Text) → All IsNameByte name → find b'=' (name ++ b'=' ∷ reg) ≡ some (length name)
unfolding find
find_sign [] reg h = refl
find_sign (c ∷ name) reg h = rw (h.0, find_sign name reg h.1) refl

drop_sign : (name reg : Text) → drop (suc (length name)) (name ++ b'=' ∷ reg) ≡ reg
drop_sign [] reg = refl
drop_sign (c ∷ name) reg = drop_sign name reg

-- An entry that a file can hold: its line fits the buffer and is no comment.
abbrev pub IsEntry : Text × Text → Type 0
IsEntry (name, reg) =
    (All IsLineByte (name ++ b'=' ∷ reg) × All IsNameByte name)
    × ((length (name ++ b'=' ∷ reg) < line_length)
        × ((first_char (name ++ b'=' ∷ reg) == b'#') ≡ false))

-- The file of a list of entries.
abbrev pub library_file : List (Text × Text) → Text
library_file [] = []
library_file ((name, reg) ∷ es) = (name ++ b'=' ∷ reg) ++ b'\n' ∷ library_file es

module _ (regcomp : Regcomp) where
  -- The entries, compiled one after the other.
  abbrev pub set_all : List (Text × Text) → Collection → Result Collection
  set_all [] c = ok c
  set_all ((name, reg) ∷ es) c = set_regex regcomp name reg c >>= set_all es

  line_starts :
      (name reg : Text)
      → All IsLineByte (name ++ b'=' ∷ reg)
      → (first_char (name ++ b'=' ∷ reg) == b'#') ≡ false
      → ((first_char ((name ++ b'=' ∷ reg) ++ b'\n' ∷ []) == b'#') ≡ false)
        × ((first_char ((name ++ b'=' ∷ reg) ++ b'\n' ∷ []) == b'\n') ≡ false)
  unfolding first_char
  line_starts [] reg h k = (refl, refl)
  line_starts (c ∷ name) reg h k = (k, h.0.1)

  fill_line_entry :
      (name reg : Text) (c : Collection)
      → IsEntry (name, reg)
      → fill_line regcomp ((name ++ b'=' ∷ reg) ++ b'\n' ∷ []) c ≡ set_regex regcomp name reg c
  unfolding fill_line
  fill_line_entry name reg c h =
      let (no_comment, not_empty) = line_starts name reg h.0.0 h.1.1 in
      let whole = take-append (name ++ b'=' ∷ reg) (b'\n' ∷ []) in
      let sign = find_sign name reg h.0.1 in
      let front = take-append name (b'=' ∷ reg) in
      rw
        (
          no_comment,
          not_empty,
          rfind_end (name ++ b'=' ∷ reg),
          whole,
          sign,
          front,
          drop_sign name reg,
        )
        refl

  abbrev after_fgets : ℕ → Collection → Text × Text → Result Collection
  after_fgets fuel c (line, rest) =
      fill_line regcomp (c_str line) c >>= λ c'. fill_lines regcomp fuel rest c'

  fill_lines_step :
      (fuel : ℕ) (s : Text) (c : Collection)
      → 0 < length s
      → fill_lines regcomp (suc fuel) s c ≡ after_fgets fuel c (fgets line_length s)
  unfolding fill_lines
  fill_lines_step fuel [] c h = absurd (omega arith)
  fill_lines_step fuel (b ∷ s) c h = refl

  then_same :
      (m : Result Collection) (f g : Collection → Result Collection)
      → ((c : Collection) → f c ≡ g c)
      → (m >>= f) ≡ (m >>= g)
  then_same (ok c) f g h = h c
  then_same (throw e) f g h = refl
  then_same exit f g h = refl
  then_same undefined f g h = refl
  then_same out_of_fuel f g h = refl

  fill_lines_file :
      (fuel : ℕ) (es : List (Text × Text)) (c : Collection)
      → All IsEntry es
      → length (library_file es) ≤ fuel
      → fill_lines regcomp fuel (library_file es) c ≡ set_all es c
  unfolding fill_lines
  fill_lines_file fuel [] c h k = refl
  fill_lines_file zero ((name, reg) ∷ es) c h k =
      absurd (omega (arith, length-append (name ++ b'=' ∷ reg) (b'\n' ∷ library_file es)))
  fill_lines_file (suc fuel) ((name, reg) ∷ es) c h k =
      let size = length-append (name ++ b'=' ∷ reg) (b'\n' ∷ library_file es) in
      fill_lines_step fuel _ c (omega (arith, size))
      ∙ ap (after_fgets fuel c)
          (fgets_line line_length (name ++ b'=' ∷ reg) (library_file es) h.0.0.0 h.0.1.0)
      ∙ ap
          (λ (t : Text).
            fill_line regcomp t c >>= λ c'. fill_lines regcomp fuel (library_file es) c')
          (c_str_line (name ++ b'=' ∷ reg) h.0.0.0)
      ∙ ap (λ m. m >>= λ c'. fill_lines regcomp fuel (library_file es) c')
          (fill_line_entry name reg c h.0)
      ∙ then_same (set_regex regcomp name reg c) _ _
          (λ c'. fill_lines_file fuel es c' h.1 (omega (arith, size)))

  -- A file of "name=regex" lines, each of which fits the buffer, is no comment and has its first '='
  -- after the name, fills the collection with the compiled entries in their order, and fails where the
  -- compilation of one of them fails.
  pub fill-library_file :
      (es : List (Text × Text))
      → All IsEntry es
      → fill regcomp (some (library_file es)) ≡ set_all es []
  unfolding fill
  fill-library_file es h = fill_lines_file (length (library_file es)) es [] h (omega arith)
