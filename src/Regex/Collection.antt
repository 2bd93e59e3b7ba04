-- ===== src/Regex/Collection.antt =====
-- src/cregex.cpp: CRegexCollection::fill and add.
pub mod Lines
pub mod Dump
use smarty_appserver.Prelude.{
  ℕ, zero, suc, ◌-◌, Option, none, some, List, [], ◌∷◌, ◌++◌, Text, length, take, drop, lookup,
  insert, ◌==◌, if◌then◌else◌, c_str,
}
use smarty_appserver.CppString.{find, rfind, first_char}
use smarty_appserver.Errors.{Result, ok, throw, out_of_fuel, ◌>>=◌, runtime_error, invalid_argument}
use smarty_appserver.Regex.{Regcomp, Collection, Regex, compile}

abbrev cons_line : ℕ → Text × Text → Text × Text
cons_line c (line, rest) = (c ∷ line, rest)

-- fgets: at most `n` bytes, up to the end of a line, and what is left of the file.
unfoldable pub fgets : ℕ → Text → Text × Text
fgets zero s = ([], s)
fgets (suc n) [] = ([], [])
fgets (suc n) (c ∷ s) = let more = fgets n s in if c == b'\n' then (c ∷ [], s) else cons_line c more

-- fgets(buf, sizeof(buf)-1, fd), with one byte for the NUL.
abbrev pub line_length : ℕ
line_length = 512 - 1 - 1

module _ (regcomp : Regcomp) where
  -- m_regmap[std::string(buf)] = new CRegex(split+1, REG_EXTENDED)
  unfoldable pub set_regex : Text → Text → Collection → Result Collection
  set_regex name reg c = compile regcomp reg >>= λ r. ok (insert name r c)

  abbrev pub on_split : Text → Collection → Option ℕ → Result Collection
  on_split text c none = throw runtime_error
  on_split text c (some n) = set_regex (take n text) (drop (suc n) text) c

  abbrev pub on_eol : Text → Collection → Option ℕ → Result Collection
  on_eol buf c none = throw runtime_error
  on_eol buf c (some n) = on_split (take n buf) c (find b'=' (take n buf))

  -- One line: a comment, an empty line, or "name=regex".
  unfoldable pub fill_line : Text → Collection → Result Collection
  fill_line buf c =
      if first_char buf == b'#'
      then ok c
      else if first_char buf == b'\n'
      then ok c
      else on_eol buf c (rfind b'\n' buf)

  -- The loop, on fuel: a line is what `fgets` reads, up to a NUL.
  unfoldable pub fill_lines : ℕ → Text → Collection → Result Collection
  fill_lines fuel [] c = ok c
  fill_lines zero (b ∷ s) c = out_of_fuel
  fill_lines (suc fuel) (b ∷ s) c =
      let (line, rest) = fgets line_length (b ∷ s) in
      fill_line (c_str line) c >>= λ c'. fill_lines fuel rest c'

  -- CRegexCollection::fill; `none` is a file that cannot be read.
  unfoldable pub fill : Option Text → Result Collection
  fill none = throw invalid_argument
  fill (some s) = fill_lines (length s) s []

-- CRegexCollection::add; `none` is a null pointer, and `regcomp` takes the flags.
unfoldable pub add : (ℕ → Regcomp) → Option Text → Option Text → ℕ → Collection → Result Collection
add regcomp none reg flags c = throw invalid_argument
add regcomp (some name) none flags c = throw invalid_argument
add regcomp (some name) (some reg) flags c = elim (lookup (c_str name) c) [
  | some r ↦ throw runtime_error
  | none ↦ set_regex (regcomp flags) (c_str name) reg c
]

-- operator<<: a line "name=pattern" for each entry.
unfoldable pub dump : Collection → Text
dump [] = []
dump ((name, r) ∷ c) = (name ++ b'=' ∷ r.pattern) ++ b'\n' ∷ dump c
