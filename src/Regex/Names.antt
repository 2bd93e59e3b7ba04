-- ===== src/Regex/Names.antt =====
-- src/cregex.cpp: the lookups of CRegexCollection by a C string, whose exception has a text from a
-- buffer of 128 bytes.
use smarty_appserver.Prelude.{
  ℕ, ◌≤◌, ◌<◌, ◌≡◌, refl, false, Option, none, some, Text, length, lookup, c_str, ltb, lt→ltb,
  arith, Option-cases, inl, inr,
}
use smarty_appserver.Errors.{Result, ok, throw, undefined, runtime_error}
use smarty_appserver.Logging.{strncpy}
use smarty_appserver.Regex.{Regex, Collection, index}

-- sizeof errbuf
abbrev pub errbuf_size : ℕ
errbuf_size = 128

-- The exception copies `errbuf` up to a NUL; without one it reads past the end. strlcat adds nothing
-- to a buffer without a NUL.
abbrev not_found : Option Text → Result Regex
not_found none = undefined
not_found (some buf) = throw runtime_error

-- CRegexCollection::get, and operator [] on a const char* is the same code.
unfoldable pub get : Collection → Text → Result Regex
get c regname = elim (lookup (c_str regname) c) [
  | some r ↦ ok r
  | none ↦ not_found (strncpy regname errbuf_size)
]

-- A name that fits the buffer: the same as the lookup by a std::string.
pub get-index :
    (c : Collection) (regname : Text)
    → length (c_str regname) < errbuf_size
    → get c regname ≡ index c (c_str regname)
unfolding get index strncpy
get-index c regname h = elim (Option-cases (lookup (c_str regname) c)) [
  | inl missing ↦ rw (missing, get, lt→ltb (length (c_str regname)) errbuf_size h) refl
  | inr (r, there) ↦ rw (there, get) refl
]

-- A longer name that is not in the collection is read past the end of the buffer.
pub get_unterminated :
    (c : Collection) (regname : Text)
    → lookup (c_str regname) c ≡ none
    → errbuf_size ≤ length (c_str regname)
    → get c regname ≡ undefined
unfolding get strncpy
get_unterminated c regname missing h =
    let long : ltb (length (c_str regname)) errbuf_size ≡ false = ground arith in
    rw (missing, get, long) refl
