-- ===== src/Parser/Comment.antt =====
-- src/parser.cpp, parseScript: the cut of a comment.
pub mod Cut
pub mod Quotes
use smarty_appserver.Prelude.{
  ℕ, Bool, true, false, ◌&&◌, ◌||◌, Option, none, some, Text, take, ltb, if◌then◌else◌,
}
use smarty_appserver.CppString.{find, rfind}

abbrev or_find : Option ℕ → Option ℕ → Option ℕ
or_find (some i) o = some i
or_find none o = o

-- The place of '#', or of ';' if the line has no '#'.
unfoldable pub comment_place : Text → Option ℕ
comment_place line = or_find (find b'#' line) (find b';' line)

abbrev before : ℕ → Option ℕ → Bool
before sp none = false
before sp (some q) = ltb sp q

abbrev after : ℕ → Option ℕ → Bool
after sp none = false
after sp (some q) = ltb q sp

abbrev absent : Option ℕ → Bool
absent none = true
absent (some q) = false

-- The five tests on the first and the last double and single quotes.
unfoldable pub is_comment_at : Text → ℕ → Bool
is_comment_at line sp =
    let ldq = find 0x22 line in
    let rdq = rfind 0x22 line in
    let lsq = find 0x27 line in
    let rsq = rfind 0x27 line in
    before sp ldq
    || after sp rdq
    || before sp lsq
    || after sp rsq
    || (absent ldq && absent rdq && absent lsq && absent rsq)

unfoldable pub strip_comment : Text → Text
unfolding comment_place is_comment_at
strip_comment line = elim (comment_place line) [
  | none ↦ line
  | some sp ↦ if is_comment_at line sp then take sp line else line
]
