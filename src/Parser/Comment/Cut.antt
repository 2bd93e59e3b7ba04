-- ===== src/Parser/Comment/Cut.antt =====
-- What `parseScript` cuts off a line, in terms of the places of the comment sign and of the quotes.
use smarty_appserver.Prelude.{
  ℕ, ◌<◌, ◌≡◌, ◌⊎◌, inl, inr, none, some, [], ◌++◌, Text, take, drop, arith, append-nil, take-drop,
  Bool-cases, Option-cases,
}
use smarty_appserver.CppString.{find, rfind, rfind-none, find-take}
use smarty_appserver.Parser.Comment.{strip_comment, comment_place, is_comment_at}

-- The result is a beginning of the line: nothing is added or moved.
pub strip_comment-IsPrefix : (line : Text) → (rest : Text) × (strip_comment line ++ rest ≡ line)
unfolding strip_comment
strip_comment-IsPrefix line = elim (Option-cases (comment_place line)) [
  | inl e ↦ ([], rw (e, strip_comment) (append-nil line))
  | inr (sp, e) ↦ elim (Bool-cases (is_comment_at line sp)) [
    | inl cut ↦ (drop sp line, rw (e, cut, strip_comment) (take-drop sp line))
    | inr kept ↦ ([], rw (e, kept, strip_comment) (append-nil line))
  ]
]

module _ (line : Text) (sp : ℕ) (place : comment_place line ≡ some sp) where
  -- On a line without quotes the comment goes, with its sign.
  pub strip_comment_unquoted :
      find 0x22 line ≡ none → find 0x27 line ≡ none → strip_comment line ≡ take sp line
  unfolding strip_comment
  strip_comment_unquoted d s =
      rw (place, strip_comment) (ground (arith, rfind-none 0x22 line d, rfind-none 0x27 line s))

  module _ (l r : ℕ) (left : find 0x22 line ≡ some l) (right : rfind 0x22 line ≡ some r) where
    -- On a line with double quotes alone, a comment sign between the first and the last quote is
    -- text: the line stays whole.
    pub strip_comment_inside : find 0x27 line ≡ none → l < sp → sp < r → strip_comment line ≡ line
    unfolding strip_comment
    strip_comment_inside s h k = rw (place, strip_comment) (ground (arith, rfind-none 0x27 line s))

    -- On a line with double quotes alone, a comment sign before the first quote or after the last one
    -- begins a comment: the line is cut there.
    pub strip_comment_outside :
        find 0x27 line ≡ none → (sp < l) ⊎ (r < sp) → strip_comment line ≡ take sp line
    unfolding strip_comment
    strip_comment_outside s h = rw (place, strip_comment) (ground (arith, rfind-none 0x27 line s))

hash_place : (line : Text) (j : ℕ) → find b'#' line ≡ some j → comment_place line ≡ some j
unfolding comment_place
hash_place line j h = rw h

-- A '#' inside a comment that begins with ';' hides that ';': the cut is at the '#', and what
-- stands between the two signs stays on the line.
pub strip_comment_semicolon_kept :
    (line : Text) (i j : ℕ)
    → find 0x22 line ≡ none
    → find 0x27 line ≡ none
    → find b';' line ≡ some i
    → find b'#' line ≡ some j
    → i < j
    → (strip_comment line ≡ take j line) × (find b';' (strip_comment line) ≡ some i)
strip_comment_semicolon_kept line i j d s semi hash h =
    let cut = strip_comment_unquoted line j (hash_place line j hash) d s in
    (cut, rw cut (find-take b';' line i j semi h))
