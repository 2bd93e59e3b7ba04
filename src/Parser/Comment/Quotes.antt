-- ===== src/Parser/Comment/Quotes.antt =====
-- Which comment signs `parseScript` takes for text.
use smarty_appserver.Prelude.{
  ℕ, ◌≤◌, ◌<◌, ◌≡◌, ◌⊎◌, inl, inr, none, some, Text, take, arith, Bool-cases, Option-cases, true,
  false, ltb, refl,
}
use smarty_appserver.CppString.{find, rfind, rfind-none, none-rfind}
use smarty_appserver.Parser.Comment.{strip_comment, comment_place, is_comment_at}

-- From the first to the last quote `q` of the line.
pub record IsBetween (q : ℕ) (line : Text) (sp : ℕ) : Type 0 where
  pub first : ℕ
  pub last : ℕ
  pub from : (find q line ≡ some first) × (first ≤ sp)
  pub to : (rfind q line ≡ some last) × (sp ≤ last)

abbrev pub IsAbsent : ℕ → Text → Type 0
IsAbsent q line = find q line ≡ none

-- Before the first quote `q`, or after the last one.
pub data IsBeside (q : ℕ) (line : Text) (sp : ℕ) : Type 0 where
  ahead : (l : ℕ) → find q line ≡ some l → sp < l → IsBeside q line sp
  behind : (r : ℕ) → rfind q line ≡ some r → r < sp → IsBeside q line sp

-- The double quotes are 0x22, the single ones 0x27.
pub data IsQuoted (line : Text) (sp : ℕ) : Type 0 where
  between_double : IsBetween 0x22 line sp → IsAbsent 0x27 line → IsQuoted line sp
  between_single : IsAbsent 0x22 line → IsBetween 0x27 line sp → IsQuoted line sp
  between_both : IsBetween 0x22 line sp → IsBetween 0x27 line sp → IsQuoted line sp

pub data IsComment (line : Text) (sp : ℕ) : Type 0 where
  unquoted : IsAbsent 0x22 line → IsAbsent 0x27 line → IsComment line sp
  beside_double : IsBeside 0x22 line sp → IsComment line sp
  beside_single : IsBeside 0x27 line sp → IsComment line sp

quotes_cases :
    (q : ℕ) (line : Text) (sp : ℕ) → IsAbsent q line ⊎ (IsBetween q line sp ⊎ IsBeside q line sp)
quotes_cases q line sp = elim (Option-cases (find q line)) [
  | inl absent ↦ inl absent
  | inr (l, first) ↦ elim (Option-cases (rfind q line)) [
    | inl absent ↦ inl (none-rfind q line absent)
    | inr (r, last) ↦ elim (Bool-cases (ltb sp l)) [
      | inl h ↦ inr (inr (ahead l first (ground arith)))
      | inr h ↦ elim (Bool-cases (ltb r sp)) [
        | inl k ↦ inr (inr (behind r last (ground arith)))
        | inr k ↦ inr (
            inl (record {
              first = l;
              last = r;
              from = (first, ground arith);
              to = (last, ground arith);
            }))
      ]
    ]
  ]
]

module _ (line : Text) (sp : ℕ) where
  quoted-is_comment_at : IsQuoted line sp → is_comment_at line sp ≡ false
  unfolding is_comment_at
  quoted-is_comment_at (between_double d s) =
      rw (d.from.0, d.to.0, s, rfind-none 0x27 line s) (ground (arith, d.from.1, d.to.1))
  quoted-is_comment_at (between_single d s) =
      rw (s.from.0, s.to.0, d, rfind-none 0x22 line d) (ground (arith, s.from.1, s.to.1))
  quoted-is_comment_at (between_both d s) =
      rw (d.from.0, d.to.0, s.from.0, s.to.0) (ground (arith, d.from.1, d.to.1, s.from.1, s.to.1))

  comment-is_comment_at : IsComment line sp → is_comment_at line sp ≡ true
  unfolding is_comment_at
  comment-is_comment_at (unquoted d s) =
      rw (d, s, rfind-none 0x22 line d, rfind-none 0x27 line s) refl
  comment-is_comment_at (beside_double (ahead l e h)) = rw e (ground arith)
  comment-is_comment_at (beside_double (behind r e h)) = rw e (ground arith)
  comment-is_comment_at (beside_single (ahead l e h)) = rw e (ground arith)
  comment-is_comment_at (beside_single (behind r e h)) = rw e (ground arith)

  sign_cases : IsQuoted line sp ⊎ IsComment line sp
  sign_cases = on (quotes_cases 0x22 line sp) (quotes_cases 0x27 line sp)
    where
      on :
          IsAbsent 0x22 line ⊎ (IsBetween 0x22 line sp ⊎ IsBeside 0x22 line sp)
          → IsAbsent 0x27 line ⊎ (IsBetween 0x27 line sp ⊎ IsBeside 0x27 line sp)
          → IsQuoted line sp ⊎ IsComment line sp
      on (inr (inr d)) s = inr (beside_double d)
      on d (inr (inr s)) = inr (beside_single s)
      on (inl d) (inl s) = inr (unquoted d s)
      on (inl d) (inr (inl s)) = inl (between_single d s)
      on (inr (inl d)) (inl s) = inl (between_double d s)
      on (inr (inl d)) (inr (inl s)) = inl (between_both d s)

  -- On any line with a comment sign, '#' or else the first ';': the line stays whole exactly where it
  -- has quotes, and the sign stands between the first and the last quote of each of the two kinds that
  -- the line has. Everywhere else the line is cut at the sign, so also where the sign is between double
  -- quotes and the line has single ones, all of them before it or all after it.
  pub strip_comment_cases :
      comment_place line ≡ some sp
      → (IsQuoted line sp × (strip_comment line ≡ line))
        ⊎ (IsComment line sp × (strip_comment line ≡ take sp line))
  unfolding strip_comment
  strip_comment_cases place = elim sign_cases [
    | inl q ↦ inl (q, rw (place, strip_comment, quoted-is_comment_at q) refl)
    | inr c ↦ inr (c, rw (place, strip_comment, comment-is_comment_at c) refl)
  ]
