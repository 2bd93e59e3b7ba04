-- ===== src/Regex/Collection/Dump.antt =====
-- What operator<< writes is a file that `fill` reads back.
use mathlib.Core.Path.{sym}
use smarty_appserver.Prelude.{
  ◌≡◌, ◌∙◌, refl, ap, none, some, List, [], ◌∷◌, ◌++◌, Text, All, lookup, insert, text_eq, arith,
  append_assoc, append-nil, Bool-cases, inl, inr,
}
use smarty_appserver.Errors.{ok}
use smarty_appserver.Regex.{Regcomp, Collection, Regex, compile}
use smarty_appserver.Regex.Collection.{set_regex, fill, dump}
use smarty_appserver.Regex.Collection.Lines.{IsEntry, library_file, set_all, fill-library_file}

abbrev entries : Collection → List (Text × Text)
entries [] = []
entries ((name, r) ∷ c) = (name, r.pattern) ∷ entries c

-- No name stands among those before it.
abbrev HaveNewNames : Collection → Collection → Type 0
HaveNewNames before [] = Unit
HaveNewNames before ((name, r) ∷ c) =
    (lookup name before ≡ none) × HaveNewNames (before ++ (name, r) ∷ []) c

-- A line of the library can hold the entry, and its regex is what its pattern compiles to.
abbrev pub IsCompiled : Regcomp → Text × Regex → Type 0
IsCompiled regcomp (name, r) = IsEntry (name, r.pattern) × (compile regcomp r.pattern ≡ ok r)

abbrev pub HaveOwnNames : Collection → Type 0
HaveOwnNames c = HaveNewNames [] c

dump-library_file : (c : Collection) → dump c ≡ library_file (entries c)
unfolding dump
dump-library_file [] = refl
dump-library_file ((name, r) ∷ c) = rw (dump-library_file c) refl

insert-new :
    (name : Text) (r : Regex) (c : Collection)
    → lookup name c ≡ none
    → insert name r c ≡ c ++ (name, r) ∷ []
unfolding insert lookup
insert-new name r [] e = refl
insert-new name r ((k, v) ∷ c) e = elim (Bool-cases (text_eq k name)) [
  | inl hit ↦ absurd (ground arith)
  | inr miss ↦ rw (miss, insert-new name r c (ground arith)) refl
]

module _ (regcomp : Regcomp) where
  entries-IsEntry : (c : Collection) → All (IsCompiled regcomp) c → All IsEntry (entries c)
  entries-IsEntry [] h = tt
  entries-IsEntry ((name, r) ∷ c) h = (h.0.0, entries-IsEntry c h.1)

  set_all-entries :
      (before c : Collection)
      → All (IsCompiled regcomp) c
      → HaveNewNames before c
      → set_all regcomp (entries c) before ≡ ok (before ++ c)
  unfolding set_regex
  set_all-entries before [] h new = ap ok (sym (append-nil before))
  set_all-entries before ((name, r) ∷ c) h new =
      rw (h.0.1, insert-new name r before new.0)
        (set_all-entries (before ++ (name, r) ∷ []) c h.1 new.1
          ∙ ap ok (append_assoc before ((name, r) ∷ []) c))

  -- A collection whose names are all different, whose lines fit the buffer of `fill` and whose regexes
  -- are what their patterns compile to is what `fill` makes of its dump.
  pub fill-dump :
      (c : Collection)
      → All (IsCompiled regcomp) c
      → HaveOwnNames c
      → fill regcomp (some (dump c)) ≡ ok c
  fill-dump c h new =
      rw (dump-library_file c)
        (fill-library_file regcomp (entries c) (entries-IsEntry c h) ∙ set_all-entries [] c h new)
