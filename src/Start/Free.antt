-- ===== src/Start/Free.antt =====
-- src/appserver.cpp, freeAllScripts: a map is freed once for each name that stands for it.
use smarty_appserver.Prelude.{
  ◌≡◌, ◌↔◌, refl, false, Option, none, some, List, [], ◌∷◌, Text, All, lookup, insert,
  lookup-insert, text_eq, arith, Bool-cases, inl, inr,
}
use smarty_appserver.Errors.{Result, ok, undefined}
use smarty_appserver.Parser.Script.{StateMap}

-- The maps that are there. The begin of a null pointer is undefined, and a map that has been freed
-- is no better.
abbrev free_one :
    Text
    → List (Text × Option StateMap)
    → Option (Option StateMap)
    → (List (Text × Option StateMap) → Result (Unit {0}))
    → Result (Unit {0})
free_one fname maps none rest = undefined
free_one fname maps (some none) rest = undefined
free_one fname maps (some (some m)) rest = rest (insert fname none maps)

unfoldable pub free_all_scripts :
    List (Text × Text) → List (Text × Option StateMap) → Result (Unit {0})
free_all_scripts [] maps = ok tt
free_all_scripts ((name, fname) ∷ names) maps =
    free_one fname maps (lookup fname maps) (free_all_scripts names)

-- Every name has a file of its own, and the file has states.
abbrev pub HasStates : List (Text × Option StateMap) → Text × Text → Type 0
HasStates maps (name, fname) = (m : StateMap) × (lookup fname maps ≡ some (some m))

abbrev pub IsOtherFile : Text → Text × Text → Type 0
IsOtherFile fname (name, other) = text_eq fname other ≡ false

abbrev pub HaveOwnFiles : List (Text × Text) → Type 0
HaveOwnFiles [] = Unit
HaveOwnFiles ((name, fname) ∷ names) = All (IsOtherFile fname) names × HaveOwnFiles names

-- With a file gone, the names that have states are those of the other files.
still_there :
    (fname : Text) (names : List (Text × Text)) (maps : List (Text × Option StateMap))
    → All (IsOtherFile fname) names
    → All (HasStates maps) names
    → All (HasStates (insert fname none maps)) names
still_there fname [] maps o h = tt
still_there fname ((name, other) ∷ names) maps o h =
    ((h.0.0, rw (lookup-insert, o.0) (h.0.1)), still_there fname names maps o.1 h.1)

were_there :
    (fname : Text) (names : List (Text × Text)) (maps : List (Text × Option StateMap))
    → All (HasStates (insert fname none maps)) names
    → All (IsOtherFile fname) names × All (HasStates maps) names
were_there fname [] maps h = (tt, tt)
were_there fname ((name, other) ∷ names) maps h =
    let (rest_other, rest) = were_there fname names maps h.1 in
    elim (Bool-cases (text_eq fname other)) [
      | inl hit ↦ absurd (ground (arith, h.0.1, lookup-insert fname other none maps))
      | inr miss ↦ (
        (miss, rest_other),
        ((h.0.0, ground (arith, h.0.1, lookup-insert fname other none maps)), rest),
      )
    ]

free_one-ends :
    (name fname : Text) (names : List (Text × Text)) (maps : List (Text × Option StateMap))
    (o : Option (Option StateMap))
    → lookup fname maps ≡ o
    → (free_all_scripts names (insert fname none maps) ≡ ok tt)
      ↔ (All (HasStates (insert fname none maps)) names × HaveOwnFiles names)
    → (free_one fname maps o (free_all_scripts names) ≡ ok tt)
      ↔ (All (HasStates maps) ((name, fname) ∷ names) × HaveOwnFiles ((name, fname) ∷ names))
free_one-ends name fname names maps none e k =
    (λ r. absurd (ground arith), λ h. absurd (ground (arith, e, h.0.0.1)))
free_one-ends name fname names maps (some none) e k =
    (λ r. absurd (ground arith), λ h. absurd (ground (arith, e, h.0.0.1)))
free_one-ends name fname names maps (some (some m)) e k = (
  λ r.
      let (there, own) = k.0 r in
      let (others, states) = were_there fname names maps there in (((m, e), states), (others, own)),
  λ h. k.1 (still_there fname names maps h.1.0 h.0.1, h.1.1),
)

-- freeAllScripts comes back exactly where every name stands for a file of its own and every file has
-- states. With two names for one file, which the comment above the maps allows, it frees that file's
-- map twice; a file without states has a null map, which it reads through.
pub free_all_scripts_ends :
    (names : List (Text × Text)) (maps : List (Text × Option StateMap))
    → (free_all_scripts names maps ≡ ok tt) ↔ (All (HasStates maps) names × HaveOwnFiles names)
unfolding free_all_scripts
free_all_scripts_ends [] maps = (λ e. (tt, tt), λ h. refl)
free_all_scripts_ends ((name, fname) ∷ names) maps =
    free_one-ends name fname names maps (lookup fname maps) refl
      (free_all_scripts_ends names (insert fname none maps))
