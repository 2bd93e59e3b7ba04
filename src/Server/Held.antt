-- ===== src/Server/Held.antt =====
-- The reads through scriptName: they find its string as long as the table holds it.
use smarty_appserver.Prelude.{
  ◌≡◌, refl, Option, none, some, Text, lookup, lookup-insert_self, lookup-insert, arith, Bool-cases,
  Option-cases, inl, inr, text_eq, text_eq_iff, ap, sym, ◌∙◌,
}
use mathlib.Core.Path.{subst}
use smarty_appserver.Errors.{ok}
use smarty_appserver.Assigner.Refinement.{Variables, Represents}
use smarty_appserver.Action.Ends.{Ends, Ends-ok}
use smarty_appserver.Action.Ensures.{Ensures, Any}
use smarty_appserver.World.{World, Value, owned, held, dangling, Table}
use smarty_appserver.Assigner.{strdup}
use smarty_appserver.State.{State}
use smarty_appserver.Assigner.Ownership.{IsSound, IsOwnedTable, lookup-IsOwned, insert-IsOwnedTable}
use smarty_appserver.Assigner.Held.{IsHeld, IsIntact}
use smarty_appserver.Server.{hold, hold_value, read_script_name}

-- The variable has a value.
abbrev pub HasValue : Text → Table → Type 0
HasValue var t = (v : Value) × (lookup var t ≡ some v)

hold_value-IsHeld :
    (var : Text) (v : Value) (t : Table)
    → lookup var t ≡ some v
    → IsOwnedTable t
    → IsOwnedTable (hold_value var (some v) t) × IsHeld var (hold_value var (some v) t)
hold_value-IsHeld var (owned s) t e h =
    (insert-IsOwnedTable var (held s) t tt h, (s, lookup-insert_self var (held s) t))
hold_value-IsHeld var (held s) t e h = (h, (s, e))
hold_value-IsHeld var dangling t e h = absurd (lookup-IsOwned var t dangling h e)

hold_value-strdup :
    (var k : Text) (o : Option Value) (t : Table)
    → lookup var t ≡ o
    → strdup (lookup k (hold_value var o t)) ≡ strdup (lookup k t)
unfolding strdup
hold_value-strdup var k none t e = refl
hold_value-strdup var k (some dangling) t e = refl
hold_value-strdup var k (some (held s)) t e = refl
hold_value-strdup var k (some (owned s)) t e = elim (Bool-cases (text_eq var k)) [
  | inl hit ↦
      let same : var ≡ k = (text_eq_iff var k).0 hit in
      let there : lookup k t ≡ some (owned s) = subst (λ j. lookup j t ≡ some (owned s)) same e in
      rw (lookup-insert var k (held s) t, hit, there) refl
  | inr miss ↦ rw (lookup-insert var k (held s) t, miss) refl
]

-- What strdup copies is there.
strdup-HasValue :
    (var name : Text) (t : Table) → strdup (lookup var t) ≡ ok (some name) → HasValue var t
unfolding strdup
strdup-HasValue var name t e = elim (Option-cases (lookup var t)) [
  | inl missing ↦ absurd (ground (arith, e, missing))
  | inr (v, there) ↦ (v, there)
]

-- The table stands for the same variables, and holds the string of the script's name.
pub hold_value-Represents :
    {S : Type 0} (sel name : Text) (m : Variables) (w : World S)
    → Represents m w
    → m sel ≡ some name
    → Represents m (record w { table = hold_value sel (lookup sel w.table) w.table })
      × IsHeld sel (hold_value sel (lookup sel w.table) w.table)
hold_value-Represents sel name m w (sound, holds) e =
    let (v, there) = strdup-HasValue sel name w.table (holds sel ∙ ap ok e) in
    let (owns, keeps) = hold_value-IsHeld sel v w.table there sound in
    let same : some v ≡ lookup sel w.table = sym there in
    (
      (
        subst (λ o. IsOwnedTable (hold_value sel o w.table)) same owns,
        λ k. hold_value-strdup sel k (lookup sel w.table) w.table refl ∙ holds k,
      ),
      subst (λ o. IsHeld sel (hold_value sel o w.table)) same keeps,
    )

module _ {S : Type 0} where
  pub read_script_name-Intact :
      (sel : Text) → Ensures (IsIntact {S = S} sel) Any (read_script_name sel)
  unfolding read_script_name
  read_script_name-Intact sel = record { state = λ w h. h; result = λ w h. rw (h.holds.1) tt }

  pub hold-Ends :
      (sel : Text) (w : World S)
      → IsSound w
      → HasValue sel w.table
      → Ends (λ _. IsIntact sel) IsSound (hold sel w)
  unfolding hold
  hold-Ends sel w h (v, e) =
      let (sound, holds) = hold_value-IsHeld sel v w.table e h in
      rw e (Ends-ok tt _ (record { sound = sound; holds = holds }))
