-- ===== src/Assigner/Refinement.antt =====
-- The symbol table, with its owned and freed strings, is a function from names to texts for those who
-- call it.
use smarty_appserver.Prelude.{
  ◌≡◌, refl, Option, none, some, List, [], ◌∷◌, Text, lookup, lookup-insert, text_eq, if◌then◌else◌,
  arith,
}
use smarty_appserver.Errors.{ok}
use smarty_appserver.Action.{Action, pure, ◌>>=◌}
use smarty_appserver.Action.Ends.{Ends, Ends-ok, Ends-pure, Ends-bind}
use smarty_appserver.World.{World, Value, owned}
use smarty_appserver.Assigner.{strdup, assign_local, get_local, reset_table}
use smarty_appserver.Assigner.Ownership.{
  IsSound, free-lookup-owned, insert-IsOwnedTable, free_all-owned,
}

-- The calls of assignLocal, getLocal and resetTable; a null value is no value.
pub data Call : Type 0 where
  assigning : Text → Option Text → Call
  getting : Text → Call
  resetting : Call

abbrev as_value : Option Text → Option Value
as_value none = none
as_value (some t) = some (owned t)

-- A run of calls, and what its getLocal calls give.
unfoldable pub run_calls : {S : Type 0} → List Call → Action (World S) (List (Option Text))
run_calls [] = pure []
run_calls (assigning var val ∷ cs) = assign_local var (as_value val) >>= λ _. run_calls cs
run_calls (getting var ∷ cs) = get_local var >>= λ o. run_calls cs >>= λ os. pure (o ∷ os)
run_calls (resetting ∷ cs) = reset_table >>= λ _. run_calls cs

-- The same on a function.
abbrev pub Variables : Type 0
Variables = Text → Option Text

abbrev pub updated : Text → Option Text → Variables → Variables
updated var none m = m
updated var (some t) m = λ k. if text_eq var k then some t else m k

abbrev pub seen : List Call → Variables → List (Option Text)
seen [] m = []
seen (assigning var val ∷ cs) m = seen cs (updated var val m)
seen (getting var ∷ cs) m = m var ∷ seen cs m
seen (resetting ∷ cs) m = seen cs (λ k. none)

abbrev pub left_by : List Call → Variables → Variables
left_by [] m = m
left_by (assigning var val ∷ cs) m = left_by cs (updated var val m)
left_by (getting var ∷ cs) m = left_by cs m
left_by (resetting ∷ cs) m = left_by cs (λ k. none)

-- The table owns its strings and holds these variables.
abbrev pub Represents : {S : Type 0} → Variables → World S → Type 0
Represents m w = IsSound w × ((k : Text) → strdup (lookup k w.table) ≡ ok (m k))

module _ {S : Type 0} where
  pub assign_local-Represents :
      (var : Text) (val : Option Text) (m : Variables) (w : World S)
      → Represents m w
      → Ends (λ _. Represents (updated var val m)) (λ _. ⊥) (assign_local var (as_value val) w)
  unfolding assign_local strdup
  assign_local-Represents var none m w h = Ends-ok tt w h
  assign_local-Represents var (some t) m w (sound, holds) =
      rw (free-lookup-owned var w.table sound) (
        Ends-ok tt _ (
          insert-IsOwnedTable var (owned t) w.table tt sound,
          λ k. ground (arith, lookup-insert var k (owned t) w.table, holds k),
        ))

  pub reset_table-Represents :
      (m : Variables) (w : World S)
      → Represents m w
      → Ends (λ _. Represents (λ k. none)) (λ _. ⊥) (reset_table w)
  unfolding reset_table strdup lookup
  reset_table-Represents m w (sound, holds) =
      rw (free_all-owned w.table sound) (Ends-ok tt _ (tt, λ k. refl))

  get_local-Represents :
      (var : Text) (m : Variables) (w : World S)
      → Represents m w
      → Ends (λ o w'. (o ≡ m var) × Represents m w') (λ _. ⊥) (get_local var w)
  unfolding get_local
  get_local-Represents var m w (sound, holds) =
      rw (holds var) (Ends-ok (m var) w (refl, (sound, holds)))

  -- Any sequence of calls on a table that owns its strings ends without a failure or a use of memory
  -- that is gone, gives what the same calls give on a function from names to texts, and leaves the
  -- table that stands for the function that they leave.
  pub run_calls_refines :
      (cs : List Call) (m : Variables) (w : World S)
      → Represents m w
      → Ends (λ os w'. (os ≡ seen cs m) × Represents (left_by cs m) w') (λ _. ⊥) (run_calls cs w)
  unfolding run_calls
  run_calls_refines [] m w h = Ends-pure [] w (refl, h)
  run_calls_refines (assigning var val ∷ cs) m w h =
      Ends-bind _ _ w (assign_local-Represents var val m w h)
        (λ _ w' h'. run_calls_refines cs (updated var val m) w' h')
  run_calls_refines (getting var ∷ cs) m w h =
      Ends-bind _ _ w (get_local-Represents var m w h) (λ o w' (same, h').
        Ends-bind _ _ w' (run_calls_refines cs m w' h')
          (λ os w'' (rest, h''). Ends-pure (o ∷ os) w'' (ground (arith, same, rest), h'')))
  run_calls_refines (resetting ∷ cs) m w h =
      Ends-bind _ _ w (reset_table-Represents m w h)
        (λ _ w' h'. run_calls_refines cs (λ k. none) w' h')
