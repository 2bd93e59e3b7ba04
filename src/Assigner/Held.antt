-- ===== src/Assigner/Held.antt =====
-- A table that owns its strings and holds the one that `scriptName` points to: the operations of
-- CAssigner keep it, but for an assignment to that variable.
use smarty_appserver.Prelude.{
  ◌≡◌, false, some, Text, lookup, lookup-insert, text_eq, arith, Option-cases, inl, inr, ◌==◌,
}
use smarty_appserver.CppString.{first_char}
use smarty_appserver.Action.Ensures.{Ensures, Any, Ensures-if}
use smarty_appserver.World.{World, System, Value, held, Table, put_out, set_ext}
use smarty_appserver.Assigner.{assign_local, get_local, assign_global, get_global, get_value}
use smarty_appserver.Assigner.Ownership.{
  IsSound, IsOwned, free-lookup-owned, insert-IsOwnedTable, get_local-Ensures,
}

abbrev pub IsHeld : Text → Table → Type 0
IsHeld sel t = (s : Text) × (lookup sel t ≡ some (held s))

pub record IsIntact {S : Type 0} (sel : Text) (w : World S) : Type 0 where
  pub sound : IsSound w
  pub holds : IsHeld sel w.table

-- Another variable.
abbrev pub Avoids : Text → Text → Type 0
Avoids sel var = text_eq var sel ≡ false

module _ {S : Type 0} {sel : Text} where
  pub put_out-Intact : (t : Text) → Ensures (IsIntact {S = S} sel) Any (put_out t)
  unfolding put_out
  put_out-Intact t = record {
    state = λ w h. record { sound = h.sound; holds = h.holds };
    result = λ w h. tt;
  }

  pub set_ext-Intact : (e : S) → Ensures (IsIntact {S = S} sel) Any (set_ext e)
  unfolding set_ext
  set_ext-Intact e = record {
    state = λ w h. record { sound = h.sound; holds = h.holds };
    result = λ w h. tt;
  }

  pub get_local-Intact : (var : Text) → Ensures (IsIntact {S = S} sel) Any (get_local var)
  unfolding get_local
  get_local-Intact var = record {
    state = λ w h. h;
    result = λ w h. (get_local-Ensures {S = S} var).result w h.sound;
  }

  pub assign_local-Intact :
      (var : Text) (val : Value)
      → IsOwned val
      → Avoids sel var
      → Ensures (IsIntact {S = S} sel) Any (assign_local var (some val))
  unfolding assign_local
  assign_local-Intact var val hv a = record {
    state = λ w h. rw (free-lookup-owned var w.table h.sound) (record {
      sound = insert-IsOwnedTable var val w.table hv h.sound;
      holds = (h.holds.0, rw (lookup-insert var sel val w.table, a) (h.holds.1));
    });
    result = λ w h. rw (free-lookup-owned var w.table h.sound) tt;
  }

module _ {S : Type 0} {sel : Text} (sys : System S) where
  pub assign_global-Intact :
      (var val : Text) → Ensures (IsIntact {S = S} sel) Any (assign_global sys var (some val))
  unfolding assign_global
  assign_global-Intact var val = record {
    state = λ w h. elim (Option-cases (sys.memcached_set w.ext var val)) [
      | inl e ↦ rw (e, assign_global) h
      | inr (ext', e) ↦ rw (e, assign_global) (record { sound = h.sound; holds = h.holds })
    ];
    result = λ w h. ground arith;
  }

  pub get_global-Intact : (var : Text) → Ensures (IsIntact {S = S} sel) Any (get_global sys var)
  unfolding get_global
  get_global-Intact var = record {
    state = λ w h. elim (Option-cases (sys.memcached_get w.ext var)) [
      | inl e ↦ rw (e, get_global) h
      | inr (val, e) ↦ rw (e, get_global) h
    ];
    result = λ w h. ground arith;
  }

  pub get_value-Intact : (var : Text) → Ensures (IsIntact {S = S} sel) Any (get_value sys var)
  unfolding get_value
  get_value-Intact var =
      Ensures-if (first_char var == b'&') _ _ (λ _. get_global-Intact var)
        (λ _. get_local-Intact var)
