-- ===== src/Assigner/Ownership.antt =====
-- The symbol table holds nothing but strings that it owns: then no operation of CAssigner reads or
-- frees memory that is gone.
use smarty_appserver.Prelude.{
  ◌≡◌, Option, none, some, [], ◌∷◌, Text, All, lookup, insert, text_eq, Bool-cases, inl, inr, arith,
  ◌==◌,
}
use smarty_appserver.Errors.{ok}
use smarty_appserver.Action.Ensures.{Ensures, Returns, Any, Ensures-if}
use smarty_appserver.CppString.{first_char}
use smarty_appserver.World.{World, System, Value, owned, held, dangling, Table, put_out, set_ext}
use smarty_appserver.Assigner.{
  free, free_all, strdup, assign_local, get_local, reset_table, assign_global, get_global,
  get_value,
}

abbrev pub IsOwned : Value → Type 0
IsOwned (owned t) = Unit
IsOwned (held t) = Unit
IsOwned dangling = ⊥

abbrev pub IsOwnedTable : Table → Type 0
IsOwnedTable t = All (λ e. IsOwned e.1) t

abbrev pub IsSound : {S : Type 0} → World S → Type 0
IsSound w = IsOwnedTable w.table

pub lookup-IsOwned :
    (k : Text) (t : Table) (v : Value) → IsOwnedTable t → lookup k t ≡ some v → IsOwned v
unfolding lookup
lookup-IsOwned k [] v h e = cc
lookup-IsOwned k ((j, u) ∷ t) v h e = elim (Bool-cases (text_eq j k)) [
  | inl hit ↦ ground (arith, h.0)
  | inr miss ↦ lookup-IsOwned k t v h.1 (ground arith)
]

pub insert-IsOwnedTable :
    (k : Text) (v : Value) (t : Table) → IsOwned v → IsOwnedTable t → IsOwnedTable (insert k v t)
unfolding insert
insert-IsOwnedTable k v [] hv h = (hv, tt)
insert-IsOwnedTable k v ((j, u) ∷ t) hv h = ground (arith, insert-IsOwnedTable k v t hv h.1)

strdup-owned : (o : Option Value) → ((v : Value) → o ≡ some v → IsOwned v) → Returns Any (strdup o)
unfolding strdup
strdup-owned none h = tt
strdup-owned (some (owned t)) h = tt
strdup-owned (some (held t)) h = tt
strdup-owned (some dangling) h = absurd (h dangling (ground arith))

free-owned : (o : Option Value) → ((v : Value) → o ≡ some v → IsOwned v) → free o ≡ ok tt
unfolding free
free-owned none h = ground arith
free-owned (some (owned t)) h = ground arith
free-owned (some (held t)) h = ground arith
free-owned (some dangling) h = absurd (h dangling (ground arith))

pub free-lookup-owned : (k : Text) (t : Table) → IsOwnedTable t → free (lookup k t) ≡ ok tt
free-lookup-owned k t h = free-owned (lookup k t) (λ v. lookup-IsOwned k t v h)

pub free_all-owned : (t : Table) → IsOwnedTable t → free_all t ≡ ok tt
unfolding free_all
free_all-owned [] h = ground arith
free_all-owned ((k, owned s) ∷ t) h = free_all-owned t h.1
free_all-owned ((k, held s) ∷ t) h = free_all-owned t h.1
free_all-owned ((k, dangling) ∷ t) h = absurd h.0

module _ {S : Type 0} where
  pub get_local-Ensures : (var : Text) → Ensures (IsSound {S = S}) Any (get_local var)
  unfolding get_local
  get_local-Ensures var = record {
    state = λ s h. h;
    result = λ s h. strdup-owned (lookup var s.table) (λ v. lookup-IsOwned var s.table v h);
  }

  pub assign_local-Ensures :
      (var : Text) (val : Value)
      → IsOwned val
      → Ensures (IsSound {S = S}) Any (assign_local var (some val))
  unfolding assign_local
  assign_local-Ensures var val hv = record {
    state = λ s h.
        rw (free-owned (lookup var s.table) (λ v. lookup-IsOwned var s.table v h))
          (insert-IsOwnedTable var val s.table hv h);
    result = λ s h. rw (free-owned (lookup var s.table) (λ v. lookup-IsOwned var s.table v h)) tt;
  }

  pub reset_table-Ensures : Ensures (IsSound {S = S}) Any reset_table
  unfolding reset_table
  reset_table-Ensures = record {
    state = λ s h. rw (free_all-owned s.table h) tt;
    result = λ s h. rw (free_all-owned s.table h) tt;
  }

  pub put_out-Ensures : (t : Text) → Ensures (IsSound {S = S}) Any (put_out t)
  unfolding put_out
  put_out-Ensures t = record { state = λ s h. h; result = λ s h. tt }

  pub set_ext-Ensures : (e : S) → Ensures (IsSound {S = S}) Any (set_ext e)
  unfolding set_ext
  set_ext-Ensures e = record { state = λ s h. h; result = λ s h. tt }

module _ {S : Type 0} (sys : System S) where
  pub assign_global-Ensures :
      (var val : Text) → Ensures (IsSound {S = S}) Any (assign_global sys var (some val))
  unfolding assign_global
  assign_global-Ensures var val = record {
    state = λ s h. ground arith;
    result = λ s h. ground arith;
  }

  pub get_global-Ensures : (var : Text) → Ensures (IsSound {S = S}) Any (get_global sys var)
  unfolding get_global
  get_global-Ensures var = record { state = λ s h. ground arith; result = λ s h. ground arith }

  pub get_value-Ensures : (var : Text) → Ensures (IsSound {S = S}) Any (get_value sys var)
  unfolding get_value
  get_value-Ensures var =
      Ensures-if (first_char var == b'&') _ _ (λ _. get_global-Ensures var)
        (λ _. get_local-Ensures var)
