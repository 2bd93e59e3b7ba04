-- ===== src/Server/Request/Import.antt =====
-- The variables of a request, and the script that they choose.
use smarty_appserver.Prelude.{
  ℕ, ◌≡◌, refl, Option, none, some, List, [], ◌∷◌, Text, length, lookup, lt→ltb, lookup-insert,
  c_str, arith,
}
use smarty_appserver.Action.Ends.{Ends, Ends-ok, Ends-pure, Ends-bind}
use smarty_appserver.Database.{DbMap}
use smarty_appserver.Http.{url_decode}
use smarty_appserver.Parser.{Externals}
use smarty_appserver.World.{World, System, owned}
use smarty_appserver.Assigner.{assign_local, strdup}
use smarty_appserver.Assigner.Ownership.{free-lookup-owned, insert-IsOwnedTable}
use smarty_appserver.Assigner.Refinement.{Variables, Represents, updated}
use smarty_appserver.Server.{parambuf_length}
use smarty_appserver.Server.Request.{
  split_pair, state_zero, assign_pair, assign_params, assign_env_var, assign_env, import_variables,
}
use smarty_appserver.Server.Request.Safety.{Fits}

-- "name=value" gives the variable @0.name, and a text without '=' none.
abbrev bound : Option (Text × Text) → Variables → Variables
bound none m = m
bound (some (name, val)) m = updated (state_zero name) (some (c_str val)) m

-- One after the other: the last of two values of a name counts.
abbrev pub with_params : List Text → Variables → Variables
with_params [] m = m
with_params (p ∷ ps) m = with_params ps (bound (split_pair p) m)

abbrev pub with_env : List Text → Variables → Variables
with_env [] m = m
with_env (e ∷ es) m = with_env es (bound (split_pair (c_str e)) m)

module _ {S : Type 0} where
  -- The table holds these variables; the rest is as it was at the start.
  abbrev pub Holds : Variables → World S → World S → Type 0
  Holds m start w = Represents m w × (w.out ≡ start.out) × (w.ext ≡ start.ext)

  assign_local-Holds :
      (var val : Text) (m : Variables) (start w : World S)
      → Holds m start w
      → Ends
          (λ _. Holds (updated var (some val) m) start)
          (λ _. ⊥)
          (assign_local var (some (owned val)) w)
  unfolding assign_local strdup
  assign_local-Holds var val m start w ((sound, holds), out, ext) =
      rw (free-lookup-owned var w.table sound) (
        Ends-ok tt _ (
          (
            insert-IsOwnedTable var (owned val) w.table tt sound,
            λ k. ground (arith, lookup-insert var k (owned val) w.table, holds k),
          ),
          out,
          ext,
        ))

  assign_pair-Holds :
      (o : Option (Text × Text)) (m : Variables) (start w : World S)
      → Holds m start w
      → Ends (λ _. Holds (bound o m) start) (λ _. ⊥) (assign_pair o w)
  assign_pair-Holds none m start w h = Ends-pure tt w h
  assign_pair-Holds (some (name, val)) m start w h =
      assign_local-Holds (state_zero name) (c_str val) m start w h

  assign_params-Holds :
      (ps : List Text) (m : Variables) (start w : World S)
      → Holds m start w
      → Ends (λ _. Holds (with_params ps m) start) (λ _. ⊥) (assign_params ps w)
  unfolding assign_params
  assign_params-Holds [] m start w h = Ends-pure tt w h
  assign_params-Holds (p ∷ ps) m start w h =
      Ends-bind _ _ w (assign_pair-Holds (split_pair p) m start w h)
        (λ _ w' h'. assign_params-Holds ps (bound (split_pair p) m) start w' h')

  assign_env-Holds :
      (es : List Text) (m : Variables) (start w : World S)
      → Fits es
      → Holds m start w
      → Ends (λ _. Holds (with_env es m) start) (λ _. ⊥) (assign_env es w)
  unfolding assign_env assign_env_var
  assign_env-Holds [] m start w f h = Ends-pure tt w h
  assign_env-Holds (e ∷ es) m start w f h =
      Ends-bind _ _ w
        (rw (lt→ltb (length (c_str e)) parambuf_length f.0)
          (assign_pair-Holds (split_pair (c_str e)) m start w h))
        (λ _ w' h'. assign_env-Holds es (bound (split_pair (c_str e)) m) start w' f.1 h')

module _ {S : Type 0} (x : Externals) (sys : System S) (dbs : DbMap) (protocol : Option Text) where
  -- The variables of a request: the parameters, then the environment over them.
  abbrev pub variables_of : ℕ → Text → List Text → Variables
  variables_of ii query envp =
      with_env envp (with_params (x.split (url_decode x.scan_hex ii query)) (λ k. none))

  pub import_variables-Holds :
      (ii : ℕ) (query : Text) (envp : List Text) (w : World S)
      → w.table ≡ []
      → Fits envp
      → Ends
          (λ _. Holds (variables_of ii query envp) w)
          (λ _. ⊥)
          (import_variables x sys dbs protocol ii query envp w)
  unfolding import_variables strdup lookup
  import_variables-Holds ii query envp w e f =
      let start : Holds (λ k. none) w w = (rw e (tt, λ k. refl), refl, refl) in
      Ends-bind _ _ w (assign_params-Holds _ _ w w start)
        (λ _ w' h'. assign_env-Holds envp _ w w' f h')
