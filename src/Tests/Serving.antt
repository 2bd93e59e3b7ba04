-- ===== src/Tests/Serving.antt =====
-- A child with one script serves "GET ?function=f".
use smarty_appserver.Prelude.{
  ℕ, ◌==◌, ◌||◌, Bool, ◌≡◌, refl, inl, inr, true, some, [], ◌∷◌, Text, lookup, text_eq, c_str,
  arith, Bool-cases,
}
use smarty_appserver.Action.Ensures.{Returns, Any}
use smarty_appserver.State.Verify.{starts_with_nocase}
use smarty_appserver.Action.Ends.{Ends}
use smarty_appserver.Server.Request.{handle_request, query_text}
use smarty_appserver.Server.Request.Safety.{Fits}
use smarty_appserver.Server.Request.Reset.{LeavesEmpty, handle_request-LeavesEmpty}
use smarty_appserver.Tests.Sample.{sample, bare, fresh, one_script, get_f}

-- What a table of one entry holds.
pub lookup_one :
    {V : Type 0} (k j : Text) (v u : V)
    → lookup j ((k, v) ∷ []) ≡ some u
    → (text_eq k j ≡ true) × (v ≡ u)
unfolding lookup
lookup_one k j v u e = elim (Bool-cases (text_eq k j)) [
  | inl hit ↦ (hit, ground arith)
  | inr miss ↦ absurd (ground arith)
]

pub get_f-has_method : Returns Any (query_text sample get_f)
unfolding query_text starts_with_nocase text_eq
get_f-has_method = tt

pub get_f-Fits : Fits get_f.envp
unfolding c_str
get_f-Fits = (ground arith, tt)

handle_request-LeavesEmpty_example :
    LeavesEmpty (handle_request sample bare [] (some []) 5 0 one_script get_f fresh)
handle_request-LeavesEmpty_example =
    handle_request-LeavesEmpty sample bare [] (some []) 5 0 one_script get_f fresh refl

abbrev escapes_all : ℕ → Bool
escapes_all c = c == 37 || c == b'&' || c == b'='

abbrev escapes_percent : ℕ → Bool
escapes_percent c = c == 37
