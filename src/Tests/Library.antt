-- ===== src/Tests/Library.antt =====
-- A regex library of one line.
use smarty_appserver.Prelude.{◌≡◌, refl, some, [], ◌∷◌, List, Text, codes, All, arith, lookup}
use smarty_appserver.CppString.{first_char}
use smarty_appserver.Errors.{ok}
use smarty_appserver.Regex.{Regcomp, Collection, no_match, compile}
use smarty_appserver.Regex.Collection.{fill, dump}
use smarty_appserver.Regex.Collection.Dump.{fill-dump}
use smarty_appserver.Regex.Collection.Lines.{IsEntry}

abbrev accepts : Regcomp
accepts = λ p. some (λ t. no_match)

abbrev one_entry : List (Text × Text)
one_entry = (codes "a", codes "b") ∷ []

one_entry-IsEntry : All IsEntry one_entry
unfolding first_char
one_entry-IsEntry =
    (((((refl, refl), ((refl, refl), ((refl, refl), tt))), (refl, tt)), (omega arith, refl)), tt)

abbrev one_regex : Collection
one_regex = (codes "a", record { pattern = codes "b"; exec = λ t. no_match }) ∷ []

fill-dump_example : fill accepts (some (dump one_regex)) ≡ ok one_regex
unfolding compile lookup
fill-dump_example = fill-dump accepts one_regex ((one_entry-IsEntry.0, refl), tt) (refl, tt)
