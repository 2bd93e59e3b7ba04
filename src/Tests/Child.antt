-- ===== src/Tests/Child.antt =====
-- A child that serves one request, after which the accept fails.
use smarty_appserver.Errors.{ok}
use smarty_appserver.Parser.Script.{StateMap}
use smarty_appserver.Server.Child.AtExit.{child_atexit_handler, child_atexit_handler_ends}
use smarty_appserver.Start.Free.{HasStates, HaveOwnFiles}
use smarty_appserver.Prelude.{
  ◌≡◌, ◌↔◌, refl, Option, some, Text, All, true, [], ◌∷◌, List, codes, replicate,
}
use smarty_appserver.Action.Ends.{Ends}
use smarty_appserver.Database.Connect.{connect_dbs}
use smarty_appserver.Pool.{Slot, zero_slot}
use smarty_appserver.Server.Child.{Arrival, accept_failed, arrived}
use smarty_appserver.Tests.Sample.{sample, get_f}

abbrev arrivals : List Arrival
arrivals = arrived (some (codes "HTTP/1.1")) 0 get_f ∷ accept_failed ∷ []

abbrev four_slots : List Slot
four_slots = replicate 4 zero_slot

abbrev one_file : List (Text × Option StateMap)
one_file = (codes "s", some []) ∷ []

-- "f" and "g" stand for one file.
abbrev two_names : List (Text × Text)
two_names = (codes "f", codes "s") ∷ (codes "g", codes "s") ∷ []

child_atexit_handler_ends_example :
    (child_atexit_handler two_names one_file (connect_dbs sample (λ s. true) []).1 ≡ ok tt)
    ↔ (All (HasStates one_file) two_names × HaveOwnFiles two_names)
unfolding connect_dbs
child_atexit_handler_ends_example =
    child_atexit_handler_ends sample (λ s. true) two_names one_file [] refl
