-- ===== src/Parser/Matched.antt =====
-- What holds of a test on a line and of its two branches.
use smarty_appserver.Prelude.{Option, none, some}
use smarty_appserver.Errors.{Result, OnOk, OnOk-bind_any}
use smarty_appserver.Regex.{Groups}
use smarty_appserver.Parser.{if_matched}

pub if_matched-OnOk :
    {A : Type 0} {Q : A → Type 0} (m : Result (Option Groups)) (f : Groups → Result A)
    (o : Result A)
    → ((g : Groups) → OnOk Q (f g))
    → OnOk Q o
    → OnOk Q (if_matched m f o)
if_matched-OnOk {Q = Q} m f o kf ko = OnOk-bind_any m _ on
  where
    on : (r : Option Groups) → OnOk Q (elim r [ some g ↦ f g | none ↦ o ])
    on none = ko
    on (some g) = kf g
