-- ===== src/Parser/Script/Sections.antt =====
-- What parseScript leaves in the table of databases: a section for each query state.
use mathlib.Core.Path.{subst, sym}
use smarty_appserver.Prelude.{
  ◌≡◌, refl, Option, none, some, List, [], ◌∷◌, Text, All, All-map, arith,
}
use smarty_appserver.Errors.{ok, bind-ok, OnOk}
use smarty_appserver.Database.{DbMap}
use smarty_appserver.Parser.{Externals}
use smarty_appserver.State.{State, new_state}
use smarty_appserver.State.Parse.{parse}
use smarty_appserver.State.Parse.Registers.{
  IsRegistered, Grows, Grows-refl, IsRegistered-Grows, parse-Registers,
}
use smarty_appserver.State.Verify.{verify-body}
use smarty_appserver.Parser.Script.{
  StateMap, Reading, read_lines, parse_script, headings, start, null_if_empty,
}
use smarty_appserver.Parser.Script.Induction.{Opens, IsKept, read_lines-Keeps}

abbrev pub AreRegistered : DbMap → StateMap → Type 0
AreRegistered dbs m = All (λ e. IsRegistered dbs e.1.body) m

pub AreRegistered-Grows :
    (dbs dbs' : DbMap) (m : StateMap) → Grows dbs dbs' → AreRegistered dbs m → AreRegistered dbs' m
AreRegistered-Grows dbs dbs' [] g h = tt
AreRegistered-Grows dbs dbs' ((k, s) ∷ m) g h =
    (IsRegistered-Grows dbs dbs' s.body g h.0, AreRegistered-Grows dbs dbs' m g h.1)

abbrev pub states_of : Option StateMap → StateMap
states_of none = []
states_of (some m) = m

states_of-null_if_empty : (m : StateMap) → states_of (null_if_empty m) ≡ m
states_of-null_if_empty [] = refl
states_of-null_if_empty (e ∷ m) = refl

abbrev IsBlock : DbMap → Option State → Type 0
IsBlock dbs none = Unit
IsBlock dbs (some st) = IsRegistered dbs st.body

-- The sections of `before` are still there.
abbrev KeepsSections : DbMap → Reading → Type 0
KeepsSections before r = Grows before r.dbs × (AreRegistered r.dbs r.states × IsBlock r.dbs r.block)

block_of :
    (dbs : DbMap) (o : Option State) (st : State)
    → o ≡ some st
    → IsBlock dbs o
    → IsRegistered dbs st.body
block_of dbs o st e h = subst (IsBlock dbs) e h

headings-IsRegistered :
    (x : Externals) (fname : Text)
    → All (λ h. (dbs : DbMap) → IsRegistered dbs h.1) (headings x fname)
headings-IsRegistered x fname = (
  λ dbs. tt,
  (
    λ dbs. refl,
    (
      λ dbs. tt,
      (
        λ dbs e. absurd (ground arith),
        (
          λ dbs. tt,
          (
            λ dbs. tt,
            (λ dbs. tt, (λ dbs. tt, (λ dbs. tt, (λ dbs. tt, (λ dbs. tt, (λ dbs. tt, tt)))))),
          ),
        ),
      ),
    ),
  ),
)

KeepsSections-IsKept :
    (x : Externals) (fname : Text) (before : DbMap) → IsKept x fname (KeepsSections before)
unfolding new_state
KeepsSections-IsKept x fname before = record {
  opened =
      All-map (λ h. (dbs : DbMap) → IsRegistered dbs h.1) (Opens (KeepsSections before) fname)
        (headings x fname) (λ h k r n b (g, (all, own)). (g, (all, k r.dbs)))
        (headings-IsRegistered x fname);
  updated = λ r st st' b e (g, (h, own)).
      (g, (h, subst (IsRegistered r.dbs) (sym e) (block_of r.dbs r.block st b own)));
  parsed = λ r st line counter b (g, (h, own)).
      let after : OnOk (λ p. Grows r.dbs p.1 × IsRegistered p.1 p.0.body)
          (parse x st line fname counter r.dbs) =
        parse-Registers x st line fname counter r.dbs (block_of r.dbs r.block st b own) in
      record {
        at = λ p e.
            let (more, mine) = after.at p e in
            (
              λ k o found. let (o', found') = g k o found in more k o' found',
              (AreRegistered-Grows r.dbs p.1 r.states more h, mine),
            );
      };
  closed = λ r st st' b e missing (g, (h, own)). (
    g,
    (
      (
        subst (IsRegistered r.dbs) (sym (verify-body st st' e)) (block_of r.dbs r.block st b own),
        h,
      ),
      tt,
    ),
  );
}

module _ (x : Externals) (fname : Text) where
  -- When parseScript returns, each file state of the map has a flag for each of its lines, the section
  -- that a query state names is in the table of databases, and no section of the table has gone.
  pub parse_script-AreRegistered :
      (lines : Option (List Text)) (dbs dbs' : DbMap) (o : Option StateMap)
      → parse_script x fname lines dbs ≡ ok (o, dbs')
      → Grows dbs dbs' × AreRegistered dbs' (states_of o)
  unfolding parse_script
  parse_script-AreRegistered none dbs dbs' o h = absurd (ground arith)
  parse_script-AreRegistered (some lines) dbs dbs' o h =
      let (r, (p, e)) = bind-ok _ (read_lines x fname (start dbs) lines 0) h in
      let (g, (all, own)) =
        (read_lines-Keeps x fname (KeepsSections dbs) (KeepsSections-IsKept x fname dbs) (start dbs)
            lines 0 (Grows-refl dbs, (tt, tt))).at
          r e in
      let map : null_if_empty r.states ≡ o = cc in
      let table : r.dbs ≡ dbs' = cc in
      let same : states_of (null_if_empty r.states) ≡ r.states = states_of-null_if_empty r.states in
      (
        subst (Grows dbs) table g,
        subst (λ d. AreRegistered d (states_of o)) table
            (subst (λ q. AreRegistered r.dbs (states_of q)) map
              (subst (AreRegistered r.dbs) (sym same) all)),
      )
