-- ===== src/State/Execute/Matching.antt =====
-- src/regexstate.cpp, src/matchstate.cpp, src/structstate.cpp, src/querystate.cpp,
-- src/gotostate.cpp: the states that read a value or a row, and assign.
use smarty_appserver.Prelude.{
  ℕ, zero, suc, ◌-◌, ℤ, Option, if◌then◌else◌, none, some, List, [], ◌∷◌, Text, take, drop,
  replicate,
}
use smarty_appserver.Errors.{Result, ok, undefined}
use smarty_appserver.Action.{Action, pure, lift, catch_all, ◌>>=◌}
use smarty_appserver.Regex.{
  Regex, Groups, Matching, matched, no_match, failed, regexec, regmatch_count,
}
use smarty_appserver.Database.{Database, DbMap, get_database, query_row}
use smarty_appserver.Parser.{Externals}
use smarty_appserver.State.{
  State, Assignment, RegexBody, MatchBody, StructBody, QueryBody, Format, unset, xml, json, regex,
  query, structure,
}
use smarty_appserver.World.{World, System, set_ext}
use smarty_appserver.Assigner.{get_value}
use smarty_appserver.Assigner.Evaluate.{evaluate, assign_all}

-- The loop over m_regmatch: it stops at the first group that is not used.
unfoldable pub substrings : ℕ → Groups → Text → List (Option Text)
substrings zero g val = []
substrings (suc n) [] val = replicate (suc n) none
substrings (suc n) (none ∷ g) val = replicate (suc n) none
substrings (suc n) (some (so, eo) ∷ g) val =
    some (take (eo - so) (drop so val)) ∷ substrings n g val

abbrev pub no_substrings : List (Option Text)
no_substrings = replicate regmatch_count none

-- The loop over m_rexList and m_stateList.
unfoldable pub pick_case : List Regex → List ℤ → Text → ℤ → ℤ → Result ℤ
pick_case [] states val error default = ok default
pick_case (r ∷ rs) [] val error default = elim (regexec r val) [
  | matched g ↦ undefined
  | no_match ↦ pick_case rs [] val error default
  | failed rv ↦ ok error
]
pick_case (r ∷ rs) (n ∷ ns) val error default = elim (regexec r val) [
  | matched g ↦ ok n
  | no_match ↦ pick_case rs ns val error default
  | failed rv ↦ ok error
]

module _ {S : Type 0} (x : Externals) (sys : System S) (st : State) where
  -- `try { assign… } catch(...) { return error; } return next;`, in the state `st'`.
  unfoldable pub assign_and_go : State → List Assignment → Action (World S) (State × ℤ)
  assign_and_go st' asgs =
      catch_all (st', st'.error_state)
        (assign_all x sys st' asgs >>= λ _. pure (st', st'.next_state))

  -- CGotoState::execute
  unfoldable pub execute_goto : List Assignment → Action (World S) (State × ℤ)
  execute_goto asgs = assign_and_go st asgs

  abbrev pub on_regexec : RegexBody → Text → Matching → Action (World S) (State × ℤ)
  on_regexec b val (matched g) =
      assign_and_go
        (record st { body = regex (record b { substring = substrings regmatch_count g val }) })
        b.assignments
  on_regexec b val no_match = pure (record st { body = regex b }, st.error_state)
  on_regexec b val (failed rv) = pure (record st { body = regex b }, st.error_state)

  -- A state without a regex dereferences a null pointer.
  abbrev pub on_regex : RegexBody → Text → Option Regex → Action (World S) (State × ℤ)
  on_regex b val none = lift undefined
  on_regex b val (some r) = on_regexec b val (regexec r val)

  abbrev pub on_regex_value : RegexBody → Option Text → Action (World S) (State × ℤ)
  on_regex_value b none = pure (record st { body = regex b }, st.error_state)
  on_regex_value b (some val) = on_regex b val b.regex

  -- CRegexState::execute: the substrings of the previous run are cleared.
  unfoldable pub execute_regex : RegexBody → Action (World S) (State × ℤ)
  execute_regex b =
      get_value sys b.match_var >>= on_regex_value (record b { substring = no_substrings })

  abbrev pub on_match_value : MatchBody → Option Text → Action (World S) (State × ℤ)
  on_match_value b none = pure (st, st.error_state)
  on_match_value b (some val) =
      lift (pick_case b.rex_list b.state_list val st.error_state st.next_state) >>= λ n.
      pure (st, n)

  -- CMatchState::execute
  unfoldable pub execute_match : MatchBody → Action (World S) (State × ℤ)
  execute_match b = get_value sys b.match_var >>= on_match_value b

  -- CPgDatabase::query, through the pointers.
  abbrev pub use_database : Text → Option Database → Action (World S) (Option (List (Option Text)))
  use_database outq none = lift undefined
  use_database outq (some db) =
      if db.connected
      then (λ w.
          let (r, ext') = sys.db_query w.ext db outq in
          (set_ext ext' >>= λ _. lift (query_row r)) w)
      else lift undefined

  -- CQueryState::execute: `m_qResult` is cleared, and set before the assignments.
  unfoldable pub execute_query : DbMap → QueryBody → Action (World S) (State × ℤ)
  execute_query dbs b =
      let st' = record st { body = query (record b { result = none }) } in
      catch_all (st', st.error_state)
        (evaluate x sys st' b.query >>= λ outq.
          use_database outq (get_database b.dbsection dbs) >>= λ row.
          assign_and_go (record st { body = query (record b { result = row }) }) b.assignments)

  abbrev pub parse_tree : Format → Text → Option (Text → Text)
  parse_tree json val = sys.read_json val
  parse_tree xml val = sys.read_xml val
  parse_tree unset val = sys.read_xml val

  abbrev pub with_tree : StructBody → (Text → Text) → State
  with_tree b tree = record st { body = structure (record b { tree = tree }) }

  -- Only `ptree_error` is caught: what the assignments throw is not.
  abbrev pub on_tree : StructBody → Option (Text → Text) → Action (World S) (State × ℤ)
  on_tree b none = pure (with_tree b (λ path. []), st.error_state)
  on_tree b (some tree) = assign_all x sys (with_tree b tree) b.assignments >>= λ _.
      pure (with_tree b tree, st.next_state)

  abbrev pub on_structure_value : StructBody → Option Text → Action (World S) (State × ℤ)
  on_structure_value b none = pure (with_tree b (λ path. []), st.error_state)
  on_structure_value b (some val) = on_tree b (parse_tree b.format val)

  -- CStructureState::execute
  unfoldable pub execute_structure : StructBody → Action (World S) (State × ℤ)
  execute_structure b = get_value sys b.match_var >>= on_structure_value b
