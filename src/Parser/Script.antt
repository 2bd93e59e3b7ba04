-- ===== src/Parser/Script.antt =====
-- src/parser.cpp: parseScript, a line at a time.
pub mod Induction
pub mod WellFormed
pub mod Sections
use smarty_appserver.Prelude.{
  ℕ, suc, ◌+◌, ℤ, Bool, true, false, Option, none, some, List, [], ◌∷◌, ◌++◌, Text, codes, int_eq,
  if◌then◌else◌,
}
use smarty_appserver.Errors.{
  Result, ok, throw, ◌>>=◌, parser_error, nested_state, syntax_error, invalid_state,
  duplicate_state, unfinished_state, file_not_found,
}
use smarty_appserver.Regex.{capture}
use smarty_appserver.Database.{DbMap}
use smarty_appserver.Parser.{Externals, RegName, is_matched, if_matched, fetch_int}
use smarty_appserver.Parser.Comment.{strip_comment}
use smarty_appserver.State.{
  State, Body, sms, script, new_state, new_end, new_file, new_regex, new_query, new_match, new_http,
  new_mail, new_shell, new_structure, new_goto,
}
use smarty_appserver.State.Verify.{verify}
use smarty_appserver.State.Parse.{parse}

-- stateMap_t
abbrev pub StateMap : Type 0
StateMap = List (ℤ × State)

-- sm->find(n)
unfoldable pub find_state : ℤ → StateMap → Option State
find_state n [] = none
find_state n ((k, s) ∷ m) = if int_eq k n then some s else find_state n m

-- The variables of the loop. `block` is `st` while `in_stateblock` holds; `stateno` is its number.
pub record Reading : Type 0 where
  pub states : StateMap
  pub block : Option State
  pub dbs : DbMap

abbrev pub is_open : Option State → Bool
is_open none = false
is_open (some s) = true

abbrev or_empty : Option Text → Text
or_empty none = []
or_empty (some t) = t

abbrev pub null_if_empty : StateMap → Option StateMap
null_if_empty [] = none
null_if_empty (e ∷ m) = some (e ∷ m)

abbrev pub start : DbMap → Reading
start dbs = record { states = []; block = none; dbs = dbs }

module _ (x : Externals) (fname : Text) where
  -- The headings in the order of the IF_STATE lines, with the object that each creates.
  abbrev pub headings : List (RegName × Body)
  headings =
      (RegName.end_state, new_end)
      ∷ (RegName.file_state, new_file)
      ∷ (RegName.regex_state, new_regex)
      ∷ (RegName.query_state, new_query)
      ∷ (RegName.match_state, new_match)
      ∷ (RegName.http_state, new_http)
      ∷ (RegName.mail_state, new_mail (or_empty (x.config_get (codes "smtp.mailserver"))))
      ∷ (RegName.sms_state, sms)
      ∷ (RegName.script_state, script)
      ∷ (RegName.shell_state, new_shell)
      ∷ (RegName.struct_state, new_structure)
      ∷ (RegName.goto_state, new_goto)
      ∷ []

  -- IF_STATE, for each heading in turn.
  unfoldable pub open_block : List (RegName × Body) → Reading → Text → ℕ → Result Reading
  open_block [] r line counter = throw (parser_error fname syntax_error counter)
  open_block ((name, body) ∷ rest) r line counter =
      if_matched (is_matched x name line fname counter)
        (λ g. if is_open r.block then throw (parser_error fname nested_state counter) else (do
          stateno ← fetch_int x line 1 g
          ok (record r { block = some (new_state stateno fname body) })))
        (open_block rest r line counter)

  -- "endstate"
  unfoldable pub close_block : Reading → State × Bool → ℕ → Result Reading
  close_block r (st, false) counter = throw (parser_error fname invalid_state counter)
  close_block r (st, true) counter = elim (find_state st.number r.states) [
    | some old ↦ throw (parser_error fname duplicate_state counter)
    | none ↦ ok (record r { states = (st.number, st) ∷ r.states; block = none })
  ]

  unfoldable pub in_block : Reading → State → Text → ℕ → Result Reading
  in_block r st line counter =
      if_matched (is_matched x RegName.done line fname counter)
        (λ g. do
          n ← fetch_int x line 1 g
          ok (record r { block = some (record st { next_state = n }) }))
        (if_matched (is_matched x RegName.error line fname counter)
          (λ g. do
            n ← fetch_int x line 1 g
            ok (record r { block = some (record st { error_state = n }) }))
          (if_matched (is_matched x RegName.logpfx_double line fname counter)
            (λ g. do
              p ← capture g 1 line
              ok (record r { block = some (record st { log_prefix = p; pfx_interpret = true }) }))
            (if_matched (is_matched x RegName.logpfx_single line fname counter)
              (λ g. do
                p ← capture g 1 line
                ok (record r {
                  block = some (record st { log_prefix = p; pfx_interpret = false });
                }))
              (if_matched (is_matched x RegName.endstate line fname counter)
                (λ g. close_block r (verify st) counter)
                (parse x st line fname counter r.dbs >>= λ p.
                  ok (record r { block = some p.0; dbs = p.1 }))))))

  abbrev pub on_block : Reading → Option State → Text → ℕ → Result Reading
  on_block r none line counter = open_block headings r line counter
  on_block r (some st) line counter = in_block r st line counter

  -- One round of `while(getline(ifs, line))`.
  unfoldable pub read_line : Reading → Text → ℕ → Result Reading
  read_line r raw counter =
      let line = strip_comment raw in
      if_matched (is_matched x RegName.empty line fname counter) (λ g. ok r)
        (on_block r r.block line counter)

  -- The lines after line `counter`, and the test after the loop.
  unfoldable pub read_lines : Reading → List Text → ℕ → Result Reading
  read_lines r [] counter =
      if is_open r.block then throw (parser_error fname unfinished_state counter) else ok r
  read_lines r (line ∷ rest) counter =
      read_line r line (suc counter) >>= λ r'. read_lines r' rest (suc counter)

  -- `none` for a file that cannot be opened; a file with no state gives a null map.
  unfoldable pub parse_script : Option (List Text) → DbMap → Result (Option StateMap × DbMap)
  parse_script none dbs = throw (parser_error fname file_not_found 0)
  parse_script (some lines) dbs = do
    r ← read_lines (start dbs) lines 0
    ok (null_if_empty r.states, r.dbs)
