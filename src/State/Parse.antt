-- ===== src/State/Parse.antt =====
-- The virtual method `parse` of the state classes (src/*state.cpp): one line of a state block that
-- `parseScript` does not read itself. `log_debug` is left out.
pub mod Registers
use smarty_appserver.Prelude.{
  ℕ, ℤ, true, false, Option, none, some, List, [], ◌∷◌, ◌++◌, Text, codes, length, ◌==◌,
  if◌then◌else◌,
}
use smarty_appserver.Errors.{
  Result, ok, throw, exit, ◌>>=◌, parser_error, syntax_error, ptree_error, or_throw,
}
use smarty_appserver.Regex.{compile, capture, capture_tail}
use smarty_appserver.Database.{DbMap, add_db_section}
use smarty_appserver.Parser.{Externals, RegName, is_matched, if_matched, lexical_int}
use smarty_appserver.Parser.Assignment.{parse_assignment}
use smarty_appserver.State.{
  State, Body, end, file, regex, query, match, http, mail, sms, script, shell, structure, goto,
  EndBody, FileBody, RegexBody, QueryBody, MatchBody, HttpBody, MailBody, ShellBody, StructBody,
  Assignment, xml, json, post,
}

module _ (x : Externals) (number : ℤ) (line fname : Text) (counter : ℕ) where
  -- `if(is_matched(name, …)) { use the first group } else …`
  abbrev pub on_group {ℓ} : {A : Type ℓ} → RegName → (Text → Result A) → Result A → Result A
  on_group name found other =
      if_matched (is_matched x name line fname counter) (λ g. capture g 1 line >>= found) other

  abbrev pub syntax {ℓ} : {A : Type ℓ} → Result A
  syntax = throw (parser_error fname syntax_error counter)

  -- `m_assignments.push_back(parseAssignment(…))`
  abbrev pub push_assignment : List Assignment → Result (List Assignment)
  push_assignment asgs = do a ← parse_assignment x number fname counter line; ok (asgs ++ a ∷ [])

  -- "outputvar": a short name gets the state's number.
  abbrev on_output {ℓ} : {A : Type ℓ} → (Text → Result A) → Result A → Result A
  on_output found other = on_group RegName.outvar_long found (
      if_matched (is_matched x RegName.outvar_short line fname counter)
        (λ g. capture_tail g 1 line >>= λ v. found ((b'@' ∷ x.lexical_text number) ++ (b'.' ∷ v)))
        other)

  unfoldable pub parse_end : EndBody → Result EndBody
  parse_end b =
      on_group RegName.data_single
        (λ v. ok (record b {
          out_list = b.out_list ++ v ∷ [];
          interpret_flag = b.interpret_flag ++ false ∷ [];
        }))
        (on_group RegName.data_double
          (λ v. ok (record b {
            out_list = b.out_list ++ v ∷ [];
            interpret_flag = b.interpret_flag ++ true ∷ [];
          }))
          syntax)

  unfoldable pub parse_file : FileBody → Result FileBody
  parse_file b =
      on_group RegName.file (λ v. ok (record b { file_name = v }))
        (on_group RegName.data_single
          (λ v. ok (record b {
            out_list = b.out_list ++ v ∷ [];
            interpret_flag = b.interpret_flag ++ false ∷ [];
          }))
          (on_group RegName.data_double
            (λ v. ok (record b {
              out_list = b.out_list ++ v ∷ [];
              interpret_flag = b.interpret_flag ++ true ∷ [];
            }))
            syntax))

  unfoldable pub parse_regex : RegexBody → Result RegexBody
  parse_regex b =
      on_group RegName.regex_double
        (λ v. do r ← compile x.regcomp v; ok (record b { regex = some r }))
        (on_group RegName.match_var (λ v. ok (record b { match_var = v }))
          (do asgs ← push_assignment b.assignments; ok (record b { assignments = asgs })))

  unfoldable pub parse_query : QueryBody → DbMap → Result (QueryBody × DbMap)
  parse_query b dbs =
      on_group RegName.db
        (λ v.
          if x.config_has v then ok (record b { dbsection = v }, add_db_section v dbs) else exit)
        (on_group RegName.query (λ v. ok (record b { query = v }, dbs))
          (do asgs ← push_assignment b.assignments; ok (record b { assignments = asgs }, dbs)))

  unfoldable pub parse_match : MatchBody → Result MatchBody
  parse_match b =
      on_group RegName.match_var (λ v. ok (record b { match_var = v }))
        (if_matched (is_matched x RegName.case_regex line fname counter)
          (λ g. do
            pattern ← capture g 1 line
            state ← capture g 2 line
            rex ← compile x.regcomp pattern
            st ← lexical_int x state
            ok (record b {
              rex_list = b.rex_list ++ rex ∷ [];
              state_list = b.state_list ++ st ∷ [];
            }))
          syntax)

  -- "sslkeys.<path>": the password of the key, if `find` knows that name.
  key_password : Text → Text → Result Text
  key_password pkey old =
      let cfkey = codes "sslkeys." ++ pkey in
      if x.config_has cfkey then or_throw (x.config_get cfkey) ptree_error else ok old

  unfoldable pub parse_http : HttpBody → Result HttpBody
  unfolding key_password
  parse_http b =
      on_group RegName.url (λ v. ok (record b { url = v }))
        (on_group RegName.usercert (λ v. ok (record b { usercert = v }))
          (on_group RegName.ucertenc (λ v. ok (record b { ucertenc = v }))
            (on_group RegName.cacert (λ v. ok (record b { cacert = v }))
              (on_group RegName.pkey
                (λ v. do pw ← key_password v b.pkeypswd; ok (record b { pkey = v; pkeypswd = pw }))
                (on_group RegName.pkeyenc (λ v. ok (record b { pkeyenc = v }))
                  (on_output (λ v. ok (record b { outputvar = v }))
                    (on_group RegName.http_params (λ v. ok (record b { params = b.params ++ v }))
                      (if_matched (is_matched x RegName.method_get line fname counter) (λ g. ok b)
                        (if_matched (is_matched x RegName.method_post line fname counter)
                          (λ g. ok (record b { method = post }))
                          (on_group RegName.addheader
                            (λ v. ok (record b { headers = b.headers ++ v ∷ [] }))
                            (on_group RegName.file
                              (λ v. ok (record b { dumpfile = v; dumpflag = true }))
                              syntax)))))))))))

  abbrev or_empty : Option Text → Text
  or_empty none = []
  or_empty (some t) = t

  -- `if(m_from.length() == 0) m_from = cpt->get<std::string>("smtp.sender", "");`
  abbrev default_sender : MailBody → MailBody
  default_sender b =
      if length b.from == 0
      then record b { from = or_empty (x.config_get (codes "smtp.sender")) }
      else b

  unfoldable pub parse_mail : MailBody → Result MailBody
  parse_mail b =
      on_group RegName.mfrom (λ v. ok (record b { from = v }))
        (on_group RegName.mto (λ v. ok (record b { to = v }))
          (on_group RegName.mcc (λ v. ok (record b { cc = v }))
            (on_group RegName.subject (λ v. ok (record b { subject = v }))
              (on_group RegName.attach
                (λ v. ok (record b { attachments = b.attachments ++ v ∷ []; subject = v }))
                (on_group RegName.data_double
                  (λ v. ok (record b { contents = b.contents ++ v ∷ [] })) syntax)))))
      >>= λ b'. ok (default_sender b')

  unfoldable pub parse_shell : ShellBody → Result ShellBody
  parse_shell b =
      on_group RegName.shell (λ v. ok (record b { command = v }))
        (on_output (λ v. ok (record b { outputvar = v })) syntax)

  unfoldable pub parse_structure : StructBody → Result StructBody
  parse_structure b =
      on_group RegName.match_var (λ v. ok (record b { match_var = v }))
        (if_matched (is_matched x RegName.format_xml line fname counter)
          (λ g. ok (record b { format = xml }))
          (if_matched (is_matched x RegName.format_json line fname counter)
            (λ g. ok (record b { format = json }))
            (do asgs ← push_assignment b.assignments; ok (record b { assignments = asgs }))))

  -- The dispatch; the states "sms" and "script" take any line.
  parse_body : Body → DbMap → Result (Body × DbMap)
  unfolding parse_end parse_file parse_regex parse_query parse_match parse_http parse_mail
      parse_shell parse_structure
  parse_body (end b) dbs = do b' ← parse_end b; ok (end b', dbs)
  parse_body (file b) dbs = do b' ← parse_file b; ok (file b', dbs)
  parse_body (regex b) dbs = do b' ← parse_regex b; ok (regex b', dbs)
  parse_body (query b) dbs = parse_query b dbs >>= λ p. ok (query p.0, p.1)
  parse_body (match b) dbs = do b' ← parse_match b; ok (match b', dbs)
  parse_body (http b) dbs = do b' ← parse_http b; ok (http b', dbs)
  parse_body (mail b) dbs = do b' ← parse_mail b; ok (mail b', dbs)
  parse_body sms dbs = ok (sms, dbs)
  parse_body script dbs = ok (script, dbs)
  parse_body (shell b) dbs = do b' ← parse_shell b; ok (shell b', dbs)
  parse_body (structure b) dbs = do b' ← parse_structure b; ok (structure b', dbs)
  parse_body (goto asgs) dbs = do asgs' ← push_assignment asgs; ok (goto asgs', dbs)

unfoldable pub parse : Externals → State → Text → Text → ℕ → DbMap → Result (State × DbMap)
unfolding parse_body
parse x s line fname counter dbs =
    parse_body x s.number line fname counter s.body dbs >>= λ p. ok (record s { body = p.0 }, p.1)
