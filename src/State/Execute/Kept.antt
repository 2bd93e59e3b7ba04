-- ===== src/State/Execute/Kept.antt =====
-- A run changes nothing of its state but what later runs do not read.
use smarty_appserver.Prelude.{
  ℤ, ◌≡◌, ◌∙◌, c_str, refl, sym, ap, Bool, true, false, Option, none, some, List, [], Text, length,
  ◌==◌,
}
use smarty_appserver.Action.{lift}
use smarty_appserver.State.Execute.Payload.{deliver}
use smarty_appserver.Action.Gives.{
  GivesAt, Gives, Gives-pure, Gives-lift, Gives-if, Gives-catch_all, Gives-bind, Gives-then,
}
use smarty_appserver.Regex.{Regex, Matching, matched, no_match, failed, regexec, regmatch_count}
use smarty_appserver.Database.{DbMap}
use smarty_appserver.Parser.{Externals}
use smarty_appserver.State.{
  State, Body, Assignment, end, file, regex, query, match, http, mail, sms, script, shell,
  structure, goto, EndBody, FileBody, RegexBody, QueryBody, MatchBody, HttpBody, MailBody,
  ShellBody, StructBody,
}
use smarty_appserver.State.Execute.{execute, execute_body}
use smarty_appserver.State.Execute.Output.{execute_end, execute_file, write_file}
use smarty_appserver.State.Execute.Matching.{
  substrings, no_substrings, assign_and_go, execute_goto, execute_regex, execute_match,
  execute_query, execute_structure, on_regex_value, on_regex, on_regexec, on_match_value,
  on_structure_value, on_tree, parse_tree,
}
use smarty_appserver.State.Execute.Services.{
  execute_shell, execute_http, execute_mail, on_popen, on_http, perform_http, send_http,
  http_request, on_mail, send_mail, compose_mail, mail_if, sender,
}
use smarty_appserver.State.Verify.{non_empty}
use smarty_appserver.State.Execute.Transient.{forget, forget_body}
use smarty_appserver.World.{
  World, System, HttpRequest, MailRequest, set_ext, CurlResult, setopt_failed, perform_failed,
  performed,
}

-- A mail state has a sender, as `verify` asks.
abbrev pub HasSender : Body → Type 0
HasSender (mail b) = (length b.from == 0) ≡ false
HasSender _ = Unit

module _ {S : Type 0} (x : Externals) (sys : System S) (st : State) where
  -- The state that comes back.
  abbrev pub IsKept : State × ℤ → Type 0
  IsKept p = forget p.0 ≡ forget st

  same_forgotten : (b : Body) → st.body ≡ b → record st { body = forget_body b } ≡ forget st
  same_forgotten b e = ap (λ c. record st { body = forget_body c }) (sym e)

  kept_groups :
      (b : RegexBody) (l : List (Option Text))
      → st.body ≡ regex b
      → forget (record st { body = regex (record b { substring = l }) }) ≡ forget st
  kept_groups b l e = same_forgotten (regex b) e

  kept_row :
      (b : QueryBody) (row : Option (List (Option Text)))
      → st.body ≡ query b
      → forget (record st { body = query (record b { result = row }) }) ≡ forget st
  kept_row b row e = same_forgotten (query b) e

  kept_tree :
      (b : StructBody) (tree : Text → Text)
      → st.body ≡ structure b
      → forget (record st { body = structure (record b { tree = tree }) }) ≡ forget st
  kept_tree b tree e = same_forgotten (structure b) e

  assign_and_go-IsKept :
      (st' : State) (asgs : List Assignment)
      → forget st' ≡ forget st
      → Gives {S = World S} IsKept (assign_and_go x sys st st' asgs)
  unfolding assign_and_go
  assign_and_go-IsKept st' asgs e = Gives-catch_all _ _ e (Gives-then _ _ (λ _. Gives-pure _ e))

  execute_end-IsKept : (b : EndBody) → Gives {S = World S} IsKept (execute_end x sys st b)
  unfolding execute_end
  execute_end-IsKept b = Gives-then _ _ (λ _. Gives-pure _ refl)

  execute_file-IsKept : (b : FileBody) → Gives {S = World S} IsKept (execute_file x sys st b)
  unfolding execute_file
  execute_file-IsKept b = Gives-then _ _ on
    where
      on : (opened : Bool) → Gives {S = World S} IsKept (write_file x sys st b opened)
      on false = Gives-pure _ refl
      on true = Gives-then _ _ (λ _. Gives-pure _ refl)

  execute_regex-IsKept :
      (b : RegexBody) → st.body ≡ regex b → Gives {S = World S} IsKept (execute_regex x sys st b)
  unfolding execute_regex
  execute_regex-IsKept b e = Gives-then _ _ on_value
    where
      on_exec :
          (val : Text) (m : Matching)
          → Gives {S = World S} IsKept
              (on_regexec x sys st (record b { substring = no_substrings }) val m)
      on_exec val (matched g) =
          assign_and_go-IsKept _ b.assignments (kept_groups b (substrings regmatch_count g val) e)
      on_exec val no_match = Gives-pure _ (kept_groups b no_substrings e)
      on_exec val (failed rv) = Gives-pure _ (kept_groups b no_substrings e)

      on_some :
          (val : Text) (o : Option Regex)
          → Gives {S = World S} IsKept
              (on_regex x sys st (record b { substring = no_substrings }) val o)
      on_some val none = Gives-lift _ tt
      on_some val (some r) = on_exec val (regexec r val)

      on_value :
          (o : Option Text)
          → Gives {S = World S} IsKept
              (on_regex_value x sys st (record b { substring = no_substrings }) o)
      on_value none = Gives-pure _ (kept_groups b no_substrings e)
      on_value (some val) = on_some val b.regex

  execute_match-IsKept : (b : MatchBody) → Gives {S = World S} IsKept (execute_match x sys st b)
  unfolding execute_match
  execute_match-IsKept b = Gives-then _ _ on
    where
      on : (o : Option Text) → Gives {S = World S} IsKept (on_match_value x sys st b o)
      on none = Gives-pure _ refl
      on (some val) = Gives-then _ _ (λ n. Gives-pure _ refl)

  execute_query-IsKept :
      (dbs : DbMap) (b : QueryBody)
      → st.body ≡ query b
      → Gives {S = World S} IsKept (execute_query x sys st dbs b)
  unfolding execute_query
  execute_query-IsKept dbs b e = Gives-catch_all _ _ (kept_row b none e) (
      Gives-then _ _
        (λ outq. Gives-then _ _ (λ row. assign_and_go-IsKept _ b.assignments (kept_row b row e))))

  execute_structure-IsKept :
      (b : StructBody)
      → st.body ≡ structure b
      → Gives {S = World S} IsKept (execute_structure x sys st b)
  unfolding execute_structure
  execute_structure-IsKept b e = Gives-then _ _ on
    where
      on_parsed : (o : Option (Text → Text)) → Gives {S = World S} IsKept (on_tree x sys st b o)
      on_parsed none = Gives-pure _ (kept_tree b (λ path. []) e)
      on_parsed (some tree) = Gives-then _ _ (λ _. Gives-pure _ (kept_tree b tree e))

      on : (o : Option Text) → Gives {S = World S} IsKept (on_structure_value x sys st b o)
      on none = Gives-pure _ (kept_tree b (λ path. []) e)
      on (some val) = on_parsed (parse_tree x sys st b.format val)

  execute_goto-IsKept :
      (asgs : List Assignment) → Gives {S = World S} IsKept (execute_goto x sys st asgs)
  unfolding execute_goto
  execute_goto-IsKept asgs = assign_and_go-IsKept st asgs refl

  execute_shell-IsKept : (b : ShellBody) → Gives {S = World S} IsKept (execute_shell x sys st b)
  unfolding execute_shell
  execute_shell-IsKept b =
      Gives-then _ _ (λ command. record { at = λ w. on w (sys.popen w.ext (c_str command)) })
    where
      on : (w : World S) (o : Option (Text × S)) → GivesAt IsKept (on_popen x sys st b w o).0
      on w none = refl
      on w (some (output, ext')) =
          (Gives-then (set_ext ext') _
              (λ _. Gives-then _ _ (λ _. Gives-pure (st, st.next_state) refl))).at
            w

  execute_http-IsKept : (b : HttpBody) → Gives {S = World S} IsKept (execute_http x sys st b)
  unfolding execute_http
  execute_http-IsKept b = Gives-then _ _ (λ url.
      Gives-if (non_empty b.params) _ _ (Gives-then _ _ (λ params. sent _ params)) (sent url []))
    where
      answered : (c : CurlResult) → Gives {S = World S} IsKept (on_http x sys st b c)
      answered setopt_failed = Gives-lift _ tt
      answered perform_failed = Gives-pure _ refl
      answered (performed reply) = Gives-then _ _ (λ _. Gives-then _ _ (λ _. Gives-pure _ refl))

      performs :
          (r : HttpRequest) (up : Bool) (w : World S)
          → GivesAt IsKept (perform_http x sys st b r up w).0
      performs r false w = (Gives-pure (st, st.error_state) refl).at w
      performs r true w =
          (Gives-then (set_ext (sys.curl w.ext r).1) _ (λ _. answered (sys.curl w.ext r).0)).at w

      sent : (url params : Text) → Gives {S = World S} IsKept (send_http x sys st b url params)
      sent url params = record {
        at = λ w. performs (http_request b url params) (sys.curl_init w.ext) w;
      }

  execute_mail-IsKept :
      (b : MailBody)
      → st.body ≡ mail b
      → HasSender (mail b)
      → Gives {S = World S} IsKept (execute_mail x sys st b)
  unfolding execute_mail compose_mail
  execute_mail-IsKept b e h = record { at = λ w. on (sys.curl_init w.ext) w }
    where
      answered :
          (b' : MailBody) (c : CurlResult)
          → b' ≡ b
          → Gives {S = World S} IsKept (on_mail x sys st (record st { body = mail b' }) c)
      answered b' setopt_failed same = Gives-lift _ tt
      answered b' perform_failed same =
          Gives-pure _ (ap (λ c. record st { body = mail c }) same ∙ same_forgotten (mail b) e)
      answered b' (performed reply) same =
          Gives-pure _ (ap (λ c. record st { body = mail c }) same ∙ same_forgotten (mail b) e)

      sent :
          (b' : MailBody) (r : MailRequest)
          → b' ≡ b
          → Gives {S = World S} IsKept (send_mail x sys st (record st { body = mail b' }) r)
      sent b' r same = record {
        at = λ w.
            (Gives-then (lift (deliver r.message (sys.mail_reads w.ext r) 0)) _ (λ _.
                Gives-then (set_ext (sys.curl_mail w.ext r).1) _
                  (λ _. answered b' (sys.curl_mail w.ext r).0 same))).at
              w;
      }

      composed :
          (p : MailBody × Text) → p.0 ≡ b → Gives {S = World S} IsKept (compose_mail x sys st p)
      composed (b', mx_from) same = Gives-then _ _ (λ mx_to. Gives-then _ _ (λ mx_cc.
          Gives-then _ _ (λ domain.
            Gives-then _ _
              (λ subj. Gives-then _ _ (λ text. record { at = λ w. (sent b' _ same).at w })))))

      named : Gives {S = World S} (λ p. p.0 ≡ b) (sender x sys st b)
      named = rw h (Gives-then _ _ (λ f. Gives-pure _ refl))

      on : (up : Bool) (w : World S) → GivesAt IsKept (mail_if x sys st b up w).0
      on false w = (Gives-pure (st, st.error_state) refl).at w
      on true w = (Gives-bind (sender x sys st b) (compose_mail x sys st) named composed).at w

module _ {S : Type 0} (x : Externals) (sys : System S) (dbs : DbMap) where
  execute_body-IsKept :
      (st : State) (b : Body)
      → st.body ≡ b
      → HasSender b
      → Gives {S = World S} (IsKept x sys st) (execute_body x sys dbs st b)
  unfolding execute_body
  execute_body-IsKept st (end b) e h = execute_end-IsKept x sys st b
  execute_body-IsKept st (file b) e h = execute_file-IsKept x sys st b
  execute_body-IsKept st (regex b) e h = execute_regex-IsKept x sys st b e
  execute_body-IsKept st (query b) e h = execute_query-IsKept x sys st dbs b e
  execute_body-IsKept st (match b) e h = execute_match-IsKept x sys st b
  execute_body-IsKept st (http b) e h = execute_http-IsKept x sys st b
  execute_body-IsKept st (mail b) e h = execute_mail-IsKept x sys st b e h
  execute_body-IsKept st sms e h = Gives-pure _ refl
  execute_body-IsKept st script e h = Gives-pure _ refl
  execute_body-IsKept st (shell b) e h = execute_shell-IsKept x sys st b
  execute_body-IsKept st (structure b) e h = execute_structure-IsKept x sys st b e
  execute_body-IsKept st (goto asgs) e h = execute_goto-IsKept x sys st asgs

  -- A state, with its sender if it is a mail state, is the same after a run, but for the groups, the
  -- row or the tree of that run.
  pub execute-IsKept :
      (st : State)
      → HasSender st.body
      → Gives {S = World S} (IsKept x sys st) (execute x sys dbs st)
  unfolding execute
  execute-IsKept st h = execute_body-IsKept st st.body refl h
