-- ===== src/State/Execute/Services.antt =====
-- src/shellstate.cpp, src/httpstate.cpp, src/mailstate.cpp: the states that call a service.
use smarty_appserver.Prelude.{
  ℤ, Bool, true, false, ◌&&◌, Option, none, some, List, [], ◌∷◌, ◌++◌, Text, codes, length, ◌==◌,
  if◌then◌else◌, c_str, drop, map,
}
use smarty_appserver.CppString.{rfind}
use smarty_appserver.Errors.{Result, ok, throw, exit, out_of_range}
use smarty_appserver.Action.{Action, pure, lift, ◌>>=◌}
use smarty_appserver.Parser.{Externals}
use smarty_appserver.State.{State, ShellBody, HttpBody, MailBody, HttpMethod, get, post, mail}
use smarty_appserver.State.Verify.{starts_with_nocase, non_empty}
use smarty_appserver.State.Execute.Output.{open_file}
use smarty_appserver.State.Execute.Payload.{deliver}
use smarty_appserver.World.{
  World, System, HttpRequest, MailRequest, CurlResult, setopt_failed, perform_failed, performed,
  dangling, set_ext,
}
use smarty_appserver.Assigner.{assign_local}
use smarty_appserver.Assigner.Evaluate.{evaluate}

-- "\r\n"
abbrev pub crlf : Text
crlf = 0x0d ∷ 0x0a ∷ []

abbrev if_set : Bool → Text → Option Text
if_set true t = some t
if_set false t = none

abbrev pair_if_set : Bool → Text × Text → Option (Text × Text)
pair_if_set true t = some t
pair_if_set false t = none

-- The calls of curl_easy_setopt in CHttpState::execute; the test for "https://" reads m_url.
unfoldable pub http_request : HttpBody → Text → Text → HttpRequest
http_request b curl_url curl_params =
    let ssl = starts_with_nocase b.url (codes "https://") in
    record {
      url = c_str curl_url;
      postfields = elim b.method [ get ↦ none | post ↦ some (c_str curl_params) ];
      headers = map c_str b.headers;
      sslcert = pair_if_set (ssl && non_empty b.usercert) (b.ucertenc, b.usercert);
      cainfo = if_set (ssl && non_empty b.cacert) b.cacert;
      sslkey = if_set (ssl && non_empty b.pkey) b.pkey;
      keypasswd = if_set (ssl && non_empty b.pkey && non_empty b.pkeypswd) b.pkeypswd;
    }

-- `if(m_method == HTTPGET) curl_url += curl_params;`
abbrev pub with_params : HttpMethod → Text → Text → Text
with_params get url params = url ++ params
with_params post url params = url

-- Message-ID: what follows the last '@' of the sender, that sign included.
unfoldable pub from_domain : Text → Result Text
from_domain mx_from = elim (rfind b'@' mx_from) [
  | none ↦ throw out_of_range
  | some i ↦ ok (drop i mx_from)
]

module _ {S : Type 0} (x : Externals) (sys : System S) (st : State) where
  abbrev pub on_popen : ShellBody → World S → Option (Text × S) → Result (State × ℤ) × World S
  on_popen b w none = (ok (st, st.error_state), w)
  on_popen b w (some (output, ext')) =
      (set_ext ext' >>= λ _.
      assign_local b.outputvar (some dangling) >>= λ _. pure (st, st.next_state))
        w

  -- CShellState::execute. `result` is a local string: the table keeps the address of its buffer,
  -- which is gone when the method returns.
  unfoldable pub execute_shell : ShellBody → Action (World S) (State × ℤ)
  execute_shell b =
      evaluate x sys st b.command >>= λ command w. on_popen b w (sys.popen w.ext (c_str command))

  -- The dump of the reply.
  abbrev pub dump : HttpBody → Text → Bool → Action (World S) (Unit {0})
  dump b reply false = pure tt
  dump b reply true = λ w. set_ext (sys.file_write w.ext (c_str b.dumpfile) reply) w

  abbrev pub dump_if : HttpBody → Text → Bool → Action (World S) (Unit {0})
  dump_if b reply false = pure tt
  dump_if b reply true = open_file x sys st b.dumpfile >>= dump b reply

  -- `curl_outstring` is a local string, as in the shell state.
  abbrev pub on_http : HttpBody → CurlResult → Action (World S) (State × ℤ)
  on_http b setopt_failed = lift exit
  on_http b perform_failed = pure (st, st.error_state)
  on_http b (performed reply) = assign_local b.outputvar (some dangling) >>= λ _.
      dump_if b reply b.dumpflag >>= λ _. pure (st, st.next_state)

  abbrev pub perform_http : HttpBody → HttpRequest → Bool → Action (World S) (State × ℤ)
  perform_http b r false = pure (st, st.error_state)
  perform_http b r true =
      λ w. let (res, ext') = sys.curl w.ext r in (set_ext ext' >>= λ _. on_http b res) w

  abbrev pub send_http : HttpBody → Text → Text → Action (World S) (State × ℤ)
  send_http b url params w = perform_http b (http_request b url params) (sys.curl_init w.ext) w

  -- CHttpState::execute
  unfoldable pub execute_http : HttpBody → Action (World S) (State × ℤ)
  execute_http b = evaluate x sys st b.url >>= λ url.
      if non_empty b.params
      then (evaluate x sys st b.params >>= λ params.
          send_http b (with_params b.method url params) params)
      else send_http b url []

  -- The message text.
  unfoldable pub data_lines : List Text → Action (World S) (List Text)
  data_lines [] = pure []
  data_lines (t ∷ ts) =
      evaluate x sys st t >>= λ s. data_lines ts >>= λ rest. pure ((s ++ crlf) ∷ rest)

  abbrev pub or_text : Option Text → Text → Text
  or_text none t = t
  or_text (some s) t = s

  -- `if(m_from.size() == 0) m_from = …; else evaluate(m_from, mxFrom, this);`
  abbrev pub sender : MailBody → Action (World S) (MailBody × Text)
  sender b =
      if length b.from == 0
      then pure (
        record b { from = or_text (x.config_get (codes "smtp.from")) (codes "root@localhost") },
        [],
      )
      else (evaluate x sys st b.from >>= λ f. pure (b, f))

  -- The header lines, the empty line and the text. The line that ends the header is the subject's
  -- once more: `tmpstr` still holds it.
  abbrev pub message_lines : Text → Text → Text → Text → Text → Text → Text → List Text → List Text
  message_lines date mx_from mx_to mx_cc uuid domain subj text =
      (codes "Date: " ++ (c_str date ++ crlf))
      ∷ (codes "From: " ++ (mx_from ++ crlf))
      ∷ (codes "To: " ++ (mx_to ++ crlf))
      ∷ (codes "CC: " ++ (mx_cc ++ crlf))
      ∷ (codes "Message-ID: " ++ (c_str uuid ++ (domain ++ crlf)))
      ∷ (codes "Subject: " ++ (subj ++ crlf))
      ∷ ((codes "Subject: " ++ (subj ++ crlf)) ++ crlf)
      ∷ text

  abbrev pub on_mail : State → CurlResult → Action (World S) (State × ℤ)
  on_mail st' setopt_failed = lift exit
  on_mail st' perform_failed = pure (st', st.error_state)
  on_mail st' (performed reply) = pure (st', st.next_state)

  -- curl_easy_perform, with the calls of payload_writer that it makes.
  abbrev pub send_mail : State → MailRequest → Action (World S) (State × ℤ)
  send_mail st' r w =
      let (res, ext') = sys.curl_mail w.ext r in
      (lift (deliver r.message (sys.mail_reads w.ext r) 0) >>= λ _.
      set_ext ext' >>= λ _. on_mail st' res)
        w

  unfoldable pub compose_mail : MailBody × Text → Action (World S) (State × ℤ)
  compose_mail (b, mx_from) = evaluate x sys st b.to >>= λ mx_to.
      evaluate x sys st b.cc >>= λ mx_cc. lift (from_domain mx_from) >>= λ domain.
      evaluate x sys st b.subject >>= λ subj. data_lines b.contents >>= λ text w.
      send_mail (record st { body = mail b })
        (record {
          url = codes "smtp://" ++ b.server;
          mail_from = c_str mx_from;
          recipients = c_str mx_to ∷ c_str mx_cc ∷ [];
          message =
              message_lines (sys.date w.ext) mx_from mx_to mx_cc (sys.uuid w.ext) domain subj text;
        })
        w

  abbrev pub mail_if : MailBody → Bool → Action (World S) (State × ℤ)
  mail_if b false = pure (st, st.error_state)
  mail_if b true = sender b >>= compose_mail

  -- CMailState::execute
  unfoldable pub execute_mail : MailBody → Action (World S) (State × ℤ)
  unfolding compose_mail
  execute_mail b w = mail_if b (sys.curl_init w.ext) w
