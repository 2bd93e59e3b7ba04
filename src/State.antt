-- ===== src/State.antt =====
-- include/cstate.hpp and the constructors of the state classes: the objects that a script is made
-- of. The virtual methods are functions by cases on the class, in the modules below.
pub mod Verify
pub mod Parse
pub mod Execute
use smarty_appserver.Prelude.{
  ℤ, negsuc, Bool, false, Option, none, List, [], Text, codes, replicate,
}
use smarty_appserver.Regex.{Regex, regmatch_count}

-- ENDSTATE
abbrev pub end_state : ℤ
end_state = negsuc 0

-- assignmentList_t: the variable, then the terms to try.
abbrev pub Assignment : Type 0
Assignment = List Text

-- CStructureState::sformat_t
pub data Format : Type 0 where
  unset xml json : Format

-- CHttpState::httpmethod_t
pub data HttpMethod : Type 0 where
  get post : HttpMethod

pub record EndBody : Type 0 where
  pub out_list : List Text
  pub interpret_flag : List Bool

pub record FileBody : Type 0 where
  pub file_name : Text
  pub out_list : List Text
  pub interpret_flag : List Bool

-- `substring` is m_substring: the groups of the last match.
pub record RegexBody : Type 0 where
  pub match_var : Text
  pub regex : Option Regex
  pub substring : List (Option Text)
  pub assignments : List Assignment

pub record MatchBody : Type 0 where
  pub match_var : Text
  pub rex_list : List Regex
  pub state_list : List ℤ

-- `result` is m_qResult: the columns of the row, `none` for a NULL.
pub record QueryBody : Type 0 where
  pub dbsection : Text
  pub query : Text
  pub assignments : List Assignment
  pub result : Option (List (Option Text))

pub record HttpBody : Type 0 where
  pub url : Text
  pub usercert : Text
  pub ucertenc : Text
  pub cacert : Text
  pub pkey : Text
  pub pkeyenc : Text
  pub pkeypswd : Text
  pub method : HttpMethod
  pub outputvar : Text
  pub params : Text
  pub headers : List Text
  pub dumpfile : Text
  pub dumpflag : Bool

pub record MailBody : Type 0 where
  pub server : Text
  pub from : Text
  pub to : Text
  pub cc : Text
  pub subject : Text
  pub attachments : List Text
  pub contents : List Text

pub record ShellBody : Type 0 where
  pub command : Text
  pub outputvar : Text

-- `tree` is m_pt, by what `m_pt.get<std::string>(path, "")` returns.
pub record StructBody : Type 0 where
  pub match_var : Text
  pub format : Format
  pub tree : Text → Text
  pub assignments : List Assignment

-- The members of a subclass of CState.
pub data Body : Type 0 where
  end : EndBody → Body
  file : FileBody → Body
  regex : RegexBody → Body
  query : QueryBody → Body
  match : MatchBody → Body
  http : HttpBody → Body
  mail : MailBody → Body
  sms : Body
  script : Body
  shell : ShellBody → Body
  structure : StructBody → Body
  goto : List Assignment → Body

pub record State : Type 0 where
  pub number : ℤ
  pub error_state : ℤ
  pub next_state : ℤ
  pub script_name : Text
  pub log_prefix : Text
  pub pfx_interpret : Bool
  pub body : Body

-- CState::CState
unfoldable pub new_state : ℤ → Text → Body → State
new_state num script_name body = record {
  number = num;
  error_state = end_state;
  next_state = end_state;
  script_name = script_name;
  log_prefix = [];
  pfx_interpret = false;
  body = body;
}

-- The constructors of the classes that have members.
abbrev pub new_end : Body
new_end = end (record { out_list = []; interpret_flag = [] })

abbrev pub new_file : Body
new_file = file (record { file_name = []; out_list = []; interpret_flag = [] })

abbrev pub new_regex : Body
new_regex = regex (record {
  match_var = [];
  regex = none;
  substring = replicate regmatch_count none;
  assignments = [];
})

abbrev pub new_query : Body
new_query = query (record { dbsection = []; query = []; assignments = []; result = none })

abbrev pub new_match : Body
new_match = match (record { match_var = []; rex_list = []; state_list = [] })

abbrev pub pem : Text
pem = codes "PEM"

abbrev pub der : Text
der = codes "DER"

abbrev pub new_http : Body
new_http = http (record {
  url = [];
  usercert = [];
  ucertenc = pem;
  cacert = [];
  pkey = [];
  pkeyenc = pem;
  pkeypswd = [];
  method = get;
  outputvar = [];
  params = [];
  headers = [];
  dumpfile = [];
  dumpflag = false;
})

-- `server` is the configuration's smtp.mailserver.
abbrev pub new_mail : Text → Body
new_mail server = mail (record {
  server = server;
  from = [];
  to = [];
  cc = [];
  subject = [];
  attachments = [];
  contents = [];
})

abbrev pub new_shell : Body
new_shell = shell (record { command = []; outputvar = [] })

abbrev pub new_structure : Body
new_structure =
    structure (record { match_var = []; format = unset; tree = λ path. []; assignments = [] })

abbrev pub new_goto : Body
new_goto = goto []
