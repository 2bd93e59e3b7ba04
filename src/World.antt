-- ===== src/World.antt =====
-- What a running state works on: the symbol table of the assigner, the FastCGI output, and the
-- outside (memcached, files, processes, databases, the network), which is a parameter.
use smarty_appserver.Prelude.{ℕ, Option, Bool, List, Text, ◌++◌}
use smarty_appserver.Errors.{ok}
use smarty_appserver.Action.{Action}
use smarty_appserver.Database.{Database, QueryResult}

-- What a `char*` of the symbol table points to: a string from `strdup`, the one of these that
-- `scriptName` of processRequest points to as well, or the buffer of a `std::string` that has been
-- destroyed.
pub data Value : Type 0 where
  owned : Text → Value
  held : Text → Value
  dangling : Value

abbrev pub Table : Type 0
Table = List (Text × Value)

-- The options that CHttpState::execute sets.
pub record HttpRequest : Type 0 where
  pub url : Text
  pub postfields : Option Text
  pub headers : List Text
  pub sslcert : Option (Text × Text)
  pub cainfo : Option Text
  pub sslkey : Option Text
  pub keypasswd : Option Text

-- The options that CMailState::execute sets, and the lines that its callback delivers.
pub record MailRequest : Type 0 where
  pub url : Text
  pub mail_from : Text
  pub recipients : List Text
  pub message : List Text

-- curl_easy_setopt fails, curl_easy_perform fails, or the reply.
pub data CurlResult : Type 0 where
  setopt_failed perform_failed : CurlResult
  performed : Text → CurlResult

pub record System (S : Type 0) : Type 0 where
  -- `none` is any return code but MEMCACHED_SUCCESS.
  pub memcached_get : S → Text → Option Text
  pub memcached_set : S → Text → Text → Option S
  -- std::ofstream(path): `none` if it is not open; an open file is empty.
  pub file_open : S → Text → Option S
  pub file_write : S → Text → Text → S
  -- popen(command, "r") and the whole output.
  pub popen : S → Text → Option (Text × S)
  -- curl_easy_init() != 0
  pub curl_init : S → Bool
  pub curl : S → HttpRequest → CurlResult × S
  pub curl_mail : S → MailRequest → CurlResult × S
  -- The size and nmemb of the reads of the message that curl asks its callback for, in their order.
  pub mail_reads : S → MailRequest → List (ℕ × ℕ)
  pub db_query : S → Database → Text → QueryResult × S
  pub read_json : Text → Option (Text → Text)
  pub read_xml : Text → Option (Text → Text)
  -- rfcDate and uuid_unparse
  pub date : S → Text
  pub uuid : S → Text

pub record World (S : Type 0) : Type 0 where
  pub table : Table
  pub out : Text
  pub ext : S

-- FCGX_PutS, FCGX_FPrintF
unfoldable pub put_out : {S : Type 0} → Text → Action (World S) (Unit {0})
put_out t w = (ok tt, record w { out = w.out ++ t })

unfoldable pub set_ext : {S : Type 0} → S → Action (World S) (Unit {0})
set_ext s w = (ok tt, record w { ext = s })
