-- ===== src/Logging.antt =====
-- src/utils.cpp: the buffer of a log message, the facility of syslog, and the pid file.
pub mod PidFile
use mathlib.Core.Path.{subst}
use smarty_appserver.Prelude.{
  ℕ, zero, suc, ◌+◌, ◌-◌, ◌≤◌, ◌<◌, ◌≡◌, refl, ℤ, pos, negsuc, Bool, true, false, Option, none,
  some, List, [], ◌∷◌, ◌++◌, Text, codes, length, take, c_str, ltb, if◌then◌else◌, arith,
  length-append, length-take-le, lt→ltb, take-append,
}

-- LOGBUFF_SIZE
abbrev pub logbuff_size : ℕ
logbuff_size = 256

-- A buffer of `n` bytes that holds a C string: the bytes before its NUL.
-- strncpy(buf, s, n): with `n` bytes or more there is no NUL.
unfoldable pub strncpy : Text → ℕ → Option Text
strncpy s n = if ltb (length (c_str s)) n then some (c_str s) else none

-- strlcat(buf, t, n): what is there, and as much of `t` as leaves a byte for the NUL.
unfoldable pub strlcat : Text → Text → ℕ → Text
strlcat buf t n = buf ++ take (n - 1 - length buf) (c_str t)

-- The format that vlog hands to vsyslog; `none` if it is not ended.
abbrev then_format : Text → Option Text → Option Text
then_format format none = none
then_format format (some buf) = some (strlcat buf format logbuff_size)

unfoldable pub vlog : Text → Text → Option Text
vlog severity format = then_format format (strncpy severity logbuff_size)

pub data Level : Type 0 where
  debug error warning message : Level

abbrev pub severity_of : Level → Text
severity_of Level.debug = codes "ASDEBUG: "
severity_of Level.error = codes "ASERROR: "
severity_of Level.warning = codes "ASWARN: "
severity_of Level.message = codes "ASINFO: "

-- The four log functions: `none` where log_debug is off.
unfoldable pub log_format : Bool → Level → Text → Option (Option Text)
log_format false Level.debug format = none
log_format _ level format = some (vlog (severity_of level) format)

-- The facility of init_syslog, LOG_LOCAL0 and on: out of 0..7 it is 7.
unfoldable pub syslog_facility : ℤ → ℕ
syslog_facility (pos n) = if ltb 7 n then 7 else n
syslog_facility (negsuc n) = 7

-- The buffer holds a C string that begins with the severity.
abbrev pub IsMessage : Text → Option Text → Type 0
IsMessage severity none = ⊥
IsMessage severity (some buf) =
    (length buf < logbuff_size) × (take (length severity) buf ≡ severity)

vlog-IsMessage :
    (severity format : Text)
    → c_str severity ≡ severity
    → length severity < logbuff_size
    → IsMessage severity (vlog severity format)
unfolding vlog strncpy strlcat
vlog-IsMessage severity format e h =
    let cut = take (logbuff_size - 1 - length severity) (c_str format) in
    rw (e, lt→ltb (length severity) logbuff_size h)
      (
        omega (
          arith,
          length-append severity cut,
          length-take-le (logbuff_size - 1 - length severity) (c_str format),
        ),
        take-append severity cut,
      )

some-injective : {a b : Option Text} → some a ≡ some b → a ≡ b
some-injective e = cc

vlog-IsMessage_of :
    (severity format : Text) (o : Option Text)
    → c_str severity ≡ severity
    → length severity < logbuff_size
    → some (vlog severity format) ≡ some o
    → IsMessage severity o
vlog-IsMessage_of severity format o k h e =
    subst (IsMessage severity) (some-injective e) (vlog-IsMessage severity format k h)

-- Whatever the format of a message, its buffer ends with a NUL inside of its 256 bytes and begins
-- with the whole severity; a long format is cut. With debugging off only log_debug is silent.
pub log_format-IsMessage :
    (on : Bool) (level : Level) (format : Text) (o : Option Text)
    → log_format on level format ≡ some o
    → IsMessage (severity_of level) o
unfolding log_format c_str
log_format-IsMessage false Level.debug format o e = absurd (ground arith)
log_format-IsMessage true Level.debug format o e =
    vlog-IsMessage_of (severity_of Level.debug) format o refl (omega arith) e
log_format-IsMessage true Level.error format o e =
    vlog-IsMessage_of (severity_of Level.error) format o refl (omega arith) e
log_format-IsMessage true Level.warning format o e =
    vlog-IsMessage_of (severity_of Level.warning) format o refl (omega arith) e
log_format-IsMessage true Level.message format o e =
    vlog-IsMessage_of (severity_of Level.message) format o refl (omega arith) e
log_format-IsMessage false Level.error format o e =
    vlog-IsMessage_of (severity_of Level.error) format o refl (omega arith) e
log_format-IsMessage false Level.warning format o e =
    vlog-IsMessage_of (severity_of Level.warning) format o refl (omega arith) e
log_format-IsMessage false Level.message format o e =
    vlog-IsMessage_of (severity_of Level.message) format o refl (omega arith) e
