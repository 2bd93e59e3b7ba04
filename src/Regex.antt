-- ===== src/Regex.antt =====
-- include/cregex.hpp, src/cregex.cpp: CRegex, and the lookup of CRegexCollection. `regcomp` and
-- `regexec` are libc's: a compiled regex is what `regexec` does with it, and `regcomp` is a
-- parameter of the operations that compile.
pub mod Collection
pub mod Names
use smarty_appserver.Prelude.{
  ℕ, ◌-◌, ◌+◌, ◌==◌, if◌then◌else◌, Option, none, some, List, Text, get_elem?, lookup, c_str,
}
use smarty_appserver.CppString.{substr, substr_from}
use smarty_appserver.Errors.{Result, ok, throw, runtime_error, out_of_range, or_throw}

-- regmatch_t[REGMATCH_COUNT]: (rm_so, rm_eo), or `none` for the offsets -1 of an unused group.
abbrev pub Groups : Type 0
Groups = List (Option (ℕ × ℕ))

-- What `regexec` returns: 0 with the offsets, REG_NOMATCH, or another code.
pub data Matching : Type 0 where
  matched : Groups → Matching
  no_match : Matching
  failed : ℕ → Matching

-- REGMATCH_COUNT
abbrev pub regmatch_count : ℕ
regmatch_count = 20

pub record Regex : Type 0 where
  pub pattern : Text
  pub exec : Text → Matching

-- `regcomp(&m_regex, reg, flags)`: none is an error code.
abbrev pub Regcomp : Type 0
Regcomp = Text → Option (Text → Matching)

abbrev with_pattern : Text → Option (Text → Matching) → Result Regex
with_pattern reg none = throw runtime_error
with_pattern reg (some e) = ok (record { pattern = reg; exec = e })

-- CRegex::CRegex(reg, flags)
unfoldable pub compile : Regcomp → Text → Result Regex
compile regcomp reg = with_pattern reg (regcomp (c_str reg))

-- regexec(rex->get(), s.c_str(), …)
unfoldable pub regexec : Regex → Text → Matching
regexec r s = r.exec (c_str s)

-- CRegexCollection::m_regmap
abbrev pub Collection : Type 0
Collection = List (Text × Regex)

-- CRegexCollection::operator [] and get
unfoldable pub index : Collection → Text → Result Regex
index c name = or_throw (lookup name c) runtime_error

-- line.substr(regmatch[k].rm_so, regmatch[k].rm_eo - regmatch[k].rm_so): an unused group has the
-- offset -1, which is past the end.
unfoldable pub capture : Groups → ℕ → Text → Result Text
capture g k line = elim (get_elem? g k) [
  | some (some (so, eo)) ↦ substr line so (eo - so)
  | _ ↦ throw out_of_range
]

-- line.substr(regmatch[k].rm_so)
unfoldable pub capture_from : Groups → ℕ → Text → Result Text
capture_from g k line = elim (get_elem? g k) [
  | some (some (so, eo)) ↦ substr_from line so
  | _ ↦ throw out_of_range
]

-- line.substr(regmatch[k].rm_eo)
unfoldable pub capture_after : Groups → ℕ → Text → Result Text
capture_after g k line = elim (get_elem? g k) [
  | some (some (so, eo)) ↦ substr_from line eo
  | _ ↦ throw out_of_range
]

-- line.substr(regmatch[k].rm_so + 1, len - 1): for an empty group len - 1 is npos.
unfoldable pub capture_tail : Groups → ℕ → Text → Result Text
capture_tail g k line = elim (get_elem? g k) [
  | some (some (so, eo)) ↦
      if so == eo then substr_from line (so + 1) else substr line (so + 1) (eo - so - 1)
  | _ ↦ throw out_of_range
]
