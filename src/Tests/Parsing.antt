-- ===== src/Tests/Parsing.antt =====
-- A script of one state, and lines with comments.
use smarty_appserver.Prelude.{
  ◌⊎◌, Text, pos, ◌≡◌, refl, some, [], ◌∷◌, codes, ◌==◌, take, lookup, text_eq, c_str, arith,
}
use smarty_appserver.CppString.{substr_from, find, rfind, substr}
use smarty_appserver.Errors.{ok}
use smarty_appserver.Parser.Assignment.{parse_assignment, left_side, parse_terms, next_term}
use smarty_appserver.Regex.{capture_from, capture_after, index, regexec, capture}
use smarty_appserver.Http.{url_decode}
use smarty_appserver.Http.Decode.{url_encode, url_decode-url_encode}
use smarty_appserver.Parser.{is_matched, spelling, fetch_int, lexical_int}
use smarty_appserver.Parser.Comment.{strip_comment, comment_place}
use smarty_appserver.Parser.Comment.Quotes.{IsQuoted, IsComment, strip_comment_cases}
use smarty_appserver.Parser.Script.{
  StateMap, find_state, open_block, close_block, in_block, read_line, read_lines, parse_script,
}
use smarty_appserver.Parser.Script.WellFormed.{IsWellFormed, parse_script-IsWellFormed}
use smarty_appserver.State.{new_state, new_end}
use smarty_appserver.State.Verify.{verify, verify_end}
use smarty_appserver.Tests.Sample.{scan_two, scan_two-ScansHex, sample, letter_exec, sample_int}

abbrev end_map : StateMap
end_map = (pos 1, new_state (pos 1) (codes "s") new_end) ∷ []

-- "state 1 end", "endstate"
parsed :
    parse_script sample (codes "s") (some (codes "e1" ∷ codes "q" ∷ [])) [] ≡ ok (some end_map, [])
unfolding parse_script read_lines read_line open_block in_block close_block is_matched spelling
    index regexec capture fetch_int lexical_int strip_comment comment_place find rfind find_state
    verify verify_end lookup text_eq c_str substr letter_exec sample_int new_state
parsed = refl

parse_script-IsWellFormed_example : IsWellFormed end_map
parse_script-IsWellFormed_example =
    parse_script-IsWellFormed sample (codes "s") (some (codes "e1" ∷ codes "q" ∷ [])) [] [] end_map
      parsed

-- Between the double quotes, and after the single ones.
abbrev two_quotes : Text
two_quotes = codes "'a' \"b#c\""

strip_comment_cases_example :
    (IsQuoted two_quotes 6 × (strip_comment two_quotes ≡ two_quotes))
    ⊎ (IsComment two_quotes 6 × (strip_comment two_quotes ≡ take 6 two_quotes))
unfolding find comment_place
strip_comment_cases_example = strip_comment_cases two_quotes 6 refl

url_decode-url_encode_example :
    url_decode scan_two 7 (url_encode (λ c. c == 37) (codes "5% a")) ≡ codes "5% a"
url_decode-url_encode_example =
    url_decode-url_encode scan_two scan_two-ScansHex (λ c. c == 37) refl 7 (codes "5% a")
      (omega arith, (omega arith, (omega arith, (omega arith, tt))))

-- The run itself: the variable "b" and the term "1".
parsed_assignment :
    parse_assignment sample (pos 1) [] 0 (codes "ab@1") ≡ ok (codes "b" ∷ codes "1" ∷ [])
unfolding parse_assignment left_side parse_terms next_term capture capture_from capture_after substr
    substr_from is_matched spelling index regexec lookup c_str text_eq letter_exec
parsed_assignment = refl
