-- ===== src/State/Verify.antt =====
-- The virtual method `verify` of the state classes (src/*state.cpp), called at `endstate`. It may
-- change the state: a goto state's does.
pub mod Accepted
use mathlib.Core.Path.{subst}
use smarty_appserver.Prelude.{
  ℕ, Bool, true, false, not, ◌&&◌, ◌||◌, none, some, Option, ◌≡◌, refl, sym, arith, Text, codes,
  length, ltb, leb, ◌==◌, int_eq, is_positive, text_eq, pos, if◌then◌else◌, take, map, ◌+◌,
}
use smarty_appserver.Regex.{Regex}
use smarty_appserver.State.{
  State, Body, end, file, regex, query, match, http, mail, sms, script, shell, structure, goto,
  EndBody, FileBody, RegexBody, QueryBody, MatchBody, HttpBody, MailBody, ShellBody, StructBody,
  Format, unset, xml, json, end_state, pem, der,
}

-- get_errorState() > 0 && get_nextState() > 0 && get_errorState() != get_nextState()
unfoldable pub has_exits : State → Bool
has_exits s =
    is_positive s.error_state && is_positive s.next_state && not (int_eq s.error_state s.next_state)

abbrev pub non_empty : Text → Bool
non_empty t = ltb 0 (length t)

abbrev pub is_set : Option Regex → Bool
is_set none = false
is_set (some r) = true

abbrev pub is_format : Format → Bool
is_format unset = false
is_format xml = true
is_format json = true

-- tolower
abbrev lower : ℕ → ℕ
lower c = if leb b'A' c && leb c b'Z' then c + 32 else c

-- strncasecmp(s, prefix, strlen(prefix)) == 0
unfoldable pub starts_with_nocase : Text → Text → Bool
starts_with_nocase s prefix = text_eq (map lower (take (length prefix) s)) prefix

unfoldable pub verify_end : State → EndBody → Bool
verify_end s b =
    int_eq s.error_state end_state
    && int_eq s.next_state end_state
    && length b.out_list == length b.interpret_flag

unfoldable pub verify_file : State → FileBody → Bool
verify_file s b = has_exits s && non_empty b.file_name

unfoldable pub verify_regex : State → RegexBody → Bool
verify_regex s b = has_exits s && non_empty b.match_var && is_set b.regex

unfoldable pub verify_query : State → QueryBody → Bool
verify_query s b = has_exits s && non_empty b.dbsection && non_empty b.query

unfoldable pub verify_match : State → MatchBody → Bool
verify_match s b =
    has_exits s
    && non_empty b.match_var
    && ltb 0 (length b.rex_list)
    && length b.state_list == length b.rex_list

abbrev is_encoding : Text → Bool
is_encoding t = text_eq t pem || text_eq t der

unfoldable pub verify_http : State → HttpBody → Bool
verify_http s b =
    ltb 7 (length b.url)
    && (starts_with_nocase b.url (codes "http://") || starts_with_nocase b.url (codes "https://"))
    && is_encoding b.ucertenc
    && is_encoding b.pkeyenc
    && non_empty b.outputvar
    && has_exits s

unfoldable pub verify_mail : State → MailBody → Bool
verify_mail s b =
    has_exits s
    && non_empty b.server
    && non_empty b.from
    && non_empty b.to
    && non_empty b.subject
    && ltb 0 (length b.contents)

unfoldable pub verify_shell : State → ShellBody → Bool
verify_shell s b =
    is_positive s.error_state
    && is_positive s.next_state
    && non_empty b.command
    && non_empty b.outputvar

unfoldable pub verify_structure : State → StructBody → Bool
verify_structure s b = is_format b.format && has_exits s && non_empty b.match_var

-- `if(get_errorState() == 0) set_errorState(get_nextState());`
unfoldable pub default_error : State → State
default_error s =
    if int_eq s.error_state (pos 0) then record s { error_state = s.next_state } else s

verify_body : State → Body → State × Bool
unfolding has_exits verify_end verify_file verify_regex verify_query verify_match verify_http
    verify_mail verify_shell verify_structure default_error
verify_body s (end b) = (s, verify_end s b)
verify_body s (file b) = (s, verify_file s b)
verify_body s (regex b) = (s, verify_regex s b)
verify_body s (query b) = (s, verify_query s b)
verify_body s (match b) = (s, verify_match s b)
verify_body s (http b) = (s, verify_http s b)
verify_body s (mail b) = (s, verify_mail s b)
verify_body s sms = (s, has_exits s)
verify_body s script = (s, has_exits s)
verify_body s (shell b) = (s, verify_shell s b)
verify_body s (structure b) = (s, verify_structure s b)
verify_body s (goto asgs) = (default_error s, is_positive s.next_state)

unfoldable pub verify : State → State × Bool
unfolding verify_body
verify s = verify_body s s.body

default_error_again :
    (s : State)
    → is_positive s.next_state ≡ true
    → default_error (default_error s) ≡ default_error s
unfolding default_error
default_error_again s h = ground arith

-- A state that is accepted unchanged.
kept :
    (s s' : State) (b : Body)
    → s ≡ s'
    → s.body ≡ b
    → verify_body s b ≡ (s', true)
    → (verify_body s' b ≡ (s', true)) × ((s'.body ≡ b) × (s'.number ≡ s.number))
kept s s' b same e h =
    let now : verify_body s b ≡ (s, true) = cc in
    subst (λ t. (verify_body t b ≡ (t, true)) × ((t.body ≡ b) × (t.number ≡ s.number))) same
      (now, (e, refl))

default_error-keeps :
    (s : State)
    → ((default_error s).body ≡ s.body)
      × (((default_error s).number ≡ s.number) × ((default_error s).next_state ≡ s.next_state))
unfolding default_error
default_error-keeps s = (ground arith, (ground arith, ground arith))

verify_body-keeps :
    (s s' : State) (b : Body)
    → s.body ≡ b
    → verify_body s b ≡ (s', true)
    → (verify_body s' b ≡ (s', true)) × ((s'.body ≡ b) × (s'.number ≡ s.number))
unfolding verify_body
verify_body-keeps s s' (goto asgs) e h =
    let same : default_error s ≡ s' = cc in
    let (b, (n, m)) = default_error-keeps s in
    let next : is_positive s.next_state ≡ true = cc in
    let again : default_error (default_error s) ≡ default_error s = default_error_again s next in
    let next' : is_positive (default_error s).next_state ≡ true = rw m next in
    let own : (default_error s).body ≡ goto asgs = cc in
    let now : (default_error (default_error s), is_positive (default_error s).next_state)
        ≡ (default_error s, true) =
      rw (again, next') refl in
    subst
      (λ t.
        (verify_body t (goto asgs) ≡ (t, true)) × ((t.body ≡ goto asgs) × (t.number ≡ s.number)))
      same (now, (own, n))
verify_body-keeps s s' b e h = let same : s ≡ s' = cc in kept s s' b same e h

pub verify_again :
    (s s' : State) → verify s ≡ (s', true) → (verify s' ≡ (s', true)) × (s'.number ≡ s.number)
unfolding verify
verify_again s s' h =
    let (v, (b, n)) = verify_body-keeps s s' s.body refl h in
    (subst (λ c. verify_body s' c ≡ (s', true)) (sym b) v, n)

-- The members of the class are as they were.
pub verify-body : (s s' : State) → verify s ≡ (s', true) → s'.body ≡ s.body
unfolding verify
verify-body s s' h = (verify_body-keeps s s' s.body refl h).1.0
