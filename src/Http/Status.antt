-- ===== src/Http/Status.antt =====
-- src/http.cpp, HTTPstatus: which message goes with a code.
use smarty_appserver.Prelude.{
  ℕ, Bool, false, ◌||◌, ◌-◌, ◌≤◌, ◌≡◌, refl, List, [], ◌∷◌, String, Text, length, ◌==◌, arith,
  length-take-le,
}
use smarty_appserver.Http.{http_reply, reply_place, reply_message, http_status}

-- The table has a message for the code.
abbrev pub is_listed : ℕ → List (ℕ × String) → Bool
is_listed c [] = false
is_listed c ((k, m) ∷ t) = c == k || is_listed c t

-- A code that is not in the table is looked for to the end.
place_missing : (c : ℕ) (t : List (ℕ × String)) → is_listed c t ≡ false → reply_place c t ≡ length t
unfolding reply_place
place_missing c [] h = refl
place_missing c ((k, m) ∷ t) h = ground (arith, place_missing c t)

-- For every code that the table lacks, the message is that of 416 and not that of 500.
pub reply_message_unknown :
    (c : ℕ) → is_listed c http_reply ≡ false → reply_message c ≡ "Requested range not satisfiable"
unfolding reply_message
reply_message_unknown c h = rw (place_missing c http_reply h)

-- The status line never fills the buffer: a byte is left for the NUL.
pub length-http_status :
    (prefix : Text) (c buflen : ℕ) → length (http_status prefix c buflen) ≤ buflen - 1
unfolding http_status
length-http_status prefix c buflen = length-take-le (buflen - 1) _
