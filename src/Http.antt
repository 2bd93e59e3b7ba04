-- ===== src/Http.antt =====
-- src/http.cpp: the status line and the decoding of a query string.
pub mod Decode
pub mod Status
use smarty_appserver.Prelude.{
  ℕ, zero, suc, ◌+◌, ◌-◌, ◌/◌, ◌%◌, Option, none, some, List, [], ◌∷◌, ◌++◌, Text, String, codes,
  length, get_elem?, take, ltb, ◌==◌, if◌then◌else◌,
}

-- HTTPreply
abbrev pub http_reply : List (ℕ × String)
http_reply =
    (404, "Not Found")
    ∷ (500, "Internal Server Error")
    ∷ (200, "OK")
    ∷ (100, "Continue")
    ∷ (101, "Switching Protocols")
    ∷ (201, "Created")
    ∷ (202, "Accepted")
    ∷ (203, "Non-Authoritative Information")
    ∷ (204, "No Content")
    ∷ (205, "Reset Content")
    ∷ (206, "Partial Content")
    ∷ (300, "Multiple Choices")
    ∷ (301, "Moved Permanently")
    ∷ (302, "Found")
    ∷ (303, "See Other")
    ∷ (304, "Not Modified")
    ∷ (305, "Use Proxy")
    ∷ (307, "Temporary Redirect")
    ∷ (400, "Bad Request")
    ∷ (401, "Unauthorized")
    ∷ (402, "Payment Required")
    ∷ (403, "Forbidden")
    ∷ (405, "Method Not Allowed")
    ∷ (406, "Not Acceptable")
    ∷ (407, "Proxy Authentication Required")
    ∷ (408, "Request Time-out")
    ∷ (409, "Conflict")
    ∷ (410, "Gone")
    ∷ (411, "Length Required")
    ∷ (412, "Precondition Failed")
    ∷ (413, "Request Entity Too Large")
    ∷ (414, "Request-URI Too Large")
    ∷ (415, "Unsupported Media Type")
    ∷ (416, "Requested range not satisfiable")
    ∷ (417, "Expectation Failed")
    ∷ (501, "Not Implemented")
    ∷ (502, "Bad Gateway")
    ∷ (503, "Service Unavailable")
    ∷ (504, "Gateway Time-out")
    ∷ (505, "HTTP Version not supported")
    ∷ []

-- The loop: the first place whose code is the one asked for, or the length of the table.
unfoldable pub reply_place : ℕ → List (ℕ × String) → ℕ
reply_place c [] = 0
reply_place c ((k, m) ∷ rest) = let next = suc (reply_place c rest) in if c == k then 0 else next

abbrev message_or : Option (ℕ × String) → String
message_or none = ""
message_or (some (k, m)) = m

-- `if(i == size) i = 33;`
unfoldable pub reply_message : ℕ → String
unfolding reply_place
reply_message c =
    let i = reply_place c http_reply in
    message_or (get_elem? http_reply (if i == length http_reply then 33 else i))

-- "%d"
unfoldable pub decimal : ℕ → ℕ → Text
decimal zero n = []
decimal (suc fuel) n =
    let last = (b'0' + n % 10) ∷ [] in
    let rest = decimal fuel (n / 10) ++ last in if ltb n 10 then last else rest

-- snprintf(buf, buflen, "%s: %d %s\n", prefix, code, message): at most buflen - 1 bytes.
unfoldable pub http_status : Text → ℕ → ℕ → Text
unfolding reply_message decimal
http_status prefix c buflen = take (buflen - 1) (
    prefix
    ++ (codes ": "
        ++ (decimal (suc c) c ++ (codes " " ++ (codes (reply_message c) ++ codes "\n")))))

module _ (scan_hex : Text → Option ℕ) where
  abbrev scanned : ℕ → Option ℕ → ℕ
  scanned ii none = ii
  scanned ii (some n) = n

  -- The loop of urlDecode: `skip` counts the characters that `i=i+2` passes over, and `ii` keeps its
  -- value when `sscanf` converts nothing.
  unfoldable pub url_decode_loop : ℕ → ℕ → Text → Text
  url_decode_loop ii skip [] = []
  url_decode_loop ii (suc skip) (c ∷ rest) = url_decode_loop ii skip rest
  url_decode_loop ii zero (c ∷ rest) =
      let ii' = scanned ii (scan_hex (take 2 rest)) in
      let decoded = (ii' % 256) ∷ url_decode_loop ii' 2 rest in
      let copied = c ∷ url_decode_loop ii 0 rest in if c == 37 then decoded else copied

  -- `ii` is not initialised: its first value is an argument.
  unfoldable pub url_decode : ℕ → Text → Text
  url_decode ii src = url_decode_loop ii 0 src
