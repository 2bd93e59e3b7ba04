-- ===== src/Http/Decode.antt =====
-- src/http.cpp, urlDecode against the percent-encoding of a URL.
use smarty_appserver.Prelude.{
  ℕ, ◌+◌, ◌-◌, ◌/◌, ◌%◌, ◌<◌, ◌≡◌, ◌∙◌, ap, Bool, true, false, Option, some, [], ◌∷◌, ◌++◌, Text,
  ltb, ◌==◌, if◌then◌else◌, arith, All, Bool-cases, inl, inr, refl,
}
use smarty_appserver.Http.{url_decode_loop, url_decode}

-- The digit for a value below 16.
abbrev pub hex_digit : ℕ → ℕ
hex_digit n = if ltb n 10 then b'0' + n else b'A' + n - 10

-- A byte that must be written `%XX`: the test is the encoder's choice, but '%' has to be in it.
module _ (is_reserved : ℕ → Bool) where
  abbrev encode_byte : ℕ → Text
  encode_byte c =
      if is_reserved c then 37 ∷ hex_digit (c / 16) ∷ hex_digit (c % 16) ∷ [] else c ∷ []

  -- What a client sends for a text.
  abbrev pub url_encode : Text → Text
  url_encode [] = []
  url_encode (c ∷ s) = encode_byte c ++ url_encode s

-- `sscanf("%x")` on two hexadecimal digits.
abbrev pub ScansHex : (Text → Option ℕ) → Type 0
ScansHex scan_hex =
    (c : ℕ) → c < 256 → scan_hex (hex_digit (c / 16) ∷ hex_digit (c % 16) ∷ []) ≡ some c

module _ (scan_hex : Text → Option ℕ) (scans : ScansHex scan_hex) where
  -- An escape is decoded, whatever was scanned before.
  pub url_decode_loop-escape :
      (ii c : ℕ) (rest : Text)
      → c < 256
      → url_decode_loop scan_hex ii 0 (37 ∷ hex_digit (c / 16) ∷ hex_digit (c % 16) ∷ rest)
        ≡ c ∷ url_decode_loop scan_hex c 0 rest
  unfolding url_decode_loop
  url_decode_loop-escape ii c rest h = rw (scans c h) (ground arith)

  pub url_decode_loop-copy :
      (ii c : ℕ) (rest : Text)
      → (c == 37) ≡ false
      → url_decode_loop scan_hex ii 0 (c ∷ rest) ≡ c ∷ url_decode_loop scan_hex ii 0 rest
  unfolding url_decode_loop
  url_decode_loop-copy ii c rest h = rw h

  module _ (is_reserved : ℕ → Bool) (percent : is_reserved 37 ≡ true) where
    plain-ne-percent : (c : ℕ) → is_reserved c ≡ false → (c == 37) ≡ false
    plain-ne-percent c h = ground (arith, percent)

    decode-encode :
        (ii : ℕ) (s : Text)
        → All (λ c. c < 256) s
        → url_decode_loop scan_hex ii 0 (url_encode is_reserved s) ≡ s
    unfolding url_decode_loop
    decode-encode ii [] h = refl
    decode-encode ii (c ∷ s) h = elim (Bool-cases (is_reserved c)) [
      | inl r ↦ rw r (
          url_decode_loop-escape ii c (url_encode is_reserved s) h.0
          ∙ ap (◌∷◌ c) (decode-encode c s h.1))
      | inr p ↦ rw p (
          url_decode_loop-copy ii c (url_encode is_reserved s) (plain-ne-percent c p)
          ∙ ap (◌∷◌ c) (decode-encode ii s h.1))
    ]

    -- Where sscanf reads two hexadecimal digits, decoding undoes the percent-encoding of every text
    -- of bytes, whichever bytes the encoder escapes, as long as it escapes '%'; the uninitialised
    -- first value of `ii` does not matter.
    pub url_decode-url_encode :
        (ii : ℕ) (s : Text)
        → All (λ c. c < 256) s
        → url_decode scan_hex ii (url_encode is_reserved s) ≡ s
    unfolding url_decode
    url_decode-url_encode ii s h = decode-encode ii s h
