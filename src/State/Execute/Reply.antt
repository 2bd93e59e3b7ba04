-- ===== src/State/Execute/Reply.antt =====
-- src/httpstate.cpp, curlWriter: the reply of an HTTP request, as curl hands it over.
use mathlib.Core.Path.{sym}
use smarty_appserver.Prelude.{
  Option, some, none, ℕ, ◌-◌, ◌*◌, ◌%◌, ◌^◌, ◌≤◌, ◌<◌, ◌≡◌, ◌∙◌, ap, ℤ, pos, negsuc, true, false,
  List, [], ◌∷◌, ◌++◌, Text, All, length, take, ltb, int_eq, if◌then◌else◌, arith, append_assoc,
  append-nil, take_all, if-false,
}
use smarty_appserver.Errors.{Result, ok, undefined, ◌>>=◌}
use smarty_appserver.State.Execute.Payload.{concat}

-- (int)n of a size_t
abbrev pub to_int : ℕ → ℤ
to_int n = if ltb (n % 2 ^ 32) (2 ^ 31) then pos (n % 2 ^ 32) else negsuc (2 ^ 32 - 1 - n % 2 ^ 32)

-- The buffer has the bytes of `data`; a read past it is undefined.
unfoldable pub curl_writer : Text → ℕ → ℕ → Text → Result (ℤ × Text)
curl_writer chunk size nmemb result =
    let total = size * nmemb % 2 ^ 64 in
    if ltb (length chunk) total then undefined else ok (to_int total, result ++ take total chunk)

-- CURLOPT_WRITEFUNCTION: a number that is not that of the bytes ends the transfer.
abbrev pub after_write : ℕ → (Text → Result (Option Text)) → ℤ × Text → Result (Option Text)
after_write size again (n, result) = if int_eq n (pos size) then again result else ok none

unfoldable pub receive : List Text → Text → Result (Option Text)
receive [] result = ok (some result)
receive (chunk ∷ chunks) result =
    curl_writer chunk 1 (length chunk) result >>= after_write (length chunk) (receive chunks)

curl_writer_whole :
    (chunk result : Text)
    → length chunk < 2 ^ 31
    → curl_writer chunk 1 (length chunk) result ≡ ok (pos (length chunk), result ++ chunk)
unfolding curl_writer
curl_writer_whole chunk result h =
    if-false _ _ _ (fits (length chunk) h)
    ∙ ap (λ p. ok p)
        (pair (to_int-small (length chunk) h) (
          ap (λ t. result ++ t)
            (take_all (1 * length chunk % 2 ^ 64) chunk (whole (length chunk) h))))
  where
    fits : (n : ℕ) → n < 2 ^ 31 → ltb n (1 * n % 2 ^ 64) ≡ false
    fits n l = ground arith

    whole : (n : ℕ) → n < 2 ^ 31 → n ≤ 1 * n % 2 ^ 64
    whole n l = omega arith

    to_int-small : (n : ℕ) → n < 2 ^ 31 → to_int (1 * n % 2 ^ 64) ≡ pos n
    to_int-small n l = ground arith

    pair : {a b : ℤ} {s t : Text} → a ≡ b → s ≡ t → ◌≡◌ {A = ℤ × Text} (a, s) (b, t)
    pair e f = cc

-- A reply that comes in pieces of less than 2 GB is stored whole and in its order.
pub receive-concat :
    (chunks : List Text) (result : Text)
    → All (λ t. length t < 2 ^ 31) chunks
    → receive chunks result ≡ ok (some (result ++ concat chunks))
unfolding receive
receive-concat [] result h = ap (λ t. ok (some t)) (sym (append-nil result))
receive-concat (chunk ∷ chunks) result h =
    rw (curl_writer_whole chunk result h.0, int_eq_same (length chunk))
      (receive-concat chunks (result ++ chunk) h.1
        ∙ ap (λ t. ok (some t)) (append_assoc result chunk (concat chunks)))
  where
    int_eq_same : (n : ℕ) → int_eq (pos n) (pos n) ≡ true
    int_eq_same n = ground arith
