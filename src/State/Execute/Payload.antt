-- ===== src/State/Execute/Payload.antt =====
-- src/mailstate.cpp, payload_writer: curl's reads of the lines of a mail.
use smarty_appserver.Prelude.{
  ℕ, zero, suc, ◌*◌, ◌%◌, ◌^◌, ◌≤◌, ◌<◌, ◌≡◌, ◌∙◌, refl, Bool, true, false, none, some, List, [],
  ◌∷◌, ◌++◌, Text, All, length, get_elem?, drop, ltb, ◌==◌, ◌||◌, if◌then◌else◌, arith, if-false,
}
use smarty_appserver.Errors.{Result, ok, undefined, out_of_fuel, ◌>>=◌}

-- memcpy of a line into the buffer of `size * nmemb` bytes (a size_t), whatever that is, and the
-- count of the lines that are read. 0 bytes are the end.
unfoldable pub payload_writer : List Text → ℕ → ℕ → ℕ → Result (Text × ℕ)
payload_writer message size nmemb lines =
    if size == 0 || (nmemb == 0 || ltb (size * nmemb % 2 ^ 64) 1)
    then ok ([], lines)
    else elim (get_elem? message lines) [
      | none ↦ ok ([], lines)
      | some line ↦
          if ltb (size * nmemb % 2 ^ 64) (length line) then undefined else ok (line, suc lines)
    ]

-- The calls that curl makes, of these sizes.
unfoldable pub deliver : List Text → List (ℕ × ℕ) → ℕ → Result (Unit {0})
deliver message [] lines = ok tt
deliver message ((size, nmemb) ∷ reads) lines =
    payload_writer message size nmemb lines >>= λ p. deliver message reads p.1

-- A client that calls until it gets 0 bytes; `room n` is the size of its buffer when line `n` is due.
abbrev pub after_read : (ℕ → Result Text) → Text × ℕ → Result Text
after_read again ([], lines) = ok []
after_read again (c ∷ s, lines) = again lines >>= λ rest. ok ((c ∷ s) ++ rest)

unfoldable pub upload : List Text → (ℕ → ℕ) → ℕ → ℕ → Result Text
upload message room zero lines = out_of_fuel
upload message room (suc fuel) lines =
    payload_writer message 1 (room lines) lines >>= after_read (upload message room fuel)

abbrev pub concat : List Text → Text
concat [] = []
concat (t ∷ ts) = t ++ concat ts

-- Every line has a byte and no more than the buffers hold.
abbrev pub FitsLine : (ℕ → ℕ) → Text → Type 0
FitsLine room t = (0 < length t) × ((n : ℕ) → (length t ≤ room n) × (room n < 2 ^ 64))

get_elem?-drop {ℓ} :
    {A : Type ℓ} (xs ys : List A) (x : A) (n : ℕ) → drop n xs ≡ x ∷ ys → get_elem? xs n ≡ some x
get_elem?-drop [] ys x zero e = absurd (ground arith)
get_elem?-drop (a ∷ xs) ys x zero e = ground arith
get_elem?-drop [] ys x (suc n) e = absurd (ground arith)
get_elem?-drop (a ∷ xs) ys x (suc n) e = get_elem?-drop xs ys x n e

get_elem?-drop_all {ℓ} : {A : Type ℓ} (xs : List A) (n : ℕ) → drop n xs ≡ [] → get_elem? xs n ≡ none
get_elem?-drop_all [] zero e = refl
get_elem?-drop_all (a ∷ xs) zero e = absurd (ground arith)
get_elem?-drop_all [] (suc n) e = refl
get_elem?-drop_all (a ∷ xs) (suc n) e = get_elem?-drop_all xs n e

drop-suc {ℓ} :
    {A : Type ℓ} (xs ys : List A) (x : A) (n : ℕ) → drop n xs ≡ x ∷ ys → drop (suc n) xs ≡ ys
drop-suc [] ys x zero e = absurd (ground arith)
drop-suc (a ∷ xs) ys x zero e = ground arith
drop-suc [] ys x (suc n) e = absurd (ground arith)
drop-suc (a ∷ xs) ys x (suc n) e = drop-suc xs ys x n e

if_same {ℓ} : {A : Type ℓ} (b : Bool) (x : A) → (if b then x else x) ≡ x
if_same true x = refl
if_same false x = refl

has_room : (r : ℕ) → 0 < r → r < 2 ^ 64 → (1 == 0 || (r == 0 || ltb (1 * r % 2 ^ 64) 1)) ≡ false
has_room r h k = ground arith

takes_line : (n r : ℕ) → n ≤ r → r < 2 ^ 64 → ltb (1 * r % 2 ^ 64) n ≡ false
takes_line n r h k = ground arith

module _ (message : List Text) (room : ℕ → ℕ) where
  payload_writer-end :
      (n : ℕ) → drop n message ≡ [] → payload_writer message 1 (room n) n ≡ ok ([], n)
  unfolding payload_writer
  payload_writer-end n e = rw (get_elem?-drop_all message n e) (if_same _ _)

  payload_writer-line :
      (n : ℕ) (t : Text) (rest : List Text)
      → drop n message ≡ t ∷ rest
      → FitsLine room t
      → payload_writer message 1 (room n) n ≡ ok (t, suc n)
  unfolding payload_writer
  payload_writer-line n t rest e (some_byte, fits) = rw (get_elem?-drop message rest t n e) (
      if-false _ _ _ (has_room (room n) (omega (arith, fits n, some_byte)) (fits n).1)
      ∙ if-false _ _ _ (takes_line (length t) (room n) (fits n).0 (fits n).1))

  upload_from :
      (todo : List Text) (fuel n : ℕ)
      → drop n message ≡ todo
      → All (FitsLine room) todo
      → length todo < fuel
      → upload message room fuel n ≡ ok (concat todo)
  unfolding upload
  upload_from todo zero n e h l = absurd (omega arith)
  upload_from [] (suc fuel) n e h l = rw (payload_writer-end n e) refl
  upload_from ([] ∷ todo) (suc fuel) n e h l = absurd (omega (arith, h.0.0))
  upload_from ((c ∷ s) ∷ todo) (suc fuel) n e h l =
      rw
        (
          payload_writer-line n (c ∷ s) todo e h.0,
          upload_from todo fuel (suc n) (drop-suc message todo (c ∷ s) n e) h.1 (omega arith),
        )
        refl

  -- A message whose lines have a byte at least and fit the buffers of curl is uploaded whole, in its
  -- order and each line once, and the reads come to an end.
  pub upload_message :
      (fuel : ℕ)
      → All (FitsLine room) message
      → length message < fuel
      → upload message room fuel 0 ≡ ok (concat message)
  upload_message fuel h l = upload_from message fuel 0 refl h l
