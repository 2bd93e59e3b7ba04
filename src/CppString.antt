-- ===== src/CppString.antt =====
-- `std::string`: substr, find, rfind, resize. Positions are offsets, `none` is `npos`.
use smarty_appserver.Prelude.{
  ℕ, zero, suc, ◌≤◌, ◌<◌, ◌≡◌, refl, Bool, true, false, Option, none, some, [], ◌∷◌, arith, Text,
  length, take, drop, ltb, ◌==◌, if◌then◌else◌,
}
use smarty_appserver.Errors.{Result, ok, throw, out_of_range}

-- s.substr(pos, n)
unfoldable pub substr : Text → ℕ → ℕ → Result Text
substr s p n = if ltb (length s) p then throw out_of_range else ok (take n (drop p s))

-- s.substr(pos)
unfoldable pub substr_from : Text → ℕ → Result Text
substr_from s p = if ltb (length s) p then throw out_of_range else ok (drop p s)

-- s[i]; s[s.length()] is the NUL byte
unfoldable pub first_char : Text → ℕ
first_char [] = 0
first_char (c ∷ s) = c

abbrev next_place : Option ℕ → Option ℕ
next_place none = none
next_place (some i) = some (suc i)

-- s.find(c)
unfoldable pub find : ℕ → Text → Option ℕ
find c [] = none
find c (d ∷ s) = let rest = find c s in if d == c then some 0 else next_place rest

abbrev last_place : Bool → Option ℕ → Option ℕ
last_place here (some i) = some (suc i)
last_place true none = some 0
last_place false none = none

-- s.rfind(c)
unfoldable pub rfind : ℕ → Text → Option ℕ
rfind c [] = none
rfind c (d ∷ s) = last_place (d == c) (rfind c s)

pub find-lt-length : (c : ℕ) (s : Text) (i : ℕ) → find c s ≡ some i → i < length s
unfolding find
find-lt-length c [] i h = cc
find-lt-length c (d ∷ s) zero h = omega arith
find-lt-length c (d ∷ s) (suc i) h = ground (arith, find-lt-length c s i)

-- Both searches fail together.
pub rfind-none : (c : ℕ) (s : Text) → find c s ≡ none → rfind c s ≡ none
unfolding find rfind
rfind-none c [] h = refl
rfind-none c (d ∷ s) h = ground (arith, rfind-none c s)

pub none-rfind : (c : ℕ) (s : Text) → rfind c s ≡ none → find c s ≡ none
unfolding find rfind
none-rfind c [] h = refl
none-rfind c (d ∷ s) h = ground (arith, none-rfind c s)

-- The first place is not after the last.
pub find-le-rfind : (c : ℕ) (s : Text) (i j : ℕ) → find c s ≡ some i → rfind c s ≡ some j → i ≤ j
unfolding find rfind
find-le-rfind c [] i j h k = cc
find-le-rfind c (d ∷ s) zero j h k = omega arith
find-le-rfind c (d ∷ s) (suc i) zero h k = ground (arith, rfind-none c s)
find-le-rfind c (d ∷ s) (suc i) (suc j) h k = ground (arith, find-le-rfind c s i j)

-- What stands before the first place has none.
pub find-take_self : (c : ℕ) (s : Text) (i : ℕ) → find c s ≡ some i → find c (take i s) ≡ none
unfolding find
find-take_self c [] i h = cc
find-take_self c (d ∷ s) zero h = refl
find-take_self c (d ∷ s) (suc i) h = ground (arith, find-take_self c s i)

pub find-take :
    (c : ℕ) (s : Text) (i n : ℕ) → find c s ≡ some i → i < n → find c (take n s) ≡ some i
unfolding find
find-take c [] i n h k = cc
find-take c (d ∷ s) i zero h k = absurd (omega arith)
find-take c (d ∷ s) zero (suc n) h k = ground arith
find-take c (d ∷ s) (suc i) (suc n) h k = ground (arith, find-take c s i n)
