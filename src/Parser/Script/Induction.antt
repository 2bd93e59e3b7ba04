-- ===== src/Parser/Script/Induction.antt =====
-- An invariant of the loop of parseScript: what each of its branches has to keep.
use smarty_appserver.Prelude.{
  ℕ, suc, ℤ, ◌≡◌, refl, Bool, true, false, Option, none, some, List, [], ◌∷◌, Text, All,
  if◌then◌else◌,
}
use smarty_appserver.Errors.{
  ok, throw, ◌>>=◌, parser_error, nested_state, unfinished_state, OnOk, OnOk-ok, OnOk-throw,
  OnOk-bind, OnOk-bind_any,
}
use smarty_appserver.Regex.{Groups, capture}
use smarty_appserver.Parser.{Externals, RegName, is_matched, fetch_int}
use smarty_appserver.Parser.Matched.{if_matched-OnOk}
use smarty_appserver.Parser.Comment.{strip_comment}
use smarty_appserver.State.{State, Body, new_state}
use smarty_appserver.State.Parse.{parse}
use smarty_appserver.State.Verify.{verify}
use smarty_appserver.Parser.Script.{
  find_state, Reading, headings, open_block, close_block, in_block, on_block, read_line, read_lines,
  is_open,
}

-- A heading opens a block with its new object.
abbrev pub Opens : (Reading → Type 0) → Text → RegName × Body → Type 0
Opens P fname (name, body) =
    (r : Reading) (n : ℤ)
    → r.block ≡ none
    → P r
    → P (record r { block = some (new_state n fname body) })

-- The branches of the loop that go on: a heading, a change of the state's numbers or prefix, a line
-- that the state parses, and a block that closes.
pub record IsKept (x : Externals) (fname : Text) (P : Reading → Type 0) : Type 0 where
  pub opened : All (Opens P fname) (headings x fname)
  pub updated :
      (r : Reading) (st st' : State)
      → r.block ≡ some st
      → st'.body ≡ st.body
      → P r
      → P (record r { block = some st' })
  pub parsed :
      (r : Reading) (st : State) (line : Text) (counter : ℕ)
      → r.block ≡ some st
      → P r
      → OnOk
          (λ p. P (record r { block = some p.0; dbs = p.1 }))
          (parse x st line fname counter r.dbs)
  pub closed :
      (r : Reading) (st st' : State)
      → r.block ≡ some st
      → verify st ≡ (st', true)
      → find_state st'.number r.states ≡ none
      → P r
      → P (record r { states = (st'.number, st') ∷ r.states; block = none })

module _ (x : Externals) (fname : Text) (P : Reading → Type 0) (kept : IsKept x fname P) where
  close_block-Keeps :
      (r : Reading) (st : State) (counter : ℕ)
      → r.block ≡ some st
      → P r
      → OnOk P (close_block x fname r (verify st) counter)
  unfolding close_block
  close_block-Keeps r st counter b h = go (verify st) refl
    where
      insert_new :
          (st' : State) (o : Option State)
          → verify st ≡ (st', true)
          → find_state st'.number r.states ≡ o
          → OnOk P (close_block x fname r (st', true) counter)
      insert_new st' none e missing =
          rw (missing, close_block) (OnOk-ok _ (kept.closed r st st' b e missing h))
      insert_new st' (some old) e found = rw (found, close_block) (OnOk-throw _)

      go : (v : State × Bool) → verify st ≡ v → OnOk P (close_block x fname r v counter)
      go (st', false) e = OnOk-throw _
      go (st', true) e = insert_new st' (find_state st'.number r.states) e refl

  open_block-Keeps :
      (hs : List (RegName × Body)) (r : Reading) (line : Text) (counter : ℕ)
      → All (Opens P fname) hs
      → r.block ≡ none
      → P r
      → OnOk P (open_block x fname hs r line counter)
  unfolding open_block
  open_block-Keeps [] r line counter k b h = OnOk-throw _
  open_block-Keeps ((name, body) ∷ rest) r line counter k b h =
      if_matched-OnOk (is_matched x name line fname counter) _ _ (λ g. opened g (is_open r.block))
        (open_block-Keeps rest r line counter k.1 b h)
    where
      opened :
          (g : Groups) (nested : Bool)
          → OnOk P (
              if nested
              then throw (parser_error fname nested_state counter)
              else (fetch_int x line 1 g >>= λ n.
                  ok (record r { block = some (new_state n fname body) })))
      opened g true = OnOk-throw _
      opened g false = OnOk-bind_any _ _ (λ n. OnOk-ok _ (k.0 r n b h))

  in_block-Keeps :
      (r : Reading) (st : State) (line : Text) (counter : ℕ)
      → r.block ≡ some st
      → P r
      → OnOk P (in_block x fname r st line counter)
  unfolding in_block
  in_block-Keeps r st line counter b h =
      if_matched-OnOk (is_matched x RegName.done line fname counter) _ _
        (λ g.
          OnOk-bind_any (fetch_int x line 1 g) _
            (λ n. OnOk-ok _ (kept.updated r st (record st { next_state = n }) b refl h)))
        (if_matched-OnOk (is_matched x RegName.error line fname counter) _ _
          (λ g.
            OnOk-bind_any (fetch_int x line 1 g) _
              (λ n. OnOk-ok _ (kept.updated r st (record st { error_state = n }) b refl h)))
          (if_matched-OnOk (is_matched x RegName.logpfx_double line fname counter) _ _
            (λ g. OnOk-bind_any (capture g 1 line) _ (λ p.
              OnOk-ok _
                (kept.updated r st (record st { log_prefix = p; pfx_interpret = true }) b refl h)))
            (if_matched-OnOk (is_matched x RegName.logpfx_single line fname counter) _ _
              (λ g. OnOk-bind_any (capture g 1 line) _ (λ p.
                OnOk-ok _ (
                  kept.updated r st (record st { log_prefix = p; pfx_interpret = false }) b refl
                    h)))
              (if_matched-OnOk (is_matched x RegName.endstate line fname counter) _ _
                (λ g. close_block-Keeps r st counter b h)
                (OnOk-bind (parse x st line fname counter r.dbs) _
                  (kept.parsed r st line counter b h) (λ p q. OnOk-ok _ q))))))

  on_block-Keeps :
      (r : Reading) (o : Option State) (line : Text) (counter : ℕ)
      → r.block ≡ o
      → P r
      → OnOk P (on_block x fname r o line counter)
  on_block-Keeps r none line counter b h =
      open_block-Keeps (headings x fname) r line counter kept.opened b h
  on_block-Keeps r (some st) line counter b h = in_block-Keeps r st line counter b h

  read_line-Keeps :
      (r : Reading) (raw : Text) (counter : ℕ) → P r → OnOk P (read_line x fname r raw counter)
  unfolding read_line
  read_line-Keeps r raw counter h =
      if_matched-OnOk (is_matched x RegName.empty (strip_comment raw) fname counter) _ _
        (λ g. OnOk-ok _ h) (on_block-Keeps r r.block (strip_comment raw) counter refl h)

  -- The whole loop.
  pub read_lines-Keeps :
      (r : Reading) (lines : List Text) (counter : ℕ)
      → P r
      → OnOk P (read_lines x fname r lines counter)
  unfolding read_lines
  read_lines-Keeps r [] counter h = last (is_open r.block)
    where
      last :
          (b : Bool)
          → OnOk P (if b then throw (parser_error fname unfinished_state counter) else ok r)
      last true = OnOk-throw _
      last false = OnOk-ok _ h
  read_lines-Keeps r (line ∷ rest) counter h =
      OnOk-bind (read_line x fname r line (suc counter)) _ (read_line-Keeps r line (suc counter) h)
        (λ r'. read_lines-Keeps r' rest (suc counter))
