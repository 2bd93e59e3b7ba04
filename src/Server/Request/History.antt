-- ===== src/Server/Request/History.antt =====
-- A child that has served requests answers like one that has just been loaded.
use smarty_appserver.Prelude.{
  ℕ, ℤ, pos, ◌≡◌, ◌∙◌, refl, sym, ap, Bool-cases, inl, inr, Option, none, some, List, [], ◌∷◌, Text,
  lookup, insert, text_eq, int_eq, arith,
}
use mathlib.Core.Path.{subst}
use smarty_appserver.Errors.{Result, ok, throw, exit, undefined, out_of_fuel}
use smarty_appserver.Action.{Action, pure, continue, ◌>>=◌}
use smarty_appserver.Action.Gives.{
  GivesAt, Gives, Gives-pure, Gives-lift, Gives-if, Gives-bind, Gives-then, Gives-mono,
}
use smarty_appserver.Database.{DbMap}
use smarty_appserver.Parser.{Externals}
use smarty_appserver.Parser.Script.{StateMap}
use smarty_appserver.World.{World, System}
use smarty_appserver.Server.Isolation.{forget_map}
use smarty_appserver.Server.Request.{
  Request, Scripts, dispatch, run_file, on_script, on_entry, on_query, handle_request,
}
use smarty_appserver.Server.Request.Reset.{LeavesEmpty, handle_request-LeavesEmpty}
use smarty_appserver.Server.Request.Isolated.{
  forget_file, forget_files, forget_scripts, isolated, handle_request-forget,
}
use smarty_appserver.Server.Senders.{HaveSenders, run_script-SameMap}

-- The mail states of all files have senders.
abbrev pub FilesHaveSenders : List (Text × Option StateMap) → Type 0
FilesHaveSenders [] = Unit
FilesHaveSenders ((fname, none) ∷ fs) = FilesHaveSenders fs
FilesHaveSenders ((fname, some m) ∷ fs) = HaveSenders m × FilesHaveSenders fs

lookup-HaveSenders :
    (fname : Text) (m : StateMap) (fs : List (Text × Option StateMap))
    → FilesHaveSenders (forget_files fs)
    → lookup fname fs ≡ some (some m)
    → HaveSenders (forget_map m)
unfolding lookup
lookup-HaveSenders fname m [] h e = absurd (ground arith)
lookup-HaveSenders fname m ((k, none) ∷ fs) h e = elim (Bool-cases (text_eq k fname)) [
  | inl hit ↦ absurd (ground arith)
  | inr miss ↦ lookup-HaveSenders fname m fs h (ground arith)
]
lookup-HaveSenders fname m ((k, some m') ∷ fs) h e = elim (Bool-cases (text_eq k fname)) [
  | inl hit ↦ subst (λ l. HaveSenders (forget_map l)) (ground arith) h.0
  | inr miss ↦ lookup-HaveSenders fname m fs h.1 (ground arith)
]

-- The map of a file is stored over one that agrees.
insert-found :
    (fname : Text) (m m' : StateMap) (fs : List (Text × Option StateMap))
    → lookup fname fs ≡ some (some m)
    → forget_map m' ≡ forget_map m
    → forget_files (insert fname (some m') fs) ≡ forget_files fs
unfolding lookup insert
insert-found fname m m' [] e f = absurd (ground arith)
insert-found fname m m' ((k, old) ∷ fs) e f = elim (Bool-cases (text_eq k fname)) [
  | inl hit ↦
      let same : old ≡ some m = ground arith in
      rw hit (ap (λ o. (k, o) ∷ forget_files fs) (ap (λ l. some l) f ∙ ap forget_file (sym same)))
  | inr miss ↦
      rw miss (ap (λ l. (k, forget_file old) ∷ l) (insert-found fname m m' fs (ground arith) f))
]

module _ {S : Type 0} (x : Externals) (sys : System S) (dbs : DbMap) (protocol : Option Text)
    (fuel : ℕ) where
  abbrev SameScripts : Scripts → Scripts → Type 0
  SameScripts s s' = forget_scripts s' ≡ forget_scripts s

  run_file-SameScripts :
      (s : Scripts) (fname : Text) (entry : ℤ) (o : Option (Option StateMap))
      → lookup fname s.by_file ≡ o
      → FilesHaveSenders (forget_files s.by_file)
      → Gives {S = World S} (SameScripts s) (run_file x sys dbs protocol fuel s fname entry o)
  run_file-SameScripts s fname entry none e h = Gives-lift _ tt
  run_file-SameScripts s fname entry (some none) e h = Gives-lift _ tt
  run_file-SameScripts s fname entry (some (some m)) e h = Gives-then _ _ (λ _. Gives-then _ _ (λ _.
      Gives-bind _ _
        (run_script-SameMap x sys dbs protocol fuel m entry
          (lookup-HaveSenders fname m s.by_file h e))
        (λ m' same. Gives-then _ _ (λ _.
          Gives-pure _
            (ap (λ fs. record s { by_file = fs }) (insert-found fname m m' s.by_file e same))))))

  dispatch-SameScripts :
      (s : Scripts) (o : Option Text)
      → FilesHaveSenders (forget_files s.by_file)
      → Gives {S = World S} (SameScripts s) (dispatch x sys dbs protocol fuel s o)
  unfolding dispatch
  dispatch-SameScripts s none h = Gives-then _ _ (λ _. Gives-pure _ refl)
  dispatch-SameScripts s (some name) h = with_entry (lookup name s.entries)
    where
      with_file :
          (entry : ℤ) (o : Option Text)
          → Gives {S = World S} (SameScripts s) (on_script x sys dbs protocol fuel s name entry o)
      with_file entry none = Gives-then _ _ (λ _. Gives-pure _ refl)
      with_file entry (some fname) =
          run_file-SameScripts s fname entry (lookup fname s.by_file) refl h

      with_entry :
          (o : Option ℤ)
          → Gives {S = World S} (SameScripts s) (on_entry x sys dbs protocol fuel s name o)
      with_entry none = Gives-then _ _ (λ _. Gives-pure _ refl)
      with_entry (some entry) = with_file entry (lookup name s.by_name)

  handle_request-SameScripts :
      (ii : ℕ) (s : Scripts) (r : Request)
      → FilesHaveSenders (forget_files s.by_file)
      → Gives {S = World S} (SameScripts s) (handle_request x sys dbs protocol fuel ii s r)
  unfolding handle_request
  handle_request-SameScripts ii s r h = Gives-then _ _ (λ p. on p.0 p.1)
    where
      on :
          (len : ℤ) (text : Text)
          → Gives {S = World S}
              (SameScripts s)
              (on_query x sys dbs protocol fuel ii s r (len, text))
      on len text = Gives-if (int_eq len (pos 0)) _ _ (Gives-then _ _ (λ _. Gives-pure _ refl)) (
          Gives-bind _ _ (Gives-then _ _ (λ _. Gives-then _ _ (λ o. dispatch-SameScripts s o h)))
            (λ s' same. Gives-then _ _ (λ _. Gives-pure _ same)))

  -- Requests one after the other; `ii` is what sscanf leaves where it reads nothing.
  unfoldable pub serve_all : ℕ → List Request → Scripts → Action (World S) Scripts
  serve_all ii [] s = pure s
  serve_all ii (r ∷ rs) s = handle_request x sys dbs protocol fuel ii s r >>= serve_all ii rs

  serve_all-SameScripts :
      (ii : ℕ) (rs : List Request) (s : Scripts)
      → FilesHaveSenders (forget_files s.by_file)
      → Gives {S = World S} (SameScripts s) (serve_all ii rs s)
  unfolding serve_all
  serve_all-SameScripts ii [] s h = Gives-pure _ refl
  serve_all-SameScripts ii (r ∷ rs) s h =
      Gives-bind _ _ (handle_request-SameScripts ii s r h) (λ s' same.
        Gives-mono _ (λ s'' e. e ∙ same)
          (serve_all-SameScripts ii rs s'
            (subst FilesHaveSenders (sym (ap (λ (t : Scripts). t.by_file) same)) h)))

  serve_all-LeavesEmpty :
      (ii : ℕ) (rs : List Request) (s : Scripts) (w : World S)
      → w.table ≡ []
      → LeavesEmpty (serve_all ii rs s w)
  unfolding serve_all ◌>>=◌
  serve_all-LeavesEmpty ii [] s w e = e
  serve_all-LeavesEmpty ii (r ∷ rs) s w e =
      go (handle_request x sys dbs protocol fuel ii s r w).0
        (handle_request x sys dbs protocol fuel ii s r w).1
        (handle_request-LeavesEmpty x sys dbs protocol fuel ii s r w e)
        (λ s' w' e'. serve_all-LeavesEmpty ii rs s' w' e')
    where
      go :
          (q : Result Scripts) (w' : World S)
          → LeavesEmpty (q, w')
          → ((s' : Scripts) (w' : World S) → w'.table ≡ [] → LeavesEmpty (serve_all ii rs s' w'))
          → LeavesEmpty (continue q (serve_all ii rs) w')
      go (ok s') w' e again = again s' w' e
      go (throw t) w' e again = tt
      go exit w' e again = tt
      go undefined w' e again = tt
      go out_of_fuel w' e again = tt

  -- A child with an empty table that has served any requests and come back from them, over scripts
  -- whose mail states have senders: its table is empty, and it answers the next request like a child
  -- that has just loaded the scripts and meets the same outside, in the same way, with the same output,
  -- and leaving the same outside and table. Nothing that the earlier requests have left in the states
  -- is seen.
  pub handle_request-isolated :
      (ii : ℕ) (before : List Request) (s s' : Scripts) (r : Request) (w w' : World S)
      → w.table ≡ []
      → FilesHaveSenders (forget_files s.by_file)
      → serve_all ii before s w ≡ (ok s', w')
      → (w'.table ≡ [])
        × (isolated x sys dbs protocol fuel (handle_request x sys dbs protocol fuel ii s' r w')
            ≡ isolated x sys dbs protocol fuel (handle_request x sys dbs protocol fuel ii s r w'))
  handle_request-isolated ii before s s' r w w' empty h e = (
    subst LeavesEmpty e (serve_all-LeavesEmpty ii before s w empty),
    handle_request-forget x sys dbs protocol fuel ii s' s r w' (
        subst (λ (q : Result Scripts × World S). GivesAt (SameScripts s) q.0) e
          ((serve_all-SameScripts ii before s h).at w)),
  )
