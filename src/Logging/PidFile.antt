-- ===== src/Logging/PidFile.antt =====
-- src/utils.cpp, write_pid.
use smarty_appserver.Prelude.{
  ℕ, ◌≤◌, ◌≡◌, ◌∙◌, sym, ap, ◌⊎◌, inl, inr, refl, Bool, true, false, Option, none, some, Text, ltb,
  ◌==◌, ◌&&◌, ◌||◌, not, if◌then◌else◌, arith, Bool-cases,
}
use smarty_appserver.Errors.{Result, ok, exit}
use smarty_appserver.Action.{Action, ◌>>=◌}

-- The members of struct stat that are looked at.
pub record Stat : Type 0 where
  pub st_mode : ℕ
  pub st_ino : ℕ
  pub st_dev : ℕ
  pub st_nlink : ℕ

-- lstat: the file, ENOENT, or another error.
pub data Lstat : Type 0 where
  found : Stat → Lstat
  missing denied : Lstat

-- The calls of the system. A call that fails gives the errno that it leaves.
pub record Files (S : Type 0) : Type 0 where
  pub lstat : S → Text → Lstat
  -- open(path, O_CREAT | O_EXCL | O_RDWR, 0600)
  pub create : S → Text → ℕ ⊎ (ℕ × S)
  -- open(path, O_RDWR)
  pub open_file : S → Text → Option (ℕ × S)
  pub fstat : S → ℕ → Option Stat
  -- S_ISREG
  pub is_regular : ℕ → Bool
  pub ftruncate : S → ℕ → ℕ ⊎ S
  -- A short write leaves the errno of an earlier call.
  pub write : S → ℕ → Text → ℕ ⊎ S
  -- close: 0, or -1, which is a status that is not 0.
  pub close : S → ℕ → ℕ × S

-- The same mode, inode and device.
abbrev pub is_same : Stat → Stat → Bool
is_same a b = a.st_mode == b.st_mode && (a.st_ino == b.st_ino && a.st_dev == b.st_dev)

module _ {S : Type 0} (files : Files S) where
  abbrev on_created : S → ℕ ⊎ (ℕ × S) → Result (ℕ ⊎ ℕ) × S
  on_created s (inl errno) = (ok (inl errno), s)
  on_created s (inr (fd, t)) = (ok (inr fd), t)

  abbrev on_fstat : ℕ → Stat → Option Stat → Action S (ℕ ⊎ ℕ)
  on_fstat fd before none s = (exit, (files.close s fd).1)
  on_fstat fd before (some now) s =
      if is_same before now
      then (if ltb 1 now.st_nlink || not (files.is_regular before.st_mode)
          then (exit, (files.close s fd).1)
          else (ok (inr fd), s))
      else (exit, (files.close s fd).1)

  abbrev on_opened : Stat → Option (ℕ × S) → Action S (ℕ ⊎ ℕ)
  on_opened before none s = (exit, s)
  on_opened before (some (fd, t)) s = on_fstat fd before (files.fstat t fd) t

  abbrev on_lstat : Text → Lstat → Action S (ℕ ⊎ ℕ)
  on_lstat path denied s = (exit, s)
  on_lstat path missing s = on_created s (files.create s path)
  on_lstat path (found before) s = on_opened before (files.open_file s path) s

  -- The descriptor to write to, or the status that write_pid returns at once.
  unfoldable pub open_pid_file : Text → Action S (ℕ ⊎ ℕ)
  open_pid_file path s = on_lstat path (files.lstat s path) s

  abbrev on_written : ℕ → ℕ ⊎ S → Action S ℕ
  on_written fd (inl errno) s = (ok errno, s)
  on_written fd (inr t) s = (ok (files.close t fd).0, (files.close t fd).1)

  abbrev on_truncated : ℕ → Text → ℕ ⊎ S → Action S ℕ
  on_truncated fd pid (inl errno) s = (ok errno, s)
  on_truncated fd pid (inr t) s = on_written fd (files.write t fd pid) t

  abbrev put_pid : Text → ℕ ⊎ ℕ → Action S ℕ
  put_pid pid (inl errno) s = (ok errno, s)
  put_pid pid (inr fd) s = on_truncated fd pid (files.ftruncate s fd) s

  unfoldable pub write_pid : Text → Text → Action S ℕ
  write_pid path pid = open_pid_file path >>= put_pid pid

  -- The file is new, or what was there is a regular file of one link, and is the one that was opened.
  abbrev pub IsNew : S → Text → ℕ → S → Type 0
  IsNew s path fd t = (files.lstat s path ≡ missing) × (files.create s path ≡ inr (fd, t))

  pub record IsPlainFile (s : S) (path : Text) (fd : ℕ) (t : S) : Type 0 where
    pub before : Stat
    pub now : Stat
    pub looked : files.lstat s path ≡ found before
    pub opened : files.open_file s path ≡ some (fd, t)
    pub looked_again : files.fstat t fd ≡ some now
    pub one_file : (before.st_ino ≡ now.st_ino) × (before.st_dev ≡ now.st_dev)
    pub one_link : now.st_nlink ≤ 1
    pub regular : files.is_regular now.st_mode ≡ true

  same_stat :
      (a b : Stat)
      → is_same a b ≡ true
      → (a.st_mode ≡ b.st_mode) × (a.st_ino ≡ b.st_ino) × (a.st_dev ≡ b.st_dev)
  same_stat a b e = (ground arith, ground arith, ground arith)

  links_checked : (n : ℕ) (b : Bool) → (ltb 1 n || not b) ≡ false → (n ≤ 1) × (b ≡ true)
  links_checked n true e = (ground arith, refl)
  links_checked n false e = absurd (ground arith)

  on_created_new :
      (s : S) (o : ℕ ⊎ (ℕ × S)) (fd : ℕ) (t : S)
      → on_created s o ≡ (ok (inr fd), t)
      → o ≡ inr (fd, t)
  on_created_new s (inl errno) fd t e = absurd (ground arith)
  on_created_new s (inr (fd', t')) fd t e = cc

  -- The checks of the file that was opened as `fd'`.
  on_fstat_plain :
      (path : Text) (s t t' : S) (fd fd' : ℕ) (before : Stat) (o : Option Stat)
      → files.lstat s path ≡ found before
      → files.open_file s path ≡ some (fd', t')
      → files.fstat t' fd' ≡ o
      → on_fstat fd' before o t' ≡ (ok (inr fd), t)
      → IsPlainFile s path fd t
  on_fstat_plain path s t t' fd fd' before none look open_ again e = absurd (ground arith)
  on_fstat_plain path s t t' fd fd' before (some now) look open_ again e =
      elim (Bool-cases (is_same before now)) [
        | inr differ ↦ absurd (ground (arith, e, differ))
        | inl same ↦
            elim (Bool-cases (ltb 1 now.st_nlink || not (files.is_regular before.st_mode))) [
              | inl odd ↦ absurd (ground (arith, e, same, odd))
              | inr plain ↦
                  let whole : on_fstat fd' before (some now) t' ≡ (ok (inr fd'), t') =
                    rw (same, plain) refl in
                  let ends : ◌≡◌ {A = Result (ℕ ⊎ ℕ) × S} (ok (inr fd'), t') (ok (inr fd), t) =
                    sym whole ∙ e in
                  let (modes, nodes, devices) = same_stat before now same in
                  let (links, regular) =
                    links_checked now.st_nlink (files.is_regular before.st_mode) plain in
                  let same_fd : fd' ≡ fd = cc in
                  let same_state : t' ≡ t = cc in
                  record {
                    before = before;
                    now = now;
                    looked = look;
                    opened = ground (arith, open_, same_fd, same_state);
                    looked_again = ground (arith, again, same_fd, same_state);
                    one_file = (nodes, devices);
                    one_link = links;
                    regular = ap files.is_regular (sym modes) ∙ regular;
                  }
            ]
      ]

  -- What write_pid truncates and writes to is a file that it has created under that name, which was
  -- not taken, or the very file that lstat found there, a regular file with one link: not what a link
  -- under that name points to.
  pub open_pid_file_trusted :
      (path : Text) (fd : ℕ) (s t : S)
      → open_pid_file path s ≡ (ok (inr fd), t)
      → IsNew s path fd t ⊎ IsPlainFile s path fd t
  unfolding open_pid_file
  open_pid_file_trusted path fd s t e = on (files.lstat s path) refl e
    where
      on_open :
          (before : Stat) (o : Option (ℕ × S))
          → files.lstat s path ≡ found before
          → files.open_file s path ≡ o
          → on_opened before o s ≡ (ok (inr fd), t)
          → IsPlainFile s path fd t
      on_open before none look open_ e = absurd (ground arith)
      on_open before (some (fd', t')) look open_ e =
          on_fstat_plain path s t t' fd fd' before (files.fstat t' fd') look open_ refl e

      on :
          (l : Lstat)
          → files.lstat s path ≡ l
          → on_lstat path l s ≡ (ok (inr fd), t)
          → IsNew s path fd t ⊎ IsPlainFile s path fd t
      on denied l e = absurd (ground arith)
      on missing l e = inl (l, on_created_new s (files.create s path) fd t e)
      on (found before) l e = inr (on_open before (files.open_file s path) l refl e)
