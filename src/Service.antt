-- ===== src/Service.antt =====
-- src/preforked.cpp, runPreforked, and what main does around it (src/appserver.cpp, src/utils.cpp): the
-- calls of the system in their order.
pub mod Calls
pub mod Sleeps
pub mod Lifecycle
pub mod Main
pub mod LockFiles
use smarty_appserver.Prelude.{
  ℕ, zero, suc, pos, ◌⊎◌, inl, inr, Bool, true, false, Option, none, some, List, [], ◌∷◌, ◌++◌,
  Text, ◌==◌, replicate, is_positive, if◌then◌else◌,
}
use smarty_appserver.Errors.{Result, ok, exit, out_of_fuel}
use smarty_appserver.Action.{Action, pure, lift, ◌>>=◌, ◌>>◌}
use smarty_appserver.Logging.PidFile.{Files, write_pid}
use smarty_appserver.Parser.Script.{StateMap}
use smarty_appserver.Pool.{Parent, Os, children_hardlimit, zero_slot, fork_children, turn}
use smarty_appserver.Start.Free.{free_all_scripts}

pub data Signal : Type 0 where
  sigchld sighup sigterm sigint sigquit sigttin sigttou sigtstp : Signal

-- tmp_lockfile and shr_lockfile
pub data LockFile : Type 0 where
  tmp_lock shr_lock : LockFile

-- The calls of the system and of FastCGI, but for those of the children and the pid file.
pub data Call : Type 0 where
  -- fork, in the process that goes on: its parent ends with status 0.
  detach : Call
  setsid change_dir mask open_null : Call
  ignore set_handler : Signal → Call
  -- close(n), dup2(nullfd, n)
  redirect : ℕ → Call
  close_null : Call
  make_lock close_lock unlink_lock : LockFile → Call
  map_table unmap_table : Call
  fcgi_init open_socket fcgi_shutdown close_socket : Call
  sleep : Call
  unlink_pid_file : Call

pub record Kernel (S : Type 0) : Type 0 where
  pub os : Os S
  pub files : Files S
  -- `none` if the call fails.
  pub call : S → Call → Option S

-- The statics of the parent, and the calls that it has tried so far, the last one at the end: those
-- that failed are there, too.
pub record Session (S : Type 0) : Type 0 where
  pub parent : Parent S
  pub calls : List Call

-- setHandler, the lock files and the table, before it is cleared.
abbrev pub opening : List Call
opening =
    set_handler sigchld
    ∷ set_handler sighup
    ∷ set_handler sigterm
    ∷ set_handler sigint
    ∷ make_lock tmp_lock
    ∷ make_lock shr_lock
    ∷ map_table
    ∷ []

abbrev pub fcgi_opening : List Call
fcgi_opening = fcgi_init ∷ open_socket ∷ []

abbrev pub closing : List Call
closing =
    fcgi_shutdown
    ∷ close_socket
    ∷ unmap_table
    ∷ close_lock shr_lock
    ∷ close_lock tmp_lock
    ∷ unlink_lock shr_lock
    ∷ unlink_lock tmp_lock
    ∷ []

-- The calls of daemonize whose results are not looked at.
abbrev pub after_detach : List Call
after_detach = setsid ∷ ignore sigquit ∷ ignore sigttin ∷ ignore sigttou ∷ ignore sigtstp ∷ []

abbrev pub redirection : List Call
redirection = mask ∷ open_null ∷ redirect 0 ∷ redirect 1 ∷ redirect 2 ∷ close_null ∷ []

module _ {S : Type 0} (k : Kernel S) where
  abbrev pub with_call : Call → Session S → S → Session S
  with_call c s e = record { parent = record s.parent { ext = e }; calls = s.calls ++ c ∷ [] }

  -- `if(… < 0) log_error(…)`
  unfoldable pub must : Call → Action (Session S) (Unit {0})
  must c s = elim (k.call s.parent.ext c) [
    | none ↦ (exit, with_call c s s.parent.ext)
    | some e ↦ (ok tt, with_call c s e)
  ]

  -- A call whose result is not looked at.
  unfoldable pub may : Call → Action (Session S) (Unit {0})
  may c s = elim (k.call s.parent.ext c) [
    | none ↦ (ok tt, with_call c s s.parent.ext)
    | some e ↦ (ok tt, with_call c s e)
  ]

  unfoldable pub must_all : List Call → Action (Session S) (Unit {0})
  must_all [] = pure tt
  must_all (c ∷ cs) = must c >> must_all cs

  unfoldable pub may_all : List Call → Action (Session S) (Unit {0})
  may_all [] = pure tt
  may_all (c ∷ cs) = may c >> may_all cs

  -- What the parent's functions do to its statics.
  unfoldable pub on_parent : {A : Type 0} → Action (Parent S) A → Action (Session S) A
  on_parent m s = let (r, p) = m s.parent in (r, record s { parent = p })

  -- bzero(pslots, CHILDREN_TABSIZE)
  abbrev pub clear_table : Action (Parent S) (Unit {0})
  clear_table p = (ok tt, record p { slots = replicate children_hardlimit zero_slot })

  -- Handlers run and children write while the parent sleeps.
  abbrev pub asleep : (Parent S → Parent S) → Action (Parent S) (Unit {0})
  asleep during p = (ok tt, during p)

  -- `while(children_running > 0)`, on fuel; `during n` is the sleep with fuel for `n` more rounds.
  unfoldable pub main_loop : (ℕ → Parent S → Parent S) → ℕ → Action (Session S) (Unit {0})
  main_loop during zero s =
      if is_positive s.parent.children_running then (out_of_fuel, s) else (ok tt, s)
  main_loop during (suc n) s =
      if is_positive s.parent.children_running
      then (may sleep >>= λ _. on_parent (asleep (during n)) >>= λ _.
            on_parent (turn k.os) >>= λ _. main_loop during n)
          s
      else (ok tt, s)

  -- runPreforked: `rv` is that of FCGX_Init, which is 0.
  unfoldable pub run_preforked : (ℕ → Parent S → Parent S) → ℕ → Action (Session S) ℕ
  run_preforked during fuel = must_all opening >>= λ _. on_parent clear_table >>= λ _.
      must_all fcgi_opening >>= λ _. on_parent (fork_children k.os) >>= λ _.
      main_loop during fuel >>= λ _. may_all closing >>= λ _. pure 0

  unfoldable pub daemonize : Action (Session S) (Unit {0})
  daemonize = must detach >>= λ _. may_all after_detach >>= λ _.
      must detach >>= λ _. must change_dir >>= λ _. may_all redirection

  abbrev pub on_pid_status : ℕ → Action (Session S) (Unit {0})
  on_pid_status rv s = if rv == 0 then (ok tt, s) else (exit, s)

  -- write_pid works on the files, and not on the statics.
  abbrev pub on_files : {A : Type 0} → Action S A → Action (Session S) A
  on_files m s =
      let (r, e) = m s.parent.ext in (r, record s { parent = record s.parent { ext = e } })

  abbrev pub if_daemon : Bool → Action (Session S) (Unit {0}) → Action (Session S) (Unit {0})
  if_daemon true m = m
  if_daemon false m = pure tt

  -- main, from daemonize to its end. init_syslog, the log messages, freeRegexCollection and the deletion of
  -- the configuration leave nothing that is read later.
  unfoldable pub serve_and_exit :
      Bool
      → Text
      → Text
      → List (Text × Text)
      → List (Text × Option StateMap)
      → (ℕ → Parent S → Parent S)
      → ℕ
      → Action (Session S) ℕ
  serve_and_exit daemon pidfile pid names maps during fuel = if_daemon daemon daemonize >>= λ _.
      if_daemon daemon (on_files (write_pid k.files pidfile pid) >>= on_pid_status) >>= λ _.
      run_preforked during fuel >>= λ _.
      lift (free_all_scripts names maps) >>= λ _. may unlink_pid_file >>= λ _. pure 0
