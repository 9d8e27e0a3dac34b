-- ===== src/Main.antt =====
-- dnrd-2.20.3/src/main.c: the start of the program up to the loop: the check of its directory, the
-- socket, the user, and the world that `run` finds. What the system calls give is in records.
-- (The code for Cygwin and for ENABLE_TCP is not compiled; the log is not modelled.)
pub mod Root
pub mod Start
use Prim.Native.Nat.{bit_and}
use dnrd.Prelude.{
  ℕ, ◌+◌, ◌%◌, ◌^◌, Bool, true, false, ◌&&◌, ◌||◌, List, [], ◌∷◌, Option, none, some, arith, ◌==◌,
  if◌then◌else◌, get_or, not, codes,
}
use dnrd.Text.{streq}
use dnrd.Cache.{Cache}
use dnrd.Query.{Queries, query_init}
use dnrd.Udp.Dummy.{Asking, dnsbuf_start}
use dnrd.Master.Load.{Environment}
use dnrd.Master.Init.{Paths, Master, master_init}
use dnrd.Args.{Args}
use dnrd.Args.Start.{start_state}
use dnrd.Relay.Run.{World, Phase}

-- What `stat` gives of a file.
pub record Stat : Type 0 where
  pub st_uid : ℕ
  pub st_mode : ℕ
  pub is_dir : Bool

-- An entry of the directory, and what `stat` gives of it, where it succeeds.
pub record Entry : Type 0 where
  pub d_name : List ℕ
  pub st : Option Stat

-- The directory: whether `chdir` and `opendir` succeed, what `stat` gives of it (its result is not
-- tested, and `stack` is what the variable holds before), and its entries.
pub record RootDir : Type 0 where
  pub can_chdir : Bool
  pub can_open : Bool
  pub st : Option Stat
  pub stack : Stat
  pub entries : List Entry

-- The body of the loop over the entries; `false` says that the program ends.
unfoldable pub check_entry : Entry → Bool
check_entry e =
    if streq e.d_name (codes ".") || streq e.d_name (codes "..") then true else elim e.st [
      | none ↦ true
      | some st ↦
          if st.is_dir
          then false
          else if not (bit_and st.st_mode 91 == 0)
          then false
          else st.st_uid == 0
    ]

unfoldable pub check_entries : List Entry → Bool
unfolding check_entry
check_entries [] = true
check_entries (e ∷ l) = if check_entry e then check_entries l else false

-- What the first `stat` leaves in the variable.
abbrev pub root_stat : RootDir → Stat
root_stat d = elim d.st [ none ↦ d.stack | some st ↦ st ]

-- `dnrd_root_sanity_check`: whether it returns.
unfoldable pub dnrd_root_sanity_check : RootDir → Bool
unfolding check_entries
dnrd_root_sanity_check d =
    let st = root_stat d in
    if not d.can_chdir
    then false
    else if not d.can_open
    then false
    else if not (st.st_uid == 0)
    then false
    else if not (bit_and st.st_mode 18 == 0)
    then false
    else check_entries d.entries

-- The rights of the process: its user, its group and its supplementary groups, and whether its root
-- directory is `dnrd_root`.
pub record Creds : Type 0 where
  pub uid : ℕ
  pub gid : ℕ
  pub groups : List ℕ
  pub in_root : Bool

-- What the calls of `main` give: whether there is a file with a pid, and it can be read and written
-- anew; whether the two calls of `getservbyname` return the same pointer,
-- and the port that stands there, unless it is NULL; `strtoul`, with the rest of the string;
-- `getpwnam`; whether the others succeed; the rights at the start, and what `chroot(dnrd_root)`,
-- `setgroups(0, NULL)` and `setuid` make of the rights of their caller, where they succeed; and the
-- result of `fork`.
pub record Calls : Type 0 where
  pub has_pid_file : Bool
  pub can_read_pid : Bool
  pub can_write_pid : Bool
  pub same_servent : Bool
  pub servent : Option ℕ
  pub can_socket : Bool
  pub can_bind : Bool
  pub sem_init : Bool
  pub strtoul : List ℕ → ℕ × List ℕ
  pub getpwnam : List ℕ → Option ℕ
  pub root : RootDir
  pub creds : Creds
  pub chroot : Creds → Option Creds
  pub setgroups : Creds → Option Creds
  pub setuid : ℕ → Creds → Option Creds
  pub fork : Option Bool

-- `kill_current`, of common.c: whether it returns. (The signal to another process, and the wait for
-- its end, leave no trace here.)
unfoldable pub kill_current : Calls → Bool
kill_current c = if not c.has_pid_file then true else c.can_read_pid

-- `init_socket`: the port, unless the program ends.
unfoldable pub init_socket : Calls → Option ℕ
init_socket c =
    let port : ℕ = elim c.servent [ some p ↦ p | none ↦ 53 ] in
    if not c.same_servent
    then none
    else if not c.can_socket
    then none
    else if not c.can_bind
    then none
    else some port

-- `init_dnrd_uid`: the user id, unless the program ends.
unfoldable pub init_dnrd_uid : Calls → List ℕ → Option ℕ
init_dnrd_uid c dnrd_user =
    let (n, rest) = c.strtoul dnrd_user in
    elim dnrd_user [
      | [] ↦ none
      | ◌∷◌ ch l ↦ elim rest [ [] ↦ some (n % 2 ^ 32) | ◌∷◌ x m ↦ c.getpwnam (ch ∷ l) ]
    ]

-- The process that enters the loop.
pub record Process : Type 0 where
  pub port : ℕ
  pub creds : Creds
  pub gotterminal : Bool

-- What `main` comes to: it ends with a failure, as the parent of the daemon, or it enters the loop.
pub data Started : Type 0 where
  fails : Started
  parent : Started
  runs : Process → Started

-- The three calls that give up rights, in their order: the program ends where one fails.
unfoldable pub drop_privileges : Calls → ℕ → Option Creds
drop_privileges c daemonuid = elim (c.chroot c.creds) [
  | none ↦ none
  | some jailed ↦ elim (c.setgroups jailed) [ none ↦ none | some alone ↦ c.setuid daemonuid alone ]
]

-- The fork of `main`, without debugging or a terminal. (`some true` is the child.)
unfoldable pub become_daemon : Calls → Args → Process → Started
become_daemon c g p =
    if g.opt_debug == 0 || not g.gotterminal
    then elim c.fork [
      | none ↦ Started.fails
      | some child ↦
          if child then Started.runs (record p { gotterminal = false }) else Started.parent
    ]
    else Started.runs p

-- `main` behind `parse_args`.
unfoldable pub main : Calls → Args → Started
unfolding kill_current init_socket init_dnrd_uid dnrd_root_sanity_check drop_privileges
    become_daemon
main c g =
    if not (kill_current c)
    then Started.fails
    else if not c.can_write_pid
    then Started.fails
    else if not c.sem_init
    then Started.fails
    else elim (init_socket c) [
      | none ↦ Started.fails
      | some port ↦ elim (init_dnrd_uid c g.dnrd_user) [
        | none ↦ Started.fails
        | some uid ↦
            if not (dnrd_root_sanity_check c.root)
            then Started.fails
            else elim (drop_privileges c uid) [
              | none ↦ Started.fails
              | some creds ↦
                  become_daemon c g
                    (record { port = port; creds = creds; gotterminal = g.gotterminal })
            ]
      ]
    ]

-- The world at the call of `run`; `head` is the node of the head's empty list of servers.
unfoldable pub start_world : ℕ → Environment → Paths → Cache → Args → World
unfolding start_state master_init query_init
start_world head out paths cache g = record {
  asking = record { state = start_state head query_init cache g.servers; dnsbuf = dnsbuf_start };
  opt_debug = g.opt_debug;
  master = master_init out paths (record {
    master_onoff = g.master_onoff;
    master_reload = false;
    master_initialised = false;
    db = record { dbmax = 0; dbv = [] };
  });
  last_try = 0;
  last_check = 0;
  last_stats = 0;
  fdread = λ a. false;
  isock_set = false;
  phase = Phase.waiting;
}
