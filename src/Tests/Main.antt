-- ===== src/Tests/Main.antt =====
-- The start of the program as root, with a directory that only root may write, and a round of its
-- loop in which a client asks.
use dnrd.Prelude.{
  true, false, ◌≡◌, ◌||◌, if◌then◌else◌, refl, [], ◌∷◌, none, some, arith, ◌==◌, codes,
}
use dnrd.Text.{streq, strnlwr}
use dnrd.Dns.Flags.{get_opcode}
use dnrd.Dns.Objname.{get_objname, valid_char}
use dnrd.Dns.Packet.{parse_query}
use dnrd.Dns.Check.{check_query}
use dnrd.Qid.{qid_init_pool}
use dnrd.Query.{query_add}
use dnrd.Cache.{cache_lookup}
use dnrd.Server.{next_active}
use dnrd.Udp.Special.{matched_interfaces}
use dnrd.Udp.Send.{send2current}
use dnrd.Relay.{handle_query}
use dnrd.Query.{query_init}
use dnrd.Master.{name_lookup}
use dnrd.Args.{Args}
use dnrd.Relay.Head.{IsHeaded}
use dnrd.Relay.Run.{World, run}
use dnrd.Main.{
  Stat, RootDir, Creds, Calls, Process, Started, dnrd_root_sanity_check, main, start_world,
}
use dnrd.Main.Root.{GoodRoot, sanity_check_lem}
use dnrd.Main.Start.{started-IsHeaded}
use dnrd.Tests.Udp.{off}
use dnrd.Tests.Args.{initial, nobody}
use dnrd.Tests.Run.{options, events, nothing_there, paths}

abbrev private_file : Stat
private_file = record { st_uid = 0; st_mode = 384; is_dir = false }

abbrev root : RootDir
root = record {
  can_chdir = true;
  can_open = true;
  st = some (record { st_uid = 0; st_mode = 493; is_dir = true });
  stack = private_file;
  entries =
      record { d_name = codes "."; st = none }
      ∷ record { d_name = codes "master"; st = some private_file }
      ∷ [];
}

root_checked :
    (dnrd_root_sanity_check root ≡ true → GoodRoot root)
    × (GoodRoot root → dnrd_root_sanity_check root ≡ true)
root_checked = sanity_check_lem root

abbrev root_user : Creds
root_user = record { uid = 0; gid = 0; groups = 0 ∷ 1 ∷ []; in_root = false }

abbrev calls : Calls
calls = record {
  has_pid_file = true;
  can_read_pid = true;
  can_write_pid = true;
  same_servent = true;
  servent = none;
  can_socket = true;
  can_bind = true;
  sem_init = true;
  strtoul = λ s. (0, s);
  getpwnam = λ s. some 65534;
  root = root;
  creds = root_user;
  chroot = λ p. if p.uid == 0 then some (record p { in_root = true }) else none;
  setgroups = λ p. if p.uid == 0 then some (record p { groups = [] }) else none;
  setuid = λ u p. if p.uid == 0 || p.uid == u then some (record p { uid = u }) else none;
  fork = some true;
}

-- One interface with a server.
abbrev args : Args
args = record initial {
  servers = record {
    inf_list = record { inf = codes "l"; srvlist = 5 ∷ []; current = none } ∷ [];
    srv = λ a. nobody;
  };
}

-- The user is `nobody`, and the group that of root.
abbrev process : Process
process = record {
  port = 53;
  creds = record { uid = 65534; gid = 0; groups = []; in_root = true };
  gotterminal = false;
}

comes_to_loop : main calls args ≡ Started.runs process
unfolding streq main
comes_to_loop = refl

abbrev later : World
unfolding run
later = elim (run options events (start_world 2 nothing_there paths off args)) [
  | none ↦ start_world 2 nothing_there paths off args
  | some w ↦ w
]

later-IsHeaded : IsHeaded 2 later.asking.state
unfolding later run start_world get_objname parse_query strnlwr get_opcode valid_char check_query
    query_init query_add qid_init_pool handle_query cache_lookup next_active send2current
    matched_interfaces name_lookup
later-IsHeaded =
    started-IsHeaded 2 nothing_there paths off args options events later (omega arith)
      (ground (arith)) refl
