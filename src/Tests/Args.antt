-- ===== src/Tests/Args.antt =====
-- The command line `-t 7 -s 4:l -t 9`, where `4` stands for an address in dots.
use dnrd.Prelude.{
  true, false, ◌≡◌, refl, List, [], ◌∷◌, none, some, arith, All, if◌then◌else◌, codes,
}
use dnrd.Prelude.Int.{pos}
use dnrd.Text.{streq}
use dnrd.Cache.Config.{atoi, split_colon}
use dnrd.Server.{Srv}
use dnrd.Server.Startup.{add_server}
use dnrd.Query.{query_init}
use dnrd.Args.{Args, System, Arg, parse_args}
use dnrd.Args.Last.{last_number, parse_args_lem}
use dnrd.Args.Start.{start_state, HasCurrent, start_state-HasCurrent}
use dnrd.Tests.Udp.{off}

abbrev system : System
system = record {
  valid = λ n. true;
  inet_aton = λ ip. if streq ip (codes "4") then some 44 else none;
}

abbrev pub nobody : Srv
nobody = record { addr = 0; inactive = 0; send_count = 0; send_time = 0 }

abbrev pub initial : Args
initial = record {
  recv_addr = 0;
  blacklist = [];
  cache_param = [];
  opt_debug = 0;
  def_inf_list = [];
  sp_hosts = [];
  ignore = false;
  gotterminal = true;
  master_onoff = true;
  master_config = codes "master";
  max_sockets = pos 200;
  reactivate_interval = pos 10;
  servers = record { inf_list = []; srv = λ a. nobody };
  stats_reset = true;
  stats_interval = pos 0;
  forward_timeout = pos 4;
  dnrd_user = codes "root";
  dnrd_root = [];
  exc_port = [];
}

abbrev options : List Arg
options =
    record { c = b't'; optarg = codes "7"; address = 0 }
    ∷ record { c = b's'; optarg = codes "4:l"; address = 5 }
    ∷ record { c = b't'; optarg = codes "9"; address = 0 }
    ∷ []

abbrev parsed : Args
unfolding parse_args
parsed = elim (parse_args system options initial) [ none ↦ initial | some g ↦ g ]

-- The last timeout counts.
nine : parsed.forward_timeout ≡ pos 9
unfolding parsed parse_args add_server streq split_colon atoi
nine = refl

last_counts :
    (parsed.forward_timeout ≡ last_number b't' options (pos 4))
    × (parsed.reactivate_interval ≡ last_number b'r' options (pos 10))
    × (parsed.max_sockets ≡ last_number b'M' options (pos 200))
unfolding parsed parse_args add_server streq split_colon atoi
last_counts = parse_args_lem system options initial parsed refl

all_have_current :
    let s = start_state 2 query_init off parsed.servers in All (HasCurrent s.srv) s.inf_list
unfolding parsed parse_args add_server streq split_colon atoi
all_have_current =
    start_state-HasCurrent system options initial parsed 2 query_init off refl refl (ground arith)
