-- ===== src/Args.antt =====
-- dnrd-2.20.3/src/args.c: parse_args, over the options that getopt gives. (Nothing reads the variable of -b.)
pub mod Last
pub mod Served
pub mod Start
use dnrd.Prelude.{
  ℕ, ◌+◌, ◌-◌, ◌%◌, Bool, true, false, ◌||◌, List, [], ◌∷◌, ◌++◌, Option, none, some, arith, ◌==◌,
  if◌then◌else◌, take, codes,
}
use dnrd.Prelude.Int.{ℤ, pos, negsuc}
use dnrd.Text.{streq}
use dnrd.Cache.Config.{atoi, split_colon}
use dnrd.Master.Load.{copy_string}
use dnrd.Server.Startup.{Servers, add_server}
use dnrd.Udp.Special.{SpecialHost}

-- The variables that the options set. (`def_inf_list`, `sp_hosts` and `exc_port` are arrays of 30;
-- nothing checks their counts, and the lists have no bound.)
pub record Args : Type 0 where
  pub recv_addr : ℕ
  pub blacklist : List ℕ
  pub cache_param : List ℕ
  pub opt_debug : ℕ
  pub def_inf_list : List (List ℕ)
  pub sp_hosts : List SpecialHost
  pub ignore : Bool
  pub gotterminal : Bool
  pub master_onoff : Bool
  pub master_config : List ℕ
  pub max_sockets : ℤ
  pub reactivate_interval : ℤ
  pub servers : Servers
  pub stats_reset : Bool
  pub stats_interval : ℤ
  pub forward_timeout : ℤ
  pub dnrd_user : List ℕ
  pub dnrd_root : List ℕ
  pub exc_port : List ℤ

-- The system: whether there is an interface, and the C library's `inet_aton`.
pub record System : Type 0 where
  pub valid : List ℕ → Bool
  pub inet_aton : List ℕ → Option ℕ

-- What `getopt` returns, with `optarg`; `address` is the node that a new server gets.
pub record Arg : Type 0 where
  pub c : ℕ
  pub optarg : List ℕ
  pub address : ℕ

-- The `unsigned char` of an `int`.
abbrev pub byte_of : ℤ → ℕ
byte_of (pos n) = n % 256
byte_of (negsuc n) = 255 - n % 256

-- `strrchr(optarg, '+')`, and what stands before it.
unfoldable pub before_plus : List ℕ → Option (List ℕ)
before_plus [] = none
before_plus (c ∷ s) = elim (before_plus s) [
  | some t ↦ some (c ∷ t)
  | none ↦ if c == b'+' then some [] else none
]

-- The case `H`.
unfoldable pub add_special_host : System → List ℕ → Args → Option Args
unfolding split_colon
add_special_host sys optarg g = elim (split_colon optarg) [
  | none ↦ none
  | some (host, inf) ↦
      if sys.valid inf
      then some (record g {
        sp_hosts = g.sp_hosts ++ (record { host_name = take 30 host; inf_name = take 10 inf } ∷ []);
      })
      else none
]

-- The case `S`.
unfoldable pub set_stats : List ℕ → Args → Args
unfolding before_plus
set_stats optarg g = elim (before_plus optarg) [
  | none ↦ record g { stats_interval = atoi optarg }
  | some s ↦ record g { stats_reset = false; stats_interval = atoi s }
]

-- The cases that set a number.
unfoldable pub set_number : ℕ → List ℕ → Args → Option Args
set_number c optarg g =
    if c == b'd'
    then some (record g { opt_debug = byte_of (atoi optarg) })
    else if c == b'M'
    then some (record g { max_sockets = atoi optarg })
    else if c == b'r'
    then some (record g { reactivate_interval = atoi optarg })
    else if c == b't'
    then some (record g { forward_timeout = atoi optarg })
    else if c == b'x'
    then some (record g { exc_port = g.exc_port ++ (atoi optarg ∷ []) })
    else none

-- The cases that copy a string or set a flag. `strncpy` to an array of `n` keeps the first `n`.
unfoldable pub set_string : ℕ → List ℕ → Args → Option Args
unfolding copy_string
set_string c optarg g =
    if c == b'b'
    then some g
    else if c == b'B'
    then some (record g { blacklist = take 256 optarg })
    else if c == b'c'
    then some (record g { cache_param = (copy_string optarg 256).0 })
    else if c == b'i'
    then some (record g { ignore = true })
    else if c == b'l'
    then some (record g { gotterminal = false })
    else if c == b'm'
    then some (
        if streq optarg (codes "off")
        then record g { master_onoff = false }
        else record g { master_config = take 256 optarg })
    else if c == b'R'
    then some (record g { dnrd_root = take 512 optarg })
    else if c == b'u'
    then some (record g { dnrd_user = take 256 optarg })
    else none

-- The cases that ask the system.
unfoldable pub set_network : System → Arg → Args → Option Args
unfolding add_special_host add_server
set_network sys x g =
    if x.c == b'a'
    then elim (sys.inet_aton x.optarg) [ none ↦ none | some a ↦ some (record g { recv_addr = a }) ]
    else if x.c == b'D'
    then if sys.valid x.optarg
      then some (record g { def_inf_list = g.def_inf_list ++ (take 9 x.optarg ∷ []) })
      else none
    else if x.c == b'H'
    then add_special_host sys x.optarg g
    else elim (add_server sys.valid sys.inet_aton x.address x.optarg g.servers) [
      | none ↦ none
      | some s ↦ some (record g { servers = s })
    ]

abbrev is_number : ℕ → Bool
is_number c = c == b'd' || c == b'M' || c == b'r' || c == b't' || c == b'x'

abbrev is_network : ℕ → Bool
is_network c = c == b'a' || c == b'D' || c == b'H' || c == b's'

-- The `switch`; `none` says that the program ends: -h, -k, -v and every other option.
unfoldable pub parse_option : System → Arg → Args → Option Args
unfolding set_number set_stats set_network set_string
parse_option sys x g =
    if is_number x.c
    then set_number x.c x.optarg g
    else if x.c == b'S'
    then some (set_stats x.optarg g)
    else if is_network x.c
    then set_network sys x g
    else set_string x.c x.optarg g

-- The loop of `parse_args`.
unfoldable pub parse_options : System → List Arg → Args → Option Args
unfolding parse_option
parse_options sys [] g = some g
parse_options sys (x ∷ l) g = elim (parse_option sys x g) [
  | none ↦ none
  | some g' ↦ parse_options sys l g'
]

-- `parse_args`, where `getopt` comes to the end of the arguments; the three counts are 0 first.
unfoldable pub parse_args : System → List Arg → Args → Option Args
unfolding parse_options
parse_args sys l g =
    parse_options sys l (record g { def_inf_list = []; sp_hosts = []; exc_port = [] })
