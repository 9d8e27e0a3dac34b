-- ===== src/Tests/Master.antt =====
-- A database with a host of the domain `lan`, and a blacklist with one name.
use dnrd.Prelude.{
  ℕ, true, false, ◌≡◌, refl, List, [], ◌∷◌, ◌++◌, Option, none, some, arith, length, if◌then◌else◌,
  get_elem?, codes, false, take, ◌⊎◌,
}
use dnrd.Text.{strnlwr, streq}
use mathlib.Core.Option
use dnrd.Text.{get_stringcode}
use dnrd.Text.Words.{skip_ws, noctrln}
use dnrd.Dns.Check.{ntohs_at}
use dnrd.Dns.Flags.{get_opcode}
use dnrd.Dns.Packet.{Rr, parse_query}
use dnrd.Dns.Objname.RoundTrip.{wire}
use dnrd.Dns.Objname.{ok, go, valid_char, follow_pointer, get_objname}
use dnrd.Cache.{Entry}
use dnrd.Query.{query_init}
use dnrd.Udp.{State}
use dnrd.Master.{
  NameIp, DnsRec, Database, nameip, mkstring, alloc_dnsrec, show_swapped, name_lookup, ptr_lookup,
  authority_lookup, dns_lookup,
}
use dnrd.Master.Search.{host, fact_of, is_found, IsWellFormed}
use dnrd.Master.Replay.{Addition, a_host, a_server, add_all, lookups-replay}
use dnrd.Master.Lookup.{ns_loop, master_lookup}
use dnrd.Master.Lookup.Servers.{servers, compile_all, compile_all_ns, server_loops_all}
use dnrd.Master.Lookup.Echo.{master_lookup_echoes}
use dnrd.Master.Assembly.{Assembly, dnsrecords_loop, compile_name, compile_namepointer}
use dnrd.Master.Assembly.Names.{get_objname-compile_name, follow_pointer-compile_namepointer}
use dnrd.Master.Load.{Environment}
use dnrd.Master.Init.{Paths, Master, master_init, reverse_domain}
use dnrd.Master.Init.Rounds.{master_init-IsWellFormed}
use dnrd.Master.Init.Authority.{master_init_authorises}

abbrev aton : List ℕ → Option ℕ
aton s =
    if streq s (codes "127.0.0.1")
    then some 2130706433
    else if streq s (codes "10.1.2.3")
    then some 167838211
    else none

abbrev outside : Environment
outside = record {
  inet_aton = aton;
  files = λ path.
      if streq path (codes "blacklist")
      then some (codes "Ads.example.com#no" ∷ [])
      else if streq path (codes "master")
      then some (codes "domain lan ns" ∷ codes "10.1.2.3 Www" ∷ [])
      else none;
}

abbrev paths : Paths
paths = record { master_config = codes "master"; blacklist = codes "blacklist"; buffer = [] }

abbrev empty_db : Database
empty_db = record { dbmax = 0; dbv = [] }

abbrev off_line : Master
off_line = record {
  master_onoff = true;
  master_reload = false;
  master_initialised = false;
  db = empty_db;
}

abbrev ready : Database
unfolding master_init
ready = (master_init outside paths off_line).db

abbrev address : NameIp
unfolding mkstring strnlwr
address = record { arpa = mkstring (codes "3.2.1.10"); ipnum = 167838211 }

abbrev www : DnsRec
unfolding alloc_dnsrec mkstring strnlwr
www = alloc_dnsrec (codes "www.lan") (nameip address)

www_read : get_elem? ready.dbv 4 ≡ some www
unfolding ready www address master_init streq skip_ws noctrln strnlwr get_stringcode mkstring
    alloc_dnsrec show_swapped
www_read = refl

reverse_www : reverse_domain address ≡ some (codes "2.1.10.in-addr.arpa")
unfolding address reverse_domain mkstring strnlwr get_stringcode
reverse_www = refl

-- There is authority for the network of the host.
network_known : is_found (authority_lookup ready (codes "2.1.10.in-addr.arpa")) ≡ true
unfolding ready www
network_known =
    master_init_authorises outside paths off_line 4 www address (codes "2.1.10.in-addr.arpa") refl
      (omega arith, tt) www_read refl reverse_www

ready-IsWellFormed : IsWellFormed ready
unfolding ready
ready-IsWellFormed = master_init-IsWellFormed outside paths off_line (omega arith, tt)

-- Two additions: a host in capitals, and a server.
abbrev additions : List Addition
additions =
    a_host (codes "WWW.lan") (codes "10.1.2.3") ∷ a_server (codes "lan") (codes "ns.lan") ∷ []

host_found :
    (Option.map fact_of (name_lookup (add_all aton empty_db additions) (codes "www.lan"))
      ≡ some (host (codes "www.lan") 167838211))
    × (Option.map fact_of (ptr_lookup (add_all aton empty_db additions) (codes "www.lan")) ≡ none)
    × (is_found (authority_lookup (add_all aton empty_db additions) (codes "www.lan")) ≡ false)
unfolding strnlwr streq show_swapped
host_found = lookups-replay aton empty_db additions (codes "www.lan") (omega arith, tt)

-- An assembly of a header.
abbrev start : Assembly
start = record {
  u = 0x8000;
  qdcount = 1;
  ancount = 0;
  nscount = 0;
  arcount = 0;
  bytes = 0 ∷ 0 ∷ 0 ∷ 0 ∷ 0 ∷ 0 ∷ 0 ∷ 0 ∷ 0 ∷ 0 ∷ 0 ∷ 0 ∷ [];
  rdata = none;
}

labels_written :
    get_objname
      (valid_char false)
      ((compile_name start (codes "www.lan")).0.bytes ++ (0 ∷ []))
      256
      (compile_name start (codes "www.lan")).1
    ≡ ok (length (compile_name start (codes "www.lan")).0.bytes) (codes "www.lan")
unfolding valid_char
labels_written =
    get_objname-compile_name (valid_char false) start (0 ∷ []) (codes "www") (codes "lan" ∷ []) 256
      (omega arith) (ground arith) (ground arith) (omega arith)

-- An assembly of 80 bytes.
abbrev long : Assembly
long = record start {
  bytes = codes "01234567890123456789012345678901234567890123456789012345678901234567890123456789";
}

pointer_wrong :
    follow_pointer
      (compile_namepointer long 70).bytes
      0xc0
      (record { i = 81; depth = 0; compressed = 0; dest = [] })
    ≡ go (record { i = 6; depth = 1; compressed = 82; dest = [] })
pointer_wrong = follow_pointer-compile_namepointer long 70 [] (omega arith) (omega arith)

servers_once :
    (dnsrecords_loop (length ready.dbv) ready (codes "www.lan") none start 0
      ≡ compile_all start 0 (servers (codes "www.lan") ready.dbv))
    × (ns_loop
          (length ready.dbv)
          ready
          (codes "www.lan")
          (dns_lookup ready (codes "www.lan") none)
          start
        ≡ compile_all_ns start (servers (codes "www.lan") ready.dbv))
servers_once = server_loops_all ready (codes "www.lan") start

abbrev empty : Rr
empty = record { flags = 0; name = []; type = 0; class = 0; ttl = 0; len = 0; rdata = [] }

abbrev header : List ℕ
header = 18 ∷ 52 ∷ 1 ∷ 0 ∷ 0 ∷ 1 ∷ 0 ∷ 0 ∷ 0 ∷ 0 ∷ 0 ∷ 0 ∷ []

-- A query for the address of `WWW.lan`, and the answer.
abbrev query_packet : List ℕ
query_packet = header ++ (wire (codes "WWW" ∷ codes "lan" ∷ []) ++ (0 ∷ 1 ∷ 0 ∷ 1 ∷ []))

abbrev answered : Option (List ℕ)
answered = master_lookup (valid_char false) empty ready query_packet

abbrev answer : List ℕ
answer = elim answered [ none ↦ [] | some a ↦ a ]

has_answer : answered ≡ some answer
unfolding master_lookup parse_query get_objname valid_char get_opcode name_lookup ready streq
    skip_ws noctrln strnlwr get_stringcode
has_answer = refl

www_echoed :
    (take 2 answer ≡ 18 ∷ 52 ∷ [])
    × ((ntohs_at answer 2 ≡ 0x8000) ⊎ (ntohs_at answer 2 ≡ 0x8400))
    × (parse_query (valid_char false) empty answer
        ≡ some (record empty {
          flags = ntohs_at answer 2;
          name = strnlwr (codes "WWW.lan");
          type = 1;
          class = 1;
        }))
unfolding valid_char strnlwr
www_echoed =
    master_lookup_echoes (valid_char false) empty empty ready header (codes "WWW")
      (codes "lan" ∷ []) 0 1 0 1 [] answer refl (ground arith) (ground arith) (ground arith)
      (ground arith) (omega arith) (ground arith) has_answer

-- A query for the address of the name on the blacklist.
abbrev ads_packet : List ℕ
ads_packet =
    header ++ (wire (codes "Ads" ∷ codes "example" ∷ codes "com" ∷ []) ++ (0 ∷ 1 ∷ 0 ∷ 1 ∷ []))

abbrev ads_query : Rr
ads_query = record empty { flags = 256; name = codes "ads.example.com"; type = 1; class = 1 }

abbrev no_entry : Entry
no_entry = record {
  code = 0;
  name = [];
  type = 0;
  class = 0;
  positive = 0;
  created = 0;
  lastused = 0;
  expires = 0;
  p = record {
    id = 0;
    u = 0;
    qdcount = 0;
    ancount = 0;
    nscount = 0;
    arcount = 0;
    packet = [];
    len = 0;
  };
  server = 0;
}

abbrev idle : State
idle = record {
  queries = query_init;
  cache = record {
    onoff = false;
    highwater = 0;
    lowwater = 0;
    cachelist = [];
    cell = λ a. no_entry;
    lastexpire = 0;
    hits = 0;
    misses = 0;
  };
  inf_list = [];
  head_current = some 2;
  srv = λ a. record { addr = a; inactive = 0; send_count = 0; send_time = 0 };
}
