-- ===== src/Tests/Udp.antt =====
-- A query that went to two servers, and their replies.
use mathlib.Core.List.{Mem, mem-cons_self, erase}
use native.Mathlib.Decide.{ℕ_discrete}
use dnrd.Prelude.{ℕ, ◌≤◌, true, false, ◌≡◌, refl, List, [], ◌∷◌, ◌++◌, none, some, arith, length}
use dnrd.Prelude.Int.{pos}
use dnrd.Dns.Check.{check_reply}
use dnrd.Dns.Objname.{valid_char}
use dnrd.Dns.Packet.{Rr}
use dnrd.Cache.{Cache, Entry}
use dnrd.Qid.{qid_init_pool}
use dnrd.Server.{Srv, Inf}
use dnrd.Query.{Query, Queries, Outside, Datagram, query_init, query_add, find_query}
use dnrd.Query.Invariant.{IsKept, query_init-IsKept, query_add-IsKept}
use dnrd.Udp.{State, Received, CacheCall, udp_handle_reply}
use dnrd.Udp.Answers.{Sent, handle_reply_loses}
use dnrd.Udp.Rounds.{
  handle_replies, handle_replies_once, handle_replies_removes, handle_replies_answers,
}
use dnrd.Prelude.{Option}
use dnrd.Relay.{Looked}
use dnrd.Udp.Request.{RequestCall, send_query, send_query_stays}
use dnrd.Udp.Special.{matched_interfaces}
use dnrd.Udp.Send.{Tried, try_send, Walked, send2current, is_used}
use dnrd.Udp.Send.Ends.{active_count, is_in, try_send_ends}

abbrev empty : Rr
empty = record { flags = 0; name = []; type = 0; class = 0; ttl = 0; len = 0; rdata = [] }

abbrev no_entry : Entry
no_entry = record {
  code = 0;
  name = [];
  type = 0;
  class = 0;
  positive = 0;
  created = 0;
  lastused = 0;
  expires = 0;
  p = record {
    id = 0;
    u = 0;
    qdcount = 0;
    ancount = 0;
    nscount = 0;
    arcount = 0;
    packet = [];
    len = 0;
  };
  server = 0;
}

abbrev pub off : Cache
off = record {
  onoff = false;
  highwater = 0;
  lowwater = 0;
  cachelist = [];
  cell = λ a. no_entry;
  lastexpire = 0;
  hits = 0;
  misses = 0;
}

abbrev pub waiting : Query
waiting = record {
  sock_arr = 3 ∷ 4 ∷ 6 ∷ [];
  srv = 7;
  is_dummy = false;
  my_qid = 40;
  client_qid = 13330;
  client = 99;
  serv_sent_cnt = pos 2;
  fail_msg = [];
  resp_sent = false;
  client_time = 1000;
  client_count = 1;
  ttl = 4;
  srv_list = some 7 ∷ some 8 ∷ none ∷ [];
}

abbrev pub server : ℕ → Srv
server a = record { addr = a; inactive = 0; send_count = 0; send_time = 0 }

-- Two interfaces with a server each.
abbrev interfaces : List Inf
interfaces =
    record { inf = 97 ∷ []; srvlist = 7 ∷ []; current = some 7 }
    ∷ record { inf = 98 ∷ []; srvlist = 8 ∷ []; current = some 8 }
    ∷ []

abbrev pub state : Query → State
state q = record {
  queries = record {
    qlist = 5 ∷ [];
    cell = λ a. q;
    total_queries = 0;
    total_timeouts = 0;
    upstream_sockets = pos 3;
    fdmaster = 6 ∷ 4 ∷ 3 ∷ [];
    pool = record { qid_pool = []; free = 0 };
    sent = [];
  };
  cache = off;
  inf_list = interfaces;
  head_current = some 2;
  srv = server;
}

abbrev pub call : CacheCall
call = record { valid = valid_char false; stack = empty; address = 1; now = 1001 }

-- A reply with the code 3.
abbrev reply : List ℕ
reply = 40 ∷ 0 ∷ 128 ∷ 3 ∷ 0 ∷ 1 ∷ 0 ∷ 0 ∷ 0 ∷ 0 ∷ 0 ∷ 0 ∷ []

abbrev pub received : ℕ → Received
received a = record { bytes = some reply; from = a; inf_name = some (97 ∷ []) }

abbrev replies : List (CacheCall × Received)
replies = (call, received 7) ∷ (call, received 8) ∷ []

is_reply : check_reply reply ≡ true
unfolding check_reply
is_reply = refl

one_answer :
    (d : Datagram) × ((handle_replies (state waiting) 5 replies).queries.sent ≡ [] ++ (d ∷ []))
    × (d.to ≡ 99)
one_answer =
    handle_replies_answers (state waiting) 5 1 replies refl refl refl refl
      ((reply, (refl, omega arith, is_reply)), ((reply, (refl, omega arith, is_reply)), tt))

at_most_one :
    let s = handle_replies (state waiting) 5 replies in
    Sent waiting [] (s.queries.cell 5) s.queries.sent
at_most_one = handle_replies_once (state waiting) 5 2 replies refl (omega arith)

removed_by_second :
    let s = handle_replies (state waiting) 5 replies in
    (length replies ≤ 1 → s.queries.qlist ≡ 5 ∷ [])
    × (length replies ≡ 2 → s.queries.qlist ≡ erase ℕ_discrete (5 ∷ []) 5)
removed_by_second = handle_replies_removes (state waiting) 5 1 replies refl

-- The query has kept a failure, and the last server's reply cannot be received.
abbrev failing : Query
failing = record waiting { serv_sent_cnt = pos 1; fail_msg = reply }

abbrev lost : Received
lost = record { bytes = none; from = 8; inf_name = none }

failure_lost :
    let s = udp_handle_reply (state failing) 5 call lost in
    (s.queries.sent ≡ []) × (s.queries.qlist ≡ erase ℕ_discrete (5 ∷ []) 5)
failure_lost = handle_reply_loses (state failing) 5 call lost refl (λ m e. ground (arith, e))

abbrev message : List ℕ
message = 18 ∷ 52 ∷ 1 ∷ 0 ∷ 0 ∷ 1 ∷ 0 ∷ 0 ∷ 0 ∷ 0 ∷ 0 ∷ 0 ∷ []

abbrev outside : Outside
outside = record { sock = some 3 ∷ some 4 ∷ some 6 ∷ []; address = 5; random = 40 }

abbrev added : Queries
added = (query_add query_init outside (pos 200) 4 false 7 99 message 1000).0

added-IsKept : IsKept added
unfolding query_init qid_init_pool find_query query_add
added-IsKept =
    query_add-IsKept query_init outside (pos 200) 4 7 99 1000 5 65535 false message
      query_init-IsKept refl (omega arith) refl tt refl

added_waits : Mem 5 added.qlist
unfolding query_init query_add
added_waits = mem-cons_self

-- The first server cannot be reached, and the interface has no other.
all_failed :
    (t : Tried) × (try_send true 1000
        (false ∷ [])
        server
        (record { inf = 97 ∷ []; srvlist = 7 ∷ []; current = some 7 })
      ≡ some t)
unfolding active_count is_in
all_failed =
    try_send_ends (false ∷ []) server (record { inf = 97 ∷ []; srvlist = 7 ∷ []; current = some 7 })
      1000 (ground arith) (λ a e. (ground (arith, e), refl)) (omega arith)

abbrev fresh : Query
fresh = record waiting { serv_sent_cnt = pos 0 }

abbrev walked : Walked
unfolding send2current is_used
walked =
    elim (send2current [] [] (some 2) true 1000 (true ∷ true ∷ []) interfaces server fresh 12) [
      | none ↦ record { infs = []; srv = server; q = fresh; results = []; at = none }
      | some (w, r) ↦ w
    ]

-- What the function returns.
abbrev returned : ℕ
unfolding send2current
returned =
    elim (send2current [] [] (some 2) true 1000 (true ∷ true ∷ []) interfaces server fresh 12) [
      | none ↦ 1
      | some (w, r) ↦ r
    ]

-- A query for the name `a`, as it goes to the servers.
abbrev pub question : List ℕ
question = message ++ (1 ∷ 97 ∷ 0 ∷ 0 ∷ 1 ∷ 0 ∷ 1 ∷ [])

abbrev pub request : RequestCall
request = record {
  master_lookup = λ m. Looked.pass;
  master_onoff = true;
  valid = valid_char false;
  stack = empty;
  ignore = false;
  forward_timeout = 4;
  reactivate_interval = 10;
  max_sockets = pos 200;
  sp_hosts = [];
  host_before = [];
  defaults = [];
  outside = outside;
  results = true ∷ true ∷ [];
  now = 1000;
}

abbrev after_send : State × Option ℕ
unfolding send_query
after_send = elim (send_query request (state fresh) 5 question) [
  | none ↦ (state fresh, some 5)
  | some r ↦ r
]

sent_and_waiting :
    (after_send.1 ≡ some 5)
    × (after_send.0.queries.qlist ≡ 5 ∷ [])
    × (after_send.0.queries.sent ≡ [])
unfolding after_send send_query send2current matched_interfaces
sent_and_waiting =
    send_query_stays request (state fresh) after_send.0 5 0 2 after_send.1 question refl refl
      (omega arith) refl (omega arith) refl
