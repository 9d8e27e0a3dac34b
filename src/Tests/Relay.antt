-- ===== src/Tests/Relay.antt =====
-- Interfaces whose servers are active or not, at the time 1000.
use dnrd.Prelude.{
  ℕ, false, ◌≡◌, ◌≢◌, refl, List, [], ◌∷◌, Option, none, some, arith, All, ◌==◌, if◌then◌else◌,
}
use dnrd.Cache.{Cache, Entry}
use dnrd.Server.{Srv, Inf, next_active, deactivate_current}
use dnrd.Server.Active.{Active, first_of}
use dnrd.Query.{query_init}
use dnrd.Udp.{State}
use dnrd.Relay.{Outcome, forward_query}
use dnrd.Relay.Choice.{forward_query-Active}
use dnrd.Udp.Request.{relay_query}
use dnrd.Udp.Silent.{query_unanswered}
use dnrd.Tests.Udp.{request}
use dnrd.Relay.Checks.{Stuck, deactivate_servers, deactivate_servers_done}

-- The node 3 is the head's; the server 7 was found inactive at 900; 8 is active, and was asked at 990.
abbrev server : ℕ → Srv
server a = record {
  addr = a;
  inactive = if a == 7 then 900 else 0;
  send_count = 1;
  send_time = if a == 8 then 990 else 0;
}

abbrev interface : List ℕ → Option ℕ → Inf
interface l c = record { inf = 97 ∷ []; srvlist = l; current = c }

abbrev no_entry : Entry
no_entry = record {
  code = 0;
  name = [];
  type = 0;
  class = 0;
  positive = 0;
  created = 0;
  lastused = 0;
  expires = 0;
  p = record {
    id = 0;
    u = 0;
    qdcount = 0;
    ancount = 0;
    nscount = 0;
    arcount = 0;
    packet = [];
    len = 0;
  };
  server = 0;
}

abbrev off : Cache
off = record {
  onoff = false;
  highwater = 0;
  lowwater = 0;
  cachelist = [];
  cell = λ a. no_entry;
  lastexpire = 0;
  hits = 0;
  misses = 0;
}

abbrev state : List Inf → State
state l = record {
  queries = query_init;
  cache = off;
  inf_list = l;
  head_current = some 3;
  srv = server;
}

abbrev message : List ℕ
message = 18 ∷ 52 ∷ 1 ∷ 0 ∷ 0 ∷ 1 ∷ 0 ∷ 0 ∷ 0 ∷ 0 ∷ 0 ∷ 0 ∷ []

abbrev one : List Inf
one = interface (7 ∷ []) none ∷ []

abbrev two : List Inf
two = interface (7 ∷ []) none ∷ interface (8 ∷ 9 ∷ []) none ∷ []

-- The second interface is chosen; its server 8 has timed out, and 9 takes its place.
second_chosen :
    let s = (forward_query 4 10 1000 (state two) message).0 in
    (message ≡ message) × ((a : ℕ) × (dnrd.Relay.current_at s.inf_list 1 ≡ some a) × Active s.srv a)
unfolding forward_query next_active deactivate_current
second_chosen = forward_query-Active 4 10 1000 1 (state two) message message refl

-- All servers are inactive: the query goes on by the head.
silence :
    let (s0, outcome) = forward_query 4 10 1000 (state one) message in
    (outcome ≡ Outcome.forward none message)
    × ((s' : State) × (returned : Option ℕ) × (relay_query request s0 99 none message
          ≡ some (s', returned))
        × (s'.srv ≡ server)
        × (s'.queries.sent ≡ []))
unfolding first_of query_init
silence =
    query_unanswered request (state one) (interface (7 ∷ []) none) [] 3 99 message refl (refl, tt)
      refl refl

overdue_out :
    let (s, tried) = deactivate_servers 4 1 1000 995 (state two) in
    (tried ≡ 1000)
    × (Stuck 4 1000 s.srv 8
        → Stuck 4 1000 server 8 × All (λ i. All (λ a. ◌≢◌ {A = ℕ} 8 a) i.srvlist) two)
overdue_out =
    deactivate_servers_done 4 1 1000 995 8 (state two) (ground arith) (ground arith) (omega arith)
