-- ===== src/Tests/Run.antt =====
-- A round of the loop of the program: a client asks, and its query goes to two servers; and an
-- inactive server that is due.
use dnrd.Prelude.{ℕ, ◌⊎◌, true, false, ◌≡◌, refl, List, [], ◌∷◌, none, some, arith, ◌==◌}
use dnrd.Prelude.Int.{pos}
use dnrd.Text.{strnlwr}
use dnrd.Dns.Flags.{get_opcode}
use dnrd.Dns.Objname.{get_objname, valid_char}
use dnrd.Dns.Packet.{parse_query}
use dnrd.Dns.Check.{check_query}
use dnrd.Qid.{qid_init_pool}
use dnrd.Query.{query_init, query_add}
use dnrd.Query.Invariant.{query_init-IsKept}
use dnrd.Query.Kept.{CanAdd}
use dnrd.Udp.Dummy.{Settings, DummyCall, dnsbuf_start, retry_srvlist}
use dnrd.Cache.{cache_lookup}
use dnrd.Server.{next_active}
use dnrd.Udp.Special.{matched_interfaces}
use dnrd.Udp.Send.{send2current}
use dnrd.Relay.{handle_query}
use dnrd.Relay.Run.{World, Options, Event, Woken, Phase, run, after_sleep}
use dnrd.Relay.Run.Ends.{ComesToRequests, TakesHead, replies_end}
use dnrd.Sig.{Signal}
use dnrd.Master.{reset_master}
use dnrd.Master.Load.{Environment}
use dnrd.Master.Init.{Paths, master_init}
use dnrd.Relay.Run.Reload.{after_sleep_reloads}
use dnrd.Relay.Run.Keeps.{Always}
use dnrd.Relay.Run.Ids.{IsRunning, CanServe, CanServeAll, run-IsRunning}
use dnrd.Tests.Udp.{state, waiting, request, question, call, received}

abbrev settings : Settings
settings = record { max_sockets = pos 200; forward_timeout = 4; reactivate_interval = 10 }

abbrev pub options : Options
options = record { settings = settings; stats_interval = 60; stats_reset = true }

abbrev start : World
start = record {
  asking = record {
    state = record (state waiting) { queries = query_init };
    dnsbuf = dnsbuf_start;
  };
  opt_debug = 0;
  master = record {
    master_onoff = false;
    master_reload = false;
    master_initialised = false;
    db = record { dbmax = 0; dbv = [] };
  };
  last_try = 0;
  last_check = 0;
  last_stats = 0;
  fdread = λ a. false;
  isock_set = false;
  phase = Phase.waiting;
}

abbrev dummies : ℕ → DummyCall
dummies a = record {
  outside = record { sock = some 9 ∷ []; address = 6; random = 41 };
  srcaddr = 0;
  sent = true;
}

abbrev pub events : List Event
events =
    Event.slept (Woken.readable (λ a. false) true) 1000 dummies
    ∷ Event.looked call (received 7)
    ∷ Event.asked request (some question) 99
    ∷ Event.kept_up (λ c l. l) 1000
    ∷ []

abbrev round : World
unfolding run
round = elim (run options events start) [ none ↦ start | some w ↦ w ]

-- The query waits at the address 5.
round_waits : round.asking.state.queries.qlist ≡ 5 ∷ []
unfolding round run get_objname parse_query strnlwr get_opcode valid_char check_query query_init
    query_add qid_init_pool handle_query cache_lookup next_active send2current matched_interfaces
round_waits = refl

served : CanServeAll options events start
unfolding Always CanServe run retry_srvlist get_objname parse_query strnlwr get_opcode valid_char
    check_query query_init query_add qid_init_pool handle_query cache_lookup next_active
    send2current matched_interfaces
served =
    let can : CanAdd query_init request.outside = ((65535, refl, omega arith), tt) in
    let dummy : CanAdd query_init (dummies 7).outside = ((65535, refl, omega arith), tt) in
    (((dummy, tt), ((dummy, tt), tt)), (tt, (can, (tt, tt))))

round-IsRunning : IsRunning round
unfolding round run get_objname parse_query strnlwr get_opcode valid_char check_query query_init
    query_add qid_init_pool handle_query cache_lookup next_active send2current matched_interfaces
round-IsRunning = run-IsRunning options events start round query_init-IsKept served refl

-- A query waits for two servers, and its first socket can be read.
abbrev reading : World
reading = record start {
  asking = record { state = state waiting; dnsbuf = dnsbuf_start };
  fdread = λ a. a == 3;
  phase = Phase.query_at 0;
}

loop_over :
    ComesToRequests options (λ i. (call, received 7)) 0 reading
    ⊎ TakesHead options (λ i. (call, received 7)) 0 reading
loop_over = replies_end options (λ i. (call, received 7)) reading refl

-- A SIGHUP behind a SIGUSR1, where no file can be read.
abbrev pub nothing_there : Environment
nothing_there = record { inet_aton = λ ip. none; files = λ f. none }

abbrev pub paths : Paths
paths = record { master_config = []; blacklist = []; buffer = [] }

abbrev with_master : World
with_master = record start { master = record start.master { master_onoff = true } }

reloaded :
    let w =
      after_sleep
        (Woken.interrupted (Signal.sigusr1 ∷ Signal.sighup ∷ []) nothing_there paths)
        with_master in
    let fresh = record with_master.master {
      master_reload = true;
      db = reset_master with_master.master.db;
    } in
    (w.master ≡ record (master_init nothing_there paths fresh) { master_reload = false })
    × (w.asking ≡ with_master.asking)
    × (w.phase ≡ Phase.waiting)
reloaded =
    after_sleep_reloads (Signal.sigusr1 ∷ Signal.sighup ∷ []) nothing_there paths with_master refl
      refl
