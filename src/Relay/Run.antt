-- ===== src/Relay/Run.antt =====
-- dnrd-2.20.3/src/relay.c: run, the loop of the program, as a machine that takes one event a step,
-- with query_stats. (srv_stats only writes the log; the requests by TCP are compiled only with
-- ENABLE_TCP.)
pub mod Ids
pub mod Ends
pub mod Head
pub mod Keeps
pub mod Reload
use dnrd.Prelude.{
  ℕ, zero, suc, ◌+◌, Bool, true, false, ◌||◌, ◌≡◌, List, [], ◌∷◌, Option, none, some, arith, leb,
  ltb, ◌==◌, if◌then◌else◌, get_elem?, get_or,
}
use dnrd.Query.{Query, Queries, query_count}
use dnrd.Query.Timeout.{query_timeout}
use dnrd.Cache.Expire.{Qsort, cache_expire}
use dnrd.Udp.{State, Received, CacheCall, udp_handle_reply}
use dnrd.Udp.Request.{RequestCall, udp_handle_request}
use dnrd.Udp.Dummy.{Settings, DummyCall, Asking, reactivate_servers}
use dnrd.Master.Load.{Environment}
use dnrd.Master.Init.{Paths, Master, master_reinit}
use dnrd.Sig.{Signal, sig_handlers}
use dnrd.Relay.Checks.{deactivate_servers}
use dnrd.Relay.Local.{local_lookup}

-- `query_stats`, with its static `last`: the counters start again where `stats_reset` is set.
unfoldable pub query_stats : ℕ → Bool → ℕ → ℕ → State → State × ℕ
query_stats interval stats_reset now last s =
    let cleared : State = record s {
      cache = record s.cache { hits = 0; misses = 0 };
      queries = record s.queries { total_timeouts = 0 };
    } in
    if interval == 0 || leb now (last + interval)
    then (s, last)
    else (if stats_reset then cleared else s, now)

-- Where the loop stands: before `pselect`; at the head of the loop over the queries, where `q` is
-- the node behind the first `k` ones; at the socket `i` of `q->next`; behind that loop; and before
-- the upkeep.
pub data Phase : Type 0 where
  waiting : Phase
  query_at : ℕ → Phase
  socket_at : ℕ → ℕ → Phase
  requests : Phase
  upkeep : Phase

-- The variables: those of the handlers, `opt_debug`, the master, the static variables of `reactivate_servers`,
-- `deactivate_servers` and `query_stats`, and `fdread`, with `isock` for itself.
pub record World : Type 0 where
  pub asking : Asking
  pub opt_debug : ℕ
  pub master : Master
  pub last_try : ℕ
  pub last_check : ℕ
  pub last_stats : ℕ
  pub fdread : ℕ → Bool
  pub isock_set : Bool
  pub phase : Phase

-- The options that the loop reads.
pub record Options : Type 0 where
  pub settings : Settings
  pub stats_interval : ℕ
  pub stats_reset : Bool

-- What `pselect` gives: its time is over, descriptors can be read (with `isock` for itself), signals
-- came (with what a reload of the master meets), or another error.
pub data Woken : Type 0 where
  idle : Woken
  readable : (ℕ → Bool) → Bool → Woken
  interrupted : List Signal → Environment → Paths → Woken
  failed : Woken

-- What comes from outside for each piece of the loop.
pub data Event : Type 0 where
  slept : Woken → ℕ → (ℕ → DummyCall) → Event
  looked : CacheCall → Received → Event
  asked : RequestCall → Option (List ℕ) → ℕ → Event
  kept_up : Qsort → ℕ → Event

-- The checks of the servers behind `pselect`.
unfoldable pub check_servers : Settings → ℕ → (ℕ → DummyCall) → World → World
unfolding reactivate_servers deactivate_servers
check_servers set now calls w =
    let (asking, last_try) =
      reactivate_servers set set.reactivate_interval now w.last_try calls w.asking in
    let (state, last_check) =
      deactivate_servers set.forward_timeout 1 now w.last_check asking.state in
    if set.reactivate_interval == 0
    then w
    else if set.forward_timeout == 0
    then record w { asking = asking; last_try = last_try }
    else record w {
      asking = record asking { state = state };
      last_try = last_try;
      last_check = last_check;
    }

-- What `pselect` has returned is handled; errors go back to it.
unfoldable pub after_sleep : Woken → World → World
unfolding master_reinit sig_handlers
after_sleep Woken.idle w = record w { phase = Phase.upkeep }
after_sleep (Woken.readable fdread isock_set) w = record w {
  fdread = fdread;
  isock_set = isock_set;
  phase = Phase.query_at 0;
}
after_sleep (Woken.interrupted signals out paths) w =
    let s = sig_handlers signals (record { opt_debug = w.opt_debug; master = w.master }) in
    record w {
      opt_debug = s.opt_debug;
      master = master_reinit out paths s.master;
      phase = Phase.waiting;
    }
after_sleep Woken.failed w = record w { phase = Phase.waiting }

-- `q = q->next`, which is the head again behind the last node.
unfoldable pub next_query : List ℕ → ℕ → Phase
next_query qlist k = elim (get_elem? qlist k) [
  | none ↦ Phase.query_at 0
  | some q ↦ Phase.query_at (k + 1)
]

-- What follows the socket `i`: a dummy query has no other one. (`q->next` may be another query
-- now, or the head, which is no dummy.)
unfoldable pub next_socket : Queries → ℕ → ℕ → Phase
unfolding next_query
next_socket s k i =
    let is_dummy : Bool = elim (get_elem? s.qlist k) [
      | none ↦ false
      | some q ↦ (s.cell q).is_dummy
    ] in
    if is_dummy || i == 2 then next_query s.qlist k else Phase.socket_at k (i + 1)

-- Whether the loop takes the head for a query: behind the last node `q->next` is the head, whose
-- sockets are all 0, and the descriptor 0 is that of a query if `main` has closed `stdin`.
unfoldable pub is_head_read : ℕ → World → Bool
is_head_read k w = elim (get_elem? w.asking.state.queries.qlist k) [
  | none ↦ w.fdread 0
  | some q ↦ false
]

-- The socket `i` of `q->next`. (For the head: `is_head_read`.)
unfoldable pub handle_at : ℕ → ℕ → CacheCall → Received → World → State
handle_at k i call got w =
    let s = w.asking.state in
    elim (get_elem? s.queries.qlist k) [
      | none ↦ s
      | some q ↦
          if w.fdread (get_or (s.queries.cell q).sock_arr i 0)
          then udp_handle_reply s q call got
          else s
    ]

-- The body of the loop over the sockets.
unfoldable pub look_at : ℕ → ℕ → CacheCall → Received → World → World
unfolding handle_at next_socket
look_at k i call got w =
    let s = handle_at k i call got w in
    record w { asking = record w.asking { state = s }; phase = next_socket s.queries k i }

-- The same, where the head is no query. `none` says that `udp_handle_reply` is called for the head,
-- which has no server and is no node that could be freed: the program fails.
unfoldable pub try_look : ℕ → ℕ → CacheCall → Received → World → Option World
unfolding is_head_read look_at
try_look k i call got w = if is_head_read k w then none else some (look_at k i call got w)

-- The options and the master as `udp_handle_request` finds them.
unfoldable pub with_options : Settings → Master → RequestCall → RequestCall
unfolding local_lookup
with_options set m call = record call {
  master_lookup = local_lookup m.master_onoff call.valid call.stack m.db;
  master_onoff = m.master_onoff;
  forward_timeout = set.forward_timeout;
  reactivate_interval = set.reactivate_interval;
  max_sockets = set.max_sockets;
}

-- The message that waits at `isock`.
unfoldable pub take_request : RequestCall → Option (List ℕ) → ℕ → World → Option World
unfolding udp_handle_request
take_request call got from w =
    if w.isock_set
    then elim (udp_handle_request call w.asking.state got from) [
      | none ↦ none
      | some (s, q) ↦
          some (record w { asking = record w.asking { state = s }; phase = Phase.upkeep })
    ]
    else some (record w { phase = Phase.upkeep })

-- The maintenance at the end of the body. `query_timeout` always gives a result.
unfoldable pub maintain : Options → Qsort → ℕ → World → Option World
unfolding cache_expire query_timeout query_stats
maintain opts qsort now w =
    let s = w.asking.state in
    elim (query_timeout s.queries now) [
      | none ↦ none
      | some queries ↦
          let s' = record s { queries = queries; cache = cache_expire qsort s.cache now } in
          let (s'', last_stats) =
            query_stats opts.stats_interval opts.stats_reset now w.last_stats s' in
          some (record w {
            asking = record w.asking { state = s'' };
            last_stats = last_stats;
            phase = Phase.waiting;
          })
    ]

-- One piece of the loop; `none` where the event is not for the phase, or the program fails in it. In
-- `query_at` the event only says that the loop goes on.
unfoldable pub step : Options → Event → World → Option World
unfolding check_servers after_sleep try_look with_options take_request maintain
step opts (Event.slept woken now calls) w = elim w.phase [
  | Phase.waiting ↦ some (after_sleep woken (check_servers opts.settings now calls w))
  | Phase.query_at k ↦ none
  | Phase.socket_at k i ↦ none
  | Phase.requests ↦ none
  | Phase.upkeep ↦ none
]
step opts (Event.looked call got) w = elim w.phase [
  | Phase.waiting ↦ none
  | Phase.query_at k ↦ elim (get_elem? w.asking.state.queries.qlist k) [
    | none ↦ some (record w { phase = Phase.requests })
    | some q ↦ some (record w { phase = Phase.socket_at k 0 })
  ]
  | Phase.socket_at k i ↦ try_look k i call got w
  | Phase.requests ↦ none
  | Phase.upkeep ↦ none
]
step opts (Event.asked call got from) w = elim w.phase [
  | Phase.waiting ↦ none
  | Phase.query_at k ↦ none
  | Phase.socket_at k i ↦ none
  | Phase.requests ↦ take_request (with_options opts.settings w.master call) got from w
  | Phase.upkeep ↦ none
]
step opts (Event.kept_up qsort now) w = elim w.phase [
  | Phase.waiting ↦ none
  | Phase.query_at k ↦ none
  | Phase.socket_at k i ↦ none
  | Phase.requests ↦ none
  | Phase.upkeep ↦ maintain opts qsort now w
]

-- A run of the loop over the events that come.
unfoldable pub run : Options → List Event → World → Option World
unfolding step
run opts [] w = some w
run opts (e ∷ l) w = elim (step opts e w) [ none ↦ none | some w' ↦ run opts l w' ]
