-- ===== src/Query.antt =====
-- dnrd-2.20.3/src/query.c and query.h: the list of the queries that wait for an answer. The list
-- from `qlist` to `qlist_tail` is the list of the addresses of its nodes behind the head, and
-- `cell` what stands at an address.
pub mod Add
pub mod Timeout
pub mod Invariant
pub mod Kept
use mathlib.Core.List.{erase}
use native.Mathlib.Decide.{ℕ_discrete}
use dnrd.Prelude.{
  ℕ, zero, suc, ◌+◌, ◌-◌, ◌*◌, ◌/◌, ◌%◌, ◌^◌, ◌≤◌, Bool, true, false, ◌&&◌, List, [], ◌∷◌, ◌++◌,
  Option, none, some, arith, leb, ltb, ◌==◌, if◌then◌else◌, length, get_or, drop, not,
}
use dnrd.Prelude.Int.{ℤ, pos, negsuc, ltb_ℤ, succ_ℤ, pred_ℤ}
use dnrd.Qid.{Pool, qid_pool_size, qid_init_pool, qid_get, qid_return}
use dnrd.Server.{update}

-- `query_t`. `sock_arr` holds the sockets that were opened: one for a dummy query, else three.
-- `fail_msg` is `cached_fail_msg`, which is empty while `fail_msg_len` is 0. `client` is the
-- client's address and port, as one number.
pub record Query : Type 0 where
  pub sock_arr : List ℕ
  pub srv : ℕ
  pub is_dummy : Bool
  pub my_qid : ℕ
  pub client_qid : ℕ
  pub client : ℕ
  pub serv_sent_cnt : ℤ
  pub fail_msg : List ℕ
  pub resp_sent : Bool
  pub client_time : ℕ
  pub client_count : ℕ
  pub ttl : ℕ
  pub srv_list : List (Option ℕ)

-- A datagram to a client, through `isock`.
pub record Datagram : Type 0 where
  pub to : ℕ
  pub bytes : List ℕ

-- The file's variables, the pool of ids, the descriptors in `fdmaster`, and what was sent to
-- clients, oldest first.
pub record Queries : Type 0 where
  pub qlist : List ℕ
  pub cell : ℕ → Query
  pub total_queries : ℕ
  pub total_timeouts : ℕ
  pub upstream_sockets : ℤ
  pub fdmaster : List ℕ
  pub pool : Pool
  pub sent : List Datagram

-- The numbers in the first two bytes of a message: as the machine (little-endian) reads and writes
-- them, and in network order.
abbrev pub raw_id : List ℕ → ℕ
raw_id msg = get_or msg 0 0 + 256 * get_or msg 1 0

abbrev pub set_raw_id : ℕ → List ℕ → List ℕ
set_raw_id id msg = (id % 256) ∷ (id / 256 % 256) ∷ drop 2 msg

abbrev pub set_net_id : ℕ → List ℕ → List ℕ
set_net_id id msg = (id / 256 % 256) ∷ (id % 256) ∷ drop 2 msg

-- `is_port_excluded`. Both ports are in the machine's order here; `htons` keeps the lower 16 bits
-- of the configured one.
unfoldable pub is_port_excluded : List ℕ → ℕ → Bool
is_port_excluded [] port = false
is_port_excluded (e ∷ exc_port) port =
    if port == e % 2 ^ 16 then true else is_port_excluded exc_port port

-- The loop that draws a source port: `draws` are the values of `myrand(65536 - 1026)`, and `none`
-- says that all of them gave an excluded port.
unfoldable pub draw_port : List ℕ → List ℕ → Option ℕ
unfolding is_port_excluded
draw_port exc_port [] = none
draw_port exc_port (d ∷ draws) =
    let rest = draw_port exc_port draws in
    if is_port_excluded exc_port (d + 1025) then rest else some (d + 1025)

-- The loop over the sockets of a new query, of `n` rounds: `sock` holds what each call of
-- `socket` returns. It leaves the sockets, or `none` after a failure, with the counter and
-- `fdmaster`.
unfoldable pub open_sockets :
    ℕ → List (Option ℕ) → List ℕ → ℤ → List ℕ → Option (List ℕ) × ℤ × List ℕ
open_sockets zero sock opened up fds = (some opened, up, fds)
open_sockets (suc n) [] opened up fds = (none, up, fds)
open_sockets (suc n) (none ∷ sock) opened up fds = (none, up, fds)
open_sockets (suc n) (some fd ∷ sock) opened up fds =
    open_sockets n sock (opened ++ (fd ∷ [])) (succ_ℤ up) (fd ∷ fds)

-- What the call meets outside: the results of `socket`, the address that `allocate` returns, and
-- the random number for `qid_get`.
pub record Outside : Type 0 where
  pub sock : List (Option ℕ)
  pub address : ℕ
  pub random : ℕ

-- `query_create`; `dummy` says that no interface was given, `ttl` is `forward_timeout`. It leaves
-- the new node's address, or `none` for NULL.
unfoldable pub query_create : Queries → Outside → ℤ → ℕ → Bool → ℕ → Queries × Option ℕ
unfolding open_sockets
query_create s out max_sockets ttl dummy srv =
    let (opened, up, fds) =
      open_sockets (if dummy then 1 else 3) out.sock [] s.upstream_sockets s.fdmaster in
    let (pool, id) = qid_get out.random s.pool in
    if not (ltb_ℤ s.upstream_sockets max_sockets) then (s, none) else elim opened [
      | none ↦ (record s { upstream_sockets = up; fdmaster = fds }, none)
      | some sockets ↦ (
        record s {
          upstream_sockets = up;
          fdmaster = fds;
          pool = pool;
          cell = update s.cell out.address (record {
            sock_arr = sockets;
            srv = srv;
            is_dummy = dummy;
            my_qid = id;
            client_qid = 0;
            client = 0;
            serv_sent_cnt = pos 0;
            fail_msg = [];
            resp_sent = false;
            client_time = 0;
            client_count = 0;
            ttl = ttl;
            srv_list = none ∷ none ∷ none ∷ [];
          });
        },
        some out.address,
      )
    ]

-- The loop that closes the sockets of a query.
unfoldable pub close_sockets : List ℕ → Queries → Queries
close_sockets [] s = s
close_sockets (fd ∷ l) s = close_sockets l (record s {
  fdmaster = erase ℕ_discrete s.fdmaster fd;
  upstream_sockets = pred_ℤ s.upstream_sockets;
})

unfoldable pub query_destroy : Queries → ℕ → Queries
unfolding close_sockets
query_destroy s q =
    let s' =
      close_sockets (s.cell q).sock_arr (record s { pool = qid_return s.pool (s.cell q).my_qid }) in
    record s' { total_queries = s'.total_queries + 1 }

-- The query in the list with the client's id.
unfoldable pub find_query : ℕ → (ℕ → Query) → List ℕ → Option ℕ
find_query id cell [] = none
find_query id cell (q ∷ l) = if (cell q).client_qid == id then some q else find_query id cell l

-- The end of `query_add`, on what `query_get_new` leaves: the new query takes the client's id, and
-- joins the list as its tail.
unfoldable pub link_query : ℕ → List ℕ → ℕ → Queries × Option ℕ → Queries × List ℕ × Option ℕ
link_query client msg now (s, none) = (s, msg, none)
link_query client msg now (s, some q) = (
  record s {
    qlist = s.qlist ++ (q ∷ []);
    cell = update s.cell q (record (s.cell q) {
      client_qid = raw_id msg;
      client = client;
      client_time = now;
      client_count = 1;
    });
  },
  set_net_id (s.cell q).my_qid msg,
  some q,
)

-- `query_add`: the message with its id rewritten, and the query, which is the list's node behind
-- the one that the C function returns. (`srv->newquery` is always NULL, so `query_get_new` is
-- `query_create`.)
unfoldable pub query_add :
    Queries → Outside → ℤ → ℕ → Bool → ℕ → ℕ → List ℕ → ℕ → Queries × List ℕ × Option ℕ
unfolding find_query query_create link_query
query_add s out max_sockets ttl dummy srv client msg now =
    elim (find_query (raw_id msg) s.cell s.qlist) [
      | some q ↦ (
        record s {
          cell =
              update s.cell q (record (s.cell q) {
                client_time = now;
                client_count = (s.cell q).client_count + 1;
              });
        },
        set_raw_id (s.cell q).my_qid msg,
        some q,
      )
      | none ↦ link_query client msg now (query_create s out max_sockets ttl dummy srv)
    ]

-- `query_delete_next`: the node `q` is unlinked and destroyed.
unfoldable pub query_delete : Queries → ℕ → Queries
unfolding query_destroy
query_delete s q = query_destroy (record s { qlist = erase ℕ_discrete s.qlist q }) q

abbrev pub query_count : Queries → ℕ
query_count s = length s.qlist

-- The variables after `query_init` and `qid_init_pool`, when `fdmaster` is empty.
unfoldable pub query_init : Queries
query_init = record {
  qlist = [];
  cell = λ q. record {
    sock_arr = [];
    srv = 0;
    is_dummy = false;
    my_qid = 0;
    client_qid = 0;
    client = 0;
    serv_sent_cnt = pos 0;
    fail_msg = [];
    resp_sent = false;
    client_time = 0;
    client_count = 0;
    ttl = 0;
    srv_list = [];
  };
  total_queries = 0;
  total_timeouts = 0;
  upstream_sockets = pos 0;
  fdmaster = [];
  pool = qid_init_pool qid_pool_size;
  sent = [];
}
