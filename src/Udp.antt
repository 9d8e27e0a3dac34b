-- ===== src/Udp.antt =====
-- dnrd-2.20.3/src/udp.c: the state that the handlers of UDP messages share, and the handler of a
-- server's reply. A message is the list of its bytes.
pub mod Answers
pub mod Rounds
pub mod Request
pub mod Dontknow
pub mod Apart
pub mod Headed
pub mod Ids
pub mod Dummy
pub mod Kept
pub mod Send
pub mod Silent
pub mod Special
use dnrd.Prelude.{
  ℕ, zero, suc, ◌+◌, ◌-◌, ◌*◌, ◌≤◌, ◌<◌, Bool, true, false, ◌&&◌, ◌||◌, List, [], ◌∷◌, ◌++◌, Option,
  none, some, arith, leb, ltb, ◌==◌, if◌then◌else◌, length, map, not,
}
use dnrd.Prelude.Int.{ℤ, pos, eqb_ℤ, pred_ℤ}
use dnrd.Text.{streq}
use dnrd.Dns.Check.{udp_maxsize, check_reply}
use dnrd.Dns.Packet.{Rr, check_replycode}
use dnrd.Cache.{Cache, cache_dnspacket}
use dnrd.Server.{Srv, Inf, update}
use dnrd.Query.{Query, Queries, Datagram, set_raw_id, query_delete}

-- The state of the handlers: the queries, the cache, the interfaces behind the head of
-- `inf_list`, the `current` of that head, and the servers' nodes. (The head has no servers; `main` sets its
-- `current` to the head of its empty list, a node that is no server and whose `inactive` is -1.)
pub record State : Type 0 where
  pub queries : Queries
  pub cache : Cache
  pub inf_list : List Inf
  pub head_current : Option ℕ
  pub srv : ℕ → Srv

-- What `recvmsg` gives for a reply: the message, or `none` for an error; the sender's address; and
-- what `get_interface_name` finds.
pub record Received : Type 0 where
  pub bytes : Option (List ℕ)
  pub from : ℕ
  pub inf_name : Option (List ℕ)

-- The server with an address, in an interface's list.
unfoldable pub search_srvlist : (ℕ → Srv) → ℕ → List ℕ → Option ℕ
search_srvlist srv from [] = none
search_srvlist srv from (a ∷ l) = if (srv a).addr == from then some a else search_srvlist srv from l

-- `search_server`: the next interface is tried where the list of a matching one lacks the address.
-- (There is an interface at least; the head of an empty list of servers has no sender's address.)
unfoldable pub search_server : (ℕ → Srv) → List Inf → ℕ → List ℕ → Option ℕ
unfolding search_srvlist
search_server srv [] from inf_name = none
search_server srv (i ∷ l) from inf_name =
    let rest = search_server srv l from inf_name in
    if streq i.inf inf_name
    then elim (search_srvlist srv from i.srvlist) [ some a ↦ some a | none ↦ rest ]
    else rest

-- A server that answers is active.
unfoldable pub revive : (ℕ → Srv) → Option ℕ → ℕ → Srv
revive srv none = srv
revive srv (some a) = update srv a (record (srv a) { inactive = 0; send_time = 0 })

-- `reply_recv`: the servers' nodes, and the message, `none` for an error. A message that is too
-- large has the length 0.
unfoldable pub reply_recv : State → Received → (ℕ → Srv) × Option (List ℕ)
unfolding search_server revive
reply_recv s got = elim got.bytes [
  | none ↦ (s.srv, none)
  | some msg ↦ if ltb udp_maxsize (length msg) then (s.srv, some []) else (
    elim got.inf_name [
      | none ↦ s.srv
      | some inf_name ↦ revive s.srv (search_server s.srv s.inf_list got.from inf_name)
    ],
    some msg,
  )
]

unfoldable pub set_query : State → ℕ → Query → State
set_query s q x = record s { queries = record s.queries { cell = update s.queries.cell q x } }

-- A reply that is no answer: one server less to wait for.
unfoldable pub drop_reply : State → ℕ → State
unfolding set_query
drop_reply s q =
    let x = s.queries.cell q in
    if eqb_ℤ x.serv_sent_cnt (pos 1)
    then record s { queries = query_delete s.queries q }
    else set_query s q (record x { serv_sent_cnt = pred_ℤ x.serv_sent_cnt })

-- The reply goes to the client.
unfoldable pub forward_reply : State → ℕ → List ℕ → State
unfolding set_query
forward_reply s q msg =
    let x = s.queries.cell q in
    let s' = set_query s q (record x { resp_sent = true }) in
    record s' {
      queries = record s'.queries {
        sent =
            s.queries.sent ++ (record { to = x.client; bytes = set_raw_id x.client_qid msg } ∷ []);
      };
    }

-- The first failure is kept. (The memory for it is there.)
unfoldable pub keep_failure : State → ℕ → List ℕ → State
unfolding set_query
keep_failure s q msg =
    let x = s.queries.cell q in
    if length x.fail_msg == 0 then set_query s q (record x { fail_msg = msg }) else s

-- What the local variables of `cache_dnspacket` need: which characters a name may have, what its
-- `query` holds before, the address for the new entry, and the time.
pub record CacheCall : Type 0 where
  pub valid : ℕ → Bool
  pub stack : Rr
  pub address : ℕ
  pub now : ℕ

-- The middle of `udp_handle_reply`.
unfoldable pub answer_client : State → ℕ → CacheCall → List ℕ → State
unfolding forward_reply keep_failure
answer_client s q call msg =
    let x = s.queries.cell q in
    if x.is_dummy || x.resp_sent
    then s
    else if check_replycode msg == 0 || eqb_ℤ x.serv_sent_cnt (pos 1)
    then forward_reply
        (record s {
          cache = cache_dnspacket call.valid call.stack s.cache msg x.srv call.address call.now;
        })
        q msg
    else keep_failure s q msg

-- The servers that the query went to are active, when the last of them has answered.
unfoldable pub revive_all : (ℕ → Srv) → List (Option ℕ) → ℕ → Srv
unfolding revive
revive_all srv [] = srv
revive_all srv (a ∷ l) = revive_all (revive srv a) l

-- The end of `udp_handle_reply`.
unfoldable pub finish_reply : State → ℕ → State
unfolding drop_reply revive_all
finish_reply s q =
    let x = s.queries.cell q in
    if eqb_ℤ x.serv_sent_cnt (pos 1)
    then drop_reply (record s { srv = revive_all s.srv x.srv_list }) q
    else drop_reply s q

-- `udp_handle_reply`, on the node `q` behind its argument.
unfoldable pub udp_handle_reply : State → ℕ → CacheCall → Received → State
unfolding reply_recv answer_client finish_reply
udp_handle_reply s q call got =
    let (srv, received) = reply_recv s got in
    let s' = record s { srv = srv } in
    elim received [
      | none ↦ drop_reply s' q
      | some msg ↦
          if check_reply msg then finish_reply (answer_client s' q call msg) q else drop_reply s' q
    ]
