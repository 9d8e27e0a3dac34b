-- ===== src/Udp/Request.antt =====
-- dnrd-2.20.3/src/udp.c: udp_handle_request, the handler of a client's message, with the part of
-- master_dontknow (master.c) that decides whether the query is given up.
use dnrd.Prelude.{
  ℕ, ◌≤◌, ◌<◌, Bool, true, false, ◌≡◌, List, [], ◌∷◌, ◌++◌, Option, none, some, arith, ltb, ◌==◌,
  if◌then◌else◌, length, not, ◌&&◌, Option-cases, inl, inr,
}
use dnrd.Udp.Send.Count.{send2current-head}
use dnrd.Prelude.Int.{ℤ, pos}
use dnrd.Dns.Check.{check_query}
use dnrd.Dns.Flags.{get_opcode}
use dnrd.Dns.Packet.{Rr, parse_query}
use dnrd.Cache.{dns_class_inet}
use dnrd.Query.{Queries, Outside, raw_id, find_query, query_add, query_delete}
use dnrd.Udp.{State, set_query}
use dnrd.Udp.Send.{send2current}
use dnrd.Udp.Special.{SpecialHost, matched_interfaces}
use dnrd.Relay.{Outcome, Looked, current_of, handle_query}

-- What the call meets: the options, the variables of other files, and what the socket calls give.
-- `stack` is what a local `query` holds before it is filled, and
-- `host_before` what `query_host` does.
pub record RequestCall : Type 0 where
  pub master_lookup : List ℕ → Looked
  pub master_onoff : Bool
  pub valid : ℕ → Bool
  pub stack : Rr
  pub ignore : Bool
  pub forward_timeout : ℕ
  pub reactivate_interval : ℕ
  pub max_sockets : ℤ
  pub sp_hosts : List SpecialHost
  pub host_before : List ℕ
  pub defaults : List (List ℕ)
  pub outside : Outside
  pub results : List Bool
  pub now : ℕ

-- Whether `master_dontknow` assembles a packet, whose length is then positive.
unfoldable pub is_dontknow : RequestCall → List ℕ → Bool
is_dontknow call msg = elim (parse_query call.valid call.stack msg) [
  | none ↦ false
  | some query ↦ call.master_onoff && (query.class == dns_class_inet && get_opcode query.flags == 0)
]

-- The interfaces of the special hosts that match a message.
abbrev pub matched_of : RequestCall → List ℕ → List (List ℕ)
matched_of call msg = matched_interfaces call.valid call.sp_hosts call.host_before msg

-- The end of the handler: the query `q` goes out, and is given up where `send2current` returns 0
-- and the master is on.
unfoldable pub send_query : RequestCall → State → ℕ → List ℕ → Option (State × Option ℕ)
unfolding is_dontknow set_query
send_query call s q msg =
    elim (send2current (matched_of call msg) call.defaults s.head_current
      (not (call.reactivate_interval == 0)) call.now call.results s.inf_list s.srv
      (s.queries.cell q) (length msg)) [
        | none ↦ none
        | some (w, r) ↦
            let s' = set_query (record s { inf_list = w.infs; srv = w.srv }) q w.q in
            if ltb 0 r
            then some (s', some q)
            else if is_dontknow call msg
            then some (record s' { queries = query_delete s'.queries q }, none)
            else some (s', some q)
      ]

-- The server that `query_add` is given. `none` says that it is NULL and the `assert` of
-- `query_get_new` ends the program; a query that waits already needs no server (0 stands for it).
unfoldable pub server_for : Queries → List ℕ → Option ℕ → Option ℕ
server_for s msg (some srv) = some srv
server_for s msg none = elim (find_query (raw_id msg) s.cell s.qlist) [
  | none ↦ none
  | some q ↦ some 0
]

-- A query that goes to the interface at a place, or to the head.
unfoldable pub relay_query : RequestCall → State → ℕ → Option ℕ → List ℕ → Option (State × Option ℕ)
unfolding send_query current_of server_for
relay_query call s from place msg = elim (server_for s.queries msg (current_of s place)) [
  | none ↦ none
  | some srv ↦
      let (queries, msg', added) =
        query_add s.queries call.outside call.max_sockets call.forward_timeout false srv from msg
          call.now in
      let s' = record s { queries = queries } in
      elim added [ none ↦ some (s', none) | some q ↦ send_query call s' q msg' ]
]

-- The answer that goes to the client at once.
unfoldable pub answer_now : State → ℕ → List ℕ → State
answer_now s from msg = record s {
  queries = record s.queries { sent = s.queries.sent ++ (record { to = from; bytes = msg } ∷ []) };
}

-- `udp_handle_request`, on what `recvfrom` gives (`none` for an error) and the client's address: the
-- state, and the query that it returns. `none` says that the loop of sends runs on, or
-- that the `assert` fails.
unfoldable pub udp_handle_request :
    RequestCall → State → Option (List ℕ) → ℕ → Option (State × Option ℕ)
unfolding relay_query answer_now
udp_handle_request call s none from = some (s, none)
udp_handle_request call s (some msg) from = elim (check_query msg) [
  | false ↦ some (s, none)
  | true ↦
      let (s', outcome) =
        handle_query call.master_lookup call.valid call.stack call.ignore call.forward_timeout
          call.reactivate_interval call.now s msg in
      elim outcome [
        | Outcome.bogus ↦ some (s', none)
        | Outcome.reply m ↦ some (answer_now s' from m, none)
        | Outcome.forward place m ↦ relay_query call s' from place m
      ]
]

-- With at most three interfaces and a `current` of the head, as `main` leaves it, a query that is no
-- dummy stays in the list and is returned where the sends end, also when no server could be reached
-- and the master is on; nothing goes to a client.
pub send_query_stays :
    (call : RequestCall) (s s' : State) (q k h : ℕ) (returned : Option ℕ) (msg : List ℕ)
    → (s.queries.cell q).is_dummy ≡ false
    → (s.queries.cell q).serv_sent_cnt ≡ pos k
    → length s.inf_list ≤ 3
    → s.head_current ≡ some h
    → 0 < length msg
    → send_query call s q msg ≡ some (s', returned)
    → (returned ≡ some q)
      × (s'.queries.qlist ≡ s.queries.qlist)
      × (s'.queries.sent ≡ s.queries.sent)
unfolding send_query set_query
send_query_stays call s s' q k h returned msg real cnt few head long e =
    elim (Option-cases (
      send2current (matched_of call msg) call.defaults s.head_current
        (not (call.reactivate_interval == 0)) call.now call.results s.inf_list s.srv
        (s.queries.cell q) (length msg))) [
          | inl o ↦ absurd (ground (arith, rw (o, send_query) at e))
          | inr ((w, r), o) ↦
              let all_sent : r ≡ length msg = rw head at (
                send2current-head (matched_of call msg) call.defaults s.head_current
                  (not (call.reactivate_interval == 0)) call.now (length msg) r call.results
                  s.inf_list s.srv (s.queries.cell q) w k real cnt few o) in
              let some_sent : ltb 0 r ≡ true = ground (arith, all_sent, long) in
              let walked = set_query (record s { inf_list = w.infs; srv = w.srv }) q w.q in
              let stays : some (walked, some q) ≡ some (s', returned) =
                rw (o, send_query, some_sent) at e in
              ground (arith, stays)
        ]
