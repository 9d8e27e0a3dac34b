-- ===== src/Udp/Headed.antt =====
-- dnrd-2.20.3/src/relay.c and udp.c: a client's message leaves the `current` of the head of inf_list
-- as main has set it.
use dnrd.Prelude.{
  ℕ, false, ◌≡◌, refl, List, Option, none, some, ltb, ◌==◌, length, take, not, Bool-cases,
  Option-cases, inl, inr,
}
use dnrd.Dns.Check.{check_query}
use dnrd.Query.{Queries, query_add, query_delete}
use dnrd.Cache.{cache_lookup}
use dnrd.Udp.{State, set_query}
use dnrd.Udp.Send.{send2current}
use dnrd.Udp.Send.Apart.{send2current-Untouched}
use dnrd.Udp.Request.{
  RequestCall, matched_of, is_dontknow, send_query, server_for, relay_query, answer_now,
  udp_handle_request,
}
use dnrd.Relay.{Looked, Outcome, current_of, handle_query}
use dnrd.Relay.Head.{IsHeaded, headed, forward_query-IsHeaded}

-- The result of a handler, where there is one.
abbrev pub Result : ℕ → Option (State × Option ℕ) → Type 0
Result h none = Unit
Result h (some x) = IsHeaded h x.0

-- The interfaces and the head are as they were.
same_infs :
    (h : ℕ) (s : State) (queries : Queries)
    → IsHeaded h s
    → IsHeaded h (record s { queries = queries })
same_infs h s queries k = headed h s _ k refl k.untouched

handle_query-IsHeaded :
    (h : ℕ) (call : RequestCall) (s : State) (msg : List ℕ)
    → IsHeaded h s
    → IsHeaded h
        (handle_query call.master_lookup call.valid call.stack call.ignore call.forward_timeout
          call.reactivate_interval call.now s msg).0
unfolding handle_query
handle_query-IsHeaded h call s msg k = go (call.master_lookup msg) refl
  where
    go :
        (o : Looked)
        → call.master_lookup msg ≡ o
        → IsHeaded h
            (handle_query call.master_lookup call.valid call.stack call.ignore call.forward_timeout
              call.reactivate_interval call.now s msg).0
    go (Looked.answer m) e = rw (e, handle_query) k
    go Looked.error e = rw (e, handle_query) k
    go Looked.pass e =
        let r =
          cache_lookup call.valid call.stack call.ignore (λ a. (s.srv a).inactive) s.cache msg
            call.now in
        let s' : State = record s { cache = r.cache } in
        let k' : IsHeaded h s' = headed h s s' k refl k.untouched in
        elim (Bool-cases (ltb 0 r.len)) [
          | inl c ↦ rw (e, handle_query, c) k'
          | inr c ↦
              rw (e, handle_query, c)
                (forward_query-IsHeaded call.forward_timeout call.reactivate_interval call.now h s'
                  (take (length msg) r.packet) k')
        ]

send_query-IsHeaded :
    (h : ℕ) (call : RequestCall) (s : State) (q : ℕ) (msg : List ℕ)
    → IsHeaded h s
    → Result h (send_query call s q msg)
unfolding send_query set_query
send_query-IsHeaded h call s q msg k =
    elim (Option-cases (
      send2current (matched_of call msg) call.defaults s.head_current
        (not (call.reactivate_interval == 0)) call.now call.results s.inf_list s.srv
        (s.queries.cell q) (length msg))) [
          | inl o ↦ rw (o, send_query) tt
          | inr ((w, r), o) ↦
              let walked : State = set_query (record s { inf_list = w.infs; srv = w.srv }) q w.q in
              let k' : IsHeaded h walked = headed h s walked k refl (
                send2current-Untouched (matched_of call msg) call.defaults s.head_current
                  (not (call.reactivate_interval == 0)) call.now (length msg) r h
                  (length s.inf_list) call.results s.inf_list s.srv (s.queries.cell q) w k.untouched
                  o) in
              elim (Bool-cases (ltb 0 r)) [
                | inl c ↦ rw (o, send_query, c) k'
                | inr c ↦ elim (Bool-cases (is_dontknow call msg)) [
                  | inl d ↦
                      rw (o, send_query, c, d)
                        (same_infs h walked (query_delete walked.queries q) k')
                  | inr d ↦ rw (o, send_query, c, d) k'
                ]
              ]
        ]

relay_query-IsHeaded :
    (h : ℕ) (call : RequestCall) (s : State) (from : ℕ) (place : Option ℕ) (msg : List ℕ)
    → IsHeaded h s
    → Result h (relay_query call s from place msg)
unfolding relay_query
relay_query-IsHeaded h call s from place msg k =
    elim (Option-cases (server_for s.queries msg (current_of s place))) [
      | inl o ↦ rw (o, relay_query) tt
      | inr (srv, o) ↦
          let added =
            query_add s.queries call.outside call.max_sockets call.forward_timeout false srv from
              msg call.now in
          let k' = same_infs h s added.0 k in
          elim (Option-cases added.2) [
            | inl f ↦ rw (o, relay_query, f) k'
            | inr (q, f) ↦
                rw (o, relay_query, f)
                  (send_query-IsHeaded h call (record s { queries = added.0 }) q added.1 k')
          ]
    ]

-- What becomes of a query leaves it so.
abbrev handled : RequestCall → State → ℕ → Outcome → Option (State × Option ℕ)
handled call s from o = elim o [
  | Outcome.bogus ↦ some (s, none)
  | Outcome.reply m ↦ some (answer_now s from m, none)
  | Outcome.forward place m ↦ relay_query call s from place m
]

handled-IsHeaded :
    (h : ℕ) (call : RequestCall) (s : State) (from : ℕ) (o : Outcome)
    → IsHeaded h s
    → Result h (handled call s from o)
unfolding answer_now
handled-IsHeaded h call s from Outcome.bogus k = k
handled-IsHeaded h call s from (Outcome.reply m) k = headed h s _ k refl k.untouched
handled-IsHeaded h call s from (Outcome.forward place m) k =
    relay_query-IsHeaded h call s from place m k

-- Handling a client's message leaves it so.
pub udp_handle_request-IsHeaded :
    (h : ℕ) (call : RequestCall) (s : State) (got : Option (List ℕ)) (from : ℕ)
    → IsHeaded h s
    → Result h (udp_handle_request call s got from)
unfolding udp_handle_request
udp_handle_request-IsHeaded h call s none from k = k
udp_handle_request-IsHeaded h call s (some msg) from k = elim (Bool-cases (check_query msg)) [
  | inr o ↦ rw (o, udp_handle_request) k
  | inl o ↦
      let (s0, outcome) =
        handle_query call.master_lookup call.valid call.stack call.ignore call.forward_timeout
          call.reactivate_interval call.now s msg in
      rw (o, udp_handle_request)
        (handled-IsHeaded h call s0 from outcome (handle_query-IsHeaded h call s msg k))
]
