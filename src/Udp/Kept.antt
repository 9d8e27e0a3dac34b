-- ===== src/Udp/Kept.antt =====
-- dnrd-2.20.3/src/udp.c, relay.c and query.c: handling a request and asking the inactive servers
-- keep the ids of the queries.
use mathlib.Core.List.{Mem}
use dnrd.Prelude.{
  ℕ, ◌+◌, true, false, ◌≡◌, refl, List, [], ◌∷◌, Option, none, some, arith, length, Bool-cases,
  Option-cases, inl, inr, take, ltb, not, ◌==◌, if◌then◌else◌,
}
use dnrd.Dns.Check.{check_query}
use dnrd.Query.{Query, Queries, query_add, query_delete}
use dnrd.Query.Invariant.{IsKept, query_delete-IsKept}
use dnrd.Query.Kept.{IsKept-same, CanAdd, query_add_keeps, query_add-Mem}
use dnrd.Cache.{cache_lookup}
use dnrd.Udp.Send.{send2current}
use dnrd.Udp.Send.Count.{send2current-my_qid}
use dnrd.Udp.{State, set_query}
use dnrd.Server.{Inf}
use dnrd.Udp.Dummy.{
  Settings, DummyCall, Asking, set_ttl, udp_send_dummy, mark_tried, retry_srv, retry_srvlist,
  retry_infs, reactivate_servers, is_due,
}
use dnrd.Udp.Request.{
  matched_of, RequestCall, is_dontknow, send_query, server_for, relay_query, answer_now,
  udp_handle_request,
}
use dnrd.Relay.{
  Outcome, Looked, pass, answer, error, choose, current_of, is_timed_out, head_at_end, forward_head,
  forward_query, handle_query,
}

forward_head_queries :
    (ft ri now : ℕ) (s : State) (msg : List ℕ)
    → (forward_head ft ri now s msg).0.queries ≡ s.queries
unfolding forward_head
forward_head_queries ft ri now s msg = elim (Option-cases (head_at_end s)) [
  | inl e ↦ rw (e, forward_head) refl
  | inr (h, e) ↦ elim (Bool-cases (is_timed_out ft ri now (s.srv h))) [
    | inl t ↦ rw (e, forward_head, t) refl
    | inr t ↦ rw (e, forward_head, t) refl
  ]
]

forward_query_queries :
    (ft ri now : ℕ) (s : State) (msg : List ℕ)
    → (forward_query ft ri now s msg).0.queries ≡ s.queries
unfolding forward_query
forward_query_queries ft ri now s msg = elim (Option-cases (choose s.srv s.inf_list).1) [
  | inl e ↦
      rw (e, forward_query)
        (forward_head_queries ft ri now (record s { inf_list = (choose s.srv s.inf_list).0 }) msg)
  | inr (n, e) ↦ rw (e, forward_query) refl
]

handle_query_queries :
    (call : RequestCall) (s : State) (msg : List ℕ)
    → (handle_query call.master_lookup call.valid call.stack call.ignore call.forward_timeout
        call.reactivate_interval call.now s msg).0.queries
      ≡ s.queries
unfolding handle_query
handle_query_queries call s msg = go (call.master_lookup msg) refl
  where
    go :
        (o : Looked)
        → call.master_lookup msg ≡ o
        → (handle_query call.master_lookup call.valid call.stack call.ignore call.forward_timeout
            call.reactivate_interval call.now s msg).0.queries
          ≡ s.queries
    go pass e =
        let r =
          cache_lookup call.valid call.stack call.ignore (λ a. (s.srv a).inactive) s.cache msg
            call.now in
        rw (e, handle_query)
          (elim (Bool-cases (ltb 0 r.len)) [
            | inl o ↦ rw o refl
            | inr o ↦ rw o (
                forward_query_queries call.forward_timeout call.reactivate_interval call.now
                  (record s { cache = r.cache }) (take (length msg) r.packet))
          ])
    go (answer m) e = rw (e, handle_query) refl
    go error e = rw (e, handle_query) refl

set_query-IsKept :
    (s : State) (q : ℕ) (x : Query)
    → x.my_qid ≡ (s.queries.cell q).my_qid
    → IsKept s.queries
    → IsKept (set_query s q x).queries
unfolding set_query
set_query-IsKept s q x e k = IsKept-same s.queries _ refl refl (λ b. ground (arith, e)) k

-- The states of equal results.
states :
    {x y : State} {a b : Option ℕ}
    → ◌≡◌ {A = Option (State × Option ℕ)} (some (x, a)) (some (y, b))
    → x.queries ≡ y.queries
states {x} {y} e = ground (arith, e)

send_query-IsKept :
    (call : RequestCall) (s s' : State) (q : ℕ) (msg : List ℕ) (returned : Option ℕ)
    → IsKept s.queries
    → Mem q s.queries.qlist
    → send_query call s q msg ≡ some (s', returned)
    → IsKept s'.queries
unfolding send_query
send_query-IsKept call s s' q msg returned k m e =
    elim (Option-cases (
      send2current (matched_of call msg) call.defaults s.head_current
        (not (call.reactivate_interval == 0)) call.now call.results s.inf_list s.srv
        (s.queries.cell q) (length msg))) [
          | inl o ↦ absurd (ground (arith, rw (o, send_query) at e))
          | inr ((w, r), o) ↦
              let same =
                send2current-my_qid (matched_of call msg) call.defaults s.head_current
                  (not (call.reactivate_interval == 0)) call.now (length msg) r call.results
                  s.inf_list s.srv (s.queries.cell q) w o in
              let walked : State = set_query (record s { inf_list = w.infs; srv = w.srv }) q w.q in
              let kept : IsKept walked.queries =
                set_query-IsKept (record s { inf_list = w.infs; srv = w.srv }) q w.q same k in
              let gone = query_delete-IsKept walked.queries q kept (unfold set_query in m) in
              let left : ◌≡◌ {A = Option (State × Option ℕ)}
                  (if ltb 0 r
                    then some (walked, some q)
                    else if is_dontknow call msg
                    then some (record walked { queries = query_delete walked.queries q }, none)
                    else some (walked, some q))
                  (some (s', returned)) =
                rw (o, send_query) at e in
              elim (Bool-cases (ltb 0 r)) [
                | inl c ↦ rw (← states (rw c at left)) kept
                | inr c ↦ elim (Bool-cases (is_dontknow call msg)) [
                  | inl d ↦ rw (← states (rw (c, d) at left)) gone
                  | inr d ↦ rw (← states (rw (c, d) at left)) kept
                ]
              ]
        ]

relay_query-IsKept :
    (call : RequestCall) (s s' : State) (from : ℕ) (place : Option ℕ) (msg : List ℕ)
    (returned : Option ℕ)
    → IsKept s.queries
    → CanAdd s.queries call.outside
    → relay_query call s from place msg ≡ some (s', returned)
    → IsKept s'.queries
unfolding relay_query
relay_query-IsKept call s s' from place msg returned k can e =
    elim (Option-cases (server_for s.queries msg (current_of s place))) [
      | inl o ↦ absurd (ground (arith, rw (o, relay_query) at e))
      | inr (srv, o) ↦
          let added =
            query_add s.queries call.outside call.max_sockets call.forward_timeout false srv from
              msg call.now in
          let k' =
            query_add_keeps s.queries call.outside call.max_sockets call.forward_timeout srv from
              call.now false msg k can in
          let s0 : State = record s { queries = added.0 } in
          elim (Option-cases added.2) [
            | inl f ↦ rw (← states (rw (o, relay_query, f) at e)) k'
            | inr (q, f) ↦
                send_query-IsKept call s0 s' q added.1 returned k'
                  (query_add-Mem s.queries call.outside call.max_sockets call.forward_timeout srv
                    from call.now q false msg f)
                  (rw (o, relay_query, f) at e)
          ]
    ]

handled-IsKept :
    (call : RequestCall) (s s' : State) (from : ℕ) (o : Outcome) (returned : Option ℕ)
    → IsKept s.queries
    → CanAdd s.queries call.outside
    → elim o as (λ o. Option (State × Option ℕ)) [
      | Outcome.bogus ↦ some (s, none)
      | Outcome.reply m ↦ some (answer_now s from m, none)
      | Outcome.forward place m ↦ relay_query call s from place m
    ]
      ≡ some (s', returned)
    → IsKept s'.queries
unfolding answer_now
handled-IsKept call s s' from Outcome.bogus returned k can e = rw (← states e) k
handled-IsKept call s s' from (Outcome.reply m) returned k can e =
    rw (← states e) (record { pool_ok = k.pool_ok; ids = k.ids })
handled-IsKept call s s' from (Outcome.forward place m) returned k can e =
    relay_query-IsKept call s s' from place m returned k can e

-- Handling a client's message keeps each id held by one waiting query or free.
pub udp_handle_request-IsKept :
    (call : RequestCall) (s s' : State) (got : Option (List ℕ)) (from : ℕ) (returned : Option ℕ)
    → IsKept s.queries
    → CanAdd s.queries call.outside
    → udp_handle_request call s got from ≡ some (s', returned)
    → IsKept s'.queries
unfolding udp_handle_request answer_now
udp_handle_request-IsKept call s s' none from returned k can e = rw (← states e) k
udp_handle_request-IsKept call s s' (some msg) from returned k can e =
    elim (Bool-cases (check_query msg)) [
      | inr o ↦ rw (← states (rw (o, udp_handle_request) at e)) k
      | inl o ↦
          let (s0, outcome) =
            handle_query call.master_lookup call.valid call.stack call.ignore call.forward_timeout
              call.reactivate_interval call.now s msg in
          let same : s0.queries ≡ s.queries = handle_query_queries call s msg in
          handled-IsKept call s0 s' from outcome returned (rw same k) (rw same can)
            (rw (o, udp_handle_request) at e)
    ]

set_ttl-IsKept : (s : Queries) (q ttl : ℕ) → IsKept s → IsKept (set_ttl s q ttl)
unfolding set_ttl
set_ttl-IsKept s q ttl k = IsKept-same s _ refl refl (λ b. ground arith) k

udp_send_dummy-IsKept :
    (set : Settings) (now : ℕ) (call : DummyCall) (w : Asking) (a : ℕ)
    → IsKept w.state.queries
    → CanAdd w.state.queries call.outside
    → IsKept (udp_send_dummy set now call w a).state.queries
unfolding udp_send_dummy
udp_send_dummy-IsKept set now call w a k can =
    let added =
      query_add w.state.queries call.outside set.max_sockets set.forward_timeout true a call.srcaddr
        w.dnsbuf now in
    let k' =
      query_add_keeps w.state.queries call.outside set.max_sockets set.forward_timeout a
        call.srcaddr now true w.dnsbuf k can in
    elim (Option-cases added.2) [
      | inl e ↦ rw (e, udp_send_dummy) k'
      | inr (q, e) ↦ rw (e, udp_send_dummy) (set_ttl-IsKept added.0 q set.reactivate_interval k')
    ]

retry_srv-IsKept :
    (set : Settings) (delay now : ℕ) (call : DummyCall) (a : ℕ) (w : Asking)
    → IsKept w.state.queries
    → CanAdd w.state.queries call.outside
    → IsKept (retry_srv set delay now call a w).state.queries
unfolding retry_srv mark_tried
retry_srv-IsKept set delay now call a w k can =
    elim (Bool-cases (is_due delay now (w.state.srv a))) [
      | inl e ↦ rw (e, retry_srv) (udp_send_dummy-IsKept set now call (mark_tried w a now) a k can)
      | inr e ↦ rw (e, retry_srv) k
    ]

-- At each server that the loops reach, a new query could be made.
abbrev pub CanAsk : Settings → ℕ → ℕ → (ℕ → DummyCall) → List ℕ → Asking → Type 0
CanAsk set delay now calls [] w = Unit
CanAsk set delay now calls (a ∷ l) w =
    CanAdd w.state.queries (calls a).outside
    × CanAsk set delay now calls l (retry_srv set delay now (calls a) a w)

abbrev pub CanAskAll : Settings → ℕ → ℕ → (ℕ → DummyCall) → List Inf → Asking → Type 0
CanAskAll set delay now calls [] w = Unit
CanAskAll set delay now calls (i ∷ l) w =
    CanAsk set delay now calls i.srvlist w
    × CanAskAll set delay now calls l (retry_srvlist set delay now calls i.srvlist w)

retry_srvlist-IsKept :
    (set : Settings) (delay now : ℕ) (calls : ℕ → DummyCall) (l : List ℕ) (w : Asking)
    → IsKept w.state.queries
    → CanAsk set delay now calls l w
    → IsKept (retry_srvlist set delay now calls l w).state.queries
unfolding retry_srvlist
retry_srvlist-IsKept set delay now calls [] w k can = k
retry_srvlist-IsKept set delay now calls (a ∷ l) w k can =
    retry_srvlist-IsKept set delay now calls l (retry_srv set delay now (calls a) a w)
      (retry_srv-IsKept set delay now (calls a) a w k can.0) can.1

retry_infs-IsKept :
    (set : Settings) (delay now : ℕ) (calls : ℕ → DummyCall) (l : List Inf) (w : Asking)
    → IsKept w.state.queries
    → CanAskAll set delay now calls l w
    → IsKept (retry_infs set delay now calls l w).state.queries
unfolding retry_infs
retry_infs-IsKept set delay now calls [] w k can = k
retry_infs-IsKept set delay now calls (i ∷ l) w k can =
    retry_infs-IsKept set delay now calls l (retry_srvlist set delay now calls i.srvlist w)
      (retry_srvlist-IsKept set delay now calls i.srvlist w k can.0) can.1

-- Asking the inactive servers keeps each id held by one waiting query or free.
pub reactivate_servers-IsKept :
    (set : Settings) (interval now last_try : ℕ) (calls : ℕ → DummyCall) (w : Asking)
    → IsKept w.state.queries
    → CanAskAll set interval now calls w.state.inf_list w
    → IsKept (reactivate_servers set interval now last_try calls w).0.state.queries
unfolding reactivate_servers
reactivate_servers-IsKept set interval now last_try calls w k can =
    let started = if last_try == 0 then now else last_try in
    elim (Bool-cases (ltb now (started + interval))) [
      | inl e ↦ rw e k
      | inr e ↦ rw e (retry_infs-IsKept set interval now calls w.state.inf_list w k can)
    ]
