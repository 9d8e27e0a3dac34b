-- ===== src/Udp/Silent.antt =====
-- dnrd-2.20.3/src/relay.c and udp.c: what becomes of a query while no server is active.
use dnrd.Prelude.{
  ℕ, ◌+◌, Bool, true, false, ◌≡◌, refl, ◌∙◌, inl, inr, List, [], ◌∷◌, Option, none, some, arith,
  ltb, ◌==◌, not, map, length, Bool-cases, Option-cases, All,
}
use dnrd.Prelude.Int.{ℤ}
use dnrd.Server.{Srv, Inf}
use dnrd.Server.Active.{first_of}
use dnrd.Query.{Query, Queries, Outside, query_create, link_query, query_add, query_delete}
use dnrd.Udp.{State, set_query}
use dnrd.Udp.Answers.{query_delete-sent}
use dnrd.Udp.Send.{Walked, try_send, note_server, walk, is_used, send2current}
use dnrd.Udp.Request.{RequestCall, matched_of, is_dontknow, send_query, server_for, relay_query}
use dnrd.Relay.{Outcome, current_of, forward_query}
use dnrd.Relay.Choice.{idle, forward_query-head}

try_send-idle :
    (reactivate : Bool) (now : ℕ) (results : List Bool) (srv : ℕ → Srv) (i : Inf)
    → try_send reactivate now results srv (idle i)
      ≡ some (record { srv = srv; inf = idle i; results = results })
unfolding try_send
try_send-idle reactivate now [] srv i = refl
try_send-idle reactivate now (b ∷ results) srv i = refl

walk-idle_next :
    (used : List ℕ → Bool) (head : Option ℕ) (reactivate : Bool) (now c : ℕ) (results : List Bool)
    (i : Inf) (l : List Inf) (srv : ℕ → Srv) (q : Query) (w : Walked)
    → ltb c 3 ≡ true
    → used i.inf ≡ true
    → q.is_dummy ≡ false
    → walk used head reactivate now (c + 1) results l srv (note_server q c none) ≡ some w
    → walk used head reactivate now c results (idle i ∷ l) srv q
      ≡ some (record w { infs = idle i ∷ w.infs })
unfolding walk
walk-idle_next used head reactivate now c results i l srv q w o u d e =
    rw (o, walk, u, try_send-idle reactivate now results srv i, d) (rw e refl)

-- Over interfaces without a current server the loop ends, and no server's node changes.
walk-idle :
    (used : List ℕ → Bool) (head : Option ℕ) (reactivate : Bool) (now c : ℕ) (results : List Bool)
    (l : List Inf) (srv : ℕ → Srv) (q : Query)
    → (w : Walked) × (walk used head reactivate now c results (map idle l) srv q ≡ some w)
      × (w.srv ≡ srv)
unfolding walk
walk-idle used head reactivate now c results [] srv q = (_, refl, refl)
walk-idle used head reactivate now c results (i ∷ l) srv q = elim (Bool-cases (ltb c 3)) [
  | inr o ↦ rw (o, walk) (_, refl, refl)
  | inl o ↦ elim (Bool-cases (used i.inf)) [
    | inr u ↦
        let (w, e, same) = walk-idle used head reactivate now c results l srv q in
        (record w { infs = idle i ∷ w.infs }, rw (o, walk, u, e) refl, same)
    | inl u ↦
        let sent = try_send-idle reactivate now results srv i in
        elim (Bool-cases q.is_dummy) [
          | inl d ↦ rw (o, walk, u, sent, d) (_, refl, refl)
          | inr d ↦
              let (w, e, same) =
                walk-idle used head reactivate now (c + 1) results l srv (note_server q c none) in
              (
                record w { infs = idle i ∷ w.infs },
                walk-idle_next used head reactivate now c results i (map idle l) srv q w o u d e,
                same,
              )
        ]
  ]
]

send_query-idle :
    (call : RequestCall) (s : State) (l : List Inf) (q : ℕ) (msg : List ℕ)
    → s.inf_list ≡ map idle l
    → (s' : State) × (returned : Option ℕ) × (send_query call s q msg ≡ some (s', returned))
      × (s'.srv ≡ s.srv)
      × (s'.queries.sent ≡ s.queries.sent)
unfolding send_query send2current set_query
send_query-idle call s l q msg idle_now =
    let (w, e, same) =
      walk-idle (is_used (matched_of call msg) call.defaults) s.head_current
        (not (call.reactivate_interval == 0)) call.now 0 call.results l s.srv (s.queries.cell q) in
    let r : ℕ = elim w.at [ some a ↦ length msg | none ↦ 0 ] in
    let walked = set_query (record s { inf_list = w.infs; srv = w.srv }) q w.q in
    elim (Bool-cases (ltb 0 r)) [
      | inl o ↦ (walked, some q, rw (idle_now, send_query, send2current, e, o) refl, same, refl)
      | inr o ↦ elim (Bool-cases (is_dontknow call msg)) [
        | inl d ↦ (
          record walked { queries = query_delete walked.queries q },
          none,
          rw (idle_now, send_query, send2current, e, o, d) refl,
          same,
          query_delete-sent walked.queries q,
        )
        | inr d ↦
            (walked, some q, rw (idle_now, send_query, send2current, e, o, d) refl, same, refl)
      ]
    ]

query_add-sent :
    (s : Queries) (out : Outside) (max_sockets : ℤ) (ttl srv client now : ℕ) (dummy : Bool)
    (msg : List ℕ)
    → (query_add s out max_sockets ttl dummy srv client msg now).0.sent ≡ s.sent
unfolding query_add query_create link_query
query_add-sent s out max_sockets ttl srv client now dummy msg = ground arith

relay_query-idle :
    (call : RequestCall) (s : State) (l : List Inf) (h from : ℕ) (place : Option ℕ) (msg : List ℕ)
    → s.inf_list ≡ map idle l
    → current_of s place ≡ some h
    → (s' : State) × (returned : Option ℕ) × (relay_query call s from place msg
        ≡ some (s', returned))
      × (s'.srv ≡ s.srv)
      × (s'.queries.sent ≡ s.queries.sent)
unfolding relay_query server_for
relay_query-idle call s l h from place msg idle_now by =
    let added =
      query_add s.queries call.outside call.max_sockets call.forward_timeout false h from msg
        call.now in
    let sent =
      query_add-sent s.queries call.outside call.max_sockets call.forward_timeout h from call.now
        false msg in
    elim (Option-cases added.2) [
      | inl f ↦ (record s { queries = added.0 }, none, rw (by, relay_query, f) refl, refl, sent)
      | inr (q, f) ↦
          let (s', returned, e, same, quiet) =
            send_query-idle call (record s { queries = added.0 }) l q added.1 idle_now in
          (s', returned, rw (by, relay_query, f) e, same, quiet ∙ sent)
    ]

-- While no server is active, and the head's `current` is the node that `main` put there, to which
-- nothing was sent, a query that neither the master nor the cache answers goes on by the head: no
-- server is asked, and the client gets nothing.
pub query_unanswered :
    (call : RequestCall) (s : State) (i : Inf) (l : List Inf) (h from : ℕ) (msg : List ℕ)
    → s.inf_list ≡ i ∷ l
    → All (λ j. first_of s.srv j.srvlist ≡ none) s.inf_list
    → s.head_current ≡ some h
    → (s.srv h).send_time ≡ 0
    → let (s0, outcome) =
        forward_query call.forward_timeout call.reactivate_interval call.now s msg in
      (outcome ≡ Outcome.forward none msg)
      × ((s' : State) × (returned : Option ℕ) × (relay_query call s0 from none msg
            ≡ some (s', returned))
          × (s'.srv ≡ s.srv)
          × (s'.queries.sent ≡ s.queries.sent))
unfolding current_of
query_unanswered call s i l h from msg there none_active head unsent =
    let s0 : State = record s { inf_list = map idle s.inf_list } in
    rw
      (forward_query-head call.forward_timeout call.reactivate_interval call.now h s i l msg there
        none_active head unsent)
      (refl, relay_query-idle call s0 s.inf_list h from none msg refl head)
