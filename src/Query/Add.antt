-- ===== src/Query/Add.antt =====
-- dnrd-2.20.3/src/query.c: what query_add and the draw of a port give.
use dnrd.Prelude.{
  ℕ, ◌+◌, ◌-◌, ◌/◌, ◌%◌, drop, ◌≤◌, ◌<◌, Bool, false, ◌≡◌, ◌≢◌, refl, ◌∙◌, inl, inr, List, [], ◌∷◌,
  ◌++◌, none, some, arith, All, Bool-cases,
}
use dnrd.Prelude.Int.{ℤ}
use dnrd.Qid.{qid_get}
use dnrd.Query.{
  Query, Queries, Outside, raw_id, set_raw_id, set_net_id, is_port_excluded, draw_port,
  query_create, find_query, link_query, query_add,
}

-- The port that is drawn is none of the excluded ones, and lies from 1025 to 65534.
pub draw_port_allowed :
    (exc_port draws : List ℕ) (port : ℕ)
    → All (λ d. d < 65536 - 1026) draws
    → draw_port exc_port draws ≡ some port
    → (is_port_excluded exc_port port ≡ false) × (1025 ≤ port) × (port ≤ 65534)
unfolding draw_port
draw_port_allowed exc_port [] port h e = absurd (cc)
draw_port_allowed exc_port (d ∷ draws) port h e =
    elim (Bool-cases (is_port_excluded exc_port (d + 1025))) [
      | inl o ↦ draw_port_allowed exc_port draws port h.1 (rw (o, draw_port) at e)
      | inr o ↦
          let f : d + 1025 ≡ port = ground (arith, rw (o, draw_port) at e) in
          (rw (← f) o, omega arith, omega arith)
    ]

-- Where a fair draw comes, the loop ends: one value whose port is not excluded is enough.
pub draw_port_ends :
    (exc_port before after : List ℕ) (d : ℕ)
    → is_port_excluded exc_port (d + 1025) ≡ false
    → (port : ℕ) × (draw_port exc_port (before ++ (d ∷ after)) ≡ some port)
unfolding draw_port
draw_port_ends exc_port [] after d o = (d + 1025, rw (o, draw_port) refl)
draw_port_ends exc_port (b ∷ before) after d o =
    elim (Bool-cases (is_port_excluded exc_port (b + 1025))) [
      | inl x ↦ rw (x, draw_port) (draw_port_ends exc_port before after d o)
      | inr x ↦ (b + 1025, rw (x, draw_port) refl)
    ]

-- The query that is found waits in the list and has the id.
find_query-some :
    (id q : ℕ) (cell : ℕ → Query) (l : List ℕ)
    → find_query id cell l ≡ some q
    → (cell q).client_qid ≡ id
unfolding find_query
find_query-some id q cell [] e = absurd (cc)
find_query-some id q cell (b ∷ l) e = ground (arith, find_query-some id q cell l)

find_query-append :
    (id q : ℕ) (cell : ℕ → Query) (l : List ℕ)
    → find_query id cell l ≡ none
    → (cell q).client_qid ≡ id
    → find_query id cell (l ++ (q ∷ [])) ≡ some q
unfolding find_query
find_query-append id q cell [] e f = ground arith
find_query-append id q cell (b ∷ l) e f = ground (arith, find_query-append id q cell l)

-- A socket for each round, and a node at the new address; everything else in the list stays.
pub query_create_gives :
    (s : Queries) (out : Outside) (max_sockets : ℤ) (ttl srv q : ℕ) (dummy : Bool)
    → (query_create s out max_sockets ttl dummy srv).1 ≡ some q
    → let s' = (query_create s out max_sockets ttl dummy srv).0 in
      (q ≡ out.address)
      × (s'.qlist ≡ s.qlist)
      × (s'.pool ≡ (qid_get out.random s.pool).0)
      × ((s'.cell q).my_qid ≡ (qid_get out.random s.pool).1)
      × ((b : ℕ) → b ≢ q → s'.cell b ≡ s.cell b)
unfolding query_create
query_create_gives s out max_sockets ttl srv q dummy e = ground arith

-- A new query joins as the tail, with an id of the pool, and takes the client's.
pub query_add_new :
    (s : Queries) (out : Outside) (max_sockets : ℤ) (ttl srv client now q : ℕ) (dummy : Bool)
    (msg : List ℕ)
    → find_query (raw_id msg) s.cell s.qlist ≡ none
    → (query_add s out max_sockets ttl dummy srv client msg now).2 ≡ some q
    → let (s', msg', _) = query_add s out max_sockets ttl dummy srv client msg now in
      (q ≡ out.address)
      × (s'.qlist ≡ s.qlist ++ (q ∷ []))
      × (s'.pool ≡ (qid_get out.random s.pool).0)
      × ((s'.cell q).my_qid ≡ (qid_get out.random s.pool).1)
      × ((s'.cell q).client_qid ≡ raw_id msg)
      × ((s'.cell q).client ≡ client)
      × (msg' ≡ set_net_id (s'.cell q).my_qid msg)
      × ((b : ℕ) → b ≢ q → s'.cell b ≡ s.cell b)
unfolding query_add link_query
query_add_new s out max_sockets ttl srv client now q dummy msg none_waits e =
    ground (arith, query_create_gives s out max_sockets ttl srv q dummy)

find_query-frame :
    (id q : ℕ) (f g : ℕ → Query) (l : List ℕ)
    → ((b : ℕ) → b ≢ q → f b ≡ g b)
    → All (λ b. b ≢ q) l
    → find_query id f l ≡ find_query id g l
unfolding find_query
find_query-frame id q f g [] same apart = refl
find_query-frame id q f g (b ∷ l) same apart =
    ground (arith, same b apart.0, find_query-frame id q f g l same apart.1)

query_add_old :
    (s : Queries) (out : Outside) (max_sockets : ℤ) (ttl srv client now q : ℕ) (dummy : Bool)
    (msg : List ℕ)
    → find_query (raw_id msg) s.cell s.qlist ≡ some q
    → let (s', msg', q') = query_add s out max_sockets ttl dummy srv client msg now in
      (q' ≡ some q)
      × (s'.qlist ≡ s.qlist)
      × (msg' ≡ set_raw_id (s.cell q).my_qid msg)
      × ((s'.cell q).client ≡ (s.cell q).client)
      × ((s'.cell q).client_count ≡ (s.cell q).client_count + 1)
unfolding query_add
query_add_old s out max_sockets ttl srv client now q dummy msg e = ground arith

-- A message that opens a new query, at a new address, goes on with the query's id in its first two
-- bytes, the high byte first. The same id from any client, before the query is removed, finds the
-- same query; that message goes on with the low byte of the query's id first, and the query keeps the
-- first client's address.
pub query_add_resend :
    (s : Queries) (out out' : Outside) (max_sockets : ℤ)
    (ttl srv srv' client client' now now' q : ℕ) (dummy dummy' : Bool) (msg again : List ℕ)
    → find_query (raw_id msg) s.cell s.qlist ≡ none
    → All (λ b. b ≢ out.address) s.qlist
    → raw_id again ≡ raw_id msg
    → (query_add s out max_sockets ttl dummy srv client msg now).2 ≡ some q
    → let (s', first, _) = query_add s out max_sockets ttl dummy srv client msg now in
      let (s'', second, q') = query_add s' out' max_sockets ttl dummy' srv' client' again now' in
      let id = (s'.cell q).my_qid in
      (first ≡ (id / 256 % 256) ∷ (id % 256) ∷ drop 2 msg)
      × (second ≡ (id % 256) ∷ (id / 256 % 256) ∷ drop 2 again)
      × (q' ≡ some q)
      × (s''.qlist ≡ s'.qlist)
      × ((s''.cell q).client ≡ client)
query_add_resend s out out' max_sockets ttl srv srv' client client' now now' q dummy dummy' msg
      again none_waits apart same e =
    let (a, l, _, _, c, d, m, frame) =
      query_add_new s out max_sockets ttl srv client now q dummy msg none_waits e in
    let s' = (query_add s out max_sockets ttl dummy srv client msg now).0 in
    let apart' : All (λ b. b ≢ q) s.qlist = rw a apart in
    let waits : find_query (raw_id msg) s'.cell s.qlist ≡ none =
      find_query-frame (raw_id msg) q s'.cell s.cell s.qlist frame apart' ∙ none_waits in
    let found : find_query (raw_id again) s'.cell s'.qlist ≡ some q =
      rw (l, same) (find_query-append (raw_id msg) q s'.cell s.qlist waits c) in
    let (x, y, z, w, _) =
      query_add_old s' out' max_sockets ttl srv' client' now' q dummy' again found in
    (m, z, x, y, w ∙ d)
