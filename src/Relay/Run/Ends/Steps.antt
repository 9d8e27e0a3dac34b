-- ===== src/Relay/Run/Ends/Steps.antt =====
-- dnrd-2.20.3/src/relay.c: each step of the loop of run over the queries and their sockets removes a
-- query, or comes nearer to the end of the list.
use mathlib.Core.List.{erase}
use native.Mathlib.Decide.{ℕ_discrete}
use dnrd.Prelude.{
  ℕ, zero, suc, ◌+◌, ◌-◌, ◌*◌, ◌≤◌, ◌<◌, Bool, true, false, ◌||◌, ◌≡◌, ◌⊎◌, refl, List, [], ◌∷◌,
  none, some, arith, ◌==◌, if◌then◌else◌, get_elem?, get_or, length, ltb, Bool-cases, Option-cases,
  inl, inr,
}
use dnrd.Prelude.Int.{pos, eqb_ℤ}
use dnrd.Dns.Check.{check_reply}
use dnrd.Query.{Queries}
use dnrd.Query.Timeout.{query_delete_frame}
use dnrd.Udp.{
  State, Received, CacheCall, reply_recv, set_query, drop_reply, answer_client, udp_handle_reply,
}
use dnrd.Udp.Answers.{finish_reply_lem, reply_recv_cases}
use dnrd.Relay.Run.{World, Phase, next_query, next_socket, handle_at, look_at}

-- The second list has as many nodes as the first one, or one less.
abbrev Shorter : List ℕ → List ℕ → Type 0
Shorter l l' = (length l' ≤ length l) × (length l ≤ suc (length l'))

erase-Shorter : (l : List ℕ) (q : ℕ) → Shorter l (erase ℕ_discrete l q)
erase-Shorter [] q = (omega arith, omega arith)
erase-Shorter (a ∷ l) q = let rest = erase-Shorter l q in ground (arith, rest)

drop_reply-Shorter :
    (l : List ℕ) (s : State) (q : ℕ)
    → s.queries.qlist ≡ l
    → Shorter l (drop_reply s q).queries.qlist
unfolding drop_reply set_query
drop_reply-Shorter l s q e =
    let x = s.queries.cell q in
    elim (Bool-cases (eqb_ℤ x.serv_sent_cnt (pos 1))) [
      | inl o ↦ rw (o, drop_reply, (query_delete_frame s.queries q).0) (rw e (erase-Shorter l q))
      | inr o ↦ rw (o, drop_reply, e) (omega arith, omega arith)
    ]

answer_client_qlist :
    (s : State) (q : ℕ) (call : CacheCall) (msg : List ℕ)
    → (answer_client s q call msg).queries.qlist ≡ s.queries.qlist
unfolding answer_client set_query
answer_client_qlist s q call msg = ground arith

udp_handle_reply-Shorter :
    (s : State) (q : ℕ) (call : CacheCall) (got : Received)
    → Shorter s.queries.qlist (udp_handle_reply s q call got).queries.qlist
unfolding udp_handle_reply
udp_handle_reply-Shorter s q call got =
    let s0 = record s { srv = (reply_recv s got).0 } in
    elim (reply_recv_cases s got) [
      | inl o ↦ rw (o, udp_handle_reply) (drop_reply-Shorter s.queries.qlist s0 q refl)
      | inr (msg, o) ↦ elim (Bool-cases (check_reply msg)) [
        | inl c ↦
            let s' = answer_client s0 q call msg in
            rw (o, udp_handle_reply, c, finish_reply_lem s' q)
              (drop_reply-Shorter s.queries.qlist s' q (answer_client_qlist s0 q call msg))
        | inr c ↦ rw (o, udp_handle_reply, c) (drop_reply-Shorter s.queries.qlist s0 q refl)
      ]
    ]

pub get_elem?-some_lt : (l : List ℕ) (k a : ℕ) → get_elem? l k ≡ some a → k < length l
get_elem?-some_lt [] k a e = absurd (cc)
get_elem?-some_lt (b ∷ l) zero a e = omega arith
get_elem?-some_lt (b ∷ l) (suc k) a e = let lt = get_elem?-some_lt l k a e in omega arith

get_elem?-none_le : (l : List ℕ) (k : ℕ) → get_elem? l k ≡ none → length l ≤ k
get_elem?-none_le [] k e = omega arith
get_elem?-none_le (b ∷ l) zero e = absurd (cc)
get_elem?-none_le (b ∷ l) (suc k) e = let le = get_elem?-none_le l k e in omega arith

-- What follows a socket.
next_query_lem :
    (l : List ℕ) (k : ℕ)
    → ((next_query l k ≡ Phase.query_at 0) × (length l ≤ k))
      ⊎ ((next_query l k ≡ Phase.query_at (k + 1)) × (k < length l))
unfolding next_query
next_query_lem l k = elim (Option-cases (get_elem? l k)) [
  | inl e ↦ inl (rw (e, next_query) refl, get_elem?-none_le l k e)
  | inr (a, e) ↦ inr (rw (e, next_query) refl, get_elem?-some_lt l k a e)
]

next_socket_lem :
    (s : Queries) (k i : ℕ)
    → (next_socket s k i ≡ next_query s.qlist k)
      ⊎ ((next_socket s k i ≡ Phase.socket_at k (i + 1)) × ((i == 2) ≡ false))
unfolding next_socket
next_socket_lem s k i =
    let is_dummy : Bool = elim (get_elem? s.qlist k) [
      | none ↦ false
      | some q ↦ (s.cell q).is_dummy
    ] in
    elim (Bool-cases (is_dummy || i == 2)) [
      | inl e ↦ inl (rw (e, next_socket) refl)
      | inr e ↦ inr (rw (e, next_socket) refl, ground (arith, e))
    ]

-- The phases of the loop, over so many queries.
abbrev pub InLoop : ℕ → Phase → Type 0
InLoop n Phase.waiting = false ≡ true
InLoop n (Phase.query_at k) = k ≤ n
InLoop n (Phase.socket_at k i) = (k ≤ n) × (i ≤ 2)
InLoop n Phase.requests = false ≡ true
InLoop n Phase.upkeep = false ≡ true

-- How many steps the loop still takes where no query is removed.
abbrev pub steps_left : ℕ → Phase → ℕ
steps_left n Phase.waiting = 0
steps_left n (Phase.query_at k) = 4 * (n - k) + 1
steps_left n (Phase.socket_at k i) = if ltb k n then 4 * (n - k) - i else 4 * n + 6 - i
steps_left n Phase.requests = 0
steps_left n Phase.upkeep = 0

pub steps_left_le : (n : ℕ) (p : Phase) → steps_left n p ≤ 4 * n + 6
steps_left_le n Phase.waiting = omega arith
steps_left_le n (Phase.query_at k) = omega arith
steps_left_le n (Phase.socket_at k i) = ground arith
steps_left_le n Phase.requests = omega arith
steps_left_le n Phase.upkeep = omega arith

-- A step keeps the loop and removes a query, or leaves fewer steps.
abbrev pub Nearer : ℕ → Phase → ℕ → Phase → Type 0
Nearer n p n' p' = InLoop n' p' × ((suc n' ≡ n) ⊎ ((n' ≡ n) × (steps_left n' p' < steps_left n p)))

next_query-Nearer :
    (n k i : ℕ) (l : List ℕ)
    → length l ≤ n
    → n ≤ suc (length l)
    → (k < n) ⊎ ((k ≡ n) × (length l ≡ n))
    → i ≤ 2
    → Nearer n (Phase.socket_at k i) (length l) (next_query l k)
next_query-Nearer n k i l le ge at small = elim (next_query_lem l k) [
  | inl (e, over) ↦ rw e (ground arith)
  | inr (e, under) ↦ rw e (ground arith)
]

next_socket-Nearer :
    (n k i : ℕ) (s : Queries)
    → length s.qlist ≤ n
    → n ≤ suc (length s.qlist)
    → (k < n) ⊎ ((k ≡ n) × (length s.qlist ≡ n))
    → i ≤ 2
    → Nearer n (Phase.socket_at k i) (length s.qlist) (next_socket s k i)
next_socket-Nearer n k i s le ge at small = elim (next_socket_lem s k i) [
  | inl e ↦ rw e (next_query-Nearer n k i s.qlist le ge at small)
  | inr (e, more) ↦ rw e (ground arith)
]

abbrev pub waits : World → ℕ
waits w = length w.asking.state.queries.qlist

handle_at-Shorter :
    (k i : ℕ) (call : CacheCall) (got : Received) (w : World)
    → k ≤ waits w
    → let l = (handle_at k i call got w).queries.qlist in
      (length l ≤ waits w)
      × (waits w ≤ suc (length l))
      × ((k < waits w) ⊎ ((k ≡ waits w) × (length l ≡ waits w)))
unfolding handle_at
handle_at-Shorter k i call got w le =
    let s = w.asking.state in
    elim (Option-cases (get_elem? s.queries.qlist k)) [
      | inl e ↦
          let over = get_elem?-none_le s.queries.qlist k e in
          rw (e, handle_at) (omega arith, omega arith, inr (omega arith, refl))
      | inr (q, e) ↦
          let under = get_elem?-some_lt s.queries.qlist k q e in
          elim (Bool-cases (w.fdread (get_or (s.queries.cell q).sock_arr i 0))) [
            | inl r ↦
                let (less, more) = udp_handle_reply-Shorter s q call got in
                rw (e, handle_at, r) (less, more, inl under)
            | inr r ↦ rw (e, handle_at, r) (omega arith, omega arith, inl under)
          ]
    ]

pub look_at-Nearer :
    (k i : ℕ) (call : CacheCall) (got : Received) (w : World)
    → k ≤ waits w
    → i ≤ 2
    → let w' = look_at k i call got w in Nearer (waits w) (Phase.socket_at k i) (waits w') w'.phase
unfolding look_at
look_at-Nearer k i call got w le small =
    let (less, more, at) = handle_at-Shorter k i call got w le in
    next_socket-Nearer (waits w) k i (handle_at k i call got w).queries less more at small
