-- ===== src/Udp/Answers.antt =====
-- dnrd-2.20.3/src/udp.c: what the client of a query gets while the replies come in.
use mathlib.Core.List.{erase}
use native.Mathlib.Decide.{ℕ_discrete}
use dnrd.Prelude.{
  ℕ, suc, ◌≤◌, Bool, true, false, ◌&&◌, ◌||◌, ◌≡◌, ◌≢◌, refl, ap, ◌∙◌, ◌⊎◌, inl, inr, List, [], ◌∷◌,
  ◌++◌, none, some, arith, ◌==◌, length, not, Bool-cases, Option-cases,
}
use dnrd.Prelude.Int.{pos, eqb_ℤ}
use dnrd.Dns.Check.{udp_maxsize, check_reply}
use dnrd.Dns.Packet.{check_replycode}
use dnrd.Query.{Query, Queries, Datagram, set_raw_id, close_sockets, query_delete}
use dnrd.Query.Timeout.{query_delete_frame}
use dnrd.Udp.{
  State, Received, CacheCall, reply_recv, set_query, drop_reply, answer_client, finish_reply,
  udp_handle_reply,
}

close_sockets-sent : (l : List ℕ) (s : Queries) → (close_sockets l s).sent ≡ s.sent
unfolding close_sockets
close_sockets-sent [] s = refl
close_sockets-sent (fd ∷ l) s = close_sockets-sent l _

pub query_delete-sent : (s : Queries) (q : ℕ) → (query_delete s q).sent ≡ s.sent
unfolding query_delete
query_delete-sent s q = close_sockets-sent (s.cell q).sock_arr _

-- What one handled reply leaves: the list of the queries, and the query itself.
drop_reply_lem :
    (s : State) (q n : ℕ)
    → (s.queries.cell q).serv_sent_cnt ≡ pos (suc n)
    → let s' = drop_reply s q in
      (s'.queries.sent ≡ s.queries.sent)
      × ((s'.queries.cell q).resp_sent ≡ (s.queries.cell q).resp_sent)
      × ((s'.queries.cell q).client ≡ (s.queries.cell q).client)
      × ((s'.queries.cell q).is_dummy ≡ (s.queries.cell q).is_dummy)
      × (n ≡ 0 → s'.queries.qlist ≡ erase ℕ_discrete s.queries.qlist q)
      × (n ≢ 0 → (s'.queries.qlist ≡ s.queries.qlist) × ((s'.queries.cell q).serv_sent_cnt ≡ pos n))
unfolding drop_reply
drop_reply_lem s q n e =
    ground (arith, query_delete_frame s.queries q, query_delete-sent s.queries q, e)

-- Whether a reply goes to the client.
unfoldable pub is_answer : Query → List ℕ → Bool
is_answer x msg =
    not (x.is_dummy || x.resp_sent) && (check_replycode msg == 0 || eqb_ℤ x.serv_sent_cnt (pos 1))

abbrev answer_of : Query → List ℕ → Datagram
answer_of x msg = record { to = x.client; bytes = set_raw_id x.client_qid msg }

answer_client_lem :
    (s : State) (q : ℕ) (call : CacheCall) (msg : List ℕ)
    → let s' = answer_client s q call msg in
      let x = s.queries.cell q in
      (s'.queries.qlist ≡ s.queries.qlist)
      × ((s'.queries.cell q).serv_sent_cnt ≡ x.serv_sent_cnt)
      × ((s'.queries.cell q).client ≡ x.client)
      × ((s'.queries.cell q).is_dummy ≡ x.is_dummy)
      × (is_answer x msg ≡ false
          → (s'.queries.sent ≡ s.queries.sent) × ((s'.queries.cell q).resp_sent ≡ x.resp_sent))
      × (is_answer x msg ≡ true
          → (s'.queries.sent ≡ s.queries.sent ++ (answer_of x msg ∷ []))
            × ((s'.queries.cell q).resp_sent ≡ true))
unfolding answer_client is_answer set_query
answer_client_lem s q call msg = ground arith

-- A reply that the handler takes for one: it was received, is not too large, and passes the check.
abbrev pub IsReply : Received → List ℕ → Type 0
IsReply got msg = (got.bytes ≡ some msg) × (length msg ≤ udp_maxsize) × (check_reply msg ≡ true)

reply_recv_lem :
    (s : State) (got : Received) (msg : List ℕ) → IsReply got msg → (reply_recv s got).1 ≡ some msg
unfolding reply_recv
reply_recv_lem s got msg (a, b, c) = ground arith

pub reply_recv_cases :
    (s : State) (got : Received)
    → ((reply_recv s got).1 ≡ none) ⊎ ((msg : List ℕ) × ((reply_recv s got).1 ≡ some msg))
reply_recv_cases s got = Option-cases (reply_recv s got).1

-- What goes out while a query becomes another: nothing, or the first answer, to its client.
pub data Sent (x : Query) (before : List Datagram) (x' : Query) (after : List Datagram)
    : Type 0 where
  quiet : after ≡ before → x'.resp_sent ≡ x.resp_sent → Sent x before x' after
  answered :
      (d : Datagram)
      → after ≡ before ++ (d ∷ [])
      → d.to ≡ x.client
      → x.resp_sent ≡ false
      → x'.resp_sent ≡ true
      → Sent x before x' after

-- One handled reply, where the query waits for n + 1: one less is waited for, or the query is
-- removed.
pub record Handled (s : Queries) (q n : ℕ) (s' : Queries) : Type 0 where
  pub out : Sent (s.cell q) s.sent (s'.cell q) s'.sent
  pub client : (s'.cell q).client ≡ (s.cell q).client
  pub dummy : (s'.cell q).is_dummy ≡ (s.cell q).is_dummy
  pub last : n ≡ 0 → s'.qlist ≡ erase ℕ_discrete s.qlist q
  pub more : n ≢ 0 → (s'.qlist ≡ s.qlist) × ((s'.cell q).serv_sent_cnt ≡ pos n)

pub finish_reply_lem : (s : State) (q : ℕ) → (finish_reply s q).queries ≡ (drop_reply s q).queries
unfolding finish_reply drop_reply set_query
finish_reply_lem s q = ground arith

-- The queries of a state decide what is handled.
Handled-drop :
    (s s' : State) (q n : ℕ)
    → (s.queries.cell q).serv_sent_cnt ≡ pos (suc n)
    → s'.queries ≡ (drop_reply s q).queries
    → Handled s.queries q n s'.queries
Handled-drop s s' q n e f =
    let (a, b, c, d, g, h) = drop_reply_lem s q n e in
    record {
      out = rw f (Sent.quiet a b);
      client = rw f c;
      dummy = rw f d;
      last = rw f g;
      more = rw f h;
    }

answer_client-Sent :
    (s : State) (q : ℕ) (call : CacheCall) (msg : List ℕ)
    → let s' = answer_client s q call msg in
      Sent (s.queries.cell q) s.queries.sent (s'.queries.cell q) s'.queries.sent
unfolding is_answer
answer_client-Sent s q call msg =
    let (_, _, _, _, f, t) = answer_client_lem s q call msg in
    elim (Bool-cases (is_answer (s.queries.cell q) msg)) [
      | inl o ↦ Sent.answered (answer_of (s.queries.cell q) msg) (t o).0 refl (ground arith) (t o).1
      | inr o ↦ Sent.quiet (f o).0 (f o).1
    ]

Sent-quiet :
    (x x' x'' : Query) (l l' l'' : List Datagram)
    → Sent x l x' l'
    → l'' ≡ l'
    → x''.resp_sent ≡ x'.resp_sent
    → Sent x l x'' l''
Sent-quiet x x' x'' l l' l'' (Sent.quiet a b) e f = Sent.quiet (e ∙ a) (f ∙ b)
Sent-quiet x x' x'' l l' l'' (Sent.answered d a b c g) e f = Sent.answered d (e ∙ a) b c (f ∙ g)

-- A reply that goes to the client or not, and is then counted.
Handled-finish :
    (s : State) (q n : ℕ) (call : CacheCall) (msg : List ℕ)
    → (s.queries.cell q).serv_sent_cnt ≡ pos (suc n)
    → Handled s.queries q n (finish_reply (answer_client s q call msg) q).queries
Handled-finish s q n call msg e =
    let s' = answer_client s q call msg in
    let (l, cnt, c, d, _, _) = answer_client_lem s q call msg in
    let k = Handled-drop s' (finish_reply s' q) q n (cnt ∙ e) (finish_reply_lem s' q) in
    let (a, b, _, _, _, _) = drop_reply_lem s' q n (cnt ∙ e) in
    record {
      out =
          rw (finish_reply_lem s' q) (Sent-quiet _ _ _ _ _ _ (answer_client-Sent s q call msg) a b);
      client = k.client ∙ c;
      dummy = k.dummy ∙ d;
      last = λ z. k.last z ∙ ap (λ (m : List ℕ). erase ℕ_discrete m q) l;
      more = λ z. ((k.more z).0 ∙ l, (k.more z).1);
    }

-- Every reply is handled so, whatever it is.
pub handle_reply_lem :
    (s : State) (q n : ℕ) (call : CacheCall) (got : Received)
    → (s.queries.cell q).serv_sent_cnt ≡ pos (suc n)
    → Handled s.queries q n (udp_handle_reply s q call got).queries
unfolding udp_handle_reply
handle_reply_lem s q n call got e =
    let s0 = record s { srv = (reply_recv s got).0 } in
    elim (reply_recv_cases s got) [
      | inl o ↦ rw (o, udp_handle_reply) (Handled-drop s0 (drop_reply s0 q) q n e refl)
      | inr (msg, o) ↦ elim (Bool-cases (check_reply msg)) [
        | inl c ↦ rw (o, udp_handle_reply, c) (Handled-finish s0 q n call msg e)
        | inr c ↦ rw (o, udp_handle_reply, c) (Handled-drop s0 (drop_reply s0 q) q n e refl)
      ]
    ]

-- The first reply that may end the wait is sent: with no answer sent yet, and not for a dummy, the
-- last reply, or one with the code 0, goes to the client.
pub handle_reply_answers :
    (s : State) (q n : ℕ) (call : CacheCall) (got : Received) (msg : List ℕ)
    → (s.queries.cell q).serv_sent_cnt ≡ pos (suc n)
    → IsReply got msg
    → (s.queries.cell q).is_dummy ≡ false
    → (s.queries.cell q).resp_sent ≡ false
    → (n ≡ 0) ⊎ (check_replycode msg ≡ 0)
    → (udp_handle_reply s q call got).queries.sent
      ≡ s.queries.sent ++ (answer_of (s.queries.cell q) msg ∷ [])
unfolding udp_handle_reply is_answer
handle_reply_answers s q n call got msg e r dummy fresh due =
    let s0 = record s { srv = (reply_recv s got).0 } in
    let s' = answer_client s0 q call msg in
    let (_, cnt, _, _, _, t) = answer_client_lem s0 q call msg in
    let (a, _, _, _, _, _) = drop_reply_lem s' q n (cnt ∙ e) in
    let answer : is_answer (s.queries.cell q) msg ≡ true = ground (arith, dummy, fresh, due, e) in
    rw (reply_recv_lem s got msg r, udp_handle_reply, r.2, finish_reply_lem s' q) (a ∙ (t answer).0)

reply_recv_bad :
    (s : State) (got : Received) (m : List ℕ)
    → ((msg : List ℕ) → got.bytes ≡ some msg → check_reply msg ≡ false)
    → (reply_recv s got).1 ≡ some m
    → check_reply m ≡ false
unfolding reply_recv check_reply
reply_recv_bad s got m bad e = ground (arith, bad m)

-- Where the last reply that is waited for cannot be received or fails the check, the query is
-- removed and nothing is sent, also if the query has kept a failure.
pub handle_reply_loses :
    (s : State) (q : ℕ) (call : CacheCall) (got : Received)
    → (s.queries.cell q).serv_sent_cnt ≡ pos 1
    → ((msg : List ℕ) → got.bytes ≡ some msg → check_reply msg ≡ false)
    → let s' = udp_handle_reply s q call got in
      (s'.queries.sent ≡ s.queries.sent) × (s'.queries.qlist ≡ erase ℕ_discrete s.queries.qlist q)
unfolding udp_handle_reply
handle_reply_loses s q call got e bad =
    let s0 = record s { srv = (reply_recv s got).0 } in
    let (a, _, _, _, l, _) = drop_reply_lem s0 q 0 e in
    elim (reply_recv_cases s got) [
      | inl o ↦ rw (o, udp_handle_reply) (a, l refl)
      | inr (msg, o) ↦ rw (o, udp_handle_reply, reply_recv_bad s got msg bad o) (a, l refl)
    ]
