-- ===== src/Udp/Ids.antt =====
-- dnrd-2.20.3/src/udp.c with query.c: handling a reply keeps the ids of the queries.
use mathlib.Core.List.{Mem}
use dnrd.Prelude.{ℕ, ◌≡◌, refl, List, arith, inl, inr, Bool-cases}
use dnrd.Prelude.Int.{pos, eqb_ℤ}
use dnrd.Dns.Check.{check_reply}
use dnrd.Query.Invariant.{IsKept, query_delete-IsKept}
use dnrd.Query.Kept.{IsKept-same}
use dnrd.Udp.{
  State, Received, CacheCall, reply_recv, set_query, drop_reply, answer_client, udp_handle_reply,
}
use dnrd.Udp.Answers.{finish_reply_lem, reply_recv_cases}

drop_reply-IsKept :
    (s : State) (q : ℕ) → IsKept s.queries → Mem q s.queries.qlist → IsKept (drop_reply s q).queries
unfolding drop_reply set_query
drop_reply-IsKept s q k m =
    let x = s.queries.cell q in
    elim (Bool-cases (eqb_ℤ x.serv_sent_cnt (pos 1))) [
      | inl o ↦ rw (o, drop_reply) (query_delete-IsKept s.queries q k m)
      | inr o ↦ rw (o, drop_reply) (IsKept-same s.queries _ refl refl (λ b. ground arith) k)
    ]

answer_client_same :
    (s : State) (q : ℕ) (call : CacheCall) (msg : List ℕ)
    → let s' = answer_client s q call msg in
      (s'.queries.qlist ≡ s.queries.qlist)
      × (s'.queries.pool ≡ s.queries.pool)
      × ((b : ℕ) → (s'.queries.cell b).my_qid ≡ (s.queries.cell b).my_qid)
unfolding answer_client set_query
answer_client_same s q call msg = ground arith

-- Handling any reply to a waiting query keeps each id held by one waiting query or free.
pub udp_handle_reply-IsKept :
    (s : State) (q : ℕ) (call : CacheCall) (got : Received)
    → IsKept s.queries
    → Mem q s.queries.qlist
    → IsKept (udp_handle_reply s q call got).queries
unfolding udp_handle_reply
udp_handle_reply-IsKept s q call got k m =
    let s0 = record s { srv = (reply_recv s got).0 } in
    elim (reply_recv_cases s got) [
      | inl o ↦ rw (o, udp_handle_reply) (drop_reply-IsKept s0 q k m)
      | inr (msg, o) ↦ elim (Bool-cases (check_reply msg)) [
        | inl c ↦
            let s' = answer_client s0 q call msg in
            let (l, p, same) = answer_client_same s0 q call msg in
            rw (o, udp_handle_reply, c, finish_reply_lem s' q)
              (drop_reply-IsKept s' q (IsKept-same s.queries s'.queries l p same k) (rw l m))
        | inr c ↦ rw (o, udp_handle_reply, c) (drop_reply-IsKept s0 q k m)
      ]
    ]
