-- ===== src/Udp/Apart.antt =====
-- dnrd-2.20.3/src/udp.c: a reply leaves the `current` of the head of inf_list as main has set it.
use dnrd.Prelude.{
  ℕ, Bool, true, false, ◌≡◌, refl, List, [], ◌∷◌, Option, none, some, arith, ltb, if◌then◌else◌,
  length, Bool-cases, Option-cases, inl, inr,
}
use dnrd.Prelude.Int.{eqb_ℤ, pos}
use dnrd.Dns.Check.{check_reply, udp_maxsize}
use dnrd.Server.{Srv}
use dnrd.Udp.{
  State, Received, CacheCall, revive, revive_all, search_server, reply_recv, drop_reply,
  forward_reply, keep_failure, answer_client, finish_reply, udp_handle_reply,
}
use dnrd.Relay.Head.{IsHeaded, headed}

revive-unsent :
    (srv : ℕ → Srv) (o : Option ℕ) (h : ℕ) → (srv h).send_time ≡ 0 → (revive srv o h).send_time ≡ 0
unfolding revive
revive-unsent srv none h e = e
revive-unsent srv (some a) h e = ground (arith, e)

revive_all-unsent :
    (srv : ℕ → Srv) (l : List (Option ℕ)) (h : ℕ)
    → (srv h).send_time ≡ 0
    → (revive_all srv l h).send_time ≡ 0
unfolding revive_all
revive_all-unsent srv [] h e = e
revive_all-unsent srv (a ∷ l) h e = revive_all-unsent (revive srv a) l h (revive-unsent srv a h e)

reply_recv-unsent :
    (s : State) (got : Received) (h : ℕ)
    → (s.srv h).send_time ≡ 0
    → ((reply_recv s got).0 h).send_time ≡ 0
unfolding reply_recv
reply_recv-unsent s got h e = elim (Option-cases got.bytes) [
  | inl o ↦ rw (o, reply_recv) e
  | inr (msg, o) ↦ elim (Bool-cases (ltb udp_maxsize (length msg))) [
    | inl b ↦ rw (o, reply_recv, b) e
    | inr b ↦ elim (Option-cases got.inf_name) [
      | inl i ↦ rw (o, reply_recv, b, i) e
      | inr (name, i) ↦
          rw (o, reply_recv, b, i)
            (revive-unsent s.srv (search_server s.srv s.inf_list got.from name) h e)
    ]
  ]
]

-- The interfaces, the `current` of the head and the servers are the same.
abbrev pub Kin : State → State → Type 0
Kin s s' = (s'.inf_list ≡ s.inf_list) × (s'.head_current ≡ s.head_current) × (s'.srv ≡ s.srv)

drop_reply-Kin : (s : State) (q : ℕ) → Kin s (drop_reply s q)
unfolding drop_reply
drop_reply-Kin s q = elim (Bool-cases (eqb_ℤ (s.queries.cell q).serv_sent_cnt (pos 1))) [
  | inl e ↦ rw (e, drop_reply) (refl, refl, refl)
  | inr e ↦ rw (e, drop_reply) (refl, refl, refl)
]

answer_client-Kin :
    (s : State) (q : ℕ) (call : CacheCall) (msg : List ℕ) → Kin s (answer_client s q call msg)
unfolding answer_client forward_reply keep_failure
answer_client-Kin s q call msg = ground arith

pub Kin-IsHeaded : (h : ℕ) (s s' : State) → Kin s s' → IsHeaded h s → IsHeaded h s'
Kin-IsHeaded h s s' (infs, head, srv) k = headed h s s' k head (rw (infs, srv) k.untouched)

pub if_both {ℓ} :
    (P : State → Type ℓ) (b : Bool) (s s' : State) → P s → P s' → P (if b then s else s')
if_both P true s s' x y = x
if_both P false s s' x y = y

finish_reply-IsHeaded : (h : ℕ) (s : State) (q : ℕ) → IsHeaded h s → IsHeaded h (finish_reply s q)
unfolding finish_reply
finish_reply-IsHeaded h s q k =
    let x = s.queries.cell q in
    let s' : State = record s { srv = revive_all s.srv x.srv_list } in
    let k' : IsHeaded h s' =
      headed h s s' k refl
        (revive_all-unsent s.srv x.srv_list h k.untouched.0, k.untouched.1, refl) in
    if_both (IsHeaded h) (eqb_ℤ x.serv_sent_cnt (pos 1)) (drop_reply s' q) (drop_reply s q)
      (Kin-IsHeaded h s' (drop_reply s' q) (drop_reply-Kin s' q) k')
      (Kin-IsHeaded h s (drop_reply s q) (drop_reply-Kin s q) k)

-- Handling a reply leaves it so.
pub udp_handle_reply-IsHeaded :
    (h : ℕ) (s : State) (q : ℕ) (call : CacheCall) (got : Received)
    → IsHeaded h s
    → IsHeaded h (udp_handle_reply s q call got)
unfolding udp_handle_reply
udp_handle_reply-IsHeaded h s q call got k =
    let (srv, received) = reply_recv s got in
    let s' : State = record s { srv = srv } in
    let k' : IsHeaded h s' =
      headed h s s' k refl (reply_recv-unsent s got h k.untouched.0, k.untouched.1, refl) in
    elim (Option-cases (reply_recv s got).1) [
      | inl o ↦ rw (o, udp_handle_reply) (Kin-IsHeaded h s' _ (drop_reply-Kin s' q) k')
      | inr (msg, o) ↦ elim (Bool-cases (check_reply msg)) [
        | inl c ↦
            let s1 = answer_client s' q call msg in
            rw (o, udp_handle_reply, c)
              (finish_reply-IsHeaded h s1 q
                (Kin-IsHeaded h s' s1 (answer_client-Kin s' q call msg) k'))
        | inr c ↦ rw (o, udp_handle_reply, c) (Kin-IsHeaded h s' _ (drop_reply-Kin s' q) k')
      ]
    ]
