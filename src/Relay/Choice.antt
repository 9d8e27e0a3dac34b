-- ===== src/Relay/Choice.antt =====
-- dnrd-2.20.3/src/relay.c: the server that handle_query chooses.
use dnrd.Prelude.{
  ℕ, zero, suc, Option, ◌≤◌, ◌≡◌, ◌≢◌, refl, sym, ◌∙◌, inl, inr, List, [], ◌∷◌, none, some, arith,
  length, length-set, get_or, set, map, false, All, ◌⊎◌, Bool-cases, Option-cases,
}
use dnrd.Dns.Check.{flags_of}
use dnrd.Dns.Flags.{get_rcode, get_rcode_lem}
use Prim.Native.Nat.{bit_or}
use dnrd.Qid.{get_or-set}
use dnrd.Server.{Srv, Inf, next_active, set_current, mark_current, deactivate_current}
use dnrd.Server.Active.{Active, first_of, next_active_start, next_active-Active}
use dnrd.Udp.{State}
use dnrd.Relay.{
  set_srvfail, choose, check_current, is_timed_out, current_at, Outcome, fail_query, head_at_end,
  forward_head, forward_query,
}

-- The interface of the choice has an active current server.
choose-some :
    (srv : ℕ → Srv) (l : List Inf) (n : ℕ)
    → (choose srv l).1 ≡ some n
    → (a : ℕ) × (current_at (choose srv l).0 n ≡ some a) × Active srv a
unfolding choose current_at
choose-some srv [] n e = absurd (cc)
choose-some srv (i ∷ l) n e = elim (Option-cases (next_active srv (record i { current = none }))) [
  | inl o ↦ elim (Option-cases (choose srv l).1) [
    | inl p ↦ absurd (ground (arith, o, p, e))
    | inr (m, p) ↦
        let (a, c, x) = choose-some srv l m p in
        let k : suc m ≡ n = ground (arith, rw (o, choose, p) at e) in
        (a, rw (← k, o, choose, current_at) c, x)
  ]
  | inr (a, o) ↦
      let k : 0 ≡ n = ground (arith, rw (o, choose) at e) in
      (a, rw (← k, o, choose, current_at) o, next_active-Active srv _ a o)
]

-- Without an active server, none is chosen.
choose-none :
    (srv : ℕ → Srv) (l : List Inf)
    → All (λ i. first_of srv i.srvlist ≡ none) l
    → (choose srv l).1 ≡ none
unfolding choose
choose-none srv [] h = refl
choose-none srv (i ∷ l) h =
    ground
      (arith, next_active_start srv (record i { current = none }) refl, h.0, choose-none srv l h.1)

deactivate_current-Active :
    (srv : ℕ → Srv) (i : Inf) (now b : ℕ)
    → (deactivate_current srv i now).1.current ≡ some b
    → Active (deactivate_current srv i now).0 b
unfolding deactivate_current set_current
deactivate_current-Active srv i now b e = next_active-Active (mark_current srv i.current now) i b e

fail_query_lem : (msg m : List ℕ) (n : Option ℕ) → fail_query msg ≢ Outcome.forward n m
unfolding fail_query
fail_query_lem msg m n = ground arith

forward_head_lem :
    (forward_timeout reactivate_interval now n : ℕ) (s : State) (msg m : List ℕ)
    → (forward_head forward_timeout reactivate_interval now s msg).1 ≢ Outcome.forward (some n) m
unfolding forward_head
forward_head_lem ft ri now n s msg m e = elim (Option-cases (head_at_end s)) [
  | inl o ↦ fail_query_lem msg m (some n) (rw (o, forward_head) at e)
  | inr (h, o) ↦ elim (Bool-cases (is_timed_out ft ri now (s.srv h))) [
    | inl t ↦ fail_query_lem msg m (some n) (rw (o, forward_head, t) at e)
    | inr t ↦ ground (arith, rw (o, forward_head, t) at e)
  ]
]

-- After the test of the time, the current server of the chosen interface, if there is one, is
-- active.
check_current_lem :
    (forward_timeout reactivate_interval now n a : ℕ) (srv : ℕ → Srv) (l : List Inf)
    → current_at l n ≡ some a
    → Active srv a
    → let (srv', l') = check_current forward_timeout reactivate_interval now srv l n in
      (b : ℕ) → current_at l' n ≡ some b → Active srv' b
unfolding check_current current_at
check_current_lem ft ri now n a srv [] c act b e = absurd (cc)
check_current_lem ft ri now (suc n) a srv (i ∷ l) c act b e =
    check_current_lem ft ri now n a srv l c act b e
check_current_lem ft ri now zero a srv (i ∷ l) c act b e =
    elim (Bool-cases (is_timed_out ft ri now (srv a))) [
      | inl t ↦
          rw (c, check_current, t)
            (deactivate_current-Active srv i now b (rw (c, check_current, t, current_at) at e))
      | inr t ↦
          let f : some a ≡ some b = sym c ∙ rw (c, check_current, t, current_at) at e in
          rw (c, check_current, t) (ground (arith, f, act))
    ]

-- A query that goes on by an interface goes to one whose current server is active.
pub forward_query-Active :
    (forward_timeout reactivate_interval now n : ℕ) (s : State) (msg m : List ℕ)
    → (forward_query forward_timeout reactivate_interval now s msg).1 ≡ Outcome.forward (some n) m
    → let s' = (forward_query forward_timeout reactivate_interval now s msg).0 in
      (m ≡ msg) × ((a : ℕ) × (current_at s'.inf_list n ≡ some a) × Active s'.srv a)
unfolding forward_query
forward_query-Active ft ri now n s msg m e = elim (Option-cases (choose s.srv s.inf_list).1) [
  | inl p ↦ absurd (
      forward_head_lem ft ri now n (record s { inf_list = (choose s.srv s.inf_list).0 }) msg m
        (rw (p, forward_query) at e))
  | inr (k, p) ↦
      let (a, c, act) = choose-some s.srv s.inf_list k p in
      let (srv, infs) = check_current ft ri now s.srv (choose s.srv s.inf_list).0 k in
      elim (Option-cases (current_at infs k)) [
        | inl o ↦ absurd (fail_query_lem msg m (some n) (rw (p, forward_query, o) at e))
        | inr (b, o) ↦
            let f : Outcome.forward (some k) msg ≡ Outcome.forward (some n) m =
              rw (p, forward_query, o) at e in
            let g : k ≡ n = ground (arith, f) in
            (
              ground (arith, f),
              (
                b,
                rw (p, forward_query, ← g) o,
                rw (p, forward_query)
                    (check_current_lem ft ri now k a s.srv (choose s.srv s.inf_list).0 c act b o),
              ),
            )
      ]
]

-- The failure has the code 2, and the length of the query.
set_srvfail_lem :
    (msg : List ℕ)
    → 4 ≤ length msg
    → (m : List ℕ) × (set_srvfail msg ≡ some m)
      × (get_rcode (flags_of m) ≡ 2)
      × (length m ≡ length msg)
unfolding set_srvfail
set_srvfail_lem msg h =
    let v : ℕ = bit_or (get_or msg 2 0) 132 in
    let l : length (set msg 2 v) ≡ length msg = length-set msg 2 v in
    let m : List ℕ = set (set msg 2 v) 3 130 in
    (
      m,
      ground (arith, h),
      get_rcode_lem (flags_of m) ∙ omega (arith, get_or-set (set msg 2 v) 3 130 (omega arith)),
      length-set (set msg 2 v) 3 130 ∙ l,
    )

choose-empty : (srv : ℕ → Srv) → (choose srv []).0 ≡ []
unfolding choose
choose-empty srv = refl

head_at_end-empty : (s : State) → s.inf_list ≡ [] → head_at_end s ≡ none
unfolding head_at_end
head_at_end-empty s e = rw e refl

head_at_end-none : (s : State) → s.head_current ≡ none → head_at_end s ≡ none
unfolding head_at_end
head_at_end-none s e = ground (arith, e)

-- An interface without a current server.
abbrev pub idle : Inf → Inf
idle i = record i { current = none }

-- Without an active server, the loop leaves every interface without a current one.
choose-idle :
    (srv : ℕ → Srv) (l : List Inf)
    → All (λ i. first_of srv i.srvlist ≡ none) l
    → (choose srv l).0 ≡ map idle l
unfolding choose
choose-idle srv [] h = refl
choose-idle srv (i ∷ l) h =
    let nobody : next_active srv (record i { current = none }) ≡ none =
      next_active_start srv (record i { current = none }) refl ∙ h.0 in
    ground (arith, nobody, choose-none srv l h.1, choose-idle srv l h.1)

pub unsent_early :
    (forward_timeout reactivate_interval now : ℕ) (s : Srv)
    → s.send_time ≡ 0
    → is_timed_out forward_timeout reactivate_interval now s ≡ false
unfolding is_timed_out
unsent_early ft ri now s e = ground (arith, e)

-- Where no interface has an active server, and the head has no `current`, the client of a query of
-- four bytes or more gets a server failure, of the query's length.
pub forward_query_fails :
    (forward_timeout reactivate_interval now : ℕ) (s : State) (msg : List ℕ)
    → 4 ≤ length msg
    → All (λ i. first_of s.srv i.srvlist ≡ none) s.inf_list
    → (s.inf_list ≡ []) ⊎ (s.head_current ≡ none)
    → (m : List ℕ) × ((forward_query forward_timeout reactivate_interval now s msg).1
        ≡ Outcome.reply m)
      × (get_rcode (flags_of m) ≡ 2)
      × (length m ≡ length msg)
unfolding forward_query fail_query forward_head
forward_query_fails ft ri now s msg h none_active head =
    let (m, e, r, l) = set_srvfail_lem msg h in
    let s' = record s { inf_list = (choose s.srv s.inf_list).0 } in
    let nobody : head_at_end s' ≡ none = elim head [
      | inl f ↦ head_at_end-empty s' (rw f (choose-empty s.srv))
      | inr f ↦ head_at_end-none s' f
    ] in
    (
      m,
      rw
          (
            choose-none s.srv s.inf_list none_active,
            forward_query,
            nobody,
            forward_head,
            e,
            fail_query,
          )
          refl,
      r,
      l,
    )

-- Where there are interfaces, but no active server, and the head's `current` is a node to which
-- nothing was sent, the query goes on by the head, with no failure; the interfaces have no current
-- server, and nothing else changes.
pub forward_query-head :
    (forward_timeout reactivate_interval now h : ℕ) (s : State) (i : Inf) (l : List Inf)
    (msg : List ℕ)
    → s.inf_list ≡ i ∷ l
    → All (λ i. first_of s.srv i.srvlist ≡ none) s.inf_list
    → s.head_current ≡ some h
    → (s.srv h).send_time ≡ 0
    → forward_query forward_timeout reactivate_interval now s msg
      ≡ (record s { inf_list = map idle s.inf_list }, Outcome.forward none msg)
unfolding forward_query forward_head head_at_end
forward_query-head ft ri now h s i l msg some_inf none_active head unsent =
    let idle_now = choose-idle s.srv s.inf_list none_active in
    let s' = record s { inf_list = (choose s.srv s.inf_list).0 } in
    let there : head_at_end s' ≡ some h = rw (idle_now, some_inf) head in
    let early : is_timed_out ft ri now (s.srv h) ≡ false =
      unsent_early ft ri now (s.srv h) unsent in
    rw
      (
        choose-none s.srv s.inf_list none_active,
        forward_query,
        there,
        forward_head,
        early,
        idle_now,
      )
      refl
