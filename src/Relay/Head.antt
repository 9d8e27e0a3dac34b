-- ===== src/Relay/Head.antt =====
-- dnrd-2.20.3/src/relay.c: handle_query and deactivate_servers leave the `current` of the head of
-- inf_list as main has set it.
use dnrd.Prelude.{
  ℕ, zero, suc, ◌<◌, false, ◌≡◌, ◌≢◌, refl, sym, ◌∙◌, List, [], ◌∷◌, none, some, arith, length, All,
  Bool-cases, Option-cases, inl, inr,
}
use dnrd.Server.{Srv, Inf, next_active}
use dnrd.Server.Apart.{Apart, Untouched, next_active-Apart, deactivate_current-Apart}
use dnrd.Udp.{State}
use dnrd.Relay.Choice.{unsent_early}
use dnrd.Relay.{choose, is_timed_out, check_current, head_at_end, forward_head, forward_query}

-- The head's `current` is a node that is no server and to which nothing was sent, and there is an
-- interface.
pub record IsHeaded (h : ℕ) (s : State) : Type 0 where
  pub head : s.head_current ≡ some h
  pub some_inf : 0 < length s.inf_list
  pub untouched : Untouched h (length s.inf_list) s.srv s.inf_list

choose-Apart :
    (h : ℕ) (srv : ℕ → Srv) (l : List Inf)
    → All (Apart h) l
    → All (Apart h) (choose srv l).0 × (length (choose srv l).0 ≡ length l)
unfolding choose
choose-Apart h srv [] k = (tt, refl)
choose-Apart h srv (i ∷ l) k =
    let i' : Inf = record i { current = none } in
    let fresh : Apart h i' = ((λ e. absurd (ground (arith, e))), k.0.1) in
    let other = next_active-Apart h srv i' fresh in
    let (rest, same) = choose-Apart h srv l k.1 in
    elim (Option-cases (next_active srv i')) [
      | inl o ↦ rw (o, choose) (((other, k.0.1), rest), omega (arith, same))
      | inr (a, o) ↦ rw (o, choose) (((other, k.0.1), k.1), refl)
    ]

check_current-Untouched :
    (ft ri now h n : ℕ) (srv : ℕ → Srv) (l : List Inf) (place : ℕ)
    → Untouched h n srv l
    → let (srv', l') = check_current ft ri now srv l place in (place < n) → Untouched h n srv' l'
unfolding check_current
check_current-Untouched ft ri now h n srv [] place k less = k
check_current-Untouched ft ri now h n srv (i ∷ l) (suc place) (t, k, e) less =
    let (t', k', e') =
      check_current-Untouched ft ri now h (length l) srv l place (t, k.1, refl) (omega arith) in
    (t', (k.0, k'), omega (arith, e'))
check_current-Untouched ft ri now h n srv (i ∷ l) zero (t, k, e) less =
    elim (Option-cases i.current) [
      | inl o ↦ rw (o, check_current) (t, k, e)
      | inr (a, o) ↦ elim (Bool-cases (is_timed_out ft ri now (srv a))) [
        | inl out ↦
            let (apart, same) = deactivate_current-Apart h srv i now k.0 in
            rw (o, check_current, out) (same ∙ t, (apart, k.1), e)
        | inr out ↦ rw (o, check_current, out) (t, k, e)
      ]
    ]

choose-some_lt : (srv : ℕ → Srv) (l : List Inf) (n : ℕ) → (choose srv l).1 ≡ some n → n < length l
unfolding choose
choose-some_lt srv [] n e = absurd (cc)
choose-some_lt srv (i ∷ l) n e =
    elim (Option-cases (next_active srv (record i { current = none }))) [
      | inl o ↦ elim (Option-cases (choose srv l).1) [
        | inl p ↦ absurd (ground (arith, o, p, e))
        | inr (m, p) ↦
            let less = choose-some_lt srv l m p in
            let same : suc m ≡ n = ground (arith, rw (o, choose, p) at e) in omega arith
      ]
      | inr (a, o) ↦ let same : 0 ≡ n = ground (arith, rw (o, choose) at e) in omega arith
    ]

-- A state whose `current` of the head is the same, and whose servers and interfaces are untouched.
pub headed :
    (h : ℕ) (s s' : State)
    → IsHeaded h s
    → s'.head_current ≡ s.head_current
    → Untouched h (length s.inf_list) s'.srv s'.inf_list
    → IsHeaded h s'
headed h s s' k same (unsent, apart, long) = record {
  head = same ∙ k.head;
  some_inf = rw long k.some_inf;
  untouched = (unsent, apart, refl);
}

forward_head-same :
    (ft ri now h : ℕ) (s : State) (msg : List ℕ)
    → s.head_current ≡ some h
    → (s.srv h).send_time ≡ 0
    → 0 < length s.inf_list
    → (forward_head ft ri now s msg).0 ≡ s
unfolding forward_head head_at_end
forward_head-same ft ri now h s msg head unsent some_inf = elim (Option-cases (head_at_end s)) [
  | inl o ↦ absurd (nobody s.inf_list refl o)
  | inr (a, o) ↦
      let same : some a ≡ some h = sym o ∙ at_end s.inf_list refl in
      let there : a ≡ h = ground (arith, same) in
      let early : is_timed_out ft ri now (s.srv a) ≡ false =
        unsent_early ft ri now (s.srv a) (rw there unsent) in
      rw (o, forward_head, early) refl
]
  where
    at_end : (l : List Inf) → s.inf_list ≡ l → head_at_end s ≡ some h
    at_end [] e = absurd (ground (arith, e, some_inf))
    at_end (i ∷ l) e = rw (e, head_at_end) head

    nobody : (l : List Inf) → s.inf_list ≡ l → head_at_end s ≢ none
    nobody l e o = absurd (ground (arith, sym o ∙ at_end l e))

-- `handle_query` leaves it so from the choice of an interface on.
pub forward_query-IsHeaded :
    (ft ri now h : ℕ) (s : State) (msg : List ℕ)
    → IsHeaded h s
    → IsHeaded h (forward_query ft ri now s msg).0
unfolding forward_query
forward_query-IsHeaded ft ri now h s msg k =
    let (infs, place) = choose s.srv s.inf_list in
    let (apart, long) = choose-Apart h s.srv s.inf_list k.untouched.1 in
    elim (Option-cases (choose s.srv s.inf_list).1) [
      | inl p ↦
          let s' : State = record s { inf_list = infs } in
          let some_inf : 0 < length infs = rw long k.some_inf in
          let same = forward_head-same ft ri now h s' msg k.head k.untouched.0 some_inf in
          rw (p, forward_query, same) (headed h s s' k refl (k.untouched.0, apart, long))
      | inr (n, p) ↦
          let less : n < length s.inf_list = choose-some_lt s.srv s.inf_list n p in
          let (srv, infs') = check_current ft ri now s.srv infs n in
          let s' : State = record s { inf_list = infs'; srv = srv } in
          rw (p, forward_query)
            (headed h s s' k refl (
              check_current-Untouched ft ri now h (length s.inf_list) s.srv infs n
                (k.untouched.0, apart, long) less))
    ]
