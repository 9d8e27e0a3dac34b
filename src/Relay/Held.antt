-- ===== src/Relay/Held.antt =====
-- dnrd-2.20.3/src/relay.c with cache.c: handle_query where the cache holds an answer of a server that
-- is inactive, and `ignore_inactive_cache_hits` is set.
use dnrd.Prelude.{
  ℕ, ◌-◌, ◌≤◌, Bool, true, ◌≡◌, ◌≢◌, refl, ap, ◌∙◌, List, [], ◌∷◌, ◌++◌, Option, some, arith,
  length, take, drop, Option-cases, Bool-cases, inl, inr, suc, zero,
}
use dnrd.Dns.Packet.{Rr}
use dnrd.Cache.{copy_answer, cache_lookup, lookable}
use dnrd.Cache.Lookup.{HasCodes, find_answer, cache_lookup_held}
use dnrd.Udp.{State}
use dnrd.Relay.{
  Outcome, Looked, choose, check_current, current_at, fail_query, is_timed_out, head_at_end,
  forward_head, forward_query, set_srvfail, handle_query,
}

take-take_append : (n : ℕ) (xs ys : List ℕ) → n ≤ length xs → take n (xs ++ ys) ≡ take n xs
take-take_append zero xs ys h = refl
take-take_append (suc n) [] ys h = absurd (omega arith)
take-take_append (suc n) (x ∷ xs) ys h = ap (◌∷◌ x) (take-take_append n xs ys (omega arith))

two_less : (n : ℕ) → suc (suc n) - 2 ≡ n
two_less n = omega arith

-- The query's length of what `cache_lookup` has copied over it.
take-copy_answer :
    (msg answer : List ℕ)
    → 2 ≤ length msg
    → length msg ≤ length answer
    → take (length msg) (copy_answer msg answer)
      ≡ take 2 msg ++ take (length msg - 2) (drop 2 answer)
unfolding copy_answer
take-copy_answer [] answer h k = absurd (omega arith)
take-copy_answer (x ∷ []) answer h k = absurd (omega arith)
take-copy_answer (x ∷ y ∷ msg) [] h k = absurd (omega arith)
take-copy_answer (x ∷ y ∷ msg) (u ∷ []) h k = absurd (omega arith)
take-copy_answer (x ∷ y ∷ msg) (u ∷ v ∷ answer) h k = rw (two_less (length msg)) (
    ap (λ (t : List ℕ). x ∷ y ∷ t)
      (take-take_append (length msg) answer (drop (length answer) msg) (omega arith)))

-- A failure is no query that goes on.
fail_query-ne-forward :
    (msg m : List ℕ) (place : Option ℕ) → fail_query msg ≢ Outcome.forward place m
unfolding fail_query
fail_query-ne-forward msg m place = elim (Option-cases (set_srvfail msg)) [
  | inl o ↦ rw (o, fail_query) (λ e. ground (arith, e))
  | inr (x, o) ↦ rw (o, fail_query) (λ e. ground (arith, e))
]

forward_head_message :
    (ft ri now : ℕ) (s s' : State) (msg m : List ℕ) (place : Option ℕ)
    → forward_head ft ri now s msg ≡ (s', Outcome.forward place m)
    → m ≡ msg
unfolding forward_head
forward_head_message ft ri now s s' msg m place e = elim (Option-cases (head_at_end s)) [
  | inl o ↦ absurd (fail_query-ne-forward msg m place (ap (λ p. p.1) (rw (o, forward_head) at e)))
  | inr (h, o) ↦ elim (Bool-cases (is_timed_out ft ri now (s.srv h))) [
    | inl t ↦
        absurd (fail_query-ne-forward msg m place (ap (λ p. p.1) (rw (o, t, forward_head) at e)))
    | inr t ↦ ground (arith, ap (λ p. p.1) (rw (o, t, forward_head) at e))
  ]
]

-- What goes on is the message that was given.
forward_query_message :
    (ft ri now : ℕ) (s s' : State) (msg m : List ℕ) (place : Option ℕ)
    → forward_query ft ri now s msg ≡ (s', Outcome.forward place m)
    → m ≡ msg
unfolding forward_query
forward_query_message ft ri now s s' msg m place e =
    let (infs, chosen) = choose s.srv s.inf_list in
    elim (Option-cases chosen) [
      | inl o ↦
          forward_head_message ft ri now (record s { inf_list = infs }) s' msg m place
            (rw (o, forward_query) at e)
      | inr (n, o) ↦
          let (srv, infs') = check_current ft ri now s.srv infs n in
          elim (Option-cases (current_at infs' n)) [
            | inl c ↦
                absurd (
                  fail_query-ne-forward msg m place (ap (λ p. p.1) (rw (o, forward_query, c) at e)))
            | inr (a, c) ↦ ground (arith, ap (λ p. p.1) (rw (o, forward_query, c) at e))
          ]
    ]

-- With `ignore_inactive_cache_hits` set, where the master passes a query on and the first entry that
-- answers it is of an inactive server, what goes on to a server is not the query: behind the query's
-- id it has the bytes of the stored answer, cut to the query's length (if it is that long).
pub handle_query_held :
    (master_lookup : List ℕ → Looked) (valid : ℕ → Bool) (stack asked : Rr) (ft ri now a : ℕ)
    (s s' : State) (msg m : List ℕ) (place : Option ℕ)
    → master_lookup msg ≡ Looked.pass
    → HasCodes s.cache
    → lookable valid stack s.cache msg ≡ some asked
    → find_answer asked s.cache.cell s.cache.cachelist ≡ some a
    → (s.srv (s.cache.cell a).server).inactive ≢ 0
    → 2 ≤ length msg
    → length msg ≤ length (s.cache.cell a).p.packet
    → handle_query master_lookup valid stack true ft ri now s msg ≡ (s', Outcome.forward place m)
    → m ≡ take 2 msg ++ take (length msg - 2) (drop 2 (s.cache.cell a).p.packet)
unfolding handle_query
handle_query_held master_lookup valid stack asked ft ri now a s s' msg m place passes codes looks
      found down some_msg long e =
    let inactive : ℕ → ℕ = λ b. (s.srv b).inactive in
    let (no_len, copied) =
      cache_lookup_held valid stack asked inactive s.cache msg a now codes looks found down in
    let c = (cache_lookup valid stack true inactive s.cache msg now).cache in
    forward_query_message ft ri now (record s { cache = c }) s'
      (take (length msg) (cache_lookup valid stack true inactive s.cache msg now).packet) m place
      (rw (passes, handle_query, no_len) at e)
    ∙ ap (take (length msg)) copied
    ∙ take-copy_answer msg (s.cache.cell a).p.packet some_msg long
