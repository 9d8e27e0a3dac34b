-- ===== src/Query/Timeout.antt =====
-- dnrd-2.20.3/src/query.c: query_timeout, which removes the queries that are too old. Its loop
-- moves on by `q = q->next` also after it has unlinked `q->next`.
use mathlib.Core.List.{
  erase, Mem, mem-erase_of_ne, mem-append_right, mem-cons_of_mem, mem-cons_self, append-nil,
  append_assoc,
}
use native.Mathlib.Decide.{ℕ_discrete}
use dnrd.Prelude.{
  ℕ, zero, suc, ◌+◌, ◌*◌, ◌<◌, Bool, true, false, ◌&&◌, ◌≡◌, ◌≢◌, refl, ap, ◌∙◌, inl, inr, List, [],
  ◌∷◌, ◌++◌, Option, none, some, arith, ltb, if◌then◌else◌, length, length-append, not, All,
  Bool-cases,
}
use mathlib.Core.Bool.{false≢true}
use dnrd.Qid.{qid_return}
use dnrd.Query.{Query, Queries, set_raw_id, query_delete, close_sockets}

-- `client_time < now - ttl`.
unfoldable pub too_old : ℕ → Query → Bool
too_old now q = ltb (q.client_time + q.ttl) now

-- A failure that was kept is sent to a client that had no answer.
unfoldable pub send_failure : Queries → ℕ → Queries
send_failure s q =
    if ltb 0 (length (s.cell q).fail_msg) && not (s.cell q).resp_sent
    then record s {
      sent =
          s.sent
          ++ (record {
            to = (s.cell q).client;
            bytes = set_raw_id (s.cell q).client_qid (s.cell q).fail_msg;
          }
              ∷ []);
    }
    else s

unfoldable pub drop_query : Queries → ℕ → Queries
unfolding send_failure
drop_query s q = query_delete (send_failure s q) q

-- The loop: `passed` are the nodes up to `q`, and `ahead` those from `q->next` on. After an
-- unlinked node the next one is passed over; where the last one was unlinked, `q->next` is the
-- head, and the loop starts again behind it. The result is the state, and how many were removed;
-- `none` says that the fuel ran out.
unfoldable pub sweep : ℕ → ℕ → List ℕ → List ℕ → Queries → ℕ → Option (Queries × ℕ)
unfolding too_old drop_query
sweep zero now passed ahead s count = none
sweep (suc fuel) now passed [] s count = some (s, count)
sweep (suc fuel) now passed (q ∷ []) s count = elim (too_old now (s.cell q)) [
  | true ↦ sweep fuel now [] passed (drop_query s q) (count + 1)
  | false ↦ sweep fuel now (passed ++ (q ∷ [])) [] s count
]
sweep (suc fuel) now passed (q ∷ r ∷ ahead) s count = elim (too_old now (s.cell q)) [
  | true ↦ sweep fuel now (passed ++ (r ∷ [])) ahead (drop_query s q) (count + 1)
  | false ↦ sweep fuel now (passed ++ (q ∷ [])) (r ∷ ahead) s count
]

-- Enough for every list of `n` nodes: a removal may start a whole round again.
abbrev pub sweep_fuel : ℕ → ℕ
sweep_fuel n = n * (n + 1) + n + 1

unfoldable pub query_timeout : Queries → ℕ → Option Queries
unfolding sweep
query_timeout s now = elim (sweep (sweep_fuel (length s.qlist)) now [] s.qlist s 0) [
  | none ↦ none
  | some (s', count) ↦ some (record s' { total_timeouts = s'.total_timeouts + count })
]

-- The loop ends: with `n` nodes in the two lists, so much fuel is enough.
sweep_total :
    (fuel now n : ℕ) (passed ahead : List ℕ) (s : Queries) (count : ℕ)
    → length passed + length ahead ≡ n
    → n * (n + 1) + length ahead < fuel
    → (r : Queries × ℕ) × (sweep fuel now passed ahead s count ≡ some r)
unfolding sweep
sweep_total zero now n passed ahead s count e h = absurd (omega arith)
sweep_total (suc fuel) now n passed [] s count e h = ((s, count), refl)
sweep_total (suc fuel) now zero passed (q ∷ []) s count e h = absurd (omega arith)
sweep_total (suc fuel) now (suc n) passed (q ∷ []) s count e h =
    elim (Bool-cases (too_old now (s.cell q))) [
      | inl o ↦
          rw (o, sweep)
            (sweep_total fuel now n [] passed (drop_query s q) (count + 1) (omega arith)
              (omega arith))
      | inr o ↦
          rw (o, sweep)
            (sweep_total fuel now (suc n) (passed ++ (q ∷ [])) [] s count
              (omega (arith, length-append passed (q ∷ []))) (omega arith))
    ]
sweep_total (suc fuel) now zero passed (q ∷ r ∷ ahead) s count e h = absurd (omega arith)
sweep_total (suc fuel) now (suc n) passed (q ∷ r ∷ ahead) s count e h =
    elim (Bool-cases (too_old now (s.cell q))) [
      | inl o ↦
          rw (o, sweep)
            (sweep_total fuel now n (passed ++ (r ∷ [])) ahead (drop_query s q) (count + 1)
              (omega (arith, length-append passed (r ∷ []))) (omega arith))
      | inr o ↦
          rw (o, sweep)
            (sweep_total fuel now (suc n) (passed ++ (q ∷ [])) (r ∷ ahead) s count
              (omega (arith, length-append passed (q ∷ []))) (omega arith))
    ]

timeout_of :
    (s : Queries) (now : ℕ) (r : Queries × ℕ)
    → sweep (sweep_fuel (length s.qlist)) now [] s.qlist s 0 ≡ some r
    → query_timeout s now ≡ some (record r.0 { total_timeouts = r.0.total_timeouts + r.1 })
unfolding query_timeout
timeout_of s now r e = rw (e, query_timeout)

-- `query_timeout` ends on every list.
pub query_timeout_total : (s : Queries) (now : ℕ) → (s' : Queries) × (query_timeout s now ≡ some s')
query_timeout_total s now =
    let (r, e) =
      sweep_total (sweep_fuel (length s.qlist)) now (length s.qlist) [] s.qlist s 0 (omega arith)
        (omega arith) in
    (record r.0 { total_timeouts = r.0.total_timeouts + r.1 }, timeout_of s now r e)

-- Closing sockets leaves the list and the nodes alone.
pub close_sockets_frame :
    (l : List ℕ) (s : Queries)
    → ((close_sockets l s).qlist ≡ s.qlist)
      × ((close_sockets l s).cell ≡ s.cell)
      × ((close_sockets l s).pool ≡ s.pool)
unfolding close_sockets
close_sockets_frame [] s = (refl, refl, refl)
close_sockets_frame (fd ∷ l) s = close_sockets_frame l _

pub query_delete_frame :
    (s : Queries) (q : ℕ)
    → ((query_delete s q).qlist ≡ erase ℕ_discrete s.qlist q)
      × ((query_delete s q).cell ≡ s.cell)
      × ((query_delete s q).pool ≡ qid_return s.pool (s.cell q).my_qid)
unfolding query_delete
query_delete_frame s q = close_sockets_frame (s.cell q).sock_arr _

send_failure_frame :
    (s : Queries) (q : ℕ)
    → ((send_failure s q).qlist ≡ s.qlist) × ((send_failure s q).cell ≡ s.cell)
unfolding send_failure
send_failure_frame s q = ground arith

pub drop_query_frame :
    (s : Queries) (q : ℕ)
    → ((drop_query s q).qlist ≡ erase ℕ_discrete s.qlist q) × ((drop_query s q).cell ≡ s.cell)
unfolding drop_query
drop_query_frame s q =
    let (a, b, _) = query_delete_frame (send_failure s q) q in
    let (c, d) = send_failure_frame s q in (a ∙ ap (λ (l : List ℕ). erase ℕ_discrete l q) c, b ∙ d)

-- A node that is not too old stays in the list when another is dropped.
drop_query_stays :
    (now a q : ℕ) (s : Queries)
    → Mem a s.qlist
    → too_old now (s.cell a) ≡ false
    → too_old now (s.cell q) ≡ true
    → Mem a (drop_query s q).qlist
drop_query_stays now a q s m young old =
    rw (drop_query_frame s q).0
      ((mem-erase_of_ne ℕ_discrete (λ (e : a ≡ q). false≢true (rw (← young, e) old))).1 m)

sweep_stays :
    (fuel now a : ℕ) (passed ahead : List ℕ) (s : Queries) (count : ℕ) (r : Queries × ℕ)
    → Mem a s.qlist
    → too_old now (s.cell a) ≡ false
    → sweep fuel now passed ahead s count ≡ some r
    → (Mem a r.0.qlist) × (r.0.cell ≡ s.cell)
unfolding sweep
sweep_stays zero now a passed ahead s count r m y e = absurd (cc)
sweep_stays (suc fuel) now a passed [] s count r m y e =
    let e' : (s, count) ≡ r = ground (arith, e) in rw (← e') (m, refl)
sweep_stays (suc fuel) now a passed (q ∷ []) s count r m y e =
    elim (Bool-cases (too_old now (s.cell q))) [
      | inl o ↦
          let f = (drop_query_frame s q).1 in
          let (k, c) =
            sweep_stays fuel now a [] passed (drop_query s q) (count + 1) r
              (drop_query_stays now a q s m y o) (rw f y) (rw (o, sweep) at e) in
          (k, c ∙ f)
      | inr o ↦ sweep_stays fuel now a (passed ++ (q ∷ [])) [] s count r m y (rw (o, sweep) at e)
    ]
sweep_stays (suc fuel) now a passed (q ∷ p ∷ ahead) s count r m y e =
    elim (Bool-cases (too_old now (s.cell q))) [
      | inl o ↦
          let f = (drop_query_frame s q).1 in
          let (k, c) =
            sweep_stays fuel now a (passed ++ (p ∷ [])) ahead (drop_query s q) (count + 1) r
              (drop_query_stays now a q s m y o) (rw f y) (rw (o, sweep) at e) in
          (k, c ∙ f)
      | inr o ↦
          sweep_stays fuel now a (passed ++ (q ∷ [])) (p ∷ ahead) s count r m y (rw (o, sweep) at e)
    ]

-- A query that waits no longer than its time to live stays in the list, and no node changes.
pub query_timeout_stays :
    (s s' : Queries) (now a : ℕ)
    → Mem a s.qlist
    → too_old now (s.cell a) ≡ false
    → query_timeout s now ≡ some s'
    → (Mem a s'.qlist) × (s'.cell ≡ s.cell)
query_timeout_stays s s' now a m young e =
    let (r, f) =
      sweep_total (sweep_fuel (length s.qlist)) now (length s.qlist) [] s.qlist s 0 (omega arith)
        (omega arith) in
    let g : record r.0 { total_timeouts = r.0.total_timeouts + r.1 } ≡ s' =
      ground (arith, timeout_of s now r f, e) in
    rw (← g) (sweep_stays (sweep_fuel (length s.qlist)) now a [] s.qlist s 0 r m young f)

-- Young nodes are passed over.
sweep_young :
    (now : ℕ) (l rest passed : List ℕ) (s : Queries) (count fuel k : ℕ)
    → All (λ a. too_old now (s.cell a) ≡ false) l
    → k ≡ length l + fuel
    → sweep k now passed (l ++ rest) s count ≡ sweep fuel now (passed ++ l) rest s count
unfolding sweep
sweep_young now [] rest passed s count fuel k y e =
    let f : k ≡ fuel = omega arith in rw (f, append-nil passed) refl
sweep_young now (a ∷ l) rest passed s count fuel zero y e = absurd (omega arith)
sweep_young now (a ∷ []) [] passed s count fuel (suc k) y e =
    let f : k ≡ fuel = omega arith in rw (y.0, sweep, f) refl
sweep_young now (a ∷ []) (b ∷ rest) passed s count fuel (suc k) y e =
    let f : k ≡ fuel = omega arith in rw (y.0, sweep, f) refl
sweep_young now (a ∷ b ∷ l) rest passed s count fuel (suc k) y e =
    rw (y.0, sweep)
      (sweep_young now (b ∷ l) rest (passed ++ (a ∷ [])) s count fuel k y.1 (omega arith)
        ∙ ap (λ (p : List ℕ). sweep fuel now p rest s count) (append_assoc passed (a ∷ []) (b ∷ l)))

sweep_pair :
    (fuel now q r count : ℕ) (passed : List ℕ) (s : Queries)
    → too_old now (s.cell q) ≡ true
    → sweep (suc (suc fuel)) now passed (q ∷ r ∷ []) s count ≡ some (drop_query s q, count + 1)
unfolding sweep
sweep_pair fuel now q r count passed s old = rw (old, sweep) refl

-- The node behind a removed one is passed over: with all earlier queries young, the last but one
-- is removed, and the last one stays, however old it is.
pub query_timeout_skips :
    (s s' : Queries) (now q r : ℕ) (pre : List ℕ)
    → s.qlist ≡ pre ++ (q ∷ r ∷ [])
    → All (λ a. too_old now (s.cell a) ≡ false) pre
    → too_old now (s.cell q) ≡ true
    → query_timeout s now ≡ some s'
    → (s'.qlist ≡ erase ℕ_discrete s.qlist q) × (r ≢ q → Mem r s'.qlist)
query_timeout_skips s s' now q r pre e young old t =
    let n : ℕ = length s.qlist in
    let k : n ≡ length pre + 2 = rw e (length-append pre (q ∷ r ∷ [])) in
    let rest : ℕ = n * (n + 1) + 1 in
    let f : sweep (sweep_fuel n) now [] s.qlist s 0 ≡ some (drop_query s q, 1) =
      ap (λ (l : List ℕ). sweep (sweep_fuel n) now [] l s 0) e
      ∙ (sweep_young now pre (q ∷ r ∷ []) [] s 0 (suc (suc rest)) (sweep_fuel n) young (omega arith)
          ∙ sweep_pair rest now q r 0 pre s old) in
    let g : record (drop_query s q) { total_timeouts = (drop_query s q).total_timeouts + 1 } ≡ s' =
      ground (arith, timeout_of s now (drop_query s q, 1) f, t) in
    rw (← g) (
      (drop_query_frame s q).0,
      λ d. rw (drop_query_frame s q).0 (
          (mem-erase_of_ne ℕ_discrete d).1
            (rw e (mem-append_right pre (mem-cons_of_mem q mem-cons_self)))),
    )
