-- ===== src/Query/Kept.antt =====
-- dnrd-2.20.3/src/query.c: the whole of query_add and of query_timeout keeps the ids.
use mathlib.Core.List.{
  append-nil, append_assoc, mem-append_right, erase-cons-head, erase-cons-tail, mem-cons_self,
  mem-cons_of_mem, erase, Mem, Nodup, Nodup-cons,
}
use native.Mathlib.Decide.{ℕ_discrete}
use dnrd.Prelude.{
  ℕ, zero, suc, ◌+◌, ◌≤◌, Bool, ◌≡◌, ◌≢◌, refl, sym, ap, ◌∙◌, List, [], ◌∷◌, ◌++◌, none, some,
  arith, length, ◌==◌, All, Bool-cases, Option-cases, inl, inr,
}
use dnrd.Prelude.Int.{ℤ}
use dnrd.Qid.{available}
use dnrd.Query.{Query, Queries, Outside, raw_id, find_query, query_create, link_query, query_add}
use dnrd.Query.Invariant.{held, IsKept, ids_apart, query_add-IsKept, query_delete-IsKept}
use dnrd.Query.Add.{query_add_new}
use dnrd.Query.Timeout.{
  too_old, send_failure, drop_query, sweep, sweep_fuel, query_timeout, drop_query_frame,
}

-- Nodes that differ in other fields hold the same ids.
held_same :
    (f g : ℕ → Query) (l : List ℕ) → ((b : ℕ) → (f b).my_qid ≡ (g b).my_qid) → held f l ≡ held g l
unfolding held
held_same f g [] same = refl
held_same f g (b ∷ l) same = ground (arith, same b, held_same f g l same)

pub IsKept-same :
    (s s' : Queries)
    → s'.qlist ≡ s.qlist
    → s'.pool ≡ s.pool
    → ((b : ℕ) → (s'.cell b).my_qid ≡ (s.cell b).my_qid)
    → IsKept s
    → IsKept s'
IsKept-same s s' l p same k = record {
  pool_ok = rw p k.pool_ok;
  ids = rw (p, held_same s'.cell s.cell s'.qlist same, l) k.ids;
}

-- What a call of `query_create` can rely on: a free id for its random number, and a new address.
abbrev pub CanAdd : Queries → Outside → Type 0
CanAdd s out =
    ((n : ℕ) × (s.pool.free ≡ suc n) × (out.random ≤ n)) × All (λ b. b ≢ out.address) s.qlist

query_add_old :
    (s : Queries) (out : Outside) (max_sockets : ℤ) (ttl srv client now q : ℕ) (dummy : Bool)
    (msg : List ℕ)
    → find_query (raw_id msg) s.cell s.qlist ≡ some q
    → let s' = (query_add s out max_sockets ttl dummy srv client msg now).0 in
      (s'.qlist ≡ s.qlist) × (s'.pool ≡ s.pool) × ((b : ℕ) → (s'.cell b).my_qid ≡ (s.cell b).my_qid)
unfolding query_add
query_add_old s out max_sockets ttl srv client now q dummy msg e =
    rw (e, query_add) (refl, refl, λ b. ground arith)

query_add_fails :
    (s : Queries) (out : Outside) (max_sockets : ℤ) (ttl srv client now : ℕ) (dummy : Bool)
    (msg : List ℕ)
    → find_query (raw_id msg) s.cell s.qlist ≡ none
    → (query_add s out max_sockets ttl dummy srv client msg now).2 ≡ none
    → let s' = (query_add s out max_sockets ttl dummy srv client msg now).0 in
      (s'.qlist ≡ s.qlist) × (s'.pool ≡ s.pool) × (s'.cell ≡ s.cell)
unfolding query_add query_create link_query
query_add_fails s out max_sockets ttl srv client now dummy msg e f = ground (arith, e, f)

-- Whether it finds the query, links a new one or fails, `query_add` keeps each id held by one
-- waiting query or free.
pub query_add_keeps :
    (s : Queries) (out : Outside) (max_sockets : ℤ) (ttl srv client now : ℕ) (dummy : Bool)
    (msg : List ℕ)
    → IsKept s
    → CanAdd s out
    → IsKept (query_add s out max_sockets ttl dummy srv client msg now).0
query_add_keeps s out max_sockets ttl srv client now dummy msg k can =
    elim (Option-cases (find_query (raw_id msg) s.cell s.qlist)) [
      | inr (q, e) ↦
          let (l, p, c) = query_add_old s out max_sockets ttl srv client now q dummy msg e in
          IsKept-same s _ l p c k
      | inl e ↦ elim (Option-cases (query_add s out max_sockets ttl dummy srv client msg now).2) [
        | inl f ↦
            let (l, p, c) = query_add_fails s out max_sockets ttl srv client now dummy msg e f in
            IsKept-same s _ l p (λ b. ap (λ (g : ℕ → Query). (g b).my_qid) c) k
        | inr (q, f) ↦
            let ((n, free, r), apart) = can in
            query_add-IsKept s out max_sockets ttl srv client now q n dummy msg k free r e apart f
      ]
    ]

find_query-Mem :
    (id q : ℕ) (cell : ℕ → Query) (l : List ℕ) → find_query id cell l ≡ some q → Mem q l
unfolding find_query
find_query-Mem id q cell [] e = absurd (cc)
find_query-Mem id q cell (b ∷ l) e = elim (Bool-cases ((cell b).client_qid == id)) [
  | inl o ↦ let same : q ≡ b = ground (arith, rw (o, find_query) at e) in rw same mem-cons_self
  | inr o ↦ mem-cons_of_mem b (find_query-Mem id q cell l (rw (o, find_query) at e))
]

query_add_finds :
    (s : Queries) (out : Outside) (max_sockets : ℤ) (ttl srv client now p : ℕ) (dummy : Bool)
    (msg : List ℕ)
    → find_query (raw_id msg) s.cell s.qlist ≡ some p
    → (query_add s out max_sockets ttl dummy srv client msg now).2 ≡ some p
unfolding query_add
query_add_finds s out max_sockets ttl srv client now p dummy msg e = rw (e, query_add) refl

-- The query that `query_add` gives waits in the list.
pub query_add-Mem :
    (s : Queries) (out : Outside) (max_sockets : ℤ) (ttl srv client now q : ℕ) (dummy : Bool)
    (msg : List ℕ)
    → (query_add s out max_sockets ttl dummy srv client msg now).2 ≡ some q
    → Mem q (query_add s out max_sockets ttl dummy srv client msg now).0.qlist
query_add-Mem s out max_sockets ttl srv client now q dummy msg f =
    elim (Option-cases (find_query (raw_id msg) s.cell s.qlist)) [
      | inr (p, e) ↦
          let (l, _, _) = query_add_old s out max_sockets ttl srv client now p dummy msg e in
          let same : q ≡ p =
            ground (arith, f, query_add_finds s out max_sockets ttl srv client now p dummy msg e) in
          rw (l, same) (find_query-Mem (raw_id msg) p s.cell s.qlist e)
      | inl e ↦
          rw (query_add_new s out max_sockets ttl srv client now q dummy msg e f).1
            (mem-append_right s.qlist mem-cons_self)
    ]

send_failure_same :
    (s : Queries) (q : ℕ)
    → ((send_failure s q).qlist ≡ s.qlist)
      × ((send_failure s q).pool ≡ s.pool)
      × ((send_failure s q).cell ≡ s.cell)
unfolding send_failure
send_failure_same s q = ground arith

drop_query-IsKept : (s : Queries) (q : ℕ) → IsKept s → Mem q s.qlist → IsKept (drop_query s q)
unfolding drop_query
drop_query-IsKept s q k m =
    let (l, p, c) = send_failure_same s q in
    query_delete-IsKept (send_failure s q) q
      (IsKept-same s _ l p (λ b. ap (λ (g : ℕ → Query). (g b).my_qid) c) k) (rw l m)

-- A node among others holds its id among theirs.
Mem-held :
    (cell : ℕ → Query) (l m rest : List ℕ) (q : ℕ)
    → Mem (cell q).my_qid (held cell (l ++ (q ∷ m)) ++ rest)
unfolding held
Mem-held cell [] m rest q = mem-cons_self
Mem-held cell (b ∷ l) m rest q = mem-cons_of_mem (cell b).my_qid (Mem-held cell l m rest q)

-- Nodes that hold different ids are different.
apart_of_ids :
    (cell : ℕ → Query) (l m rest : List ℕ) (q : ℕ)
    → Nodup (held cell (l ++ (q ∷ m)) ++ rest)
    → All (λ b. b ≢ q) l
unfolding held
apart_of_ids cell [] m rest q d = tt
apart_of_ids cell (b ∷ l) m rest q d =
    let (out, d') = Nodup-cons.0 d in
    (λ (e : b ≡ q). out (rw e (Mem-held cell l m rest q)), apart_of_ids cell l m rest q d')

erase-middle :
    (l m : List ℕ) (q : ℕ) → All (λ b. b ≢ q) l → erase ℕ_discrete (l ++ (q ∷ m)) q ≡ l ++ m
erase-middle [] m q h = erase-cons-head ℕ_discrete q m
erase-middle (b ∷ l) m q h =
    erase-cons-tail ℕ_discrete (l ++ (q ∷ m)) h.0 ∙ ap (◌∷◌ b) (erase-middle l m q h.1)

drop_query-qlist :
    (s : Queries) (q : ℕ) (passed ahead : List ℕ)
    → IsKept s
    → s.qlist ≡ passed ++ (q ∷ ahead)
    → (drop_query s q).qlist ≡ passed ++ ahead
drop_query-qlist s q passed ahead k e =
    let apart : All (λ b. b ≢ q) passed =
      apart_of_ids s.cell passed ahead (available s.pool) q (rw e at (ids_apart s k)) in
    (drop_query_frame s q).0
    ∙ ap (λ (l : List ℕ). erase ℕ_discrete l q) e
    ∙ erase-middle passed ahead q apart

-- The node between two lists.
Mem-middle : (l m : List ℕ) (q : ℕ) → Mem q (l ++ (q ∷ m))
Mem-middle l m q = mem-append_right l mem-cons_self

sweep-IsKept :
    (fuel now : ℕ) (passed ahead : List ℕ) (s : Queries) (count : ℕ) (r : Queries × ℕ)
    → IsKept s
    → s.qlist ≡ passed ++ ahead
    → sweep fuel now passed ahead s count ≡ some r
    → IsKept r.0
unfolding sweep
sweep-IsKept zero now passed ahead s count r k l e = absurd (cc)
sweep-IsKept (suc fuel) now passed [] s count r k l e =
    let same : (s, count) ≡ r = ground (arith, e) in rw (← same) k
sweep-IsKept (suc fuel) now passed (q ∷ []) s count r k l e =
    elim (Bool-cases (too_old now (s.cell q))) [
      | inl o ↦
          sweep-IsKept fuel now [] passed (drop_query s q) (count + 1) r
            (drop_query-IsKept s q k (rw l (Mem-middle passed [] q)))
            (drop_query-qlist s q passed [] k l ∙ append-nil passed) (rw (o, sweep) at e)
      | inr o ↦
          sweep-IsKept fuel now (passed ++ (q ∷ [])) [] s count r k
            (l ∙ sym (append-nil (passed ++ (q ∷ [])))) (rw (o, sweep) at e)
    ]
sweep-IsKept (suc fuel) now passed (q ∷ p ∷ ahead) s count r k l e =
    elim (Bool-cases (too_old now (s.cell q))) [
      | inl o ↦
          sweep-IsKept fuel now (passed ++ (p ∷ [])) ahead (drop_query s q) (count + 1) r
            (drop_query-IsKept s q k (rw l (Mem-middle passed (p ∷ ahead) q)))
            (drop_query-qlist s q passed (p ∷ ahead) k l ∙ sym (append_assoc passed (p ∷ []) ahead))
            (rw (o, sweep) at e)
      | inr o ↦
          sweep-IsKept fuel now (passed ++ (q ∷ [])) (p ∷ ahead) s count r k
            (l ∙ sym (append_assoc passed (q ∷ []) (p ∷ ahead))) (rw (o, sweep) at e)
    ]

-- `query_timeout` keeps each id held by one waiting query or free.
pub query_timeout-IsKept :
    (s s' : Queries) (now : ℕ) → IsKept s → query_timeout s now ≡ some s' → IsKept s'
unfolding query_timeout
query_timeout-IsKept s s' now k e =
    elim (Option-cases (sweep (sweep_fuel (length s.qlist)) now [] s.qlist s 0)) [
      | inl o ↦ absurd (ground (arith, rw (o, query_timeout) at e))
      | inr (r, o) ↦
          let k' = sweep-IsKept (sweep_fuel (length s.qlist)) now [] s.qlist s 0 r k refl o in
          let same : record r.0 { total_timeouts = r.0.total_timeouts + r.1 } ≡ s' =
            ground (arith, rw (o, query_timeout) at e) in
          rw (← same) (record { pool_ok = k'.pool_ok; ids = k'.ids })
    ]
