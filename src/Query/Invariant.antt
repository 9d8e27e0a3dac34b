-- ===== src/Query/Invariant.antt =====
-- dnrd-2.20.3/src/query.c and qid.c: each id is held by one waiting query or free in the pool, and
-- `upstream_sockets` counts the sockets of the waiting queries.
use mathlib.Core.List.{
  erase, Mem, Perm, Nodup, append_assoc, perm_cons_erase, perm_middle, not-mem-nil,
  eq-or-mem_of_mem-cons, Nodup-cons, Pairwise,
}
use mathlib.Core.Logic.Or
use mathlib.Core.HLevel.{⊥_prop}
use mathlib.Core.List.Perm
use native.Mathlib.Decide.{ℕ_discrete}
use dnrd.Prelude.{
  ℕ, zero, suc, ◌+◌, ◌≤◌, ◌<◌, Bool, ◌≡◌, ◌≢◌, refl, ap, List, [], ◌∷◌, ◌++◌, none, some, arith,
  length, length-append, All, map, take,
}
use dnrd.Prelude.Int.{ℤ}
use dnrd.Prelude.Perms.{length-perm}
use dnrd.Qid.{
  IsPool, available, count_from, count_from-length, qid_get, qid_get_takes, qid_return_adds,
  qid_init_pool-IsPool, available-qid_init_pool,
}
use dnrd.Query.{Query, Queries, Outside, raw_id, find_query, query_add, query_delete, query_init}
use dnrd.Query.Add.{query_add_new}
use dnrd.Query.Timeout.{query_delete_frame}

-- The ids of the waiting queries, in the list's order.
unfoldable pub held : (ℕ → Query) → List ℕ → List ℕ
held cell [] = []
held cell (q ∷ l) = (cell q).my_qid ∷ held cell l

-- Every id is held by exactly one waiting query or free.
pub record IsKept (s : Queries) : Type 0 where
  pub pool_ok : IsPool s.pool
  pub ids : Perm (held s.cell s.qlist ++ available s.pool) (count_from 0 65536)

held-map : (cell : ℕ → Query) (l : List ℕ) → held cell l ≡ map (λ q. (cell q).my_qid) l
unfolding held
held-map cell [] = refl
held-map cell (q ∷ l) = ap (◌∷◌ (cell q).my_qid) (held-map cell l)

held-append : (cell : ℕ → Query) (l m : List ℕ) → held cell (l ++ m) ≡ held cell l ++ held cell m
unfolding held
held-append cell [] m = refl
held-append cell (q ∷ l) m = ap (◌∷◌ (cell q).my_qid) (held-append cell l m)

held_frame :
    (f g : ℕ → Query) (q : ℕ) (l : List ℕ)
    → ((b : ℕ) → b ≢ q → f b ≡ g b)
    → All (λ b. b ≢ q) l
    → held f l ≡ held g l
unfolding held
held_frame f g q [] same apart = refl
held_frame f g q (b ∷ l) same apart =
    ground (arith, same b apart.0, held_frame f g q l same apart.1)

pub query_init-IsKept : IsKept query_init
unfolding query_init held
query_init-IsKept = record {
  pool_ok = qid_init_pool-IsPool;
  ids = rw (available-qid_init_pool 65536) (Perm.refl (count_from 0 65536));
}

-- Linking a new query, at a new address, keeps each id held by one waiting query or free: its id
-- comes from the pool, which had one free.
pub query_add-IsKept :
    (s : Queries) (out : Outside) (max_sockets : ℤ) (ttl srv client now q n : ℕ) (dummy : Bool)
    (msg : List ℕ)
    → IsKept s
    → s.pool.free ≡ suc n
    → out.random ≤ n
    → find_query (raw_id msg) s.cell s.qlist ≡ none
    → All (λ b. b ≢ out.address) s.qlist
    → (query_add s out max_sockets ttl dummy srv client msg now).2 ≡ some q
    → IsKept (query_add s out max_sockets ttl dummy srv client msg now).0
unfolding held
query_add-IsKept s out max_sockets ttl srv client now q n dummy msg k free r none_waits apart e =
    let s' = (query_add s out max_sockets ttl dummy srv client msg now).0 in
    let (a, l, p, id, _, _, _, frame) =
      query_add_new s out max_sockets ttl srv client now q dummy msg none_waits e in
    let (taken, p-IsPool) = qid_get_takes out.random n s.pool k.pool_ok free r in
    let h : held s'.cell s'.qlist ≡ held s.cell s.qlist ++ ((qid_get out.random s.pool).1 ∷ []) =
      rw
        (
          l,
          held-append s'.cell s.qlist (q ∷ []),
          held_frame s'.cell s.cell q s.qlist frame (rw a apart),
          id,
        )
        refl in
    record {
      pool_ok = rw p p-IsPool;
      ids =
          rw (p, h, append_assoc (held s.cell s.qlist))
            (Perm.trans (Perm.append_left (held s.cell s.qlist) taken) k.ids);
    }

take_all : (n : ℕ) (l : List ℕ) → n ≤ length l → length (take n l) ≡ n
take_all zero l h = refl
take_all (suc n) [] h = absurd (omega arith)
take_all (suc n) (x ∷ l) h = ap suc (take_all n l (omega arith))

held-perm : (cell : ℕ → Query) (l m : List ℕ) → Perm l m → Perm (held cell l) (held cell m)
held-perm cell l m p = rw (held-map cell l, held-map cell m) (Perm.map (λ q. (cell q).my_qid) p)

-- Where a query waits, the pool has room for its id.
room :
    (s : Queries) (id : ℕ) (l : List ℕ)
    → IsKept s
    → Perm (id ∷ l) (held s.cell s.qlist)
    → s.pool.free < 65536
room s id l k p = omega (
  arith,
  length-perm p,
  length-perm k.ids,
  length-append (held s.cell s.qlist) (available s.pool),
  take_all s.pool.free s.pool.qid_pool (omega (arith, k.pool_ok.size, k.pool_ok.within)),
  count_from-length 0 65536,
)

-- Destroying a waiting query keeps each id held by one waiting query or free: its id goes back to
-- the pool.
pub query_delete-IsKept :
    (s : Queries) (q : ℕ) → IsKept s → Mem q s.qlist → IsKept (query_delete s q)
unfolding held
query_delete-IsKept s q k m =
    let (l, c, p) = query_delete_frame s q in
    let id : ℕ = (s.cell q).my_qid in
    let rest : List ℕ = held s.cell (erase ℕ_discrete s.qlist q) in
    let out : Perm (id ∷ rest) (held s.cell s.qlist) =
      Perm.symm (
        held-perm s.cell s.qlist (q ∷ erase ℕ_discrete s.qlist q) (perm_cons_erase ℕ_discrete m)) in
    let (back, p-IsPool) = qid_return_adds s.pool id k.pool_ok (room s id rest k out) in
    record {
      pool_ok = rw p p-IsPool;
      ids =
          rw (p, l, c)
            (Perm.trans (Perm.append_left rest (Perm.symm back)) (
              Perm.trans (perm_middle rest (available s.pool))
                (Perm.trans (Perm.append_right (available s.pool) out) k.ids)));
    }

count_from_absent : (i n j : ℕ) → j < i → ¬ (Mem j (count_from i n))
unfolding count_from
count_from_absent i zero j h m = not-mem-nil m
count_from_absent i (suc n) j h m =
    Or.elim ⊥_prop (eq-or-mem_of_mem-cons m) (λ e. omega arith)
      (count_from_absent (i + 1) n j (omega arith))

count_from-Nodup : (i n : ℕ) → Nodup (count_from i n)
unfolding count_from
count_from-Nodup i zero = Pairwise.nil
count_from-Nodup i (suc n) =
    Nodup-cons.1 (count_from_absent (i + 1) n i (omega arith), count_from-Nodup (i + 1) n)

-- No two waiting queries hold the same id, and no id that is held is free.
pub ids_apart : (s : Queries) → IsKept s → Nodup (held s.cell s.qlist ++ available s.pool)
ids_apart s k = Perm.nodup (Perm.symm k.ids) (count_from-Nodup 0 65536)
