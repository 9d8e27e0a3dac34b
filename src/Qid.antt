-- ===== src/Qid.antt =====
-- dnrd-2.20.3/src/qid.c: the pool of query ids. Entries 0 to `pool_ptr` of the array are free.
-- The random numbers come from the ISAAC generator and floating-point arithmetic: `r` is what
-- `myrand(pool_ptr)` returns, which is below its argument, or 0.
use mathlib.Core.List.{Perm, perm_middle, append-nil}
use mathlib.Core.List.Perm
use dnrd.Prelude.{
  ℕ, zero, suc, ◌+◌, ◌-◌, ◌%◌, ◌≤◌, ◌<◌, ◌≡◌, refl, ap, List, [], ◌∷◌, ◌++◌, arith, length, get_or,
  set, take, length-set,
}

abbrev pub qid_pool_size : ℕ
qid_pool_size = 65536

-- `pool_ptr` is -1 when no id is free, and `free` is `pool_ptr + 1`.
pub record Pool : Type 0 where
  pub qid_pool : List ℕ
  pub free : ℕ

unfoldable pub count_from : ℕ → ℕ → List ℕ
count_from i zero = []
count_from i (suc n) = i ∷ count_from (i + 1) n

-- The first loop of `qid_init_pool`, with the initial `pool_ptr`; `size` is `QID_POOL_SIZE`. (The
-- rest of the function seeds the generator.)
unfoldable pub qid_init_pool : ℕ → Pool
qid_init_pool size = record { qid_pool = count_from 0 size; free = size }

-- Where an id is free. (`pool_ptr` is then `free - 1`, and at most the last index.)
unfoldable pub qid_get : ℕ → Pool → Pool × ℕ
qid_get r p =
    let i = r % qid_pool_size in
    (
      record {
        qid_pool = set p.qid_pool i (get_or p.qid_pool ((p.free - 1) % qid_pool_size) 0);
        free = p.free - 1;
      },
      get_or p.qid_pool i 0,
    )

unfoldable pub qid_return : Pool → ℕ → Pool
qid_return p qid = record {
  qid_pool = set p.qid_pool (p.free % qid_pool_size) qid;
  free = p.free + 1;
}

-- The free ids.
abbrev pub available : Pool → List ℕ
available p = take p.free p.qid_pool

-- The array has its size, and `pool_ptr` lies in it.
pub record IsPool (p : Pool) : Type 0 where
  pub size : length p.qid_pool ≡ qid_pool_size
  pub within : p.free ≤ qid_pool_size

take_snoc : (l : List ℕ) (n : ℕ) → n < length l → take (suc n) l ≡ take n l ++ (get_or l n 0 ∷ [])
take_snoc [] n h = absurd (omega arith)
take_snoc (x ∷ l) zero h = refl
take_snoc (x ∷ l) (suc n) h = ap (◌∷◌ x) (take_snoc l n (omega arith))

to_end : (a : ℕ) (t : List ℕ) → Perm (a ∷ t) (t ++ (a ∷ []))
to_end a t = Perm.symm (rw append-nil at (perm_middle {a = a} t []))

take-set : (l : List ℕ) (n v : ℕ) → take n (set l n v) ≡ take n l
take-set [] n v = refl
take-set (x ∷ l) zero v = refl
take-set (x ∷ l) (suc n) v = ap (◌∷◌ x) (take-set l n v)

pub get_or-set : (l : List ℕ) (n v : ℕ) → n < length l → get_or (set l n v) n 0 ≡ v
get_or-set [] n v h = absurd (omega arith)
get_or-set (x ∷ l) zero v h = refl
get_or-set (x ∷ l) (suc n) v h = get_or-set l n v (omega arith)

-- Moving the last of `n + 1` items over item `i` takes item `i` out.
take_out :
    (l : List ℕ) (n i : ℕ)
    → n < length l
    → i ≤ n
    → Perm (get_or l i 0 ∷ take n (set l i (get_or l n 0))) (take (suc n) l)
take_out [] n i h k = absurd (omega arith)
take_out (x ∷ l) zero zero h k = Perm.refl (x ∷ [])
take_out (x ∷ l) zero (suc i) h k = absurd (omega arith)
take_out (x ∷ l) (suc n) zero h k =
    rw (take_snoc l n (omega arith)) (Perm.cons x (to_end (get_or l n 0) (take n l)))
take_out (x ∷ l) (suc n) (suc i) h k =
    Perm.trans (Perm.swap x (get_or l i 0) _)
      (Perm.cons x (take_out l n i (omega arith) (omega arith)))

-- With an id free, `qid_get` returns one of the free ids, and exactly the others stay free; the
-- pool keeps its bounds.
pub qid_get_takes :
    (r n : ℕ) (p : Pool)
    → IsPool p
    → p.free ≡ suc n
    → r ≤ n
    → Perm ((qid_get r p).1 ∷ available (qid_get r p).0) (available p) × IsPool (qid_get r p).0
unfolding qid_get
qid_get_takes r n p v e h =
    let i : r % 65536 ≡ r = omega arith in
    let j : (p.free - 1) % 65536 ≡ n = omega arith in
    let f : p.free - 1 ≡ n = omega arith in
    (
      rw (i, j, f, e) (take_out p.qid_pool n r (omega arith) (omega arith)),
      record {
        size =
            omega (
              arith,
              length-set p.qid_pool (r % 65536) (get_or p.qid_pool ((p.free - 1) % 65536) 0),
            );
        within = omega arith;
      },
    )

-- With room in the pool, `qid_return` adds the id to the free ones; the pool keeps its bounds.
pub qid_return_adds :
    (p : Pool) (qid : ℕ)
    → IsPool p
    → p.free < 65536
    → Perm (qid ∷ available p) (available (qid_return p qid)) × IsPool (qid_return p qid)
unfolding qid_return
qid_return_adds p qid v h =
    let l : List ℕ = set p.qid_pool p.free qid in
    let e : p.free % 65536 ≡ p.free = omega arith in
    let n : p.free + 1 ≡ suc p.free = omega arith in
    let m : p.free < length l = omega (arith, length-set p.qid_pool p.free qid) in
    let q : available (qid_return p qid) ≡ take p.free p.qid_pool ++ (qid ∷ []) = cc (
      e,
      n,
      take_snoc l p.free m,
      take-set p.qid_pool p.free qid,
      get_or-set p.qid_pool p.free qid (omega arith),
    ) in
    (
      rw q (to_end qid (take p.free p.qid_pool)),
      record {
        size = omega (arith, length-set p.qid_pool (p.free % 65536) qid);
        within = omega arith;
      },
    )

pub count_from-length : (i n : ℕ) → length (count_from i n) ≡ n
unfolding count_from
count_from-length i zero = refl
count_from-length i (suc n) = ap suc (count_from-length (i + 1) n)

pub qid_init_pool-IsPool : IsPool (qid_init_pool qid_pool_size)
unfolding qid_init_pool
qid_init_pool-IsPool = record { size = count_from-length 0 qid_pool_size; within = omega arith }

take-length : (l : List ℕ) (n : ℕ) → length l ≡ n → take n l ≡ l
take-length [] zero h = refl
take-length [] (suc n) h = refl
take-length (x ∷ l) zero h = absurd (omega arith)
take-length (x ∷ l) (suc n) h = ap (◌∷◌ x) (take-length l n (omega arith))

-- At the start all ids are free.
pub available-qid_init_pool : (size : ℕ) → available (qid_init_pool size) ≡ count_from 0 size
unfolding qid_init_pool
available-qid_init_pool size = take-length (count_from 0 size) size (count_from-length 0 size)
