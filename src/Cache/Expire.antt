-- ===== src/Cache/Expire.antt =====
-- dnrd-2.20.3/src/cache.c: cache_expire, expire_oldest and the comparison that it sorts by.
-- `qsort` is the C library's, and takes the comparison and the array of pointers.
pub mod Bounds
pub mod Order
use mathlib.Core.List.{erase}
use native.Mathlib.Decide.{ℕ_discrete}
use dnrd.Prelude.{
  ℕ, ◌+◌, ◌-◌, ◌%◌, ◌^◌, Bool, true, false, ◌||◌, List, [], ◌∷◌, leb, ltb, ◌==◌, not, if◌then◌else◌,
  length, take,
}
use dnrd.Prelude.Int.{ℤ, pos, negsuc}
use dnrd.Cache.{Cache, Entry, remove_cx, cache_maxtime, cache_mincycle}

-- The `int` in the low 32 bits of a number.
abbrev pub signed32 : ℕ → ℤ
signed32 n =
    if ltb (n % 2 ^ 32) (2 ^ 31) then pos (n % 2 ^ 32) else negsuc (2 ^ 32 - n % 2 ^ 32 - 1)

-- The difference is an `unsigned long`, and the result an `int`.
unfoldable pub cmp_cachemru : (ℕ → Entry) → ℕ → ℕ → ℤ
cmp_cachemru cell x y = signed32 (((cell y).lastused + 2 ^ 64 - (cell x).lastused) % 2 ^ 64)

abbrev pub Qsort : Type 0
Qsort = (ℕ → ℕ → ℤ) → List ℕ → List ℕ

-- The loop of `expire_oldest` over the first `n` pointers of `cv`. (What `free_cx` gives back is
-- not read again.)
unfoldable pub remove_all : List ℕ → Cache → Cache
unfolding remove_cx
remove_all [] c = c
remove_all (a ∷ l) c = remove_all l (remove_cx c a)

unfoldable pub expire_oldest : Qsort → Cache → ℕ → Cache
unfolding remove_all cmp_cachemru
expire_oldest qsort c itemcount =
    if ltb itemcount c.lowwater
    then c
    else let cv = qsort (cmp_cachemru c.cell) (take itemcount c.cachelist) in
      remove_all (take (itemcount - c.lowwater) cv) c

-- The test of the loop of `cache_expire`. Both sides of the first comparison are not negative;
-- the second difference is an `unsigned long`.
unfoldable pub is_expired : ℕ → Entry → Bool
is_expired now cx = ltb cx.expires now || ltb cache_maxtime ((now + 2 ^ 64 - cx.created) % 2 ^ 64)

-- The loop: the cache, `total` and `expired`. `next` is read before the node is unlinked, so the
-- nodes visited are those of the list at the start.
unfoldable pub expire_walk : ℕ → List ℕ → Cache → ℕ → ℕ → Cache × ℕ × ℕ
unfolding remove_cx is_expired
expire_walk now [] c total expired = (c, total, expired)
expire_walk now (a ∷ l) c total expired = elim (is_expired now (c.cell a)) [
  | true ↦ expire_walk now l (remove_cx c a) (total + 1) (expired + 1)
  | false ↦ expire_walk now l c (total + 1) expired
]

-- What follows the loop.
unfoldable pub expire_surplus : Qsort → Cache → ℕ → ℕ → Cache
unfolding expire_oldest
expire_surplus qsort c total now =
    let c' = if ltb c.highwater total then expire_oldest qsort c total else c in
    record c' { lastexpire = now }

unfoldable pub cache_expire : Qsort → Cache → ℕ → Cache
unfolding expire_walk expire_surplus
cache_expire qsort c now =
    let last = if c.lastexpire == 0 then now else c.lastexpire in
    let c' = record c { lastexpire = last } in
    let (left, total, expired) = expire_walk now c'.cachelist c' 0 0 in
    if not c.onoff
    then c
    else if ltb now (last + cache_mincycle)
    then c'
    else expire_surplus qsort left (total - expired) now
