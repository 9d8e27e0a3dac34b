-- ===== src/Cache/Expire/Order.antt =====
-- Which entries expire_oldest removes.
use mathlib.Core.List.{Perm, cons-perm_iff_perm-erase}
use mathlib.Core.List.Perm
use native.Mathlib.Decide.{ℕ_discrete}
use dnrd.Prelude.{
  ℕ, zero, suc, ◌+◌, ◌-◌, ◌^◌, ◌≤◌, ◌<◌, false, ◌≡◌, refl, ap, List, [], ◌∷◌, arith, ltb, length,
  take, drop, All,
}
use dnrd.Prelude.Int.{ℤ, pos, ltb_ℤ}
use dnrd.Cache.{Cache, Entry, remove_cx}
use dnrd.Cache.Expire.{Qsort, cmp_cachemru, remove_all, expire_oldest}

-- Each item stands in the relation to all behind it.
abbrev pub Ordered {ℓ} : {A : Type 0} → (A → A → Type ℓ) → List A → Type ℓ
Ordered R [] = Unit
Ordered R (x ∷ xs) = All (λ y. R x y) xs × Ordered R xs

-- What the C library promises of `qsort` on one array: the same pointers, and none before one
-- that compares less.
pub record Sorts (qsort : Qsort) (cmp : ℕ → ℕ → ℤ) (l : List ℕ) : Type 0 where
  pub same : Perm l (qsort cmp l)
  pub sorted : Ordered (λ x y. ltb_ℤ (pos 0) (cmp x y) ≡ false) (qsort cmp l)

-- The last uses lie within 2 ^ 31 seconds of one another, so that their difference is an `int`.
abbrev pub Near : (ℕ → Entry) → ℕ → List ℕ → Type 0
Near cell from l = All (λ a. (from ≤ (cell a).lastused) × ((cell a).lastused < from + 2 ^ 31)) l

cmp_cachemru_lem :
    (cell : ℕ → Entry) (x y from : ℕ)
    → from ≤ (cell x).lastused
    → (cell x).lastused < from + 2 ^ 31
    → from ≤ (cell y).lastused
    → (cell y).lastused < from + 2 ^ 31
    → ltb_ℤ (pos 0) (cmp_cachemru cell x y) ≡ false
    → (cell y).lastused ≤ (cell x).lastused
unfolding cmp_cachemru
cmp_cachemru_lem cell x y from a b c d e = ground arith

pub remove_all-perm :
    (n : ℕ) (s : List ℕ) (c : Cache)
    → Perm c.cachelist s
    → Perm (remove_all (take n s) c).cachelist (drop n s)
unfolding remove_all remove_cx
remove_all-perm zero s c p = p
remove_all-perm (suc n) [] c p = p
remove_all-perm (suc n) (a ∷ s) c p =
    remove_all-perm n s (remove_cx c a)
      (Perm.symm ((cons-perm_iff_perm-erase ℕ_discrete).0 (Perm.symm p)).1)

module _ (cell : ℕ → Entry) (from : ℕ) where
  drop-Near : (n : ℕ) (s : List ℕ) → Near cell from s → Near cell from (drop n s)
  drop-Near zero s h = h
  drop-Near (suc n) [] h = h
  drop-Near (suc n) (x ∷ s) h = drop-Near n s h.1

  -- What is behind an entry in the array was used no later.
  before :
      (x : ℕ) (s : List ℕ)
      → from ≤ (cell x).lastused
      → (cell x).lastused < from + 2 ^ 31
      → Near cell from s
      → All (λ y. ltb_ℤ (pos 0) (cmp_cachemru cell x y) ≡ false) s
      → All (λ y. (cell y).lastused ≤ (cell x).lastused) s
  before x [] lo hi h o = tt
  before x (y ∷ s) lo hi h o =
      (cmp_cachemru_lem cell x y from lo hi h.0.0 h.0.1 o.0, before x s lo hi h.1 o.1)

  drop_all : (P : ℕ → Type 0) (n : ℕ) (s : List ℕ) → All P s → All P (drop n s)
  drop_all P zero s h = h
  drop_all P (suc n) [] h = h
  drop_all P (suc n) (x ∷ s) h = drop_all P n s h.1

  split :
      (n : ℕ) (s : List ℕ)
      → Near cell from s
      → Ordered (λ x y. ltb_ℤ (pos 0) (cmp_cachemru cell x y) ≡ false) s
      → All (λ x. All (λ y. (cell y).lastused ≤ (cell x).lastused) (drop n s)) (take n s)
  split zero s h o = tt
  split (suc n) [] h o = tt
  split (suc n) (x ∷ s) h o =
      (before x (drop n s) h.0.0 h.0.1 (drop-Near n s h.1) (drop_all _ n s o.0), split n s h.1 o.1)

pub take-length : (l : List ℕ) → take (length l) l ≡ l
take-length [] = refl
take-length (x ∷ l) = ap (◌∷◌ x) (take-length l)

-- Where the cache holds at least `cache_lowwater` entries, `expire_oldest` keeps the entries at the
-- end of the sorted array, from place `itemcount - cache_lowwater` on, and each entry that it
-- removes was used no earlier than any that it keeps: the youngest go, not the oldest.
pub expire_oldest_youngest :
    (qsort : Qsort) (c : Cache) (from : ℕ)
    → Sorts qsort (cmp_cachemru c.cell) c.cachelist
    → Near c.cell from (qsort (cmp_cachemru c.cell) c.cachelist)
    → c.lowwater ≤ length c.cachelist
    → let n = length c.cachelist - c.lowwater in
      let s = qsort (cmp_cachemru c.cell) c.cachelist in
      Perm (expire_oldest qsort c (length c.cachelist)).cachelist (drop n s)
      × All (λ x. All (λ y. (c.cell y).lastused ≤ (c.cell x).lastused) (drop n s)) (take n s)
unfolding expire_oldest
expire_oldest_youngest qsort c from sorts near full =
    let n = length c.cachelist - c.lowwater in
    let s = qsort (cmp_cachemru c.cell) c.cachelist in
    (
      rw (take-length c.cachelist, enough) (remove_all-perm n s c sorts.same),
      split c.cell from n s near sorts.sorted,
    )
  where
    enough : ltb (length c.cachelist) c.lowwater ≡ false
    enough = ground arith
