-- ===== src/Cache/Expire/Bounds.antt =====
-- What cache_expire leaves: no expired entry, and no more than the high-water mark.
use mathlib.Core.List.{
  erase, Perm, Mem, erase-cons-head, erase-cons-tail, mem_of_mem-erase, append-nil, append_assoc,
}
use native.Mathlib.Decide.{ℕ_discrete}
use dnrd.Prelude.{
  ℕ, zero, suc, ◌+◌, ◌-◌, ◌≤◌, ◌<◌, true, ◌≡◌, ◌≢◌, refl, ap, sym, ◌∙◌, inl, inr, List, [], ◌∷◌,
  ◌++◌, arith, if◌then◌else◌, length, take, drop, All, All-append, Bool-cases,
}
use dnrd.Cache.{Cache, Entry, remove_cx}
use dnrd.Cache.Expire.{
  Qsort, cmp_cachemru, remove_all, is_expired, expire_walk, expire_surplus, cache_expire,
}
use dnrd.Cache.Expire.Order.{remove_all-perm, take-length}
use dnrd.Prelude.Perms.{length-perm}

-- No address stands twice in the list.
abbrev pub Distinct : List ℕ → Type 0
Distinct [] = Unit
Distinct (x ∷ xs) = All (λ y. x ≢ y) xs × Distinct xs

-- The entries that are not expired, in order.
unfoldable pub unexpired : ℕ → (ℕ → Entry) → List ℕ → List ℕ
unexpired now cell [] = []
unexpired now cell (a ∷ l) =
    let rest = unexpired now cell l in if is_expired now (cell a) then rest else a ∷ rest

erase_behind :
    (kept : List ℕ) (a : ℕ) (l : List ℕ)
    → All (λ b. b ≢ a) kept
    → erase ℕ_discrete (kept ++ (a ∷ l)) a ≡ kept ++ l
erase_behind [] a l h = erase-cons-head ℕ_discrete a l
erase_behind (b ∷ kept) a l h =
    erase-cons-tail ℕ_discrete (kept ++ (a ∷ l)) h.0 ∙ ap (◌∷◌ b) (erase_behind kept a l h.1)

-- In a list without repetitions, what is kept differs from what is behind it.
abbrev Apart : List ℕ → List ℕ → Type 0
Apart kept l = All (λ a. All (λ b. b ≢ a) kept) l

Apart-nil : (l : List ℕ) → Apart [] l
Apart-nil [] = tt
Apart-nil (x ∷ l) = (tt, Apart-nil l)

Apart-snoc :
    (kept : List ℕ) (a : ℕ) (l : List ℕ)
    → Apart kept l
    → All (λ y. a ≢ y) l
    → Apart (kept ++ (a ∷ [])) l
Apart-snoc kept a [] h n = tt
Apart-snoc kept a (b ∷ l) h n =
    (All-append (λ x. x ≢ b) kept (a ∷ []) h.0 (n.0, tt), Apart-snoc kept a l h.1 n.1)

-- The loop unlinks exactly the expired entries, and counts them and all that it visits.
expire_walk_lem :
    (now : ℕ) (l kept : List ℕ) (c : Cache) (total expired : ℕ)
    → c.cachelist ≡ kept ++ l
    → Distinct l
    → Apart kept l
    → let w = expire_walk now l c total expired in
      (w.0 ≡ record c { cachelist = kept ++ unexpired now c.cell l })
      × (w.1 ≡ total + length l)
      × (w.2 + length (unexpired now c.cell l) ≡ expired + length l)
unfolding expire_walk unexpired remove_cx
expire_walk_lem now [] kept c total expired q d n =
    (ground (arith, append-nil kept), omega arith, omega arith)
expire_walk_lem now (a ∷ l) kept c total expired q d n =
    elim (Bool-cases (is_expired now (c.cell a))) [
      | inl e ↦
          let q' : (erase ℕ_discrete c.cachelist a) ≡ kept ++ l =
            rw q (erase_behind kept a l n.0) in
          rw e (
            ground (
              arith,
              expire_walk_lem now l kept (record c { cachelist = erase ℕ_discrete c.cachelist a })
                  (total + 1) (expired + 1) q' d.1 n.1,
            ))
      | inr e ↦ rw e (
          ground (
            arith,
            append_assoc kept (a ∷ []) l,
            append_assoc kept (a ∷ []) (unexpired now c.cell l),
            expire_walk_lem now l (kept ++ (a ∷ [])) c (total + 1) expired
                (q ∙ sym (append_assoc kept (a ∷ []) l)) d.1 (Apart-snoc kept a l n.1 d.0),
          ))
    ]

length-drop : (n : ℕ) (l : List ℕ) → length (drop n l) ≡ length l - n
length-drop zero l = omega arith
length-drop (suc n) [] = omega arith
length-drop (suc n) (x ∷ l) = omega (arith, length-drop n l)

mem-remove_all :
    (a : ℕ) (l : List ℕ) (c : Cache) → Mem a (remove_all l c).cachelist → Mem a c.cachelist
unfolding remove_all remove_cx
mem-remove_all a [] c h = h
mem-remove_all a (b ∷ l) c h = mem_of_mem-erase ℕ_discrete b (mem-remove_all a l (remove_cx c b) h)

-- Within five minutes of the last run, `cache_expire` leaves the cache as it is.
pub cache_expire_early :
    (qsort : Qsort) (c : Cache) (now : ℕ)
    → c.lastexpire ≢ 0
    → now < c.lastexpire + 300
    → cache_expire qsort c now ≡ c
unfolding cache_expire
cache_expire_early qsort c now begun h = ground (arith, begun)

expire_surplus_over :
    (qsort : Qsort) (c : Cache) (now : ℕ)
    → c.highwater < length c.cachelist
    → c.lowwater ≤ length c.cachelist
    → (expire_surplus qsort c (length c.cachelist) now).cachelist
      ≡ (remove_all
          (take (length c.cachelist - c.lowwater) (qsort (cmp_cachemru c.cell) c.cachelist))
          c).cachelist
unfolding expire_surplus
expire_surplus_over qsort c now h k = ground (arith, take-length c.cachelist)

module _ (qsort : Qsort) (c : Cache) (now : ℕ) (on : c.onoff ≡ true) (begun : c.lastexpire ≢ 0)
    (distinct : Distinct c.cachelist) (due : c.lastexpire + 300 ≤ now) where
  cache_expire_runs :
      let live = unexpired now c.cell c.cachelist in
      cache_expire qsort c now
      ≡ expire_surplus qsort (record c { cachelist = live }) (length live) now
  unfolding cache_expire
  cache_expire_runs = ground (
    arith,
    on,
    begun,
    expire_walk_lem now c.cachelist [] c 0 0 refl distinct (Apart-nil c.cachelist),
  )

  -- A due run that leaves no more entries than the high-water mark unlinks exactly the expired
  -- entries, keeps the others in order, and notes the time.
  pub cache_expire_within :
      length (unexpired now c.cell c.cachelist) ≤ c.highwater
      → cache_expire qsort c now
        ≡ record c { cachelist = unexpired now c.cell c.cachelist; lastexpire = now }
  unfolding expire_surplus
  cache_expire_within h = rw cache_expire_runs (ground (arith, h))

  -- A due run that would leave more, with the low-water mark at most the high-water mark, leaves
  -- exactly the low-water mark of entries, none of which is expired.
  pub cache_expire_over :
      c.lowwater ≤ c.highwater
      → c.highwater < length (unexpired now c.cell c.cachelist)
      → Perm
          (unexpired now c.cell c.cachelist)
          (qsort (cmp_cachemru c.cell) (unexpired now c.cell c.cachelist))
      → (length (cache_expire qsort c now).cachelist ≡ c.lowwater)
        × ((a : ℕ)
            → Mem a (cache_expire qsort c now).cachelist
            → Mem a (unexpired now c.cell c.cachelist))
  cache_expire_over marks over same =
      let live = unexpired now c.cell c.cachelist in
      let s = qsort (cmp_cachemru c.cell) live in
      let n = length live - c.lowwater in
      let left = record c { cachelist = live } in
      let kept : Perm (remove_all (take n s) left).cachelist (drop n s) =
        remove_all-perm n s left same in
      let e : (cache_expire qsort c now).cachelist ≡ (remove_all (take n s) left).cachelist =
        rw cache_expire_runs (expire_surplus_over qsort left now over (omega arith)) in
      (
        rw e (omega (arith, length-perm kept, length-perm same, length-drop n s)),
        λ a m. mem-remove_all a (take n s) left (rw e at m),
      )
