-- ===== src/Server/Apart.antt =====
-- A node that is no server of an interface does not become its current server.
use dnrd.Prelude.{
  ℕ, ◌≡◌, ◌≢◌, refl, List, [], ◌∷◌, ◌++◌, Option, none, some, arith, ◌==◌, map, All, All-append,
  length, Bool-cases, Option-cases, inl, inr,
}
use dnrd.Server.{
  Srv, Inf, ring_from, ring, first_active, next_active, set_current, mark_current,
  deactivate_current,
}

-- The node is neither the current server nor in the list.
abbrev pub Apart : ℕ → Inf → Type 0
Apart h i = (i.current ≢ some h) × All (λ a. a ≢ h) i.srvlist

-- The node is no server of the interfaces, of which there are `n`, and nothing was sent to it.
abbrev pub Untouched : ℕ → ℕ → (ℕ → Srv) → List Inf → Type 0
Untouched h n srv l = ((srv h).send_time ≡ 0) × All (Apart h) l × (length l ≡ n)

pub Untouched-same :
    (h n : ℕ) (srv srv' : ℕ → Srv) (l l' : List Inf)
    → l' ≡ l
    → srv' ≡ srv
    → Untouched h n srv l
    → Untouched h n srv' l'
Untouched-same h n srv srv' l l' infs same k = rw (infs, same) k

abbrev Other : ℕ → Option ℕ → Type 0
Other h o = o ≢ some h

map-Other : (h : ℕ) (l : List ℕ) → All (λ a. a ≢ h) l → All (Other h) (map some l)
map-Other h [] k = tt
map-Other h (a ∷ l) k = (λ e. k.0 (ground (arith, e)), map-Other h l k.1)

ring_from-Other :
    (h : ℕ) (before l : List ℕ) (a : ℕ)
    → All (λ b. b ≢ h) before
    → All (λ b. b ≢ h) l
    → a ≢ h
    → All (Other h) (ring_from before l a)
unfolding ring_from
ring_from-Other h before [] a kb kl ka = (
  λ e. absurd (ground (arith, e)),
  All-append (Other h) (map some before) (some a ∷ []) (map-Other h before kb)
      (map-Other h (a ∷ []) (ka, tt)),
)
ring_from-Other h before (b ∷ l) a kb kl ka = elim (Bool-cases (b == a)) [
  | inl o ↦
      rw (o, ring_from)
        (All-append (Other h) (map some l) (none ∷ (map some before ++ (some a ∷ [])))
          (map-Other h l kl.1)
          (
            λ e. absurd (ground (arith, e)),
            All-append (Other h) (map some before) (some a ∷ []) (map-Other h before kb)
                (map-Other h (a ∷ []) (ka, tt)),
          ))
  | inr o ↦
      rw (o, ring_from)
        (ring_from-Other h (before ++ (b ∷ [])) l a
          (All-append (λ b. b ≢ h) before (b ∷ []) kb (kl.0, tt)) kl.1 ka)
]

first_active-Other :
    (h : ℕ) (srv : ℕ → Srv) (l : List (Option ℕ)) → All (Other h) l → first_active srv l ≢ some h
unfolding first_active
first_active-Other h srv [] k e = absurd (ground (arith, e))
first_active-Other h srv (none ∷ l) k e = first_active-Other h srv l k.1 e
first_active-Other h srv (some a ∷ l) k e = elim (Bool-cases ((srv a).inactive == 0)) [
  | inl o ↦ k.0 (rw (o, first_active) at e)
  | inr o ↦ first_active-Other h srv l k.1 (rw (o, first_active) at e)
]

pub next_active-Apart : (h : ℕ) (srv : ℕ → Srv) (i : Inf) → Apart h i → next_active srv i ≢ some h
unfolding next_active ring
next_active-Apart h srv i (c, k) = elim (Option-cases i.current) [
  | inl o ↦
      rw (o, next_active, ring)
        (first_active-Other h srv (map some i.srvlist ++ (none ∷ [])) (
          All-append (Other h) (map some i.srvlist) (none ∷ []) (map-Other h i.srvlist k)
            (λ e. absurd (ground (arith, e)), tt)))
  | inr (a, o) ↦
      rw (o, next_active, ring)
        (first_active-Other h srv (ring_from [] i.srvlist a)
          (ring_from-Other h [] i.srvlist a tt k (λ e. c (rw (← e) o))))
]

-- `deactivate_current` leaves the interface apart from the node, and the times of all sends.
pub deactivate_current-Apart :
    (h : ℕ) (srv : ℕ → Srv) (i : Inf) (now : ℕ)
    → Apart h i
    → let (srv', i') = deactivate_current srv i now in
      Apart h i' × ((srv' h).send_time ≡ (srv h).send_time)
unfolding deactivate_current set_current mark_current
deactivate_current-Apart h srv i now k = (
  (next_active-Apart h (mark_current srv i.current now) i k, k.1),
  mark_current-send_time h srv i.current now,
)
  where
    mark_current-send_time :
        (h : ℕ) (srv : ℕ → Srv) (o : Option ℕ) (now : ℕ)
        → (mark_current srv o now h).send_time ≡ (srv h).send_time
    mark_current-send_time h srv none now = refl
    mark_current-send_time h srv (some a) now = ground arith
