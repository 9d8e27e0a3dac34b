-- ===== src/Server/Active.antt =====
-- The choice of the current server of an interface.
use mathlib.Core.List.{append-nil, append_assoc, map-append}
use dnrd.Prelude.{
  ℕ, ◌≡◌, ◌≢◌, refl, List, [], ◌∷◌, ◌++◌, Option, none, some, arith, ◌==◌, if◌then◌else◌, map, All,
}
use dnrd.Server.{
  Srv, Inf, ring_from, ring, first_active, next_active, mark_current, deactivate_current,
}

abbrev pub Active : (ℕ → Srv) → ℕ → Type 0
Active srv a = (srv a).inactive ≡ 0

-- The first active server of a list.
unfoldable pub first_of : (ℕ → Srv) → List ℕ → Option ℕ
first_of srv [] = none
first_of srv (a ∷ l) = if (srv a).inactive == 0 then some a else first_of srv l

first_active-head :
    (srv : ℕ → Srv) (l m : List ℕ)
    → first_active srv (map some l ++ (none ∷ map some m)) ≡ first_of srv (l ++ m)
unfolding first_active first_of
first_active-head srv [] [] = refl
first_active-head srv [] (a ∷ m) = ground (arith, first_active-head srv [] m)
first_active-head srv (a ∷ l) m = ground (arith, first_active-head srv l m)

ring_from_split :
    (before kept after : List ℕ) (a : ℕ)
    → All (λ b. b ≢ a) before
    → ring_from kept (before ++ (a ∷ after)) a
      ≡ map some after ++ (none ∷ (map some (kept ++ before) ++ (some a ∷ [])))
unfolding ring_from
ring_from_split [] kept after a h = ground (arith, append-nil kept)
ring_from_split (b ∷ before) kept after a h = ground (
  arith,
  h.0,
  append_assoc kept (b ∷ []) before,
  ring_from_split before (kept ++ (b ∷ [])) after a h.1,
)

-- From a current server, `next_active` takes the first active one of those behind it, then those
-- before it, and the current one itself only when all others are inactive.
pub next_active_round :
    (srv : ℕ → Srv) (i : Inf) (before after : List ℕ) (a : ℕ)
    → i.srvlist ≡ before ++ (a ∷ after)
    → All (λ b. b ≢ a) before
    → i.current ≡ some a
    → next_active srv i ≡ first_of srv (after ++ (before ++ (a ∷ [])))
unfolding next_active
next_active_round srv i before after a e apart c = ground (
  arith,
  ring_from_split before [] after a apart,
  map-append some before (a ∷ []),
  first_active-head srv after (before ++ (a ∷ [])),
)

-- With no current server it takes the first active one of the list.
pub next_active_start :
    (srv : ℕ → Srv) (i : Inf) → i.current ≡ none → next_active srv i ≡ first_of srv i.srvlist
unfolding next_active
next_active_start srv i c = ground (arith, append-nil i.srvlist, first_active-head srv i.srvlist [])

first_active-Active :
    (srv : ℕ → Srv) (r : List (Option ℕ)) (a : ℕ) → first_active srv r ≡ some a → Active srv a
unfolding first_active
first_active-Active srv [] a h = cc
first_active-Active srv (none ∷ r) a h = first_active-Active srv r a h
first_active-Active srv (some b ∷ r) a h = ground (arith, first_active-Active srv r a)

pub next_active-Active :
    (srv : ℕ → Srv) (i : Inf) (a : ℕ) → next_active srv i ≡ some a → Active srv a
unfolding next_active
next_active-Active srv i a h = first_active-Active srv (ring i.srvlist i.current) a h

-- Deactivating the current server marks it with the time and no other, and leaves as current, if
-- any, another server, which is active.
pub deactivate_current_moves :
    (srv : ℕ → Srv) (i : Inf) (now a b : ℕ)
    → now ≢ 0
    → i.current ≡ some a
    → let (srv', i') = deactivate_current srv i now in
      ((srv' a).inactive ≡ now)
      × (b ≢ a → srv' b ≡ srv b)
      × (i'.current ≡ some b → (b ≢ a) × Active srv b)
unfolding deactivate_current
deactivate_current_moves srv i now a b later c =
    ground (arith, later, c, next_active-Active (mark_current srv i.current now) i b)
