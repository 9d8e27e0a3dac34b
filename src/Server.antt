-- ===== src/Server.antt =====
-- dnrd-2.20.3/src/srvnode.c and infnode.c: the upstream servers of each interface. A circular list
-- is the list of its nodes behind the head, and a node is its address; `srv` is what stands there.
pub mod Active
pub mod Startup
pub mod Apart
use dnrd.Prelude.{
  ℕ, ◌+◌, ◌-◌, ◌^◌, ◌≤◌, Bool, true, false, List, [], ◌∷◌, ◌++◌, Option, none, some, arith, leb,
  ltb, ◌==◌, if◌then◌else◌, map, not,
}

-- `srvnode_t`. `inactive` is 0 for an active server, or when it was found inactive. (`tcp` belongs
-- to the TCP proxy, and nothing ever sets `newquery` but to NULL.)
pub record Srv : Type 0 where
  pub addr : ℕ
  pub inactive : ℕ
  pub send_count : ℕ
  pub send_time : ℕ

-- `infnode_t`; `srvlist` holds the servers behind the head of its list.
pub record Inf : Type 0 where
  pub inf : List ℕ
  pub srvlist : List ℕ
  pub current : Option ℕ

abbrev pub update {ℓ} : {A : Type ℓ} → (ℕ → A) → ℕ → A → ℕ → A
update f a e b = if a == b then e else f b

-- The nodes in the order of `next`, from behind the server `a` round to it: the servers behind it,
-- the head (`none`), those before it, and `a`.
unfoldable pub ring_from : List ℕ → List ℕ → ℕ → List (Option ℕ)
ring_from before [] a = none ∷ (map some before ++ (some a ∷ []))
ring_from before (b ∷ l) a =
    let rest = ring_from (before ++ (b ∷ [])) l a in
    if b == a then map some l ++ (none ∷ (map some before ++ (some a ∷ []))) else rest

-- The same from the node `start`, which may be the head.
unfoldable pub ring : List ℕ → Option ℕ → List (Option ℕ)
unfolding ring_from
ring l none = map some l ++ (none ∷ [])
ring l (some a) = ring_from [] l a

-- The loop of `next_active` with the test behind it: the first active server. The head's
-- `inactive` is -1, so it is passed over.
unfoldable pub first_active : (ℕ → Srv) → List (Option ℕ) → Option ℕ
first_active srv [] = none
first_active srv (none ∷ l) = first_active srv l
first_active srv (some a ∷ l) = if (srv a).inactive == 0 then some a else first_active srv l

unfoldable pub next_active : (ℕ → Srv) → Inf → Option ℕ
unfolding ring first_active
next_active srv i = first_active srv (ring i.srvlist i.current)

unfoldable pub set_current : Inf → Option ℕ → Inf
set_current i s = record i { current = s }

-- The first part of `deactivate_current`.
unfoldable pub mark_current : (ℕ → Srv) → Option ℕ → ℕ → ℕ → Srv
mark_current srv none now = srv
mark_current srv (some a) now = update srv a (record (srv a) { inactive = now })

-- The servers' nodes and the interface after the call; its `current` is what it returns.
unfoldable pub deactivate_current : (ℕ → Srv) → Inf → ℕ → (ℕ → Srv) × Inf
unfolding next_active set_current mark_current
deactivate_current srv i now =
    let srv' = mark_current srv i.current now in (srv', set_current i (next_active srv' i))

unfoldable pub reactivate_srvlist : (ℕ → Srv) → List ℕ → ℕ → Srv
reactivate_srvlist srv [] = srv
reactivate_srvlist srv (a ∷ l) =
    reactivate_srvlist (update srv a (record (srv a) { inactive = 0; send_time = 0 })) l

unfoldable pub no_srvlist : List ℕ → Bool
no_srvlist [] = true
no_srvlist (a ∷ l) = false
