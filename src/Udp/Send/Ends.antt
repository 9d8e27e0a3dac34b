-- ===== src/Udp/Send/Ends.antt =====
-- dnrd-2.20.3/src/udp.c: the inner loop of send2current ends, with reactivation on: each failure
-- takes one active server out of the round.
use dnrd.Prelude.{
  ℕ, ◌+◌, ◌≤◌, ◌<◌, Bool, true, false, ◌≡◌, ◌≢◌, refl, sym, ap, ◌∙◌, inl, inr, List, [], ◌∷◌, ◌++◌,
  Option, none, some, arith, ◌==◌, if◌then◌else◌, length, map, Bool-cases, Option-cases, All,
  All-append,
}
use dnrd.Server.{
  Srv, Inf, update, ring_from, ring, first_active, next_active, set_current, mark_current,
  deactivate_current,
}
use dnrd.Server.Active.{Active, next_active-Active}
use dnrd.Udp.Send.{Tried, try_send}

-- How many servers of a list are active.
unfoldable pub active_count : (ℕ → Srv) → List ℕ → ℕ
active_count srv [] = 0
active_count srv (a ∷ l) = (if (srv a).inactive == 0 then 1 else 0) + active_count srv l

-- Whether a server is in a list.
unfoldable pub is_in : ℕ → List ℕ → Bool
is_in a [] = false
is_in a (b ∷ l) = if a == b then true else is_in a l

-- Marking a server takes no other out, and an active one of the list takes one out at least.
active_count-mark :
    (srv : ℕ → Srv) (l : List ℕ) (a now : ℕ)
    → now ≢ 0
    → let srv' = update srv a (record (srv a) { inactive = now }) in
      (active_count srv' l ≤ active_count srv l)
      × (is_in a l ≡ true → (srv a).inactive ≡ 0 → active_count srv' l < active_count srv l)
unfolding active_count is_in
active_count-mark srv [] a now later = (omega arith, λ m. absurd (cc))
active_count-mark srv (b ∷ l) a now later =
    ground (arith, later, active_count-mark srv l a now later)

abbrev In : List ℕ → ℕ → Type 0
In l a = is_in a l ≡ true

-- A node of the round is the head or a server of the list.
abbrev OptionIn : List ℕ → Option ℕ → Type 0
OptionIn l none = Unit
OptionIn l (some a) = In l a

map-In : (l m : List ℕ) → All (In l) m → All (OptionIn l) (map some m)
map-In l [] h = tt
map-In l (a ∷ m) h = (h.0, map-In l m h.1)

In-weaken : (l m : List ℕ) (b : ℕ) → All (In l) m → All (In (b ∷ l)) m
unfolding is_in
In-weaken l [] b h = tt
In-weaken l (a ∷ m) b h = (ground (arith, h.0), In-weaken l m b h.1)

In-self : (l : List ℕ) → All (In l) l
unfolding is_in
In-self [] = tt
In-self (a ∷ l) = (ground arith, In-weaken l l a (In-self l))

ring_from-In :
    (l before m : List ℕ) (a : ℕ)
    → All (In l) before
    → All (In l) m
    → In l a
    → All (OptionIn l) (ring_from before m a)
unfolding ring_from
ring_from-In l before [] a hb hm ha =
    (tt, All-append (OptionIn l) (map some before) (some a ∷ []) (map-In l before hb) (ha, tt))
ring_from-In l before (b ∷ m) a hb hm ha = elim (Bool-cases (b == a)) [
  | inl o ↦
      rw (o, ring_from)
        (All-append (OptionIn l) (map some m) (none ∷ (map some before ++ (some a ∷ [])))
          (map-In l m hm.1)
          (
            tt,
            All-append (OptionIn l) (map some before) (some a ∷ []) (map-In l before hb) (ha, tt),
          ))
  | inr o ↦
      rw (o, ring_from)
        (ring_from-In l (before ++ (b ∷ [])) m a (All-append (In l) before (b ∷ []) hb (hm.0, tt))
          hm.1 ha)
]

first_active-In :
    (srv : ℕ → Srv) (l : List ℕ) (r : List (Option ℕ)) (b : ℕ)
    → All (OptionIn l) r
    → first_active srv r ≡ some b
    → In l b
unfolding first_active
first_active-In srv l [] b h e = absurd (cc)
first_active-In srv l (none ∷ r) b h e = first_active-In srv l r b h.1 e
first_active-In srv l (some a ∷ r) b h e = ground (arith, h.0, first_active-In srv l r b h.1)

-- The next current server is one of the list.
next_active-In :
    (srv : ℕ → Srv) (i : Inf) (a b : ℕ)
    → i.current ≡ some a
    → In i.srvlist a
    → next_active srv i ≡ some b
    → In i.srvlist b
unfolding next_active ring
next_active-In srv i a b c h e =
    first_active-In srv i.srvlist (ring_from [] i.srvlist a) b
      (ring_from-In i.srvlist [] i.srvlist a tt (In-self i.srvlist) h)
      (rw (c, next_active, ring) at e)

-- The current server, if there is one, is an active one of the list.
abbrev pub CurrentActive : (ℕ → Srv) → Inf → Type 0
CurrentActive srv i = (a : ℕ) → i.current ≡ some a → In i.srvlist a × Active srv a

abbrev deactivated : (ℕ → Srv) → Inf → ℕ → (ℕ → Srv) × Inf
deactivated srv i now = deactivate_current srv i now

deactivate_current_lem :
    (srv : ℕ → Srv) (i : Inf) (now a : ℕ)
    → now ≢ 0
    → i.current ≡ some a
    → CurrentActive srv i
    → let (srv', i') = deactivated srv i now in
      (active_count srv' i.srvlist < active_count srv i.srvlist)
      × (i'.srvlist ≡ i.srvlist)
      × CurrentActive srv' i'
unfolding deactivate_current mark_current set_current
deactivate_current_lem srv i now a later c ok =
    let srv' = update srv a (record (srv a) { inactive = now }) in
    let (m, act) = ok a c in
    let marked : mark_current srv i.current now ≡ srv' = rw (c, mark_current) refl in
    (
      rw marked ((active_count-mark srv i.srvlist a now later).1 m act),
      refl,
      λ b e.
          let e' : next_active srv' i ≡ some b =
            sym (ap (λ (f : ℕ → Srv). next_active f i) marked) ∙ e in
          (
            next_active-In srv' i a b c m e',
            ap (λ (f : ℕ → Srv). (f b).inactive) marked ∙ next_active-Active srv' i b e',
          ),
    )

-- With reactivation on, at a time that is not 0, and with a current server, if any, that is an
-- active one of the list, the loop ends: as many results of `sendto` as there are active servers in
-- the list are enough, whatever they are.
pub try_send_ends :
    (results : List Bool) (srv : ℕ → Srv) (i : Inf) (now : ℕ)
    → now ≢ 0
    → CurrentActive srv i
    → active_count srv i.srvlist ≤ length results
    → (t : Tried) × (try_send true now results srv i ≡ some t)
unfolding try_send
try_send_ends [] srv i now later ok h = elim (Option-cases i.current) [
  | inl c ↦ rw (c, try_send) (_, refl)
  | inr (a, c) ↦ absurd (omega (arith, (deactivate_current_lem srv i now a later c ok).0))
]
try_send_ends (sent ∷ results) srv i now later ok h = elim (Option-cases i.current) [
  | inl c ↦ rw (c, try_send) (_, refl)
  | inr (a, c) ↦ elim (Bool-cases sent) [
    | inl s ↦ rw (c, try_send, s) (_, refl)
    | inr s ↦
        let (less, same, ok') = deactivate_current_lem srv i now a later c ok in
        rw (c, try_send, s)
          (try_send_ends results (deactivated srv i now).0 (deactivated srv i now).1 now later ok'
            (rw same (omega arith)))
  ]
]
