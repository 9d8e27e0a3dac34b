-- ===== src/Relay/Checks.antt =====
-- dnrd-2.20.3/src/relay.c: deactivate_servers, which takes the servers out that do not answer.
use dnrd.Prelude.{
  ℕ, ◌+◌, ◌≤◌, Bool, true, false, ◌&&◌, ◌≡◌, ◌≢◌, refl, inl, inr, List, [], ◌∷◌, Option, none, some,
  arith, ltb, ◌==◌, if◌then◌else◌, not, All, Bool-cases,
}
use dnrd.Server.{Srv, Inf, update, mark_current, deactivate_current}
use dnrd.Udp.{State}

-- `s->send_time && difftime(now, s->send_time) > forward_timeout`.
unfoldable pub is_overdue : ℕ → ℕ → Srv → Bool
is_overdue forward_timeout now s = not (s.send_time == 0) && ltb (s.send_time + forward_timeout) now

abbrev pub is_current : Option ℕ → ℕ → Bool
is_current none a = false
is_current (some c) a = a == c

-- The loop over the servers of an interface, and its body.
unfoldable pub check_srv : ℕ → ℕ → ℕ → (ℕ → Srv) → Inf → (ℕ → Srv) × Inf
unfolding is_overdue
check_srv forward_timeout now a srv i =
    let srv' = update srv a (record (srv a) { inactive = now }) in
    if (srv a).inactive == 0 && is_overdue forward_timeout now (srv a)
    then if is_current i.current a then deactivate_current srv' i now else (srv', i)
    else (srv, i)

unfoldable pub check_srvlist : ℕ → ℕ → List ℕ → (ℕ → Srv) → Inf → (ℕ → Srv) × Inf
unfolding check_srv
check_srvlist forward_timeout now [] srv i = (srv, i)
check_srvlist forward_timeout now (a ∷ l) srv i =
    let (srv', i') = check_srv forward_timeout now a srv i in
    check_srvlist forward_timeout now l srv' i'

-- The loop over the interfaces. (The head has no servers.)
unfoldable pub check_infs : ℕ → ℕ → List Inf → (ℕ → Srv) → (ℕ → Srv) × List Inf
unfolding check_srvlist
check_infs forward_timeout now [] srv = (srv, [])
check_infs forward_timeout now (i ∷ l) srv =
    let (srv', i') = check_srvlist forward_timeout now i.srvlist srv i in
    let (srv'', l') = check_infs forward_timeout now l srv' in (srv'', i' ∷ l')

-- `deactivate_servers`; `last_try` is its static variable, which is 0 before the first call.
unfoldable pub deactivate_servers : ℕ → ℕ → ℕ → ℕ → State → State × ℕ
unfolding check_infs
deactivate_servers forward_timeout interval now last_try s =
    let started = if last_try == 0 then now else last_try in
    let (srv, infs) = check_infs forward_timeout now s.inf_list s.srv in
    if ltb now (started + interval)
    then (s, started)
    else (record s { srv = srv; inf_list = infs }, now)

-- A server that is active and overdue.
abbrev pub Stuck : ℕ → ℕ → (ℕ → Srv) → ℕ → Type 0
Stuck forward_timeout now srv a =
    ((srv a).inactive ≡ 0) × (is_overdue forward_timeout now (srv a) ≡ true)

-- No check makes a server stuck that was not.
mark_current_frame :
    (forward_timeout now : ℕ) (srv : ℕ → Srv) (o : Option ℕ) (b : ℕ)
    → now ≢ 0
    → Stuck forward_timeout now (mark_current srv o now) b
    → Stuck forward_timeout now srv b
unfolding mark_current is_overdue
mark_current_frame ft now srv none b later h = h
mark_current_frame ft now srv (some a) b later h = ground (arith, later, h)

deactivate_current_frame :
    (forward_timeout now : ℕ) (srv : ℕ → Srv) (i : Inf) (b : ℕ)
    → now ≢ 0
    → Stuck forward_timeout now (deactivate_current srv i now).0 b
    → Stuck forward_timeout now srv b
unfolding deactivate_current
deactivate_current_frame ft now srv i b later h = mark_current_frame ft now srv i.current b later h

mark_frame :
    (forward_timeout now : ℕ) (srv : ℕ → Srv) (a b : ℕ)
    → now ≢ 0
    → Stuck forward_timeout now (update srv a (record (srv a) { inactive = now })) b
    → Stuck forward_timeout now srv b × (b ≢ a)
unfolding is_overdue
mark_frame ft now srv a b later h = ground (arith, later, h)

check_srv_frame :
    (forward_timeout now a : ℕ) (srv : ℕ → Srv) (i : Inf) (b : ℕ)
    → now ≢ 0
    → Stuck forward_timeout now (check_srv forward_timeout now a srv i).0 b
    → Stuck forward_timeout now srv b × (b ≢ a)
unfolding check_srv
check_srv_frame ft now a srv i b later h =
    let srv' = update srv a (record (srv a) { inactive = now }) in
    elim (Bool-cases ((srv a).inactive == 0 && is_overdue ft now (srv a))) [
      | inl o ↦ elim (Bool-cases (is_current i.current a)) [
        | inl c ↦
            mark_frame ft now srv a b later
              (deactivate_current_frame ft now srv' i b later (rw (o, check_srv, c) at h))
        | inr c ↦ mark_frame ft now srv a b later (rw (o, check_srv, c) at h)
      ]
      | inr o ↦ let h' = rw (o, check_srv) at h in ground (arith, h')
    ]

check_srvlist_frame :
    (forward_timeout now : ℕ) (l : List ℕ) (srv : ℕ → Srv) (i : Inf) (b : ℕ)
    → now ≢ 0
    → Stuck forward_timeout now (check_srvlist forward_timeout now l srv i).0 b
    → Stuck forward_timeout now srv b × All (λ a. b ≢ a) l
unfolding check_srvlist
check_srvlist_frame ft now [] srv i b later h = (h, tt)
check_srvlist_frame ft now (a ∷ l) srv i b later h =
    let (srv', i') = check_srv ft now a srv i in
    let (g, k) = check_srvlist_frame ft now l srv' i' b later h in
    let (f, n) = check_srv_frame ft now a srv i b later g in (f, (n, k))

check_infs_frame :
    (forward_timeout now : ℕ) (l : List Inf) (srv : ℕ → Srv) (b : ℕ)
    → now ≢ 0
    → Stuck forward_timeout now (check_infs forward_timeout now l srv).0 b
    → Stuck forward_timeout now srv b × All (λ i. All (λ a. b ≢ a) i.srvlist) l
unfolding check_infs
check_infs_frame ft now [] srv b later h = (h, tt)
check_infs_frame ft now (i ∷ l) srv b later h =
    let (srv', i') = check_srvlist ft now i.srvlist srv i in
    let (g, k) = check_infs_frame ft now l srv' b later h in
    let (f, n) = check_srvlist_frame ft now i.srvlist srv i b later g in (f, (n, k))

-- When the interval since the last check is over, the time of the check is noted, and no server of
-- any interface is active and overdue after it; a server that is so elsewhere was so before. (There
-- was a check before, and the time is not 0.)
pub deactivate_servers_done :
    (forward_timeout interval now last_try b : ℕ) (s : State)
    → now ≢ 0
    → last_try ≢ 0
    → last_try + interval ≤ now
    → let (s', tried) = deactivate_servers forward_timeout interval now last_try s in
      (tried ≡ now)
      × (Stuck forward_timeout now s'.srv b
          → Stuck forward_timeout now s.srv b × All (λ i. All (λ a. b ≢ a) i.srvlist) s.inf_list)
unfolding deactivate_servers
deactivate_servers_done ft interval now last_try b s later tried due =
    let started : (last_try == 0) ≡ false = ground arith in
    let over : ltb now (last_try + interval) ≡ false = ground arith in
    rw (started, deactivate_servers, over) (refl, check_infs_frame ft now s.inf_list s.srv b later)
