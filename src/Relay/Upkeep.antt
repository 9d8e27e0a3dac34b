-- ===== src/Relay/Upkeep.antt =====
-- dnrd-2.20.3/src/relay.c, with infnode.c and udp.c: deactivate_servers and reactivate_servers leave
-- the `current` of the head of inf_list as main has set it.
use dnrd.Prelude.{
  ℕ, ◌+◌, true, ◌&&◌, ◌≡◌, ◌≢◌, refl, ◌∙◌, List, [], ◌∷◌, arith, ltb, ◌==◌, if◌then◌else◌, length,
  All, Bool-cases, Option-cases, inl, inr,
}
use dnrd.Server.{Srv, Inf, update}
use dnrd.Server.Apart.{Apart, Untouched, deactivate_current-Apart}
use dnrd.Query.{query_add}
use dnrd.Udp.Send.Apart.{Alone, udp_send-unsent}
use dnrd.Udp.{State}
use dnrd.Udp.Dummy.{
  Settings, DummyCall, Asking, udp_send_dummy, is_due, mark_tried, retry_srv, retry_srvlist,
  retry_infs, reactivate_servers,
}
use dnrd.Relay.Head.{IsHeaded, headed}
use dnrd.Relay.Checks.{
  is_overdue, is_current, check_srv, check_srvlist, check_infs, deactivate_servers,
}
use dnrd.Udp.Apart.{Kin-IsHeaded}

check_srv-Alone :
    (ft now a h : ℕ) (srv : ℕ → Srv) (i : Inf)
    → Apart h i
    → let (srv', i') = check_srv ft now a srv i in Alone h srv srv' i'
unfolding check_srv
check_srv-Alone ft now a h srv i k =
    let srv' = update srv a (record (srv a) { inactive = now }) in
    let marked : (srv' h).send_time ≡ (srv h).send_time = ground arith in
    elim (Bool-cases ((srv a).inactive == 0 && is_overdue ft now (srv a))) [
      | inl o ↦ elim (Bool-cases (is_current i.current a)) [
        | inl c ↦
            let (apart, same) = deactivate_current-Apart h srv' i now k in
            rw (o, check_srv, c) (apart, same ∙ marked)
        | inr c ↦ rw (o, check_srv, c) (k, marked)
      ]
      | inr o ↦ rw (o, check_srv) (k, refl)
    ]

check_srvlist-Alone :
    (ft now h : ℕ) (l : List ℕ) (srv : ℕ → Srv) (i : Inf)
    → Apart h i
    → let (srv', i') = check_srvlist ft now l srv i in Alone h srv srv' i'
unfolding check_srvlist
check_srvlist-Alone ft now h [] srv i k = (k, refl)
check_srvlist-Alone ft now h (a ∷ l) srv i k =
    let (srv', i') = check_srv ft now a srv i in
    let (apart, same) = check_srv-Alone ft now a h srv i k in
    let (apart', same') = check_srvlist-Alone ft now h l srv' i' apart in (apart', same' ∙ same)

check_infs-Untouched :
    (ft now h n : ℕ) (l : List Inf) (srv : ℕ → Srv)
    → Untouched h n srv l
    → let (srv', l') = check_infs ft now l srv in Untouched h n srv' l'
unfolding check_infs
check_infs-Untouched ft now h n [] srv k = k
check_infs-Untouched ft now h n (i ∷ l) srv (t, k, long) =
    let (srv', i') = check_srvlist ft now i.srvlist srv i in
    let (apart, same) = check_srvlist-Alone ft now h i.srvlist srv i k.0 in
    let (t', k', long') = check_infs-Untouched ft now h (length l) l srv' (same ∙ t, k.1, refl) in
    (t', (apart, k'), omega (arith, long', long))

-- The check of the servers leaves it so.
pub deactivate_servers-IsHeaded :
    (ft interval now last_try h : ℕ) (s : State)
    → IsHeaded h s
    → IsHeaded h (deactivate_servers ft interval now last_try s).0
unfolding deactivate_servers
deactivate_servers-IsHeaded ft interval now last_try h s k =
    let started = if last_try == 0 then now else last_try in
    let (srv, infs) = check_infs ft now s.inf_list s.srv in
    let s' : State = record s { srv = srv; inf_list = infs } in
    elim (Bool-cases (ltb now (started + interval))) [
      | inl e ↦ rw e k
      | inr e ↦ rw e (
          headed h s s' k refl
            (check_infs-Untouched ft now h (length s.inf_list) s.inf_list s.srv k.untouched))
    ]

-- Asking a server that is listed leaves it so.
udp_send_dummy-IsHeaded :
    (set : Settings) (now h a : ℕ) (call : DummyCall) (w : Asking)
    → IsHeaded h w.state
    → a ≢ h
    → IsHeaded h (udp_send_dummy set now call w a).state
unfolding udp_send_dummy
udp_send_dummy-IsHeaded set now h a call w k apart =
    let added =
      query_add w.state.queries call.outside set.max_sockets set.forward_timeout true a call.srcaddr
        w.dnsbuf now in
    let s = (udp_send_dummy set now call w a).state in
    elim (Option-cases added.2) [
      | inl e ↦ rw (e, udp_send_dummy) (Kin-IsHeaded h w.state _ (refl, refl, refl) k)
      | inr (q, e) ↦
          rw (e, udp_send_dummy)
            (headed h w.state _ k refl (
              udp_send-unsent h a now w.state.srv call.sent apart ∙ k.untouched.0,
              k.untouched.1,
              refl,
            ))
    ]

mark_tried-IsHeaded :
    (w : Asking) (a now h : ℕ) → IsHeaded h w.state → IsHeaded h (mark_tried w a now).state
unfolding mark_tried
mark_tried-IsHeaded w a now h k =
    headed h w.state (mark_tried w a now).state k refl
      (ground (arith, k.untouched.0), k.untouched.1, refl)

retry_srv-IsHeaded :
    (set : Settings) (delay now h a : ℕ) (call : DummyCall) (w : Asking)
    → a ≢ h
    → IsHeaded h w.state
    → IsHeaded h (retry_srv set delay now call a w).state
unfolding retry_srv
retry_srv-IsHeaded set delay now h a call w apart k =
    elim (Bool-cases (is_due delay now (w.state.srv a))) [
      | inl e ↦
          rw (e, retry_srv)
            (udp_send_dummy-IsHeaded set now h a call (mark_tried w a now)
              (mark_tried-IsHeaded w a now h k) apart)
      | inr e ↦ rw (e, retry_srv) k
    ]

retry_srvlist-IsHeaded :
    (set : Settings) (delay now h : ℕ) (calls : ℕ → DummyCall) (l : List ℕ) (w : Asking)
    → All (λ a. a ≢ h) l
    → IsHeaded h w.state
    → IsHeaded h (retry_srvlist set delay now calls l w).state
unfolding retry_srvlist
retry_srvlist-IsHeaded set delay now h calls [] w apart k = k
retry_srvlist-IsHeaded set delay now h calls (a ∷ l) w apart k =
    retry_srvlist-IsHeaded set delay now h calls l (retry_srv set delay now (calls a) a w) apart.1
      (retry_srv-IsHeaded set delay now h a (calls a) w apart.0 k)

retry_infs-IsHeaded :
    (set : Settings) (delay now h : ℕ) (calls : ℕ → DummyCall) (l : List Inf) (w : Asking)
    → All (Apart h) l
    → IsHeaded h w.state
    → IsHeaded h (retry_infs set delay now calls l w).state
unfolding retry_infs
retry_infs-IsHeaded set delay now h calls [] w apart k = k
retry_infs-IsHeaded set delay now h calls (i ∷ l) w apart k =
    retry_infs-IsHeaded set delay now h calls l (retry_srvlist set delay now calls i.srvlist w)
      apart.1 (retry_srvlist-IsHeaded set delay now h calls i.srvlist w apart.0.1 k)

-- The dummy queries leave it so.
pub reactivate_servers-IsHeaded :
    (set : Settings) (interval now last_try h : ℕ) (calls : ℕ → DummyCall) (w : Asking)
    → IsHeaded h w.state
    → IsHeaded h (reactivate_servers set interval now last_try calls w).0.state
unfolding reactivate_servers
reactivate_servers-IsHeaded set interval now last_try h calls w k =
    let started = if last_try == 0 then now else last_try in
    elim (Bool-cases (ltb now (started + interval))) [
      | inl e ↦ rw e k
      | inr e ↦
          rw e (retry_infs-IsHeaded set interval now h calls w.state.inf_list w k.untouched.1 k)
    ]
