-- ===== src/Udp/Dummy.antt =====
-- dnrd-2.20.3/src/udp.c, infnode.c and relay.c: udp_send_dummy, retry_srvlist and
-- reactivate_servers, which ask the inactive servers for signs of life.
use dnrd.Prelude.{
  ℕ, ◌+◌, Bool, true, false, ◌&&◌, ◌||◌, ◌≡◌, refl, ◌∙◌, List, [], ◌∷◌, none, some, arith, leb, ltb,
  ◌==◌, if◌then◌else◌, not, Bool-cases, inl, inr,
}
use dnrd.Prelude.Int.{ℤ}
use dnrd.Server.{Srv, Inf, update}
use dnrd.Query.{Queries, Outside, raw_id, set_raw_id, query_add}
use dnrd.Udp.{State}
use dnrd.Udp.Send.{udp_send}

-- The options that these functions read.
pub record Settings : Type 0 where
  pub max_sockets : ℤ
  pub forward_timeout : ℕ
  pub reactivate_interval : ℕ

-- What a call of `udp_send_dummy` meets: what `query_create` does, the bytes of the variable
-- `srcaddr`, which is not set before its use, and whether `sendto` sends the message.
pub record DummyCall : Type 0 where
  pub outside : Outside
  pub srcaddr : ℕ
  pub sent : Bool

-- The state with the static `dnsbuf`.
pub record Asking : Type 0 where
  pub state : State
  pub dnsbuf : List ℕ

-- The bytes that `dnsbuf` begins with: a query for the address of `localhost`.
abbrev pub dnsbuf_start : List ℕ
dnsbuf_start =
    0 ∷ 0 ∷ 1 ∷ 0 ∷ 0 ∷ 1 ∷ 0 ∷ 0 ∷ 0 ∷ 0 ∷ 0 ∷ 0 ∷ 9 ∷ b'l' ∷ b'o' ∷ b'c' ∷ b'a' ∷ b'l' ∷ b'h'
    ∷ b'o' ∷ b's' ∷ b't' ∷ 0 ∷ 0 ∷ 1 ∷ 0 ∷ 1 ∷ []

-- The query `q` shall not live long.
unfoldable pub set_ttl : Queries → ℕ → ℕ → Queries
set_ttl s q ttl = record s { cell = update s.cell q (record (s.cell q) { ttl = ttl }) }

unfoldable pub udp_send_dummy : Settings → ℕ → DummyCall → Asking → ℕ → Asking
unfolding set_ttl
udp_send_dummy set now call w a =
    let (queries, dnsbuf, added) =
      query_add w.state.queries call.outside set.max_sockets set.forward_timeout true a call.srcaddr
        w.dnsbuf now in
    elim added [
      | none ↦ record { state = record w.state { queries = queries }; dnsbuf = dnsbuf }
      | some q ↦ record {
        state = record w.state {
          queries = set_ttl queries q set.reactivate_interval;
          srv = udp_send w.state.srv a call.sent now;
        };
        dnsbuf = set_raw_id (raw_id dnsbuf + 1) dnsbuf;
      }
    ]

-- `s->inactive && now - s->inactive >= delay`.
unfoldable pub is_due : ℕ → ℕ → Srv → Bool
is_due delay now s = not (s.inactive == 0) && leb (s.inactive + delay) now

-- `s->inactive = now`.
unfoldable pub mark_tried : Asking → ℕ → ℕ → Asking
mark_tried w a now = record w {
  state = record w.state { srv = update w.state.srv a (record (w.state.srv a) { inactive = now }) };
}

-- The loop of `retry_srvlist`, and its body.
unfoldable pub retry_srv : Settings → ℕ → ℕ → DummyCall → ℕ → Asking → Asking
unfolding udp_send_dummy is_due mark_tried
retry_srv set delay now call a w =
    if is_due delay now (w.state.srv a)
    then udp_send_dummy set now call (mark_tried w a now) a
    else w

-- `calls` says what the dummy query to each server meets.
unfoldable pub retry_srvlist : Settings → ℕ → ℕ → (ℕ → DummyCall) → List ℕ → Asking → Asking
unfolding retry_srv
retry_srvlist set delay now calls [] w = w
retry_srvlist set delay now calls (a ∷ l) w =
    retry_srvlist set delay now calls l (retry_srv set delay now (calls a) a w)

-- The loop of `reactivate_servers` over the interfaces. (The head has no servers.)
unfoldable pub retry_infs : Settings → ℕ → ℕ → (ℕ → DummyCall) → List Inf → Asking → Asking
unfolding retry_srvlist
retry_infs set delay now calls [] w = w
retry_infs set delay now calls (i ∷ l) w =
    retry_infs set delay now calls l (retry_srvlist set delay now calls i.srvlist w)

-- `reactivate_servers`, with its static `last_try`, which is 0 before the first call.
unfoldable pub reactivate_servers : Settings → ℕ → ℕ → ℕ → (ℕ → DummyCall) → Asking → Asking × ℕ
unfolding retry_infs
reactivate_servers set interval now last_try calls w =
    let started = if last_try == 0 then now else last_try in
    let asked = retry_infs set interval now calls w.state.inf_list w in
    if ltb now (started + interval) then (w, started) else (asked, now)

-- `udp_send` changes neither the address of a server nor whether it is inactive.
udp_send_inactive :
    (srv : ℕ → Srv) (a b now : ℕ) (sent : Bool)
    → (udp_send srv a sent now b).inactive ≡ (srv b).inactive
unfolding udp_send
udp_send_inactive srv a b now sent = ground arith

udp_send_dummy_inactive :
    (set : Settings) (now : ℕ) (call : DummyCall) (w : Asking) (a b : ℕ)
    → ((udp_send_dummy set now call w a).state.srv b).inactive ≡ (w.state.srv b).inactive
unfolding udp_send_dummy
udp_send_dummy_inactive set now call w a b =
    ground (arith, udp_send_inactive w.state.srv a b now call.sent)

retry_srv_inactive :
    (set : Settings) (delay now : ℕ) (call : DummyCall) (a b : ℕ) (w : Asking)
    → ((retry_srv set delay now call a w).state.srv b).inactive
      ≡ (if a == b && is_due delay now (w.state.srv b) then now else (w.state.srv b).inactive)
unfolding retry_srv mark_tried
retry_srv_inactive set delay now call a b w = elim (Bool-cases (is_due delay now (w.state.srv a))) [
  | inl e ↦
      rw (e, retry_srv)
        (udp_send_dummy_inactive set now call (mark_tried w a now) a b ∙ ground (arith, e))
  | inr e ↦ rw (e, retry_srv) (ground (arith, e))
]

-- Whether a server stands in a list.
abbrev pub is_listed : ℕ → List ℕ → Bool
is_listed b [] = false
is_listed b (a ∷ l) = a == b || is_listed b l

-- Exactly the servers of the list that have been inactive for `delay` are marked as tried now; no
-- server becomes active or inactive by it.
pub retry_srvlist_marks :
    (set : Settings) (delay now : ℕ) (calls : ℕ → DummyCall) (l : List ℕ) (w : Asking) (b : ℕ)
    → ((retry_srvlist set delay now calls l w).state.srv b).inactive ≡ (
        if is_listed b l && is_due delay now (w.state.srv b) then now else (w.state.srv b).inactive)
unfolding retry_srvlist
retry_srvlist_marks set delay now calls [] w b = refl
retry_srvlist_marks set delay now calls (a ∷ l) w b =
    let w' : Asking = retry_srv set delay now (calls a) a w in
    let one : (w'.state.srv b).inactive
        ≡ (if a == b && is_due delay now (w.state.srv b) then now else (w.state.srv b).inactive) =
      retry_srv_inactive set delay now (calls a) a b w in
    retry_srvlist_marks set delay now calls l w' b ∙ unfold is_due in ground (arith, one)
