-- ===== src/Udp/Send.antt =====
-- dnrd-2.20.3/src/udp.c: a query on its way to the servers: udp_send, send2current and
-- udp_send_dummy.
pub mod Count
pub mod Ends
pub mod Apart
use dnrd.Prelude.{
  ℕ, zero, suc, ◌+◌, ◌-◌, ◌*◌, ◌≤◌, ◌<◌, Bool, true, false, ◌&&◌, ◌||◌, ◌≡◌, ◌≢◌, refl, sym, ap,
  ◌∙◌, List, [], ◌∷◌, ◌++◌, Option, none, some, arith, leb, ltb, ◌==◌, if◌then◌else◌, length, set,
  get_or, map, not, Bool-cases,
}
use dnrd.Prelude.Int.{ℤ, pos, succ_ℤ}
use dnrd.Server.{
  Srv, Inf, update, first_active, next_active, set_current, mark_current, deactivate_current,
}
use dnrd.Query.{Query}

-- `strncmp(a, b, n) == 0`, on strings without their NUL.
unfoldable pub strneq : ℕ → List ℕ → List ℕ → Bool
strneq zero a b = true
strneq (suc n) [] [] = true
strneq (suc n) [] (d ∷ b) = false
strneq (suc n) (c ∷ a) [] = false
strneq (suc n) (c ∷ a) (d ∷ b) = c == d && strneq n a b

-- `is_curr_inf_default`, and the same loop over the interfaces of the special hosts.
unfoldable pub is_curr_inf_default : List (List ℕ) → List ℕ → Bool
unfolding strneq
is_curr_inf_default [] i_name = false
is_curr_inf_default (d ∷ l) i_name = strneq 9 i_name d || is_curr_inf_default l i_name

-- Whether the loop of `send2current` sends through an interface: `matched` are the interfaces of
-- the special hosts that match, and `defaults` the default ones.
unfoldable pub is_used : List (List ℕ) → List (List ℕ) → List ℕ → Bool
unfolding is_curr_inf_default
is_used [] [] inf = true
is_used [] (d ∷ l) inf = is_curr_inf_default (d ∷ l) inf
is_used (m ∷ l) defaults inf = is_curr_inf_default (m ∷ l) inf

-- `udp_send`: the server's node, where `sendto` sends all of the message or not.
unfoldable pub udp_send : (ℕ → Srv) → ℕ → Bool → ℕ → ℕ → Srv
udp_send srv a sent now =
    if sent
    then update srv a (record (srv a) {
      send_time = if (srv a).send_time == 0 then now else (srv a).send_time;
      send_count = (srv a).send_count + 1;
    })
    else srv

-- What a loop of sends leaves: the servers, the interface, and the results of the calls of
-- `sendto` that are still to come.
pub record Tried : Type 0 where
  pub srv : ℕ → Srv
  pub inf : Inf
  pub results : List Bool

-- The inner loop of `send2current`, over the results of `sendto`; `none` says that it runs on
-- after all of them.
unfoldable pub try_send : Bool → ℕ → List Bool → (ℕ → Srv) → Inf → Option Tried
unfolding udp_send
try_send reactivate now [] srv i = elim i.current [
  | none ↦ some (record { srv = srv; inf = i; results = [] })
  | some a ↦ none
]
try_send reactivate now (sent ∷ results) srv i = elim i.current [
  | none ↦ some (record { srv = srv; inf = i; results = sent ∷ results })
  | some a ↦ elim sent [
    | true ↦ some (record { srv = udp_send srv a true now; inf = i; results = results })
    | false ↦ elim reactivate [
      | true ↦
          let (srv', i') = deactivate_current srv i now in try_send reactivate now results srv' i'
      | false ↦ try_send reactivate now results srv i
    ]
  ]
]

-- The query takes note of the server that it went to, and counts, also where there was none.
unfoldable pub note_server : Query → ℕ → Option ℕ → Query
note_server q c none = record q { serv_sent_cnt = succ_ℤ q.serv_sent_cnt }
note_server q c (some a) = record q {
  srv_list = set q.srv_list c (some a);
  serv_sent_cnt = succ_ℤ q.serv_sent_cnt;
}

-- What the outer loop leaves: the interfaces, the servers, the query, and the current server of
-- the interface where it stopped, which may be the head.
pub record Walked : Type 0 where
  pub infs : List Inf
  pub srv : ℕ → Srv
  pub q : Query
  pub results : List Bool
  pub at : Option ℕ

abbrev at_head : Option ℕ → List Inf → Option ℕ
at_head head [] = head
at_head head (i ∷ l) = i.current

abbrev with_inf : Inf → Option Walked → Option Walked
with_inf i none = none
with_inf i (some w) = some (record w { infs = i ∷ w.infs })

-- The outer loop of `send2current`, from the interface at the front of the list on; `c` is the
-- index of the next socket, and `head` the `current` of the list's head.
unfoldable pub walk :
    (List ℕ → Bool)
    → Option ℕ
    → Bool
    → ℕ
    → ℕ
    → List Bool
    → List Inf
    → (ℕ → Srv)
    → Query
    → Option Walked
unfolding try_send note_server
walk used head reactivate now c results [] srv q =
    some (record { infs = []; srv = srv; q = q; results = results; at = head })
walk used head reactivate now c results (i ∷ l) srv q = elim (ltb c 3) [
  | false ↦ some (record { infs = i ∷ l; srv = srv; q = q; results = results; at = i.current })
  | true ↦ elim (used i.inf) [
    | false ↦ with_inf i (walk used head reactivate now c results l srv q)
    | true ↦ elim (try_send reactivate now results srv i) [
      | none ↦ none
      | some t ↦ elim q.is_dummy [
        | true ↦ some (record {
          infs = t.inf ∷ l;
          srv = t.srv;
          q = note_server q c t.inf.current;
          results = t.results;
          at = at_head head l;
        })
        | false ↦ with_inf t.inf (
            walk used head reactivate now (c + 1) t.results l t.srv (note_server q c t.inf.current))
      ]
    ]
  ]
]

-- `send2current`: what it leaves, and what it returns for a message of the length `len`.
unfoldable pub send2current :
    List (List ℕ)
    → List (List ℕ)
    → Option ℕ
    → Bool
    → ℕ
    → List Bool
    → List Inf
    → (ℕ → Srv)
    → Query
    → ℕ
    → Option (Walked × ℕ)
unfolding walk is_used
send2current matched defaults head reactivate now results infs srv q len =
    elim (walk (is_used matched defaults) head reactivate now 0 results infs srv q) [
      | none ↦ none
      | some w ↦ some (w, elim w.at [ some a ↦ len | none ↦ 0 ])
    ]
