-- ===== src/Relay.antt =====
-- dnrd-2.20.3/src/relay.c: what becomes of a query, and the regular checks of the servers. A time
-- limit of 0 switches a check off. (`master_lookup` is an argument; the log is left out.)
pub mod Choice
pub mod Checks
pub mod Local
pub mod Held
pub mod Run
pub mod Head
pub mod Upkeep
use Prim.Native.Nat.{bit_or}
use dnrd.Prelude.{
  ℕ, zero, suc, ◌+◌, ◌-◌, ◌*◌, ◌%◌, ◌≤◌, ◌<◌, Bool, true, false, ◌&&◌, ◌||◌, List, [], ◌∷◌, ◌++◌,
  Option, none, some, arith, leb, ltb, ◌==◌, if◌then◌else◌, length, get_or, set, take, map, not,
}
use dnrd.Dns.Packet.{Rr}
use dnrd.Cache.{Cache, Reply, cache_lookup}
use dnrd.Server.{Srv, Inf, update, next_active, deactivate_current, no_srvlist}
use dnrd.Udp.{State}

-- `set_srvfail`.
unfoldable pub set_srvfail : List ℕ → Option (List ℕ)
set_srvfail msg =
    if ltb (length msg) 4 then none else some (set (set msg 2 (bit_or (get_or msg 2 0) 132)) 3 130)

-- The loop of `handle_query` over the interfaces behind the head: each one takes its first active
-- server, up to the first interface that has one. The place of that one, or `none` where the loop
-- ends at the head.
unfoldable pub choose : (ℕ → Srv) → List Inf → List Inf × Option ℕ
choose srv [] = ([], none)
choose srv (i ∷ l) =
    let i' = record i { current = next_active srv (record i { current = none }) } in
    let (l', place) = choose srv l in
    elim i'.current [
      | some a ↦ (i' ∷ l, some 0)
      | none ↦ (i' ∷ l', elim place [ some n ↦ some (suc n) | none ↦ none ])
    ]

-- Whether the current server has timed out.
unfoldable pub is_timed_out : ℕ → ℕ → ℕ → Srv → Bool
is_timed_out forward_timeout reactivate_interval now s =
    not (s.send_time == 0)
    && (not (forward_timeout == 0)
        && (not (reactivate_interval == 0) && ltb (s.send_time + forward_timeout) now))

-- The timeout of the current server of the interface at a place.
unfoldable pub check_current : ℕ → ℕ → ℕ → (ℕ → Srv) → List Inf → ℕ → (ℕ → Srv) × List Inf
unfolding is_timed_out
check_current forward_timeout reactivate_interval now srv [] n = (srv, [])
check_current forward_timeout reactivate_interval now srv (i ∷ l) (suc n) =
    let (srv', l') = check_current forward_timeout reactivate_interval now srv l n in (srv', i ∷ l')
check_current forward_timeout reactivate_interval now srv (i ∷ l) zero = elim i.current [
  | none ↦ (srv, i ∷ l)
  | some a ↦ elim (is_timed_out forward_timeout reactivate_interval now (srv a)) [
    | true ↦ let (srv', i') = deactivate_current srv i now in (srv', i' ∷ l)
    | false ↦ (srv, i ∷ l)
  ]
]

-- The current server of the interface at a place in the list behind the head.
unfoldable pub current_at : List Inf → ℕ → Option ℕ
current_at [] n = none
current_at (i ∷ l) zero = i.current
current_at (i ∷ l) (suc n) = current_at l n

-- What becomes of a query: it is ignored, `msg` has the answer, or `msg` goes on by the interface
-- at a place, or by the head (`none`).
pub data Outcome : Type 0 where
  bogus : Outcome
  reply : List ℕ → Outcome
  forward : Option ℕ → List ℕ → Outcome

-- The failure where no server is left.
unfoldable pub fail_query : List ℕ → Outcome
unfolding set_srvfail
fail_query msg = elim (set_srvfail msg) [ none ↦ Outcome.bogus | some m ↦ Outcome.reply m ]

-- What `*inf_ptr` has as its `current`.
unfoldable pub current_of : State → Option ℕ → Option ℕ
unfolding current_at
current_of s none = s.head_current
current_of s (some n) = current_at s.inf_list n

-- The head's `current` where the loop ends there: it is only looked for where there is no
-- interface, and then there is no active server.
unfoldable pub head_at_end : State → Option ℕ
head_at_end s = elim s.inf_list [ [] ↦ none | ◌∷◌ i l ↦ s.head_current ]

-- The rest of `handle_query` for the head. Where its `current` has timed out, there is no other one.
unfoldable pub forward_head : ℕ → ℕ → ℕ → State → List ℕ → State × Outcome
unfolding head_at_end is_timed_out fail_query
forward_head forward_timeout reactivate_interval now s msg = elim (head_at_end s) [
  | none ↦ (record s { head_current = none }, fail_query msg)
  | some h ↦
      let marked = update s.srv h (record (s.srv h) { inactive = now }) in
      if is_timed_out forward_timeout reactivate_interval now (s.srv h)
      then (record s { head_current = none; srv = marked }, fail_query msg)
      else (s, Outcome.forward none msg)
]

-- `handle_query` from the choice of an interface on.
unfoldable pub forward_query : ℕ → ℕ → ℕ → State → List ℕ → State × Outcome
unfolding choose check_current current_at fail_query forward_head
forward_query forward_timeout reactivate_interval now s msg =
    let (infs, place) = choose s.srv s.inf_list in
    elim place [
      | none ↦
          forward_head forward_timeout reactivate_interval now (record s { inf_list = infs }) msg
      | some n ↦
          let (srv, infs') = check_current forward_timeout reactivate_interval now s.srv infs n in
          (
            record s { inf_list = infs'; srv = srv },
            elim (current_at infs' n) [
              | none ↦ fail_query msg
              | some a ↦ Outcome.forward (some n) msg
            ],
          )
    ]

-- What `master_lookup` says: the query is not for it, it has the answer, or the query is bogus.
pub data Looked : Type 0 where
  pass : Looked
  answer : List ℕ → Looked
  error : Looked

-- `handle_query`. (`cache_lookup` returns no negative length. The messages are the first `*len`
-- bytes of the buffer, which `cache_lookup` may change.)
unfoldable pub handle_query :
    (List ℕ → Looked) → (ℕ → Bool) → Rr → Bool → ℕ → ℕ → ℕ → State → List ℕ → State × Outcome
unfolding forward_query
handle_query master_lookup valid stack ignore forward_timeout reactivate_interval now s msg =
    elim (master_lookup msg) [
      | Looked.answer m ↦ (s, Outcome.reply m)
      | Looked.error ↦ (s, Outcome.bogus)
      | Looked.pass ↦
          let r = cache_lookup valid stack ignore (λ a. (s.srv a).inactive) s.cache msg now in
          let s' = record s { cache = r.cache } in
          let forwarded =
            forward_query forward_timeout reactivate_interval now s' (take (length msg) r.packet) in
          if ltb 0 r.len then (s', Outcome.reply (take r.len r.packet)) else forwarded
    ]
