-- ===== src/Relay/Run/Ids.antt =====
-- dnrd-2.20.3/src/relay.c: the loop of the program keeps the ids of the queries.
use mathlib.Core.List.{Mem, mem-cons_self, mem-cons_of_mem}
use dnrd.Prelude.{
  ℕ, zero, suc, ◌+◌, Bool, ◌≡◌, refl, List, [], ◌∷◌, Option, some, arith, ◌==◌, if◌then◌else◌,
  get_elem?, get_or, ltb, Bool-cases, Option-cases, inl, inr,
}
use dnrd.Query.Invariant.{IsKept}
use dnrd.Query.Kept.{IsKept-same, CanAdd, query_timeout-IsKept}
use dnrd.Query.Timeout.{query_timeout}
use dnrd.Cache.Expire.{Qsort, cache_expire}
use dnrd.Udp.{State, Received, CacheCall}
use dnrd.Udp.Ids.{udp_handle_reply-IsKept}
use dnrd.Udp.Kept.{CanAskAll, reactivate_servers-IsKept, udp_handle_request-IsKept}
use dnrd.Udp.Dummy.{Settings, DummyCall, reactivate_servers}
use dnrd.Udp.Request.{RequestCall, udp_handle_request}
use dnrd.Relay.Checks.{deactivate_servers}
use dnrd.Relay.Run.Keeps.{Always, run_keeps}
use dnrd.Relay.Run.{
  World, Woken, Event, Options, Phase, query_stats, check_servers, after_sleep, handle_at, look_at,
  with_options, take_request, maintain, run,
}

-- What the loop keeps of its variables.
abbrev pub IsRunning : World → Type 0
IsRunning w = IsKept w.asking.state.queries

-- What an event brings for the queries that it adds: a free id and a new address for each.
unfoldable pub CanServe : Options → Event → World → Type 0
CanServe opts (Event.slept woken now calls) w =
    CanAskAll opts.settings opts.settings.reactivate_interval now calls w.asking.state.inf_list
      w.asking
CanServe opts (Event.looked call got) w = Unit
CanServe opts (Event.asked call got from) w = CanAdd w.asking.state.queries call.outside
CanServe opts (Event.kept_up qsort now) w = Unit

abbrev pub CanServeAll : Options → List Event → World → Type 0
CanServeAll opts l w = Always (CanServe opts) opts l w

deactivate_servers_queries :
    (ft interval now last_try : ℕ) (s : State)
    → (deactivate_servers ft interval now last_try s).0.queries ≡ s.queries
unfolding deactivate_servers
deactivate_servers_queries ft interval now last_try s =
    let started = if last_try == 0 then now else last_try in
    elim (Bool-cases (ltb now (started + interval))) [ inl e ↦ rw e refl | inr e ↦ rw e refl ]

query_stats-IsKept :
    (interval : ℕ) (reset : Bool) (now last : ℕ) (s : State)
    → IsKept s.queries
    → IsKept (query_stats interval reset now last s).0.queries
unfolding query_stats
query_stats-IsKept interval reset now last s k =
    let s' = (query_stats interval reset now last s).0.queries in
    let same : (s'.qlist ≡ s.queries.qlist)
        × (s'.pool ≡ s.queries.pool)
        × ((b : ℕ) → (s'.cell b).my_qid ≡ (s.queries.cell b).my_qid) =
      ground arith in
    IsKept-same s.queries s' same.0 same.1 same.2 k

check_servers-IsRunning :
    (set : Settings) (now : ℕ) (calls : ℕ → DummyCall) (w : World)
    → IsRunning w
    → CanAskAll set set.reactivate_interval now calls w.asking.state.inf_list w.asking
    → IsRunning (check_servers set now calls w)
unfolding check_servers
check_servers-IsRunning set now calls w k can =
    let tried = reactivate_servers set set.reactivate_interval now w.last_try calls w.asking in
    let k' : IsKept tried.0.state.queries =
      reactivate_servers-IsKept set set.reactivate_interval now w.last_try calls w.asking k can in
    let same = deactivate_servers_queries set.forward_timeout 1 now w.last_check tried.0.state in
    elim (Bool-cases (set.reactivate_interval == 0)) [
      | inl e ↦ rw (e, check_servers) k
      | inr e ↦ elim (Bool-cases (set.forward_timeout == 0)) [
        | inl f ↦ rw (e, f, check_servers) k'
        | inr f ↦ rw (e, f, check_servers) (rw same k')
      ]
    ]

after_sleep-IsRunning : (woken : Woken) (w : World) → IsRunning w → IsRunning (after_sleep woken w)
unfolding after_sleep
after_sleep-IsRunning Woken.idle w k = k
after_sleep-IsRunning (Woken.readable fdread isock_set) w k = k
after_sleep-IsRunning (Woken.interrupted signals out paths) w k = k
after_sleep-IsRunning Woken.failed w k = k

get_elem?-Mem : (l : List ℕ) (k q : ℕ) → get_elem? l k ≡ some q → Mem q l
get_elem?-Mem [] k q e = absurd (cc)
get_elem?-Mem (a ∷ l) zero q e = let same : q ≡ a = ground (arith, e) in rw same mem-cons_self
get_elem?-Mem (a ∷ l) (suc k) q e = mem-cons_of_mem a (get_elem?-Mem l k q e)

look_at-IsRunning :
    (k i : ℕ) (call : CacheCall) (got : Received) (w : World)
    → IsRunning w
    → IsRunning (look_at k i call got w)
unfolding look_at handle_at
look_at-IsRunning k i call got w kept =
    let s = w.asking.state in
    elim (Option-cases (get_elem? s.queries.qlist k)) [
      | inl e ↦ rw (e, handle_at) kept
      | inr (q, e) ↦ elim (Bool-cases (w.fdread (get_or (s.queries.cell q).sock_arr i 0))) [
        | inl r ↦
            rw (e, handle_at, r)
              (udp_handle_reply-IsKept s q call got kept (get_elem?-Mem s.queries.qlist k q e))
        | inr r ↦ rw (e, handle_at, r) kept
      ]
    ]

take_request-IsRunning :
    (call : RequestCall) (got : Option (List ℕ)) (from : ℕ) (w w' : World)
    → IsRunning w
    → CanAdd w.asking.state.queries call.outside
    → take_request call got from w ≡ some w'
    → IsRunning w'
unfolding take_request
take_request-IsRunning call got from w w' k can e = elim (Bool-cases w.isock_set) [
  | inr o ↦
      let same : record w { phase = Phase.upkeep } ≡ w' =
        ground (arith, rw (o, take_request) at e) in
      rw (← same) k
  | inl o ↦ elim (Option-cases (udp_handle_request call w.asking.state got from)) [
    | inl f ↦ absurd (ground (arith, rw (o, f, take_request) at e))
    | inr ((s, q), f) ↦
        let same : record w { asking = record w.asking { state = s }; phase = Phase.upkeep } ≡ w' =
          ground (arith, rw (o, f, take_request) at e) in
        rw (← same) (udp_handle_request-IsKept call w.asking.state s got from q k can f)
  ]
]

maintain-IsRunning :
    (opts : Options) (qsort : Qsort) (now : ℕ) (w w' : World)
    → IsRunning w
    → maintain opts qsort now w ≡ some w'
    → IsRunning w'
unfolding maintain
maintain-IsRunning opts qsort now w w' k e =
    let s = w.asking.state in
    elim (Option-cases (query_timeout s.queries now)) [
      | inl f ↦ absurd (ground (arith, rw (f, maintain) at e))
      | inr (queries, f) ↦
          let s' : State = record s { queries = queries; cache = cache_expire qsort s.cache now } in
          let (s'', last) = query_stats opts.stats_interval opts.stats_reset now w.last_stats s' in
          let same : record w {
            asking = record w.asking { state = s'' };
            last_stats = last;
            phase = Phase.waiting;
          }
              ≡ w' =
            ground (arith, rw (f, maintain) at e) in
          rw (← same) (
            query_stats-IsKept opts.stats_interval opts.stats_reset now w.last_stats s'
              (query_timeout-IsKept s.queries queries now k f))
    ]

-- Over every sequence of events, the loop of the program keeps each id held by one waiting query or
-- free, where each query that is added finds a free id and a new address.
pub run-IsRunning :
    (opts : Options) (l : List Event) (w w' : World)
    → IsRunning w
    → CanServeAll opts l w
    → run opts l w ≡ some w'
    → IsRunning w'
unfolding CanServe with_options
run-IsRunning opts l w w' k can e =
    run_keeps opts (CanServe opts) IsRunning
      (record {
        moves = λ p w k. k;
        sleeps = λ woken now calls w k can.
            after_sleep-IsRunning woken (check_servers opts.settings now calls w)
              (check_servers-IsRunning opts.settings now calls w k can);
        looks = look_at-IsRunning;
        takes = λ call got from w w' k can e.
            take_request-IsRunning (with_options opts.settings w.master call) got from w w' k can e;
        tidies = maintain-IsRunning opts;
      })
      l w w' k can e
