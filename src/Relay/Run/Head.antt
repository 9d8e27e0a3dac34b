-- ===== src/Relay/Run/Head.antt =====
-- dnrd-2.20.3/src/relay.c: the loop of the program leaves the `current` of the head of
-- inf_list as main has set it.
use dnrd.Prelude.{
  ℕ, ◌≡◌, List, Option, some, arith, ◌==◌, get_elem?, get_or, Bool-cases, Option-cases, inl, inr,
}
use dnrd.Query.Timeout.{query_timeout}
use dnrd.Cache.Expire.{Qsort, cache_expire}
use dnrd.Udp.{State, Received, CacheCall, udp_handle_reply}
use dnrd.Udp.Apart.{Kin-IsHeaded, if_both, udp_handle_reply-IsHeaded}
use dnrd.Relay.Upkeep.{deactivate_servers-IsHeaded, reactivate_servers-IsHeaded}
use dnrd.Udp.Headed.{udp_handle_request-IsHeaded}
use dnrd.Udp.Dummy.{Settings, DummyCall, reactivate_servers}
use dnrd.Udp.Request.{RequestCall, udp_handle_request}
use dnrd.Relay.Head.{IsHeaded}
use dnrd.Relay.Run.{
  World, Woken, Event, Options, query_stats, check_servers, after_sleep, handle_at, look_at,
  with_options, take_request, maintain, run,
}
use dnrd.Relay.Run.Keeps.{Any, always, run_keeps}

-- The head's `current` in a world.
abbrev InPlace : ℕ → World → Type 0
InPlace h w = IsHeaded h w.asking.state

check_servers-InPlace :
    (h : ℕ) (set : Settings) (now : ℕ) (calls : ℕ → DummyCall) (w : World)
    → InPlace h w
    → InPlace h (check_servers set now calls w)
unfolding check_servers
check_servers-InPlace h set now calls w k =
    let tried = reactivate_servers set set.reactivate_interval now w.last_try calls w.asking in
    let k' : IsHeaded h tried.0.state =
      reactivate_servers-IsHeaded set set.reactivate_interval now w.last_try h calls w.asking k in
    elim (Bool-cases (set.reactivate_interval == 0)) [
      | inl e ↦ rw (e, check_servers) k
      | inr e ↦ elim (Bool-cases (set.forward_timeout == 0)) [
        | inl f ↦ rw (e, f, check_servers) k'
        | inr f ↦
            rw (e, f, check_servers)
              (deactivate_servers-IsHeaded set.forward_timeout 1 now w.last_check h tried.0.state
                k')
      ]
    ]

after_sleep-InPlace :
    (h : ℕ) (woken : Woken) (w : World) → InPlace h w → InPlace h (after_sleep woken w)
unfolding after_sleep
after_sleep-InPlace h Woken.idle w k = k
after_sleep-InPlace h (Woken.readable fdread isock_set) w k = k
after_sleep-InPlace h (Woken.interrupted signals out paths) w k = k
after_sleep-InPlace h Woken.failed w k = k

look_at-InPlace :
    (h k i : ℕ) (call : CacheCall) (got : Received) (w : World)
    → InPlace h w
    → InPlace h (look_at k i call got w)
unfolding look_at handle_at
look_at-InPlace h k i call got w kept =
    let s = w.asking.state in
    elim (Option-cases (get_elem? s.queries.qlist k)) [
      | inl e ↦ rw (e, handle_at) kept
      | inr (q, e) ↦
          rw (e, handle_at)
            (if_both (IsHeaded h) (w.fdread (get_or (s.queries.cell q).sock_arr i 0))
              (udp_handle_reply s q call got) s (udp_handle_reply-IsHeaded h s q call got kept)
              kept)
    ]

take_request-InPlace :
    (h : ℕ) (call : RequestCall) (got : Option (List ℕ)) (from : ℕ) (w w' : World)
    → InPlace h w
    → take_request call got from w ≡ some w'
    → InPlace h w'
unfolding take_request
take_request-InPlace h call got from w w' k e = elim (Bool-cases w.isock_set) [
  | inr o ↦
      let same : w.asking.state ≡ w'.asking.state = ground (arith, rw (o, take_request) at e) in
      rw (← same) k
  | inl o ↦
      let handled = udp_handle_request-IsHeaded h call w.asking.state got from k in
      elim (Option-cases (udp_handle_request call w.asking.state got from)) [
        | inl f ↦ absurd (ground (arith, rw (o, f, take_request) at e))
        | inr ((s, q), f) ↦
            let same : s ≡ w'.asking.state = ground (arith, rw (o, f, take_request) at e) in
            rw (← same) (rw f at handled)
      ]
]

maintain-InPlace :
    (h : ℕ) (opts : Options) (qsort : Qsort) (now : ℕ) (w w' : World)
    → InPlace h w
    → maintain opts qsort now w ≡ some w'
    → InPlace h w'
unfolding maintain query_stats
maintain-InPlace h opts qsort now w w' k e =
    let s = w.asking.state in
    elim (Option-cases (query_timeout s.queries now)) [
      | inl f ↦ absurd (ground (arith, rw (f, maintain) at e))
      | inr (queries, f) ↦
          let s' : State = record s { queries = queries; cache = cache_expire qsort s.cache now } in
          let s'' = (query_stats opts.stats_interval opts.stats_reset now w.last_stats s').0 in
          let same : s'' ≡ w'.asking.state = ground (arith, rw (f, maintain) at e) in
          let kin : (s''.inf_list ≡ s.inf_list)
              × (s''.head_current ≡ s.head_current)
              × (s''.srv ≡ s.srv) =
            ground arith in
          rw (← same) (Kin-IsHeaded h s s'' kin k)
    ]

-- Over every sequence of events, the loop of the program leaves the `current` of the list's head as
-- it is, where there is an interface and that node is no server: it stays no server's, and nothing is sent to it.
pub run-IsHeaded :
    (h : ℕ) (opts : Options) (l : List Event) (w w' : World)
    → IsHeaded h w.asking.state
    → run opts l w ≡ some w'
    → IsHeaded h w'.asking.state
run-IsHeaded h opts l w w' k e =
    run_keeps opts Any (InPlace h)
      (record {
        moves = λ p w k. k;
        sleeps = λ woken now calls w k _.
            after_sleep-InPlace h woken (check_servers opts.settings now calls w)
              (check_servers-InPlace h opts.settings now calls w k);
        looks = look_at-InPlace h;
        takes = λ call got from w w' k _ e.
            take_request-InPlace h (with_options opts.settings w.master call) got from w w' k e;
        tidies = maintain-InPlace h opts;
      })
      l w w' k (always opts l w) e
