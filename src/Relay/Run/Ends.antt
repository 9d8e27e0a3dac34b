-- ===== src/Relay/Run/Ends.antt =====
-- dnrd-2.20.3/src/relay.c: the loop of run over the queries and their sockets ends, although it
-- starts again at the head where the last query was removed.
mod Steps
use mathlib.Core.Bool.{false≢true}
use dnrd.Prelude.{
  ℕ, zero, suc, ◌+◌, ◌*◌, ◌<◌, true, false, ◌≡◌, ◌⊎◌, refl, List, [], ◌∷◌, sym, ◌∙◌, none, some,
  arith, get_elem?, Bool-cases, Option-cases, inl, inr,
}
use dnrd.Udp.{Received, CacheCall}
use dnrd.Relay.Run.{World, Event, Options, Phase, is_head_read, look_at, try_look, step, run}
use dnrd.Relay.Run.Ends.Steps.{
  InLoop, steps_left, steps_left_le, Nearer, waits, get_elem?-some_lt, look_at-Nearer,
}

-- The events of the loop, from the one with a number on.
unfoldable pub looks : (ℕ → CacheCall × Received) → ℕ → ℕ → List Event
looks f i zero = []
looks f i (suc j) = Event.looked (f i).0 (f i).1 ∷ looks f (i + 1) j

-- A run over such events that comes to the requests.
abbrev pub ComesToRequests : Options → (ℕ → CacheCall × Received) → ℕ → World → Type 0
ComesToRequests opts f i w =
    (j : ℕ) × (w' : World) × (run opts (looks f i j) w ≡ some w') × (w'.phase ≡ Phase.requests)

-- A run over such events that comes to a socket of the head, which is taken for a query: the program
-- fails. This is where the descriptor 0 can be read.
abbrev pub TakesHead : Options → (ℕ → CacheCall × Received) → ℕ → World → Type 0
TakesHead opts f i w =
    (w.fdread 0 ≡ true)
    × ((j : ℕ) × (w' : World) × (k : ℕ) × (n : ℕ) × (run opts (looks f i j) w ≡ some w')
        × (w'.phase ≡ Phase.socket_at k n)
        × (is_head_read k w' ≡ true))

abbrev Arrives : Options → (ℕ → CacheCall × Received) → ℕ → World → Type 0
Arrives opts f i w = ComesToRequests opts f i w ⊎ TakesHead opts f i w

comes_later :
    (opts : Options) (f : ℕ → CacheCall × Received) (i : ℕ) (w v : World)
    → step opts (Event.looked (f i).0 (f i).1) w ≡ some v
    → v.fdread 0 ≡ w.fdread 0
    → Arrives opts f (i + 1) v
    → Arrives opts f i w
unfolding run looks
comes_later opts f i w v e same (inl (j, w', o, p)) = inl (suc j, w', rw (e, run) o, p)
comes_later opts f i w v e same (inr (r, (j, w', k, n, o, p, h))) =
    inr (sym same ∙ r, (suc j, w', k, n, rw (e, run) o, p, h))

is_head_read_lem : (k : ℕ) (w : World) → is_head_read k w ≡ true → w.fdread 0 ≡ true
unfolding is_head_read
is_head_read_lem k w h = elim (Option-cases (get_elem? w.asking.state.queries.qlist k)) [
  | inl e ↦ rw (e, is_head_read) at h
  | inr (q, e) ↦ absurd (false≢true (rw (e, is_head_read) at h))
]

-- A step comes to the requests, or goes on nearer to them, or meets the head.
step_ends :
    (opts : Options) (f : ℕ → CacheCall × Received) (i : ℕ) (w : World)
    → InLoop (waits w) w.phase
    → TakesHead opts f i w
      ⊎ ((v : World) × (step opts (Event.looked (f i).0 (f i).1) w ≡ some v)
          × (v.fdread 0 ≡ w.fdread 0)
          × ((v.phase ≡ Phase.requests) ⊎ Nearer (waits w) w.phase (waits v) v.phase))
unfolding step try_look looks run
step_ends opts f i w inside = go w.phase refl inside
  where
    go :
        (p : Phase)
        → w.phase ≡ p
        → InLoop (waits w) p
        → TakesHead opts f i w
          ⊎ ((v : World) × (step opts (Event.looked (f i).0 (f i).1) w ≡ some v)
              × (v.fdread 0 ≡ w.fdread 0)
              × ((v.phase ≡ Phase.requests) ⊎ Nearer (waits w) p (waits v) v.phase))
    go Phase.waiting e h = absurd (false≢true h)
    go (Phase.query_at k) e h = elim (Option-cases (get_elem? w.asking.state.queries.qlist k)) [
      | inl o ↦ inr (record w { phase = Phase.requests }, rw (e, step, o) refl, refl, inl refl)
      | inr (q, o) ↦
          let under = get_elem?-some_lt w.asking.state.queries.qlist k q o in
          inr (
            record w { phase = Phase.socket_at k 0 },
            rw (e, step, o) refl,
            refl,
            inr (ground arith),
          )
    ]
    go (Phase.socket_at k j) e h = elim (Bool-cases (is_head_read k w)) [
      | inl r ↦ inl (is_head_read_lem k w r, (0, w, k, j, refl, e, r))
      | inr r ↦ inr (
        look_at k j (f i).0 (f i).1 w,
        rw (e, step, r, try_look) refl,
        unfold look_at in refl,
        inr (look_at-Nearer k j (f i).0 (f i).1 w h.0 h.1),
      )
    ]
    go Phase.requests e h = absurd (false≢true h)
    go Phase.upkeep e h = absurd (false≢true h)

-- With so many steps the loop comes to its end.
loop_ends :
    (m c : ℕ) (opts : Options) (f : ℕ → CacheCall × Received) (i : ℕ) (w : World)
    → InLoop (waits w) w.phase
    → 4 * waits w + 6 < c
    → waits w * c + steps_left (waits w) w.phase < m
    → Arrives opts f i w
unfolding looks run
loop_ends zero c opts f i w inside big h = absurd (omega arith)
loop_ends (suc m) c opts f i w inside big h = elim (step_ends opts f i w inside) [
  | inl taken ↦ inr taken
  | inr (v, e, same, next) ↦ comes_later opts f i w v e same (elim next [
    | inl p ↦ inl (0, v, refl, p)
    | inr (inside', nearer) ↦ elim nearer [
      | inl fewer ↦
          let le = steps_left_le (waits v) v.phase in
          let removed : waits w * c ≡ waits v * c + c = rw (← fewer) (omega arith) in
          loop_ends m c opts f (i + 1) v inside' (omega arith) (omega arith)
      | inr (same_wait, less) ↦
          let kept : waits w * c ≡ waits v * c = rw same_wait refl in
          loop_ends m c opts f (i + 1) v inside' (omega arith) (omega arith)
    ]
  ])
]

-- From the head of the list, whatever can be read and whatever is received, the loop over the queries
-- and their sockets ends: the request at `isock` is next, or, where the descriptor 0 can be read, the
-- head of the list is taken for a query.
pub replies_end :
    (opts : Options) (f : ℕ → CacheCall × Received) (w : World)
    → w.phase ≡ Phase.query_at 0
    → ComesToRequests opts f 0 w ⊎ TakesHead opts f 0 w
replies_end opts f w e =
    let c = 4 * waits w + 7 in
    loop_ends (waits w * c + steps_left (waits w) w.phase + 1) c opts f 0 w (rw e (omega arith))
      (omega arith) (omega arith)

-- Where the head is taken for a query, the program fails.
pub head_read_fails :
    (opts : Options) (call : CacheCall) (got : Received) (k i : ℕ) (w : World)
    → w.phase ≡ Phase.socket_at k i
    → is_head_read k w ≡ true
    → step opts (Event.looked call got) w ≡ none
unfolding step try_look
head_read_fails opts call got k i w at taken = rw (at, step, taken, try_look) refl
