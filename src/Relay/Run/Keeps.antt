-- ===== src/Relay/Run/Keeps.antt =====
-- dnrd-2.20.3/src/relay.c: what each piece of the loop of the program keeps, the loop keeps.
use dnrd.Prelude.{
  ℕ, ◌≡◌, refl, List, [], ◌∷◌, Option, none, some, arith, get_elem?, Bool-cases, Option-cases, inl,
  inr,
}
use dnrd.Cache.Expire.{Qsort}
use dnrd.Udp.{Received, CacheCall}
use dnrd.Udp.Dummy.{DummyCall}
use dnrd.Udp.Request.{RequestCall}
use dnrd.Relay.Run.{
  World, Woken, Event, Options, Phase, check_servers, after_sleep, is_head_read, look_at, try_look,
  with_options, take_request, maintain, step, run,
}

-- A property of the world that each piece of the loop keeps, where `Can` holds of the event.
pub record Keeps (opts : Options) (Can : Event → World → Type 0) (P : World → Type 0) : Type 0 where
  pub moves : (p : Phase) (w : World) → P w → P (record w { phase = p })
  pub sleeps :
      (woken : Woken) (now : ℕ) (calls : ℕ → DummyCall) (w : World)
      → P w
      → Can (Event.slept woken now calls) w
      → P (after_sleep woken (check_servers opts.settings now calls w))
  pub looks :
      (k i : ℕ) (call : CacheCall) (got : Received) (w : World) → P w → P (look_at k i call got w)
  pub takes :
      (call : RequestCall) (got : Option (List ℕ)) (from : ℕ) (w w' : World)
      → P w
      → Can (Event.asked call got from) w
      → take_request (with_options opts.settings w.master call) got from w ≡ some w'
      → P w'
  pub tidies :
      (qsort : Qsort) (now : ℕ) (w w' : World) → P w → maintain opts qsort now w ≡ some w' → P w'

-- What the events bring over a run.
unfoldable pub Always : (Event → World → Type 0) → Options → List Event → World → Type 0
Always Can opts [] w = Unit
Always Can opts (e ∷ l) w =
    Can e w × elim (step opts e w) as (λ o. Type 0) [ none ↦ Unit | some w' ↦ Always Can opts l w' ]

module _ (opts : Options) (Can : Event → World → Type 0) (P : World → Type 0)
    (keeps : Keeps opts Can P) where
  -- The worlds of equal results.
  worlds : {x y : World} → ◌≡◌ {A = Option World} (some x) (some y) → P x → P y
  worlds {x} {y} e k = let same : x ≡ y = ground (arith, e) in rw (← same) k

  step-P : (e : Event) (w w' : World) → P w → Can e w → step opts e w ≡ some w' → P w'
  unfolding step try_look
  step-P (Event.slept woken now calls) w w' k can o = go w.phase refl
    where
      go : (p : Phase) → w.phase ≡ p → P w'
      go Phase.waiting e = worlds (rw (e, step) at o) (keeps.sleeps woken now calls w k can)
      go (Phase.query_at i) e = absurd (ground (arith, rw (e, step) at o))
      go (Phase.socket_at i j) e = absurd (ground (arith, rw (e, step) at o))
      go Phase.requests e = absurd (ground (arith, rw (e, step) at o))
      go Phase.upkeep e = absurd (ground (arith, rw (e, step) at o))
  step-P (Event.looked call got) w w' k can o = go w.phase refl
    where
      go : (p : Phase) → w.phase ≡ p → P w'
      go Phase.waiting e = absurd (ground (arith, rw (e, step) at o))
      go (Phase.query_at i) e = elim (Option-cases (get_elem? w.asking.state.queries.qlist i)) [
        | inl f ↦ worlds (rw (e, step, f) at o) (keeps.moves Phase.requests w k)
        | inr (q, f) ↦ worlds (rw (e, step, f) at o) (keeps.moves (Phase.socket_at i 0) w k)
      ]
      go (Phase.socket_at i j) e = elim (Bool-cases (is_head_read i w)) [
        | inl r ↦ absurd (ground (arith, rw (e, step, r, try_look) at o))
        | inr r ↦ worlds (rw (e, step, r, try_look) at o) (keeps.looks i j call got w k)
      ]
      go Phase.requests e = absurd (ground (arith, rw (e, step) at o))
      go Phase.upkeep e = absurd (ground (arith, rw (e, step) at o))
  step-P (Event.asked call got from) w w' k can o = go w.phase refl
    where
      go : (p : Phase) → w.phase ≡ p → P w'
      go Phase.waiting e = absurd (ground (arith, rw (e, step) at o))
      go (Phase.query_at i) e = absurd (ground (arith, rw (e, step) at o))
      go (Phase.socket_at i j) e = absurd (ground (arith, rw (e, step) at o))
      go Phase.requests e = keeps.takes call got from w w' k can (rw (e, step) at o)
      go Phase.upkeep e = absurd (ground (arith, rw (e, step) at o))
  step-P (Event.kept_up qsort now) w w' k can o = go w.phase refl
    where
      go : (p : Phase) → w.phase ≡ p → P w'
      go Phase.waiting e = absurd (ground (arith, rw (e, step) at o))
      go (Phase.query_at i) e = absurd (ground (arith, rw (e, step) at o))
      go (Phase.socket_at i j) e = absurd (ground (arith, rw (e, step) at o))
      go Phase.requests e = absurd (ground (arith, rw (e, step) at o))
      go Phase.upkeep e = keeps.tidies qsort now w w' k (rw (e, step) at o)

  pub run_keeps :
      (l : List Event) (w w' : World) → P w → Always Can opts l w → run opts l w ≡ some w' → P w'
  unfolding run Always
  run_keeps [] w w' k can e = worlds e k
  run_keeps (ev ∷ l) w w' k can e = elim (Option-cases (step opts ev w)) [
    | inl f ↦ absurd (ground (arith, rw (f, run) at e))
    | inr (v, f) ↦
        run_keeps l v w' (step-P ev w v k can.0 f) (rw (f, Always) at can.1) (rw (f, run) at e)
  ]

-- Nothing is asked of the events.
abbrev pub Any : Event → World → Type 0
Any e w = Unit

pub always : (opts : Options) (l : List Event) (w : World) → Always Any opts l w
unfolding Always
always opts [] w = tt
always opts (e ∷ l) w = elim (Option-cases (step opts e w)) [
  | inl o ↦ rw (o, Always) (tt, tt)
  | inr (w', o) ↦ rw (o, Always) (tt, always opts l w')
]
