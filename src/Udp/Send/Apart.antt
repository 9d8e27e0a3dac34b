-- ===== src/Udp/Send/Apart.antt =====
-- dnrd-2.20.3/src/udp.c: the sends leave a node alone that is no server of the interfaces.
use dnrd.Prelude.{
  ℕ, ◌+◌, Bool, true, ◌≡◌, ◌≢◌, refl, ◌∙◌, List, [], ◌∷◌, Option, none, some, arith, ltb, length,
  Bool-cases, Option-cases, inl, inr,
}
use dnrd.Server.{Srv, Inf, deactivate_current}
use dnrd.Server.Apart.{Apart, Untouched, Untouched-same, deactivate_current-Apart}
use dnrd.Query.{Query}
use dnrd.Udp.Send.{
  udp_send, try_send, Tried, note_server, Walked, with_inf, walk, is_used, send2current,
}

pub udp_send-unsent :
    (h a now : ℕ) (srv : ℕ → Srv) (sent : Bool)
    → a ≢ h
    → (udp_send srv a sent now h).send_time ≡ (srv h).send_time
unfolding udp_send
udp_send-unsent h a now srv sent apart = ground (arith, apart)

-- What a loop of sends leaves for the node.
abbrev pub Alone : ℕ → (ℕ → Srv) → (ℕ → Srv) → Inf → Type 0
Alone h srv srv' i = Apart h i × ((srv' h).send_time ≡ (srv h).send_time)

try_send-Alone :
    (h now : ℕ) (reactivate : Bool) (results : List Bool) (srv : ℕ → Srv) (i : Inf) (t : Tried)
    → Apart h i
    → try_send reactivate now results srv i ≡ some t
    → Alone h srv t.srv t.inf
unfolding try_send
try_send-Alone h now re [] srv i t k e = elim (Option-cases i.current) [
  | inl o ↦
      let same : record { srv = srv; inf = i; results = [] } ≡ t =
        ground (arith, rw (o, try_send) at e) in
      rw (← same) (k, refl)
  | inr (a, o) ↦ absurd (ground (arith, rw (o, try_send) at e))
]
try_send-Alone h now re (sent ∷ l) srv i t k e = elim (Option-cases i.current) [
  | inl o ↦
      let same : record { srv = srv; inf = i; results = sent ∷ l } ≡ t =
        ground (arith, rw (o, try_send) at e) in
      rw (← same) (k, refl)
  | inr (a, o) ↦ elim (Bool-cases sent) [
    | inl s ↦
        let apart : a ≢ h = λ f. k.0 (rw (← f) o) in
        let same : record { srv = udp_send srv a true now; inf = i; results = l } ≡ t =
          ground (arith, rw (o, try_send, s) at e) in
        rw (← same) (k, udp_send-unsent h a now srv true apart)
    | inr s ↦ elim (Bool-cases re) [
      | inl r ↦
          let (srv', i') = deactivate_current srv i now in
          let (apart, same) = deactivate_current-Apart h srv i now k in
          let (apart', same') =
            try_send-Alone h now re l srv' i' t apart (rw (o, try_send, s, r) at e) in
          (apart', same' ∙ same)
      | inr r ↦ try_send-Alone h now re l srv i t k (rw (o, try_send, s, r) at e)
    ]
  ]
]

with_inf-some :
    (i : Inf) (o : Option Walked) (w : Walked)
    → with_inf i o ≡ some w
    → (v : Walked) × (o ≡ some v) × (w.infs ≡ i ∷ v.infs) × (w.srv ≡ v.srv)
with_inf-some i none w e = absurd (cc)
with_inf-some i (some v) w e = (v, refl, ground (arith, e), ground (arith, e))

walk-Untouched :
    (used : List ℕ → Bool) (head : Option ℕ) (reactivate : Bool) (now c h n : ℕ)
    (results : List Bool) (l : List Inf) (srv : ℕ → Srv) (q : Query) (w : Walked)
    → Untouched h n srv l
    → walk used head reactivate now c results l srv q ≡ some w
    → Untouched h n w.srv w.infs
unfolding walk
walk-Untouched used head re now c h n results [] srv q w k e = ground (arith, e, k)
walk-Untouched used head re now c h n results (i ∷ l) srv q w (t, k, long) e =
    elim (Bool-cases (ltb c 3)) [
      | inr o ↦
          let (infs, same) : (w.infs ≡ i ∷ l) × (w.srv ≡ srv) = ground (arith, rw (o, walk) at e) in
          Untouched-same h n srv w.srv (i ∷ l) w.infs infs same (t, k, long)
      | inl o ↦ elim (Bool-cases (used i.inf)) [
        | inr u ↦
            let (v, f, infs, same) = with_inf-some i _ w (rw (o, walk, u) at e) in
            let (t', k', long') =
              walk-Untouched used head re now c h (length l) results l srv q v (t, k.1, refl) f in
            Untouched-same h n v.srv w.srv (i ∷ v.infs) w.infs infs same
              (t', (k.0, k'), omega (arith, long', long))
        | inl u ↦ elim (Option-cases (try_send re now results srv i)) [
          | inl m ↦ absurd (ground (arith, rw (o, walk, u, m) at e))
          | inr (tried, m) ↦
              let (apart, alone) = try_send-Alone h now re results srv i tried k.0 m in
              let q' : Query = note_server q c tried.inf.current in
              elim (Bool-cases q.is_dummy) [
                | inl d ↦
                    let (infs, same) : (w.infs ≡ tried.inf ∷ l) × (w.srv ≡ tried.srv) =
                      ground (arith, rw (o, walk, u, m, d) at e) in
                    Untouched-same h n tried.srv w.srv (tried.inf ∷ l) w.infs infs same
                      (alone ∙ t, (apart, k.1), long)
                | inr d ↦
                    let (v, f, infs, same) =
                      with_inf-some tried.inf _ w (rw (o, walk, u, m, d) at e) in
                    let (t', k', long') =
                      walk-Untouched used head re now (c + 1) h (length l) tried.results l tried.srv
                        q' v (alone ∙ t, k.1, refl) f in
                    Untouched-same h n v.srv w.srv (tried.inf ∷ v.infs) w.infs infs same
                      (t', (apart, k'), omega (arith, long', long))
              ]
        ]
      ]
    ]

-- The sends of a query leave the interfaces untouched.
pub send2current-Untouched :
    (matched defaults : List (List ℕ)) (head : Option ℕ) (reactivate : Bool) (now len r h n : ℕ)
    (results : List Bool) (infs : List Inf) (srv : ℕ → Srv) (q : Query) (w : Walked)
    → Untouched h n srv infs
    → send2current matched defaults head reactivate now results infs srv q len ≡ some (w, r)
    → Untouched h n w.srv w.infs
unfolding send2current
send2current-Untouched matched defaults head re now len r h n results infs srv q w k e =
    elim (Option-cases (walk (is_used matched defaults) head re now 0 results infs srv q)) [
      | inl m ↦ absurd (ground (arith, rw (m, send2current) at e))
      | inr (v, m) ↦
          let same : v ≡ w = ground (arith, rw (m, send2current) at e) in
          rw (← same)
            (walk-Untouched (is_used matched defaults) head re now 0 h n results infs srv q v k m)
    ]
