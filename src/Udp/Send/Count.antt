-- ===== src/Udp/Send/Count.antt =====
-- dnrd-2.20.3/src/udp.c: how many servers a query waits for after send2current, and what the
-- function returns.
use dnrd.Prelude.{
  ℕ, suc, ◌+◌, ◌-◌, ◌≤◌, Bool, false, ◌≡◌, refl, ◌∙◌, inl, inr, List, [], ◌∷◌, Option, none, some,
  arith, leb, ltb, if◌then◌else◌, length, Bool-cases, Option-cases,
}
use dnrd.Prelude.Int.{pos}
use dnrd.Server.{Srv, Inf}
use dnrd.Query.{Query}
use dnrd.Udp.Send.{is_used, try_send, note_server, Walked, with_inf, walk, send2current}

-- The interfaces that are used, out of a list.
unfoldable pub used_count : (List ℕ → Bool) → List Inf → ℕ
used_count used [] = 0
used_count used (i ∷ l) = (if used i.inf then 1 else 0) + used_count used l

abbrev pub min : ℕ → ℕ → ℕ
min a b = if leb a b then a else b

note_server-cnt :
    (q : Query) (c k : ℕ) (a : Option ℕ)
    → q.serv_sent_cnt ≡ pos k
    → ((note_server q c a).serv_sent_cnt ≡ pos (suc k))
      × ((note_server q c a).is_dummy ≡ q.is_dummy)
unfolding note_server
note_server-cnt q c k none e = ground arith
note_server-cnt q c k (some a) e = ground arith

note_server-my_qid : (q : Query) (c : ℕ) (a : Option ℕ) → (note_server q c a).my_qid ≡ q.my_qid
unfolding note_server
note_server-my_qid q c none = refl
note_server-my_qid q c (some a) = refl

with_inf-q :
    (i : Inf) (o : Option Walked) (w : Walked)
    → with_inf i o ≡ some w
    → (w' : Walked) × (o ≡ some w') × (w.q ≡ w'.q) × (w.at ≡ w'.at)
with_inf-q i none w e = absurd (cc)
with_inf-q i (some v) w e = (v, refl, ground (arith, e), ground (arith, e))

walk-cnt :
    (used : List ℕ → Bool) (head : Option ℕ) (reactivate : Bool) (now c k : ℕ) (results : List Bool)
    (l : List Inf) (srv : ℕ → Srv) (q : Query) (w : Walked)
    → q.is_dummy ≡ false
    → q.serv_sent_cnt ≡ pos k
    → walk used head reactivate now c results l srv q ≡ some w
    → (w.q.serv_sent_cnt ≡ pos (k + min (3 - c) (used_count used l)))
      × (length l + c ≤ 3 → w.at ≡ head)
unfolding walk used_count
walk-cnt used head reactivate now c k results [] srv q w d e h = ground (arith, h)
walk-cnt used head reactivate now c k results (i ∷ l) srv q w d e h = elim (Bool-cases (ltb c 3)) [
  | inr o ↦ ground (arith, rw (o, walk) at h)
  | inl o ↦ elim (Bool-cases (used i.inf)) [
    | inr u ↦
        let (v, f, g, m) = with_inf-q i _ w (rw (o, walk, u) at h) in
        let (x, y) = walk-cnt used head reactivate now c k results l srv q v d e f in
        ground (arith, x, y, g, m, u)
    | inl u ↦ elim (Option-cases (try_send reactivate now results srv i)) [
      | inl n ↦ absurd (ground (arith, rw (o, walk, u, n) at h))
      | inr (t, n) ↦
          let q' : Query = note_server q c t.inf.current in
          let (cnt, dummy) = note_server-cnt q c k t.inf.current e in
          let (v, f, g, m) = with_inf-q t.inf _ w (rw (o, walk, u, n, d) at h) in
          let (x, y) =
            walk-cnt used head reactivate now (c + 1) (suc k) t.results l t.srv q' v (dummy ∙ d) cnt
              f in
          ground (arith, x, y, g, m, u)
    ]
  ]
]

walk-my_qid :
    (used : List ℕ → Bool) (head : Option ℕ) (reactivate : Bool) (now c : ℕ) (results : List Bool)
    (l : List Inf) (srv : ℕ → Srv) (q : Query) (w : Walked)
    → walk used head reactivate now c results l srv q ≡ some w
    → w.q.my_qid ≡ q.my_qid
unfolding walk
walk-my_qid used head reactivate now c results [] srv q w h = ground (arith, h)
walk-my_qid used head reactivate now c results (i ∷ l) srv q w h = elim (Bool-cases (ltb c 3)) [
  | inr o ↦ ground (arith, rw (o, walk) at h)
  | inl o ↦ elim (Bool-cases (used i.inf)) [
    | inr u ↦
        let (v, f, g, _) = with_inf-q i _ w (rw (o, walk, u) at h) in
        ground (arith, g, walk-my_qid used head reactivate now c results l srv q v f)
    | inl u ↦ elim (Option-cases (try_send reactivate now results srv i)) [
      | inl n ↦ absurd (ground (arith, rw (o, walk, u, n) at h))
      | inr (t, n) ↦
          let q' : Query = note_server q c t.inf.current in
          let same : q'.my_qid ≡ q.my_qid = note_server-my_qid q c t.inf.current in
          elim (Bool-cases q.is_dummy) [
            | inl d ↦ ground (arith, same, rw (o, walk, u, n, d) at h)
            | inr d ↦
                let (v, f, g, _) = with_inf-q t.inf _ w (rw (o, walk, u, n, d) at h) in
                ground (
                  arith,
                  g,
                  same,
                  walk-my_qid used head reactivate now (c + 1) t.results l t.srv q' v f,
                )
          ]
    ]
  ]
]

-- The sends leave the id of the query.
pub send2current-my_qid :
    (matched defaults : List (List ℕ)) (head : Option ℕ) (reactivate : Bool) (now len r : ℕ)
    (results : List Bool) (infs : List Inf) (srv : ℕ → Srv) (q : Query) (w : Walked)
    → send2current matched defaults head reactivate now results infs srv q len ≡ some (w, r)
    → w.q.my_qid ≡ q.my_qid
unfolding send2current
send2current-my_qid matched defaults head reactivate now len r results infs srv q w h =
    elim (Option-cases (walk (is_used matched defaults) head reactivate now 0 results infs srv q)) [
      | inl n ↦ absurd (ground (arith, rw (n, send2current) at h))
      | inr (v, n) ↦ ground (
        arith,
        walk-my_qid (is_used matched defaults) head reactivate now 0 results infs srv q v n,
        rw (n, send2current) at h,
      )
    ]

-- Where the sends end, a new query that is no dummy waits for as many servers as there are interfaces used, at most
-- three; an interface without an active server counts too.
pub send2current-cnt :
    (matched defaults : List (List ℕ)) (head : Option ℕ) (reactivate : Bool) (now len r : ℕ)
    (results : List Bool) (infs : List Inf) (srv : ℕ → Srv) (q : Query) (w : Walked)
    → q.is_dummy ≡ false
    → q.serv_sent_cnt ≡ pos 0
    → send2current matched defaults head reactivate now results infs srv q len ≡ some (w, r)
    → w.q.serv_sent_cnt ≡ pos (min 3 (used_count (is_used matched defaults) infs))
unfolding send2current
send2current-cnt matched defaults head reactivate now len r results infs srv q w d e h =
    elim (Option-cases (walk (is_used matched defaults) head reactivate now 0 results infs srv q)) [
      | inl n ↦ absurd (ground (arith, rw (n, send2current) at h))
      | inr (v, n) ↦ ground (
        arith,
        walk-cnt (is_used matched defaults) head reactivate now 0 0 results infs srv q v d e n,
        rw (n, send2current) at h,
      )
    ]

-- Where the sends end, with at most three interfaces and for a query that is no dummy, the result
-- only depends on the head's `current`, whatever was sent: the loop ends at the head.
pub send2current-head :
    (matched defaults : List (List ℕ)) (head : Option ℕ) (reactivate : Bool) (now len r : ℕ)
    (results : List Bool) (infs : List Inf) (srv : ℕ → Srv) (q : Query) (w : Walked) (k : ℕ)
    → q.is_dummy ≡ false
    → q.serv_sent_cnt ≡ pos k
    → length infs ≤ 3
    → send2current matched defaults head reactivate now results infs srv q len ≡ some (w, r)
    → r ≡ elim head [ some a ↦ len | none ↦ 0 ]
unfolding send2current
send2current-head matched defaults head reactivate now len r results infs srv q w k d e n h =
    elim (Option-cases (walk (is_used matched defaults) head reactivate now 0 results infs srv q)) [
      | inl n' ↦ absurd (ground (arith, rw (n', send2current) at h))
      | inr (v, n') ↦ ground (
        arith,
        walk-cnt (is_used matched defaults) head reactivate now 0 k results infs srv q v d e n',
        rw (n', send2current) at h,
      )
    ]
