-- ===== src/Udp/Rounds.antt =====
-- dnrd-2.20.3/src/udp.c: all the replies to one query, in the order in which they come in.
use mathlib.Core.List.{erase}
use native.Mathlib.Decide.{ℕ_discrete}
use dnrd.Prelude.{
  ℕ, zero, suc, ◌≤◌, true, false, ◌≡◌, refl, sym, ap, ◌∙◌, List, [], ◌∷◌, ◌++◌, arith, length, All,
}
use mathlib.Core.Bool.{false≢true}
use dnrd.Prelude.Int.{pos}
use dnrd.Query.{Query, Datagram}
use dnrd.Udp.{State, Received, CacheCall, udp_handle_reply}
use dnrd.Udp.Answers.{Sent, IsReply, handle_reply_lem, handle_reply_answers}
use dnrd.Prelude.{inl}

-- The handler runs for each reply to the query `q`.
unfoldable pub handle_replies : State → ℕ → List (CacheCall × Received) → State
handle_replies s q [] = s
handle_replies s q ((call, got) ∷ l) = handle_replies (udp_handle_reply s q call got) q l

Sent-trans :
    (x x' x'' : Query) (l l' l'' : List Datagram)
    → x'.client ≡ x.client
    → Sent x l x' l'
    → Sent x' l' x'' l''
    → Sent x l x'' l''
Sent-trans x x' x'' l l' l'' c (Sent.quiet a b) (Sent.quiet e f) = Sent.quiet (e ∙ a) (f ∙ b)
Sent-trans x x' x'' l l' l'' c (Sent.quiet a b) (Sent.answered d e f g h) =
    Sent.answered d (rw a at e) (f ∙ c) (sym b ∙ g) h
Sent-trans x x' x'' l l' l'' c (Sent.answered d a b e f) (Sent.quiet g h) =
    Sent.answered d (g ∙ a) b e (h ∙ f)
Sent-trans x x' x'' l l' l'' c (Sent.answered d a b e f) (Sent.answered d' a' b' e' f') =
    absurd (false≢true (sym e' ∙ f))

-- While a query is answered by no more replies than it went to servers, of any kind, its client
-- gets at most one datagram, and only if it had none.
pub handle_replies_once :
    (s : State) (q n : ℕ) (l : List (CacheCall × Received))
    → (s.queries.cell q).serv_sent_cnt ≡ pos n
    → length l ≤ n
    → let s' = handle_replies s q l in
      Sent (s.queries.cell q) s.queries.sent (s'.queries.cell q) s'.queries.sent
unfolding handle_replies
handle_replies_once s q n [] e h = Sent.quiet refl refl
handle_replies_once s q zero ((call, got) ∷ l) e h = absurd (omega arith)
handle_replies_once s q (suc zero) ((call, got) ∷ []) e h = (handle_reply_lem s q 0 call got e).out
handle_replies_once s q (suc zero) ((call, got) ∷ b ∷ l) e h = absurd (omega arith)
handle_replies_once s q (suc (suc n)) ((call, got) ∷ l) e h =
    let k = handle_reply_lem s q (suc n) call got e in
    let s' = udp_handle_reply s q call got in
    Sent-trans _ _ _ _ _ _ k.client k.out
      (handle_replies_once s' q (suc n) l (k.more (omega arith)).1 (omega arith))

-- A query that went to n + 1 servers stays in the list for n replies, of any kind, and the next
-- one removes it.
pub handle_replies_removes :
    (s : State) (q n : ℕ) (l : List (CacheCall × Received))
    → (s.queries.cell q).serv_sent_cnt ≡ pos (suc n)
    → let s' = handle_replies s q l in
      (length l ≤ n → s'.queries.qlist ≡ s.queries.qlist)
      × (length l ≡ suc n → s'.queries.qlist ≡ erase ℕ_discrete s.queries.qlist q)
unfolding handle_replies
handle_replies_removes s q n [] e = (λ h. refl, λ h. absurd (omega arith))
handle_replies_removes s q zero ((call, got) ∷ []) e =
    (λ h. absurd (omega arith), λ h. (handle_reply_lem s q 0 call got e).last refl)
handle_replies_removes s q zero ((call, got) ∷ b ∷ l) e =
    (λ h. absurd (omega arith), λ h. absurd (omega arith))
handle_replies_removes s q (suc n) ((call, got) ∷ l) e =
    let k = handle_reply_lem s q (suc n) call got e in
    let (f, c) = k.more (omega arith) in
    let (a, b) = handle_replies_removes (udp_handle_reply s q call got) q n l c in
    (λ h. a (omega arith) ∙ f, λ h. b (omega arith) ∙ ap (λ (m : List ℕ). erase ℕ_discrete m q) f)

-- After an answer, no further reply is sent.
Sent-silent : (x x' : Query) (l l' : List Datagram) → Sent x l x' l' → x.resp_sent ≡ true → l' ≡ l
Sent-silent x x' l l' (Sent.quiet a b) r = a
Sent-silent x x' l l' (Sent.answered d a b e f) r = absurd (false≢true (sym e ∙ r))

-- One answer, whether the first reply was it or a later one.
Sent-join :
    (x x' : Query) (l l' l'' : List Datagram)
    → Sent x l x' l'
    → x.resp_sent ≡ false
    → x'.client ≡ x.client
    → (x'.resp_sent ≡ true → l'' ≡ l')
    → (x'.resp_sent ≡ false → (d : Datagram) × (l'' ≡ l' ++ (d ∷ [])) × (d.to ≡ x'.client))
    → (d : Datagram) × (l'' ≡ l ++ (d ∷ [])) × (d.to ≡ x.client)
Sent-join x x' l l' l'' (Sent.quiet a b) fresh c done wait =
    let (d, e, f) = wait (b ∙ fresh) in (d, rw (← a) e, f ∙ c)
Sent-join x x' l l' l'' (Sent.answered d a b e f) fresh c done wait = (d, done f ∙ a, b)

-- A query that went to n + 1 servers, all of which reply, gets exactly one answer to its client,
-- whatever the codes of the replies are.
pub handle_replies_answers :
    (s : State) (q n : ℕ) (l : List (CacheCall × Received))
    → (s.queries.cell q).serv_sent_cnt ≡ pos (suc n)
    → (s.queries.cell q).is_dummy ≡ false
    → (s.queries.cell q).resp_sent ≡ false
    → length l ≡ suc n
    → All (λ c. (msg : List ℕ) × IsReply c.1 msg) l
    → (d : Datagram) × ((handle_replies s q l).queries.sent ≡ s.queries.sent ++ (d ∷ []))
      × (d.to ≡ (s.queries.cell q).client)
unfolding handle_replies
handle_replies_answers s q n [] e dummy fresh h ok = absurd (omega arith)
handle_replies_answers s q zero ((call, got) ∷ []) e dummy fresh h ok =
    let (msg, r) = ok.0 in
    (_, handle_reply_answers s q 0 call got msg e r dummy fresh (inl refl), refl)
handle_replies_answers s q zero ((call, got) ∷ b ∷ l) e dummy fresh h ok = absurd (omega arith)
handle_replies_answers s q (suc n) ((call, got) ∷ l) e dummy fresh h ok =
    let k = handle_reply_lem s q (suc n) call got e in
    let s' = udp_handle_reply s q call got in
    let c = (k.more (omega arith)).1 in
    Sent-join _ _ _ _ _ k.out fresh k.client
      (λ r. Sent-silent _ _ _ _ (handle_replies_once s' q (suc n) l c (omega arith)) r)
      (λ r. handle_replies_answers s' q n l c (k.dummy ∙ dummy) r (omega arith) ok.1)
