-- ===== src/Cache/Lookup.antt =====
-- What cache_lookup finds, and that it finds what cache_dnspacket stored.
use mathlib.Core.Path.{fun_ext}
use dnrd.Prelude.{
  ℕ, ◌+◌, ◌≤◌, take, drop, Bool, true, false, ◌&&◌, ◌≡◌, ◌≢◌, refl, ap, inl, inr, List, [], ◌∷◌,
  ◌++◌, Option, none, some, arith, ◌==◌, if◌then◌else◌, length, not, All, All-append, Bool-cases,
  Option-cases,
}
use dnrd.Text.{get_stringcode, strcaseeq, get_stringcode-strcaseeq}
use dnrd.Dns.Packet.{DnsHeader, Rr, parse_packet}
use dnrd.Cache.{
  Entry, Cache, update, is_positive, create_cx, cacheable, cache_dnspacket, is_hit, find_cx,
  lookable, touch_cx, copy_answer, cache_lookup,
}

-- Every entry carries the code of its name.
abbrev pub HasCodes : Cache → Type 0
HasCodes c = All (λ a. (c.cell a).code ≡ get_stringcode (c.cell a).name) c.cachelist

-- The question of an entry: the same type and class, and the same name but for case.
abbrev pub asks : Rr → Entry → Bool
asks query cx = cx.type == query.type && (cx.class == query.class && strcaseeq cx.name query.name)

-- The first entry that answers the question, with no look at the codes.
unfoldable pub find_answer : Rr → (ℕ → Entry) → List ℕ → Option ℕ
find_answer query cell [] = none
find_answer query cell (a ∷ l) = if asks query (cell a) then some a else find_answer query cell l

-- On entries that carry the codes of their names, the search that compares codes first finds the
-- same entry as the search by type, class and name alone.
pub find_cx-find_answer :
    (query : Rr) (cell : ℕ → Entry) (l : List ℕ)
    → All (λ a. (cell a).code ≡ get_stringcode (cell a).name) l
    → find_cx (get_stringcode query.name) query cell l ≡ find_answer query cell l
unfolding find_cx find_answer
find_cx-find_answer query cell [] h = refl
find_cx-find_answer query cell (a ∷ l) h = ground (
  arith,
  h.0,
  get_stringcode-strcaseeq (cell a).name query.name,
  find_cx-find_answer query cell l h.1,
)

find_cx_fresh :
    (code : ℕ) (query : Rr) (cell : ℕ → Entry) (a : ℕ) (e : Entry) (l : List ℕ)
    → All (λ b. b ≢ a) l
    → find_cx code query cell l ≡ none
    → is_hit code query e ≡ true
    → find_cx code query (update cell a e) (l ++ (a ∷ [])) ≡ some a
unfolding find_cx
find_cx_fresh code query cell a e [] fresh miss hit = ground arith
find_cx_fresh code query cell a e (b ∷ l) fresh miss hit =
    ground (arith, fresh.0, find_cx_fresh code query cell a e l fresh.1)

-- The entry that `cache_dnspacket` leaves at its address.
stored : DnsHeader → Rr → ℕ → ℕ → Entry
unfolding create_cx
stored x query server now = record (create_cx x query server now) {
  created = now;
  expires = now + (if is_positive x.ancount then 3600 else 300);
}

hit-stored :
    (x : DnsHeader) (asked query : Rr) (server now : ℕ)
    → query.type ≡ asked.type
    → query.class ≡ asked.class
    → strcaseeq query.name asked.name ≡ true
    → is_hit (get_stringcode asked.name) asked (stored x query server now) ≡ true
unfolding stored is_hit
hit-stored x asked query server now t k n =
    ground (arith, get_stringcode-strcaseeq query.name asked.name n)

cache_dnspacket-stored :
    (valid : ℕ → Bool) (stack query : Rr) (c : Cache) (reply : List ℕ) (server a now : ℕ)
    → cacheable valid stack c reply ≡ some query
    → cache_dnspacket valid stack c reply server a now ≡ record c {
      cachelist = c.cachelist ++ (a ∷ []);
      cell = update c.cell a (stored (parse_packet reply) query server now);
    }
unfolding cache_dnspacket stored
cache_dnspacket-stored valid stack query c reply server a now e =
    rw (e, cache_dnspacket)
      (ap (λ (f : ℕ → Entry). record c { cachelist = c.cachelist ++ (a ∷ []); cell = f })
        (fun_ext λ b. ground arith))

take-length_append : (xs ys : List ℕ) → take (length xs) (xs ++ ys) ≡ xs
take-length_append [] ys = refl
take-length_append (x ∷ xs) ys = ap (◌∷◌ x) (take-length_append xs ys)

-- The answer that is copied has the query's two bytes of the id in place of its own.
take-copy_answer :
    (packet answer : List ℕ)
    → 2 ≤ length packet
    → 2 ≤ length answer
    → take (length answer) (copy_answer packet answer) ≡ take 2 packet ++ drop 2 answer
unfolding copy_answer
take-copy_answer [] answer h k = absurd (omega arith)
take-copy_answer (x ∷ []) answer h k = absurd (omega arith)
take-copy_answer (x ∷ y ∷ packet) [] h k = absurd (omega arith)
take-copy_answer (x ∷ y ∷ packet) (u ∷ []) h k = absurd (omega arith)
take-copy_answer (x ∷ y ∷ packet) (u ∷ v ∷ answer) h k =
    ap (λ (t : List ℕ). x ∷ y ∷ t) (take-length_append answer (drop (length answer) packet))

-- A reply that was cached answers the next query for its name (in any case), type and class, if
-- no older entry does and its server is not held back: what is returned is the query's id, with the
-- reply behind its first two bytes.
pub cache_lookup-cache_dnspacket :
    (valid : ℕ → Bool) (stack stack' query asked : Rr) (ignore : Bool) (inactive : ℕ → ℕ)
    (c : Cache) (reply packet : List ℕ) (server a now later : ℕ)
    → cacheable valid stack c reply ≡ some query
    → lookable valid stack' c packet ≡ some asked
    → query.type ≡ asked.type
    → query.class ≡ asked.class
    → strcaseeq query.name asked.name ≡ true
    → All (λ b. b ≢ a) c.cachelist
    → find_cx (get_stringcode asked.name) asked c.cell c.cachelist ≡ none
    → (ignore && not (inactive server == 0)) ≡ false
    → 2 ≤ length packet
    → 2 ≤ length reply
    → let r =
        cache_lookup valid stack' ignore inactive
          (cache_dnspacket valid stack c reply server a now)
          packet
          later in
      (take r.len r.packet ≡ take 2 packet ++ drop 2 reply) × (r.len ≡ length reply)
unfolding cache_lookup lookable stored parse_packet
cache_lookup-cache_dnspacket valid stack stack' query asked ignore inactive c reply packet server a
      now later stores looks t k n fresh miss live some_packet some_reply =
    ground (
      arith,
      take-copy_answer packet reply some_packet some_reply,
      cache_dnspacket-stored valid stack query c reply server a now stores,
      hit-stored (parse_packet reply) asked query server now t k n,
      find_cx_fresh (get_stringcode asked.name) asked c.cell a
          (stored (parse_packet reply) query server now) c.cachelist fresh miss,
    )

-- With `ignore_inactive_cache_hits` set, a hit on the answer of an inactive server returns 0, with the
-- answer in the buffer.
pub cache_lookup_held :
    (valid : ℕ → Bool) (stack asked : Rr) (inactive : ℕ → ℕ) (c : Cache) (packet : List ℕ)
    (a now : ℕ)
    → HasCodes c
    → lookable valid stack c packet ≡ some asked
    → find_answer asked c.cell c.cachelist ≡ some a
    → inactive (c.cell a).server ≢ 0
    → let r = cache_lookup valid stack true inactive c packet now in
      (r.len ≡ 0) × (r.packet ≡ copy_answer packet (c.cell a).p.packet)
unfolding cache_lookup
cache_lookup_held valid stack asked inactive c packet a now codes looks found down =
    ground (arith, find_cx-find_answer asked c.cell c.cachelist codes)

-- A question that no entry answers is counted as a miss, and changes nothing else.
pub cache_lookup_miss :
    (valid : ℕ → Bool) (stack asked : Rr) (ignore : Bool) (inactive : ℕ → ℕ) (c : Cache)
    (packet : List ℕ) (now : ℕ)
    → HasCodes c
    → lookable valid stack c packet ≡ some asked
    → find_answer asked c.cell c.cachelist ≡ none
    → cache_lookup valid stack ignore inactive c packet now
      ≡ record { cache = record c { misses = c.misses + 1 }; packet = packet; len = 0 }
unfolding cache_lookup
cache_lookup_miss valid stack asked ignore inactive c packet now codes looks miss =
    ground (arith, find_cx-find_answer asked c.cell c.cachelist codes)

codes_append :
    (cell : ℕ → Entry) (a : ℕ) (e : Entry) (l : List ℕ)
    → e.code ≡ get_stringcode e.name
    → All (λ b. (cell b).code ≡ get_stringcode (cell b).name) l
    → All (λ b. (update cell a e b).code ≡ get_stringcode (update cell a e b).name) l
codes_append cell a e [] he h = tt
codes_append cell a e (b ∷ l) he h = (ground (arith, h.0), codes_append cell a e l he h.1)

-- Both handlers keep the codes right.
pub cache_dnspacket-HasCodes :
    (valid : ℕ → Bool) (stack : Rr) (c : Cache) (packet : List ℕ) (server a now : ℕ)
    → HasCodes c
    → HasCodes (cache_dnspacket valid stack c packet server a now)
cache_dnspacket-HasCodes valid stack c packet server a now h =
    elim (Option-cases (cacheable valid stack c packet)) [
      | inl e ↦ unfold cache_dnspacket in rw (e, cache_dnspacket) h
      | inr (query, e) ↦
          let f : ℕ → Entry = update c.cell a (stored (parse_packet packet) query server now) in
          rw (cache_dnspacket-stored valid stack query c packet server a now e) (
            unfold stored in
            All-append (λ b. (f b).code ≡ get_stringcode (f b).name) c.cachelist (a ∷ [])
              (codes_append c.cell a (stored (parse_packet packet) query server now) c.cachelist
                refl h)
              (ground arith, tt))
    ]

codes_update :
    (cell : ℕ → Entry) (a : ℕ) (e : Entry) (l : List ℕ)
    → e.code ≡ (cell a).code
    → e.name ≡ (cell a).name
    → All (λ b. (cell b).code ≡ get_stringcode (cell b).name) l
    → All (λ b. (update cell a e b).code ≡ get_stringcode (update cell a e b).name) l
codes_update cell a e [] hc hn h = tt
codes_update cell a e (b ∷ l) hc hn h = (ground (arith, h.0), codes_update cell a e l hc hn h.1)

touch_cx-HasCodes : (c : Cache) (a now : ℕ) → HasCodes c → HasCodes (touch_cx c a now)
unfolding touch_cx
touch_cx-HasCodes c a now h = elim (Bool-cases (is_positive (c.cell a).positive)) [
  | inl e ↦ rw (e, touch_cx) (codes_update c.cell a _ c.cachelist refl refl h)
  | inr e ↦ rw (e, touch_cx) h
]

-- `cache_lookup` keeps the codes of the entries' names.
pub cache_lookup-HasCodes :
    (valid : ℕ → Bool) (stack : Rr) (ignore : Bool) (inactive : ℕ → ℕ) (c : Cache) (packet : List ℕ)
    (now : ℕ)
    → HasCodes c
    → HasCodes (cache_lookup valid stack ignore inactive c packet now).cache
unfolding cache_lookup
cache_lookup-HasCodes valid stack ignore inactive c packet now h =
    go (lookable valid stack c packet) refl
  where
    found :
        (query : Rr) (o : Option ℕ)
        → lookable valid stack c packet ≡ some query
        → find_cx (get_stringcode query.name) query c.cell c.cachelist ≡ o
        → HasCodes (cache_lookup valid stack ignore inactive c packet now).cache
    found query none e f = rw (e, f, cache_lookup) h
    found query (some a) e f = rw (e, f, cache_lookup) (touch_cx-HasCodes c a now h)

    go :
        (o : Option Rr)
        → lookable valid stack c packet ≡ o
        → HasCodes (cache_lookup valid stack ignore inactive c packet now).cache
    go none e = rw (e, cache_lookup) h
    go (some query) e = found query _ e refl
