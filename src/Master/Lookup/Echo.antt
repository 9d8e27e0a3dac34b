-- ===== src/Master/Lookup/Echo.antt =====
-- Every answer of the master is a reply to the question of the query.
use mathlib.Core.List.{append_assoc}
use dnrd.Prelude.{
  ℕ, ◌+◌, ◌*◌, ◌/◌, ◌%◌, ◌<◌, Bool, ◌≡◌, ◌≢◌, ◌⊎◌, refl, sym, ap, ◌∙◌, List, [], ◌∷◌, ◌++◌, map,
  Option, none, some, arith, length, take, drop, All,
}
use dnrd.Text.{strnlwr}
use dnrd.Text.Lower.{strnlwr_twice, length-strnlwr}
use dnrd.Dns.Check.{ntohs_at}
use dnrd.Dns.Objname.RoundTrip.{wire, dotted, IsLabel}
use dnrd.Dns.Packet.{Rr, parse_query}
use dnrd.Dns.Packet.Question.{IsPlain, parse_query-wire}
use dnrd.Master.{Database}
use dnrd.Master.Assembly.{htons}
use dnrd.Master.Assembly.Names.{IsWritable, strnlwr-dotted, strnlwr-IsWritable}
use dnrd.Master.Assembly.Answer.{question, zeros, end_assembly-Begins, begin_assembly-Begins}
use dnrd.Master.Lookup.{behind_id, lookup_query, master_lookup}
use dnrd.Master.Lookup.From.{IsFrom, IsFrom?, lookup_query-IsFrom}

-- A packet that `master_lookup` assembled for the query.
master_lookup-lookup_query :
    (valid : ℕ → Bool) (stack query : Rr) (db : Database) (msg answer : List ℕ)
    → parse_query valid stack msg ≡ some query
    → master_lookup valid stack db msg ≡ some answer
    → (packet : List ℕ) × (lookup_query db query ≡ some packet) × (answer ≡ behind_id msg packet)
unfolding master_lookup
master_lookup-lookup_query valid stack query db msg answer e a = go (lookup_query db query) refl
  where
    go :
        (o : Option (List ℕ))
        → lookup_query db query ≡ o
        → (packet : List ℕ) × (lookup_query db query ≡ some packet)
          × (answer ≡ behind_id msg packet)
    go none o = absurd (ground (arith, rw (e, o, master_lookup) at a))
    go (some packet) o = (packet, o, ground (arith, rw (e, o, master_lookup) at a))

first_two : (s : List ℕ) → length s ≡ 12 → (a b : ℕ) × (t : List ℕ) × (s ≡ a ∷ b ∷ t)
first_two [] h = absurd (omega arith)
first_two (a ∷ []) h = absurd (omega arith)
first_two (a ∷ b ∷ t) h = (a, b, t, refl)

writable-IsPlain : (ls : List (List ℕ)) → All IsWritable ls → All IsPlain ls
writable-IsPlain [] h = tt
writable-IsPlain (l ∷ ls) h = (h.0.2, writable-IsPlain ls h.1)

-- What `master_lookup` assembles for a query about a name.
lookup_query_packet :
    (query : Rr) (db : Database) (l : List ℕ) (ls : List (List ℕ)) (packet : List ℕ)
    → lookup_query db query ≡ some packet
    → query.name ≡ dotted (l ∷ ls)
    → All IsWritable (l ∷ ls)
    → (u : ℕ) × (h tail : List ℕ) × ((u ≡ 0x8000) ⊎ (u ≡ 0x8400))
      × (length h ≡ 6)
      × (packet
          ≡ 0
            ∷ 0
            ∷ (u / 256)
            ∷ (u % 256)
            ∷ 0
            ∷ 1
            ∷ (h ++ (question (wire (l ∷ ls)) query.type query.class ++ tail)))
lookup_query_packet query db l ls packet found named hw =
    let q : List ℕ = question (wire (l ∷ ls)) query.type query.class in
    let from : IsFrom? (zeros ++ q) (lookup_query db query) =
      lookup_query-IsFrom (zeros ++ q) query (begin_assembly-Begins query l ls named hw) db in
    let got : IsFrom (zeros ++ q) packet = rw found at from in
    let (x, bx, ep) = got in
    let (u, h, tail, flags, six, ea) = end_assembly-Begins zeros q x refl bx in
    (u, h, tail, flags, six, ep ∙ ea)

-- Such a packet is parsed as the query's question.
parse_query-question :
    (valid : ℕ → Bool) (y : Rr) (l : List ℕ) (ls : List (List ℕ)) (a b u type class : ℕ)
    (h tail : List ℕ)
    → length h ≡ 6
    → All (IsLabel valid) (l ∷ ls)
    → All IsWritable (l ∷ ls)
    → length (dotted (l ∷ ls)) < 255
    → type < 65536
    → class < 65536
    → parse_query valid y (
        a
        ∷ b
        ∷ (u / 256)
        ∷ (u % 256)
        ∷ 0
        ∷ 1
        ∷ (h ++ (question (wire (l ∷ ls)) type class ++ tail)))
      ≡ some (record y {
        flags = u / 256 * 256 + u % 256;
        name = strnlwr (dotted (l ∷ ls));
        type = type;
        class = class;
      })
unfolding htons
parse_query-question valid y l ls a b u type class h tail six hl hw fits ht hc =
    let w : List ℕ = wire (l ∷ ls) in
    let start : List ℕ = a ∷ b ∷ (u / 256) ∷ (u % 256) ∷ 0 ∷ 1 ∷ [] in
    let plain = writable-IsPlain (l ∷ ls) hw in
    let parsed =
      parse_query-wire valid y (start ++ h) l ls (type / 256 % 256) (type % 256) (class / 256 % 256)
        (class % 256) tail (omega (arith, six)) (ground arith) hl plain fits in
    let whole : (type / 256 % 256 * 256 + type % 256 ≡ type)
        × (class / 256 % 256 * 256 + class % 256 ≡ class) =
      (omega (arith, ht), omega (arith, hc)) in
    rw (append_assoc w (htons type ++ htons class) tail) (
      parsed
      ∙ ap
          (λ (n : ℕ). some (record y {
            flags = u / 256 * 256 + u % 256;
            name = strnlwr (dotted (l ∷ ls));
            type = n;
            class = class / 256 % 256 * 256 + class % 256;
          }))
          whole.0
      ∙ ap
          (λ (n : ℕ). some (record y {
            flags = u / 256 * 256 + u % 256;
            name = strnlwr (dotted (l ∷ ls));
            type = type;
            class = n;
          }))
          whole.1)

-- To a query that asks one question about a name of 1 to 63 byte labels without NULs and dots, the
-- answer of `master_lookup`, if it has one, carries the id of the query and is parsed as a reply
-- (QR, perhaps with AA) to the same question: the name in lower case, the type and the class.
pub master_lookup_echoes :
    (valid : ℕ → Bool) (stack y : Rr) (db : Database) (hdr : List ℕ) (l : List ℕ)
    (ls : List (List ℕ)) (t1 t0 c1 c0 : ℕ) (rest answer : List ℕ)
    → length hdr ≡ 12
    → ntohs_at hdr 4 ≢ 0
    → All (IsLabel valid) (l ∷ ls)
    → All (IsLabel valid) (map strnlwr (l ∷ ls))
    → All IsWritable (l ∷ ls)
    → length (dotted (l ∷ ls)) < 255
    → (t1 < 256) × (t0 < 256) × (c1 < 256) × (c0 < 256)
    → master_lookup valid stack db (hdr ++ (wire (l ∷ ls) ++ (t1 ∷ t0 ∷ c1 ∷ c0 ∷ rest)))
      ≡ some answer
    → (take 2 answer ≡ take 2 hdr)
      × ((ntohs_at answer 2 ≡ 0x8000) ⊎ (ntohs_at answer 2 ≡ 0x8400))
      × (parse_query valid y answer
          ≡ some (record y {
            flags = ntohs_at answer 2;
            name = strnlwr (dotted (l ∷ ls));
            type = t1 * 256 + t0;
            class = c1 * 256 + c0;
          }))
unfolding behind_id
master_lookup_echoes valid stack y db hdr l ls t1 t0 c1 c0 rest answer h12 hq hl hlow hw fits bytes
      a =
    let w : List ℕ = wire (l ∷ ls) in
    let name : List ℕ = strnlwr (dotted (l ∷ ls)) in
    let type : ℕ = t1 * 256 + t0 in
    let class : ℕ = c1 * 256 + c0 in
    let query : Rr = record stack {
      flags = ntohs_at hdr 2;
      name = name;
      type = type;
      class = class;
    } in
    let msg : List ℕ = hdr ++ (w ++ (t1 ∷ t0 ∷ c1 ∷ c0 ∷ rest)) in
    let asked : parse_query valid stack msg ≡ some query =
      parse_query-wire valid stack hdr l ls t1 t0 c1 c0 rest h12 hq hl
        (writable-IsPlain (l ∷ ls) hw) fits in
    let (packet, found, ea) = master_lookup-lookup_query valid stack query db msg answer asked a in
    let (u, h, tail, flags, six, ep) =
      lookup_query_packet query db (strnlwr l) (map strnlwr ls) packet found
        (strnlwr-dotted (l ∷ ls)) (strnlwr-IsWritable (l ∷ ls) hw) in
    let (x, z, t, eh) = first_two hdr h12 in
    let low : dotted (strnlwr l ∷ map strnlwr ls) ≡ name = sym (strnlwr-dotted (l ∷ ls)) in
    let parsed =
      parse_query-question valid y (strnlwr l) (map strnlwr ls) x z u type class h tail six hlow
        (strnlwr-IsWritable (l ∷ ls) hw)
        (rw low (omega (arith, fits, length-strnlwr (dotted (l ∷ ls))))) (omega arith)
        (omega arith) in
    let q : List ℕ = question (wire (strnlwr l ∷ map strnlwr ls)) type class in
    let behind : List ℕ = (u / 256) ∷ (u % 256) ∷ 0 ∷ 1 ∷ (h ++ (q ++ tail)) in
    let whole : answer ≡ x ∷ z ∷ behind =
      ea
      ∙ ap (λ (p : List ℕ). take 2 msg ++ drop 2 p) ep
      ∙ ap (λ (s : List ℕ). take 2 (s ++ (w ++ (t1 ∷ t0 ∷ c1 ∷ c0 ∷ rest))) ++ behind) eh in
    let u' : u / 256 * 256 + u % 256 ≡ u = omega arith in
    rw (whole, u')
      (
        sym (ap (take 2) eh),
        flags,
        rw u' at parsed
            ∙ ap
                (λ (s : List ℕ).
                  some (record y { flags = u; name = s; type = type; class = class }))
                (ap strnlwr low ∙ strnlwr_twice (dotted (l ∷ ls))),
      )
