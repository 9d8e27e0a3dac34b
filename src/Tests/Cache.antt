-- ===== src/Tests/Cache.antt =====
-- A cache of two entries.
use mathlib.Core.List.{Perm, Mem}
use mathlib.Core.List.Perm
use dnrd.Prelude.{
  ℕ, ◌+◌, ◌*◌, ◌≤◌, true, false, ◌≡◌, refl, List, [], ◌∷◌, ◌++◌, some, arith, length, take, drop,
  All, codes, none, ◌-◌, ◌==◌, if◌then◌else◌,
}
use dnrd.Prelude.Int.{pos, ltb_ℤ}
use dnrd.Text.{strcaseeq, get_stringcode}
use dnrd.Dns.Objname.{valid_char}
use dnrd.Dns.Packet.{DnsHeader, Rr, parse_query}
use dnrd.Cache.{Entry, Cache, cacheable, lookable, find_cx, cache_dnspacket, cache_lookup}
use dnrd.Query.{query_init}
use dnrd.Udp.{State}
use dnrd.Relay.{Outcome, Looked, handle_query}
use dnrd.Relay.Held.{handle_query_held}
use dnrd.Cache.Config.{cache_init, cache_init_ordered}
use dnrd.Cache.Lookup.{find_answer, find_cx-find_answer, cache_lookup-cache_dnspacket}
use dnrd.Cache.Expire.{Qsort, cmp_cachemru, is_expired, expire_oldest, cache_expire}
use dnrd.Cache.Expire.Bounds.{unexpired, cache_expire_early, cache_expire_over}
use dnrd.Cache.Expire.Order.{expire_oldest_youngest}

abbrev header : ℕ → List ℕ
header qr = 18 ∷ 52 ∷ (1 + qr * 128) ∷ 0 ∷ 0 ∷ 1 ∷ 0 ∷ 1 ∷ 0 ∷ 0 ∷ 0 ∷ 0 ∷ []

-- A query and a reply with the question `a`, type 1, class 1.
abbrev packet : ℕ → List ℕ
packet qr = header qr ++ (1 ∷ 97 ∷ 0 ∷ 0 ∷ 1 ∷ 0 ∷ 1 ∷ [])

abbrev empty : Rr
empty = record { flags = 0; name = []; type = 0; class = 0; ttl = 0; len = 0; rdata = [] }

abbrev question : ℕ → Rr
question qr = record empty { flags = (1 + qr * 128) * 256; name = 97 ∷ []; type = 1; class = 1 }

abbrev nothing : DnsHeader
nothing = record {
  id = 0;
  u = 0;
  qdcount = 0;
  ancount = 0;
  nscount = 0;
  arcount = 0;
  packet = [];
  len = 0;
}

abbrev entry : ℕ → Entry
entry a = record {
  code = get_stringcode (97 ∷ []);
  name = 97 ∷ [];
  type = 1;
  class = 1;
  positive = 1;
  created = 1000;
  lastused = 1000 + a;
  expires = 4600;
  p = record nothing { packet = packet 1; len = 19 };
  server = 7;
}

abbrev cache : List ℕ → Cache
cache l = record {
  onoff = true;
  highwater = 1;
  lowwater = 1;
  cachelist = l;
  cell = entry;
  lastexpire = 500;
  hits = 0;
  misses = 0;
}

abbrev no_one : ℕ → ℕ
no_one a = 0

cacheable_reply : cacheable (valid_char false) empty (cache []) (packet 1) ≡ some (question 1)
unfolding cacheable dnrd.Dns.Flags.get_qr parse_query dnrd.Dns.Objname.get_objname valid_char
    dnrd.Text.strnlwr
cacheable_reply = refl

lookable_query :
    (l : List ℕ) → lookable (valid_char false) empty (cache l) (packet 0) ≡ some (question 0)
unfolding lookable dnrd.Dns.Flags.get_qr parse_query dnrd.Dns.Objname.get_objname valid_char
    dnrd.Text.strnlwr
lookable_query l = refl

cached_reply_found :
    let r =
      cache_lookup
        (valid_char false)
        empty
        true
        no_one
        (cache_dnspacket (valid_char false) empty (cache []) (packet 1) 7 3 1000)
        (packet 0)
        1001 in
    (take r.len r.packet ≡ packet 1) × (r.len ≡ 19)
unfolding find_cx strcaseeq
cached_reply_found =
    cache_lookup-cache_dnspacket (valid_char false) empty empty (question 1) (question 0) true
      no_one (cache []) (packet 1) (packet 0) 7 3 1000 1001 cacheable_reply (lookable_query []) refl
      refl refl tt refl refl (omega arith) (omega arith)

-- The server 7 of the entry is inactive, and 8 is not.
abbrev asked_again : State
asked_again = record {
  queries = query_init;
  cache = cache (3 ∷ []);
  inf_list = record { inf = codes "l"; srvlist = 7 ∷ 8 ∷ []; current = none } ∷ [];
  head_current = some 2;
  srv =
      λ a. record { addr = a; inactive = if a == 7 then 900 else 0; send_count = 0; send_time = 0 };
}

abbrev held : State × Outcome
held =
    handle_query (λ msg. Looked.pass) (valid_char false) empty true 4 10 1001 asked_again (packet 0)

held_goes_on : held ≡ (held.0, Outcome.forward (some 0) (packet 1))
unfolding handle_query dnrd.Dns.Flags.get_qr parse_query dnrd.Dns.Objname.get_objname valid_char
    dnrd.Text.strnlwr dnrd.Server.next_active strcaseeq cache_lookup get_stringcode
held_goes_on = refl

-- The reply goes to the server 8, for the query.
held_reply : packet 1 ≡ take 2 (packet 0) ++ take (length (packet 0) - 2) (drop 2 (packet 1))
unfolding find_answer strcaseeq
held_reply =
    handle_query_held (λ msg. Looked.pass) (valid_char false) empty (question 0) 4 10 1001 3
      asked_again held.0 (packet 0) (packet 1) (some 0) refl (refl, tt) (lookable_query (3 ∷ []))
      refl (ground arith) (omega arith) (omega arith) held_goes_on

search_same :
    find_cx (get_stringcode (question 0).name) (question 0) entry (3 ∷ 4 ∷ [])
    ≡ find_answer (question 0) entry (3 ∷ 4 ∷ [])
search_same = find_cx-find_answer (question 0) entry (3 ∷ 4 ∷ []) (refl, (refl, tt))

marks_ordered :
    let m = cache_init (record { onoff = true; high = pos 10; low = pos 5 }) (53 ∷ 58 ∷ 57 ∷ []) in
    (ltb_ℤ m.high (pos 0) ≡ false) × (ltb_ℤ m.high m.low ≡ false)
unfolding cache_init dnrd.Text.streq
marks_ordered =
    cache_init_ordered (record { onoff = true; high = pos 10; low = pos 5 }) (53 ∷ 58 ∷ 57 ∷ [])
      refl

-- A sort that fits the lists that are sorted already.
abbrev keep_order : Qsort
keep_order cmp l = l

surplus_removed :
    let left = cache_expire keep_order (cache (4 ∷ 3 ∷ [])) 1200 in
    (length left.cachelist ≡ 1)
    × ((a : ℕ) → Mem a left.cachelist → Mem a (unexpired 1200 entry (4 ∷ 3 ∷ [])))
unfolding unexpired is_expired
surplus_removed =
    cache_expire_over keep_order (cache (4 ∷ 3 ∷ [])) 1200 refl (ground arith) (ground arith)
      (omega arith) (omega arith) (omega arith) (Perm.refl _)

nothing_due : cache_expire keep_order (cache (3 ∷ [])) 700 ≡ cache (3 ∷ [])
nothing_due = cache_expire_early keep_order (cache (3 ∷ [])) 700 (ground arith) (omega arith)

-- The entry 4, which was used last, goes.
youngest_removed :
    Perm (expire_oldest keep_order (cache (4 ∷ 3 ∷ [])) 2).cachelist (3 ∷ [])
    × All (λ x. All (λ y. (entry y).lastused ≤ (entry x).lastused) (3 ∷ [])) (4 ∷ [])
unfolding cmp_cachemru
youngest_removed =
    expire_oldest_youngest keep_order (cache (4 ∷ 3 ∷ [])) 1000
      (record { same = Perm.refl _; sorted = ((refl, tt), (tt, tt)) })
      ((omega arith, omega arith), ((omega arith, omega arith), tt)) (omega arith)
