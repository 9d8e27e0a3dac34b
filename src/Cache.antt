-- ===== src/Cache.antt =====
-- dnrd-2.20.3/src/cache.c: the cache of answers. The list from `cachelist` to `lastcache` is the
-- list of the addresses of its nodes, and `cell` what stands at an address. Times are in seconds;
-- each handler takes the time that `time(NULL)` returns while it runs. The semaphore is left out:
-- one thread runs these functions.
pub mod Config
pub mod Lookup
pub mod Expire
use Prim.Native.Nat.{bit_and}
use mathlib.Core.List.{erase}
use native.Mathlib.Decide.{ℕ_discrete}
use dnrd.Prelude.{
  ℕ, ◌+◌, ◌-◌, ◌*◌, ◌%◌, ◌^◌, ◌≤◌, ◌<◌, Bool, true, false, ◌&&◌, ◌||◌, List, [], ◌∷◌, ◌++◌, Option,
  none, some, arith, leb, ltb, ◌==◌, if◌then◌else◌, length, get_or, take, drop, not,
}
use dnrd.Text.{get_stringcode, strcaseeq}
use dnrd.Dns.Flags.{get_qr}
use dnrd.Dns.Packet.{DnsHeader, Rr, parse_packet, parse_query}

abbrev pub cache_timeunit : ℕ
cache_timeunit = 60

abbrev pub cache_negtime : ℕ
cache_negtime = 5 * cache_timeunit

abbrev pub cache_time : ℕ
cache_time = 60 * cache_timeunit

abbrev pub cache_maxtime : ℕ
cache_maxtime = 6 * 60 * cache_timeunit

abbrev pub cache_mincycle : ℕ
cache_mincycle = 5 * cache_timeunit

abbrev pub dns_class_inet : ℕ
dns_class_inet = 1

-- `cache_t`; the links are the order of the list. `server` is the address of the server's node.
pub record Entry : Type 0 where
  pub code : ℕ
  pub name : List ℕ
  pub type : ℕ
  pub class : ℕ
  pub positive : ℕ
  pub created : ℕ
  pub lastused : ℕ
  pub expires : ℕ
  pub p : DnsHeader
  pub server : ℕ

-- The file's variables. After `cache_init` the marks are not negative (Config).
pub record Cache : Type 0 where
  pub onoff : Bool
  pub highwater : ℕ
  pub lowwater : ℕ
  pub cachelist : List ℕ
  pub cell : ℕ → Entry
  pub lastexpire : ℕ
  pub hits : ℕ
  pub misses : ℕ

abbrev pub update : (ℕ → Entry) → ℕ → Entry → ℕ → Entry
update f a e b = if a == b then e else f b

-- A `short` that is read as a positive number.
abbrev pub is_positive : ℕ → Bool
is_positive n = ltb 0 n && ltb n (2 ^ 15)

unfoldable pub create_cx : DnsHeader → Rr → ℕ → ℕ → Entry
create_cx x query server now = record {
  code = get_stringcode query.name;
  name = query.name;
  type = query.type;
  class = query.class;
  positive = x.ancount;
  created = 0;
  lastused = now;
  expires = 0;
  p = x;
  server = server;
}

unfoldable pub append_cx : Cache → ℕ → Entry → ℕ → Cache
append_cx c a cx now = record c {
  cachelist = c.cachelist ++ (a ∷ []);
  cell = update c.cell a (record cx { created = now });
}

unfoldable pub remove_cx : Cache → ℕ → Cache
remove_cx c a = record c { cachelist = erase ℕ_discrete c.cachelist a }

-- The end of `cache_dnspacket`: how long the new entry lives.
unfoldable pub set_expires : Cache → ℕ → ℕ → Cache
set_expires c a now =
    let cx = c.cell a in
    record c {
      cell = update c.cell a (record cx {
        lastused = now;
        expires = now + (if is_positive cx.p.ancount then cache_time else cache_negtime);
      });
    }

-- The early returns of `cache_dnspacket`, or the question of the reply.
unfoldable pub cacheable : (ℕ → Bool) → Rr → Cache → List ℕ → Option Rr
cacheable valid stack c packet = elim c.onoff [
  | false ↦ none
  | true ↦ elim (parse_query valid stack packet) [
    | none ↦ none
    | some query ↦
        if get_qr query.flags == 0 || get_or query.name 0 0 == 0 then none else some query
  ]
]

-- `a` is the address that `allocate` returns for the new node, and `stack` what the local `query`
-- holds before it is filled.
unfoldable pub cache_dnspacket : (ℕ → Bool) → Rr → Cache → List ℕ → ℕ → ℕ → ℕ → Cache
unfolding create_cx append_cx set_expires cacheable
cache_dnspacket valid stack c packet server a now = elim (cacheable valid stack c packet) [
  | none ↦ c
  | some query ↦
      set_expires (append_cx c a (create_cx (parse_packet packet) query server now) now) a now
]

-- The test of the loop of `cache_lookup`.
unfoldable pub is_hit : ℕ → Rr → Entry → Bool
is_hit code query cx =
    cx.code == code
    && (cx.type == query.type && (cx.class == query.class && strcaseeq cx.name query.name))

unfoldable pub find_cx : ℕ → Rr → (ℕ → Entry) → List ℕ → Option ℕ
unfolding is_hit
find_cx code query cell [] = none
find_cx code query cell (a ∷ l) =
    if is_hit code query (cell a) then some a else find_cx code query cell l

-- The early returns of `cache_lookup`, or the question of the query.
unfoldable pub lookable : (ℕ → Bool) → Rr → Cache → List ℕ → Option Rr
lookable valid stack c packet = elim c.onoff [
  | false ↦ none
  | true ↦ elim (parse_query valid stack packet) [
    | none ↦ none
    | some query ↦
        if get_qr query.flags == 1
          || (get_or query.name 0 0 == 0 || not (query.class == dns_class_inet))
        then none
        else some query
  ]
]

-- A positive answer is used, and lives on.
unfoldable pub touch_cx : Cache → ℕ → ℕ → Cache
touch_cx c a now =
    let cx = c.cell a in
    if is_positive cx.positive
    then record c {
      cell = update c.cell a (record cx { lastused = now; expires = now + cache_time });
    }
    else c

-- `memcpy(packet + 2, p->packet + 2, p->len - 2)`.
unfoldable pub copy_answer : List ℕ → List ℕ → List ℕ
copy_answer packet answer = take 2 packet ++ (drop 2 answer ++ drop (length answer) packet)

-- What a handler leaves: the cache, the packet's buffer, and the length that it returns.
pub record Reply : Type 0 where
  pub cache : Cache
  pub packet : List ℕ
  pub len : ℕ

-- `ignore` is `ignore_inactive_cache_hits`, and `inactive` reads the field of a server.
unfoldable pub use_cx : Bool → (ℕ → ℕ) → Cache → List ℕ → ℕ → ℕ → Reply
unfolding touch_cx copy_answer
use_cx ignore inactive c packet a now =
    let cx = c.cell a in
    let used = touch_cx c a now in
    record {
      cache = record used { hits = c.hits + 1 };
      packet = copy_answer packet cx.p.packet;
      len = if ignore && not (inactive cx.server == 0) then 0 else cx.p.len;
    }

unfoldable pub cache_lookup : (ℕ → Bool) → Rr → Bool → (ℕ → ℕ) → Cache → List ℕ → ℕ → Reply
unfolding lookable find_cx use_cx
cache_lookup valid stack ignore inactive c packet now = elim (lookable valid stack c packet) [
  | none ↦ record { cache = c; packet = packet; len = 0 }
  | some query ↦ elim (find_cx (get_stringcode query.name) query c.cell c.cachelist) [
    | none ↦ record { cache = record c { misses = c.misses + 1 }; packet = packet; len = 0 }
    | some a ↦ use_cx ignore inactive c packet a now
  ]
]
