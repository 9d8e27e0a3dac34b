-- ===== src/Master/Assembly.antt =====
-- dnrd-2.20.3/src/master.c: the assembly of an answer. `bytes` is what stands before `here`; nothing
-- checks that it fits the buffer of 600 bytes.
pub mod Names
pub mod Answer
use Prim.Native.Nat.{bit_and}
use dnrd.Prelude.{
  ℕ, zero, suc, ◌+◌, ◌-◌, ◌*◌, ◌/◌, ◌%◌, ◌^◌, ◌≤◌, Bool, List, [], ◌∷◌, ◌++◌, Option, none, some,
  arith, ltb, ◌==◌, if◌then◌else◌, length, drop, set, codes,
}
use dnrd.Dns.Flags.{set_qr, set_aa}
use dnrd.Dns.Packet.{Rr}
use dnrd.Cache.{dns_class_inet}
use dnrd.Master.{Database, dns_type_ns, default_ttl, dns_lookup}

-- `dnsheader_t` during the assembly; the `id` is 0. `rdata` is the index of the length to fill in.
pub record Assembly : Type 0 where
  pub u : ℕ
  pub qdcount : ℕ
  pub ancount : ℕ
  pub nscount : ℕ
  pub arcount : ℕ
  pub bytes : List ℕ
  pub rdata : Option ℕ

-- The bytes up to the next dot, and what is left from it on.
unfoldable pub split_label : List ℕ → List ℕ × List ℕ
split_label [] = ([], [])
split_label (c ∷ s) =
    let (l, rest) = split_label s in if c == b'.' then ([], c ∷ s) else (c ∷ l, rest)

unfoldable pub skip_dot : List ℕ → List ℕ
skip_dot [] = []
skip_dot (c ∷ s) = if c == b'.' then s else c ∷ s

-- The loop of `compile_name`. Each round takes a byte of the name, so its length is fuel enough.
unfoldable pub compile_labels : ℕ → List ℕ → List ℕ
unfolding split_label skip_dot
compile_labels zero name = []
compile_labels (suc fuel) name =
    let (l, rest) = split_label name in
    let others = compile_labels fuel (skip_dot rest) in
    if length l == 0 then [] else bit_and (length l) 0x3f ∷ (l ++ others)

unfoldable pub put : Assembly → List ℕ → Assembly
put x bytes = record x { bytes = x.bytes ++ bytes }

-- `compile_name`, which returns the `offset` where the name begins.
unfoldable pub compile_name : Assembly → List ℕ → Assembly × ℕ
unfolding compile_labels put
compile_name x name = (put x (compile_labels (length name) name ++ (0 ∷ [])), length x.bytes)

unfoldable pub compile_namepointer : Assembly → ℕ → Assembly
unfolding put
compile_namepointer x offset = put x (0xc0 ∷ bit_and offset 0x3f ∷ [])

-- The two bytes of `htons`.
unfoldable pub htons : ℕ → List ℕ
htons n = (n / 256 % 256) ∷ (n % 256) ∷ []

unfoldable pub compile_int : Assembly → ℕ → Assembly
unfolding put htons
compile_int x number = put x (htons number)

unfoldable pub compile_long : Assembly → ℕ → Assembly
unfolding put htons
compile_long x number = put x (htons (number / 2 ^ 16) ++ htons number)

unfoldable pub compile_objectname : Assembly → Assembly
unfolding put
compile_objectname x = put x (0xc0 ∷ 0x0c ∷ [])

-- The two bytes at an index.
unfoldable pub write_int : List ℕ → ℕ → ℕ → List ℕ
write_int bytes i n = set (set bytes i (n / 256 % 256)) (i + 1) (n % 256)

unfoldable pub end_rdata : Assembly → Assembly
unfolding write_int
end_rdata x = elim x.rdata [
  | none ↦ x
  | some i ↦ record x { bytes = write_int x.bytes i (length x.bytes - (i + 2)); rdata = none }
]

unfoldable pub start_rdata : Assembly → Assembly
unfolding compile_int
start_rdata x = compile_int (record x { rdata = some (length x.bytes) }) 0

-- `end_assembly`: the packet; its first two bytes, the id, are 0.
unfoldable pub end_assembly : Assembly → List ℕ
unfolding end_rdata htons
end_assembly x =
    let x' = end_rdata x in
    0
    ∷ 0
    ∷ (htons x'.u
        ++ (htons x'.qdcount
            ++ (htons x'.ancount ++ (htons x'.nscount ++ (htons x'.arcount ++ drop 12 x'.bytes)))))

unfoldable pub begin_assembly : Rr → Assembly
unfolding compile_name compile_int
begin_assembly query =
    let x : Assembly = record {
      u = set_qr 0 1;
      qdcount = 1;
      ancount = 0;
      nscount = 0;
      arcount = 0;
      bytes = 0 ∷ 0 ∷ 0 ∷ 0 ∷ 0 ∷ 0 ∷ 0 ∷ 0 ∷ 0 ∷ 0 ∷ 0 ∷ 0 ∷ [];
      rdata = none;
    } in
    compile_int (compile_int (compile_name x query.name).0 query.type) query.class

-- The type, class and time to live of a record.
unfoldable pub compile_type : Assembly → ℕ → Assembly
unfolding compile_int compile_long
compile_type x type = compile_long (compile_int (compile_int x type) dns_class_inet) default_ttl

-- A name as the data of a record.
unfoldable pub compile_name_rdata : Assembly → List ℕ → Assembly
unfolding start_rdata compile_name end_rdata
compile_name_rdata x name = end_rdata (compile_name (start_rdata x) name).0

-- One round of `compile_dnsrecords`, on the `pos` so far (0 at first) and the record's strings.
unfoldable pub compile_dnsrecord : Assembly → ℕ → List ℕ → List ℕ → Assembly × ℕ
unfolding compile_name compile_namepointer compile_type compile_name_rdata
compile_dnsrecord x pos object server =
    let (named, pos') =
      if pos == 0 then compile_name x object else (compile_namepointer x pos, pos) in
    let x' = compile_name_rdata (compile_type named dns_type_ns) server in
    (record x' { nscount = x'.nscount + 1 }, pos')

-- The loop of `compile_dnsrecords`. `last` grows in each round, so `dbc` rounds are enough.
unfoldable pub dnsrecords_loop : ℕ → Database → List ℕ → Option ℕ → Assembly → ℕ → Assembly
unfolding compile_dnsrecord
dnsrecords_loop zero db object last x pos = x
dnsrecords_loop (suc fuel) db object last x pos = elim (dns_lookup db object last) [
  | none ↦ x
  | some (i, name, server) ↦
      let (x', pos') = compile_dnsrecord x pos name server in
      dnsrecords_loop fuel db object (some i) x' pos'
]

unfoldable pub compile_dnsrecords : Database → Assembly → List ℕ → Assembly
unfolding dnsrecords_loop set_aa
compile_dnsrecords db x object =
    let x' = dnsrecords_loop (length db.dbv) db object none x 0 in
    if ltb 0 x'.nscount then record x' { u = set_aa x'.u 1 } else x'
