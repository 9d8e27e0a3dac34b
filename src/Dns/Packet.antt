-- ===== src/Dns/Packet.antt =====
-- dnrd-2.20.3/src/dns.c: the decoded header, resource records and the question of a packet. A
-- buffer of characters is the C string in it. Numbers of two bytes are read by `ntohs_at`.
pub mod Question
use dnrd.Prelude.{
  ℕ, zero, suc, ◌+◌, ◌-◌, ◌*◌, ◌%◌, ◌^◌, ◌≤◌, ◌<◌, Bool, true, false, List, [], ◌∷◌, ◌++◌, Option,
  none, some, arith, leb, ltb, ◌==◌, if◌then◌else◌, length, get_or, take, drop,
}
use dnrd.Text.{strnlwr}
use dnrd.Dns.Check.{ntohs_at}
use dnrd.Dns.Flags.{get_rcode}
use dnrd.Dns.Objname.{ok, root, bad, fault, stuck, get_objname}

-- `dnsheader_t`; `here` and `rdata` serve the assembly only.
pub record DnsHeader : Type 0 where
  pub id : ℕ
  pub u : ℕ
  pub qdcount : ℕ
  pub ancount : ℕ
  pub nscount : ℕ
  pub arcount : ℕ
  pub packet : List ℕ
  pub len : ℕ

-- `rr_t`.
pub record Rr : Type 0 where
  pub flags : ℕ
  pub name : List ℕ
  pub type : ℕ
  pub class : ℕ
  pub ttl : ℕ
  pub len : ℕ
  pub rdata : List ℕ

abbrev pub rr_namesize : ℕ
rr_namesize = 256

-- `alloc_packet` and `decode_header`. The counts are `short int`, so from 2 ^ 15 on they stand for
-- negative numbers.
unfoldable pub decode_header : List ℕ → DnsHeader
decode_header packet = record {
  id = ntohs_at packet 0;
  u = ntohs_at packet 2;
  qdcount = ntohs_at packet 4;
  ancount = ntohs_at packet 6;
  nscount = ntohs_at packet 8;
  arcount = ntohs_at packet 10;
  packet = packet;
  len = length packet;
}

unfoldable pub parse_packet : List ℕ → DnsHeader
unfolding decode_header
parse_packet packet = decode_header packet

unfoldable pub check_replycode : List ℕ → ℕ
unfolding decode_header get_rcode
check_replycode packet = get_rcode (decode_header packet).u

-- The C string in a buffer: the bytes before the first NUL.
unfoldable pub c_string : List ℕ → List ℕ
c_string [] = []
c_string (c ∷ s) = if c == 0 then [] else c ∷ c_string s

-- `if ((k = strlen(name))) { if (name[--k] == '.') name[k] = '\0'; }`
unfoldable pub strip_dot : List ℕ → List ℕ
strip_dot [] = []
strip_dot (c ∷ []) = if c == b'.' then [] else c ∷ []
strip_dot (c ∷ d ∷ s) = c ∷ strip_dot (d ∷ s)

-- The type and the class at index `i`, or -1.
unfoldable pub read_type_class : List ℕ → ℕ → Rr → Option Rr
read_type_class msg i y =
    if ltb (length msg) (i + 4)
    then none
    else some (record y { type = ntohs_at msg i; class = ntohs_at msg (i + 2) })

unfoldable pub clean_name : Rr → Rr
unfolding strip_dot
clean_name y = record y { name = strnlwr (strip_dot y.name) }

-- `parse_query`, over what `y` held before; `none` stands for -1. For the root name `get_objname`
-- writes its NUL to `name[-1]`, which is the high byte of `flags` (on a little-endian machine), and
-- leaves `name` as it was. (`fault` and `stuck` do not occur: Objname/Safety.)
unfoldable pub parse_query : (ℕ → Bool) → Rr → List ℕ → Option Rr
unfolding read_type_class clean_name c_string
parse_query valid y msg =
    if ntohs_at msg 4 == 0 then none else elim (get_objname valid msg rr_namesize 12) [
      | ok i name ↦
          elim (read_type_class msg i (record y { flags = ntohs_at msg 2; name = c_string name })) [
            | none ↦ none
            | some q ↦ some (clean_name q)
          ]
      | root i ↦ elim (read_type_class msg i (record y { flags = ntohs_at msg 2 % 256 })) [
        | none ↦ none
        | some q ↦ some (clean_name q)
      ]
      | bad ↦ none
      | fault ↦ none
      | stuck ↦ none
    ]

-- The part of `read_record` behind the class: `ttl`, the length and the data of an answer.
unfoldable pub read_rdata : List ℕ → ℕ → Rr → Option (ℕ × Rr)
read_rdata packet i y =
    let len = ntohs_at packet (i + 4) in
    let kept = if ltb (rr_namesize - 4) len then rr_namesize - 4 else len in
    if ltb (length packet) (i + 6)
    then none
    else if ltb (length packet) (i + 6 + len)
    then none
    else some (
      i + 6 + kept,
      record y {
        ttl = ntohs_at packet i * 2 ^ 16 + ntohs_at packet (i + 2);
        len = kept;
        rdata = take kept (drop (i + 6) packet);
      },
    )

-- `read_record`: the index after the record, and the record; `none` stands for -1.
unfoldable pub read_record : (ℕ → Bool) → List ℕ → Rr → ℕ → Bool → Option (ℕ × Rr)
unfolding read_type_class read_rdata c_string
read_record valid packet y index question = elim (get_objname valid packet rr_namesize index) [
  | ok i name ↦ elim (read_type_class packet i (record y { name = c_string name })) [
    | none ↦ none
    | some q ↦ if question then some (i + 4, q) else read_rdata packet (i + 4) q
  ]
  | root i ↦ elim (read_type_class packet i (record y { flags = y.flags % 256 })) [
    | none ↦ none
    | some q ↦ if question then some (i + 4, q) else read_rdata packet (i + 4) q
  ]
  | bad ↦ none
  | fault ↦ none
  | stuck ↦ none
]
