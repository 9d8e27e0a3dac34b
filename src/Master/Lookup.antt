-- ===== src/Master/Lookup.antt =====
-- dnrd-2.20.3/src/master.c: master_lookup and master_dontknow, on an initialised database. `none`
-- is the return value 0: the master has no data.
pub mod From
pub mod Echo
pub mod Servers
pub mod Authority
use dnrd.Prelude.{
  ℕ, ◌+◌, ◌-◌, ◌≤◌, Bool, true, false, ◌&&◌, ◌||◌, List, [], ◌∷◌, ◌++◌, Option, none, some, arith,
  leb, ◌==◌, if◌then◌else◌, length, take, drop, not, zero, suc,
}
use dnrd.Text.{streq}
use dnrd.Dns.Flags.{get_opcode, set_aa, set_rcode}
use dnrd.Dns.Packet.{Rr, parse_query}
use dnrd.Cache.{dns_class_inet}
use dnrd.Master.{
  CodedString, NameIp, DnsRec, nameip, Database, arpadomain, dns_type_a, dns_type_ns, dns_type_ptr,
  ptr_lookup, name_lookup, dns_lookup, authority_lookup,
}
use dnrd.Master.Assembly.{
  Assembly, begin_assembly, compile_objectname, compile_type, compile_name_rdata, start_rdata,
  compile_long, end_rdata, compile_dnsrecords, end_assembly,
}

-- `memcpy(msg + 2, x->packet + 2, x->len - 2)`: the answer behind the query's id.
unfoldable pub behind_id : List ℕ → List ℕ → List ℕ
behind_id msg packet = take 2 msg ++ drop 2 packet

-- The packets that `master_lookup` assembles.
unfoldable pub ptr_answer : Database → Rr → DnsRec → List ℕ
unfolding compile_type compile_name_rdata
ptr_answer db query rec =
    let x =
      compile_name_rdata (compile_type (compile_objectname (begin_assembly query)) dns_type_ptr)
        rec.object.string in
    end_assembly (record (compile_dnsrecords db x query.name) { ancount = 1 })

unfoldable pub ipnum_of : DnsRec → ℕ
ipnum_of rec = elim rec.data_part [ nameip n ↦ n.ipnum | _ ↦ 0 ]

unfoldable pub name_answer : Database → Rr → DnsRec → List ℕ
unfolding ipnum_of compile_type
name_answer db query rec =
    let x = compile_type (compile_objectname (begin_assembly query)) dns_type_a in
    let x' = end_rdata (compile_long (start_rdata x) (ipnum_of rec)) in
    end_assembly (record (compile_dnsrecords db x' query.name) { ancount = 1 })

-- One round of the loop on the name's records.
unfoldable pub compile_ns : Assembly → List ℕ → Assembly
unfolding compile_type compile_name_rdata
compile_ns x server =
    let x' = compile_name_rdata (compile_type (compile_objectname x) dns_type_ns) server in
    record x' { ancount = x'.ancount + 1 }

-- The loop, from the record that was found. `last` grows in each round, so `dbc` rounds are enough.
unfoldable pub ns_loop : ℕ → Database → List ℕ → Option (ℕ × List ℕ × List ℕ) → Assembly → Assembly
unfolding compile_ns
ns_loop fuel db name none x = x
ns_loop zero db name (some rec) x = x
ns_loop (suc fuel) db name (some (last, object, server)) x =
    ns_loop fuel db name (dns_lookup db name (some last)) (compile_ns x server)

unfoldable pub ns_answer : Database → Rr → ℕ × List ℕ × List ℕ → List ℕ
unfolding ns_loop
ns_answer db query rec =
    let x = ns_loop (length db.dbv) db query.name (some rec) (begin_assembly query) in
    end_assembly (record x { u = set_aa x.u 1 })

unfoldable pub negative_answer : Rr → List ℕ
negative_answer query =
    let x = begin_assembly query in end_assembly (record x { ancount = 0; u = set_aa x.u 1 })

-- `strchr(name, '.')` and the step over the dot.
unfoldable pub behind_dot : List ℕ → Option (List ℕ)
behind_dot [] = none
behind_dot (c ∷ s) = let rest = behind_dot s in if c == b'.' then some s else rest

-- The end of `master_lookup`.
unfoldable pub authority_answer : Database → Rr → Option (List ℕ)
unfolding behind_dot negative_answer
authority_answer db query = elim (behind_dot query.name) [
  | none ↦ none
  | some domain ↦ elim (authority_lookup db query.name) [
    | some r ↦ some (negative_answer query)
    | none ↦ elim (authority_lookup db domain) [
      | some r ↦ some (negative_answer query)
      | none ↦ none
    ]
  ]
]

-- The branch of PTR.
unfoldable pub lookup_ptr : Database → Rr → Option (List ℕ)
unfolding ptr_answer authority_answer
lookup_ptr db query =
    let k = length query.name - length arpadomain in
    if leb (length arpadomain) (length query.name) && streq (drop k query.name) arpadomain
    then elim (ptr_lookup db (take k query.name)) [
      | some rec ↦ some (ptr_answer db query rec)
      | none ↦ authority_answer db query
    ]
    else none

unfoldable pub lookup_name : Database → Rr → Option (List ℕ)
unfolding name_answer authority_answer
lookup_name db query = elim (name_lookup db query.name) [
  | some rec ↦ some (name_answer db query rec)
  | none ↦ authority_answer db query
]

unfoldable pub lookup_ns : Database → Rr → Option (List ℕ)
unfolding ns_answer authority_answer
lookup_ns db query = elim (dns_lookup db query.name none) [
  | some rec ↦ some (ns_answer db query rec)
  | none ↦ authority_answer db query
]

-- The test of the query that both functions begin with.
unfoldable pub is_served : Rr → Bool
is_served query = query.class == dns_class_inet && get_opcode query.flags == 0

-- The packet that `master_lookup` assembles for a query.
unfoldable pub lookup_query : Database → Rr → Option (List ℕ)
unfolding lookup_ptr lookup_name lookup_ns
lookup_query db query =
    if query.type == dns_type_ptr
    then lookup_ptr db query
    else if query.type == dns_type_a
    then lookup_name db query
    else if query.type == dns_type_ns
    then lookup_ns db query
    else none

-- `master_lookup` behind its first two tests. `stack` is what the local `query` holds before.
unfoldable pub master_lookup : (ℕ → Bool) → Rr → Database → List ℕ → Option (List ℕ)
unfolding is_served lookup_query behind_id
master_lookup valid stack db msg = elim (parse_query valid stack msg) [
  | none ↦ none
  | some query ↦
      if is_served query
      then elim (lookup_query db query) [ some packet ↦ some (behind_id msg packet) | none ↦ none ]
      else none
]

-- `master_dontknow` behind its first two tests: the packet that it writes to `answer`.
unfoldable pub master_dontknow : (ℕ → Bool) → Rr → List ℕ → Option (List ℕ)
unfolding is_served
master_dontknow valid stack msg = elim (parse_query valid stack msg) [
  | none ↦ none
  | some query ↦
      let x = begin_assembly query in
      if is_served query
      then some (end_assembly (record x { ancount = 0; u = set_rcode (set_aa x.u 0) 1 }))
      else none
]
