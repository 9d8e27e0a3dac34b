-- ===== src/Master/Lookup/From.antt =====
-- Every packet that master_lookup assembles begins with the question of the query.
use dnrd.Prelude.{
  ℕ, zero, suc, ◌+◌, ◌-◌, Bool, true, false, ◌&&◌, ◌≡◌, inl, inr, refl, List, Option, none, some,
  arith, leb, ◌==◌, if◌then◌else◌, length, take, drop, Option-cases,
}
use dnrd.Text.{streq}
use dnrd.Dns.Packet.{Rr}
use dnrd.Master.{
  DnsRec, Database, arpadomain, dns_type_a, dns_type_ns, dns_type_ptr, ptr_lookup, name_lookup,
  dns_lookup,
}
use dnrd.Master.Assembly.{
  Assembly, begin_assembly, compile_objectname, compile_type, compile_name_rdata,
  compile_dnsrecords, end_assembly,
}
use dnrd.Master.Assembly.Answer.{
  Begins, compile_objectname-Begins, compile_type-Begins, compile_name_rdata-Begins,
  compile_long_rdata-Begins, set_aa-Begins, counts-Begins, compile_dnsrecords-Begins,
}
use dnrd.Master.Lookup.{
  ptr_answer, ipnum_of, name_answer, compile_ns, ns_loop, ns_answer, negative_answer,
  authority_answer, lookup_ptr, lookup_name, lookup_ns, lookup_query,
}

-- A packet that was assembled from `pre` on, if there is one.
abbrev pub IsFrom : List ℕ → List ℕ → Type 0
IsFrom pre packet = (x : Assembly) × Begins pre x × (packet ≡ end_assembly x)

abbrev pub IsFrom? : List ℕ → Option (List ℕ) → Type 0
IsFrom? pre none = Unit
IsFrom? pre (some packet) = IsFrom pre packet

module _ (pre : List ℕ) (query : Rr) (b : Begins pre (begin_assembly query)) where
  ptr_answer-IsFrom : (db : Database) (rec : DnsRec) → IsFrom pre (ptr_answer db query rec)
  unfolding ptr_answer
  ptr_answer-IsFrom db rec =
      let x =
        compile_name_rdata (compile_type (compile_objectname (begin_assembly query)) dns_type_ptr)
          rec.object.string in
      let x' = compile_dnsrecords db x query.name in
      (
        record x' { ancount = 1 },
        counts-Begins pre x' 1 x'.nscount (
            compile_dnsrecords-Begins pre db x query.name (
              compile_name_rdata-Begins pre _ rec.object.string (
                compile_type-Begins pre _ dns_type_ptr
                  (compile_objectname-Begins pre (begin_assembly query) b)))),
        refl,
      )

  name_answer-IsFrom : (db : Database) (rec : DnsRec) → IsFrom pre (name_answer db query rec)
  unfolding name_answer
  name_answer-IsFrom db rec =
      let x = compile_type (compile_objectname (begin_assembly query)) dns_type_a in
      let h = compile_dnsrecords-Begins pre db _ query.name (
        compile_long_rdata-Begins pre x (ipnum_of rec) (
          compile_type-Begins pre _ dns_type_a
            (compile_objectname-Begins pre (begin_assembly query) b))) in
      (_, counts-Begins pre _ 1 _ h, refl)

  ns_loop-Begins :
      (fuel : ℕ) (db : Database) (name : List ℕ) (rec : Option (ℕ × List ℕ × List ℕ)) (x : Assembly)
      → Begins pre x
      → Begins pre (ns_loop fuel db name rec x)
  unfolding ns_loop compile_ns
  ns_loop-Begins fuel db name none x h = h
  ns_loop-Begins zero db name (some rec) x h = h
  ns_loop-Begins (suc fuel) db name (some (last, object, server)) x h =
      let x' = compile_name_rdata (compile_type (compile_objectname x) dns_type_ns) server in
      ns_loop-Begins fuel db name (dns_lookup db name (some last)) (compile_ns x server) (
        counts-Begins pre x' (x'.ancount + 1) x'.nscount (
          compile_name_rdata-Begins pre _ server
            (compile_type-Begins pre _ dns_type_ns (compile_objectname-Begins pre x h))))

  ns_answer-IsFrom :
      (db : Database) (rec : ℕ × List ℕ × List ℕ) → IsFrom pre (ns_answer db query rec)
  unfolding ns_answer
  ns_answer-IsFrom db rec =
      (_, set_aa-Begins pre _ (ns_loop-Begins (length db.dbv) db query.name (some rec) _ b), refl)

  negative_answer-IsFrom : IsFrom pre (negative_answer query)
  unfolding negative_answer
  negative_answer-IsFrom =
      let x = begin_assembly query in
      (_, counts-Begins pre _ 0 x.nscount (set_aa-Begins pre x b), refl)

  authority_answer-IsFrom : (db : Database) → IsFrom? pre (authority_answer db query)
  unfolding authority_answer
  authority_answer-IsFrom db = ground (arith, negative_answer-IsFrom)

  if-IsFrom :
      (c : Bool) (x y : Option (List ℕ))
      → IsFrom? pre x
      → IsFrom? pre y
      → IsFrom? pre (if c then x else y)
  if-IsFrom true x y hx hy = hx
  if-IsFrom false x y hx hy = hy

  lookup_ptr-IsFrom : (db : Database) → IsFrom? pre (lookup_ptr db query)
  unfolding lookup_ptr
  lookup_ptr-IsFrom db =
      let k = length query.name - length arpadomain in
      if-IsFrom
        (leb (length arpadomain) (length query.name) && streq (drop k query.name) arpadomain)
        (elim (ptr_lookup db (take k query.name)) as (λ o. Option (List ℕ)) [
          | some rec ↦ some (ptr_answer db query rec)
          | none ↦ authority_answer db query
        ])
        none
        (elim (ptr_lookup db (take k query.name))
          as (λ o. IsFrom? pre (elim o as (λ o. Option (List ℕ)) [
            | some rec ↦ some (ptr_answer db query rec)
            | none ↦ authority_answer db query
          ])) [ some rec ↦ ptr_answer-IsFrom db rec | none ↦ authority_answer-IsFrom db ])
        tt

  lookup_name-IsFrom : (db : Database) → IsFrom? pre (lookup_name db query)
  unfolding lookup_name
  lookup_name-IsFrom db = elim (Option-cases (name_lookup db query.name)) [
    | inl e ↦ rw (e, lookup_name) (authority_answer-IsFrom db)
    | inr (rec, e) ↦ rw (e, lookup_name) (name_answer-IsFrom db rec)
  ]

  lookup_ns-IsFrom : (db : Database) → IsFrom? pre (lookup_ns db query)
  unfolding lookup_ns
  lookup_ns-IsFrom db = elim (Option-cases (dns_lookup db query.name none)) [
    | inl e ↦ rw (e, lookup_ns) (authority_answer-IsFrom db)
    | inr (rec, e) ↦ rw (e, lookup_ns) (ns_answer-IsFrom db rec)
  ]

  pub lookup_query-IsFrom : (db : Database) → IsFrom? pre (lookup_query db query)
  unfolding lookup_query
  lookup_query-IsFrom db =
      let ns = if query.type == dns_type_ns then lookup_ns db query else none in
      let a = if query.type == dns_type_a then lookup_name db query else ns in
      if-IsFrom (query.type == dns_type_ptr) (lookup_ptr db query) a (lookup_ptr-IsFrom db) (
        if-IsFrom (query.type == dns_type_a) (lookup_name db query) ns (lookup_name-IsFrom db) (
          if-IsFrom (query.type == dns_type_ns) (lookup_ns db query) none (lookup_ns-IsFrom db) tt))
