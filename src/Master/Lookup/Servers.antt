-- ===== src/Master/Lookup/Servers.antt =====
-- The loops over dns_lookup meet each server of a domain once, in the order of the database.
use dnrd.Prelude.{
  ℕ, zero, suc, ◌+◌, ◌-◌, ◌≤◌, ◌<◌, ◌≡◌, refl, sym, ap, ◌∙◌, List, [], ◌∷◌, Option, none, some,
  arith, if◌then◌else◌, length, drop, Bool-cases, inl, inr, Option-cases,
}
use dnrd.Master.{
  CodedString, Data, DnsRec, nameip, dns, authority, Database, is_within, find_dns, after_last,
  dns_lookup,
}
use dnrd.Master.Assembly.{Assembly, compile_dnsrecord, dnsrecords_loop}
use dnrd.Master.Lookup.{compile_ns, ns_loop}

-- The records that name a server for a name: the object and the server of each.
abbrev pub servers : List ℕ → List DnsRec → List (List ℕ × List ℕ)
servers name [] = []
servers name (rec ∷ l) = elim rec.data_part [
  | dns s ↦
      if is_within name rec.object.string
      then (rec.object.string, s.string) ∷ servers name l
      else servers name l
  | nameip n ↦ servers name l
  | authority ↦ servers name l
]

-- What a search says of the servers: there is none, or one at some index, and those behind it.
abbrev Says : List ℕ → ℕ → List DnsRec → Option (ℕ × List ℕ × List ℕ) → Type 0
Says name i l none = servers name l ≡ []
Says name i l (some (j, object, server)) =
    (k : ℕ) × (j ≡ i + k)
    × (k < length l)
    × (servers name l ≡ (object, server) ∷ servers name (drop (suc k) l))

further :
    (name : List ℕ) (i : ℕ) (rec : DnsRec) (l : List DnsRec) (o : Option (ℕ × List ℕ × List ℕ))
    → servers name (rec ∷ l) ≡ servers name l
    → Says name (i + 1) l o
    → Says name i (rec ∷ l) o
further name i rec l none e h = e ∙ h
further name i rec l (some (j, object, server)) e (k, f, lt, g) =
    (suc k, omega (arith, f), omega (arith, lt), e ∙ g)

one_more :
    (name : List ℕ) (i : ℕ) (o : CodedString) (d : Data) (l : List DnsRec)
    → Says name (i + 1) l (find_dns name (i + 1) l)
    → Says name i
        (record { object = o; data_part = d } ∷ l)
        (find_dns name i (record { object = o; data_part = d } ∷ l))
unfolding find_dns
one_more name i o (nameip n) l h =
    further name i (record { object = o; data_part = nameip n }) l (find_dns name (i + 1) l) refl h
one_more name i o authority l h =
    further name i (record { object = o; data_part = authority }) l (find_dns name (i + 1) l) refl h
one_more name i o (dns s) l h = elim (Bool-cases (is_within name o.string)) [
  | inl e ↦ rw e (0, omega arith, omega arith, rw e refl)
  | inr e ↦
      let skipped : servers name (record { object = o; data_part = dns s } ∷ l) ≡ servers name l =
        rw e refl in
      rw e (
        further name i (record { object = o; data_part = dns s }) l (find_dns name (i + 1) l)
          skipped h)
]

find_dns-Says : (name : List ℕ) (i : ℕ) (l : List DnsRec) → Says name i l (find_dns name i l)
unfolding find_dns
find_dns-Says name i [] = refl
find_dns-Says name i (rec ∷ l) =
    one_more name i rec.object rec.data_part l (find_dns-Says name (i + 1) l)

drop_end {ℓ} : {A : Type ℓ} (n : ℕ) → drop {A = A} n [] ≡ []
drop_end zero = refl
drop_end (suc n) = refl

drop-drop {ℓ} : {A : Type ℓ} (n k m : ℕ) (l : List A) → m ≡ n + k → drop k (drop n l) ≡ drop m l
drop-drop zero k m l e = ap (λ j. drop j l) (omega (arith, e))
drop-drop (suc n) k m [] e = drop_end k ∙ sym (drop_end m)
drop-drop (suc n) k zero (a ∷ l) e = absurd (omega arith)
drop-drop (suc n) k (suc m) (a ∷ l) e = drop-drop n k m l (omega arith)

length-drop {ℓ} : {A : Type ℓ} (n : ℕ) (l : List A) → length (drop n l) ≡ length l - n
length-drop zero l = omega arith
length-drop (suc n) [] = omega arith
length-drop (suc n) (a ∷ l) = omega (arith, length-drop n l)

-- What `dns_lookup` says of the servers behind its `*last`.
dns_lookup-Says :
    (db : Database) (name : List ℕ) (last : Option ℕ)
    → Says name (after_last last) (drop (after_last last) db.dbv) (dns_lookup db name last)
unfolding dns_lookup
dns_lookup-Says db name last = find_dns-Says name (after_last last) (drop (after_last last) db.dbv)

-- The same in terms of the next `*last`, behind which fewer records are left.
dns_lookup_next :
    (db : Database) (name : List ℕ) (last : Option ℕ) (j : ℕ) (object server : List ℕ)
    → dns_lookup db name last ≡ some (j, object, server)
    → (servers name (drop (after_last last) db.dbv)
        ≡ (object, server) ∷ servers name (drop (j + 1) db.dbv))
      × (length (drop (j + 1) db.dbv) < length (drop (after_last last) db.dbv))
dns_lookup_next db name last j object server e =
    let n : ℕ = after_last last in
    let said : Says name n (drop n db.dbv) (some (j, object, server)) =
      rw e at (dns_lookup-Says db name last) in
    let (k, f, lt, g) = said in
    let same : drop (suc k) (drop n db.dbv) ≡ drop (j + 1) db.dbv =
      drop-drop n (suc k) (j + 1) db.dbv (omega (arith, f)) in
    (rw same at g, omega (arith, f, lt, length-drop n db.dbv, length-drop (j + 1) db.dbv))

no_servers :
    (db : Database) (name : List ℕ) (last : Option ℕ)
    → dns_lookup db name last ≡ none
    → servers name (drop (after_last last) db.dbv) ≡ []
no_servers db name last e = rw e at (dns_lookup-Says db name last)

abbrev pub compile_all : Assembly → ℕ → List (List ℕ × List ℕ) → Assembly
compile_all x pos [] = x
compile_all x pos ((object, server) ∷ l) =
    let (x', pos') = compile_dnsrecord x pos object server in compile_all x' pos' l

abbrev pub compile_all_ns : Assembly → List (List ℕ × List ℕ) → Assembly
compile_all_ns x [] = x
compile_all_ns x ((object, server) ∷ l) = compile_all_ns (compile_ns x server) l

-- Enough rounds compile all the servers behind `*last`.
dnsrecords_loop_all :
    (fuel : ℕ) (db : Database) (object : List ℕ) (last : Option ℕ) (x : Assembly) (pos : ℕ)
    → length (drop (after_last last) db.dbv) ≤ fuel
    → dnsrecords_loop fuel db object last x pos
      ≡ compile_all x pos (servers object (drop (after_last last) db.dbv))
unfolding dnsrecords_loop after_last
dnsrecords_loop_all zero db object last x pos h = elim (Option-cases (dns_lookup db object last)) [
  | inl e ↦ rw (no_servers db object last e) refl
  | inr ((j, o, s), e) ↦ absurd (omega (arith, (dns_lookup_next db object last j o s e).1))
]
dnsrecords_loop_all (suc fuel) db object last x pos h =
    elim (Option-cases (dns_lookup db object last)) [
      | inl e ↦ rw (e, dnsrecords_loop, no_servers db object last e) refl
      | inr ((j, o, s), e) ↦
          let (all, less) = dns_lookup_next db object last j o s e in
          let (x', pos') = compile_dnsrecord x pos o s in
          rw (e, dnsrecords_loop, all)
            (dnsrecords_loop_all fuel db object (some j) x' pos' (omega (arith, less)))
    ]

ns_loop_all :
    (fuel : ℕ) (db : Database) (name : List ℕ) (last : Option ℕ) (x : Assembly)
    → length (drop (after_last last) db.dbv) ≤ fuel
    → ns_loop fuel db name (dns_lookup db name last) x
      ≡ compile_all_ns x (servers name (drop (after_last last) db.dbv))
unfolding ns_loop after_last
ns_loop_all zero db name last x h = elim (Option-cases (dns_lookup db name last)) [
  | inl e ↦ rw (e, ns_loop, no_servers db name last e) refl
  | inr ((j, o, s), e) ↦ absurd (omega (arith, (dns_lookup_next db name last j o s e).1))
]
ns_loop_all (suc fuel) db name last x h = elim (Option-cases (dns_lookup db name last)) [
  | inl e ↦ rw (e, ns_loop, no_servers db name last e) refl
  | inr ((j, o, s), e) ↦
      let (all, less) = dns_lookup_next db name last j o s e in
      rw (e, ns_loop, all)
        (ns_loop_all fuel db name (some j) (compile_ns x s) (omega (arith, less)))
]

-- With as many rounds as the database has records, the loops of `compile_dnsrecords` and of the
-- branch for NS end, and compile each record of a server for the name once, in the order of the database.
pub server_loops_all :
    (db : Database) (name : List ℕ) (x : Assembly)
    → (dnsrecords_loop (length db.dbv) db name none x 0 ≡ compile_all x 0 (servers name db.dbv))
      × (ns_loop (length db.dbv) db name (dns_lookup db name none) x
          ≡ compile_all_ns x (servers name db.dbv))
unfolding after_last
server_loops_all db name x = (
  dnsrecords_loop_all (length db.dbv) db name none x 0 (omega arith),
  ns_loop_all (length db.dbv) db name none x (omega arith),
)
