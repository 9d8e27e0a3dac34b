-- ===== src/Master/Init/Authority.antt =====
-- After master_init there is authority for the reverse domain of each address.
use dnrd.Prelude.{
  ℕ, zero, suc, Bool, true, ◌≡◌, refl, List, [], ◌∷◌, ◌++◌, Option, none, some, arith, get_elem?,
  take, All, All-append, Bool-cases, Option-cases, inl, inr, ◌==◌,
}
use dnrd.Text.{tolower, strnlwr, streq_refl, get_stringcode}
use dnrd.Text.Lower.{IsLower, strnlwr-IsLower, strnlwr_lower}
use dnrd.Master.{
  NameIp, DnsRec, nameip, authority, Database, mkstring, show_swapped, alloc_dnsrec, add_record,
  add_authority, is_authority, find_last, authority_lookup, arpadomain,
}
use dnrd.Master.Lookup.{behind_dot}
use dnrd.Master.Search.{is_found, IsCoded, IsWellFormed}
use dnrd.Master.Load.{Environment}
use dnrd.Master.Init.{Paths, Master, reverse_domain, authorise, read_all, master_init}
use dnrd.Master.Init.Rounds.{
  IsZone, authorise_all, authorise_all_grows, authorise_all-dbv, master_init-db,
}
use dnrd.Master.Load.Grows.{Grows, stay, Grows-IsWellFormed, Grows-dbv}
use dnrd.Master.Load.Reads.{read_all_grows}

All-take {ℓ} : {A : Type 0} (P : A → Type ℓ) (n : ℕ) (s : List A) → All P s → All P (take n s)
All-take P zero s h = tt
All-take P (suc n) [] h = tt
All-take P (suc n) (c ∷ s) h = (h.0, All-take P n s h.1)

behind_dot-IsLower : (s t : List ℕ) → IsLower s → behind_dot s ≡ some t → IsLower t
unfolding behind_dot
behind_dot-IsLower [] t h e = absurd (ground arith)
behind_dot-IsLower (c ∷ s) t h e = elim (Bool-cases (c == b'.')) [
  | inl o ↦
      let whole : some s ≡ some t = rw o at e in
      let same : t ≡ s = ground (arith, whole) in rw same h.1
  | inr o ↦ behind_dot-IsLower s t h.1 (rw o at e)
]

find_last-append :
    (test : DnsRec → Bool) (l new : List DnsRec)
    → is_found (find_last test l) ≡ true
    → is_found (find_last test (l ++ new)) ≡ true
unfolding find_last
find_last-append test [] new h = absurd (ground arith)
find_last-append test (r ∷ l) new h = ground (arith, find_last-append test l new)

find_last_end :
    (test : DnsRec → Bool) (l : List DnsRec) (rec : DnsRec)
    → test rec ≡ true
    → is_found (find_last test (l ++ (rec ∷ []))) ≡ true
unfolding find_last
find_last_end test [] rec h = ground (arith, h)
find_last_end test (r ∷ l) rec h = ground (arith, find_last_end test l rec h)

-- Authority that was there stays.
pub authority-Grows :
    (inet_aton : List ℕ → Option ℕ) (db db' : Database) (domain : List ℕ)
    → Grows inet_aton db db'
    → is_found (authority_lookup db domain) ≡ true
    → is_found (authority_lookup db' domain) ≡ true
unfolding authority_lookup
authority-Grows inet_aton db db' domain g h =
    let (new, e) = Grows-dbv inet_aton g in
    rw e (find_last-append (is_authority (get_stringcode domain) domain) db.dbv new h)

pub authority-add_authority :
    (db : Database) (domain : List ℕ)
    → is_found (authority_lookup (add_authority db domain) (strnlwr domain)) ≡ true
unfolding authority_lookup add_authority add_record
authority-add_authority db domain =
    find_last_end (is_authority (get_stringcode (strnlwr domain)) (strnlwr domain)) db.dbv
      (alloc_dnsrec domain authority)
      (unfold is_authority in unfold mkstring in ground (arith, streq_refl (strnlwr domain)))

reverse_domain-IsLower :
    (n : NameIp) (domain : List ℕ)
    → n.arpa.string ≡ strnlwr (show_swapped n.ipnum)
    → reverse_domain n ≡ some domain
    → IsLower domain
unfolding reverse_domain
reverse_domain-IsLower n domain h e =
    let low : IsLower n.arpa.string = rw h (strnlwr-IsLower (show_swapped n.ipnum)) in
    behind_dot-IsLower (take 197 (n.arpa.string ++ arpadomain)) domain
      (All-take (λ c. tolower c ≡ c) 197 (n.arpa.string ++ arpadomain)
        (All-append (λ c. tolower c ≡ c) n.arpa.string arpadomain low
          (unfold tolower in ground arith)))
      e

authorise_new :
    (db : Database) (rec : DnsRec) (n : NameIp) (domain : List ℕ)
    → rec.data_part ≡ nameip n
    → reverse_domain n ≡ some domain
    → authority_lookup db domain ≡ none
    → authorise db rec ≡ add_authority db domain
unfolding authorise
authorise_new db rec n domain e d o = rw (e, authorise, d, o) refl

authorise_old :
    (db : Database) (rec r : DnsRec) (n : NameIp) (domain : List ℕ)
    → rec.data_part ≡ nameip n
    → reverse_domain n ≡ some domain
    → authority_lookup db domain ≡ some r
    → authorise db rec ≡ db
unfolding authorise
authorise_old db rec r n domain e d o = rw (e, authorise, d, o) refl

-- A round leaves authority for the address that it meets.
authorise_authority :
    (db : Database) (rec : DnsRec) (n : NameIp) (domain : List ℕ)
    → rec.data_part ≡ nameip n
    → reverse_domain n ≡ some domain
    → IsLower domain
    → is_found (authority_lookup (authorise db rec) domain) ≡ true
authorise_authority db rec n domain e d low = elim (Option-cases (authority_lookup db domain)) [
  | inl o ↦
      rw (authorise_new db rec n domain e d o)
        (rw (strnlwr_lower domain low) at (authority-add_authority db domain))
  | inr (r, o) ↦ rw (authorise_old db rec r n domain e d o) (rw o refl)
]

authorise_all_authority :
    (out : Environment) (l : List DnsRec) (db : Database) (i : ℕ) (rec : DnsRec) (n : NameIp)
    (domain : List ℕ)
    → get_elem? l i ≡ some rec
    → rec.data_part ≡ nameip n
    → reverse_domain n ≡ some domain
    → IsLower domain
    → is_found (authority_lookup (authorise_all l db) domain) ≡ true
authorise_all_authority out [] db i rec n domain at e d low = absurd (ground arith)
authorise_all_authority out (r ∷ l) db zero rec n domain at e d low =
    let same : r ≡ rec = ground (arith, at) in
    authority-Grows out.inet_aton (authorise db r) (authorise_all l (authorise db r)) domain
      (authorise_all_grows out (authorise db r) l (authorise db r) stay)
      (rw same (authorise_authority db rec n domain e d low))
authorise_all_authority out (r ∷ l) db (suc i) rec n domain at e d low =
    authorise_all_authority out l (authorise db r) i rec n domain at e d low

-- The records with an address stand before the zones.
before_zones :
    (l zones : List DnsRec) (i : ℕ) (rec : DnsRec) (n : NameIp)
    → All IsZone zones
    → get_elem? (l ++ zones) i ≡ some rec
    → rec.data_part ≡ nameip n
    → get_elem? l i ≡ some rec
before_zones [] [] i rec n z at e = absurd (ground arith)
before_zones [] (r ∷ zones) zero rec n z at e = absurd (ground (arith, z.0, e, at))
before_zones [] (r ∷ zones) (suc i) rec n z at e =
    absurd (ground (arith, before_zones [] zones i rec n z.1 at e))
before_zones (r ∷ l) zones zero rec n z at e = at
before_zones (r ∷ l) zones (suc i) rec n z at e = before_zones l zones i rec n z at e

coded_address :
    (l : List DnsRec) (i : ℕ) (rec : DnsRec) (n : NameIp)
    → All IsCoded l
    → get_elem? l i ≡ some rec
    → rec.data_part ≡ nameip n
    → n.arpa.string ≡ strnlwr (show_swapped n.ipnum)
coded_address [] i rec n h at e = absurd (ground arith)
coded_address (r ∷ l) zero rec n h at e =
    let same : r ≡ rec = ground (arith, at) in
    let coded : IsCoded rec = rw same at h.0 in (rw e at coded.1).1
coded_address (r ∷ l) (suc i) rec n h at e = coded_address l i rec n h.1 at e

-- `master_init` leaves authority for the reverse domain of every record with an address: the part
-- behind the first dot of the address written backwards with `.in-addr.arpa`.
pub master_init_authorises :
    (out : Environment) (paths : Paths) (m : Master) (i : ℕ) (rec : DnsRec) (n : NameIp)
    (domain : List ℕ)
    → m.master_onoff ≡ true
    → IsWellFormed m.db
    → get_elem? (master_init out paths m).db.dbv i ≡ some rec
    → rec.data_part ≡ nameip n
    → reverse_domain n ≡ some domain
    → is_found (authority_lookup (master_init out paths m).db domain) ≡ true
master_init_authorises out paths m i rec n domain on wf at e d =
    let db : Database = read_all out paths m.db in
    let whole : Database = authorise_all db.dbv db in
    let (zones, z, f) = authorise_all-dbv db.dbv db in
    let read : (master_init out paths m).db ≡ whole = master_init-db out paths m on in
    let there : get_elem? db.dbv i ≡ some rec =
      before_zones db.dbv zones i rec n z (rw f at (rw read at at)) e in
    let coded = (Grows-IsWellFormed out.inet_aton (read_all_grows out paths m.db) wf).1 in
    let low = reverse_domain-IsLower n domain (coded_address db.dbv i rec n coded there e) d in
    rw read (authorise_all_authority out db.dbv db i rec n domain there e d low)
