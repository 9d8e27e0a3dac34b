-- ===== src/Master/Init/Rounds.antt =====
-- The last loop of master_init meets the records that were read, and only adds authorities.
use mathlib.Core.List.{append_assoc, append-nil}
use dnrd.Prelude.{
  ℕ, zero, suc, ◌*◌, ◌≤◌, true, ◌≡◌, refl, sym, ap, ◌∙◌, List, [], ◌∷◌, ◌++◌, Option, none, some,
  arith, length, length-append, get_elem?, All, All-append, Bool-cases, Option-cases, inl, inr,
}
use dnrd.Master.{
  CodedString, Data, DnsRec, nameip, dns, authority, Database, alloc_dnsrec, add_record,
  add_authority, authority_lookup,
}
use dnrd.Master.Search.{IsWellFormed}
use dnrd.Master.Load.{Environment}
use dnrd.Master.Init.{
  Paths, Master, reverse_domain, authorise, authorise_loop, read_all, master_init,
}
use dnrd.Master.Load.Grows.{Grows, stay, Grows-IsWellFormed}
use dnrd.Master.Load.Reads.{authorise-Reads, read_all_grows}

-- One record of the loop after another, without the records that the loop appends.
abbrev pub authorise_all : List DnsRec → Database → Database
authorise_all [] db = db
authorise_all (rec ∷ l) db = authorise_all l (authorise db rec)

-- A record that gives an address no name.
abbrev pub IsZone : DnsRec → Type 0
IsZone rec = rec.data_part ≡ authority

authorise_zone : (db : Database) (rec : DnsRec) → IsZone rec → authorise db rec ≡ db
unfolding authorise
authorise_zone db rec z = rw z refl

get_elem?-append : {A : Type 0} (pre t : List A) → get_elem? (pre ++ t) (length pre) ≡ get_elem? t 0
get_elem?-append [] t = refl
get_elem?-append (p ∷ pre) t = get_elem?-append pre t

-- A step of the index.
next_index :
    (db : Database) (pre l : List DnsRec) (rec : DnsRec)
    → db.dbv ≡ pre ++ (rec ∷ l)
    → db.dbv ≡ (pre ++ (rec ∷ [])) ++ l
next_index db pre l rec e = e ∙ sym (append_assoc pre (rec ∷ []) l)

-- Over the records that it has appended the loop does nothing.
authorise_loop_zones :
    (zones : List DnsRec) (fuel : ℕ) (pre : List DnsRec) (db : Database)
    → All IsZone zones
    → db.dbv ≡ pre ++ zones
    → authorise_loop fuel (length pre) db ≡ db
unfolding authorise_loop
authorise_loop_zones zones zero pre db z e = refl
authorise_loop_zones [] (suc fuel) pre db z e = ground (arith, e, get_elem?-append pre [])
authorise_loop_zones (rec ∷ zones) (suc fuel) pre db z e = ground (
  arith,
  e,
  get_elem?-append pre (rec ∷ zones),
  authorise_zone db rec z.0,
  length-append pre (rec ∷ []),
  authorise_loop_zones zones fuel (pre ++ (rec ∷ [])) db z.1 (next_index db pre zones rec e),
)

-- What a round appends.
authorise-dbv :
    (db : Database) (rec : DnsRec)
    → (new : List DnsRec) × All IsZone new × ((authorise db rec).dbv ≡ db.dbv ++ new)
unfolding authorise add_authority add_record
authorise-dbv db rec = go rec.object rec.data_part
  where
    zone :
        (o : Option (List ℕ))
        → (new : List DnsRec) × All IsZone new
          × ((elim o as (λ o. Database) [
            | none ↦ db
            | some domain ↦ elim (authority_lookup db domain) [
              | some r ↦ db
              | none ↦ add_authority db domain
            ]
          ]).dbv
              ≡ db.dbv ++ new)
    zone none = ([], tt, sym (append-nil db.dbv))
    zone (some domain) = elim (Option-cases (authority_lookup db domain)) [
      | inl e ↦ (alloc_dnsrec domain authority ∷ [], (refl, tt), rw e refl)
      | inr (r, e) ↦ ([], tt, rw e (sym (append-nil db.dbv)))
    ]

    go :
        (o : CodedString) (d : Data)
        → (new : List DnsRec) × All IsZone new
          × ((authorise db (record { object = o; data_part = d })).dbv ≡ db.dbv ++ new)
    go o (nameip n) = zone (reverse_domain n)
    go o (dns s) = ([], tt, sym (append-nil db.dbv))
    go o authority = ([], tt, sym (append-nil db.dbv))

authorise_loop_all :
    (l : List DnsRec) (fuel : ℕ) (pre zones : List DnsRec) (db : Database)
    → length l ≤ fuel
    → All IsZone zones
    → db.dbv ≡ pre ++ (l ++ zones)
    → authorise_loop fuel (length pre) db ≡ authorise_all l db
unfolding authorise_loop
authorise_loop_all [] fuel pre zones db h z e = authorise_loop_zones zones fuel pre db z e
authorise_loop_all (rec ∷ l) zero pre zones db h z e = absurd (omega arith)
authorise_loop_all (rec ∷ l) (suc fuel) pre zones db h z e =
    let (new, fresh, f) = authorise-dbv db rec in
    let found : get_elem? db.dbv (length pre) ≡ some rec =
      ap (λ (v : List DnsRec). get_elem? v (length pre)) e
      ∙ get_elem?-append pre (rec ∷ (l ++ zones)) in
    let behind : (authorise db rec).dbv ≡ (pre ++ (rec ∷ [])) ++ (l ++ (zones ++ new)) =
      f
      ∙ ap (λ (v : List DnsRec). v ++ new) (next_index db pre (l ++ zones) rec e)
      ∙ append_assoc (pre ++ (rec ∷ [])) (l ++ zones) new
      ∙ ap (λ (v : List DnsRec). (pre ++ (rec ∷ [])) ++ v) (append_assoc l zones new) in
    let rest =
      authorise_loop_all l fuel (pre ++ (rec ∷ [])) (zones ++ new) (authorise db rec) (omega arith)
        (All-append IsZone zones new z fresh) behind in
    rw (found, authorise_loop)
      (ap (λ n. authorise_loop fuel n (authorise db rec))
          (omega (arith, length-append pre (rec ∷ [])))
        ∙ rest)

-- With enough fuel the loop over the growing array is the loop over the records that were there.
pub authorise_loop_lem :
    (fuel : ℕ) (db : Database)
    → length db.dbv ≤ fuel
    → authorise_loop fuel 0 db ≡ authorise_all db.dbv db
authorise_loop_lem fuel db h =
    authorise_loop_all db.dbv fuel [] [] db h tt (sym (append-nil db.dbv))

pub authorise_all_grows :
    (out : Environment) (start : Database) (l : List DnsRec) (db : Database)
    → Grows out.inet_aton start db
    → Grows out.inet_aton start (authorise_all l db)
authorise_all_grows out start [] db g = g
authorise_all_grows out start (rec ∷ l) db g =
    authorise_all_grows out start l (authorise db rec) (authorise-Reads out start rec db g)

pub authorise_all-dbv :
    (l : List DnsRec) (db : Database)
    → (zones : List DnsRec) × All IsZone zones × ((authorise_all l db).dbv ≡ db.dbv ++ zones)
authorise_all-dbv [] db = ([], tt, sym (append-nil db.dbv))
authorise_all-dbv (rec ∷ l) db =
    let (new, z, e) = authorise-dbv db rec in
    let (zones, y, f) = authorise_all-dbv l (authorise db rec) in
    (
      new ++ zones,
      All-append IsZone new zones z y,
      f ∙ ap (λ (v : List DnsRec). v ++ zones) e ∙ append_assoc db.dbv new zones,
    )

-- What `master_init` leaves where the master is on.
pub master_init-db :
    (out : Environment) (paths : Paths) (m : Master)
    → m.master_onoff ≡ true
    → let db : Database = read_all out paths m.db in
      (master_init out paths m).db ≡ authorise_all db.dbv db
unfolding master_init
master_init-db out paths m on =
    let db : Database = read_all out paths m.db in
    rw on (authorise_loop_lem (2 * length db.dbv) db (omega arith))

-- The last loop of `master_init` only adds.
pub master_init_grows :
    (out : Environment) (paths : Paths) (m : Master)
    → m.master_onoff ≡ true
    → Grows out.inet_aton (read_all out paths m.db) (master_init out paths m).db
master_init_grows out paths m on =
    let db : Database = read_all out paths m.db in
    rw (master_init-db out paths m on) (authorise_all_grows out db db.dbv db stay)

-- All of `master_init` only adds.
pub init_grows :
    (out : Environment) (paths : Paths) (m : Master)
    → m.master_onoff ≡ true
    → Grows out.inet_aton m.db (master_init out paths m).db
init_grows out paths m on =
    let db : Database = read_all out paths m.db in
    rw (master_init-db out paths m on)
      (authorise_all_grows out m.db db.dbv db (read_all_grows out paths m.db))

-- What was well formed is well formed after `master_init`.
pub master_init-IsWellFormed :
    (out : Environment) (paths : Paths) (m : Master)
    → IsWellFormed m.db
    → IsWellFormed (master_init out paths m).db
master_init-IsWellFormed out paths m h = elim (Bool-cases m.master_onoff) [
  | inl on ↦ Grows-IsWellFormed out.inet_aton (init_grows out paths m on) h
  | inr off ↦ unfold master_init in rw (off, master_init) h
]
