-- ===== src/Master/Load/Grows.antt =====
-- Additions to the database: what it knew it still knows, and its records stay well formed.
use mathlib.Core.List.{append_assoc, append-nil}
use dnrd.Prelude.{
  ℕ, ◌≡◌, refl, sym, ap, ◌∙◌, List, [], ◌∷◌, ◌++◌, Option, none, some, arith, length-append,
  All-append, Option-cases, inl, inr,
}
use dnrd.Master.{
  DnsRec, nameip, Database, mkstring, show_swapped, create_nameip, alloc_dnsrec, add_record,
  add_nameip, add_dns, add_authority,
}
use dnrd.Master.Search.{IsCoded, IsWellFormed}

-- What a database becomes as records are added.
pub data Grows (inet_aton : List ℕ → Option ℕ) (db : Database) : Database → Type 0 where
  stay : Grows inet_aton db db
  host :
      (db' : Database) (name ip : List ℕ)
      → Grows inet_aton db db'
      → Grows inet_aton db (add_nameip inet_aton db' name ip)
  server :
      (db' : Database) (domain name : List ℕ)
      → Grows inet_aton db db'
      → Grows inet_aton db (add_dns db' domain name)
  zone :
      (db' : Database) (domain : List ℕ)
      → Grows inet_aton db db'
      → Grows inet_aton db (add_authority db' domain)

add_record-IsWellFormed :
    (db : Database) (rec : DnsRec)
    → IsWellFormed db
    → IsCoded rec
    → IsWellFormed (add_record db rec)
unfolding add_record
add_record-IsWellFormed db rec h r = (
  ground (arith, h.0, length-append db.dbv (rec ∷ [])),
  All-append IsCoded db.dbv (rec ∷ []) h.1 (r, tt),
)

module _ (inet_aton : List ℕ → Option ℕ) where
  add_nameip-IsWellFormed :
      (db : Database) (name ip : List ℕ)
      → IsWellFormed db
      → IsWellFormed (add_nameip inet_aton db name ip)
  unfolding add_nameip create_nameip
  add_nameip-IsWellFormed db name ip h = elim (Option-cases (inet_aton ip)) [
    | inl e ↦ rw (e, add_nameip) h
    | inr (n, e) ↦
        rw (e, add_nameip)
          (add_record-IsWellFormed db _ h (unfold mkstring in (refl, (refl, refl))))
  ]

  pub Grows-IsWellFormed :
      {db db' : Database} → Grows inet_aton db db' → IsWellFormed db → IsWellFormed db'
  unfolding add_dns add_authority mkstring
  Grows-IsWellFormed stay h = h
  Grows-IsWellFormed (host db' name ip g) h =
      add_nameip-IsWellFormed db' name ip (Grows-IsWellFormed g h)
  Grows-IsWellFormed (server db' domain name g) h =
      add_record-IsWellFormed db' _ (Grows-IsWellFormed g h) (refl, refl)
  Grows-IsWellFormed (zone db' domain g) h =
      add_record-IsWellFormed db' _ (Grows-IsWellFormed g h) (refl, tt)

  -- What is added stands behind what there was.
  add_nameip-dbv :
      (db : Database) (name ip : List ℕ)
      → (new : List DnsRec) × ((add_nameip inet_aton db name ip).dbv ≡ db.dbv ++ new)
  unfolding add_nameip create_nameip add_record
  add_nameip-dbv db name ip = go (inet_aton ip) refl
    where
      go :
          (o : Option ℕ)
          → inet_aton ip ≡ o
          → (new : List DnsRec) × ((add_nameip inet_aton db name ip).dbv ≡ db.dbv ++ new)
      go none e = ([], rw (e, add_nameip) (sym (append-nil db.dbv)))
      go (some n) e = (
        alloc_dnsrec name (nameip (record { arpa = mkstring (show_swapped n); ipnum = n })) ∷ [],
        rw (e, add_nameip) refl,
      )

  more :
      (l m n new : List DnsRec)
      → (old : List DnsRec) × (l ≡ n ++ old)
      → m ≡ l ++ new
      → (all : List DnsRec) × (m ≡ n ++ all)
  more l m n new (old, e) f = (old ++ new, f ∙ ap (λ x. x ++ new) e ∙ append_assoc n old new)

  pub Grows-dbv :
      {db db' : Database} → Grows inet_aton db db' → (new : List DnsRec) × (db'.dbv ≡ db.dbv ++ new)
  unfolding add_dns add_authority add_record
  Grows-dbv {db} stay = ([], sym (append-nil db.dbv))
  Grows-dbv {db} (host db' name ip g) =
      let (new, e) = add_nameip-dbv db' name ip in more db'.dbv _ db.dbv new (Grows-dbv g) e
  Grows-dbv {db} (server db' domain name g) = more db'.dbv _ db.dbv _ (Grows-dbv g) refl
  Grows-dbv {db} (zone db' domain g) = more db'.dbv _ db.dbv _ (Grows-dbv g) refl
