-- ===== src/Master/Replay.antt =====
-- The database as the list of what was added to it: the additions refine a list of facts, in which
-- names are searched by their text alone.
use mathlib.Core.Option
use mathlib.Core.List.{append-nil}
use dnrd.Prelude.{
  ℕ, ◌≡◌, refl, sym, ap, ◌∙◌, true, List, [], ◌∷◌, ◌++◌, map, Option, none, some, Option-cases, inl,
  inr,
}
use dnrd.Text.{strnlwr}
use dnrd.Master.{
  Database, mkstring, create_nameip, add_record, add_nameip, add_dns, add_authority, ptr_lookup,
  name_lookup, authority_lookup,
}
use dnrd.Master.Search.{
  Fact, host, server, zone, fact_of, facts_of, first_host, first_address, has_zone, is_found,
  IsWellFormed, lookups-facts,
}
use dnrd.Master.Load.{Environment}
use dnrd.Master.Init.{Paths, Master, master_init}
use dnrd.Master.Init.Rounds.{init_grows}
use dnrd.Master.Load.Grows.{Grows, stay, Grows-IsWellFormed}

-- A call that adds to the database.
pub data Addition : Type 0 where
  a_host : List ℕ → List ℕ → Addition
  a_server : List ℕ → List ℕ → Addition
  a_zone : List ℕ → Addition

abbrev add : (List ℕ → Option ℕ) → Database → Addition → Database
add inet_aton db (a_host name ip) = add_nameip inet_aton db name ip
add inet_aton db (a_server domain name) = add_dns db domain name
add inet_aton db (a_zone domain) = add_authority db domain

abbrev pub add_all : (List ℕ → Option ℕ) → Database → List Addition → Database
add_all inet_aton db [] = db
add_all inet_aton db (a ∷ l) = add_all inet_aton (add inet_aton db a) l

-- The fact that an addition stands for, if its address is one.
abbrev replay_one : (List ℕ → Option ℕ) → Addition → List Fact
replay_one inet_aton (a_host name ip) = elim (inet_aton ip) [
  | none ↦ []
  | some n ↦ host (strnlwr name) n ∷ []
]
replay_one inet_aton (a_server domain name) = server (strnlwr domain) (strnlwr name) ∷ []
replay_one inet_aton (a_zone domain) = zone (strnlwr domain) ∷ []

abbrev pub replay : (List ℕ → Option ℕ) → List Fact → List Addition → List Fact
replay inet_aton facts [] = facts
replay inet_aton facts (a ∷ l) = replay inet_aton (facts ++ replay_one inet_aton a) l

map-append {ℓ κ} :
    {A : Type ℓ} {B : Type κ} (f : A → B) (xs ys : List A) → map f (xs ++ ys) ≡ map f xs ++ map f ys
map-append f [] ys = refl
map-append f (x ∷ xs) ys = ap (◌∷◌ (f x)) (map-append f xs ys)

module _ (inet_aton : List ℕ → Option ℕ) where
  add-facts :
      (db : Database) (a : Addition)
      → facts_of (add inet_aton db a) ≡ facts_of db ++ replay_one inet_aton a
  unfolding add_nameip add_dns add_authority add_record mkstring create_nameip
  add-facts db (a_host name ip) = elim (Option-cases (inet_aton ip)) [
    | inl e ↦ rw (e, add_nameip, replay_one) (sym (append-nil (facts_of db)))
    | inr (n, e) ↦ rw (e, add_nameip, replay_one) (map-append fact_of db.dbv _)
  ]
  add-facts db (a_server domain name) = map-append fact_of db.dbv _
  add-facts db (a_zone domain) = map-append fact_of db.dbv _

  add_all-facts :
      (l : List Addition) (db : Database)
      → facts_of (add_all inet_aton db l) ≡ replay inet_aton (facts_of db) l
  add_all-facts [] db = refl
  add_all-facts (a ∷ l) db =
      add_all-facts l (add inet_aton db a)
      ∙ ap (λ (f : List Fact). replay inet_aton f l) (add-facts db a)

  add_grows : (db : Database) (a : Addition) → Grows inet_aton db (add inet_aton db a)
  add_grows db (a_host name ip) = Grows.host db name ip stay
  add_grows db (a_server domain name) = Grows.server db domain name stay
  add_grows db (a_zone domain) = Grows.zone db domain stay

  add_all-IsWellFormed :
      (l : List Addition) (db : Database) → IsWellFormed db → IsWellFormed (add_all inet_aton db l)
  add_all-IsWellFormed [] db h = h
  add_all-IsWellFormed (a ∷ l) db h =
      add_all-IsWellFormed l (add inet_aton db a) (Grows-IsWellFormed inet_aton (add_grows db a) h)

  add_all_end :
      (l : List Addition) (db : Database) (a : Addition)
      → add_all inet_aton db (l ++ (a ∷ [])) ≡ add inet_aton (add_all inet_aton db l) a
  add_all_end [] db a = refl
  add_all_end (b ∷ l) db a = add_all_end l (add inet_aton db b) a

  next :
      (db db' : Database) (a : Addition)
      → (l : List Addition) × (db' ≡ add_all inet_aton db l)
      → (l : List Addition) × (add inet_aton db' a ≡ add_all inet_aton db l)
  next db db' a (l, e) =
      (l ++ (a ∷ []), ap (λ (d : Database). add inet_aton d a) e ∙ sym (add_all_end l db a))

  Grows-add_all :
      {db db' : Database}
      → Grows inet_aton db db'
      → (l : List Addition) × (db' ≡ add_all inet_aton db l)
  Grows-add_all stay = ([], refl)
  Grows-add_all {db} (Grows.host db' name ip g) = next db db' (a_host name ip) (Grows-add_all g)
  Grows-add_all {db} (Grows.server db' d n g) = next db db' (a_server d n) (Grows-add_all g)
  Grows-add_all {db} (Grows.zone db' d g) = next db db' (a_zone d) (Grows-add_all g)

-- Every lookup in a database to which records were added answers as a search of the list of the facts
-- that were added does: the first host of a name, the first host of an address that is written
-- backwards, and whether there is authority for a domain.
pub lookups-replay :
    (inet_aton : List ℕ → Option ℕ) (db : Database) (l : List Addition) (name : List ℕ)
    → IsWellFormed db
    → let db' = add_all inet_aton db l in
      let facts = replay inet_aton (facts_of db) l in
      (Option.map fact_of (name_lookup db' name) ≡ first_host name facts)
      × (Option.map fact_of (ptr_lookup db' name) ≡ first_address name facts)
      × (is_found (authority_lookup db' name) ≡ has_zone name facts)
lookups-replay inet_aton db l name h =
    rw⁻¹ (add_all-facts inet_aton l db)
      (lookups-facts (add_all inet_aton db l) name (add_all-IsWellFormed inet_aton l db h))

-- What `master_init` leaves is the database that some list of additions makes.
pub master_init-add_all :
    (out : Environment) (paths : Paths) (m : Master)
    → m.master_onoff ≡ true
    → (l : List Addition) × ((master_init out paths m).db ≡ add_all out.inet_aton m.db l)
master_init-add_all out paths m on = Grows-add_all out.inet_aton (init_grows out paths m on)
