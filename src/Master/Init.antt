-- ===== src/Master/Init.antt =====
-- dnrd-2.20.3/src/master.c: master_init and master_reinit.
pub mod Rounds
pub mod Authority
use dnrd.Prelude.{
  ℕ, zero, suc, ◌+◌, ◌-◌, ◌*◌, ◌≤◌, Bool, true, false, ◌&&◌, ◌||◌, List, [], ◌∷◌, ◌++◌, Option,
  none, some, arith, leb, ◌==◌, if◌then◌else◌, length, get_elem?, take, codes,
}
use dnrd.Text.{streq}
use dnrd.Text.Words.{skip_ws, noctrln, get_word}
use dnrd.Cache.Config.{is_digit}
use dnrd.Master.{
  CodedString, NameIp, DnsRec, nameip, Database, arpadomain, reset_master, add_nameip, add_dns,
  add_authority, authority_lookup,
}
use dnrd.Master.Lookup.{behind_dot}
use dnrd.Master.Load.{Environment, read_blacklist, read_configuration}

-- `snprintf` of the name of an address, and the step behind its first dot.
unfoldable pub reverse_domain : NameIp → Option (List ℕ)
unfolding behind_dot
reverse_domain n = behind_dot (take 197 (n.arpa.string ++ arpadomain))

-- One round of the loop for `auto_authority`.
unfoldable pub authorise : Database → DnsRec → Database
unfolding reverse_domain add_authority authority_lookup
authorise db rec = elim rec.data_part [
  | nameip n ↦ elim (reverse_domain n) [
    | none ↦ db
    | some domain ↦ elim (authority_lookup db domain) [
      | some r ↦ db
      | none ↦ add_authority db domain
    ]
  ]
  | _ ↦ db
]

-- The loop over the indices: it also meets the records that it appends.
unfoldable pub authorise_loop : ℕ → ℕ → Database → Database
unfolding authorise
authorise_loop zero i db = db
authorise_loop (suc fuel) i db = elim (get_elem? db.dbv i) [
  | none ↦ db
  | some rec ↦ authorise_loop fuel (i + 1) (authorise db rec)
]

-- The variables of the file. (`auto_authority` is always 1.)
pub record Master : Type 0 where
  pub master_onoff : Bool
  pub master_reload : Bool
  pub master_initialised : Bool
  pub db : Database

-- The names of the two files, and what `read_configuration` has in its buffer.
pub record Paths : Type 0 where
  pub master_config : List ℕ
  pub blacklist : List ℕ
  pub buffer : List ℕ

-- What `master_init` reads into a database.
unfoldable pub read_all : Environment → Paths → Database → Database
unfolding add_nameip add_dns read_blacklist read_configuration
read_all out paths db =
    let db' =
      add_dns (add_nameip out.inet_aton db (codes "localhost") (codes "127.0.0.1"))
        (codes "0.0.127.in-addr.arpa") (codes "localhost") in
    read_configuration out paths.master_config paths.buffer (read_blacklist out paths.blacklist db')

-- Each record that was read leads to one more at most, so twice their number of rounds is enough.
unfoldable pub master_init : Environment → Paths → Master → Master
unfolding read_all authorise_loop
master_init out paths m =
    let db = read_all out paths m.db in
    if m.master_onoff
    then record m { master_initialised = true; db = authorise_loop (2 * length db.dbv) 0 db }
    else m

unfoldable pub master_reinit : Environment → Paths → Master → Master
unfolding master_init reset_master
master_reinit out paths m =
    let reread = master_init out paths (record m { db = reset_master m.db }) in
    if m.master_onoff
    then record (if m.master_reload then reread else m) { master_reload = false }
    else record m { master_reload = false }
