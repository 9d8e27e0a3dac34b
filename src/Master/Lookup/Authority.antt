-- ===== src/Master/Lookup/Authority.antt =====
-- A name of the blacklist gets a negative answer with authority.
use dnrd.Prelude.{
  ℕ, zero, suc, ◌<◌, true, false, ◌≡◌, refl, ◌∙◌, List, [], ◌∷◌, none, some, arith, ◌==◌,
  if◌then◌else◌, length, get_elem?, take, Option-cases, inl, inr, codes,
}
use dnrd.Text.{strnlwr}
use dnrd.Dns.Flags.{set_aa, set_qr}
use dnrd.Dns.Packet.{Rr}
use dnrd.Master.{
  Database, dns_type_a, dns_type_ptr, add_nameip, add_dns, add_authority, authority_lookup,
  name_lookup,
}
use dnrd.Master.Assembly.{
  begin_assembly, end_assembly, compile_int, compile_name, put, htons, end_rdata,
}
use dnrd.Master.Search.{is_found}
use dnrd.Master.Load.{Environment, cut_at, read_blacklist_lines, read_blacklist, read_configuration}
use dnrd.Master.Init.{Paths, Master, read_all, master_init}
use dnrd.Master.Load.Grows.{stay}
use dnrd.Master.Load.Reads.{read_configuration-Reads, read_blacklist_lines-Reads}
use dnrd.Master.Init.Authority.{authority-Grows, authority-add_authority}
use dnrd.Master.Init.Rounds.{master_init_grows}
use dnrd.Master.Lookup.{negative_answer, behind_dot, authority_answer, lookup_name, lookup_query}

-- The name on a line of the blacklist: what stands before a comment and the end of the line.
abbrev pub listed : List ℕ → List ℕ
listed line = cut_at 10 (cut_at 13 (cut_at b'#' line))

read_blacklist_authority :
    (out : Environment) (lines : List (List ℕ)) (db : Database) (i : ℕ) (line : List ℕ)
    → get_elem? lines i ≡ some line
    → 0 < length (listed line)
    → is_found (authority_lookup (read_blacklist_lines db lines) (strnlwr (listed line))) ≡ true
unfolding read_blacklist_lines
read_blacklist_authority out [] db i line at h = absurd (ground arith)
read_blacklist_authority out (l ∷ lines) db zero line at h =
    let same : l ≡ line = ground (arith, at) in
    let next = if length (listed l) == 0 then db else add_authority db (listed l) in
    let added : next ≡ add_authority db (listed line) = rw same (ground (arith, h)) in
    authority-Grows out.inet_aton next (read_blacklist_lines next lines) (strnlwr (listed line))
      (read_blacklist_lines-Reads out next lines next stay)
      (rw added (authority-add_authority db (listed line)))
read_blacklist_authority out (l ∷ lines) db (suc i) line at h =
    read_blacklist_authority out lines _ i line at h

negative_answer_header :
    (query : Rr)
    → take 12 (negative_answer query) ≡ 0 ∷ 0 ∷ 132 ∷ 0 ∷ 0 ∷ 1 ∷ 0 ∷ 0 ∷ 0 ∷ 0 ∷ 0 ∷ 0 ∷ []
unfolding negative_answer begin_assembly end_assembly compile_int compile_name put htons end_rdata
    set_aa set_qr
negative_answer_header query = refl

read_all_authority :
    (out : Environment) (paths : Paths) (db : Database) (lines : List (List ℕ)) (i : ℕ)
    (line : List ℕ)
    → out.files paths.blacklist ≡ some lines
    → get_elem? lines i ≡ some line
    → 0 < length (listed line)
    → is_found (authority_lookup (read_all out paths db) (strnlwr (listed line))) ≡ true
unfolding read_all read_blacklist
read_all_authority out paths db lines i line there at h =
    let start : Database =
      add_dns (add_nameip out.inet_aton db (codes "localhost") (codes "127.0.0.1"))
        (codes "0.0.127.in-addr.arpa") (codes "localhost") in
    let listed_db : Database = read_blacklist out paths.blacklist start in
    let read : listed_db ≡ read_blacklist_lines start lines = rw (there, read_blacklist) refl in
    authority-Grows out.inet_aton listed_db
      (read_configuration out paths.master_config paths.buffer listed_db) (strnlwr (listed line))
      (read_configuration-Reads out listed_db paths.master_config paths.buffer listed_db stay)
      (rw read (read_blacklist_authority out lines start i line at h))

authority_answer_denies :
    (db : Database) (query : Rr) (domain : List ℕ)
    → behind_dot query.name ≡ some domain
    → is_found (authority_lookup db query.name) ≡ true
    → authority_answer db query ≡ some (negative_answer query)
unfolding authority_answer
authority_answer_denies db query domain dot known =
    elim (Option-cases (authority_lookup db query.name)) [
      | inl e ↦ absurd (ground (arith, rw e at known))
      | inr (r, e) ↦ rw (dot, e, authority_answer) refl
    ]

lookup_query_unknown :
    (db : Database) (query : Rr)
    → query.type ≡ dns_type_a
    → name_lookup db query.name ≡ none
    → lookup_query db query ≡ authority_answer db query
unfolding lookup_query lookup_name
lookup_query_unknown db query type e =
    let not_ptr : (query.type == dns_type_ptr) ≡ false = ground (arith, type) in
    let is_a : (query.type == dns_type_a) ≡ true = ground (arith, type) in
    rw (not_ptr, is_a, e, lookup_name) refl

-- After `master_init`, a query for the address of a name with a dot that stands on a line of the blacklist (in
-- any case), and that no record gives an address, is answered: the header of the answer says
-- that it is a reply with authority, with the question and without any record.
pub lookup_query_blacklisted :
    (out : Environment) (paths : Paths) (m : Master) (lines : List (List ℕ)) (i : ℕ)
    (line domain : List ℕ) (query : Rr)
    → m.master_onoff ≡ true
    → out.files paths.blacklist ≡ some lines
    → get_elem? lines i ≡ some line
    → 0 < length (listed line)
    → query.type ≡ dns_type_a
    → query.name ≡ strnlwr (listed line)
    → behind_dot query.name ≡ some domain
    → name_lookup (master_init out paths m).db query.name ≡ none
    → (packet : List ℕ) × (lookup_query (master_init out paths m).db query ≡ some packet)
      × (take 12 packet ≡ 0 ∷ 0 ∷ 132 ∷ 0 ∷ 0 ∷ 1 ∷ 0 ∷ 0 ∷ 0 ∷ 0 ∷ 0 ∷ 0 ∷ [])
lookup_query_blacklisted out paths m lines i line domain query on there at h type name dot
      none_host =
    let db : Database = (master_init out paths m).db in
    let known : is_found (authority_lookup db query.name) ≡ true = rw name (
      authority-Grows out.inet_aton (read_all out paths m.db) db (strnlwr (listed line))
        (master_init_grows out paths m on)
        (read_all_authority out paths m.db lines i line there at h)) in
    (
      negative_answer query,
      lookup_query_unknown db query type none_host
          ∙ authority_answer_denies db query domain dot known,
      negative_answer_header query,
    )
