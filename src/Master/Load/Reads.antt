-- ===== src/Master/Load/Reads.antt =====
-- Reading the files only adds records to the database.
use dnrd.Prelude.{
  ℕ, zero, suc, ◌+◌, Bool, true, false, List, [], ◌∷◌, Option, none, some, arith, if◌then◌else◌,
  length, get_elem?, Option-cases, inl, inr, ◌==◌, codes,
}
use dnrd.Text.{streq}
use dnrd.Text.Words.{get_word}
use dnrd.Cache.Config.{is_digit}
use dnrd.Master.{
  CodedString, Data, DnsRec, nameip, dns, authority, Database, add_nameip, add_dns, add_authority,
  authority_lookup,
}
use dnrd.Master.Load.{
  Environment, hostnames, add_nameips, line_start, read_host, read_host_lines, read_hosts,
  read_address, add_servers, read_domain, read_hosts_line, read_directive, read_lines,
  read_configuration, read_blacklist_lines, read_blacklist, copy_string, cut_at,
}
use dnrd.Master.Init.{Paths, reverse_domain, authorise, authorise_loop, read_all}
use dnrd.Master.Load.Grows.{Grows, stay, host, server, zone}

module _ (out : Environment) (db : Database) where
  abbrev Reads : Database → Type 0
  Reads = Grows out.inet_aton db

  if-Reads : (b : Bool) (x y : Database) → Reads x → Reads y → Reads (if b then x else y)
  if-Reads true x y hx hy = hx
  if-Reads false x y hx hy = hy

  add_nameips-Reads :
      (names : List (List ℕ)) (db' : Database) (ip : List ℕ)
      → Reads db'
      → Reads (add_nameips out db' ip names)
  unfolding add_nameips
  add_nameips-Reads [] db' ip g = g
  add_nameips-Reads (name ∷ names) db' ip g =
      add_nameips-Reads names (add_nameip out.inet_aton db' name ip) ip (host db' name ip g)

  host_line-Reads :
      (domain p : List ℕ) (db' : Database)
      → Reads db'
      → Reads (elim p as (λ p. Database) [
        | [] ↦ db'
        | c ∷ s ↦ if is_digit c then read_host out domain db' (c ∷ s) else db'
      ])
  unfolding read_host
  host_line-Reads domain [] db' g = g
  host_line-Reads domain (c ∷ s) db' g =
      let (ip, rest) = get_word 100 (c ∷ s) in
      if-Reads (is_digit c) (add_nameips out db' ip (hostnames (length rest) domain rest)) db'
        (add_nameips-Reads (hostnames (length rest) domain rest) db' ip g) g

  read_host_lines-Reads :
      (lines : List (List ℕ)) (domain : List ℕ) (db' : Database)
      → Reads db'
      → Reads (read_host_lines out domain db' lines)
  unfolding read_host_lines
  read_host_lines-Reads [] domain db' g = g
  read_host_lines-Reads (line ∷ lines) domain db' g =
      read_host_lines-Reads lines domain
        (elim (line_start line) as (λ p. Database) [
          | [] ↦ db'
          | c ∷ s ↦ if is_digit c then read_host out domain db' (c ∷ s) else db'
        ])
        (host_line-Reads domain (line_start line) db' g)

  read_hosts-Reads :
      (filename domain : List ℕ) (db' : Database)
      → Reads db'
      → Reads (read_hosts out filename domain db')
  unfolding read_hosts
  read_hosts-Reads filename domain db' g = elim (Option-cases (out.files filename)) [
    | inl e ↦ rw (e, read_hosts) g
    | inr (lines, e) ↦ rw (e, read_hosts) (read_host_lines-Reads lines domain db' g)
  ]

  address-Reads :
      (names : List (List ℕ)) (domain ip : List ℕ) (db' : Database)
      → Reads db'
      → Reads (elim names as (λ n. Database) [
        | [] ↦ add_nameips out db' ip (domain ∷ [])
        | name ∷ rest ↦ add_nameips out db' ip (name ∷ rest)
      ])
  address-Reads [] domain ip db' g = add_nameips-Reads (domain ∷ []) db' ip g
  address-Reads (name ∷ rest) domain ip db' g = add_nameips-Reads (name ∷ rest) db' ip g

  add_servers-Reads :
      (words : List (List ℕ)) (domain : List ℕ) (db' : Database)
      → Reads db'
      → Reads (add_servers domain db' words)
  unfolding add_servers
  add_servers-Reads [] domain db' g = g
  add_servers-Reads (word ∷ words) domain db' g =
      add_servers-Reads words domain
        (if streq word (codes "+auth") then add_authority db' domain else add_dns db' domain word)
        (if-Reads (streq word (codes "+auth")) (add_authority db' domain) (add_dns db' domain word)
          (zone db' domain g) (server db' domain word g))

  read_hosts_line-Reads :
      (domain : List ℕ) (db' : Database) (p : List ℕ)
      → Reads db'
      → Reads (read_hosts_line out domain db' p).1
  unfolding read_hosts_line
  read_hosts_line-Reads domain db' p g =
      let (filename, rest) = get_word 200 p in
      let path : List ℕ = if streq filename (codes "-") then codes "/etc/hosts" else filename in
      ground (
        arith,
        read_hosts-Reads path (copy_string domain 100).0 db' g,
        read_hosts-Reads path (get_word 100 rest).0 db' g,
      )

  read_domain-Reads : (db' : Database) (p : List ℕ) → Reads db' → Reads (read_domain db' p).1
  unfolding read_domain
  read_domain-Reads db' p g =
      let (domain, rest) = get_word 256 p in
      ground (arith, add_servers-Reads (hostnames (length rest) domain rest) domain db' g)

  read_address-Reads :
      (domain : List ℕ) (db' : Database) (p : List ℕ)
      → Reads db'
      → Reads (read_address out domain db' p)
  unfolding read_address
  read_address-Reads domain db' p g =
      let (ip, rest) = get_word 100 p in
      address-Reads (hostnames (length rest) domain rest) domain ip db' g

  read_directive-Reads :
      (domain : List ℕ) (db' : Database) (c : ℕ) (p : List ℕ)
      → Reads db'
      → Reads (read_directive out domain db' c p).1
  unfolding read_directive
  read_directive-Reads domain db' c p g =
      let rest : List ℕ = (get_word 100 p).1 in
      ground (
        arith,
        read_address-Reads domain db' p g,
        read_domain-Reads db' rest g,
        read_hosts_line-Reads domain db' rest g,
      )

  line-Reads :
      (domain p : List ℕ) (db' : Database)
      → Reads db'
      → Reads
          (elim p as (λ p. List ℕ × Database) [
            | [] ↦ (domain, db')
            | c ∷ s ↦ read_directive out domain db' c (c ∷ s)
          ]).1
  line-Reads domain [] db' g = g
  line-Reads domain (c ∷ s) db' g = read_directive-Reads domain db' c (c ∷ s) g

  read_lines-Reads :
      (lines : List (List ℕ)) (domain : List ℕ) (db' : Database)
      → Reads db'
      → Reads (read_lines out domain db' lines)
  unfolding read_lines
  read_lines-Reads [] domain db' g = g
  read_lines-Reads (line ∷ lines) domain db' g =
      let (domain', next) = elim (line_start line) as (λ p. List ℕ × Database) [
        | [] ↦ (domain, db')
        | c ∷ s ↦ read_directive out domain db' c (c ∷ s)
      ] in
      read_lines-Reads lines domain' next (line-Reads domain (line_start line) db' g)

  pub read_configuration-Reads :
      (filename domain : List ℕ) (db' : Database)
      → Reads db'
      → Reads (read_configuration out filename domain db')
  unfolding read_configuration
  read_configuration-Reads filename domain db' g = elim (Option-cases (out.files filename)) [
    | inl e ↦ rw (e, read_configuration) g
    | inr (lines, e) ↦ rw (e, read_configuration) (read_lines-Reads lines domain db' g)
  ]

  pub read_blacklist_lines-Reads :
      (lines : List (List ℕ)) (db' : Database) → Reads db' → Reads (read_blacklist_lines db' lines)
  unfolding read_blacklist_lines
  read_blacklist_lines-Reads [] db' g = g
  read_blacklist_lines-Reads (line ∷ lines) db' g =
      let name = cut_at 10 (cut_at 13 (cut_at b'#' line)) in
      read_blacklist_lines-Reads lines (if length name == 0 then db' else add_authority db' name)
        (if-Reads (length name == 0) db' (add_authority db' name) g (zone db' name g))

  read_blacklist-Reads :
      (filename : List ℕ) (db' : Database) → Reads db' → Reads (read_blacklist out filename db')
  unfolding read_blacklist
  read_blacklist-Reads filename db' g = elim (Option-cases (out.files filename)) [
    | inl e ↦ rw (e, read_blacklist) g
    | inr (lines, e) ↦ rw (e, read_blacklist) (read_blacklist_lines-Reads lines db' g)
  ]

  zone-Reads :
      (o : Option (List ℕ)) (db' : Database)
      → Reads db'
      → Reads (elim o as (λ o. Database) [
        | none ↦ db'
        | some domain ↦ elim (authority_lookup db' domain) [
          | some r ↦ db'
          | none ↦ add_authority db' domain
        ]
      ])
  zone-Reads none db' g = g
  zone-Reads (some domain) db' g = ground (arith, zone db' domain g)

  record-Reads :
      (o : CodedString) (d : Data) (db' : Database)
      → Reads db'
      → Reads (authorise db' (record { object = o; data_part = d }))
  unfolding authorise
  record-Reads o (nameip n) db' g = zone-Reads (reverse_domain n) db' g
  record-Reads o (dns s) db' g = g
  record-Reads o authority db' g = g

  pub authorise-Reads : (rec : DnsRec) (db' : Database) → Reads db' → Reads (authorise db' rec)
  authorise-Reads rec db' g = record-Reads rec.object rec.data_part db' g

  authorise_loop-Reads :
      (fuel i : ℕ) (db' : Database) → Reads db' → Reads (authorise_loop fuel i db')
  unfolding authorise_loop
  authorise_loop-Reads zero i db' g = g
  authorise_loop-Reads (suc fuel) i db' g = elim (Option-cases (get_elem? db'.dbv i)) [
    | inl e ↦ rw (e, authorise_loop) g
    | inr (rec, e) ↦
        rw (e, authorise_loop)
          (authorise_loop-Reads fuel (i + 1) (authorise db' rec) (authorise-Reads rec db' g))
  ]

-- What `master_init` reads only adds to the database.
pub read_all_grows :
    (out : Environment) (paths : Paths) (db : Database)
    → Grows out.inet_aton db (read_all out paths db)
unfolding read_all
read_all_grows out paths db =
    read_configuration-Reads out db _ _ _
      (read_blacklist-Reads out db _ _ (server _ _ _ (host db _ _ stay)))
