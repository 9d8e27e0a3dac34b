-- ===== src/Master/Load.antt =====
-- dnrd-2.20.3/src/master.c: reading the configuration, the hosts files and the blacklist. A file is
-- the list of the strings that `fgets` gives, and `none` where `fopen` fails.
pub mod Names
pub mod Grows
pub mod Reads
use dnrd.Prelude.{
  ℕ, zero, suc, ◌+◌, ◌-◌, ◌*◌, ◌≤◌, Bool, true, false, ◌&&◌, ◌||◌, List, [], ◌∷◌, ◌++◌, Option,
  none, some, arith, leb, ◌==◌, if◌then◌else◌, length, get_elem?, take, codes,
}
use dnrd.Text.{streq}
use dnrd.Text.Words.{skip_ws, noctrln, get_word}
use dnrd.Cache.Config.{is_digit}
use dnrd.Master.{
  CodedString, NameIp, DnsRec, nameip, Database, arpadomain, reset_master, add_nameip, add_dns,
  add_authority, authority_lookup,
}
use dnrd.Master.Lookup.{behind_dot}

-- What the functions meet outside: the C library's `inet_aton`, and the files by name.
pub record Environment : Type 0 where
  pub inet_aton : List ℕ → Option ℕ
  pub files : List ℕ → Option (List (List ℕ))

-- `copy_string(y, x, len)`: what `y` holds after it, and what `x` does.
unfoldable pub copy_string : List ℕ → ℕ → List ℕ × List ℕ
copy_string x len =
    let z = take (len - 2) (noctrln (skip_ws x)) in (z, take (length x - length (skip_ws x)) x ++ z)

-- `strlen(word) > 0 && word[len - 1] == c`: what stands before the last byte, if that is `c`.
unfoldable pub before_last : ℕ → List ℕ → Option (List ℕ)
before_last c [] = none
before_last c (d ∷ []) = if d == c then some [] else none
before_last c (d ∷ e ∷ s) = elim (before_last c (e ∷ s)) [ none ↦ none | some t ↦ some (d ∷ t) ]

-- `snprintf(name, size, "%s%s%s", word, domain[0] ? "." : "", domain)`.
unfoldable pub with_domain : ℕ → List ℕ → List ℕ → List ℕ
with_domain size word [] = take (size - 1) word
with_domain size word (d ∷ domain) = take (size - 1) (word ++ (b'.' ∷ d ∷ domain))

unfoldable pub has_dot : List ℕ → Bool
has_dot [] = false
has_dot (c ∷ s) = c == b'.' || has_dot s

-- The name that `get_hostname` makes of a word; `size` is already reduced by 2.
unfoldable pub hostname_of : List ℕ → ℕ → List ℕ → List ℕ
unfolding copy_string before_last with_domain has_dot
hostname_of domain size [] = []
hostname_of domain size (c ∷ s) =
    if c == b'+' then (copy_string (c ∷ s) size).0 else elim (before_last b'+' (c ∷ s)) [
      | some word ↦ with_domain size word domain
      | none ↦ elim (before_last b'.' (c ∷ s)) [
        | some word ↦ (copy_string word (size - 1)).0
        | none ↦
            if has_dot (c ∷ s)
            then (copy_string (c ∷ s) size).0
            else with_domain size (c ∷ s) domain
      ]
    ]

-- `get_hostname`: the name, and where `*from` points after it.
unfoldable pub get_hostname : List ℕ → ℕ → List ℕ → List ℕ × List ℕ
unfolding hostname_of get_word
get_hostname domain size from =
    let (word, rest) = get_word 100 from in (hostname_of domain (size - 2) word, rest)

-- The loops `while (*get_hostname(&p, domain, word, sizeof(word)) != 0)`: the names that they see.
-- Each word takes a byte of the line, so its length is fuel enough.
unfoldable pub hostnames : ℕ → List ℕ → List ℕ → List (List ℕ)
unfolding get_hostname
hostnames zero domain p = []
hostnames (suc fuel) domain p =
    let (name, rest) = get_hostname domain 100 p in
    let others = hostnames fuel domain rest in if length name == 0 then [] else name ∷ others

unfoldable pub add_nameips : Environment → Database → List ℕ → List (List ℕ) → Database
unfolding add_nameip
add_nameips out db ipnum [] = db
add_nameips out db ipnum (name ∷ names) =
    add_nameips out (add_nameip out.inet_aton db name ipnum) ipnum names

-- Where a line begins; a comment is like an empty line.
unfoldable pub line_start : List ℕ → List ℕ
line_start line = elim (skip_ws (noctrln line)) [
  | [] ↦ []
  | c ∷ s ↦ if c == b'#' then [] else c ∷ s
]

-- A line that begins with a digit: an address, and names.
unfoldable pub read_host : Environment → List ℕ → Database → List ℕ → Database
unfolding hostnames add_nameips
read_host out domain db p =
    let (ipnum, rest) = get_word 100 p in
    add_nameips out db ipnum (hostnames (length rest) domain rest)

unfoldable pub read_host_lines : Environment → List ℕ → Database → List (List ℕ) → Database
unfolding line_start read_host
read_host_lines out domain db [] = db
read_host_lines out domain db (line ∷ lines) =
    let db' = elim (line_start line) as (λ p. Database) [
      | [] ↦ db
      | c ∷ s ↦ if is_digit c then read_host out domain db (c ∷ s) else db
    ] in
    read_host_lines out domain db' lines

unfoldable pub read_hosts : Environment → List ℕ → List ℕ → Database → Database
unfolding read_host_lines
read_hosts out filename domain db = elim (out.files filename) [
  | none ↦ db
  | some lines ↦ read_host_lines out domain db lines
]

-- A line of addresses in the configuration: without a name the domain takes the address.
unfoldable pub read_address : Environment → List ℕ → Database → List ℕ → Database
unfolding hostnames add_nameips
read_address out domain db p =
    let (ipnum, rest) = get_word 100 p in
    elim (hostnames (length rest) domain rest) [
      | [] ↦ add_nameips out db ipnum (domain ∷ [])
      | name ∷ names ↦ add_nameips out db ipnum (name ∷ names)
    ]

unfoldable pub add_servers : List ℕ → Database → List (List ℕ) → Database
unfolding add_authority add_dns
add_servers domain db [] = db
add_servers domain db (word ∷ words) =
    add_servers domain
      (if streq word (codes "+auth") then add_authority db domain else add_dns db domain word) words

-- The directive `domain`: the domain from now on, and its servers.
unfoldable pub read_domain : Database → List ℕ → List ℕ × Database
unfolding add_servers
read_domain db p =
    let (domain, rest) = get_word 256 p in
    (
      domain,
      if length domain == 0
          then db
          else add_servers domain db (hostnames (length rest) domain rest),
    )

-- The directive `hosts`. Where it names no domain, `copy_string` trims the one that it copies.
unfoldable pub read_hosts_line : Environment → List ℕ → Database → List ℕ → List ℕ × Database
unfolding read_hosts copy_string
read_hosts_line out domain db p =
    let (filename, rest) = get_word 200 p in
    let path = if streq filename (codes "-") then codes "/etc/hosts" else filename in
    let (word, end) = get_word 100 rest in
    let (copy, domain') = copy_string domain 100 in
    if length filename == 0
    then (domain, db)
    else if length word == 0
    then (domain', read_hosts out path copy db)
    else (domain, read_hosts out path word db)

-- A line of the configuration, from its first byte on.
unfoldable pub read_directive : Environment → List ℕ → Database → ℕ → List ℕ → List ℕ × Database
unfolding read_address read_domain read_hosts_line
read_directive out domain db c p =
    let (word, rest) = get_word 100 p in
    if is_digit c
    then (domain, read_address out domain db p)
    else if streq word (codes "domain")
    then read_domain db rest
    else if streq word (codes "hosts")
    then read_hosts_line out domain db rest
    else (domain, db)

unfoldable pub read_lines : Environment → List ℕ → Database → List (List ℕ) → Database
unfolding line_start read_directive
read_lines out domain db [] = db
read_lines out domain db (line ∷ lines) =
    let (domain', db') = elim (line_start line) as (λ p. List ℕ × Database) [
      | [] ↦ (domain, db)
      | c ∷ s ↦ read_directive out domain db c (c ∷ s)
    ] in
    read_lines out domain' db' lines

-- `read_configuration`. Nothing sets the buffer `domain` before the first directive `domain`: the
-- argument is the string that it happens to hold.
unfoldable pub read_configuration : Environment → List ℕ → List ℕ → Database → Database
unfolding read_lines
read_configuration out filename domain db = elim (out.files filename) [
  | none ↦ db
  | some lines ↦ read_lines out domain db lines
]

-- `if ((p = strchr(buf, c)) != NULL) *p = '\0'`.
unfoldable pub cut_at : ℕ → List ℕ → List ℕ
cut_at c [] = []
cut_at c (d ∷ s) = let rest = cut_at c s in if d == c then [] else d ∷ rest

unfoldable pub read_blacklist_lines : Database → List (List ℕ) → Database
unfolding cut_at add_authority
read_blacklist_lines db [] = db
read_blacklist_lines db (line ∷ lines) =
    let name = cut_at 10 (cut_at 13 (cut_at b'#' line)) in
    read_blacklist_lines (if length name == 0 then db else add_authority db name) lines

unfoldable pub read_blacklist : Environment → List ℕ → Database → Database
unfolding read_blacklist_lines
read_blacklist out filename db = elim (out.files filename) [
  | none ↦ db
  | some lines ↦ read_blacklist_lines db lines
]
