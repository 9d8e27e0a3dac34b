-- ===== src/Master.antt =====
-- dnrd-2.20.3/src/master.c: the database of the local DNS and the searches in it. The array `dbv`
-- is the list of its elements below `dbc`.
pub mod Search
pub mod Replay
pub mod Assembly
pub mod Lookup
pub mod Load
pub mod Init
use dnrd.Prelude.{
  ℕ, zero, suc, ◌+◌, ◌-◌, ◌*◌, ◌/◌, ◌%◌, ◌≤◌, Bool, true, false, ◌&&◌, ◌||◌, List, [], ◌∷◌, ◌++◌,
  Option, none, some, arith, leb, ltb, ◌==◌, if◌then◌else◌, length, drop, get_or, codes,
}
use dnrd.Text.{strnlwr, streq, get_stringcode}

abbrev pub dns_type_a : ℕ
dns_type_a = 1

abbrev pub dns_type_ns : ℕ
dns_type_ns = 2

abbrev pub dns_type_ptr : ℕ
dns_type_ptr = 12

abbrev pub default_ttl : ℕ
default_ttl = 3600

abbrev pub arpadomain : List ℕ
arpadomain = codes ".in-addr.arpa"

-- `string_t`.
pub record CodedString : Type 0 where
  pub code : ℕ
  pub string : List ℕ

-- `nameip_t`; `ipnum` is in the host's order.
pub record NameIp : Type 0 where
  pub arpa : CodedString
  pub ipnum : ℕ

-- The `type` of a record with the member of the union that it selects.
pub data Data : Type 0 where
  nameip : NameIp → Data
  dns : CodedString → Data
  authority : Data

-- `dnsrec_t`.
pub record DnsRec : Type 0 where
  pub object : CodedString
  pub data_part : Data

-- The variables `dbmax` and `dbv`; `dbc` is the length of `dbv`.
pub record Database : Type 0 where
  pub dbmax : ℕ
  pub dbv : List DnsRec

unfoldable pub mkstring : List ℕ → CodedString
mkstring name = record { code = get_stringcode (strnlwr name); string = strnlwr name }

-- A byte in decimal.
unfoldable pub show_byte : ℕ → List ℕ
show_byte n =
    if ltb n 10
    then (b'0' + n) ∷ []
    else if ltb n 100
    then (b'0' + n / 10) ∷ (b'0' + n % 10) ∷ []
    else (b'0' + n / 100) ∷ (b'0' + n / 10 % 10) ∷ (b'0' + n % 10) ∷ []

-- `inet_ntoa` of the number with its bytes swapped: the lowest byte is written first.
unfoldable pub show_swapped : ℕ → List ℕ
unfolding show_byte
show_swapped ipnum =
    show_byte (ipnum % 256)
    ++ (b'.'
        ∷ (show_byte (ipnum / 256 % 256)
            ++ (b'.'
                ∷ (show_byte (ipnum / 65536 % 256)
                    ++ (b'.' ∷ show_byte (ipnum / 16777216 % 256))))))

-- `inet_aton` gives the number in the host's order, or `none` where it returns 0.
unfoldable pub create_nameip : (List ℕ → Option ℕ) → List ℕ → Option NameIp
unfolding show_swapped mkstring
create_nameip inet_aton ip = elim (inet_aton ip) [
  | none ↦ none
  | some ipnum ↦ some (record { arpa = mkstring (show_swapped ipnum); ipnum = ipnum })
]

unfoldable pub alloc_dnsrec : List ℕ → Data → DnsRec
unfolding mkstring
alloc_dnsrec name data_part = record { object = mkstring name; data_part = data_part }

-- `reset_master`.
unfoldable pub reset_master : Database → Database
reset_master db = record { dbmax = 0; dbv = [] }

unfoldable pub add_record : Database → DnsRec → Database
add_record db rec = record {
  dbmax = if leb db.dbmax (length db.dbv) then db.dbmax + 10 else db.dbmax;
  dbv = db.dbv ++ (rec ∷ []);
}

-- An address that `inet_aton` refuses adds nothing.
unfoldable pub add_nameip : (List ℕ → Option ℕ) → Database → List ℕ → List ℕ → Database
unfolding alloc_dnsrec create_nameip add_record
add_nameip inet_aton db name ipnum = elim (create_nameip inet_aton ipnum) [
  | none ↦ db
  | some n ↦ add_record db (alloc_dnsrec name (nameip n))
]

unfoldable pub add_dns : Database → List ℕ → List ℕ → Database
unfolding alloc_dnsrec mkstring add_record
add_dns db domain server = add_record db (alloc_dnsrec domain (dns (mkstring server)))

unfoldable pub add_authority : Database → List ℕ → Database
unfolding alloc_dnsrec add_record
add_authority db domain = add_record db (alloc_dnsrec domain authority)

-- The tests of `string_t`: the codes first.
unfoldable pub has_code : ℕ → List ℕ → CodedString → Bool
has_code code name s = s.code == code && streq s.string name

unfoldable pub is_ptr : ℕ → List ℕ → DnsRec → Bool
unfolding has_code
is_ptr code arpanum rec = elim rec.data_part [ nameip n ↦ has_code code arpanum n.arpa | _ ↦ false ]

unfoldable pub is_name : ℕ → List ℕ → DnsRec → Bool
unfolding has_code
is_name code name rec = elim rec.data_part [ nameip n ↦ has_code code name rec.object | _ ↦ false ]

unfoldable pub is_authority : ℕ → List ℕ → DnsRec → Bool
unfolding has_code
is_authority code domain rec = elim rec.data_part [
  | authority ↦ has_code code domain rec.object
  | _ ↦ false
]

-- The loops over the array: the first record that passes the test, and the last one.
unfoldable pub find_first : (DnsRec → Bool) → List DnsRec → Option DnsRec
find_first test [] = none
find_first test (rec ∷ l) = if test rec then some rec else find_first test l

unfoldable pub find_last : (DnsRec → Bool) → List DnsRec → Option DnsRec
find_last test [] = none
find_last test (rec ∷ l) = elim (find_last test l) [
  | some r ↦ some r
  | none ↦ if test rec then some rec else none
]

unfoldable pub ptr_lookup : Database → List ℕ → Option DnsRec
unfolding is_ptr find_first
ptr_lookup db arpanum = find_first (is_ptr (get_stringcode arpanum) arpanum) db.dbv

unfoldable pub name_lookup : Database → List ℕ → Option DnsRec
unfolding is_name find_first
name_lookup db name = find_first (is_name (get_stringcode name) name) db.dbv

unfoldable pub authority_lookup : Database → List ℕ → Option DnsRec
unfolding is_authority find_last
authority_lookup db domain = find_last (is_authority (get_stringcode domain) domain) db.dbv

-- Whether a name is an object, or ends in it behind a dot.
unfoldable pub is_within : List ℕ → List ℕ → Bool
is_within name object =
    let k = length name - length object in
    leb (length object) (length name)
    && (if ltb 0 k
        then get_or name (k - 1) 0 == b'.' && streq (drop k name) object
        else streq name object)

-- The loop of `dns_lookup` from the index `i` on: the index of the record found, and its strings.
unfoldable pub find_dns : List ℕ → ℕ → List DnsRec → Option (ℕ × List ℕ × List ℕ)
unfolding is_within
find_dns name i [] = none
find_dns name i (rec ∷ l) =
    let rest = find_dns name (i + 1) l in
    elim rec.data_part [
      | dns server ↦
          if is_within name rec.object.string
          then some (i, rec.object.string, server.string)
          else rest
      | nameip n ↦ rest
      | authority ↦ rest
    ]

-- Where the search begins; `none` stands for a negative `*last`.
unfoldable pub after_last : Option ℕ → ℕ
after_last none = 0
after_last (some last) = last + 1

unfoldable pub dns_lookup : Database → List ℕ → Option ℕ → Option (ℕ × List ℕ × List ℕ)
unfolding after_last find_dns
dns_lookup db name last = find_dns name (after_last last) (drop (after_last last) db.dbv)
