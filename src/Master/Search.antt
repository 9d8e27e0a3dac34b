-- ===== src/Master/Search.antt =====
-- What the searches find: on records that carry the codes of their strings, what a search by the
-- strings alone would find in the list of what was added.
use mathlib.Core.Option
use dnrd.Prelude.{
  ℕ, ◌≤◌, Bool, true, false, ◌≡◌, refl, ap, ◌∙◌, List, [], ◌∷◌, map, Option, none, some, arith,
  if◌then◌else◌, length, All,
}
use dnrd.Text.{strnlwr, streq, get_stringcode, streq-eq}
use dnrd.Master.{
  CodedString, Data, DnsRec, nameip, dns, authority, Database, show_swapped, has_code, is_ptr,
  is_name, is_authority, find_first, find_last, ptr_lookup, name_lookup, authority_lookup,
}

-- What a record says, without the codes and the reversed text of an address.
pub data Fact : Type 0 where
  host : List ℕ → ℕ → Fact
  server : List ℕ → List ℕ → Fact
  zone : List ℕ → Fact

abbrev pub fact_of : DnsRec → Fact
fact_of rec = elim rec.data_part [
  | nameip n ↦ host rec.object.string n.ipnum
  | dns s ↦ server rec.object.string s.string
  | authority ↦ zone rec.object.string
]

abbrev pub facts_of : Database → List Fact
facts_of db = map fact_of db.dbv

-- The searches by the strings.
abbrev pub first_host : List ℕ → List Fact → Option Fact
first_host name [] = none
first_host name (host h ip ∷ l) = if streq h name then some (host h ip) else first_host name l
first_host name (server d s ∷ l) = first_host name l
first_host name (zone d ∷ l) = first_host name l

abbrev pub first_address : List ℕ → List Fact → Option Fact
first_address arpanum [] = none
first_address arpanum (host h ip ∷ l) =
    if streq (strnlwr (show_swapped ip)) arpanum then some (host h ip) else first_address arpanum l
first_address arpanum (server d s ∷ l) = first_address arpanum l
first_address arpanum (zone d ∷ l) = first_address arpanum l

abbrev pub has_zone : List ℕ → List Fact → Bool
has_zone domain [] = false
has_zone domain (host h ip ∷ l) = has_zone domain l
has_zone domain (server d s ∷ l) = has_zone domain l
has_zone domain (zone d ∷ l) = if streq d domain then true else has_zone domain l

-- A string with its code, and a record whose strings are so, and whose address is written reversed.
abbrev pub IsCodedString : CodedString → Type 0
IsCodedString s = s.code ≡ get_stringcode s.string

abbrev pub IsCoded : DnsRec → Type 0
IsCoded rec = IsCodedString rec.object × elim rec.data_part as (λ d. Type 0) [
  | nameip n ↦ IsCodedString n.arpa × (n.arpa.string ≡ strnlwr (show_swapped n.ipnum))
  | dns s ↦ IsCodedString s
  | authority ↦ Unit
]

-- The array is large enough, and its records carry their codes.
abbrev pub IsWellFormed : Database → Type 0
IsWellFormed db = (length db.dbv ≤ db.dbmax) × All IsCoded db.dbv

has_code_lem :
    (s : CodedString) (name : List ℕ)
    → IsCodedString s
    → has_code (get_stringcode name) name s ≡ streq s.string name
unfolding has_code
has_code_lem s name h = ground (arith, streq-eq s.string name)

find_first-host :
    (name : List ℕ) (l : List DnsRec)
    → All IsCoded l
    → Option.map fact_of (find_first (is_name (get_stringcode name) name) l)
      ≡ first_host name (map fact_of l)
unfolding find_first is_name
find_first-host name [] h = refl
find_first-host name (rec ∷ l) h =
    ground (arith, h.0.0, has_code_lem rec.object name, find_first-host name l h.1)

-- What the three tests say of a record, split by its type.
is_ptr_lem :
    (arpanum : List ℕ) (o : CodedString) (d : Data)
    → IsCoded (record { object = o; data_part = d })
    → is_ptr (get_stringcode arpanum) arpanum (record { object = o; data_part = d })
      ≡ elim d [ nameip n ↦ streq (strnlwr (show_swapped n.ipnum)) arpanum | _ ↦ false ]
unfolding is_ptr
is_ptr_lem arpanum o (nameip n) h =
    has_code_lem n.arpa arpanum h.1.0 ∙ ap (λ s. streq s arpanum) h.1.1
is_ptr_lem arpanum o (dns s) h = refl
is_ptr_lem arpanum o authority h = refl

find_first-address :
    (arpanum : List ℕ) (l : List DnsRec)
    → All IsCoded l
    → Option.map fact_of (find_first (is_ptr (get_stringcode arpanum) arpanum) l)
      ≡ first_address arpanum (map fact_of l)
unfolding find_first
find_first-address arpanum [] h = refl
find_first-address arpanum (rec ∷ l) h =
    ground
      (arith, is_ptr_lem arpanum rec.object rec.data_part h.0, find_first-address arpanum l h.1)

-- Whether a search found a record.
abbrev pub is_found {ℓ} : {A : Type ℓ} → Option A → Bool
is_found none = false
is_found (some a) = true

find_last-zone :
    (domain : List ℕ) (l : List DnsRec)
    → All IsCoded l
    → is_found (find_last (is_authority (get_stringcode domain) domain) l)
      ≡ has_zone domain (map fact_of l)
unfolding find_last is_authority
find_last-zone domain [] h = refl
find_last-zone domain (rec ∷ l) h =
    ground (arith, h.0.0, has_code_lem rec.object domain, find_last-zone domain l h.1)

-- On a well-formed database the searches that compare codes first find what a search of the facts
-- by the strings alone finds: the first host of a name, the first host of an address written
-- reversed, and whether there is authority for a domain.
pub lookups-facts :
    (db : Database) (name : List ℕ)
    → IsWellFormed db
    → (Option.map fact_of (name_lookup db name) ≡ first_host name (facts_of db))
      × (Option.map fact_of (ptr_lookup db name) ≡ first_address name (facts_of db))
      × (is_found (authority_lookup db name) ≡ has_zone name (facts_of db))
unfolding name_lookup ptr_lookup authority_lookup
lookups-facts db name h = (
  find_first-host name db.dbv h.1,
  find_first-address name db.dbv h.1,
  find_last-zone name db.dbv h.1,
)
