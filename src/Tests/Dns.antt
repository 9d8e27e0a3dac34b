-- ===== src/Tests/Dns.antt =====
-- Messages of dns.c, check.c and lib.c.
use dnrd.Prelude.{ℕ, ◌/◌, ◌%◌, ◌≤◌, true, false, ◌≡◌, ◌↔◌, refl, List, [], ◌∷◌, ◌++◌, some, arith}
use dnrd.Text.{strnlwr}
use dnrd.Dns.Check.{check_query, check_query_iff}
use dnrd.Dns.Objname.{valid_char, get_objname}
use dnrd.Dns.Objname.Safety.{IsSafe, get_objname-IsSafe}
use dnrd.Dns.Packet.{Rr, strip_dot, parse_query}
use dnrd.Dns.Packet.Question.{parse_query-wire, parse_query-root}

-- The header of a query with one question.
abbrev header : List ℕ
header = 18 ∷ 52 ∷ 1 ∷ 0 ∷ 0 ∷ 1 ∷ 0 ∷ 0 ∷ 0 ∷ 0 ∷ 0 ∷ 0 ∷ []

-- The name `ns.A`, as labels and in a packet.
abbrev labels : List (List ℕ)
labels = (110 ∷ 115 ∷ []) ∷ (65 ∷ []) ∷ []

abbrev name : List ℕ
name = 2 ∷ 110 ∷ 115 ∷ 1 ∷ 65 ∷ 0 ∷ []

abbrev query_packet : List ℕ
query_packet = header ++ (name ++ (0 ∷ 1 ∷ 0 ∷ 1 ∷ []))

abbrev empty : Rr
empty = record { flags = 0; name = []; type = 0; class = 0; ttl = 0; len = 0; rdata = [] }

-- A pointer to itself: the safety of `get_objname` says something about it.
abbrev loop_packet : List ℕ
loop_packet = header ++ (192 ∷ 12 ∷ [])

get_objname_loop : IsSafe loop_packet 256 (get_objname (valid_char false) loop_packet 256 12)
get_objname_loop = get_objname-IsSafe (valid_char false) loop_packet 256 12 (omega arith)

check_query-header :
    (check_query header ≡ true)
    ↔ ((12 ≤ 12) × (12 ≤ 512) × (256 / 64 % 2 ≡ 0) × (256 / 32768 % 2 ≡ 0))
check_query-header = check_query_iff header

parse_query_name :
    parse_query (valid_char false) empty query_packet
    ≡ some (record empty { flags = 256; name = 110 ∷ 115 ∷ 46 ∷ 97 ∷ []; type = 1; class = 1 })
unfolding valid_char strnlwr
parse_query_name =
    parse_query-wire (valid_char false) empty header (110 ∷ 115 ∷ []) ((65 ∷ []) ∷ []) 0 1 0 1 []
      refl (ground arith) (ground arith) (ground arith) (omega arith)

-- The flags 256 of the root query come out as 0.
root_question :
    parse_query (valid_char false) empty (header ++ (0 ∷ 0 ∷ 1 ∷ 0 ∷ 1 ∷ []))
    ≡ some (record empty { flags = 0; name = []; type = 1; class = 1 })
unfolding strnlwr strip_dot
root_question = parse_query-root (valid_char false) empty header 0 1 0 1 [] refl (ground arith)

abbrev line : List ℕ
line = 32 ∷ 97 ∷ 98 ∷ 32 ∷ 99 ∷ []
