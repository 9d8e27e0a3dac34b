-- ===== src/Dns/Check.antt =====
-- dnrd-2.20.3/src/check.c: the basic tests of a query and of a reply. The packet is the list of
-- its bytes, and `ntohs` of two of them is the first times 256 plus the second.
use Prim.Native.Nat.{bit_and}
use dnrd.Prelude.{
  ℕ, ◌+◌, ◌*◌, ◌/◌, ◌%◌, ◌≤◌, Bool, true, false, ◌≡◌, ◌↔◌, List, arith, ltb, ◌==◌, if◌then◌else◌,
  length, get_or, not,
}
use dnrd.Dns.Flags.{mask_z, mask_qr, bit_and-mask_z, bit_and-mask_qr}

abbrev pub udp_maxsize : ℕ
udp_maxsize = 512

-- `ntohs(*(unsigned short *)&msg[i])`.
abbrev pub ntohs_at : List ℕ → ℕ → ℕ
ntohs_at msg i = get_or msg i 0 * 256 + get_or msg (i + 1) 0

-- `ntohs(((short *)msg)[1])`.
abbrev pub flags_of : List ℕ → ℕ
flags_of msg = get_or msg 2 0 * 256 + get_or msg 3 0

-- `true` stands for 0, the query is processed, and `false` for -1, it is ignored. (No path
-- returns the 1 that the function's comment lists.)
unfoldable pub check_query : List ℕ → Bool
check_query msg =
    if ltb (length msg) 12
    then false
    else if ltb udp_maxsize (length msg)
    then false
    else if not (bit_and (flags_of msg) mask_z == 0)
    then false
    else if not (bit_and (flags_of msg) mask_qr == 0)
    then false
    else true

unfoldable pub check_reply : List ℕ → Bool
check_reply msg =
    if ltb (length msg) 12
    then false
    else if not (bit_and (flags_of msg) mask_z == 0)
    then false
    else if bit_and (flags_of msg) mask_qr == 0
    then false
    else true

-- `check_query` accepts exactly the packets of 12 to 512 bytes whose Z and QR bits are clear.
pub check_query_iff :
    (msg : List ℕ)
    → (check_query msg ≡ true) ↔ (
        (12 ≤ length msg)
        × (length msg ≤ 512)
        × (flags_of msg / 64 % 2 ≡ 0)
        × (flags_of msg / 32768 % 2 ≡ 0))
unfolding check_query
check_query_iff msg = ground (arith, bit_and-mask_z (flags_of msg), bit_and-mask_qr (flags_of msg))

-- `check_reply` accepts exactly the packets of 12 bytes or more whose Z bit is clear and whose
-- QR bit is set.
pub check_reply_iff :
    (msg : List ℕ)
    → (check_reply msg ≡ true)
      ↔ ((12 ≤ length msg) × (flags_of msg / 64 % 2 ≡ 0) × (flags_of msg / 32768 % 2 ≡ 1))
unfolding check_reply
check_reply_iff msg = ground (arith, bit_and-mask_z (flags_of msg), bit_and-mask_qr (flags_of msg))
