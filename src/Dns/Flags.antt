-- ===== src/Dns/Flags.antt =====
-- dnrd-2.20.3/src/dns.h: the macros for the flags word of a packet header.
use Prim.Native.Nat.{bit_and, bit_or}
use dnrd.Prelude.{ℕ, ◌-◌, ◌*◌, ◌/◌, ◌%◌, ◌^◌, ◌≡◌, arith}
use dnrd.Prelude.Bits.{bit_and-pow, bit_and_fifteen}

abbrev pub mask_rcode : ℕ
mask_rcode = 0x000f

abbrev pub mask_z : ℕ
mask_z = 0x0040

abbrev pub mask_aa : ℕ
mask_aa = 0x0400

abbrev pub mask_opcode : ℕ
mask_opcode = 0xe800

abbrev pub mask_qr : ℕ
mask_qr = 0x8000

unfoldable pub get_rcode : ℕ → ℕ
get_rcode x = bit_and x mask_rcode

unfoldable pub get_opcode : ℕ → ℕ
get_opcode x = bit_and x mask_opcode / 2 ^ 11

unfoldable pub get_qr : ℕ → ℕ
get_qr x = bit_and x mask_qr / 2 ^ 15

-- `(x & ~m) | ((y << k) & m)` in the 16 bits of the flags word.
unfoldable pub set_bits : ℕ → ℕ → ℕ → ℕ → ℕ
set_bits m k x y = bit_or (bit_and x (0xffff - m)) (bit_and (y * 2 ^ k) m)

unfoldable pub set_rcode : ℕ → ℕ → ℕ
unfolding set_bits
set_rcode x y = set_bits mask_rcode 0 x y

unfoldable pub set_aa : ℕ → ℕ → ℕ
unfolding set_bits
set_aa x y = set_bits mask_aa 10 x y

unfoldable pub set_qr : ℕ → ℕ → ℕ
unfolding set_bits
set_qr x y = set_bits mask_qr 15 x y

-- `x & MASK_Z` and `x & MASK_QR` as numbers.
pub bit_and-mask_z : (x : ℕ) → bit_and x mask_z ≡ x / 64 % 2 * 64
bit_and-mask_z x = omega (arith, bit_and-pow 6 x)

pub bit_and-mask_qr : (x : ℕ) → bit_and x mask_qr ≡ x / 32768 % 2 * 32768
bit_and-mask_qr x = omega (arith, bit_and-pow 15 x)

pub get_qr_lem : (x : ℕ) → get_qr x ≡ x / 32768 % 2
unfolding get_qr
get_qr_lem x = omega (arith, bit_and-mask_qr x)

pub get_rcode_lem : (x : ℕ) → get_rcode x ≡ x % 16
unfolding get_rcode
get_rcode_lem x = bit_and_fifteen x
