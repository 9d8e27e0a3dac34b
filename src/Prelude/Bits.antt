-- ===== src/Prelude/Bits.antt =====
-- Laws of `bit_and` at a variable: a mask of one bit, and the low masks that the flags use.
use Prim.Native.Nat.{
  ℕ, zero, suc, ◌+◌, ◌*◌, ◌/◌, ◌%◌, ◌^◌, ◌≤◌, min, bit_and, digits, bit_and-bitwise,
}
use mathlib.Core.Path.{◌≡◌, refl, sym, ap, ◌∙◌}
use native.Mathlib.Omega.{arith}
use native.Mathlib.Nat.{pow-suc}

-- No digit is left of the first number, or of the second.
none_left : (count b : ℕ) → digits (λ c. zero) min count zero b ≡ 0
none_left zero b = refl
none_left (suc count) b = refl

none_right : (count a : ℕ) → digits (λ c. zero) min count a zero ≡ 0
none_right zero a = refl
none_right (suc count) zero = refl
none_right (suc count) (suc a) = omega (arith, none_right count (suc a / 2))

-- A count of digits that is larger than the number needs changes nothing.
spare_digits :
    (few many a b : ℕ)
    → few ≤ many
    → a ≤ few
    → digits (λ c. zero) min many a b ≡ digits (λ c. zero) min few a b
spare_digits few many zero b wide enough = none_left many b ∙ sym (none_left few b)
spare_digits zero many (suc a) b wide enough = absurd (omega arith)
spare_digits (suc few) zero (suc a) b wide enough = absurd (omega arith)
spare_digits (suc few) (suc many) (suc a) b wide enough =
    ap (λ (rest : ℕ). rest * 2 + min (suc a % 2) (b % 2))
      (spare_digits few many (suc a / 2) (b / 2) (omega arith) (omega arith))

pub bit_and-zero : (a : ℕ) → bit_and a 0 ≡ 0
bit_and-zero a = bit_and-bitwise a 0 ∙ none_right a a

-- A number of digits is its lowest digit and twice its half.
pub bit_and-halves : (a b : ℕ) → min (a % 2) (b % 2) + 2 * bit_and (a / 2) (b / 2) ≡ bit_and a b
bit_and-halves zero b = omega (arith, bit_and-bitwise zero b, bit_and-bitwise zero (b / 2))
bit_and-halves (suc a) b =
    let shorter = spare_digits (suc a / 2) a (suc a / 2) (b / 2) (omega arith) (omega arith) in
    omega (arith, shorter, bit_and-bitwise (suc a / 2) (b / 2), bit_and-bitwise (suc a) b)

-- The digit of `a` at place `k`, counted from the lowest.
abbrev pub bit : ℕ → ℕ → ℕ
bit zero a = a % 2
bit (suc k) a = bit k (a / 2)

bit_and-one : (a : ℕ) → bit_and a 1 ≡ a % 2
bit_and-one a = omega (arith, bit_and-halves a 1, bit_and-zero (a / 2))

half : (n : ℕ) → n * 2 / 2 ≡ n
half n = omega arith

-- Masking with one bit picks that digit.
pub bit_and-pow : (k a : ℕ) → bit_and a (2 ^ k) ≡ bit k a * 2 ^ k
bit_and-pow zero a = omega (arith, bit_and-one a)
bit_and-pow (suc k) a =
    let halved = rw (half (2 ^ k)) at (bit_and-halves a (2 ^ k * 2)) in
    rw pow-suc (omega (arith, halved, bit_and-pow k (a / 2)))

pub bit_and_fifteen : (a : ℕ) → bit_and a 15 ≡ a % 16
bit_and_fifteen a = omega (
  arith,
  bit_and-halves a 15,
  bit_and-halves (a / 2) 7,
  bit_and-halves (a / 2 / 2) 3,
  bit_and-one (a / 2 / 2 / 2),
)

pub bit_and_sixty_three : (a : ℕ) → bit_and a 63 ≡ a % 64
bit_and_sixty_three a =
    omega (arith, bit_and-halves a 63, bit_and-halves (a / 2) 31, bit_and_fifteen (a / 2 / 2))
