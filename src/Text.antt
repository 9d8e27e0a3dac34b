-- ===== src/Text.antt =====
-- dnrd-2.20.3/src/lib.c: the text helpers. A C string is the list of its bytes before the NUL,
-- and a `char *` into it is the list of the bytes that are left.
pub mod Words
pub mod Lower
use Prim.Native.Nat.{bit_and}
use dnrd.Prelude.{
  ℕ, ◌+◌, ◌-◌, ◌*◌, ◌%◌, ◌^◌, Bool, true, false, ◌&&◌, ◌≡◌, refl, List, [], ◌∷◌, map, arith, leb,
  ◌==◌, if◌then◌else◌, length, ap,
}

-- `isupper` and `tolower` of the C locale, on a byte.
unfoldable pub isupper : ℕ → Bool
isupper c = leb b'A' c && leb c b'Z'

unfoldable pub tolower : ℕ → ℕ
unfolding isupper
tolower c = if isupper c then c + 32 else c

-- Every caller's buffer is as long as `maxlen`, so the loop ends at the NUL.
unfoldable pub strnlwr : List ℕ → List ℕ
unfolding tolower
strnlwr = map tolower

-- `strcasecmp(x, y) == 0`.
unfoldable pub strcaseeq : List ℕ → List ℕ → Bool
unfolding tolower
strcaseeq [] [] = true
strcaseeq [] (d ∷ t) = false
strcaseeq (c ∷ s) [] = false
strcaseeq (c ∷ s) (d ∷ t) = tolower c == tolower d && strcaseeq s t

-- `strcmp(x, y) == 0`.
unfoldable pub streq : List ℕ → List ℕ → Bool
streq [] [] = true
streq [] (d ∷ t) = false
streq (c ∷ s) [] = false
streq (c ∷ s) (d ∷ t) = c == d && streq s t

-- The loop of `get_stringcode`, over the code so far.
unfoldable pub stringcode_sum : ℕ → List ℕ → ℕ
unfolding tolower
stringcode_sum code [] = code
stringcode_sum code (c ∷ s) =
    stringcode_sum ((code + (if isupper c then tolower c else c)) % 2 ^ 32) s

unfoldable pub get_stringcode : List ℕ → ℕ
unfolding stringcode_sum
get_stringcode s = (bit_and (stringcode_sum 0 s) 0xff + length s * 2 ^ 8) % 2 ^ 32

stringcode_sum-strcaseeq :
    (x y : List ℕ) (code : ℕ)
    → strcaseeq x y ≡ true
    → (stringcode_sum code x ≡ stringcode_sum code y) × (length x ≡ length y)
unfolding strcaseeq stringcode_sum
stringcode_sum-strcaseeq [] [] code h = (refl, refl)
stringcode_sum-strcaseeq [] (d ∷ t) code h = absurd (ground arith)
stringcode_sum-strcaseeq (c ∷ s) [] code h = absurd (ground arith)
stringcode_sum-strcaseeq (c ∷ s) (d ∷ t) code h =
    ground (arith, stringcode_sum-strcaseeq s t ((code + tolower c) % 2 ^ 32))

-- Names that `strcasecmp` finds equal have the same code: the code is a sound first test.
pub get_stringcode-strcaseeq :
    (x y : List ℕ) → strcaseeq x y ≡ true → get_stringcode x ≡ get_stringcode y
unfolding get_stringcode
get_stringcode-strcaseeq x y h = let (s, l) = stringcode_sum-strcaseeq x y 0 h in rw (s, l)

pub streq-eq : (x y : List ℕ) → streq x y ≡ true → x ≡ y
unfolding streq
streq-eq [] [] h = refl
streq-eq [] (d ∷ t) h = absurd (ground arith)
streq-eq (c ∷ s) [] h = absurd (ground arith)
streq-eq (c ∷ s) (d ∷ t) h = ground (arith, streq-eq s t)

pub streq_refl : (x : List ℕ) → streq x x ≡ true
unfolding streq
streq_refl [] = refl
streq_refl (c ∷ s) = ground (arith, streq_refl s)
