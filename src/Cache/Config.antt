-- ===== src/Cache/Config.antt =====
-- dnrd-2.20.3/src/cache.c: cache_init, which reads the parameter of the option -c. A mark is a
-- `long`, and negative only between `atoi` and the last test.
use dnrd.Prelude.{
  ℕ, ◌+◌, ◌-◌, ◌*◌, ◌/◌, Bool, true, false, ◌&&◌, ◌||◌, ◌≡◌, List, [], ◌∷◌, Option, none, some,
  arith, leb, ◌==◌, if◌then◌else◌,
}
use dnrd.Prelude.Int.{ℤ, pos, negsuc, ltb_ℤ, sub_ℕ}
use dnrd.Text.{streq}

abbrev pub is_digit : ℕ → Bool
is_digit c = leb b'0' c && leb c b'9'

-- `isspace` of the C locale.
abbrev pub is_space : ℕ → Bool
is_space c = c == b' ' || (leb 9 c && leb c 13)

-- The digits that `atoi` reads.
unfoldable pub read_digits : ℕ → List ℕ → ℕ
read_digits acc [] = acc
read_digits acc (c ∷ s) =
    let rest = read_digits (acc * 10 + (c - b'0')) s in if is_digit c then rest else acc

unfoldable pub read_signed : List ℕ → ℤ
unfolding read_digits
read_signed [] = pos 0
read_signed (c ∷ s) =
    if c == b'-'
    then sub_ℕ 0 (read_digits 0 s)
    else if c == b'+'
    then pos (read_digits 0 s)
    else pos (read_digits 0 (c ∷ s))

-- `atoi` of the C library, where the number fits an `int`.
unfoldable pub atoi : List ℕ → ℤ
unfolding read_signed
atoi [] = pos 0
atoi (c ∷ s) = if is_space c then atoi s else read_signed (c ∷ s)

-- `strchr(s, ':')`: what stands before the colon and behind it.
unfoldable pub split_colon : List ℕ → Option (List ℕ × List ℕ)
split_colon [] = none
split_colon (c ∷ s) = elim (split_colon s) [
  | none ↦ if c == b':' then some ([], s) else none
  | some (front, back) ↦ if c == b':' then some ([], s) else some (c ∷ front, back)
]

pub record Marks : Type 0 where
  pub onoff : Bool
  pub high : ℤ
  pub low : ℤ

-- `(cache_highwater * 75) / 100`; C's division rounds towards zero.
unfoldable pub three_quarters : ℤ → ℤ
three_quarters (pos n) = pos (n * 75 / 100)
three_quarters (negsuc n) = sub_ℕ 0 ((n + 1) * 75 / 100)

-- The marks that the parameter sets; `m` holds what they were. An invalid one is only reported.
unfoldable pub read_param : Marks → List ℕ → Marks
unfolding atoi split_colon three_quarters
read_param m [] = m
read_param m (c ∷ s) =
    if streq (c ∷ s) (b'o' ∷ b'f' ∷ b'f' ∷ [])
    then record m { onoff = false }
    else if is_digit c
    then elim (split_colon (c ∷ s)) [
      | none ↦ record m { high = atoi (c ∷ s); low = three_quarters (atoi (c ∷ s)) }
      | some (front, back) ↦ record m { low = atoi front; high = atoi back }
    ]
    else m

unfoldable pub fix_marks : Marks → Marks
unfolding three_quarters
fix_marks m = elim m.onoff [
  | false ↦ m
  | true ↦
      if ltb_ℤ m.high (pos 0)
      then record m { high = pos 1000; low = pos 800 }
      else if ltb_ℤ m.high m.low
      then record m { low = three_quarters m.high }
      else m
]

unfoldable pub cache_init : Marks → List ℕ → Marks
unfolding read_param fix_marks
cache_init m cache_param = fix_marks (read_param m cache_param)

three_quarters-le : (a : ℤ) → ltb_ℤ a (pos 0) ≡ false → ltb_ℤ a (three_quarters a) ≡ false
unfolding three_quarters
three_quarters-le (pos n) h = ground arith
three_quarters-le (negsuc n) h = absurd (ground arith)

fix_marks_ordered :
    (m : Marks)
    → (fix_marks m).onoff ≡ true
    → (ltb_ℤ (fix_marks m).high (pos 0) ≡ false)
      × (ltb_ℤ (fix_marks m).high (fix_marks m).low ≡ false)
unfolding fix_marks
fix_marks_ordered m h = ground (arith, three_quarters-le m.high)

-- Whatever the parameter: where the cache stays on, the high-water mark is not negative, and the
-- low-water mark is not above it.
pub cache_init_ordered :
    (m : Marks) (cache_param : List ℕ)
    → (cache_init m cache_param).onoff ≡ true
    → (ltb_ℤ (cache_init m cache_param).high (pos 0) ≡ false)
      × (ltb_ℤ (cache_init m cache_param).high (cache_init m cache_param).low ≡ false)
unfolding cache_init
cache_init_ordered m cache_param h = fix_marks_ordered (read_param m cache_param) h
