-- ===== src/Text/Words.antt =====
-- dnrd-2.20.3/src/lib.c: skipping blanks, trimming, and reading a word of a line.
use dnrd.Prelude.{
  ℕ, zero, suc, ◌+◌, ◌-◌, ◌≤◌, Bool, false, ◌||◌, ◌≡◌, List, [], ◌∷◌, arith, leb, ltb, ◌==◌,
  if◌then◌else◌, length, All,
}

unfoldable pub skip_ws : List ℕ → List ℕ
skip_ws [] = []
skip_ws (c ∷ s) = if c == b' ' || c == 9 then skip_ws s else c ∷ s

-- `noctrln`: the bytes up to 32 at the end of the string are cut off. (`maxlen` is the length of
-- the caller's buffer.)
unfoldable pub noctrln : List ℕ → List ℕ
noctrln [] = []
noctrln (c ∷ s) = elim (noctrln s) [ [] ↦ if leb c 32 then [] else c ∷ [] | d ∷ t ↦ c ∷ d ∷ t ]

-- The first loop of `get_word`.
unfoldable pub skip_ctrl : List ℕ → List ℕ
skip_ctrl [] = []
skip_ctrl (c ∷ s) = if leb c 32 then skip_ctrl s else c ∷ s

unfoldable pub ends_word : ℕ → Bool
ends_word c = c == b' ' || c == 9 || ltb c 32

-- The second loop: `room` is what is left of `maxlen`; bytes past it are skipped.
unfoldable pub read_word : ℕ → List ℕ → List ℕ × List ℕ
unfolding ends_word
read_word room [] = ([], [])
read_word zero (c ∷ s) = if ends_word c then ([], c ∷ s) else read_word zero s
read_word (suc room) (c ∷ s) =
    let (w, rest) = read_word room s in if ends_word c then ([], c ∷ s) else (c ∷ w, rest)

-- The word, and where `*from` points after it.
unfoldable pub get_word : ℕ → List ℕ → List ℕ × List ℕ
unfolding read_word skip_ctrl
get_word maxlen from = read_word (maxlen - 2) (skip_ctrl from)

read_word_bounds :
    (room : ℕ) (s : List ℕ)
    → (length (read_word room s).0 ≤ room)
      × (length (read_word room s).0 + length (read_word room s).1 ≤ length s)
      × All (λ c. ends_word c ≡ false) (read_word room s).0
unfolding read_word
read_word_bounds room [] = (omega arith, omega arith, tt)
read_word_bounds zero (c ∷ s) = ground (arith, read_word_bounds zero s)
read_word_bounds (suc room) (c ∷ s) = ground (arith, read_word_bounds room s)

skip_ctrl-le : (s : List ℕ) → length (skip_ctrl s) ≤ length s
unfolding skip_ctrl
skip_ctrl-le [] = omega arith
skip_ctrl-le (c ∷ s) = ground (arith, skip_ctrl-le s)

-- A word that `get_word` reads has at most `maxlen - 2` bytes and none that ends a word, and the
-- word and what is left of the line are together no longer than the line was.
pub get_word_bounds :
    (maxlen : ℕ) (s : List ℕ)
    → (length (get_word maxlen s).0 ≤ maxlen - 2)
      × (length (get_word maxlen s).0 + length (get_word maxlen s).1 ≤ length s)
      × All (λ c. ends_word c ≡ false) (get_word maxlen s).0
unfolding get_word
get_word_bounds maxlen s =
    ground (arith, read_word_bounds (maxlen - 2) (skip_ctrl s), skip_ctrl-le s)
