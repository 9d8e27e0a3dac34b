-- ===== src/Text/Lower.antt =====
-- dnrd-2.20.3/src/lib.c: what strnlwr leaves, and text without capitals.
use dnrd.Prelude.{ℕ, suc, ◌≡◌, refl, ap, List, [], ◌∷◌, ◌++◌, arith, length, All}
use dnrd.Text.{tolower, strnlwr}

tolower_twice : (c : ℕ) → tolower (tolower c) ≡ tolower c
unfolding tolower
tolower_twice c = ground arith

pub strnlwr_twice : (s : List ℕ) → strnlwr (strnlwr s) ≡ strnlwr s
unfolding strnlwr
strnlwr_twice [] = refl
strnlwr_twice (c ∷ s) = rw (tolower_twice c, strnlwr_twice s) refl

abbrev pub IsLower : List ℕ → Type 0
IsLower s = All (λ c. tolower c ≡ c) s

pub strnlwr-IsLower : (s : List ℕ) → IsLower (strnlwr s)
unfolding strnlwr
strnlwr-IsLower [] = tt
strnlwr-IsLower (c ∷ s) = (tolower_twice c, strnlwr-IsLower s)

pub strnlwr_lower : (s : List ℕ) → IsLower s → strnlwr s ≡ s
unfolding strnlwr
strnlwr_lower [] h = refl
strnlwr_lower (c ∷ s) h = rw (h.0, strnlwr_lower s h.1) refl

pub strnlwr-append : (s t : List ℕ) → strnlwr (s ++ t) ≡ strnlwr s ++ strnlwr t
unfolding strnlwr
strnlwr-append [] t = refl
strnlwr-append (c ∷ s) t = ap (◌∷◌ (tolower c)) (strnlwr-append s t)

pub length-strnlwr : (s : List ℕ) → length (strnlwr s) ≡ length s
unfolding strnlwr
length-strnlwr [] = refl
length-strnlwr (c ∷ s) = ap suc (length-strnlwr s)
