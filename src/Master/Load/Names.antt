-- ===== src/Master/Load/Names.antt =====
-- The loops over the host names of a line end.
use dnrd.Prelude.{ℕ, zero, suc, ◌≤◌, ◌<◌, false, ◌≡◌, refl, List, [], ◌∷◌, arith, ◌==◌, length}
use dnrd.Text.Words.{get_word, get_word_bounds}
use dnrd.Master.Load.{get_hostname, hostname_of, hostnames}

-- A call that gives a name takes at least one byte from the line.
get_hostname_shorter :
    (domain p : List ℕ)
    → (length (get_hostname domain 100 p).0 == 0) ≡ false
    → length (get_hostname domain 100 p).1 < length p
unfolding get_hostname hostname_of
get_hostname_shorter domain p h = go (get_word 100 p).0 refl
  where
    go : (w : List ℕ) → (get_word 100 p).0 ≡ w → length (get_word 100 p).1 < length p
    go [] e = absurd (ground (arith, rw e at h))
    go (c ∷ s) e = ground (arith, e, (get_word_bounds 100 p).1)

two_fuels :
    (f g : ℕ) (domain p : List ℕ)
    → length p ≤ f
    → length p ≤ g
    → hostnames f domain p ≡ hostnames g domain p
unfolding hostnames
two_fuels zero zero domain p hf hg = refl
two_fuels zero (suc g) domain p hf hg = ground (arith, get_hostname_shorter domain p)
two_fuels (suc f) zero domain p hf hg = ground (arith, get_hostname_shorter domain p)
two_fuels (suc f) (suc g) domain p hf hg =
    ground
      (arith, get_hostname_shorter domain p, two_fuels f g domain (get_hostname domain 100 p).1)

-- As many rounds as the line has bytes are enough for the loop over its names: more give the same
-- names.
pub hostnames_lem :
    (fuel : ℕ) (domain p : List ℕ)
    → length p ≤ fuel
    → hostnames fuel domain p ≡ hostnames (length p) domain p
hostnames_lem fuel domain p h = two_fuels fuel (length p) domain p h (omega arith)
