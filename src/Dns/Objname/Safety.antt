-- ===== src/Dns/Objname/Safety.antt =====
-- Decoding a name never reads outside the packet nor writes past the end of its buffer, and ends on
-- every packet.
use dnrd.Prelude.{
  ℕ, zero, suc, ◌+◌, ◌-◌, ◌≤◌, ◌<◌, Bool, ◌≡◌, refl, ◌⊎◌, inl, inr, List, [], ◌∷◌, ◌++◌, arith, leb,
  length, length-append, get_elem?_lt, length-take-le, Bool-cases,
}
use dnrd.Dns.Objname.{
  Decode, ok, root, bad, fault, stuck, Scan, Next, go, stop, copy_label, follow_pointer, read_label,
  finish, scan_step, scan, get_objname,
}

-- What a result promises: an end within the packet, and a name that leaves room for its NUL. (That of
-- the root name goes to the byte before the buffer.)
abbrev pub IsSafe : List ℕ → ℕ → Decode → Type 0
IsSafe msg destsize (ok next name) = (next ≤ length msg) × (length name < destsize)
IsSafe msg destsize (root next) = next ≤ length msg
IsSafe msg destsize bad = Unit {0}
IsSafe msg destsize fault = ⊥
IsSafe msg destsize stuck = ⊥

record Inv (msg : List ℕ) (destsize : ℕ) (s : Scan) : Type 0 where
  inside : s.i < length msg
  first : s.compressed ≤ length msg
  room : length s.dest < destsize
  shallow : s.depth < length msg

abbrev measure : List ℕ → ℕ → Scan → ℕ
measure msg destsize s = length msg - s.depth + (destsize - length s.dest)

-- A round ends with a safe result, or goes on in the invariant with a smaller measure.
abbrev Keeps : List ℕ → ℕ → Scan → Next → Type 0
Keeps msg destsize s (go s') =
    Inv msg destsize s' × (measure msg destsize s' < measure msg destsize s)
Keeps msg destsize s (stop r) = IsSafe msg destsize r

-- A label inside the packet is copied whole, or refused.
abbrev Copies : ℕ → ℕ → Decode → Type 0
Copies j n r = (r ≡ bad) ⊎ ((dest : List ℕ) × (r ≡ ok j dest) × (length dest ≡ n))

copy_label-Copies :
    (valid : ℕ → Bool) (msg : List ℕ) (destsize c i j n : ℕ) (dest : List ℕ)
    → i + c ≡ j
    → length dest + c ≡ n
    → j ≤ length msg
    → n < destsize
    → Copies j n (copy_label valid msg destsize c i dest)
unfolding copy_label
copy_label-Copies valid msg destsize zero i j n dest p q h room =
    inr (dest, ground arith, omega arith)
copy_label-Copies valid msg destsize (suc c) i j n dest p q h room =
    let (b, e) = get_elem?_lt msg i (omega arith) in
    ground (
      arith,
      e,
      length-append dest (b ∷ []),
      copy_label-Copies valid msg destsize c (i + 1) j n (dest ++ (b ∷ [])),
    )

module _ (valid : ℕ → Bool) (msg : List ℕ) (destsize : ℕ) where
  follow_pointer-Keeps :
      (c : ℕ) (s : Scan)
      → s.compressed ≤ length msg
      → length s.dest < destsize
      → s.depth < length msg
      → Keeps msg destsize s (follow_pointer msg c s)
  unfolding follow_pointer
  follow_pointer-Keeps c s hc hr hd = elim (Bool-cases (leb (length msg) s.i)) [
    | inl e ↦ rw e tt
    | inr e ↦ let (b, g) = get_elem?_lt msg s.i (ground arith) in rw (e, g) (ground arith)
  ]

  read_label-Keeps :
      (c : ℕ) (s : Scan)
      → s.compressed ≤ length msg
      → length s.dest < destsize
      → s.depth < length msg
      → Keeps msg destsize s (read_label valid msg destsize c s)
  unfolding read_label
  read_label-Keeps c s hc hr hd = grind (
    arith,
    copy_label-Copies valid msg destsize c s.i (s.i + c) (length s.dest + c) s.dest,
    length-append,
  )

  finish-IsSafe :
      (compressed i : ℕ) (dest : List ℕ)
      → compressed ≤ length msg
      → i ≤ length msg
      → IsSafe msg destsize (finish destsize compressed i dest)
  unfolding finish
  finish-IsSafe compressed i [] hc hi = ground arith
  finish-IsSafe compressed i (b ∷ dest) hc hi =
      ground (arith, length-take-le (length dest) (b ∷ dest))

  scan_step-Keeps :
      (s : Scan) → Inv msg destsize s → Keeps msg destsize s (scan_step valid msg destsize s)
  unfolding scan_step
  scan_step-Keeps s v =
      let (b, e) = get_elem?_lt msg s.i v.inside in
      ground (
        arith,
        e,
        finish-IsSafe s.compressed (s.i + 1) s.dest,
        follow_pointer-Keeps b (record s { i = s.i + 1 }),
        read_label-Keeps b (record s { i = s.i + 1 }),
      )

  scan-IsSafe :
      (fuel : ℕ) (s : Scan)
      → Inv msg destsize s
      → measure msg destsize s < fuel
      → IsSafe msg destsize (scan fuel valid msg destsize s)
  unfolding scan
  scan-IsSafe zero s v h = absurd (omega arith)
  scan-IsSafe (suc fuel) s v h =
      go_on (scan_step valid msg destsize s) refl (scan_step-Keeps s v)
        (λ s' v' m. scan-IsSafe fuel s' v' m)
    where
      go_on :
          (r : Next)
          → scan_step valid msg destsize s ≡ r
          → Keeps msg destsize s r
          → ((s' : Scan)
              → Inv msg destsize s'
              → measure msg destsize s' < fuel
              → IsSafe msg destsize (scan fuel valid msg destsize s'))
          → IsSafe msg destsize (scan (suc fuel) valid msg destsize s)
      go_on (go s') e (v', m) ih = rw (e, scan) (ih s' v' (omega arith))
      go_on (stop r) e k ih = rw (e, scan) k

  -- On every packet, every starting index and every non-empty buffer, `get_objname` ends without
  -- a read outside the packet, and without a write past the end of the buffer, also where it returns
  -- -1 in the end; a name it returns ends within the packet and leaves room for the closing NUL. For
  -- the root name, whose NUL goes to the byte before the buffer, only the end is within the packet.
  pub get_objname-IsSafe :
      (index : ℕ) → 0 < destsize → IsSafe msg destsize (get_objname valid msg destsize index)
  unfolding get_objname
  get_objname-IsSafe index h = ground (
    arith,
    scan-IsSafe (length msg + destsize + 1)
        (record { i = index; depth = 0; compressed = 0; dest = [] }),
  )
