-- ===== src/Dns/Objname/RoundTrip.antt =====
-- A name written as labels is read back as dotted text.
use Prim.Native.Nat.{bit_and}
use mathlib.Core.List.{append_assoc, append-nil}
use dnrd.Prelude.{
  ℕ, zero, suc, ◌+◌, ◌/◌, ◌≤◌, ◌<◌, Bool, true, false, ◌≡◌, refl, sym, ap, ◌∙◌, List, [], ◌∷◌, ◌++◌,
  arith, some, ◌==◌, length, length-append, get_elem?, take, All,
}
use dnrd.Prelude.Bits.{bit_and-halves, bit_and-zero}
use dnrd.Dns.Objname.{
  ok, root, Scan, go, copy_label, read_label, finish, scan_step, scan, get_objname,
}

-- The encoding of RFC 1035: each label behind its length, and a zero byte.
abbrev pub wire : List (List ℕ) → List ℕ
wire [] = 0 ∷ []
wire (l ∷ ls) = length l ∷ (l ++ wire ls)

-- The labels with a dot between any two.
abbrev pub dotted : List (List ℕ) → List ℕ
dotted [] = []
dotted (l ∷ []) = l
dotted (l ∷ m ∷ ls) = l ++ (b'.' ∷ dotted (m ∷ ls))

-- A label has 1 to 63 bytes, all of which the table accepts.
abbrev pub IsLabel : (ℕ → Bool) → List ℕ → Type 0
IsLabel valid l = (1 ≤ length l) × (length l ≤ 63) × All (λ c. valid c ≡ true) l

-- What the loop writes: a dot behind each label.
abbrev dots : List (List ℕ) → List ℕ
dots [] = []
dots (l ∷ ls) = l ++ (b'.' ∷ dots ls)

get_elem?-append :
    (pre : List ℕ) (x : ℕ) (t : List ℕ) → get_elem? (pre ++ (x ∷ t)) (length pre) ≡ some x
get_elem?-append [] x t = refl
get_elem?-append (p ∷ pre) x t = get_elem?-append pre x t

-- No length byte of a label looks like a pointer.
not_pointer : (c : ℕ) → c < 64 → (bit_and c 0xc0 == 0xc0) ≡ false
not_pointer c h = ground (
  arith,
  bit_and-halves c 192,
  bit_and-halves (c / 2) 96,
  bit_and-halves (c / 2 / 2) 48,
  bit_and-halves (c / 2 / 2 / 2) 24,
  bit_and-halves (c / 2 / 2 / 2 / 2) 12,
  bit_and-halves (c / 2 / 2 / 2 / 2 / 2) 6,
  bit_and-halves (c / 2 / 2 / 2 / 2 / 2 / 2) 3,
  bit_and-halves (c / 2 / 2 / 2 / 2 / 2 / 2 / 2) 1,
  bit_and-zero (c / 2 / 2 / 2 / 2 / 2 / 2 / 2 / 2),
)

dots-dotted : (l : List ℕ) (ls : List (List ℕ)) → dots (l ∷ ls) ≡ dotted (l ∷ ls) ++ (b'.' ∷ [])
dots-dotted l [] = refl
dots-dotted l (m ∷ ls) =
    rw (dots-dotted m ls) (sym (append_assoc l (b'.' ∷ dotted (m ∷ ls)) (b'.' ∷ [])))

length-wire : (ls : List (List ℕ)) → length ls < length (wire ls)
length-wire [] = omega arith
length-wire (l ∷ ls) = omega (arith, length-wire ls, length-append l (wire ls))

take-append : (xs ys : List ℕ) (n : ℕ) → n ≡ length xs → take n (xs ++ ys) ≡ xs
take-append [] ys zero e = refl
take-append [] ys (suc n) e = absurd (omega arith)
take-append (x ∷ xs) ys zero e = absurd (omega arith)
take-append (x ∷ xs) ys (suc n) e = ap (◌∷◌ x) (take-append xs ys n (omega arith))

finish_lem :
    (destsize i : ℕ) (name : List ℕ)
    → length name < destsize
    → finish destsize 0 i (name ++ (b'.' ∷ [])) ≡ ok i name
unfolding finish
finish_lem destsize i [] h = ground arith
finish_lem destsize i (c ∷ name) h = ground (
  arith,
  length-append name (b'.' ∷ []),
  take-append (c ∷ name) (b'.' ∷ []) (length (name ++ (b'.' ∷ []))),
)

read_at :
    (msg pre t : List ℕ) (x i : ℕ)
    → msg ≡ pre ++ (x ∷ t)
    → i ≡ length pre
    → get_elem? msg i ≡ some x
read_at msg pre t x i e p = rw (e, p) (get_elem?-append pre x t)

-- The byte that was read joins what lies before the index.
move_on : (msg pre t : List ℕ) (x : ℕ) → msg ≡ pre ++ (x ∷ t) → msg ≡ (pre ++ (x ∷ [])) ++ t
move_on msg pre t x e = e ∙ sym (append_assoc pre (x ∷ []) t)

module _ (valid : ℕ → Bool) (msg : List ℕ) where
  copy_label_lem :
      (l pre t dest : List ℕ) (destsize i : ℕ)
      → msg ≡ pre ++ (l ++ t)
      → i ≡ length pre
      → All (λ c. valid c ≡ true) l
      → length dest + length l ≤ destsize
      → copy_label valid msg destsize (length l) i dest ≡ ok (i + length l) (dest ++ l)
  unfolding copy_label
  copy_label_lem [] pre t dest destsize i e p v room = ground (arith, append-nil dest)
  copy_label_lem (c ∷ l) pre t dest destsize i e p v room = ground (
    arith,
    length-append dest (c ∷ []),
    v.0,
    read_at msg pre (l ++ t) c i e p,
    append_assoc dest (c ∷ []) l,
    copy_label_lem l (pre ++ (c ∷ [])) t (dest ++ (c ∷ [])) destsize (i + 1)
        (move_on msg pre (l ++ t) c e) (omega (arith, length-append pre (c ∷ []))) v.1,
  )

  module _ (destsize : ℕ) where
    -- One round on a label.
    scan_step-label :
        (l pre t : List ℕ) (s : Scan)
        → IsLabel valid l
        → msg ≡ pre ++ (length l ∷ (l ++ t))
        → s.i ≡ length pre
        → 0 < length t
        → length s.dest + length l + 1 < destsize
        → scan_step valid msg destsize s
          ≡ go (record s { i = s.i + 1 + length l; dest = (s.dest ++ l) ++ (b'.' ∷ []) })
    unfolding scan_step read_label
    scan_step-label l pre t s v e p ht r = ground (
      arith,
      read_at msg pre (l ++ t) (length l) s.i e p,
      not_pointer (length l),
      ap length e,
      length-append pre (length l ∷ (l ++ t)),
      length-append l t,
      length-append s.dest l,
      copy_label_lem l (pre ++ (length l ∷ [])) t s.dest destsize (s.i + 1)
          (move_on msg pre (l ++ t) (length l) e) (omega (arith, length-append pre (length l ∷ [])))
          v.2,
    )

    scan_lem :
        (ls : List (List ℕ)) (fuel : ℕ) (pre rest : List ℕ) (s : Scan)
        → length ls < fuel
        → All (IsLabel valid) ls
        → msg ≡ pre ++ (wire ls ++ rest)
        → s.i ≡ length pre
        → length s.dest + length (dots ls) < destsize
        → scan fuel valid msg destsize s
          ≡ finish destsize s.compressed (s.i + length (wire ls)) (s.dest ++ dots ls)
    unfolding scan
    scan_lem ls zero pre rest s hf hl e p r = absurd (omega arith)
    scan_lem [] (suc fuel) pre rest s hf hl e p r =
        unfold scan_step in ground (arith, read_at msg pre rest 0 s.i e p, append-nil s.dest)
    scan_lem (l ∷ ls) (suc fuel) pre rest s hf hl e p r =
        let e1 : msg ≡ pre ++ (length l ∷ (l ++ (wire ls ++ rest))) =
          e ∙ ap (λ t. pre ++ (length l ∷ t)) (append_assoc l (wire ls) rest) in
        let s' : Scan = record s { i = s.i + 1 + length l; dest = (s.dest ++ l) ++ (b'.' ∷ []) } in
        ground (
          arith,
          length-wire ls,
          length-append (wire ls) rest,
          length-append l (b'.' ∷ dots ls),
          length-append (s.dest ++ l) (b'.' ∷ []),
          length-append s.dest l,
          length-append l (wire ls),
          length-append pre (length l ∷ l),
          append_assoc s.dest l (b'.' ∷ []),
          append_assoc s.dest (l ++ (b'.' ∷ [])) (dots ls),
          append_assoc l (b'.' ∷ []) (dots ls),
          scan_step-label l pre (wire ls ++ rest) s hl.0 e1,
          scan_lem ls fuel (pre ++ (length l ∷ l)) rest s' (omega arith) hl.1
              (e1 ∙ sym (append_assoc pre (length l ∷ l) (wire ls ++ rest))),
        )

-- A name of labels that starts at an index past the header is decoded to its dotted text, and to
-- the index behind it, whatever stands before and after it, if its text fits the buffer.
pub get_objname-wire :
    (valid : ℕ → Bool) (pre rest : List ℕ) (l : List ℕ) (ls : List (List ℕ)) (destsize : ℕ)
    → 12 ≤ length pre
    → All (IsLabel valid) (l ∷ ls)
    → length (dotted (l ∷ ls)) + 1 < destsize
    → get_objname valid (pre ++ (wire (l ∷ ls) ++ rest)) destsize (length pre)
      ≡ ok (length pre + length (wire (l ∷ ls))) (dotted (l ∷ ls))
unfolding get_objname
get_objname-wire valid pre rest l ls destsize h12 hl fits = ground (
  arith,
  dots-dotted l ls,
  length-append (dotted (l ∷ ls)) (b'.' ∷ []),
  length-append pre (wire (l ∷ ls) ++ rest),
  length-append (wire (l ∷ ls)) rest,
  length-wire (l ∷ ls),
  finish_lem destsize (length pre + length (wire (l ∷ ls))) (dotted (l ∷ ls)),
  scan_lem valid (pre ++ (wire (l ∷ ls) ++ rest)) destsize (l ∷ ls)
      (length (pre ++ (wire (l ∷ ls) ++ rest)) + destsize + 1) pre rest
      (record { i = length pre; depth = 0; compressed = 0; dest = [] }),
)

-- The name of no labels is the root: nothing is written to the buffer.
pub get_objname-root :
    (valid : ℕ → Bool) (pre rest : List ℕ) (destsize : ℕ)
    → 12 ≤ length pre
    → 0 < destsize
    → get_objname valid (pre ++ (0 ∷ rest)) destsize (length pre) ≡ root (length pre + 1)
unfolding get_objname finish
get_objname-root valid pre rest destsize h12 hd = ground (
  arith,
  length-append pre (0 ∷ rest),
  scan_lem valid (pre ++ (0 ∷ rest)) destsize [] (length (pre ++ (0 ∷ rest)) + destsize + 1) pre
      rest (record { i = length pre; depth = 0; compressed = 0; dest = [] }),
)
