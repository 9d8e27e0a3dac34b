-- ===== src/Master/Assembly/Names.antt =====
-- compile_name writes the encoding that get_objname reads; a pointer to an offset of 64 or more
-- does not lead there.
use Prim.Native.Nat.{bit_and}
use mathlib.Core.List.{append_assoc, append-nil}
use dnrd.Prelude.{
  ℕ, zero, suc, ◌+◌, ◌%◌, ◌≤◌, ◌<◌, Bool, ◌≡◌, refl, ap, ◌∙◌, List, [], ◌∷◌, ◌++◌, map, arith, some,
  get_elem?, length, length-append, All,
}
use dnrd.Prelude.Bits.{bit_and_sixty_three}
use dnrd.Dns.Check.{udp_maxsize}
use dnrd.Text.{tolower, strnlwr}
use dnrd.Text.Lower.{strnlwr-append, length-strnlwr}
use dnrd.Dns.Objname.{ok, go, follow_pointer, get_objname}
use dnrd.Dns.Objname.RoundTrip.{wire, dotted, IsLabel, get_objname-wire}
use dnrd.Dns.Packet.Question.{IsPlain}
use dnrd.Master.Assembly.{
  Assembly, put, split_label, skip_dot, compile_labels, compile_name, compile_namepointer,
}

split_label-dot : (l t : List ℕ) → IsPlain l → split_label (l ++ (b'.' ∷ t)) ≡ (l, b'.' ∷ t)
unfolding split_label
split_label-dot [] t h = refl
split_label-dot (c ∷ l) t h = ground (arith, h.0.1, split_label-dot l t h.1)

split_label_lem : (l : List ℕ) → IsPlain l → split_label l ≡ (l, [])
unfolding split_label
split_label_lem [] h = refl
split_label_lem (c ∷ l) h = ground (arith, h.0.1, split_label_lem l h.1)

-- A label that `compile_name` can write: 1 to 63 bytes, none of them a NUL or a dot.
abbrev pub IsWritable : List ℕ → Type 0
IsWritable l = (1 ≤ length l) × (length l ≤ 63) × IsPlain l

compile_labels_end : (fuel : ℕ) → compile_labels fuel [] ≡ []
unfolding compile_labels
compile_labels_end zero = refl
compile_labels_end (suc fuel) = refl

pub compile_labels-dotted :
    (l : List ℕ) (ls : List (List ℕ)) (fuel : ℕ)
    → All IsWritable (l ∷ ls)
    → length (dotted (l ∷ ls)) ≤ fuel
    → compile_labels fuel (dotted (l ∷ ls)) ++ (0 ∷ []) ≡ wire (l ∷ ls)
unfolding compile_labels skip_dot
compile_labels-dotted l [] zero h f = absurd (omega (arith, h.0.0))
compile_labels-dotted l (m ∷ ls) zero h f =
    absurd (omega (arith, h.0.0, length-append l (b'.' ∷ dotted (m ∷ ls))))
compile_labels-dotted l [] (suc fuel) h f = ground (
  arith,
  h.0.0,
  h.0.1,
  split_label_lem l h.0.2,
  compile_labels_end fuel,
  append-nil l,
  bit_and_sixty_three (length l),
)
compile_labels-dotted l (m ∷ ls) (suc fuel) h f =
    let t : List ℕ = dotted (m ∷ ls) in
    ground (
      arith,
      h.0.0,
      h.0.1,
      split_label-dot l t h.0.2,
      length-append l (b'.' ∷ t),
      bit_and_sixty_three (length l),
      append_assoc l (compile_labels fuel t) (0 ∷ []),
      compile_labels-dotted m ls fuel h.1 (omega (arith, f, h.0.0, length-append l (b'.' ∷ t))),
    )

-- What `compile_name` appends for a name of labels.
pub compile_name-wire :
    (x : Assembly) (l : List ℕ) (ls : List (List ℕ))
    → All IsWritable (l ∷ ls)
    → (compile_name x (dotted (l ∷ ls))).0 ≡ record x { bytes = x.bytes ++ wire (l ∷ ls) }
unfolding compile_name
compile_name-wire x l ls h =
    ap (λ w. record x { bytes = x.bytes ++ w })
      (compile_labels-dotted l ls (length (dotted (l ∷ ls))) h (omega arith))

-- The names of labels of 1 to 63 accepted bytes, none a NUL or a dot, that `compile_name` writes
-- behind a header are decoded by `get_objname` to the same text, at the offset returned and whatever follows, if the text
-- fits the buffer.
pub get_objname-compile_name :
    (valid : ℕ → Bool) (x : Assembly) (rest : List ℕ) (l : List ℕ) (ls : List (List ℕ))
    (destsize : ℕ)
    → 12 ≤ length x.bytes
    → All (IsLabel valid) (l ∷ ls)
    → All IsWritable (l ∷ ls)
    → length (dotted (l ∷ ls)) + 1 < destsize
    → let (x', offset) = compile_name x (dotted (l ∷ ls)) in
      get_objname valid (x'.bytes ++ rest) destsize offset ≡ ok (length x'.bytes) (dotted (l ∷ ls))
get_objname-compile_name valid x rest l ls destsize h12 hl hw fits =
    let w : List ℕ = wire (l ∷ ls) in
    let e : (compile_name x (dotted (l ∷ ls))).0.bytes ≡ x.bytes ++ w =
      ap (λ (y : Assembly). y.bytes) (compile_name-wire x l ls hw) in
    let offset : (compile_name x (dotted (l ∷ ls))).1 ≡ length x.bytes =
      unfold compile_name in refl in
    rw (e, offset, append_assoc x.bytes w rest, length-append x.bytes w)
      (get_objname-wire valid x.bytes rest l ls destsize h12 hl fits)

-- Lower case keeps the labels apart.
pub strnlwr-dotted : (ls : List (List ℕ)) → strnlwr (dotted ls) ≡ dotted (map strnlwr ls)
unfolding strnlwr
strnlwr-dotted [] = refl
strnlwr-dotted (l ∷ []) = refl
strnlwr-dotted (l ∷ m ∷ ls) =
    unfold tolower in
    strnlwr-append l (b'.' ∷ dotted (m ∷ ls))
    ∙ ap (λ t. strnlwr l ++ (b'.' ∷ t)) (strnlwr-dotted (m ∷ ls))

strnlwr-IsPlain : (l : List ℕ) → IsPlain l → IsPlain (strnlwr l)
unfolding strnlwr tolower
strnlwr-IsPlain [] h = tt
strnlwr-IsPlain (c ∷ l) h = ((ground (arith, h.0.0), ground (arith, h.0.1)), strnlwr-IsPlain l h.1)

pub strnlwr-IsWritable : (ls : List (List ℕ)) → All IsWritable ls → All IsWritable (map strnlwr ls)
strnlwr-IsWritable [] h = tt
strnlwr-IsWritable (l ∷ ls) h = (
  (
    omega (arith, h.0.0, length-strnlwr l),
    omega (arith, h.0.1, length-strnlwr l),
    strnlwr-IsPlain l h.0.2,
  ),
  strnlwr-IsWritable ls h.1,
)

at_end : (s : List ℕ) (a b i : ℕ) → i ≡ length s + 1 → get_elem? (s ++ (a ∷ b ∷ [])) i ≡ some b
at_end [] a b zero e = absurd (omega arith)
at_end [] a b (suc zero) e = refl
at_end [] a b (suc (suc i)) e = absurd (omega arith)
at_end (c ∷ s) a b zero e = absurd (omega arith)
at_end (c ∷ s) a b (suc i) e = at_end s a b i (omega arith)

-- Behind the first byte of a pointer that `compile_namepointer` has just written, `get_objname`
-- goes on at the offset modulo 64, which is the offset itself only below 64.
pub follow_pointer-compile_namepointer :
    (x : Assembly) (offset : ℕ) (dest : List ℕ)
    → offset < length x.bytes
    → length x.bytes < udp_maxsize
    → let msg = (compile_namepointer x offset).bytes in
      let i = length x.bytes + 1 in
      follow_pointer msg 0xc0 (record { i = i; depth = 0; compressed = 0; dest = dest })
      ≡ go (record { i = offset % 64; depth = 1; compressed = i + 1; dest = dest })
unfolding follow_pointer compile_namepointer put
follow_pointer-compile_namepointer x offset dest h fits = ground (
  arith,
  bit_and_sixty_three offset,
  length-append x.bytes (0xc0 ∷ bit_and offset 0x3f ∷ []),
  at_end x.bytes 0xc0 (bit_and offset 0x3f) (length x.bytes + 1) refl,
)
