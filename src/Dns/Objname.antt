-- ===== src/Dns/Objname.antt =====
-- dnrd-2.20.3/src/dns.c: init_dns and get_objname, which decodes a name of a packet into dotted
-- text, following compression pointers. The packet is a list of bytes, and `msgsize` its length.
-- A read outside it, or a write past the end of `dest`, would be `fault`; `stuck` stands for a loop
-- that has not ended on its fuel.
pub mod Safety
pub mod RoundTrip
use Prim.Native.Nat.{bit_and}
use dnrd.Prelude.{
  ℕ, zero, suc, ◌+◌, ◌-◌, ◌*◌, ◌≤◌, ◌<◌, Bool, true, false, ◌&&◌, ◌||◌, List, [], ◌∷◌, ◌++◌, arith,
  none, some, leb, ltb, ◌==◌, if◌then◌else◌, length, get_elem?, take, not,
}
use dnrd.Dns.Check.{udp_maxsize}

-- `init_dns`: the table of the characters that a label may hold; every entry is set beforehand to
-- `tolerant_mode`.
unfoldable pub valid_char : Bool → ℕ → Bool
valid_char tolerant_mode c =
    tolerant_mode
    || (leb b'0' c && leb c b'9')
    || (leb b'A' c && leb c b'Z')
    || (leb b'a' c && leb c b'z')
    || c == b'-'

pub data Decode : Type 0 where
  -- The index after the name, and the bytes of `dest` before the closing NUL.
  ok : ℕ → List ℕ → Decode
  -- The empty name: `--j` makes `j` -1, and the NUL goes to `dest[-1]`, the byte before the buffer;
  -- `dest[0]` is not written.
  root : ℕ → Decode
  -- The return value -1.
  bad : Decode
  fault : Decode
  stuck : Decode

-- The locals of the loop; `j` is the length of what is written to `dest`.
pub record Scan : Type 0 where
  pub i : ℕ
  pub depth : ℕ
  pub compressed : ℕ
  pub dest : List ℕ

pub data Next : Type 0 where
  go : Scan → Next
  stop : Decode → Next

-- `while (c--)`: the `c` bytes of a label from index `i` go to `dest`, of `destsize` bytes.
unfoldable pub copy_label : (ℕ → Bool) → List ℕ → ℕ → ℕ → ℕ → List ℕ → Decode
copy_label valid msg destsize zero i dest = ok i dest
copy_label valid msg destsize (suc c) i dest = elim (get_elem? msg i) [
  | none ↦ fault
  | some b ↦ elim (valid b) [
    | true ↦ elim (leb destsize (length dest)) [
      | true ↦ fault
      | false ↦ copy_label valid msg destsize c (i + 1) (dest ++ (b ∷ []))
    ]
    | false ↦ bad
  ]
]

-- The branch of a pointer; `i` is already past its first byte `c`.
unfoldable pub follow_pointer : List ℕ → ℕ → Scan → Next
follow_pointer msg c s =
    if leb (length msg) s.i
    then stop bad
    else if leb (length msg) (s.depth + 1) || ltb udp_maxsize (s.depth + 1)
    then stop bad
    else elim (get_elem? msg s.i) [
      | none ↦ stop fault
      | some low ↦
          if leb (length msg) (bit_and c 0x3f * 256 + low)
          then stop bad
          else go (record {
            i = bit_and c 0x3f * 256 + low;
            depth = s.depth + 1;
            compressed = if s.compressed == 0 then s.i + 1 else s.compressed;
            dest = s.dest;
          })
    ]

-- The branch of a label of `c` bytes.
unfoldable pub read_label : (ℕ → Bool) → List ℕ → ℕ → ℕ → Scan → Next
unfolding copy_label
read_label valid msg destsize c s =
    if leb destsize (length s.dest + c + 1) || leb (length msg) (s.i + c)
    then stop bad
    else elim (copy_label valid msg destsize c s.i s.dest) [
      | ok i dest ↦
          if leb destsize (length dest)
          then stop fault
          else go (record s { i = i; dest = dest ++ (b'.' ∷ []) })
      | root i ↦ stop (root i)
      | bad ↦ stop bad
      | fault ↦ stop fault
      | stuck ↦ stop stuck
    ]

-- After the loop: the last dot gives way to the NUL.
unfoldable pub finish : ℕ → ℕ → ℕ → List ℕ → Decode
finish destsize compressed i [] = root (if compressed == 0 then i else compressed)
finish destsize compressed i (b ∷ dest) =
    if leb destsize (length dest)
    then bad
    else ok (if compressed == 0 then i else compressed) (take (length dest) (b ∷ dest))

-- One test of the loop's condition, which reads `msg[i++]`, with the round that follows.
unfoldable pub scan_step : (ℕ → Bool) → List ℕ → ℕ → Scan → Next
unfolding follow_pointer read_label finish
scan_step valid msg destsize s = elim (get_elem? msg s.i) [
  | none ↦ stop fault
  | some c ↦
      if c == 0
      then stop (finish destsize s.compressed (s.i + 1) s.dest)
      else if leb (length msg) (s.i + 1)
      then stop bad
      else if bit_and c 0xc0 == 0xc0
      then follow_pointer msg c (record s { i = s.i + 1 })
      else if ltb c 64
      then read_label valid msg destsize c (record s { i = s.i + 1 })
      else stop bad
]

unfoldable pub scan : ℕ → (ℕ → Bool) → List ℕ → ℕ → Scan → Decode
unfolding scan_step
scan zero valid msg destsize s = stuck
scan (suc fuel) valid msg destsize s = elim (scan_step valid msg destsize s) [
  | go s' ↦ scan fuel valid msg destsize s'
  | stop r ↦ r
]

-- Each round raises `depth`, which stays below the length of the packet, or the length of `dest`,
-- which stays below `destsize`.
unfoldable pub get_objname : (ℕ → Bool) → List ℕ → ℕ → ℕ → Decode
unfolding scan
get_objname valid msg destsize index =
    if ltb index 12 || leb (length msg) index
    then bad
    else scan (length msg + destsize + 1) valid msg destsize
        (record { i = index; depth = 0; compressed = 0; dest = [] })
