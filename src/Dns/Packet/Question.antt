-- ===== src/Dns/Packet/Question.antt =====
-- What parse_query returns on a question that is written as RFC 1035 asks, and on the root name.
use dnrd.Prelude.{
  ℕ, zero, suc, ◌+◌, ◌*◌, ◌%◌, ◌<◌, Bool, ◌≡◌, ◌≢◌, refl, ap, ◌∙◌, List, [], ◌∷◌, ◌++◌, some, arith,
  length, length-append, get_or, All, All-append,
}
use dnrd.Text.{strnlwr}
use dnrd.Dns.Check.{ntohs_at}
use dnrd.Dns.Objname.RoundTrip.{wire, dotted, IsLabel, get_objname-wire, get_objname-root}
use dnrd.Dns.Packet.{Rr, c_string, strip_dot, read_type_class, parse_query}

-- A byte of a label that the parser hands on as it is: no NUL and no dot.
abbrev pub IsPlain : List ℕ → Type 0
IsPlain l = All (λ c. (c ≢ 0) × (c ≢ b'.')) l

c_string_lem : (s : List ℕ) → All (λ c. c ≢ 0) s → c_string s ≡ s
unfolding c_string
c_string_lem [] h = refl
c_string_lem (c ∷ s) h = ground (arith, h.0, c_string_lem s h.1)

get_or-append :
    (pre t : List ℕ) (n i : ℕ) → n ≡ length pre + i → get_or (pre ++ t) n 0 ≡ get_or t i 0
get_or-append [] t n i e = ground (arith, e)
get_or-append (p ∷ pre) t zero i e = absurd (omega arith)
get_or-append (p ∷ pre) t (suc n) i e = get_or-append pre t n i (omega arith)

get_or-append_left :
    (pre t : List ℕ) (i : ℕ) → i < length pre → get_or (pre ++ t) i 0 ≡ get_or pre i 0
get_or-append_left [] t i h = absurd (omega arith)
get_or-append_left (p ∷ pre) t zero h = refl
get_or-append_left (p ∷ pre) t (suc i) h = get_or-append_left pre t i (omega arith)

strip_dot-append : (xs ys : List ℕ) → 0 < length ys → strip_dot (xs ++ ys) ≡ xs ++ strip_dot ys
unfolding strip_dot
strip_dot-append [] ys h = refl
strip_dot-append (x ∷ []) [] h = absurd (omega arith)
strip_dot-append (x ∷ []) (y ∷ ys) h = refl
strip_dot-append (x ∷ z ∷ xs) ys h = ap (◌∷◌ x) (strip_dot-append (z ∷ xs) ys h)

strip_dot-plain : (s : List ℕ) → IsPlain s → strip_dot s ≡ s
unfolding strip_dot
strip_dot-plain [] h = refl
strip_dot-plain (c ∷ []) h = ground (arith, h.0)
strip_dot-plain (c ∷ d ∷ s) h = ap (◌∷◌ c) (strip_dot-plain (d ∷ s) h.1)

dotted_nonempty :
    (valid : ℕ → Bool) (l : List ℕ) (ls : List (List ℕ))
    → IsLabel valid l
    → 0 < length (dotted (l ∷ ls))
dotted_nonempty valid l [] h = h.0
dotted_nonempty valid l (m ∷ ls) h = omega (arith, h.0, length-append l (b'.' ∷ dotted (m ∷ ls)))

strip_dot-dotted :
    (valid : ℕ → Bool) (l : List ℕ) (ls : List (List ℕ))
    → All (IsLabel valid) (l ∷ ls)
    → All IsPlain (l ∷ ls)
    → strip_dot (dotted (l ∷ ls)) ≡ dotted (l ∷ ls)
strip_dot-dotted valid l [] h p = strip_dot-plain l p.0
strip_dot-dotted valid l (m ∷ ls) h p =
    let d : List ℕ = dotted (m ∷ ls) in
    strip_dot-append l (b'.' ∷ d) (omega arith)
    ∙ ap (◌++◌ l) (
        strip_dot-append (b'.' ∷ []) d (dotted_nonempty valid m ls h.1.0)
        ∙ ap (◌∷◌ b'.') (strip_dot-dotted valid m ls h.1 p.1))

no_nul : (s : List ℕ) → IsPlain s → All (λ c. c ≢ 0) s
no_nul [] h = tt
no_nul (c ∷ s) h = (h.0.0, no_nul s h.1)

dotted_no_nul : (ls : List (List ℕ)) → All IsPlain ls → All (λ c. c ≢ 0) (dotted ls)
dotted_no_nul [] h = tt
dotted_no_nul (l ∷ []) h = no_nul l h.0
dotted_no_nul (l ∷ m ∷ ls) h =
    All-append (λ c. c ≢ 0) l (b'.' ∷ dotted (m ∷ ls)) (no_nul l h.0)
      (omega arith, dotted_no_nul (m ∷ ls) h.1)

-- The text of plain labels is a C string.
pub c_string-dotted :
    (l : List ℕ) (ls : List (List ℕ))
    → All IsPlain (l ∷ ls)
    → c_string (dotted (l ∷ ls)) ≡ dotted (l ∷ ls)
c_string-dotted l ls h = c_string_lem (dotted (l ∷ ls)) (dotted_no_nul (l ∷ ls) h)

get_or_behind :
    (xs ys t : List ℕ) (n i : ℕ)
    → n ≡ length xs + length ys + i
    → get_or (xs ++ (ys ++ t)) n 0 ≡ get_or t i 0
get_or_behind xs ys t n i e =
    get_or-append xs (ys ++ t) n (length ys + i) (omega arith)
    ∙ get_or-append ys t (length ys + i) i refl

-- The type and the class that follow a name.
read_type_class_lem :
    (hdr w rest : List ℕ) (t1 t0 c1 c0 : ℕ) (y : Rr)
    → read_type_class (hdr ++ (w ++ (t1 ∷ t0 ∷ c1 ∷ c0 ∷ rest))) (length hdr + length w) y
      ≡ some (record y { type = t1 * 256 + t0; class = c1 * 256 + c0 })
unfolding read_type_class
read_type_class_lem hdr w rest t1 t0 c1 c0 y =
    let t : List ℕ = t1 ∷ t0 ∷ c1 ∷ c0 ∷ rest in
    let i : ℕ = length hdr + length w in
    ground (
      arith,
      length-append hdr (w ++ t),
      length-append w t,
      get_or_behind hdr w t i 0 (omega arith),
      get_or_behind hdr w t (i + 1) 1 (omega arith),
      get_or_behind hdr w t (i + 2) 2 (omega arith),
      get_or_behind hdr w t (i + 2 + 1) 3 (omega arith),
    )

-- On a packet with a 12-byte header that counts a question, whose first question is a name of
-- labels without NULs and dots, shorter than the buffer, `parse_query` returns the header's flags,
-- the name as lower-case dotted text, and the type and the class behind it.
pub parse_query-wire :
    (valid : ℕ → Bool) (y : Rr) (hdr : List ℕ) (l : List ℕ) (ls : List (List ℕ)) (t1 t0 c1 c0 : ℕ)
    (rest : List ℕ)
    → length hdr ≡ 12
    → ntohs_at hdr 4 ≢ 0
    → All (IsLabel valid) (l ∷ ls)
    → All IsPlain (l ∷ ls)
    → length (dotted (l ∷ ls)) < 255
    → parse_query valid y (hdr ++ (wire (l ∷ ls) ++ (t1 ∷ t0 ∷ c1 ∷ c0 ∷ rest)))
      ≡ some (record y {
        flags = ntohs_at hdr 2;
        name = strnlwr (dotted (l ∷ ls));
        type = t1 * 256 + t0;
        class = c1 * 256 + c0;
      })
unfolding parse_query
parse_query-wire valid y hdr l ls t1 t0 c1 c0 rest h12 hq hl hp fits =
    let w : List ℕ = wire (l ∷ ls) in
    let t : List ℕ = t1 ∷ t0 ∷ c1 ∷ c0 ∷ rest in
    ground (
      arith,
      get_objname-wire valid hdr t l ls 256,
      get_or-append_left hdr (w ++ t) 2,
      get_or-append_left hdr (w ++ t) 3,
      get_or-append_left hdr (w ++ t) 4,
      get_or-append_left hdr (w ++ t) 5,
      c_string-dotted l ls hp,
      strip_dot-dotted valid l ls hl hp,
      read_type_class_lem hdr w rest t1 t0 c1 c0
          (record y { flags = ntohs_at hdr 2; name = dotted (l ∷ ls) }),
    )

-- On the root name (a zero byte in place of labels), `parse_query` returns what its output buffer
-- held before, cleaned, as the name, and flags whose high byte, with QR and the opcode, is lost.
pub parse_query-root :
    (valid : ℕ → Bool) (y : Rr) (hdr : List ℕ) (t1 t0 c1 c0 : ℕ) (rest : List ℕ)
    → length hdr ≡ 12
    → ntohs_at hdr 4 ≢ 0
    → parse_query valid y (hdr ++ (0 ∷ t1 ∷ t0 ∷ c1 ∷ c0 ∷ rest))
      ≡ some (record y {
        flags = ntohs_at hdr 2 % 256;
        name = strnlwr (strip_dot y.name);
        type = t1 * 256 + t0;
        class = c1 * 256 + c0;
      })
unfolding parse_query
parse_query-root valid y hdr t1 t0 c1 c0 rest h12 hq =
    let t : List ℕ = t1 ∷ t0 ∷ c1 ∷ c0 ∷ rest in
    ground (
      arith,
      get_objname-root valid hdr t 256,
      get_or-append_left hdr (0 ∷ t) 2,
      get_or-append_left hdr (0 ∷ t) 3,
      get_or-append_left hdr (0 ∷ t) 4,
      get_or-append_left hdr (0 ∷ t) 5,
      read_type_class_lem hdr (0 ∷ []) rest t1 t0 c1 c0 (record y { flags = ntohs_at hdr 2 % 256 }),
    )
