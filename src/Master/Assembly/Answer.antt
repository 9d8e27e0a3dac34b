-- ===== src/Master/Assembly/Answer.antt =====
-- An assembled packet begins with the question that it answers.
use mathlib.Core.List.{append_assoc, append-nil}
use dnrd.Prelude.{
  ℕ, zero, suc, ◌+◌, ◌-◌, ◌/◌, ◌%◌, ◌^◌, ◌≤◌, ◌≡◌, ◌⊎◌, inl, inr, refl, sym, ap, ◌∙◌, List, [], ◌∷◌,
  ◌++◌, Option, none, some, arith, ltb, length, length-append, drop, set, All, Bool-cases,
  Option-cases, ◌==◌, if◌then◌else◌,
}
use dnrd.Dns.Flags.{set_aa, set_qr}
use dnrd.Dns.Packet.{Rr}
use dnrd.Dns.Objname.RoundTrip.{wire, dotted}
use dnrd.Cache.{dns_class_inet}
use dnrd.Master.{Database, dns_lookup, dns_type_ns, default_ttl}
use dnrd.Master.Assembly.{
  Assembly, put, compile_name, compile_namepointer, compile_labels, htons, compile_int,
  compile_long, compile_objectname, write_int, end_rdata, start_rdata, end_assembly, begin_assembly,
  compile_type, compile_name_rdata, compile_dnsrecord, dnsrecords_loop, compile_dnsrecords,
}
use dnrd.Master.Assembly.Names.{IsWritable, compile_labels-dotted}

-- The index of a length to fill in lies at or behind `n`.
abbrev IsBehind : ℕ → Option ℕ → Type 0
IsBehind n none = Unit
IsBehind n (some i) = n ≤ i

-- An assembly of a reply with one question, that begins with `pre`.
unfoldable pub Begins : List ℕ → Assembly → Type 0
Begins pre x =
    ((tail : List ℕ) × (x.bytes ≡ pre ++ tail))
    × IsBehind (length pre) x.rdata
    × (x.qdcount ≡ 1)
    × ((x.u ≡ 0x8000) ⊎ (x.u ≡ 0x8400))

set-append :
    (pre tail : List ℕ) (i v : ℕ)
    → length pre ≤ i
    → (t : List ℕ) × (set (pre ++ tail) i v ≡ pre ++ t)
set-append [] tail i v h = (set tail i v, refl)
set-append (p ∷ pre) tail zero v h = absurd (omega arith)
set-append (p ∷ pre) tail (suc i) v h =
    let (t, e) = set-append pre tail i v (omega arith) in (t, ap (◌∷◌ p) e)

module _ (pre : List ℕ) where
  put-Begins : (x : Assembly) (more : List ℕ) → Begins pre x → Begins pre (put x more)
  unfolding Begins put
  put-Begins x more ((tail, e), r, q, u) =
      ((tail ++ more, ap (λ (b : List ℕ). b ++ more) e ∙ append_assoc pre tail more), r, q, u)

  end_rdata-Begins : (x : Assembly) → Begins pre x → Begins pre (end_rdata x)
  unfolding Begins end_rdata write_int
  end_rdata-Begins x h = go x.rdata h
    where
      go :
          (r : Option ℕ)
          → Begins pre (record x { rdata = r })
          → Begins pre (end_rdata (record x { rdata = r }))
      go none h = h
      go (some i) ((tail, e), r, q, u) =
          let size : ℕ = length x.bytes - (i + 2) in
          let (t1, e1) = set-append pre tail i (size / 256 % 256) r in
          let (t2, e2) = set-append pre t1 (i + 1) (size % 256) (omega (arith, r)) in
          (
            (
              t2,
              ap (λ (b : List ℕ). set (set b i (size / 256 % 256)) (i + 1) (size % 256)) e
                  ∙ ap (λ (b : List ℕ). set b (i + 1) (size % 256)) e1
                  ∙ e2,
            ),
            tt,
            q,
            u,
          )

  start_rdata-Begins : (x : Assembly) → Begins pre x → Begins pre (start_rdata x)
  unfolding Begins start_rdata compile_int
  start_rdata-Begins x ((tail, e), r, q, u) =
      put-Begins (record x { rdata = some (length x.bytes) }) (htons 0)
        ((tail, e), omega (arith, ap length e, length-append pre tail), q, u)

  compile_int-Begins : (x : Assembly) (n : ℕ) → Begins pre x → Begins pre (compile_int x n)
  unfolding compile_int
  compile_int-Begins x n h = put-Begins x (htons n) h

  compile_long-Begins : (x : Assembly) (n : ℕ) → Begins pre x → Begins pre (compile_long x n)
  unfolding compile_long
  compile_long-Begins x n h = put-Begins x (htons (n / 2 ^ 16) ++ htons n) h

  compile_name-Begins :
      (x : Assembly) (name : List ℕ) → Begins pre x → Begins pre (compile_name x name).0
  unfolding compile_name
  compile_name-Begins x name h = put-Begins x (compile_labels (length name) name ++ (0 ∷ [])) h

  compile_namepointer-Begins :
      (x : Assembly) (offset : ℕ) → Begins pre x → Begins pre (compile_namepointer x offset)
  unfolding compile_namepointer
  compile_namepointer-Begins x offset h = put-Begins x _ h

  pub compile_objectname-Begins : (x : Assembly) → Begins pre x → Begins pre (compile_objectname x)
  unfolding compile_objectname
  compile_objectname-Begins x h = put-Begins x (0xc0 ∷ 0x0c ∷ []) h

  pub compile_type-Begins :
      (x : Assembly) (type : ℕ) → Begins pre x → Begins pre (compile_type x type)
  unfolding compile_type
  compile_type-Begins x type h =
      compile_long-Begins _ default_ttl
        (compile_int-Begins _ dns_class_inet (compile_int-Begins x type h))

  pub compile_name_rdata-Begins :
      (x : Assembly) (name : List ℕ) → Begins pre x → Begins pre (compile_name_rdata x name)
  unfolding compile_name_rdata
  compile_name_rdata-Begins x name h =
      end_rdata-Begins _ (compile_name-Begins _ name (start_rdata-Begins x h))

  pub compile_long_rdata-Begins :
      (x : Assembly) (n : ℕ)
      → Begins pre x
      → Begins pre (end_rdata (compile_long (start_rdata x) n))
  compile_long_rdata-Begins x n h =
      end_rdata-Begins _ (compile_long-Begins _ n (start_rdata-Begins x h))

  pub counts-Begins :
      (x : Assembly) (a n : ℕ) → Begins pre x → Begins pre (record x { ancount = a; nscount = n })
  unfolding Begins
  counts-Begins x a n h = h

  compile_dnsrecord-Begins :
      (x : Assembly) (pos : ℕ) (object server : List ℕ)
      → Begins pre x
      → Begins pre (compile_dnsrecord x pos object server).0
  unfolding compile_dnsrecord
  compile_dnsrecord-Begins x pos object server h =
      let named = if pos == 0 then compile_name x object else (compile_namepointer x pos, pos) in
      let hn : Begins pre named.0 = elim (Bool-cases (pos == 0)) [
        | inl e ↦ rw e (compile_name-Begins x object h)
        | inr e ↦ rw e (compile_namepointer-Begins x pos h)
      ] in
      let x' = compile_name_rdata (compile_type named.0 dns_type_ns) server in
      counts-Begins x' x'.ancount (x'.nscount + 1) (
        compile_name_rdata-Begins (compile_type named.0 dns_type_ns) server
          (compile_type-Begins named.0 dns_type_ns hn))

  dnsrecords_loop-Begins :
      (fuel : ℕ) (db : Database) (object : List ℕ) (last : Option ℕ) (x : Assembly) (pos : ℕ)
      → Begins pre x
      → Begins pre (dnsrecords_loop fuel db object last x pos)
  unfolding dnsrecords_loop
  dnsrecords_loop-Begins zero db object last x pos h = h
  dnsrecords_loop-Begins (suc fuel) db object last x pos h =
      elim (Option-cases (dns_lookup db object last)) [
        | inl e ↦ rw (e, dnsrecords_loop) h
        | inr ((i, name, server), e) ↦
            let (x', pos') = compile_dnsrecord x pos name server in
            rw (e, dnsrecords_loop)
              (dnsrecords_loop-Begins fuel db object (some i) x' pos'
                (compile_dnsrecord-Begins x pos name server h))
      ]

  pub set_aa-Begins : (x : Assembly) → Begins pre x → Begins pre (record x { u = set_aa x.u 1 })
  unfolding Begins set_aa
  set_aa-Begins x (t, r, q, inl u) = (t, r, q, inr (rw u refl))
  set_aa-Begins x (t, r, q, inr u) = (t, r, q, inr (rw u refl))

  pub compile_dnsrecords-Begins :
      (db : Database) (x : Assembly) (object : List ℕ)
      → Begins pre x
      → Begins pre (compile_dnsrecords db x object)
  unfolding compile_dnsrecords
  compile_dnsrecords-Begins db x object h =
      let x' = dnsrecords_loop (length db.dbv) db object none x 0 in
      let h' = dnsrecords_loop-Begins (length db.dbv) db object none x 0 h in
      elim (Bool-cases (ltb 0 x'.nscount)) [ inl e ↦ rw e (set_aa-Begins x' h') | inr e ↦ rw e h' ]

drop-append : (pre t : List ℕ) (n : ℕ) → length pre ≡ n → drop n (pre ++ t) ≡ t
drop-append [] t zero e = refl
drop-append [] t (suc n) e = absurd (omega arith)
drop-append (p ∷ pre) t zero e = absurd (omega arith)
drop-append (p ∷ pre) t (suc n) e = drop-append pre t n (omega arith)

-- The packet without its id, of an assembly that begins with a header and a question.
pub end_assembly-Begins :
    (pre q : List ℕ) (x : Assembly)
    → length pre ≡ 12
    → Begins (pre ++ q) x
    → (u : ℕ) × (h tail : List ℕ) × ((u ≡ 0x8000) ⊎ (u ≡ 0x8400))
      × (length h ≡ 6)
      × (end_assembly x ≡ 0 ∷ 0 ∷ (u / 256) ∷ (u % 256) ∷ 0 ∷ 1 ∷ (h ++ (q ++ tail)))
unfolding end_assembly htons Begins
end_assembly-Begins pre q x p12 b =
    let y : Assembly = end_rdata x in
    let ((tail, e), r, one, u) = end_rdata-Begins (pre ++ q) x b in
    let dropped : drop 12 y.bytes ≡ q ++ tail =
      ap (drop 12) (e ∙ append_assoc pre q tail) ∙ drop-append pre (q ++ tail) 12 p12 in
    (
      y.u,
      htons y.ancount ++ (htons y.nscount ++ htons y.arcount),
      tail,
      u,
      refl,
      ground (arith, one, u, dropped),
    )

-- The question of a query, as `begin_assembly` writes it.
abbrev pub question : List ℕ → ℕ → ℕ → List ℕ
question w type class = w ++ (htons type ++ htons class)

abbrev pub zeros : List ℕ
zeros = 0 ∷ 0 ∷ 0 ∷ 0 ∷ 0 ∷ 0 ∷ 0 ∷ 0 ∷ 0 ∷ 0 ∷ 0 ∷ 0 ∷ []

pub begin_assembly-Begins :
    (query : Rr) (l : List ℕ) (ls : List (List ℕ))
    → query.name ≡ dotted (l ∷ ls)
    → All IsWritable (l ∷ ls)
    → Begins (zeros ++ question (wire (l ∷ ls)) query.type query.class) (begin_assembly query)
unfolding begin_assembly Begins compile_int put set_qr
begin_assembly-Begins query l ls e h =
    let w : List ℕ = wire (l ∷ ls) in
    let ty : List ℕ = htons query.type in
    let named : compile_labels (length query.name) query.name ++ (0 ∷ []) ≡ w =
      rw e (compile_labels-dotted l ls (length (dotted (l ∷ ls))) h (omega arith)) in
    let bytes : (begin_assembly query).bytes ≡ (zeros ++ question w query.type query.class) ++ [] =
      ap (λ (v : List ℕ). zeros ++ ((v ++ ty) ++ htons query.class)) named
      ∙ ap (λ (v : List ℕ). zeros ++ v) (append_assoc w ty (htons query.class))
      ∙ sym (append-nil (zeros ++ question w query.type query.class)) in
    (([], bytes), tt, refl, inl refl)
