-- ===== src/Wal/Segment/ReadAll.antt =====
-- `read_all` on what `append` wrote.
use native.Mathlib.Decide.{dec_lt}
use native.Mathlib.Nat.{add-zero, add_assoc}
use rstmdb.Base.{
  ℕ, subst, All-append_right, take-take, min, zero, suc, ◌+◌, ◌≡◌, ◌≤◌, ◌<◌, refl, sym, ap, ◌∙◌,
  List, [], ◌∷◌, ◌++◌, arith, some, none, length, take, drop, length-append, length-drop,
  append-nil, append_assoc, front_of_le, front_of_ge, All,
}
use rstmdb.Base.Result.{Result, ok}
use rstmdb.Wal.Record.{WalRecord, WalError, decode, disk_size, layout, record_header_size}
use rstmdb.Wal.Record.RoundTrip.{IsValid, decode-layout, decode-take, length-layout, decode_short}
use rstmdb.Wal.Segment.{Progress, drain, read_loop, read_all}

-- The bytes of a segment that holds these records, one behind the other.
abbrev pub layouts : List WalRecord → List ℕ
layouts [] = []
layouts (r ∷ rs) = layout r ++ layouts rs

abbrev pub total : List WalRecord → ℕ
total [] = 0
total (r ∷ rs) = disk_size r + total rs

-- The records with the offsets at which they stand.
abbrev pub placed : ℕ → List WalRecord → List (ℕ × WalRecord)
placed offset [] = []
placed offset (r ∷ rs) = (offset, r) ∷ placed (offset + disk_size r) rs

pub placed-append :
    (offset : ℕ) (rs qs : List WalRecord)
    → placed offset (rs ++ qs) ≡ placed offset rs ++ placed (offset + total rs) qs
placed-append offset [] qs = rw add-zero
placed-append offset (r ∷ rs) qs =
    ap (◌∷◌ (offset, r)) (placed-append (offset + disk_size r) rs qs ∙ rw add_assoc)

-- The pieces that `read` returned, put together again.
abbrev pub joined : List (List ℕ) → List ℕ
joined [] = []
joined (c ∷ cs) = c ++ joined cs

pub disk_size-ge : (r : WalRecord) → record_header_size ≤ disk_size r
unfolding disk_size
disk_size-ge r = omega arith

module _ (crc : List ℕ → ℕ) where
  -- Bytes behind the last whole record: no front of them is taken for a record or for an error.
  abbrev pub Torn : List ℕ → Type 0
  Torn tail = (k offset : ℕ) → decode crc (take k tail) offset ≡ (ok none, take k tail)

  -- The next record is not whole in the buffer yet.
  abbrev Waits : List ℕ → List WalRecord → Type 0
  Waits buf [] = Unit
  Waits buf (r ∷ rs) = length buf < disk_size r

  record Drained (p : Progress) (more tail : List ℕ) (rs : List WalRecord)
      (result : Result WalError Progress) : Type 0 where
    taken : List WalRecord
    left : List WalRecord
    end : Progress
    split : rs ≡ taken ++ left
    returns : result ≡ ok end
    records : end.records ≡ p.records ++ placed p.offset taken
    offset : end.offset ≡ p.offset + total taken
    stream : end.buf ++ more ≡ layouts left ++ tail
    waits : Waits end.buf left

  drain-none :
      (fuel : ℕ) (p : Progress)
      → decode crc p.buf p.offset ≡ (ok none, p.buf)
      → drain crc (suc fuel) p ≡ ok p
  unfolding drain
  drain-none fuel p e = rw e (ground arith)

  drain-some :
      (fuel : ℕ) (p : Progress) (r : WalRecord) (rest : List ℕ)
      → record_header_size ≤ length p.buf
      → decode crc p.buf p.offset ≡ (ok (some r), rest)
      → drain crc (suc fuel) p
        ≡ drain crc fuel (record {
          buf = rest;
          offset = p.offset + disk_size r;
          records = p.records ++ ((p.offset, r) ∷ []);
        })
  unfolding drain
  drain-some fuel p r rest h e =
      let taken : (decode crc p.buf p.offset).0 ≡ ok (some r) = ap (λ t. t.0) e in
      let kept : (decode crc p.buf p.offset).1 ≡ rest = ap (λ t. t.1) e in
      rw (taken, kept) (ground arith)

  drain-Drained :
      (fuel : ℕ) (p : Progress) (more tail : List ℕ) (rs : List WalRecord)
      → length p.buf < fuel
      → All (IsValid crc) rs
      → Torn tail
      → p.buf ++ more ≡ layouts rs ++ tail
      → Drained p more tail rs (drain crc fuel p)
  drain-Drained zero p more tail rs h v t e = absurd (omega arith)
  drain-Drained (suc fuel) p more tail [] h v t e = record {
    taken = [];
    left = [];
    end = p;
    split = refl;
    returns = drain-none fuel p (
        rw
          (front_of_le p.buf more tail [] (e ∙ sym (append-nil tail))
            (omega (arith, ap length e, length-append p.buf more)))
          (t (length p.buf) p.offset));
    records = sym (append-nil p.records);
    offset = omega arith;
    stream = e;
    waits = tt;
  }
  drain-Drained (suc fuel) p more tail (r ∷ rs) h v t e =
      elim (dec_lt (length p.buf) (disk_size r)) [
        | yes short ↦ record {
          taken = [];
          left = r ∷ rs;
          end = p;
          split = refl;
          returns = drain-none fuel p (
              rw
                (front_of_le p.buf more (layout r) (layouts rs ++ tail)
                  (e ∙ append_assoc (layout r) (layouts rs) tail)
                  (omega (arith, length-layout crc r)))
                (decode-take crc r (length p.buf) p.offset v.0 short));
          records = sym (append-nil p.records);
          offset = omega arith;
          stream = e;
          waits = short;
        }
        | no long ↦
            let rest = drop (length (layout r)) p.buf in
            let next : Progress = record {
              buf = rest;
              offset = p.offset + disk_size r;
              records = p.records ++ ((p.offset, r) ∷ []);
            } in
            let whole =
              front_of_ge p.buf more (layout r) (layouts rs ++ tail)
                (e ∙ append_assoc (layout r) (layouts rs) tail)
                (omega (arith, length-layout crc r)) in
            let read : decode crc p.buf p.offset ≡ (ok (some r), rest) =
              ap (λ b. decode crc b p.offset) whole.0 ∙ decode-layout crc r rest p.offset v.0 in
            let later =
              drain-Drained fuel next more tail rs
                (omega (
                  arith,
                  length-layout crc r,
                  disk_size-ge r,
                  length-drop (length (layout r)) p.buf,
                ))
                v.1 t whole.1 in
            record {
              taken = r ∷ later.taken;
              left = later.left;
              end = later.end;
              split = ap (◌∷◌ r) later.split;
              returns =
                  drain-some fuel p r rest (omega (arith, disk_size-ge r)) read ∙ later.returns;
              records =
                  later.records
                  ∙ append_assoc p.records ((p.offset, r) ∷ [])
                      (placed (p.offset + disk_size r) later.taken);
              offset = omega (arith, later.offset);
              stream = later.stream;
              waits = later.waits;
            }
      ]

  regroup :
      (p : Progress) (more tail : List ℕ) (rs : List WalRecord) (result : Result WalError Progress)
      (d : Drained p more tail rs result)
      → d.end.records ++ placed d.end.offset d.left ≡ p.records ++ placed p.offset rs
  regroup p more tail rs result d = rw (d.records, d.offset, d.split, placed-append, append_assoc)

  no_records_left :
      (p : Progress) (tail : List ℕ) (rs : List WalRecord)
      → p.buf ++ [] ≡ layouts rs ++ tail
      → Waits p.buf rs
      → rs ≡ []
  no_records_left p tail [] e w = refl
  no_records_left p tail (r ∷ rs) e w = absurd (
      omega (
        arith,
        ap length e,
        length-append p.buf [],
        length-append (layout r ++ layouts rs) tail,
        length-append (layout r) (layouts rs),
        length-layout crc r,
      ))

  read_loop-records :
      (cs : List (List ℕ)) (p : Progress) (tail : List ℕ) (rs : List WalRecord)
      → All (IsValid crc) rs
      → Torn tail
      → p.buf ++ joined cs ≡ layouts rs ++ tail
      → Waits p.buf rs
      → (q : Progress) × (read_loop crc cs p ≡ ok q) × (q.records ≡ p.records ++ placed p.offset rs)
  unfolding read_loop
  read_loop-records [] p tail rs v t e w =
      (p, refl, rw (no_records_left p tail rs e w) (sym (append-nil p.records)))
  read_loop-records (c ∷ cs) p tail rs v t e w =
      let p0 : Progress = record p { buf = p.buf ++ c } in
      let d =
        drain-Drained (suc (length p0.buf)) p0 (joined cs) tail rs (omega arith) v t
          (append_assoc p.buf c (joined cs) ∙ e) in
      let valid =
        All-append_right (IsValid crc) d.taken d.left (subst (All (IsValid crc)) d.split v) in
      let (q, returns, records) = read_loop-records cs d.end tail d.left valid t d.stream d.waits in
      (q, rw d.returns returns, records ∙ regroup p0 (joined cs) tail rs _ d)

  -- Whatever pieces the reads of a file return, if it holds valid records and behind them a tail of
  -- which no part decodes to a record or an error, `read_all` returns just these records, in their
  -- order, each with the offset at which it stands.
  pub read_all-layouts :
      (chunks : List (List ℕ)) (rs : List WalRecord) (tail : List ℕ)
      → All (IsValid crc) rs
      → Torn tail
      → joined chunks ≡ layouts rs ++ tail
      → read_all crc chunks ≡ ok (placed 0 rs)
  unfolding read_all
  read_all-layouts chunks rs tail v t e =
      let (q, returns, records) =
        read_loop-records chunks (record { buf = []; offset = 0; records = [] }) tail rs v t e
          (start rs) in
      rw (returns, records)
    where
      start : (rs : List WalRecord) → Waits [] rs
      start [] = tt
      start (r ∷ rs) = omega (arith, disk_size-ge r)

  -- Nothing, or a record that was cut short.
  pub Torn-nil : Torn []
  Torn-nil zero offset = decode_short crc [] offset (omega arith)
  Torn-nil (suc k) offset = decode_short crc [] offset (omega arith)

  pub Torn-take :
      (r : WalRecord) (n : ℕ) → IsValid crc r → n < disk_size r → Torn (take n (layout r))
  Torn-take r n v h k offset = rw take-take (decode-take crc r (min k n) offset v (omega arith))
