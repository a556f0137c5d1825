-- ===== src/Export/Header.antt =====
-- The header and the signature of an exported file, read by `index` of apkgdb/index.go.
use apkg.Prelude.{
  ℕ, zero, suc, ◌-◌, ◌^◌, ◌≤◌, ◌<◌, ◌≡◌, ◌≢◌, refl, ap, sym, ◌∙◌, [], ◌∷◌, ◌++◌, length, take, drop,
  arith, append_assoc, append-nil, length-append, drop-length-append, Option-cases,
}
use apkg.Prelude.Bytes.{Bytes, codes, bytes_eq_refl, index_byte}
use apkg.Prelude.Map.{be_uint, be_uint_from}
use apkg.Errors.{ok}
use apkg.Pin.Laws.{HasNoZero}
use apkg.OsArch.{parse_os, parse_arch}
use apkg.Sig.{read_full, verify, VerifyResult}
use apkg.Format.{zeros, put_u32, put_u64}
use apkg.Format.RoundTrip.{
  read_full-Reads, read_be-put_u32, read_be-put_u64, be_uint-put_u32, be_uint-put_u64, length-zeros,
}
use apkg.Import.{Tools, before_zero, read_header}
use apkg.Export.{Source, name_buffer, header_bytes, os_number, arch_number, no_indices}

take_all : (n : ℕ) (x : Bytes) → length x ≤ n → take n x ≡ x
take_all zero [] h = refl
take_all zero (a ∷ x) h = absurd (omega arith)
take_all (suc n) [] h = refl
take_all (suc n) (a ∷ x) h = ap (◌∷◌ a) (take_all n x (omega arith))

before_zero-cons : (a : ℕ) (x : Bytes) → a ≢ 0 → before_zero (a ∷ x) ≡ a ∷ before_zero x
unfolding before_zero
before_zero-cons a x h = ground (arith, Option-cases (index_byte x 0))

before_zero-zeros : (name : Bytes) (n : ℕ) → HasNoZero name → before_zero (name ++ zeros n) ≡ name
unfolding before_zero zeros
before_zero-zeros [] zero h = refl
before_zero-zeros [] (suc n) h = refl
before_zero-zeros (a ∷ name) n (h, hs) =
    before_zero-cons a (name ++ zeros n) h ∙ ap (◌∷◌ a) (before_zero-zeros name n hs)

before_zero-name_buffer :
    (name : Bytes) → length name ≤ 32 → HasNoZero name → before_zero (name_buffer name) ≡ name
unfolding name_buffer
before_zero-name_buffer name l h =
    ap (λ t. before_zero (t ++ zeros (32 - length name))) (take_all 32 name l)
    ∙ before_zero-zeros name (32 - length name) h

length-name_buffer : (name : Bytes) → length name ≤ 32 → length (name_buffer name) ≡ 32
unfolding name_buffer
length-name_buffer name l = omega (
  arith,
  length-append (take 32 name) (zeros (32 - length name)),
  length-zeros (32 - length name),
  ap length (take_all 32 name l),
)

-- A name and a time that the header has room for.
pub record HeaderFits (s : Source) : Type 0 where
  pub short : length s.name ≤ 32
  pub clean : HasNoZero s.name
  pub seconds : s.seconds < 2 ^ 64
  pub nanoseconds : s.nanoseconds < 2 ^ 64

pub length-header_bytes :
    (s : Source) (count len : ℕ) (hash : Bytes)
    → length s.name ≤ 32
    → length hash ≡ 32
    → length (header_bytes s count len hash) ≡ 196
unfolding header_bytes put_u32 put_u64
length-header_bytes s count len hash l lh =
    let r = (put_u32 295 ++ put_u32 len) ++ (hash ++ no_indices) in
    omega (
      arith,
      lh,
      length-name_buffer s.name l,
      length-append (name_buffer s.name) r,
      length-append hash no_indices,
    )

-- The data stands where the header says.
pub content-drop :
    (header sig content : Bytes)
    → length header ≡ 196
    → length sig ≤ 99
    → drop 295 (header ++ (sig ++ (zeros (99 - length sig) ++ content))) ≡ content
content-drop header sig content lh ls =
    let front = header ++ (sig ++ zeros (99 - length sig)) in
    let split : header ++ (sig ++ (zeros (99 - length sig) ++ content)) ≡ front ++ content =
      simp append_assoc in
    let l : 295 ≡ length front = omega (
      arith,
      length-append header (sig ++ zeros (99 - length sig)),
      length-append sig (zeros (99 - length sig)),
      length-zeros (99 - length sig),
    ) in
    ap (drop 295) split ∙ ap (λ n. drop n (front ++ content)) l ∙ drop-length-append front content

created-long : (s : Source) → length (put_u64 s.seconds ++ put_u64 s.nanoseconds) ≡ 16
unfolding put_u64
created-long s = refl

system-long :
    (s : Source) (count : ℕ)
    → length (
        put_u32 (os_number (parse_os s.os))
        ++ (put_u32 (arch_number (parse_arch s.arch)) ++ put_u32 count))
      ≡ 12
unfolding put_u32
system-long s count = refl

place-long : (n : ℕ) → length (put_u32 295 ++ put_u32 n) ≡ 8
unfolding put_u32
place-long n = refl

place-loc : (n : ℕ) → be_uint (take 4 (put_u32 295 ++ put_u32 n)) ≡ 295
unfolding put_u32 be_uint_from
place-loc n = refl

place-len : (n : ℕ) → n < 2 ^ 32 → be_uint (drop 4 (put_u32 295 ++ put_u32 n)) ≡ n
unfolding put_u32
place-len n h = be_uint-put_u32 n h

created-seconds :
    (s : Source)
    → HeaderFits s
    → be_uint (take 8 (put_u64 s.seconds ++ put_u64 s.nanoseconds)) ≡ s.seconds
unfolding put_u64
created-seconds s fits = be_uint-put_u64 s.seconds fits.seconds

created-nanoseconds :
    (s : Source)
    → HeaderFits s
    → be_uint (drop 8 (put_u64 s.seconds ++ put_u64 s.nanoseconds)) ≡ s.nanoseconds
unfolding put_u64
created-nanoseconds s fits = be_uint-put_u64 s.nanoseconds fits.nanoseconds

system-count :
    (s : Source) (count : ℕ)
    → count < 2 ^ 32
    → be_uint (
        drop 8 (
          put_u32 (os_number (parse_os s.os))
          ++ (put_u32 (arch_number (parse_arch s.arch)) ++ put_u32 count)))
      ≡ count
unfolding put_u32
system-count s count h = be_uint-put_u32 count h

-- The header in the pieces that the import reads.
header_bytes-split :
    (s : Source) (count len : ℕ) (hash tail : Bytes)
    → header_bytes s count len hash ++ tail
      ≡ codes "APDB"
        ++ (put_u32 1
            ++ (put_u64 0
                ++ ((put_u64 s.seconds ++ put_u64 s.nanoseconds)
                    ++ ((put_u32 (os_number (parse_os s.os))
                          ++ (put_u32 (arch_number (parse_arch s.arch)) ++ put_u32 count))
                        ++ (name_buffer s.name
                            ++ ((put_u32 295 ++ put_u32 len) ++ (hash ++ (no_indices ++ tail))))))))
unfolding header_bytes
header_bytes-split s count len hash tail = simp append_assoc

pub read_header-fields :
    (tools : Tools) (s : Source) (count : ℕ) (content tail : Bytes) (v : VerifyResult)
    → HeaderFits s
    → count < 2 ^ 32
    → length content < 2 ^ 32
    → length (tools.sha256 content) ≡ 32
    → drop 295 (header_bytes s count (length content) (tools.sha256 content) ++ tail) ≡ content
    → verify tools.crypto
        (header_bytes s count (length content) (tools.sha256 content))
        tail
        tools.trusted
      ≡ ok v
    → read_header tools s.name
        (header_bytes s count (length content) (tools.sha256 content) ++ tail)
      ≡ ok (record {
        created = tools.stamp s.seconds s.nanoseconds;
        count = count;
        content = content;
      })
unfolding read_header
read_header-fields tools s count content tail v fits hc hl lh at good =
    let hash = tools.sha256 content in
    let header = header_bytes s count (length content) hash in
    let created = put_u64 s.seconds ++ put_u64 s.nanoseconds in
    let system =
      put_u32 (os_number (parse_os s.os))
      ++ (put_u32 (arch_number (parse_arch s.arch)) ++ put_u32 count) in
    let place = put_u32 295 ++ put_u32 (length content) in
    let r8 = no_indices ++ tail in
    let r7 = hash ++ r8 in
    let r6 = place ++ r7 in
    let r5 = name_buffer s.name ++ r6 in
    let r4 = system ++ r5 in
    let r3 = created ++ r4 in
    let r2 = put_u64 0 ++ r3 in
    let r1 = put_u32 1 ++ r2 in
    let e0 =
      ap (read_full 4) (header_bytes-split s count (length content) hash tail)
      ∙ read_full-Reads 4 (codes "APDB") refl r1 in
    let e1 = read_be-put_u32 1 (omega arith) r2 in
    let e2 = read_be-put_u64 0 (omega arith) r3 in
    let e3 = read_full-Reads 16 created (created-long s) r4 in
    let e4 = read_full-Reads 12 system (system-long s count) r5 in
    let e5 = read_full-Reads 32 (name_buffer s.name) (length-name_buffer s.name fits.short) r6 in
    let e6 = read_full-Reads 8 place (place-long (length content)) r7 in
    let e7 = read_full-Reads 32 hash lh r8 in
    let e8 =
      ap (read_full (length content)) (sym (append-nil content))
      ∙ read_full-Reads (length content) content refl [] in
    let e9 =
      read_full-Reads 196 header (length-header_bytes s count (length content) hash fits.short lh)
        tail in
    let named = before_zero-name_buffer s.name fits.short fits.clean in
    rw (e0) (
      rw (e1, e2, e3)
        (rw (e4, e5, named, bytes_eq_refl s.name)
          (rw (e6, e7, place-loc (length content), place-len (length content) hl, at)
            (rw (e8, bytes_eq_refl hash)
              (rw (e9, good)
                (rw (created-seconds s fits, created-nanoseconds s fits, system-count s count hc)
                  refl))))))
