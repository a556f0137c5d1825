-- ===== src/Convert/Header.antt =====
-- The header that cmd/apkg-convert/process.go writes, read by apkgdb/package.go.
use apkg.Prelude.{ℕ, ◌+◌, ◌^◌, ◌<◌, ◌≡◌, refl, ap, sym, ◌∙◌, [], ◌++◌, arith, length, append-nil}
use apkg.Prelude.Bytes.{Bytes, codes}
use apkg.Errors.{ok}
use apkg.Format.{put_u32, put_u64}
use apkg.Format.RoundTrip.{read_full-Reads, read_be-put_u32, read_be-put_u64, be_uint-put_u32}
use apkg.PackageFile.{Fields, read_fields, first_u32, second_u32, third_u32}
use apkg.Convert.{header_len, sign_offset, data_offset, header_bytes}

-- The header in front of the last numbers.
abbrev pub front : ℕ → Bytes → Bytes → ℕ → ℕ → Bytes → Bytes
front created meta_hash table_hash meta_len table_len rest =
    codes "APKG"
    ++ (put_u32 1
        ++ (put_u64 0
            ++ ((put_u64 created ++ put_u64 0)
                ++ ((put_u32 header_len ++ put_u32 meta_len)
                    ++ (meta_hash
                        ++ ((put_u32 (header_len + meta_len) ++ put_u32 table_len)
                            ++ (table_hash ++ rest)))))))

pair32-length : (a b : ℕ) → length (put_u32 a ++ put_u32 b) ≡ 8
unfolding put_u32
pair32-length a b = refl

triple32-length : (a b c : ℕ) → length ((put_u32 a ++ put_u32 b) ++ put_u32 c) ≡ 12
unfolding put_u32
triple32-length a b c = refl

pair64-length : (a b : ℕ) → length (put_u64 a ++ put_u64 b) ≡ 16
unfolding put_u64
pair64-length a b = refl

pub read_fields-front :
    (n created : ℕ) (meta_hash table_hash : Bytes) (meta_len table_len : ℕ) (last rest : Bytes)
    → length meta_hash ≡ 32
    → length table_hash ≡ 32
    → length last ≡ n
    → read_fields n (front created meta_hash table_hash meta_len table_len (last ++ rest))
      ≡ ok (record {
        flags = 0;
        created = put_u64 created ++ put_u64 0;
        metadata = put_u32 header_len ++ put_u32 meta_len;
        metadata_hash = meta_hash;
        table = put_u32 (header_len + meta_len) ++ put_u32 table_len;
        table_hash = table_hash;
        last_offt = last;
      })
unfolding read_fields
read_fields-front n created meta_hash table_hash meta_len table_len last rest lm lt ll =
    let r7 = last ++ rest in
    let r6 = table_hash ++ r7 in
    let r5 = (put_u32 (header_len + meta_len) ++ put_u32 table_len) ++ r6 in
    let r4 = meta_hash ++ r5 in
    let r3 = (put_u32 header_len ++ put_u32 meta_len) ++ r4 in
    let r2 = (put_u64 created ++ put_u64 0) ++ r3 in
    let r1 = put_u64 0 ++ r2 in
    let e1 = read_be-put_u32 1 (omega arith) r1 in
    let e2 = read_be-put_u64 0 (omega arith) r2 in
    let e3 = read_full-Reads 16 (put_u64 created ++ put_u64 0) (pair64-length created 0) r3 in
    let e4 = read_full-Reads 8 _ (pair32-length header_len meta_len) r4 in
    let e5 = read_full-Reads 32 meta_hash lm r5 in
    let e6 = read_full-Reads 8 _ (pair32-length (header_len + meta_len) table_len) r6 in
    let e7 = read_full-Reads 32 table_hash lt r7 in
    let e8 = read_full-Reads n last ll rest in rw (e1, e2, e3, e4, e5, e6, e7, e8) refl

pub first-pair : (a b : ℕ) → a < 2 ^ 32 → first_u32 (put_u32 a ++ put_u32 b) ≡ a
unfolding put_u32
first-pair a b h = be_uint-put_u32 a h

pub second-pair : (a b : ℕ) → b < 2 ^ 32 → second_u32 (put_u32 a ++ put_u32 b) ≡ b
unfolding put_u32
second-pair a b h = be_uint-put_u32 b h

pub first-triple : (a b c : ℕ) → a < 2 ^ 32 → first_u32 ((put_u32 a ++ put_u32 b) ++ put_u32 c) ≡ a
unfolding put_u32
first-triple a b c h = be_uint-put_u32 a h

pub second-triple :
    (a b c : ℕ) → b < 2 ^ 32 → second_u32 ((put_u32 a ++ put_u32 b) ++ put_u32 c) ≡ b
unfolding put_u32
second-triple a b c h = be_uint-put_u32 b h

pub third-triple : (a b c : ℕ) → c < 2 ^ 32 → third_u32 ((put_u32 a ++ put_u32 b) ++ put_u32 c) ≡ c
unfolding put_u32
third-triple a b c h = be_uint-put_u32 c h

-- What the two readers keep of the header.
abbrev pub fields_of : (Bytes → Bytes) → ℕ → Bytes → Bytes → Bytes → Fields
fields_of sha256 created meta table last = record {
  flags = 0;
  created = put_u64 created ++ put_u64 0;
  metadata = put_u32 header_len ++ put_u32 (length meta);
  metadata_hash = sha256 meta;
  table = put_u32 (header_len + length meta) ++ put_u32 (length table);
  table_hash = sha256 table;
  last_offt = last;
}

pub read_fields-two :
    (sha256 : Bytes → Bytes) (created : ℕ) (meta table : Bytes) (size : ℕ)
    → ((b : Bytes) → length (sha256 b) ≡ 32)
    → read_fields 8 (header_bytes sha256 created meta table size)
      ≡ ok (
          fields_of sha256 created meta table (
            put_u32 (sign_offset (length meta) (length table))
            ++ put_u32 (data_offset (sign_offset (length meta) (length table)))))
unfolding header_bytes
read_fields-two sha256 created meta table size h =
    read_fields-front 8 created (sha256 meta) (sha256 table) (length meta) (length table) _
      (put_u32 size) (h meta) (h table) (pair32-length _ _)

pub read_fields-three :
    (sha256 : Bytes → Bytes) (created : ℕ) (meta table : Bytes) (size : ℕ)
    → ((b : Bytes) → length (sha256 b) ≡ 32)
    → read_fields 12 (header_bytes sha256 created meta table size)
      ≡ ok (
          fields_of sha256 created meta table (
            (put_u32 (sign_offset (length meta) (length table))
              ++ put_u32 (data_offset (sign_offset (length meta) (length table))))
            ++ put_u32 size))
unfolding header_bytes
read_fields-three sha256 created meta table size h =
    let offset = sign_offset (length meta) (length table) in
    let last = (put_u32 offset ++ put_u32 (data_offset offset)) ++ put_u32 size in
    ap
      (λ t.
        read_fields 12 (front created (sha256 meta) (sha256 table) (length meta) (length table) t))
      (sym (append-nil last))
    ∙ read_fields-front 12 created (sha256 meta) (sha256 table) (length meta) (length table) last []
        (h meta) (h table) (triple32-length offset (data_offset offset) size)
