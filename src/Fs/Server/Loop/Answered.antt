-- ===== src/Fs/Server/Loop/Answered.antt =====
-- What the handshake of apkgfs/server.go agrees on.
use apkg.Prelude.{
  ℕ, ◌-◌, ◌*◌, ◌≤◌, ◌++◌, take, drop, leb, ◌≡◌, refl, true, ◌==◌, length, arith, leb→le, ap, sym,
}
use apkg.Prelude.Bytes.{Bytes}
use apkg.Fs.Server.{in_header, le_uint, slice}
use apkg.Format.{guard, guard-true, zeros}
use apkg.Errors.{ok, err, bind-then}
use apkg.Fs.Server.Loop.{InitOut, handle_init, agreed_minor, op_init, got}

agreed_minor-between :
    (theirs : ℕ)
    → leb 12 theirs ≡ true
    → (12 ≤ agreed_minor theirs) × (agreed_minor theirs ≤ 28) × (agreed_minor theirs ≤ theirs)
unfolding agreed_minor
agreed_minor-between theirs h = ground arith

-- The record that was made is the one that was returned.
ok_out : (a b : InitOut) → ok a ≡ ok b → a ≡ b
ok_out a b h = ap (λ r. elim r [ ok x ↦ x | err e ↦ a ]) h

-- What the handshake agrees on: the major version 7, a minor version from 12 to 28 that is not above
-- the kernel's, an answer under the id of the request, and pages for exactly the largest write.
pub handle_init-agreed :
    (b : Bytes) (out : InitOut)
    → handle_init (got b) ≡ ok out
    → (40 ≤ length b)
      × (out.unique ≡ (in_header (take 104 (b ++ zeros (104 - length b)))).unique)
      × (out.major ≡ 7)
      × (12 ≤ out.minor)
      × (out.minor ≤ 28)
      × (out.minor ≤ le_uint (slice 4 4 (drop 40 (take 104 (b ++ zeros (104 - length b))))))
      × (out.max_pages * 4096 ≡ out.max_write)
unfolding handle_init
handle_init-agreed b out h =
    let buf = take 104 (b ++ zeros (104 - length b)) in
    let theirs = le_uint (slice 4 4 (drop 40 buf)) in
    bind-then (guard (leb 40 (length b)) _) _ out h (λ u1 e1 h1.
      bind-then (guard ((in_header buf).opcode == op_init) _) _ out h1 (λ u2 e2 h2.
        bind-then (guard (le_uint (take 4 (drop 40 buf)) == 7) _) _ out h2 (λ u3 e3 h3.
          bind-then (guard (leb 12 theirs) _) _ out h3 (λ u4 e4 h4.
            let same = ok_out _ out h4 in
            let (lo, hi, le) = agreed_minor-between theirs (guard-true _ _ u4 e4) in
            let minor : agreed_minor theirs ≡ out.minor = ap (λ r. r.minor) same in
            (
              leb→le 40 (length b) (guard-true _ _ u1 e1),
              sym (ap (λ r. r.unique) same),
              sym (ap (λ r. r.major) same),
              rw (← minor) lo,
              rw (← minor) hi,
              rw (← minor) le,
              rw (← ap (λ r. r.max_pages) same, ← ap (λ r. r.max_write) same) refl,
            )))))
