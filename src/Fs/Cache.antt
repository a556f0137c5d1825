-- ===== src/Fs/Cache.antt =====
-- The inode cache of apkgfs/cache.go: how long an inode stays in it.
use apkg.Prelude.{
  ℕ, ◌+◌, ◌-◌, ◌^◌, ◌≤◌, ◌<◌, ◌≡◌, ◌≢◌, refl, true, Option, none, some, List, [], ◌∷◌, arith,
  if◌then◌else◌, ltb, length,
}
use apkg.Fs.{
  Inode, PkgFs, add_ref, del_ref, get_inode_cache, delete, add_to_cache, remove_from_cache,
}

pub get_inode_cache-delete : (n : ℕ) (c : List (ℕ × Inode)) → get_inode_cache n (delete n c) ≡ none
unfolding get_inode_cache delete
get_inode_cache-delete n [] = refl
get_inode_cache-delete n ((m, i) ∷ c) = ground (arith, get_inode_cache-delete n c)

pub get_inode_cache-delete_ne :
    (n m : ℕ) (c : List (ℕ × Inode)) → n ≢ m → get_inode_cache m (delete n c) ≡ get_inode_cache m c
unfolding get_inode_cache delete
get_inode_cache-delete_ne n m [] h = refl
get_inode_cache-delete_ne n m ((k, i) ∷ c) h = ground (arith, get_inode_cache-delete_ne n m c h)

-- The node is cached as the counted inode `c`, with `r` references.
pub record Holds (n : ℕ) (c : Inode) (p : PkgFs) (r : ℕ) : Type 0 where
  pub cached : get_inode_cache n p.ino_cache ≡ some c
  pub refs : p.refs c.ident ≡ r

module _ (n : ℕ) (c : Inode) (counted : c.counted ≡ true) where
  -- `AddRef(1)` and `addToCache`, as a lookup makes them for an inode that is cached.
  abbrev pub look : PkgFs → PkgFs
  look p = add_to_cache n c (add_ref c 1 p).1

  look-Holds : (p : PkgFs) (r : ℕ) → Holds n c p r → r + 1 < 2 ^ 48 → Holds n c (look p) (r + 1)
  unfolding add_to_cache add_ref del_ref
  look-Holds p r h small = record {
    cached = ground (arith, h.cached, h.refs);
    refs = ground (arith, h.cached, h.refs);
  }

  forget-Holds :
      (p : PkgFs) (r k : ℕ)
      → Holds n c p r
      → k < r
      → r < 2 ^ 48
      → Holds n c (remove_from_cache n k p) (r - k)
  unfolding remove_from_cache del_ref
  forget-Holds p r k h some_left small = record {
    cached = ground (arith, h.cached, h.refs);
    refs = ground (arith, h.cached, h.refs);
  }

  -- The last reference goes, and the node goes with it.
  pub forget_all :
      (p : PkgFs) (r : ℕ)
      → Holds n c p r
      → r < 2 ^ 48
      → get_inode_cache n (remove_from_cache n r p).ino_cache ≡ none
  unfolding remove_from_cache del_ref
  forget_all p r h small = ground (arith, h.cached, h.refs, get_inode_cache-delete n p.ino_cache)

-- What the kernel does with one node: a lookup, or a forget of some lookups.
pub data Event : Type 0 where
  looked : Event
  forgot : ℕ → Event

-- The references after the events, while some are left.
abbrev pub balance : ℕ → List Event → Option ℕ
balance r [] = some r
balance r (looked ∷ es) = balance (r + 1) es
balance r (forgot k ∷ es) = let rest = balance (r - k) es in if ltb k r then rest else none

balance-le : (r : ℕ) (es : List Event) (m : ℕ) → balance r es ≡ some m → m ≤ r + length es
balance-le r [] m h = ground arith
balance-le r (looked ∷ es) m h = omega (arith, balance-le (r + 1) es m h)
balance-le r (forgot k ∷ es) m h = ground (arith, balance-le (r - k) es m)

module _ (n : ℕ) (c : Inode) (counted : c.counted ≡ true) where
  abbrev pub run : List Event → PkgFs → PkgFs
  run [] p = p
  run (looked ∷ es) p = run es (add_to_cache n c (add_ref c 1 p).1)
  run (forgot k ∷ es) p = run es (remove_from_cache n k p)

  run-Holds :
      (es : List Event) (p : PkgFs) (r m : ℕ)
      → Holds n c p r
      → balance r es ≡ some m
      → r + length es < 2 ^ 48
      → Holds n c (run es p) m
  run-Holds [] p r m h e small = ground (arith, h)
  run-Holds (looked ∷ es) p r m h e small =
      run-Holds es _ (r + 1) m (look-Holds n c counted p r h (omega arith)) e (omega arith)
  run-Holds (forgot k ∷ es) p r m h e small =
      run-Holds es _ (r - k) m (forget-Holds n c counted p r k h (ground arith) (omega arith))
        (ground arith) (omega arith)

  -- While lookups and forgets of a cached, counted inode leave references, below 2^48 of them, it stays
  -- cached as the same object with exactly those; the forget of all that are left drops it.
  pub cached_until_forgotten :
      (es : List Event) (p : PkgFs) (r m : ℕ)
      → Holds n c p r
      → balance r es ≡ some m
      → r + length es < 2 ^ 48
      → Holds n c (run es p) m
        × (get_inode_cache n (remove_from_cache n m (run es p)).ino_cache ≡ none)
  cached_until_forgotten es p r m h e small =
      let k = run-Holds es p r m h e small in
      (k, forget_all n c counted (run es p) m k (omega (arith, balance-le r es m e)))
