-- ===== src/Inodes/Ranges.antt =====
-- The ranges of inode numbers that packages take, and whose a number is.
use apkg.Prelude.{
  subst, ℕ, ◌+◌, ◌^◌, ◌≤◌, ◌<◌, ◌≡◌, refl, ap, sym, ◌∙◌, inl, inr, true, false, none, some, arith,
  ◌==◌, ltb, List, length, take, drop, Option-cases,
}
use apkg.Prelude.Bytes.{Bytes}
use apkg.Prelude.Map.{lookup, be_uint, insert}
use apkg.Packages.{Package, load_package}
use apkg.Db.{Tx}
use apkg.Errors.{ok}
use apkg.Bolt.{Bolt}
use apkg.Llrb.{Llrb}
use apkg.Inodes.{
  Item, signed, State, pkg_ino, get_pkg_tx, keep_package, unsigned, UnsignedPkg, item_value,
  item_inodes, Squashfs, handle_item, Shared, u64, alloc_inodes, pkg_ino_unsigned,
  register_unsigned, in_range, get_inode,
}

module _ ⦃bolt : Bolt⦄ ⦃llrb : Llrb Item item_value⦄ where
  open llrb use {
    Tree, descend, replace_or_insert, find, find-insert, descend-find, descend-le, descend-last,
    descend-none,
  }

  -- Every package stands at its first number, its range lies between the two special inodes and the
  -- counter, and no two ranges meet.
  pub record IsApart (s : Shared) : Type 0 where
    pub start : 2 < s.next_i
    pub keyed : (n : ℕ) (x : Item) → find s.ino n ≡ some x → item_value x ≡ n
    pub above : (n : ℕ) (x : Item) → find s.ino n ≡ some x → 2 < n
    pub below : (n : ℕ) (x : Item) → find s.ino n ≡ some x → n + item_inodes x < s.next_i
    pub apart :
        (n m : ℕ) (x y : Item)
        → find s.ino n ≡ some x
        → find s.ino m ≡ some y
        → n < m
        → n + item_inodes x < m

  -- The last package at or before a number of its range is the package itself.
  descend-owner :
      (s : Shared) (x : Item) (n : ℕ)
      → IsApart s
      → find s.ino (item_value x) ≡ some x
      → item_value x ≤ n
      → n ≤ item_value x + item_inodes x
      → descend s.ino n ≡ some x
  descend-owner s x n ix found lo hi = elim (Option-cases (descend s.ino n)) [
    | inl e ↦ absurd (omega (arith, descend-none s.ino n (item_value x) x e found))
    | inr (y, e) ↦
        let fy = descend-find s.ino n y e in
        let le = descend-le s.ino n y e in
        let last = descend-last s.ino n (item_value x) y x e found lo in
        let same : item_value x ≡ item_value y =
          ground (arith, le, last, ix.apart (item_value x) (item_value y) x y found fy) in
        e ∙ (sym fy ∙ ap (find s.ino) (sym same) ∙ found)
  ]

  -- `GetInode` hands every number of a registered range to the package that holds the range, if the
  -- counter has not wrapped around.
  pub get_inode-owner :
      (sq : Squashfs) (s : Shared) (x : Item) (n : ℕ)
      → IsApart s
      → s.next_i < 2 ^ 64
      → find s.ino (item_value x) ≡ some x
      → item_value x ≤ n
      → n ≤ item_value x + item_inodes x
      → get_inode sq s n ≡ handle_item sq x n
  unfolding get_inode in_range
  get_inode-owner sq s x n ix small found lo hi =
      let d = descend-owner s x n ix found lo hi in
      let a = ix.above (item_value x) x found in
      let b = ix.below (item_value x) x found in
      let not_root : (n == 1) ≡ false = ground arith in
      let not_cache : (n == 2) ≡ false = ground arith in
      let inside : ltb n (u64 (item_value x + item_inodes x + 1)) ≡ true = ground arith in
      rw (not_root, get_inode)
        (rw (not_cache, get_inode) (rw (d, get_inode) (rw (inside, in_range) refl)))

  -- A package on the numbers that were just allocated for it.
  register-IsApart :
      (s : Shared) (x : Item) (cache : List (Bytes × Package))
      → IsApart s
      → item_value x ≡ s.next_i
      → s.next_i + item_inodes x + 1 < 2 ^ 64
      → IsApart (record s {
        next_i = s.next_i + (item_inodes x + 1);
        ino = replace_or_insert s.ino x;
        pkg_cache = cache;
      })
  register-IsApart s x cache ix at small = record {
    start = ground (arith, ix.start);
    keyed = λ n y f. ground (arith, find-insert s.ino x n, ix.keyed n y);
    above = λ n y f. ground (arith, find-insert s.ino x n, ix.above n y, ix.start);
    below = λ n y f. ground (arith, find-insert s.ino x n, ix.below n y);
    apart = λ n m y z f g lt. ground (
      arith,
      find-insert s.ino x n,
      find-insert s.ino x m,
      ix.apart n m y z,
      ix.below n y,
      ix.below m z,
    );
  }

  -- An unsigned package that was opened and has no numbers yet gets a range of its own: the counter moves behind it,
  -- the ranges stay apart, and the package stands at its first number, if the counter does not wrap
  -- around.
  pub pkg_ino_unsigned-IsApart :
      (p : UnsignedPkg) (s : Shared)
      → IsApart s
      → p.start_ino ≡ 0
      → p.failed ≡ none
      → s.next_i + p.inodes + 1 < 2 ^ 64
      → IsApart (pkg_ino_unsigned p s).2
        × ((pkg_ino_unsigned p s).0 ≡ ok s.next_i)
        × (find (pkg_ino_unsigned p s).2.ino s.next_i ≡ some (unsigned (pkg_ino_unsigned p s).1))
  unfolding pkg_ino_unsigned alloc_inodes register_unsigned
  pkg_ino_unsigned-IsApart p s ix none_yet opened small =
      let new : (p.start_ino == 0) ≡ true = ground arith in
      let count : u64 (p.inodes + 1) ≡ p.inodes + 1 = omega arith in
      let next : u64 (s.next_i + (p.inodes + 1)) ≡ s.next_i + (p.inodes + 1) = omega arith in
      let q = record p { start_ino = s.next_i } in
      let t = record s { next_i = s.next_i + (p.inodes + 1) } in
      let e : pkg_ino_unsigned p s ≡ register_unsigned none s.next_i q t =
        rw new (rw count (rw next (ap (λ o. register_unsigned o s.next_i q t) opened))) in
      subst (λ r. IsApart r.2 × (r.0 ≡ ok s.next_i) × (find r.2.ino s.next_i ≡ some (unsigned r.1)))
        (sym e)
        (
          register-IsApart s (unsigned q) s.pkg_cache ix refl small,
          refl,
          find-insert s.ino (unsigned q) s.next_i ∙ ground arith,
        )

  -- The state once a new hash has its numbers.
  abbrev pub numbered : Bytes → ℕ → State → State
  numbered v inodes s = record s {
    shared = record s.shared { next_i = s.shared.next_i + (inodes + 1) };
    db = record s.db { pkg_i = insert (take 32 v) s.shared.next_i s.db.pkg_i };
  }

  pub pkg_ino_new :
      (v : Bytes) (inodes : ℕ) (s : State)
      → 40 ≤ length v
      → lookup (take 32 v) s.db.pkg_i ≡ none
      → inodes ≡ be_uint (take 8 (drop 32 v))
      → s.shared.next_i + inodes + 1 < 2 ^ 64
      → pkg_ino v s ≡ (ok s.shared.next_i, numbered v inodes s)
  unfolding pkg_ino alloc_inodes
  pkg_ino_new v inodes s long unknown count small =
      let l32 : ltb (length v) 32 ≡ false = ground arith in
      let l40 : ltb (length v) 40 ≡ false = ground arith in
      let c : u64 (be_uint (take 8 (drop 32 v)) + 1) ≡ inodes + 1 = omega arith in
      let next : u64 (s.shared.next_i + (inodes + 1)) ≡ s.shared.next_i + (inodes + 1) =
        omega arith in
      rw (l32, pkg_ino) (rw (unknown, pkg_ino) (rw (l40, pkg_ino) (rw (c, pkg_ino) (rw next refl))))

  pub get_pkg_tx_new :
      (tx : Tx) (hash : Bytes) (n : ℕ) (t : State) (p : Package)
      → lookup hash t.shared.pkg_cache ≡ none
      → load_package tx n hash ≡ ok p
      → get_pkg_tx tx n hash t ≡ keep_package hash p t
  unfolding get_pkg_tx
  get_pkg_tx_new tx hash n t p uncached loaded =
      rw (uncached, get_pkg_tx) (rw (loaded, get_pkg_tx) refl)

  -- The first lookup of an indexed package gives it a range of its own too: `pkgIno` takes the numbers
  -- and `getPkgTx` puts the package that it loads there, if the count in the entry is the package's,
  -- neither the database nor the cache knows the hash, and the counter does not wrap around.
  pub get_pkg_tx-IsApart :
      (tx : Tx) (v : Bytes) (s : State) (p : Package)
      → IsApart s.shared
      → 40 ≤ length v
      → lookup (take 32 v) s.db.pkg_i ≡ none
      → lookup (take 32 v) s.shared.pkg_cache ≡ none
      → load_package tx s.shared.next_i (take 32 v) ≡ ok p
      → p.start_ino ≡ s.shared.next_i
      → p.inodes ≡ be_uint (take 8 (drop 32 v))
      → s.shared.next_i + p.inodes + 1 < 2 ^ 64
      → ((pkg_ino v s).0 ≡ ok s.shared.next_i)
        × IsApart (get_pkg_tx tx s.shared.next_i (take 32 v) (pkg_ino v s).1).1.shared
        × (find
              (get_pkg_tx tx s.shared.next_i (take 32 v) (pkg_ino v s).1).1.shared.ino
              s.shared.next_i
            ≡ some (signed p))
  unfolding keep_package
  get_pkg_tx-IsApart tx v s p ix long unknown uncached loaded at count small =
      let t = numbered v p.inodes s in
      let e = pkg_ino_new v p.inodes s long unknown count (omega arith) in
      let k = get_pkg_tx_new tx (take 32 v) s.shared.next_i t p uncached loaded in
      rw (e, k)
        (
          refl,
          register-IsApart s.shared (signed p) (insert (take 32 v) p s.shared.pkg_cache) ix at
              (omega arith),
          find-insert s.shared.ino (signed p) s.shared.next_i ∙ ground arith,
        )
