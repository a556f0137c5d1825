-- ===== src/Root/Mounted.antt =====
-- A lookup and a readlink through the whole program: the requests of the kernel (apkgfs/server.go), answered
-- by the database (apkgdb/lookup.go).
use apkg.Prelude.{ℕ, ◌≡◌, ◌≢◌, refl, ap, ◌∙◌, true, false, some, none, ◌∷◌, ◌==◌, length, arith}
use apkg.Prelude.Bytes.{Bytes}
use apkg.Errors.{ok}
use apkg.Fs
use apkg.Fs.{PkgFs, add_ref, add_to_cache, get_inode, get_inode_cache}
use apkg.Fs.Server.{FuseInHeader, reply, raw, entry_out, cstring}
use apkg.Fs.Server.Handlers.{do_lookup, do_readlink}
use apkg.Inodes
use apkg.Inodes.{Item, Squashfs, Shared, item_value}
use apkg.Bolt.{Bolt}
use apkg.Llrb.{Llrb}
use apkg.Root.{Layout, symlink_inode, fs_inode, filled, symlink_mode}

module _ ⦃bolt : Bolt⦄ ⦃llrb : Llrb Item item_value⦄ (layout : Layout) (ldso : Bytes)
    (inside : Item → ℕ → Fs.Inode) (sq : Squashfs) (shared : Shared) where
  -- That the filesystem asks the database for a number, and has its answer as an inode.
  abbrev pub Serves : PkgFs → ℕ → Type 0
  Serves p n =
      (i : Inodes.Inode)
      → Inodes.get_inode sq shared n ≡ ok i
      → p.root_get_inode n ≡ ok (fs_inode layout ldso p.root inside i)

  module _ (target : Bytes) (n : ℕ) (p : PkgFs) (serves : Serves p n)
      (link : Inodes.get_inode sq shared n ≡ ok (Inodes.symlink target)) (not_root : n ≢ 1)
      (uncached : get_inode_cache n p.ino_cache ≡ none) where
    got : get_inode n p ≡ ok (symlink_inode layout target)
    unfolding get_inode fs_inode
    got =
        let e : (n == 1) ≡ false = ground (arith, not_root) in
        rw e (rw (uncached, get_inode) (serves (Inodes.symlink target) link))

    looked_up : PkgFs
    looked_up = record p { ino_cache = (n, symlink_inode layout target) ∷ p.ino_cache }

    got_again : get_inode n looked_up ≡ ok (symlink_inode layout target)
    unfolding get_inode looked_up get_inode_cache
    got_again =
        let other : (n == 1) ≡ false = ground (arith, not_root) in
        let same : (n == n) ≡ true = ground arith in rw other (rw same refl)

    lookup_of :
        (hdr : FuseInHeader) (body : Bytes)
        → get_inode hdr.node_id p ≡ ok p.root
        → p.root.lookup (cstring body) ≡ ok n
        → do_lookup hdr body p ≡ (
          some (reply hdr.unique (entry_out n (layout (filled n (length target) symlink_mode)))),
          looked_up,
        )
    unfolding do_lookup looked_up symlink_inode add_ref add_to_cache
    lookup_of hdr body e1 e2 = ground (arith, e1, e2, got, uncached)

    readlink_of :
        (hdr : FuseInHeader) (body : Bytes)
        → hdr.node_id ≡ n
        → (do_readlink hdr body looked_up).0 ≡ some (reply hdr.unique (raw target))
    unfolding do_readlink symlink_inode
    readlink_of hdr body at =
        let e = ap (λ m. get_inode m looked_up) at ∙ got_again in ground (arith, e)

    -- A lookup in the root of a name that the database answers with the number of a package's symlink
    -- answers that number with the attributes of a symlink under it, and puts the symlink into the
    -- cache, which is all that changes. A readlink of the number, sent next, answers the target. So it
    -- is for a number other than 1 that is not in the cache.
    pub do_readlink-do_lookup :
        (hdr next : FuseInHeader) (body rest : Bytes)
        → hdr.node_id ≡ 1
        → p.root.lookup (cstring body) ≡ ok n
        → next.node_id ≡ n
        → (do_lookup hdr body p ≡ (
          some (reply hdr.unique (entry_out n (layout (filled n (length target) symlink_mode)))),
          record p { ino_cache = (n, symlink_inode layout target) ∷ p.ino_cache },
        ))
          × ((do_readlink next rest (do_lookup hdr body p).1).0
              ≡ some (reply next.unique (raw target)))
    unfolding looked_up
    do_readlink-do_lookup hdr next body rest at_root found at =
        let e1 : get_inode hdr.node_id p ≡ ok p.root =
          ap (λ m. get_inode m p) at_root ∙ unfold get_inode in refl in
        let e = lookup_of hdr body e1 found in
        (e, ap (λ r. (do_readlink next rest r.1).0) e ∙ readlink_of next rest at)
