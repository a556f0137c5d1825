-- ===== src/Runs/Links.antt =====
-- A lookup and a readlink of a package's symlink at a concrete input.
use apkg.Prelude.{◌∷◌, ℕ, subst, ◌≡◌, refl, ◌∙◌, some, [], arith, length, if◌then◌else◌, ◌==◌}
use apkg.Prelude.Bytes.{Bytes, codes}
use apkg.Errors.{ok, err, invalid}
use apkg.Bolt.Assoc.{assoc_bolt}
use apkg.Llrb.Assoc.{list_llrb}
use apkg.Fs
use apkg.Fs.{PkgFs, get_inode_cache}
use apkg.Fs.Server.{reply, raw, entry_out}
use apkg.Fs.Server.Handlers.{do_lookup, do_readlink}
use apkg.Inodes
use apkg.Inodes.{item_value, Item, symlink, handle_item}
use apkg.Inodes.Ranges.{get_inode-owner}
use apkg.Root.{root_inode, fs_inode, symlink_inode, filled, symlink_mode}
use apkg.Root.Mounted.{Serves, do_readlink-do_lookup}
use apkg.Runs.Fuse.{plain_layout, loader_bytes, read_header, node}
use apkg.Runs.Numbers.{mounted_all, one_taken, one-IsApart, placed}

abbrev inner_node : Item → ℕ → Fs.Inode
inner_node i n = node

abbrev link_target : Bytes
link_target = codes "libs.zlib.1.3.linux.amd64"

abbrev database_root : Fs.Inode
database_root = root_inode plain_layout 1 (λ name. ok 1000)

abbrev link_server : PkgFs
link_server = record {
  root = database_root;
  root_get_inode =
      λ n. if n == 1000 then ok (symlink_inode plain_layout link_target) else err invalid;
  root_stat_fs = err invalid;
  ino_cache = [];
  refs = λ i. 1;
}

answers_link :
    Inodes.get_inode ⦃bolt = assoc_bolt⦄ ⦃llrb = list_llrb item_value⦄ mounted_all one_taken 1000
    ≡ ok (symlink link_target)
unfolding Inodes.handle_lookup_unsigned
answers_link =
    get_inode-owner ⦃bolt = assoc_bolt⦄ ⦃llrb = list_llrb item_value⦄ mounted_all one_taken placed
      1000 one-IsApart (omega arith) refl (omega arith) (omega arith)
    ∙ refl

link_server-Serves :
    Serves ⦃bolt = assoc_bolt⦄ ⦃llrb = list_llrb item_value⦄ plain_layout loader_bytes inner_node
      mounted_all one_taken link_server 1000
unfolding fs_inode
link_server-Serves i e =
    let same : symlink link_target ≡ i = ground (arith, answers_link, e) in
    subst
      (λ j.
        link_server.root_get_inode 1000
        ≡ ok (fs_inode plain_layout loader_bytes database_root inner_node j))
      same refl

do_readlink-do_lookup_example :
    (do_lookup (record read_header { node_id = 1 }) (codes "libs.zlib") link_server ≡ (
      some (
          reply read_header.unique
            (entry_out 1000 (plain_layout (filled 1000 (length link_target) symlink_mode)))),
      record link_server { ino_cache = (1000, symlink_inode plain_layout link_target) ∷ [] },
    ))
    × ((do_readlink
          (record read_header { node_id = 1000 })
          []
          (do_lookup (record read_header { node_id = 1 }) (codes "libs.zlib") link_server).1).0
        ≡ some (reply read_header.unique (raw link_target)))
do_readlink-do_lookup_example =
    do_readlink-do_lookup ⦃bolt = assoc_bolt⦄ ⦃llrb = list_llrb item_value⦄ plain_layout
      loader_bytes inner_node mounted_all one_taken link_target 1000 link_server link_server-Serves
      answers_link (ground arith) (unfold get_inode_cache in refl)
      (record read_header { node_id = 1 }) (record read_header { node_id = 1000 })
      (codes "libs.zlib") [] refl (unfold root_inode in refl) refl
