-- ===== src/Resolve/Reachable.antt =====
-- The ranges of inode numbers in every state that a database can be brought to: by lookups, by the watcher
-- of unsigned packages, by imports and other writes, by `SetChannel`.
use mathlib.Core.List.{map}
use apkg.Prelude.{ℕ, suc, ◌+◌, ◌*◌, ◌^◌, ◌≤◌, ◌<◌, ◌≡◌, some, List, [], ◌∷◌, arith, All, subst, sym}
use apkg.Prelude.Bytes.{Bytes}
use apkg.OsArch.{Os, Arch, ArchOs}
use apkg.Bolt.{Bolt}
use apkg.Llrb.{Llrb}
use apkg.Db.{File}
use apkg.Inodes.{Item, item_value, Squashfs, UnsignedPkg, Db}
use apkg.Inodes.Ranges.{IsApart}
use apkg.Inodes.Reserved.{Ledger, Sizes, none_given, Knows-nil, IsReserved-IsApart}
use apkg.Inodes.Grown.{Agrees}
use apkg.Lookup.{unsigned_of}
use apkg.Lookup.Counts.{CountsSmall}
use apkg.Unsigned.{Files, add_unsigned_file, remove_unsigned_file}
use apkg.Unsigned.Order.{Rearranged, in_order, in_order-AreSmall}
use apkg.Unsigned.Small.{add_unsigned_file-AreSmall, remove_unsigned_file-AreSmall}
use apkg.Resolve.{World, Site, new_world, sub_of, put_sub, resolve, with_channel, set_channel}
use apkg.Resolve.Sound.{IsKnown, IsSoundWorld, All-sub_of, All-put_sub}
use apkg.Resolve.Served.{OpensAgree, ServedWorld, resolve-Served}

module _ ⦃bolt : Bolt⦄ ⦃llrb : Llrb Item item_value⦄ where
  open llrb use {find-new}

  -- What may happen to the databases. A lookup meets what the disk has at that time: files of unsigned
  -- packages that open with a count or fail to, database files that are there or not. The files of
  -- the disk, and what a write leaves, agree on the sizes. The loop over the unsigned packages of a
  -- pair may take them in another order the next time.
  pub data Step (size : Sizes) (w u : World) : Type 0 where
    looked_up :
        (site : Site) (sq : Squashfs) (name : Bytes)
        → OpensAgree size site
        → CountsSmall sq
        → u ≡ (resolve site sq name w).1
        → Step size w u
    reordered :
        (a : ArchOs) (m : List (Bytes × UnsignedPkg))
        → Rearranged (unsigned_of a w.shared.unsigned_map) m
        → u ≡ record w {
          shared = record w.shared { unsigned_map = in_order a m w.shared.unsigned_map };
        }
        → Step size w u
    unsigned_added :
        (files : Files) (p f : Bytes)
        → u ≡ record w {
          shared = record w.shared {
            unsigned_map = add_unsigned_file files p f w.shared.unsigned_map;
          };
        }
        → Step size w u
    unsigned_removed :
        (f : Bytes)
        → u ≡ record w {
          shared = record w.shared { unsigned_map = remove_unsigned_file f w.shared.unsigned_map };
        }
        → Step size w u
    written :
        (f : File)
        → Agrees size f.tx
        → u ≡ record w { main = record w.main { file = f } }
        → Step size w u
    sub_written :
        (a : ArchOs) (d : Db) (f : File)
        → sub_of a w.subs ≡ some d
        → Agrees size f.tx
        → u ≡ record w { subs = put_sub a (record d { file = f }) w.subs }
        → Step size w u
    channel_set : (ch : Bytes) → u ≡ set_channel ch w → Step size w u

  -- The states that are reached in `n` steps.
  pub data Reach (size : Sizes) (w : World) : ℕ → World → Type 0 where
    here : Reach size w 0 w
    next : {n : ℕ} {u v : World} → Reach size w n u → Step size u v → Reach size w (suc n) v

  new_world-IsSoundWorld :
      (size : Sizes) (os : Os) (arch : Arch) (f : File)
      → Agrees size f.tx
      → IsSoundWorld size none_given (new_world os arch f)
  unfolding new_world
  new_world-IsSoundWorld size os arch f agrees = record {
    reserved = record {
      start = omega arith;
      above = λ n c e. absurd (ground (arith, e));
      below = λ n c e. absurd (ground (arith, e));
      apart = λ n m c d e g lt. absurd (ground (arith, e));
      keyed = λ n x e. absurd (ground (arith, e, find-new n));
      items = λ n x e. absurd (ground (arith, e, find-new n));
    };
    small = tt;
    main = record { knows = Knows-nil size none_given; agrees = agrees };
    subs = tt;
  }

  channel-subs :
      (size : Sizes) (l : Ledger) (ch : Bytes) (m : List (ArchOs × Db))
      → All {A = ArchOs × Db} (λ e. IsKnown size l e.1) m
      → All {A = ArchOs × Db} (λ e. IsKnown size l e.1) (map (with_channel ch) m)
  channel-subs size l ch [] h = tt
  channel-subs size l ch ((a, d) ∷ m) h =
      (record { knows = h.0.knows; agrees = h.0.agrees }, channel-subs size l ch m h.1)

  module _ (size : Sizes) (sizes : (h : Bytes) → size h < 2 ^ 32) where
    Step-ServedWorld :
        (l : Ledger) (w u : World)
        → IsSoundWorld size l w
        → w.shared.next_i + 2 ^ 33 < 2 ^ 64
        → Step size w u
        → ServedWorld size w u
    unfolding set_channel
    Step-ServedWorld l w u sound room (looked_up site sq name opens counts e) =
        subst (ServedWorld size w) (sym e)
          (resolve-Served size site sq opens counts sizes l name w sound room)
    Step-ServedWorld l w u sound room (unsigned_added files p f e) =
        subst (ServedWorld size w) (sym e) (record {
          ledger = l;
          sound = record {
            reserved = sound.reserved;
            small = add_unsigned_file-AreSmall files p f w.shared.unsigned_map sound.small;
            main = sound.main;
            subs = sound.subs;
          };
          within = omega arith;
        })
    Step-ServedWorld l w u sound room (reordered a m r e) =
        subst (ServedWorld size w) (sym e) (record {
          ledger = l;
          sound = record {
            reserved = sound.reserved;
            small = in_order-AreSmall a m w.shared.unsigned_map r sound.small;
            main = sound.main;
            subs = sound.subs;
          };
          within = omega arith;
        })
    Step-ServedWorld l w u sound room (unsigned_removed f e) =
        subst (ServedWorld size w) (sym e) (record {
          ledger = l;
          sound = record {
            reserved = sound.reserved;
            small = remove_unsigned_file-AreSmall f w.shared.unsigned_map sound.small;
            main = sound.main;
            subs = sound.subs;
          };
          within = omega arith;
        })
    Step-ServedWorld l w u sound room (written f agrees e) =
        subst (ServedWorld size w) (sym e) (record {
          ledger = l;
          sound = record {
            reserved = sound.reserved;
            small = sound.small;
            main = record { knows = sound.main.knows; agrees = agrees };
            subs = sound.subs;
          };
          within = omega arith;
        })
    Step-ServedWorld l w u sound room (sub_written a d f g agrees e) =
        let old = All-sub_of (IsKnown size l) a d w.subs sound.subs g in
        subst (ServedWorld size w) (sym e) (record {
          ledger = l;
          sound = record {
            reserved = sound.reserved;
            small = sound.small;
            main = sound.main;
            subs =
                All-put_sub (IsKnown size l) a (record d { file = f }) w.subs
                  (record { knows = old.knows; agrees = agrees }) sound.subs;
          };
          within = omega arith;
        })
    Step-ServedWorld l w u sound room (channel_set ch e) =
        subst (ServedWorld size w) (sym e) (record {
          ledger = l;
          sound = record {
            reserved = sound.reserved;
            small = sound.small;
            main = record { knows = sound.main.knows; agrees = sound.main.agrees };
            subs = channel-subs size l ch w.subs sound.subs;
          };
          within = omega arith;
        })

    -- Each step takes 2 ^ 33 numbers at most.
    Reach-IsSoundWorld :
        (os : Os) (arch : Arch) (f : File) (n : ℕ) (w : World)
        → Agrees size f.tx
        → Reach size (new_world os arch f) n w
        → n < 2 ^ 30
        → (l : Ledger) × IsSoundWorld size l w × (w.shared.next_i ≤ 1000 + n * 2 ^ 33)
    unfolding new_world
    Reach-IsSoundWorld os arch f n w agrees here small =
        (none_given, new_world-IsSoundWorld size os arch f agrees, omega arith)
    Reach-IsSoundWorld os arch f n w agrees (next {n = m} {u} r st) small =
        let (l, sound, below) = Reach-IsSoundWorld os arch f m u agrees r (omega arith) in
        let v = Step-ServedWorld l u w sound (omega (arith, below, small)) st in
        (v.ledger, v.sound, omega (arith, v.within, below))

    -- Whatever a new database meets, lookups, unsigned files that come and go, that fail to open or open
    -- with other content, and that are looped over in any order, sub-databases that fail to open and
    -- then open, writes of the main and of the sub-databases, other channels: every package in the tree
    -- stands at its first number, between the special inodes and the counter, and no two ranges meet.
    -- So it is for less than 2 ^ 30 steps, if all database files agree on the inode count of a hash and
    -- every package, signed or not, has less than 2 ^ 32 inodes.
    pub Reach-IsApart :
        (os : Os) (arch : Arch) (f : File) (n : ℕ) (w : World)
        → Agrees size f.tx
        → Reach size (new_world os arch f) n w
        → n < 2 ^ 30
        → IsApart w.shared
    Reach-IsApart os arch f n w agrees r small =
        let (l, sound, _) = Reach-IsSoundWorld os arch f n w agrees r small in
        IsReserved-IsApart l w.shared sound.reserved
