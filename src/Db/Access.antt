-- ===== src/Db/Access.antt =====
-- apkgdb/write.go: what a write leaves behind, on every branch.
use apkg.Prelude.{◌≡◌, ◌⊎◌, arith}
use apkg.Errors.{Error, Result, ok, err}
use apkg.Bolt.{Bolt}
use apkg.Db.{closed, read_only, Opens, Tx, File, write}

module _ ⦃bolt : Bolt⦄ where
  -- A write never leaves the file open for writing, and what it does to the content is all or
  -- nothing: the content of the body where the write succeeds, and the old content where it fails.
  pub write_atomic :
      (o : Opens) (body : Tx → Result Tx) (f : File)
      → (((write o body f).1.dbptr ≡ read_only) ⊎ ((write o body f).1.dbptr ≡ closed))
        × ((((write o body f).0 ≡ ok tt) × (body f.tx ≡ ok (write o body f).1.tx))
            ⊎ ((e : Error) × ((write o body f).0 ≡ err e) × ((write o body f).1.tx ≡ f.tx)))
  unfolding write
  write_atomic o body f = ground arith
