-- ===== src/Pin.antt =====
-- apkgdb/pin.go: version pins of the release channels, stored under `channel`, a zero byte and
-- `prefix`.
pub mod Laws
pub mod Listed
use apkg.Prelude.{
  ℕ, Bool, true, false, Option, none, some, List, [], ◌∷◌, ◌++◌, if◌then◌else◌, ◌||◌, length, drop,
}
use apkg.Prelude.Bytes.{Bytes, codes, bytes_eq, has_prefix}
use apkg.Prelude.Map.{insert}
use apkg.Errors.{Result, ok, err, ◌>>=◌}
use apkg.Bolt.{Bolt}
use apkg.Db.{Handle, closed, Opens, Tx, File, create, put_in, write, bytes_or_nil}

unfoldable pub pin_key : Bytes → Bytes → Bytes
pin_key channel prefix = channel ++ (0 ∷ prefix)

-- The loop over what a cursor gives from `pfx` on; it ends at the first key without that front.
unfoldable pub list_loop :
    Bytes → List (Bytes × Bytes) → List (Bytes × Bytes) → List (Bytes × Bytes)
list_loop pfx [] result = result
list_loop pfx ((k, v) ∷ rest) result =
    let further = list_loop pfx rest (insert (drop (length pfx) k) v result) in
    if has_prefix k pfx then further else result

module _ ⦃bolt : Bolt⦄ where
  open bolt use {Bucket, get, delete}

  put_pin : Bytes → Bytes → Tx → Result Tx
  put_pin k v tx = do b ← put_in (create tx.pins) k v; ok (record tx { pins = some b })

  unfoldable pub set_pin : Opens → Bytes → Bytes → Bytes → File → Result (Unit {0}) × File
  unfolding put_pin
  set_pin o channel prefix version = write o (put_pin (pin_key channel prefix) version)

  drop_pin : Bytes → Tx → Result Tx
  drop_pin k tx = elim tx.pins [
    | none ↦ ok tx
    | some b ↦ ok (record tx { pins = some (delete b k) })
  ]

  unfoldable pub delete_pin : Opens → Bytes → Bytes → File → Result (Unit {0}) × File
  unfolding drop_pin
  delete_pin o channel prefix = write o (drop_pin (pin_key channel prefix))

  -- The value under a key of the pins; the empty string where there is none.
  pinned : Option Bucket → Bytes → Bytes
  pinned none k = []
  pinned (some b) k = bytes_or_nil (get b k)

  unfoldable pub get_pin : Bytes → Bytes → File → Bytes
  unfolding pinned
  get_pin channel prefix f = elim f.dbptr [
    | closed ↦ []
    | _ ↦ pinned f.tx.pins (pin_key channel prefix)
  ]

  unfoldable pub lookup_pin_tx : Bytes → Tx → Bytes → Bytes
  unfolding pinned
  lookup_pin_tx channel tx name =
      if bytes_eq channel [] || bytes_eq channel (codes "latest")
      then []
      else pinned tx.pins (pin_key channel name)

module _ ⦃bolt : Bolt⦄ (seek : bolt.Bucket → Bytes → List (Bytes × Bytes)) where
  -- `ListPins`, a map or nil. `seek` is the cursor of bbolt: the entries from a key on.
  unfoldable pub list_pins : Bytes → File → Option (List (Bytes × Bytes))
  list_pins channel f =
      let pfx = channel ++ (0 ∷ []) in
      elim f.dbptr [
        | closed ↦ none
        | _ ↦ elim f.tx.pins [ none ↦ some [] | some b ↦ some (list_loop pfx (seek b pfx) []) ]
      ]
