-- ===== src/Update.antt =====
-- apkgdb/update.go: `download` and `update`, the check for a new version of the database. The transport
-- is a parameter; that a temporary file cannot be written is not among the results.
pub mod Signed
use apkg.Prelude.{
  Bool, true, false, not, ◌&&◌, Option, none, some, List, [], ◌∷◌, ◌++◌, if◌then◌else◌, ◌==◌, ℕ,
}
use apkg.Prelude.Bytes.{Bytes, codes, bytes_eq}
use apkg.Prelude.Map.{lookup}
use apkg.Errors.{message, Result, ok, err, ◌>>=◌}
use apkg.Format.{guard}
use apkg.Bolt.{Bolt}
use apkg.Db.{File, Opens, bytes_or_nil, current_version}
use apkg.Import.{Tools, index}

-- An answer of the server: the status, and what reading the body gives.
pub record Response : Type 0 where
  pub status : ℕ
  pub body : Result Bytes

-- A parsed token of github.com/KarpelesLab/jwt: the key id, whether the signature is good under a key,
-- and `ver` of the payload.
pub record Token : Type 0 where
  pub key_id : Bytes
  pub verify : Bytes → Bool
  pub ver : Bytes

-- What the code calls: HTTP, `bytes.TrimSpace`, the parser of tokens and base64; and the table of the
-- trusted database keys with their names. `base` is `prefix/db/name/os/arch/`.
pub record Web : Type 0 where
  pub base : Bytes
  pub get : Bytes → Result Response
  pub trim_space : Bytes → Bytes
  pub parse : Bytes → Result Token
  pub decode : Bytes → Result Bytes
  pub trusted : List (Bytes × Bytes)

-- apkgsig's `DbKeyName`
unfoldable pub db_key_name : List (Bytes × Bytes) → Bytes → Bytes
db_key_name trusted k = bytes_or_nil (lookup k trusted)

-- The version that a token names, once its key and its signature are checked.
unfoldable pub signed_version : Web → Bytes → Result Bytes
signed_version w token = do
  dec ← w.parse token
  _ ←
      guard (not (bytes_eq (db_key_name w.trusted dec.key_id) []))
        (message "unknown key used for jwt signature")
  key ← w.decode dec.key_id
  _ ← guard (dec.verify key) (message "invalid signature")
  _ ← guard (not (bytes_eq dec.ver [])) (message "invalid version in signed jwt")
  ok dec.ver

-- The whole database of a version.
unfoldable pub fetch_full : Web → Bytes → Result Bytes
fetch_full w version = do
  resp ← w.get (w.base ++ (version ++ codes ".bin"))
  _ ← guard (resp.status == 200) (message "failed to fetch latest database")
  resp.body

-- The delta from `v`, or the whole database where there is none; the empty `v` is no version.
unfoldable pub fetch : Web → Bytes → Bytes → Result Bytes
fetch w v version =
    if bytes_eq v []
    then fetch_full w version
    else elim (w.get (w.base ++ (v ++ (b'-' ∷ (version ++ codes ".bin"))))) [
      | err e ↦ err e
      | ok resp ↦ if resp.status == 200 then resp.body else fetch_full w version
    ]

-- The token of the latest version; none where the database is new.
unfoldable pub latest_token : Web → Result (Option Bytes)
latest_token w = do
  resp ← w.get (w.base ++ codes "LATEST.jwt")
  _ ← guard (resp.status == 200) (message "failed to fetch information on latest database version")
  body ← resp.body
  let token = w.trim_space body
  ok (if bytes_eq token (codes "NEW") then none else some token)

-- The file to import for a token, if there is one: `v` is the version that is here.
unfoldable pub wanted_for : Web → Bytes → Bytes → Result (Option Bytes)
wanted_for w v token = do
  version ← signed_version w token
  (if not (bytes_eq v []) && bytes_eq v version
      then ok none
      else (do content ← fetch w v version; ok (some content)))

unfoldable pub wanted : Web → Bytes → Result (Option Bytes)
wanted w v = do token ← latest_token w; elim token [ none ↦ ok none | some t ↦ wanted_for w v t ]

module _ ⦃bolt : Bolt⦄ where
  -- Whether a file was imported; `name` is the database's, and what the write meets is in `o`.
  unfoldable pub download : Tools → Web → Bytes → Opens → Bytes → File → Result Bool × File
  download tools w name o v f = elim (wanted w v) [
    | err e ↦ (err e, f)
    | ok none ↦ (ok false, f)
    | ok (some content) ↦
        let (r, g) = index tools name o content f in
        elim r [ err e ↦ (err e, g) | ok u ↦ (ok true, g) ]
  ]

  unfoldable pub update : Tools → Web → Bytes → Opens → File → Result (Unit {0}) × File
  update tools w name o f =
      let (r, g) = download tools w name o (current_version f) f in
      elim r [ err e ↦ (err e, g) | ok b ↦ (ok tt, g) ]
