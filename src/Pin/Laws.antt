-- ===== src/Pin/Laws.antt =====
-- What a pin of apkgdb/pin.go does to the pins that are read after it.
use apkg.Prelude.{
  ◌≡◌, ◌≢◌, refl, inl, inr, true, [], ◌∷◌, arith, if◌then◌else◌, All, Option-cases, Bool-cases,
  ◌&&◌,
}
use apkg.Prelude.Bytes.{Bytes, bytes_eq, bytes_eq→eq, bytes_eq_refl, codes}
use apkg.Errors.{ok}
use apkg.Bolt.{Bolt}
use apkg.Db.{closed, Opens, File, write, create}
use apkg.Pin.{pin_key, set_pin, delete_pin, get_pin, lookup_pin_tx}

abbrev pub HasNoZero : Bytes → Type 0
HasNoZero = All (λ c. c ≢ 0)

-- Channels without a zero byte keep their keys apart.
pub pin_key-injective :
    (c d p q : Bytes) → HasNoZero c → HasNoZero d → pin_key c p ≡ pin_key d q → (c ≡ d) × (p ≡ q)
unfolding pin_key
pin_key-injective [] [] p q hc hd e = (refl, cc)
pin_key-injective [] (y ∷ d) p q hc hd e = absurd (hd.0 (cc e))
pin_key-injective (x ∷ c) [] p q hc hd e = absurd (hc.0 (cc e))
pin_key-injective (x ∷ c) (y ∷ d) p q hc hd e =
    let (u, v) = pin_key-injective c d p q hc.1 hd.1 (cc e) in (cc (u, e), v)

bytes_eq-pin_key :
    (c d p q : Bytes)
    → HasNoZero c
    → HasNoZero d
    → bytes_eq (pin_key c p) (pin_key d q) ≡ (bytes_eq c d && bytes_eq p q)
bytes_eq-pin_key c d p q hc hd = elim (Bool-cases (bytes_eq (pin_key c p) (pin_key d q))) [
  | inl e ↦
      let (u, v) = pin_key-injective c d p q hc hd (bytes_eq→eq _ _ e) in
      rw (u, v) (simp bytes_eq_refl)
  | inr e ↦ rw e (ground (arith, bytes_eq→eq c d, bytes_eq→eq p q, e, bytes_eq_refl (pin_key c p)))
]

module _ ⦃bolt : Bolt⦄ where
  open bolt use {Bucket, get, put, get-put, get-delete, get-empty}

  -- After a `SetPin` that succeeded, on an open file and with the file reopened, a `GetPin` returns the
  -- new version at that channel and prefix, and what it returned before at every other channel and
  -- prefix. Both channels have no zero byte, which ends the channel in a key; a channel with a zero
  -- byte shares keys with another one.
  pub get_pin-set_pin :
      (o : Opens) (f : File) (c p v d q : Bytes)
      → HasNoZero c
      → HasNoZero d
      → f.dbptr ≢ closed
      → o.after ≡ true
      → (set_pin o c p v f).0 ≡ ok tt
      → get_pin d q (set_pin o c p v f).1
        ≡ (if bytes_eq c d && bytes_eq p q then v else get_pin d q f)
  unfolding set_pin get_pin write
  get_pin-set_pin o f c p v d q hc hd open_before reopened done =
      elim (Option-cases (put (create f.tx.pins) (pin_key c p) v)) [
        | inl e ↦ ground (arith, e)
        | inr (b, e) ↦ ground (
          arith,
          e,
          get-put (create f.tx.pins) b (pin_key c p) v (pin_key d q) e,
          get-empty (pin_key d q),
          bytes_eq-pin_key c d p q hc hd,
        )
      ]

  -- After a `DeletePin` that succeeded, on an open file and with the file reopened, `GetPin` returns the
  -- empty string at that channel and prefix, and what it returned before everywhere else, for channels
  -- without a zero byte.
  pub get_pin-delete_pin :
      (o : Opens) (f : File) (c p d q : Bytes)
      → HasNoZero c
      → HasNoZero d
      → f.dbptr ≢ closed
      → o.after ≡ true
      → (delete_pin o c p f).0 ≡ ok tt
      → get_pin d q (delete_pin o c p f).1
        ≡ (if bytes_eq c d && bytes_eq p q then [] else get_pin d q f)
  unfolding delete_pin get_pin write
  get_pin-delete_pin o f c p d q hc hd open_before reopened done = elim (Option-cases f.tx.pins) [
    | inl e ↦ ground (arith, e)
    | inr (b, e) ↦
        ground (arith, e, get-delete b (pin_key c p) (pin_key d q), bytes_eq-pin_key c d p q hc hd)
  ]

  -- On every other channel than "" and "latest" a lookup takes the pin that `GetPin` shows.
  pub lookup_pin_tx-get_pin :
      (f : File) (channel name : Bytes)
      → f.dbptr ≢ closed
      → channel ≢ []
      → channel ≢ codes "latest"
      → lookup_pin_tx channel f.tx name ≡ get_pin channel name f
  unfolding lookup_pin_tx get_pin
  lookup_pin_tx-get_pin f channel name h not_empty not_latest =
      ground (arith, bytes_eq→eq channel [], bytes_eq→eq channel (codes "latest"))
