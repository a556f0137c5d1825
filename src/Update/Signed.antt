-- ===== src/Update/Signed.antt =====
-- Which files apkgdb/update.go imports.
use apkg.Prelude.{
  ◌≡◌, ◌≢◌, ◌⊎◌, refl, ap, ◌∙◌, inl, inr, Bool, true, false, not, ◌&&◌, Option, none, some, [],
  if◌then◌else◌, arith, Bool-cases,
}
use apkg.Prelude.Bytes.{Bytes, bytes_eq, bytes_eq→eq, bytes_eq_refl}
use apkg.Errors.{Result, ok, err, Result-cases, bind-then}
use apkg.Format.{guard, guard-true}
use apkg.Bolt.{Bolt}
use apkg.Db.{File, Opens, current_version}
use apkg.Import.{Tools, index}
use apkg.Update.{
  Web, Token, db_key_name, signed_version, fetch, latest_token, wanted_for, wanted, download,
  update,
}

-- A token that names a version under the good signature of a trusted key.
pub record Signed (w : Web) (token version : Bytes) : Type 0 where
  pub parsed : Token
  pub key : Bytes
  pub parsed_is : w.parse token ≡ ok parsed
  pub key_is : w.decode parsed.key_id ≡ ok key
  pub known : db_key_name w.trusted parsed.key_id ≢ []
  pub good : parsed.verify key ≡ true
  pub version_is : parsed.ver ≡ version
  pub named : version ≢ []

-- The content that the server has for a version that a trusted key has signed, other than `v`.
pub record Offered (w : Web) (v content : Bytes) : Type 0 where
  pub token : Bytes
  pub version : Bytes
  pub signed : Signed w token version
  pub other : version ≢ v
  pub content_is : fetch w v version ≡ ok content

not_empty : (x : Bytes) → not (bytes_eq x []) ≡ true → x ≢ []
not_empty x h e = ground (arith, h, e, bytes_eq_refl x)

ok_bytes : (a b : Bytes) → ok a ≡ ok b → a ≡ b
ok_bytes a b h = ap (λ r. elim r [ ok x ↦ x | err e ↦ a ]) h

ok_content : (a b : Bytes) → ok (some a) ≡ ok (some b) → a ≡ b
ok_content a b h = ap (λ r. elim r [ ok none ↦ a | ok (some x) ↦ x | err e ↦ a ]) h

signed_version-Signed :
    (w : Web) (token version : Bytes) → signed_version w token ≡ ok version → Signed w token version
unfolding signed_version
signed_version-Signed w token version h = bind-then (w.parse token) _ version h (λ dec e h1.
    bind-then (guard (not (bytes_eq (db_key_name w.trusted dec.key_id) [])) _) _ version h1
      (λ u1 e1 h2. bind-then (w.decode dec.key_id) _ version h2 (λ key e2 h3.
        bind-then (guard (dec.verify key) _) _ version h3 (λ u2 e3 h4.
          bind-then (guard (not (bytes_eq dec.ver [])) _) _ version h4 (λ u3 e4 h5.
            let same = ok_bytes dec.ver version h5 in
            record {
              parsed = dec;
              key = key;
              parsed_is = e;
              key_is = e2;
              known = not_empty _ (guard-true _ _ u1 e1);
              good = guard-true _ _ u2 e3;
              version_is = same;
              named = rw (← same) (not_empty _ (guard-true _ _ u3 e4));
            })))))

-- A chain that gives a content did not stop at the test.
not_stopped :
    (t : Bool) (r : Result (Option Bytes)) (content : Bytes)
    → (if t then ok none else r) ≡ ok (some content)
    → (t ≡ false) × (r ≡ ok (some content))
not_stopped true r content h = absurd (cc)
not_stopped false r content h = (refl, h)

not_current :
    (v version : Bytes)
    → not (bytes_eq v []) && bytes_eq v version ≡ false
    → version ≢ []
    → version ≢ v
not_current v version t n e =
    let same : bytes_eq v version ≡ true = rw e (bytes_eq_refl v) in
    elim (Bool-cases (bytes_eq v [])) [
      | inl h ↦ n (e ∙ bytes_eq→eq v [] h)
      | inr h ↦ absurd (ground (arith, t, h, same))
    ]

wanted_for-Offered :
    (w : Web) (v token content : Bytes)
    → wanted_for w v token ≡ ok (some content)
    → Offered w v content
unfolding wanted_for
wanted_for-Offered w v token content h =
    bind-then (signed_version w token) _ (some content) h (λ version e h1.
      let signed = signed_version-Signed w token version e in
      let (t, h2) = not_stopped _ _ content h1 in
      bind-then (fetch w v version) _ (some content) h2 (λ c e1 h3. record {
        token = token;
        version = version;
        signed = signed;
        other = not_current v version t signed.named;
        content_is = e1 ∙ ap ok (ok_content c content h3);
      }))

-- The step that follows the token.
after_token :
    (w : Web) (v content : Bytes) (token : Option Bytes)
    → (elim token [ none ↦ ok none | some t ↦ wanted_for w v t ]) ≡ ok (some content)
    → Offered w v content
after_token w v content none h = absurd (cc)
after_token w v content (some t) h = wanted_for-Offered w v t content h

wanted-Offered :
    (w : Web) (v content : Bytes) → wanted w v ≡ ok (some content) → Offered w v content
unfolding wanted
wanted-Offered w v content h =
    bind-then (latest_token w) _ (some content) h (λ token e h1. after_token w v content token h1)

module _ ⦃bolt : Bolt⦄ where
  module _ (tools : Tools) (w : Web) (name : Bytes) (o : Opens) where
    -- What `download` leaves, by what there is to import.
    abbrev left : Result (Option Bytes) → File → File
    left (err e) f = f
    left (ok none) f = f
    left (ok (some content)) f = (index tools name o content f).1

    download-left : (v : Bytes) (f : File) → (download tools w name o v f).1 ≡ left (wanted w v) f
    unfolding download
    download-left v f = elim (Result-cases (wanted w v)) [
      | inl (none, e) ↦ rw (e, download) refl
      | inl (some content, e) ↦ elim (Result-cases (index tools name o content f).0) [
        | inl (u, h) ↦ rw (e, download, h) refl
        | inr (x, h) ↦ rw (e, download, h) refl
      ]
      | inr (x, e) ↦ rw (e, download) refl
    ]

    update-download :
        (f : File) → (update tools w name o f).1 ≡ (download tools w name o (current_version f) f).1
    unfolding update download
    update-download f = elim (Result-cases (download tools w name o (current_version f) f).0) [
      | inl (b, e) ↦ rw (e, update) refl
      | inr (x, e) ↦ rw (e, update) refl
    ]

    -- `update` never changes the file but by importing one content, and that is one that the server has
    -- for a version other than the current one, which a token names under a good signature of a trusted
    -- key.
    pub update-Offered :
        (f : File)
        → ((update tools w name o f).1 ≡ f)
          ⊎ ((content : Bytes) × Offered w (current_version f) content
              × ((update tools w name o f).1 ≡ (index tools name o content f).1))
    update-Offered f =
        let same = update-download f ∙ download-left (current_version f) f in
        elim (Result-cases (wanted w (current_version f))) [
          | inl (none, e) ↦ inl (same ∙ ap (λ r. left r f) e)
          | inl (some content, e) ↦
              inr (content, wanted-Offered w _ content e, same ∙ ap (λ r. left r f) e)
          | inr (x, e) ↦ inl (same ∙ ap (λ r. left r f) e)
        ]
