-- ===== src/Bronze/Upload.antt =====
-- src/ingestion/bronze/storage.py: what an upload asks of the object storage before it goes through.
use Prim.Native.Char.{code}
use commerce_data_platform.Prelude.{
  ℕ, String, ◌≡◌, ◌≢◌, refl, sym, ap, ◌∙◌, if◌then◌else◌, Bool, true, false, some, inl, inr, arith,
  Bool-cases, Option-cases, str_eq_iff,
}
use commerce_data_platform.Exceptions.{
  Exception, Result, ok, err, value_error, file_exists, client_error,
}
use commerce_data_platform.Action.{
  Action, pure, raise, lift, raise_if, catch, handled, ◌>>=◌, ◌>>◌, >>=-ok, pure-ok, catch-ok,
}
use commerce_data_platform.Bronze.Storage.{
  Blob, Head, Client, is_bad_key, is_status, eq_text, eq_size, assert_object_head, absent_or_raise,
  reject_existing_object, exists_or_raise, upload_new,
}

-- Neither empty nor absolute.
abbrev pub IsGoodKey : String → Type 0
IsGoodKey String.[] = ⊥
IsGoodKey (String.◌∷◌ c s) = code c ≢ 47

is_bad_key-IsGoodKey : (key : String) → is_bad_key key ≡ false → IsGoodKey key
unfolding is_bad_key
is_bad_key-IsGoodKey String.[] h = absurd (cc)
is_bad_key-IsGoodKey (String.◌∷◌ c s) h = λ slash. absurd (ground arith)

module _ {S : Type 0} (client : Client S) (key : String) (blob : Blob) where
  -- The upload from its last steps on.
  abbrev after_put : Action S Blob
  after_put = client.head_object key >>= λ head. lift (assert_object_head head blob) >> pure blob

  abbrev after_absent : Action S Blob
  after_absent = catch (client.put_object key blob) (exists_or_raise client) >> after_put

  abbrev after_key : Action S Blob
  after_key = reject_existing_object client key >> after_absent

  -- What an upload that went through asked, and was told, in this order: the storage has no object
  -- under the key, it accepted the conditional PUT, and it has an object of the size and the hash
  -- that were given.
  pub record Asked (s s' : S) : Type 0 where
    pub before_put : S
    pub after_put : S
    pub head : Head
    pub absent : client.head_object key s ≡ (err (client_error (some 404)), before_put)
    pub accepted : client.put_object key blob before_put ≡ (ok tt, after_put)
    pub seen : client.head_object key after_put ≡ (ok head, s')
    pub size : head.content_length ≡ some blob.size
    pub hash : head.sha256 ≡ some blob.content_sha256

  is_status-error : (n : ℕ) (e : Exception) → is_status n e ≡ true → e ≡ client_error (some n)
  unfolding is_status
  is_status-error n e h = ground arith

  absent-status :
      (s s' : S)
      → reject_existing_object client key s ≡ (ok tt, s')
      → client.head_object key s ≡ (err (client_error (some 404)), s')
  unfolding reject_existing_object absent_or_raise is_status
  absent-status s s' h = go (client.head_object key s) refl h
    where
      go :
          (x : Result Head × S)
          → client.head_object key s ≡ x
          → handled
              (λ e. if is_status 404 e then pure tt else raise e)
              (elim x.0 [ ok head ↦ (err file_exists, x.1) | err e ↦ (err e, x.1) ])
            ≡ (ok tt, s')
          → client.head_object key s ≡ (err (client_error (some 404)), s')
      go (ok head, u) asked done = absurd (cc)
      go (err e, u) asked done = elim (Bool-cases (is_status 404 e)) [
        | inl missing ↦ rw asked (cc (is_status-error 404 e missing, rw missing at done))
        | inr other ↦ absurd (ground (arith, other))
      ]

  head-facts :
      (head : Head)
      → assert_object_head head blob ≡ ok tt
      → (head.content_length ≡ some blob.size) × (head.sha256 ≡ some blob.content_sha256)
  unfolding assert_object_head eq_size eq_text
  head-facts head h = elim (Option-cases head.content_length) [
    | inl e ↦ absurd (ground (arith, e))
    | inr (n, e) ↦ elim (Option-cases head.sha256) [
      | inl e1 ↦ absurd (ground (arith, e, e1))
      | inr (t, e1) ↦
          (ground (arith, e, e1), ground (arith, e, e1, str_eq_iff t blob.content_sha256))
    ]
  ]

  -- An upload that goes through, by whatever client, gives back the size and the hash that it was
  -- given, under a key that is neither empty nor absolute; and before it the storage answered that
  -- it had no object of the key, accepted the conditional PUT, and then reported that size and hash.
  pub upload_asks :
      (result : Blob) (s s' : S)
      → upload_new client key blob s ≡ (ok result, s')
      → (result ≡ blob) × IsGoodKey key × Asked s s'
  unfolding upload_new exists_or_raise
  upload_asks result s s' h =
      let (x, s1, h0, h1) =
        >>=-ok (raise_if (is_bad_key key) value_error) (λ x. after_key) s result s' h in
      let (y, s2, h2, h3) =
        >>=-ok (reject_existing_object client key) (λ y. after_absent) s1 result s' h1 in
      let (z, s3, h4, h5) =
        >>=-ok (catch (client.put_object key blob) (exists_or_raise client)) (λ z. after_put) s2
          result s' h3 in
      let (head, s4, h6, h7) =
        >>=-ok (client.head_object key) (λ head. lift (assert_object_head head blob) >> pure blob)
          s3 result s' h5 in
      let (u, s5, h8, h9) =
        >>=-ok (lift (assert_object_head head blob)) (λ u. pure blob) s4 result s' h7 in
      let (same, ends) = pure-ok h9 in
      let (size, hash) = head-facts head (ap (λ r. r.0) h8) in
      (
        sym same,
        is_bad_key-IsGoodKey key (passed (is_bad_key key) (ap (λ r. r.0) h0)),
        record {
          before_put = s2;
          after_put = s3;
          head = head;
          absent =
              absent-status s s2 (ap (reject_existing_object client key) (ap (λ r. r.1) h0) ∙ h2);
          accepted =
              catch-ok (client.put_object key blob) (exists_or_raise client) s2 tt s3
                (λ e u eq. never (is_status 412 e) e u eq) h4;
          seen = h6 ∙ ap (λ t. (ok head, t)) (ap (λ r. r.1) h8 ∙ ends);
          size = size;
          hash = hash;
        },
      )
    where
      passed : (b : Bool) {x : Unit {0}} → (if b then err value_error else ok tt) ≡ ok x → b ≡ false
      passed true h = absurd (cc)
      passed false h = refl

      never :
          (c : Bool) (e : Exception) (u : S) {t : S}
          → raise (if c then file_exists else e) u ≡ (ok tt, t)
          → ⊥
      never true e u h = cc
      never false e u h = cc
