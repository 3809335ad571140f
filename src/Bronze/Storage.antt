-- ===== src/Bronze/Storage.antt =====
-- src/ingestion/bronze/storage.py: the upload of an object to a new key, over any client of the
-- object storage. A client is boto3's, whose calls are the fields of `Client`; the laws are what
-- its documentation says of a conditional PUT.
use commerce_data_platform.Prelude.{
  ℕ, String, Bool, true, false, ◌&&◌, Option, none, some, ◌==◌, str_eq, if◌then◌else◌,
}
use Prim.Native.Char.{code}
use commerce_data_platform.Exceptions.{
  Exception, Result, ok, err, client_error, value_error, file_exists, runtime_error,
}
use commerce_data_platform.Action.{Action, pure, raise, lift, raise_if, catch, ◌>>=◌, ◌>>◌}

-- `StoredObject` without its key: what the storage keeps of the bytes.
pub record Blob : Type 0 where
  pub size : ℕ
  pub content_sha256 : String

-- The answer to a HEAD.
pub record Head : Type 0 where
  pub content_length : Option ℕ
  pub sha256 : Option String

-- The calls of an S3 client that the service makes.
pub record Client (S : Type 0) : Type 1 where
  pub head_object : String → Action S Head
  -- with `IfNoneMatch="*"`
  pub put_object : String → Blob → Action S (Unit {0})

-- `not key or key.startswith("/")`
unfoldable pub is_bad_key : String → Bool
is_bad_key String.[] = true
is_bad_key (String.◌∷◌ c s) = code c == 47

-- The status of a response that says that there is no object: its code is 404, `NoSuchKey` or
-- `NotFound`.
unfoldable pub is_status : ℕ → Exception → Bool
is_status n (client_error (some status)) = status == n
is_status n _ = false

unfoldable pub eq_text : Option String → String → Bool
eq_text none s = false
eq_text (some t) s = str_eq t s

unfoldable pub eq_size : Option ℕ → ℕ → Bool
eq_size none n = false
eq_size (some m) n = m == n

-- `_assert_object_head`
unfoldable pub assert_object_head : Head → Blob → Result (Unit {0})
assert_object_head head blob =
    if eq_size head.content_length blob.size && eq_text head.sha256 blob.content_sha256
    then ok tt
    else err runtime_error

module _ {S : Type 0} (client : Client S) where
  -- `_reject_existing_object`
  unfoldable pub absent_or_raise : Exception → Action S (Unit {0})
  absent_or_raise e = if is_status 404 e then pure tt else raise e

  unfoldable pub reject_existing_object : String → Action S (Unit {0})
  reject_existing_object key =
      catch (client.head_object key >>= λ head. raise {A = Unit {0}} file_exists) absent_or_raise

  -- `_upload_new`
  unfoldable pub exists_or_raise : Exception → Action S (Unit {0})
  exists_or_raise e = raise (if is_status 412 e then file_exists else e)

  unfoldable pub upload_new : String → Blob → Action S Blob
  upload_new key blob = do
    raise_if (is_bad_key key) value_error
    reject_existing_object key
    catch (client.put_object key blob) exists_or_raise
    head ← client.head_object key
    lift (assert_object_head head blob)
    pure blob
