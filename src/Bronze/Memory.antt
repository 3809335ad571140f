-- ===== src/Bronze/Memory.antt =====
-- An object storage in memory, with a client for it: a list of keys and objects. The examples run
-- on it.
use commerce_data_platform.Prelude.{
  String, Option, none, some, List, [], ◌∷◌, str_eq, if◌then◌else◌,
}
use commerce_data_platform.Exceptions.{ok, err, client_error}
use commerce_data_platform.Action.{Action}
use commerce_data_platform.Bronze.Storage.{Blob, Head, Client}

abbrev pub Objects : Type 0
Objects = List (String × Blob)

unfoldable pub object_at : String → Objects → Option Blob
object_at key [] = none
object_at key ((k, blob) ∷ rest) = if str_eq k key then some blob else object_at key rest

unfoldable pub head_list : String → Action Objects Head
head_list key s = elim (object_at key s) [
  | none ↦ (err (client_error (some 404)), s)
  | some blob ↦
      (ok (record { content_length = some blob.size; sha256 = some blob.content_sha256 }), s)
]

unfoldable pub put_list : String → Blob → Action Objects (Unit {0})
put_list key blob s = elim (object_at key s) [
  | none ↦ (ok tt, (key, blob) ∷ s)
  | some _ ↦ (err (client_error (some 412)), s)
]

abbrev pub list_client : Client Objects
list_client = record { head_object = head_list; put_object = put_list }
