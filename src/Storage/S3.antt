-- ===== src/Storage/S3.antt =====
-- src/platform/storage/s3-file-storage.ts. What the client of the store does with a request is an
-- argument: an answer or an error. A body is opaque, and presigned URLs are left out.
use nest_kit.Base.{
  ℕ, String, Bool, false, ◌||◌, Option, none, some, [], ◌∷◌, ◌=ₛ◌, ◌==◌, if◌then◌else◌, any,
}
use nest_kit.Texts.{Text}
use nest_kit.Errors.{AppError, not_found, internal, app_error}
use nest_kit.Effects.{Result, ok, err, and_then}
use nest_kit.Storage.{assert_usable_file_key}

pub record StoredFile : Type 0 where
  pub key : Text
  pub size : ℕ
  pub content_type : String

pub record FileContent {ℓ} (A : Type ℓ) : Type ℓ where
  pub stream : A
  pub size : ℕ
  pub content_type : String

abbrev pub file_not_found : AppError
file_not_found = app_error not_found "FILE_NOT_FOUND"

abbrev pub storage_unavailable : AppError
storage_unavailable = app_error internal "STORAGE_UNAVAILABLE"

-- An error of the client: its name and the status in its metadata, where it has them.
pub record S3Error : Type 0 where
  pub name : Option String
  pub http_status_code : Option ℕ

pub data Reply {ℓ} (A : Type ℓ) : Type ℓ where
  answered : A → Reply A
  failed : S3Error → Reply A

-- The answer to a GET, and without its body to a HEAD
pub record Answer {ℓ} (A : Type ℓ) : Type ℓ where
  pub body : A
  pub content_length : Option ℕ
  pub content_type : Option String

abbrev names_missing : Option String → Bool
names_missing none = false
names_missing (some name) = any (λ n. n =ₛ name) ("NoSuchKey" ∷ "NotFound" ∷ "404" ∷ [])

abbrev is_404 : Option ℕ → Bool
is_404 none = false
is_404 (some status) = status == 404

-- `isNotFound`
unfoldable pub is_not_found : S3Error → Bool
is_not_found e = names_missing e.name || is_404 e.http_status_code

-- `translate`
unfoldable pub translate : S3Error → AppError
translate e = if is_not_found e then file_not_found else storage_unavailable

abbrev or_else {ℓ} : {A : Type ℓ} → A → Option A → A
or_else fallback none = fallback
or_else fallback (some a) = a

abbrev octets : String
octets = "application/octet-stream"

abbrev content {ℓ} : {A : Type ℓ} → Reply (Answer A) → Result (FileContent A)
content (answered a) = ok (record {
  stream = a.body;
  size = or_else 0 a.content_length;
  content_type = or_else octets a.content_type;
})
content (failed e) = err (translate e)

-- `get`
unfoldable pub get {ℓ} : {A : Type ℓ} → Text → Reply (Answer A) → Result (FileContent A)
get key reply = and_then (assert_usable_file_key key) (λ _. content reply)

abbrev stored {ℓ} : {A : Type ℓ} → Text → Reply (Answer A) → Result (Option StoredFile)
stored key (answered a) = ok (
    some (record {
      key = key;
      size = or_else 0 a.content_length;
      content_type = or_else octets a.content_type;
    }))
stored key (failed e) = if is_not_found e then ok none else err (translate e)

-- `head`
unfoldable pub head {ℓ} : {A : Type ℓ} → Text → Reply (Answer A) → Result (Option StoredFile)
head key reply = and_then (assert_usable_file_key key) (λ _. stored key reply)

abbrev done {ℓ} : {A : Type ℓ} → Reply A → Result (Unit {0})
done (answered a) = ok tt
done (failed e) = err (translate e)

-- `put`: the upload, and the HEAD after it
unfoldable pub put {ℓ κ} :
    {A : Type ℓ} {B : Type κ} → Text → String → Reply A → Reply (Answer B) → Result StoredFile
put key content_type upload after = and_then (assert_usable_file_key key) (λ _.
    and_then (done upload) (λ _.
      and_then (head key after) (λ found.
        ok (or_else (record { key = key; size = 0; content_type = content_type }) found))))

-- `delete`
unfoldable pub delete {ℓ} : {A : Type ℓ} → Text → Reply A → Result (Unit {0})
delete key reply = and_then (assert_usable_file_key key) (λ _. done reply)
