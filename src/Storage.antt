-- ===== src/Storage.antt =====
-- src/shared/application/ports/file-storage.port.ts: the keys of stored files.
pub mod S3
use nest_kit.Base.{
  ℕ, Bool, not, ◌&&◌, ◌||◌, [], ◌∷◌, ltb, leb, ◌==◌, if◌then◌else◌, length, all, any,
}
use nest_kit.Texts.{Text, same, split, is_empty}
use nest_kit.Errors.{AppError, invalid, app_error}
use nest_kit.Effects.{Result, ok, err}

abbrev pub invalid_file_key : AppError
invalid_file_key = app_error invalid "INVALID_FILE_KEY"

-- `[A-Za-z0-9._-]`
abbrev is_key_char : ℕ → Bool
is_key_char c =
    (leb 65 c && leb c 90)
    || (leb 97 c && leb c 122)
    || (leb 48 c && leb c 57)
    || (c == 46)
    || (c == 95)
    || (c == 45)

abbrev is_key_segment : Text → Bool
is_key_segment t = not (is_empty t) && all is_key_char t

-- `KEY_PATTERN`
unfoldable pub is_key : Text → Bool
is_key t = all is_key_segment (split 47 t)

-- `segment === '.' || segment === '..'`
abbrev is_traversal : Text → Bool
is_traversal t = same t (46 ∷ []) || same t (46 ∷ 46 ∷ [])

-- `assertUsableFileKey`
unfoldable pub assert_usable_file_key : Text → Result (Unit {0})
assert_usable_file_key key =
    if is_empty key
    then err invalid_file_key
    else if ltb 512 (length key)
    then err invalid_file_key
    else if not (is_key key)
    then err invalid_file_key
    else if any is_traversal (split 47 key)
    then err invalid_file_key
    else ok tt
