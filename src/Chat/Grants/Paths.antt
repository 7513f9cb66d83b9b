-- ===== src/Chat/Grants/Paths.antt =====
-- Whether a grant's path is a file of the media directory (desktop/core/src/chat_wire/grants.rs and
-- protocol.rs), over the bytes of texts. An absolute path whose parts past the first slash are
-- plain is its root and those parts, which is what the source's `components` gives.
use fermix_linux.Base.{
  ℕ, Bool, true, false, not, ◌&&◌, ◌||◌, List, [], ◌∷◌, Option, none, some, inl, inr, ◌⊎◌, String,
  str_eq, leb, ◌==◌, if◌then◌else◌, length, all, filter, bytes_of, is_digit,
}
use fermix_linux.Chat.Wire.Rows.{Grant}

-- `b.is_ascii_digit() || (b'a'..=b'f').contains(&b)`
abbrev pub is_hex : ℕ → Bool
is_hex b = is_digit b || leb 97 b && leb b 102

unfoldable pub is_media_ref : String → Bool
is_media_ref text = (length (bytes_of text) == 64) && all is_hex (bytes_of text)

abbrev pub bytes_eq : List ℕ → List ℕ → Bool
bytes_eq [] [] = true
bytes_eq [] (_ ∷ _) = false
bytes_eq (_ ∷ _) [] = false
bytes_eq (a ∷ xs) (b ∷ ys) = (a == b) && bytes_eq xs ys

abbrev pub parts_eq : List (List ℕ) → List (List ℕ) → Bool
parts_eq [] [] = true
parts_eq [] (_ ∷ _) = false
parts_eq (_ ∷ _) [] = false
parts_eq (p ∷ ps) (r ∷ rs) = bytes_eq p r && parts_eq ps rs

-- What stands before the first slash, and the parts after it: `split('/')`.
unfoldable pub split_slashes : List ℕ → List ℕ × List (List ℕ)
split_slashes [] = ([], [])
split_slashes (b ∷ bytes) =
    let rest = split_slashes bytes in
    if b == 47 then ([], rest.0 ∷ rest.1) else (b ∷ rest.0, rest.1)

-- Neither "", "." nor ".."
abbrev pub is_plain : List ℕ → Bool
is_plain [] = false
is_plain (a ∷ []) = not (a == 46)
is_plain (a ∷ b ∷ []) = not ((a == 46) && (b == 46))
is_plain (_ ∷ _ ∷ _ ∷ _) = true

-- A part that `components` keeps: "" and "." it skips.
abbrev pub is_kept : List ℕ → Bool
is_kept [] = false
is_kept (a ∷ []) = not (a == 46)
is_kept (_ ∷ _ ∷ _) = true

-- `Path::is_absolute`
abbrev pub is_absolute : List ℕ → Bool
is_absolute [] = false
is_absolute (b ∷ _) = b == 47

-- All but the last part: the parts of `Path::parent`.
abbrev pub but_last : List (List ℕ) → List (List ℕ)
but_last [] = []
but_last (p ∷ []) = []
but_last (p ∷ r ∷ ps) = p ∷ but_last (r ∷ ps)

-- `Path::file_name`
abbrev pub file_name : List (List ℕ) → List ℕ
file_name [] = []
file_name (p ∷ []) = p
file_name (p ∷ r ∷ ps) = file_name (r ∷ ps)

-- What stands before the last dot.
abbrev pub before_dot : List ℕ → Option (List ℕ)
before_dot [] = none
before_dot (b ∷ bytes) = elim (before_dot bytes) [
  | some front ↦ some (b ∷ front)
  | none ↦ if b == 46 then some [] else none
]

-- `Path::file_stem`: a dot at the start is of the name.
abbrev pub file_stem : List ℕ → List ℕ
file_stem name = elim (before_dot name) [
  | none ↦ name
  | some [] ↦ name
  | some (b ∷ front) ↦ b ∷ front
]

-- The checks on the parts of an absolute path.
unfoldable pub verify_parts : Grant → String → List (List ℕ) → String ⊎ String
unfolding split_slashes
verify_parts grant media_dir parts =
    let kept = filter is_kept (split_slashes (bytes_of media_dir)).1 in
    if not (parts_eq (but_last parts) kept)
    then inl "its file is not in the media directory"
    else if not (bytes_eq (file_stem (file_name parts)) (bytes_of grant.ref))
    then inl "its file is not named by its ref"
    else inr grant.path

-- The grant's file, or why it is none. The media directory is an absolute path.
unfoldable pub verify : Grant → String → String ⊎ String
unfolding is_media_ref verify_parts
verify grant media_dir =
    let bytes = bytes_of grant.path in
    let parts = (split_slashes bytes).1 in
    if not (str_eq grant.sha256 grant.ref) || not (is_media_ref grant.ref)
    then inl "its digest is not its ref"
    else if not (is_absolute bytes) || not (all is_plain parts)
    then inl "its path is not a plain absolute one"
    else verify_parts grant media_dir parts
