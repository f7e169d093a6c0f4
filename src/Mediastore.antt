-- ===== src/Mediastore.antt =====
-- internal/mediastore/mediastore.go: files named by the SHA-256 of their bytes. `sha256` is the hash
-- in hex. A path below the root is given by its parts: the hash, which is also the directory by its
-- first two digits, the extension, and whether ".tmp" follows. `Faults` says which of the calls of
-- the operating system fail; a write that fails leaves some bytes behind.
pub mod Addressed
use whatsmeow_api.Prelude.{
  ℕ, String, Bool, true, false, ◌&&◌, ◌||◌, Option, none, some, List, length, eqb, ◌==◌,
  if◌then◌else◌,
}
use whatsmeow_api.Text.{codes_eq}
use whatsmeow_api.Errors.{Result, ok, err, failure}
use whatsmeow_api.Table

pub record MediaPath : Type 0 where
  pub sha : List ℕ
  pub ext : String
  pub is_tmp : Bool

pub record MediaFile : Type 0 where
  pub path : MediaPath
  pub body : List ℕ

pub record Faults : Type 0 where
  pub mkdir_fails : Bool
  pub write_fails : Option (List ℕ)
  pub rename_fails : Bool

abbrev pub file_key : MediaFile → MediaPath
file_key f = f.path

abbrev pub same_bool : Bool → Bool → Bool
same_bool true b = b
same_bool false b = if b then false else true

abbrev pub path_eq : MediaPath → MediaPath → Bool
path_eq p q = codes_eq p.sha q.sha && p.ext == q.ext && same_bool p.is_tmp q.is_tmp

unfoldable pub ext_from_mime : String → String
ext_from_mime m =
    if m == "image/jpeg" || m == "image/jpg"
    then ".jpg"
    else if m == "image/png"
    then ".png"
    else if m == "image/webp"
    then ".webp"
    else if m == "image/gif"
    then ".gif"
    else if m == "image/heic"
    then ".heic"
    else if m == "video/mp4"
    then ".mp4"
    else if m == "video/quicktime"
    then ".mov"
    else if m == "video/webm"
    then ".webm"
    else if m == "audio/ogg" || m == "audio/ogg; codecs=opus"
    then ".ogg"
    else if m == "audio/mpeg"
    then ".mp3"
    else if m == "audio/aac"
    then ".aac"
    else if m == "audio/wav"
    then ".wav"
    else if m == "application/pdf"
    then ".pdf"
    else if m == "application/zip"
    then ".zip"
    else if m == "application/x-tar"
    then ".tar"
    else if m == "text/plain"
    then ".txt"
    else ".bin"

-- `os.Stat` finds a file of the right size.
abbrev pub has_size : ℕ → Option MediaFile → Bool
has_size n none = false
has_size n (some f) = eqb (length f.body) n

abbrev pub tmp_of : MediaPath → MediaPath
tmp_of p = record p { is_tmp = true }

-- `os.Rename` of the temporary file that was written, or its removal.
unfoldable pub renamed :
    Bool → List ℕ → MediaPath → List MediaFile → Result (List ℕ × MediaPath) × List MediaFile
renamed rename_fails body path files =
    let moved = Table.delete file_key path_eq (tmp_of path) files in
    if rename_fails then (err (failure "mediastore rename"), moved) else (
      ok (path.sha, path),
      Table.put file_key path_eq (record { path = path; body = body }) moved,
    )

abbrev pub written :
    Option (List ℕ)
    → Bool
    → List ℕ
    → MediaPath
    → List MediaFile
    → Result (List ℕ × MediaPath) × List MediaFile
written (some partial) rename_fails body path files = (
  err (failure "mediastore write tmp"),
  Table.put file_key path_eq (record { path = tmp_of path; body = partial }) files,
)
written none rename_fails body path files =
    renamed rename_fails body path
      (Table.put file_key path_eq (record { path = tmp_of path; body = body }) files)

module _ (sha256 : List ℕ → List ℕ) where
  unfoldable pub media_path : List ℕ → String → MediaPath
  unfolding ext_from_mime
  media_path body mime = record { sha = sha256 body; ext = ext_from_mime mime; is_tmp = false }

  unfoldable pub write :
      Faults → List ℕ → String → List MediaFile → Result (List ℕ × MediaPath) × List MediaFile
  unfolding media_path renamed
  write faults body mime files =
      let path = media_path body mime in
      if has_size (length body) (Table.find file_key path_eq path files)
      then (ok (path.sha, path), files)
      else if faults.mkdir_fails
      then (err (failure "mediastore mkdir"), files)
      else written faults.write_fails faults.rename_fails body path files
